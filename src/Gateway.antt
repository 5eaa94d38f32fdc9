-- ===== src/Gateway.antt =====
-- src/master_gateway.c: the gateway's status line. A line is the characters written so far; `used`
-- is its length, and the terminating zero stands behind it.
pub mod Text
use Prim.Native.String.{String}
use Prim.Native.Char.{code}
use iolinki_master.Base.{
  ℕ, zero, suc, ◌+◌, ◌*◌, ◌/◌, ◌%◌, ◌^◌, not, ◌&&◌, ◌||◌, if◌then◌else◌, ◌==◌, ltb, bit_and, Option,
  none, some, is_none, List, [], ◌∷◌, ◌++◌, get_or, take, length, ℤ, eq_ℤ,
}
use iolinki_master.Iolinki.{Iolinki}
use iolinki_master.Types.Codes.{status_ok, status_pending, err_invalid_arg, err_buffer_too_small}
use iolinki_master.Types.State.{DeviceInfo, Port}
use iolinki_master.Params.Page1.{get_device_info}
use iolinki_master.Isdu.Service.{octets_of}
use iolinki_master.Port.Status.{get_pd_in}

-- The characters of an ASCII text.
abbrev pub codes : String → List ℕ
codes String.[] = []
codes (String.◌∷◌ c s) = code c ∷ codes s

-- `none` is the result -1.
unfoldable pub gateway_append : ℕ → List ℕ → ℕ → Option (List ℕ)
gateway_append out_len line ch =
    if ltb out_len (length line + 2) then none else some (line ++ (ch ∷ []))

-- The append calls in a row.
unfoldable pub append_all : ℕ → List ℕ → List ℕ → Option (List ℕ)
unfolding gateway_append
append_all out_len line [] = some line
append_all out_len line (ch ∷ chars) = elim (gateway_append out_len line ch) [
  | none ↦ none
  | some line' ↦ append_all out_len line' chars
]

-- The digits of a number, the last one first, on the three rounds that a uint8 needs.
unfoldable pub dec_digits : ℕ → ℕ → List ℕ
dec_digits zero n = []
dec_digits (suc rounds) n =
    let rest = dec_digits rounds (n / 10) in (b'0' + n % 10) ∷ (if n / 10 == 0 then [] else rest)

-- The digits are appended from the last one collected down.
unfoldable pub append_reversed : ℕ → List ℕ → List ℕ → Option (List ℕ)
unfolding gateway_append
append_reversed out_len line [] = some line
append_reversed out_len line (ch ∷ chars) = elim (append_reversed out_len line chars) [
  | none ↦ none
  | some line' ↦ gateway_append out_len line' ch
]

unfoldable pub gateway_append_u8_dec : ℕ → List ℕ → ℕ → Option (List ℕ)
unfolding dec_digits append_reversed
gateway_append_u8_dec out_len line value = append_reversed out_len line (dec_digits 3 value)

-- `k_hex`
unfoldable pub hex_digit : ℕ → ℕ
hex_digit n = get_or (codes "0123456789abcdef") n 0

-- The loop runs from digit `width` down.
unfoldable pub gateway_append_hex : ℕ → List ℕ → ℕ → ℕ → Option (List ℕ)
unfolding gateway_append hex_digit
gateway_append_hex out_len line value zero = some line
gateway_append_hex out_len line value (suc width) =
    elim (gateway_append out_len line (hex_digit (bit_and (value / 2 ^ (width * 4)) 0x0f))) [
      | none ↦ none
      | some line' ↦ gateway_append_hex out_len line' value width
    ]

unfoldable pub append_octets : ℕ → List ℕ → List ℕ → Option (List ℕ)
unfolding gateway_append_hex
append_octets out_len line [] = some line
append_octets out_len line (x ∷ xs) = elim (gateway_append_hex out_len line x 2) [
  | none ↦ none
  | some line' ↦ append_octets out_len line' xs
]

-- IOLINK_MASTER_GATEWAY_LINE_MAX
abbrev pub gateway_line_max : ℕ
gateway_line_max = 128

infixl 5 ◌>>=◌
abbrev ◌>>=◌ : Option (List ℕ) → (List ℕ → Option (List ℕ)) → Option (List ℕ)
none >>= f = none
some line >>= f = f line

-- The line built in the local buffer.
unfoldable pub build_line : ℕ → DeviceInfo → List ℕ → Option (List ℕ)
build_line port_index info pd = do
  line ← append_all gateway_line_max [] (codes "iolinki-gw/1 ")
  line ← gateway_append_u8_dec gateway_line_max line port_index
  line ← gateway_append gateway_line_max line b' '
  line ← gateway_append_hex gateway_line_max line info.vendor_id 4
  line ← gateway_append gateway_line_max line b' '
  line ← gateway_append_hex gateway_line_max line info.device_id 8
  line ← gateway_append gateway_line_max line b' '
  line ←
      if length pd == 0
      then gateway_append gateway_line_max line b'-'
      else append_octets gateway_line_max line pd
  gateway_append gateway_line_max line 10

-- `none` is a NULL `pd_in`; the text copied to `out`, if there is one.
unfoldable pub format_gateway_line :
    Iolinki → ℕ → DeviceInfo → Option (List ℕ) → ℕ → ℕ → ℤ × Option (List ℕ)
unfolding build_line
format_gateway_line L port_index info pd_in pd_in_len out_len =
    if out_len == 0
      || not info.valid
      || ltb L.pd_in_max_size pd_in_len
      || (ltb 0 pd_in_len && is_none pd_in)
    then (err_invalid_arg, none)
    else elim (build_line port_index info (take pd_in_len (octets_of pd_in))) [
      | none ↦ (err_buffer_too_small, none)
      | some line ↦
          if ltb out_len (length line + 1)
          then (err_buffer_too_small, none)
          else (status_ok, some line)
    ]

unfoldable pub write_gateway_line : {W : Type 0} → Iolinki → Port W → ℕ → ℕ → ℤ × Option (List ℕ)
unfolding format_gateway_line
write_gateway_line L p port_index out_len =
    let (ret, info) = get_device_info p in
    let (got, pd, pd_len) = get_pd_in p L.pd_in_max_size in
    if out_len == 0
    then (err_invalid_arg, none)
    else if not (eq_ℤ ret status_ok)
    then (ret, none)
    else if eq_ℤ got status_pending
    then format_gateway_line L port_index info none 0 out_len
    else if not (eq_ℤ got status_ok)
    then (got, none)
    else format_gateway_line L port_index info (some pd) pd_len out_len
