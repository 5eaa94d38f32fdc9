-- ===== src/Gateway/Text.antt =====
-- The text of the gateway's status line in src/master_gateway.c, described without the buffer.
use iolinki_master.Base.{
  append_assoc, append-nil, ℕ, zero, suc, ◌+◌, ◌*◌, ◌/◌, ◌%◌, ◌^◌, ◌≤◌, ◌<◌, ◌≡◌, refl, ap, ◌∙◌,
  true, arith, ltb, if◌then◌else◌, none, some, List, [], ◌∷◌, ◌++◌, length, length-append, bit_and,
  ◌==◌, take_all,
}
use iolinki_master.Iolinki.{Iolinki}
use iolinki_master.Types.Codes.{status_ok, err_buffer_too_small}
use iolinki_master.Types.State.{DeviceInfo}
use iolinki_master.Gateway.{
  codes, gateway_append, append_all, dec_digits, append_reversed, gateway_append_u8_dec, hex_digit,
  gateway_append_hex, append_octets, gateway_line_max, build_line, format_gateway_line,
}

-- The digits of an octet in base ten, without leading zeros.
unfoldable pub decimal : ℕ → List ℕ
decimal n =
    if ltb n 10
    then (b'0' + n) ∷ []
    else if ltb n 100
    then (b'0' + n / 10) ∷ (b'0' + n % 10) ∷ []
    else (b'0' + n / 100) ∷ (b'0' + n / 10 % 10) ∷ (b'0' + n % 10) ∷ []

-- The last `width` digits of a number in base sixteen, the highest first.
unfoldable pub hexadecimal : ℕ → ℕ → List ℕ
hexadecimal value zero = []
hexadecimal value (suc width) =
    hex_digit (bit_and (value / 2 ^ (width * 4)) 0x0f) ∷ hexadecimal value width

-- Two digits for each octet.
unfoldable pub hex_octets : List ℕ → List ℕ
unfolding hexadecimal
hex_octets [] = []
hex_octets (x ∷ xs) = hexadecimal x 2 ++ hex_octets xs

-- The line: the version, the port, the vendor, the device and the process data, or a dash.
unfoldable pub line_text : ℕ → DeviceInfo → List ℕ → List ℕ
unfolding hexadecimal decimal hex_octets
line_text port_index info pd =
    let port = codes "iolinki-gw/1 " ++ decimal port_index in
    let vendor = (port ++ b' ' ∷ []) ++ hexadecimal info.vendor_id 4 in
    let device = (vendor ++ b' ' ∷ []) ++ hexadecimal info.device_id 8 in
    let octets = (device ++ b' ' ∷ []) ++ (if length pd == 0 then b'-' ∷ [] else hex_octets pd) in
    octets ++ 10 ∷ []

module _ (n : ℕ) where
  gateway_append-fits :
      (line : List ℕ) (c : ℕ)
      → length line + 1 < n
      → gateway_append n line c ≡ some (line ++ c ∷ [])
  unfolding gateway_append
  gateway_append-fits line c h = ground arith

  -- Characters fit into the buffer beside the terminating zero.
  append_all-fits :
      (line chars : List ℕ)
      → length line + length chars < n
      → append_all n line chars ≡ some (line ++ chars)
  unfolding append_all
  append_all-fits line [] h = rw (append_all, append-nil line)
  append_all-fits line (c ∷ chars) h = rw (
    append_all,
    gateway_append-fits line c (omega arith),
    append_all-fits (line ++ c ∷ []) chars (omega (arith, length-append line (c ∷ []))),
    append_assoc line (c ∷ []) chars,
  )

  hex-fits :
      (line : List ℕ) (value width : ℕ)
      → length line + width < n
      → gateway_append_hex n line value width ≡ some (line ++ hexadecimal value width)
  unfolding gateway_append_hex hexadecimal
  hex-fits line value zero h = rw (gateway_append_hex, hexadecimal, append-nil line)
  hex-fits line value (suc width) h =
      let d : ℕ = hex_digit (bit_and (value / 2 ^ (width * 4)) 0x0f) in
      rw (
        gateway_append_hex,
        hexadecimal,
        gateway_append-fits line d (omega arith),
        hex-fits (line ++ d ∷ []) value width (omega (arith, length-append line (d ∷ []))),
        append_assoc line (d ∷ []) (hexadecimal value width),
      )

  length-hexadecimal : (value width : ℕ) → length (hexadecimal value width) ≡ width
  unfolding hexadecimal
  length-hexadecimal value zero = refl
  length-hexadecimal value (suc width) = ap suc (length-hexadecimal value width)

  octets-fit :
      (line octets : List ℕ)
      → length line + 2 * length octets < n
      → append_octets n line octets ≡ some (line ++ hex_octets octets)
  unfolding append_octets hex_octets
  octets-fit line [] h = rw (append_octets, hex_octets, append-nil line)
  octets-fit line (x ∷ xs) h = rw (
    append_octets,
    hex_octets,
    hex-fits line x 2 (omega arith),
    octets-fit (line ++ hexadecimal x 2) xs
        (omega (arith, length-append line (hexadecimal x 2), length-hexadecimal x 2)),
    append_assoc line (hexadecimal x 2) (hex_octets xs),
  )

  -- The characters of a list from the last one down.
  backwards : List ℕ → List ℕ
  backwards [] = []
  backwards (c ∷ chars) = backwards chars ++ c ∷ []

  reversed-fits :
      (line chars : List ℕ)
      → length line + length chars < n
      → (append_reversed n line chars ≡ some (line ++ backwards chars))
        × (length (backwards chars) ≡ length chars)
  unfolding append_reversed backwards
  reversed-fits line [] h = (rw (append-nil line), refl)
  reversed-fits line (c ∷ chars) h =
      let (e, l) = reversed-fits line chars (omega arith) in
      (
        rw (
          e,
          gateway_append-fits (line ++ backwards chars) c
              (omega (arith, length-append line (backwards chars), l)),
          append_assoc line (backwards chars) (c ∷ []),
        ),
        omega (arith, length-append (backwards chars) (c ∷ []), l),
      )

  backwards-digits :
      (v : ℕ) → v < 256 → (backwards (dec_digits 3 v) ≡ decimal v) × (length (dec_digits 3 v) ≤ 3)
  unfolding backwards dec_digits decimal
  backwards-digits v h = ground arith

  decimal-fits :
      (line : List ℕ) (v : ℕ)
      → v < 256
      → length line + 3 < n
      → (gateway_append_u8_dec n line v ≡ some (line ++ decimal v)) × (length (decimal v) ≤ 3)
  unfolding gateway_append_u8_dec
  decimal-fits line v h hl =
      let (e, l) = backwards-digits v h in
      let (f, k) = reversed-fits line (dec_digits 3 v) (omega arith) in
      (f ∙ ap (λ chars. some (line ++ chars)) e, omega (arith, ap (λ chars. length chars) e))

length-hex_octets : (octets : List ℕ) → length (hex_octets octets) ≡ 2 * length octets
unfolding hex_octets
length-hex_octets [] = refl
length-hex_octets (x ∷ xs) = omega (
  arith,
  length-append (hexadecimal x 2) (hex_octets xs),
  length-hexadecimal 0 x 2,
  length-hex_octets xs,
)

data-fits :
    (line pd : List ℕ)
    → length line + 2 * length pd + 1 < gateway_line_max
    → (if length pd == 0
        then gateway_append gateway_line_max line b'-'
        else append_octets gateway_line_max line pd)
      ≡ some (line ++ (if length pd == 0 then b'-' ∷ [] else hex_octets pd))
data-fits line [] h = gateway_append-fits gateway_line_max line b'-' (omega arith)
data-fits line (x ∷ xs) h = ground (arith, octets-fit gateway_line_max line (x ∷ xs))

length-data :
    (pd : List ℕ) → length (if length pd == 0 then b'-' ∷ [] else hex_octets pd) ≤ 2 * length pd + 1
length-data [] = omega arith
length-data (x ∷ xs) = ground (arith, length-hex_octets (x ∷ xs))

-- For a port of one octet and at most 32 octets of process data, the line built in the local
-- buffer of 128 characters is the text of the line, with its terminating zero inside the buffer.
build_line-line_text :
    (port_index : ℕ) (info : DeviceInfo) (pd : List ℕ)
    → port_index < 256
    → length pd ≤ 32
    → (build_line port_index info pd ≡ some (line_text port_index info pd))
      × (length (line_text port_index info pd) < gateway_line_max)
unfolding line_text build_line
build_line-line_text port_index info pd hp hd =
    let (f, d) =
      decimal-fits gateway_line_max (codes "iolinki-gw/1 ") port_index hp (omega arith) in
    let port : List ℕ = codes "iolinki-gw/1 " ++ decimal port_index in
    let lp : length port ≤ 16 =
      omega (arith, length-append (codes "iolinki-gw/1 ") (decimal port_index), d) in
    let port' : List ℕ = port ++ b' ' ∷ [] in
    let lp' : length port' ≤ 17 = omega (arith, length-append port (b' ' ∷ []), lp) in
    let vendor : List ℕ = port' ++ hexadecimal info.vendor_id 4 in
    let lv : length vendor ≤ 21 = omega (
      arith,
      length-append port' (hexadecimal info.vendor_id 4),
      length-hexadecimal 0 info.vendor_id 4,
    ) in
    let vendor' : List ℕ = vendor ++ b' ' ∷ [] in
    let lv' : length vendor' ≤ 22 = omega (arith, length-append vendor (b' ' ∷ [])) in
    let device : List ℕ = vendor' ++ hexadecimal info.device_id 8 in
    let ld : length device ≤ 30 = omega (
      arith,
      length-append vendor' (hexadecimal info.device_id 8),
      length-hexadecimal 0 info.device_id 8,
    ) in
    let device' : List ℕ = device ++ b' ' ∷ [] in
    let ld' : length device' ≤ 31 = omega (arith, length-append device (b' ' ∷ [])) in
    let body : List ℕ = if length pd == 0 then b'-' ∷ [] else hex_octets pd in
    let lo : length (device' ++ body) ≤ 96 =
      omega (arith, length-append device' body, length-data pd) in
    (
      rw (
        build_line,
        append_all-fits gateway_line_max [] (codes "iolinki-gw/1 ") (omega arith),
        f,
        gateway_append-fits gateway_line_max port b' ' (omega arith),
        hex-fits gateway_line_max port' info.vendor_id 4 (omega arith),
        gateway_append-fits gateway_line_max vendor b' ' (omega arith),
        hex-fits gateway_line_max vendor' info.device_id 8 (omega arith),
        gateway_append-fits gateway_line_max device b' ' (omega arith),
        data-fits device' pd (omega arith),
        gateway_append-fits gateway_line_max (device' ++ body) 10 (omega arith),
      ),
      omega (arith, length-append (device' ++ body) (10 ∷ [])),
    )

-- For valid device information and process data of the length given, in a library whose process
-- data has at most 32 octets, the caller's buffer receives the text of the line exactly if it has
-- room for it and its terminating zero; otherwise it is left alone and reported as too small.
pub format_gateway_line-line_text :
    (L : Iolinki) (port_index : ℕ) (info : DeviceInfo) (pd : List ℕ) (out_len : ℕ)
    → L.pd_in_max_size ≤ 32
    → port_index < 256
    → info.valid ≡ true
    → length pd ≤ L.pd_in_max_size
    → 0 < out_len
    → format_gateway_line L port_index info (some pd) (length pd) out_len ≡ (
        if ltb (length (line_text port_index info pd)) out_len
        then (status_ok, some (line_text port_index info pd))
        else (err_buffer_too_small, none))
unfolding format_gateway_line
format_gateway_line-line_text L port_index info pd out_len hl hp hv hd ho =
    rw
      (
        take_all pd (length pd) (omega arith),
        (build_line-line_text port_index info pd hp (omega arith)).0,
      )
      (ground arith)
