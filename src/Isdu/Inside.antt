-- ===== src/Isdu/Inside.antt =====
-- The response buffer of src/master_isdu.c: the steps on a response that comes in.
use iolinki_master.Base.{
  ℕ, ◌+◌, ◌%◌, ◌≤◌, ◌<◌, ◌≡◌, ◌≢◌, false, ◌⊎◌, inl, inr, arith, ◌==◌, bit_xor, List, [], ◌∷◌,
  get_or, take, drop, length, length-append, length-take, length-drop,
}
use iolinki_master.Iolinki.{Iolinki}
use iolinki_master.Bytes.{zero-xor, xor-eq-zero, and_nibble}
use iolinki_master.Types.Limits.{isdu_chkpdu_len}
use iolinki_master.Types.State.{response, Isdu}
use iolinki_master.Isdu.Transport.{
  isdu_chkpdu, move_down, payload_start, payload_len, isdu_decode_response, decode_negative,
  decode_positive,
}

-- The buffer of the response has its full size and the octets received fit into it.
pub record IsBounded (L : Iolinki) (s : Isdu) : Type 0 where
  pub size : length s.response ≡ L.isdu_buffer_size
  pub len : s.response_len ≤ L.isdu_buffer_size

length-move_down :
    (buf : List ℕ) (start n : ℕ)
    → start + n ≤ length buf
    → length (move_down buf start n) ≡ length buf
unfolding move_down
length-move_down buf start n h = omega (
  arith,
  length-append (take n (drop start buf)) (drop n buf),
  length-take n (drop start buf),
  length-drop start buf,
  length-drop n buf,
)

chkpdu_two :
    (xs : List ℕ)
    → 2 ≤ length xs
    → get_or xs 0 0 < 256
    → isdu_chkpdu xs 2 ≡ bit_xor (get_or xs 0 0) (get_or xs 1 0)
unfolding isdu_chkpdu
chkpdu_two [] h o = absurd (omega arith)
chkpdu_two (x ∷ []) h o = absurd (omega arith)
chkpdu_two (x ∷ y ∷ xs) h o = rw (zero-xor x o)

-- The first octet of a response, and its length nibble.
abbrev pub first : Isdu → ℕ
first s = get_or s.response 0 0

-- A response that is not complete yet: it starts with an octet that is no idle or busy marker;
-- its length is known and has room for a payload and the check octet, or the octet that holds it
-- is the next one.
pub record IsPartial (s : Isdu) : Type 0 where
  pub phase : s.phase ≡ response
  pub octet : (2 ≤ first s) × (first s < 256)
  pub some_octets : 1 ≤ s.response_len
  pub length_known :
      ((s.expected_len ≡ 0) × (s.response_len ≡ 1) × (first s % 16 ≡ 1))
      ⊎ ((2 ≤ s.expected_len)
          × (s.response_len < s.expected_len)
          × ((first s % 16 ≢ 1) ⊎ (3 ≤ s.expected_len)))

module _ (L : Iolinki) (size : L.isdu_buffer_size < 65536) where
  decode_negative-IsBounded : (s : Isdu) → IsBounded L s → IsBounded L (decode_negative L s)
  unfolding decode_negative
  decode_negative-IsBounded s b = ground (arith, b.size, b.len)

  decode_positive-IsBounded :
      (s : Isdu)
      → IsBounded L s
      → payload_start L s + isdu_chkpdu_len ≤ s.response_len
      → IsBounded L (decode_positive L s)
  unfolding decode_positive payload_len
  decode_positive-IsBounded s b h =
      ground
        (arith, b.size, b.len, length-move_down s.response (payload_start L s) (payload_len L s))

  -- A response that is decoded has a check octet that fails, or room for the payload.
  decode-IsBounded :
      (s : Isdu)
      → IsBounded L s
      → (isdu_chkpdu s.response s.response_len == 0) ≡ false
        ⊎ (payload_start L s + isdu_chkpdu_len ≤ s.response_len)
      → IsBounded L (isdu_decode_response L s)
  unfolding isdu_decode_response
  decode-IsBounded s b h =
      ground (arith, b.size, b.len, decode_negative-IsBounded s b, decode_positive-IsBounded s b)

  -- A complete response of known length.
  pub complete-IsBounded :
      (s : Isdu)
      → IsBounded L s
      → (2 ≤ first s) × (first s < 256)
      → 2 ≤ s.response_len
      → ((first s % 16 ≡ 1) → 3 ≤ s.response_len)
      → IsBounded L (isdu_decode_response L s)
  unfolding payload_start
  complete-IsBounded s b f h h' = decode-IsBounded s b (inr (ground (arith, and_nibble (first s))))

  -- A response of two octets with the length in the second one fails its check.
  pub short-IsBounded :
      (s : Isdu)
      → IsBounded L s
      → (2 ≤ first s) × (first s < 256)
      → first s % 16 ≡ 1
      → s.response_len ≡ 2
      → get_or s.response 1 0 < 3
      → IsBounded L (isdu_decode_response L s)
  short-IsBounded s b f h l k = decode-IsBounded s b (
      inl (
        rw (l, chkpdu_two s.response (omega (arith, b.size, b.len)) f.1)
          (ground (arith, xor-eq-zero (first s) (get_or s.response 1 0) f.1))))
