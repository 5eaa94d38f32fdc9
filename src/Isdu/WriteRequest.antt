-- ===== src/Isdu/WriteRequest.antt =====
-- The Write Request that src/master_isdu.c stages, read back by the decoder of `Isdu.Request`.
use iolinki_master.Base.{
  append_assoc, ℕ, suc, ◌+◌, ◌-◌, ◌*◌, ◌/◌, ◌^◌, ◌%◌, ◌≤◌, ◌<◌, ◌≡◌, refl, ap, ◌∙◌, ◌⊎◌, inl, inr,
  Bool, true, false, Bool-cases, ◌||◌, if◌then◌else◌, ◌==◌, ltb, leb, bit_and, bit_or, u8, u16,
  some, List, [], ◌∷◌, ◌++◌, length, take, length-append, take-append, length-take, arith,
}
use iolinki_master.Bytes.{Octets-append, Octets-take, Octets, and_nibble, or_nibbles_table}
use iolinki_master.Types.State.{Isdu}
use iolinki_master.Iolinki.{Iolinki}
use iolinki_master.Isdu.Transport.{isdu_index_len}
use iolinki_master.Isdu.Service.{index_octets, seal_request, stage_write, write_too_long}
use iolinki_master.Isdu.Request.{
  Request, all_but_last, decode_body, decode_checked, decode_request, staged, format_cases,
}

all_but_last-append : (xs : List ℕ) (x : ℕ) → all_but_last (xs ++ (x ∷ [])) ≡ xs
all_but_last-append xs x =
    let n : length (xs ++ (x ∷ [])) - 1 ≡ length xs = omega (arith, length-append xs (x ∷ [])) in
    rw n (take-append xs (x ∷ []))

abbrev write_request : ℕ → ℕ → List ℕ → Request
write_request index subindex octets = record {
  read = false;
  index = index;
  subindex = subindex;
  octets = octets;
}

-- What the proof needs of the Index and Subindex octets.
record Indexed (index subindex n : ℕ) (xs : List ℕ) : Type 0 where
  positive : 1 ≤ n
  at_most : n ≤ 3
  len : length xs ≡ n
  octets : Octets xs
  decodes :
      (rest : List ℕ)
      → decode_body false n (xs ++ rest) ≡ some (write_request index subindex (all_but_last rest))

Indexed-index_octets :
    (index subindex : ℕ)
    → index < 65536
    → subindex < 256
    → Indexed index subindex (isdu_index_len index subindex) (index_octets index subindex)
unfolding decode_body
Indexed-index_octets index subindex hi hs =
    format_cases index subindex hi (Indexed index subindex)
      (λ lt z. record {
        positive = omega arith;
        at_most = omega arith;
        len = refl;
        octets = (lt, tt);
        decodes = λ rest. rw z;
      })
      (λ lt. record {
        positive = omega arith;
        at_most = omega arith;
        len = refl;
        octets = (lt, (hs, tt));
        decodes = λ rest. refl;
      })
      (record {
        positive = omega arith;
        at_most = omega arith;
        len = refl;
        octets = (omega arith, (omega arith, (hs, tt)));
        decodes = λ rest. ground arith;
      })

-- The first octets of the request, by its total length.
abbrev write_head : ℕ → ℕ → List ℕ
write_head n total =
    if leb total 15
    then u8 (bit_or (n * 2 ^ 4) (u8 (bit_and total 15))) ∷ []
    else u8 (bit_or (n * 2 ^ 4) 0x01) ∷ u8 (total + 1) ∷ []

abbrev write_body : ℕ → List ℕ → List ℕ → ℕ → List ℕ
write_body n xs octets len = write_head n (u16 (1 + n + len + 1)) ++ xs ++ take len octets

nibble_mask : (x : ℕ) → x < 16 → u8 (bit_and x 15) ≡ x
nibble_mask x h = ground (arith, and_nibble x)

-- The first octet of a short request carries the total length.
head_direct : (n total : ℕ) → n ≤ 3 → total ≤ 15 → write_head n total ≡ (n * 16 + total) ∷ []
head_direct n total hn ht = ground (arith, nibble_mask total, or_nibbles_table n total)

-- The first two octets of a long one: ExtLength counts itself too.
head_extended :
    (n total : ℕ)
    → n ≤ 3
    → 15 < total
    → total ≤ 237
    → write_head n total ≡ (n * 16 + 1) ∷ (total + 1) ∷ []
head_extended n total hn lo hi = ground (arith, or_nibbles_table n 1)

module _ (index subindex n : ℕ) (xs octets : List ℕ) (len : ℕ) (buf : List ℕ)
    (ix : Indexed index subindex n xs) (os : Octets octets) (full : len ≤ length octets)
    (room : len + 7 ≤ length buf) where
  payload-len : length (take len octets) ≡ len
  payload-len = omega (arith, length-take len octets)

  body-Octets : Octets (xs ++ take len octets)
  body-Octets = Octets-append xs (take len octets) ix.octets (Octets-take len octets os)

  body-len : length (xs ++ take len octets) ≡ n + len
  body-len = omega (arith, length-append xs (take len octets), payload-len, ix.len)

  -- The body with any octet behind it is decoded to the payload.
  body_decodes :
      (chk : ℕ)
      → decode_body false n ((xs ++ take len octets) ++ (chk ∷ []))
        ≡ some (write_request index subindex (take len octets))
  body_decodes chk = rw append_assoc (
      ix.decodes (take len octets ++ (chk ∷ []))
      ∙ ap (λ d. some (write_request index subindex d)) (all_but_last-append (take len octets) chk))

  whole-len : (chk : ℕ) → length ((xs ++ take len octets) ++ (chk ∷ [])) ≡ n + len + 1
  whole-len chk = omega (arith, length-append (xs ++ take len octets) (chk ∷ []), body-len)

  decode_direct :
      (chk : ℕ)
      → n + len + 2 ≤ 15
      → decode_checked (n * 16 + (n + len + 2)) ((xs ++ take len octets) ++ (chk ∷ []))
        ≡ some (write_request index subindex (take len octets))
  unfolding decode_checked
  decode_direct chk h =
      let t = n * 16 + (n + len + 2) in
      let long : (t % 16 == 1) ≡ false = ground arith in
      let fits : (t % 16 == suc (length ((xs ++ take len octets) ++ (chk ∷ [])))) ≡ true =
        ground (arith, whole-len chk) in
      let write : leb 8 (t / 16) ≡ false = ground arith in
      let format : t / 16 % 8 ≡ n = omega arith in rw (long, fits, write, format) (body_decodes chk)

  decode_ext :
      (chk : ℕ)
      → 17 ≤ n + len + 2
      → decode_checked (n * 16 + 1) ((n + len + 3) ∷ (xs ++ take len octets) ++ (chk ∷ []))
        ≡ some (write_request index subindex (take len octets))
  unfolding decode_checked
  decode_ext chk h =
      let t = n * 16 + 1 in
      let long : (t % 16 == 1) ≡ true = ground arith in
      let fits : ((n + len + 3) == suc (suc (length ((xs ++ take len octets) ++ (chk ∷ [])))))
          ≡ true =
        ground (arith, whole-len chk) in
      let write : leb 8 (t / 16) ≡ false = ground arith in
      let format : t / 16 % 8 ≡ n = omega arith in rw (long, fits, write, format) (body_decodes chk)

  -- The staged stream.
  abbrev write_stream : List ℕ
  write_stream =
      take (u8 (length (write_body n xs octets len) + 1))
        (seal_request buf (write_body n xs octets len))

  abbrev total : ℕ
  total = u16 (1 + n + len + 1)

  stream_direct :
      n + len + 2 ≤ 15
      → decode_request write_stream ≡ some (write_request index subindex (take len octets))
  stream_direct h =
      let t : total ≡ n + len + 2 = omega arith in
      let head : write_head n total ≡ (n * 16 + (n + len + 2)) ∷ [] =
        rw t (head_direct n (n + len + 2) ix.at_most h) in
      let size : u8 (suc (length (xs ++ take len octets)) + 1)
          ≡ suc (suc (length (xs ++ take len octets))) =
        omega (arith, body-len) in
      rw (head, size)
        (staged buf (n * 16 + (n + len + 2)) (xs ++ take len octets) _ (omega arith, body-Octets)
          (omega (arith, body-len)) (decode_direct _ h))

  stream_extended :
      17 ≤ n + len + 2
      → n + len + 3 ≤ 238
      → decode_request write_stream ≡ some (write_request index subindex (take len octets))
  stream_extended lo hi =
      let t : total ≡ n + len + 2 = omega arith in
      let rest = (n + len + 3) ∷ (xs ++ take len octets) in
      let head : write_head n total ≡ (n * 16 + 1) ∷ (n + len + 3) ∷ [] = rw t (
        head_extended n (n + len + 2) ix.at_most (omega arith) (omega arith)
        ∙ ap (λ e. (n * 16 + 1) ∷ e ∷ []) (omega arith)) in
      let size : u8 (suc (length rest) + 1) ≡ suc (suc (length rest)) = omega (arith, body-len) in
      rw (head, size)
        (staged buf (n * 16 + 1) rest _ (omega arith, (omega arith, body-Octets))
          (omega (arith, body-len)) (decode_ext _ lo))

write_stream_staged :
    (L : Iolinki) (s : Isdu) (index subindex : ℕ) (octets : List ℕ) (len : ℕ)
    → take
        (stage_write L s index subindex octets len).request_len
        (stage_write L s index subindex octets len).request
      ≡ take
          (u8 (
            length
              (write_body (isdu_index_len index subindex) (index_octets index subindex) octets len)
            + 1))
          (seal_request s.request
            (write_body (isdu_index_len index subindex) (index_octets index subindex) octets len))
unfolding stage_write
write_stream_staged L s index subindex octets len = refl

-- What the length test lets through.
abbrev refused_at : ℕ → ℕ → ℕ → Bool
refused_at size n len =
    let total = u16 (1 + n + len + 1) in
    ltb (u8 (size + 256 - 7)) len
    || ltb 238 (if ltb 15 total then total + 1 else total)
    || total == 16

module _ (size n len : ℕ) (hl : len < 256) (lo : 7 ≤ size) (hi : size ≤ 262) (hn : n ≤ 3)
    (fits : refused_at size n len ≡ false) where
  payload_fits : len + 7 ≤ size
  payload_fits = ground arith

  length_fits : (n + len + 2 ≤ 15) ⊎ ((17 ≤ n + len + 2) × (n + len + 3 ≤ 238))
  length_fits = elim (Bool-cases (leb (n + len + 2) 15)) [
    | inl small ↦ inl (ground arith)
    | inr large ↦ inr (ground arith, ground arith)
  ]

-- A device that decodes the Write Request staged by `write_isdu` gets back the index, the subindex
-- and the payload of the caller, for every payload that the length test of `write_isdu` lets
-- through: the declared length, direct or extended, is the length of the stream, and the checksum
-- over it is 0. The request buffer has `isdu_buffer_size` octets, between 7 and 262.
pub decode-stage_write :
    (L : Iolinki) (s : Isdu) (index subindex : ℕ) (octets : List ℕ) (len : ℕ)
    → index < 65536
    → subindex < 256
    → Octets octets
    → len < 256
    → len ≤ length octets
    → length s.request ≡ L.isdu_buffer_size
    → 7 ≤ L.isdu_buffer_size
    → L.isdu_buffer_size ≤ 262
    → write_too_long L index subindex len ≡ false
    → decode_request (
        take
          (stage_write L s index subindex octets len).request_len
          (stage_write L s index subindex octets len).request)
      ≡ some (record { read = false; index = index; subindex = subindex; octets = take len octets })
decode-stage_write L s index subindex octets len hi hs os hl full buf lo up fits =
    let ix = Indexed-index_octets index subindex hi hs in
    let passed : refused_at L.isdu_buffer_size (isdu_index_len index subindex) len ≡ false =
      unfold write_too_long in fits in
    let room : len + 7 ≤ length s.request =
      omega (arith, payload_fits L.isdu_buffer_size _ len hl lo up ix.at_most passed) in
    rw (write_stream_staged L s index subindex octets len)
      (elim (length_fits L.isdu_buffer_size _ len hl lo up ix.at_most passed) [
        | inl short ↦ stream_direct index subindex _ _ octets len s.request ix os full room short
        | inr long ↦
            stream_extended index subindex _ _ octets len s.request ix os full room long.0 long.1
      ])
