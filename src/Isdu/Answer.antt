-- ===== src/Isdu/Answer.antt =====
-- The positive response to a request of src/master_isdu.c: its octets, and what the decoding makes
-- of them.
use iolinki_master.Base.{
  append_assoc, ℕ, ◌+◌, ◌*◌, ◌/◌, ◌%◌, ◌^◌, ◌≤◌, ◌<◌, ◌≡◌, ◌≢◌, refl, sym, ap, ◌∙◌, true, false,
  inl, inr, arith, if◌then◌else◌, ◌==◌, ltb, leb, u8, List, [], ◌∷◌, ◌++◌, get_or, take, drop,
  length, length-append, take-append, drop-append, take-append-drop, Bool-cases,
}
use iolinki_master.Iolinki.{Iolinki}
use iolinki_master.Bytes.{Octets-append, and_nibble, Octets}
use iolinki_master.Types.State.{Isdu}
use iolinki_master.Isdu.Transport.{
  isdu_chkpdu, chkpdu_from, move_down, payload_start, payload_len, isdu_decode_response,
  decode_positive,
}
use iolinki_master.Isdu.Request.{chkpdu_sealed}
use iolinki_master.Isdu.Collecting.{IsCollecting}

-- The octets of a response before the payload: the service, and the length of all, which takes a
-- second octet if it does not fit into the nibble.
unfoldable pub response_head : ℕ → ℕ → List ℕ
response_head service n =
    if leb n 13 then (service * 16 + (n + 2)) ∷ [] else (service * 16 + 1) ∷ (n + 3) ∷ []

-- A response: its head, the payload, and the octet that makes the checksum 0.
unfoldable pub encode_response : ℕ → List ℕ → List ℕ
encode_response service payload =
    let octets = response_head service (length payload) ++ payload in
    octets ++ (chkpdu_from 0 octets ∷ [])

module _ (service : ℕ) (payload : List ℕ) (hs : service < 16) (pos : 1 ≤ service)
    (few : length payload ≤ 235) (o : Octets payload) where
  head-Octets : Octets (response_head service (length payload))
  unfolding response_head
  head-Octets = ground arith

  response-sealed : chkpdu_from 0 (encode_response service payload) ≡ 0
  unfolding encode_response
  response-sealed =
      chkpdu_sealed (response_head service (length payload) ++ payload)
        (Octets-append (response_head service (length payload)) payload head-Octets o)

  -- The first octet tells the service and where the payload starts.
  pub head_lem :
      (get_or (response_head service (length payload)) 0 0 / 16 ≡ service)
      × (get_or (response_head service (length payload)) 0 0 < 256)
      × (2 ≤ get_or (response_head service (length payload)) 0 0)
      × ((if get_or (response_head service (length payload)) 0 0 % 16 == 1 then 2 else 1)
          ≡ length (response_head service (length payload)))
  unfolding response_head
  head_lem = ground arith

head_octet : (xs ys : List ℕ) → 0 < length xs → get_or (xs ++ ys) 0 0 ≡ get_or xs 0 0
head_octet [] ys h = absurd (omega arith)
head_octet (x ∷ xs) ys h = refl

empty : (xs : List ℕ) → length xs ≡ 0 → xs ≡ []
empty [] h = refl
empty (x ∷ xs) h = absurd (omega arith)

take-move_down :
    (head payload rest : List ℕ)
    → take (length payload) (move_down (head ++ (payload ++ rest)) (length head) (length payload))
      ≡ payload
unfolding move_down
take-move_down head payload rest =
    let moved : take (length payload) (drop (length head) (head ++ (payload ++ rest))) ≡ payload =
      ap (λ xs. take (length payload) xs) (drop-append head (payload ++ rest))
      ∙ take-append payload rest in
    rw (moved) (take-append payload (drop (length payload) (head ++ (payload ++ rest))))

pub length-head : (service n : ℕ) → 0 < length (response_head service n)
unfolding response_head
length-head service n = ground arith

pub length-encode_response :
    (service : ℕ) (payload : List ℕ)
    → length (encode_response service payload)
      ≡ length (response_head service (length payload)) + length payload + 1
unfolding encode_response
length-encode_response service payload =
    let head : List ℕ = response_head service (length payload) in
    omega (
      arith,
      length-append (head ++ payload) (chkpdu_from 0 (head ++ payload) ∷ []),
      length-append head payload,
    )

module _ (L : Iolinki) (base s : Isdu) (service : ℕ) (payload : List ℕ) (n : ℕ)
    (size : L.isdu_buffer_size < 65536) (hs : service < 16) (pos : 1 ≤ service)
    (few : length payload ≤ 235) (o : Octets payload)
    (c : IsCollecting L base s (encode_response service payload) n) where
  abbrev head : List ℕ
  head = response_head service (length payload)

  -- The buffer: the head, the payload, and what stands behind it.
  pub buffer_lem : (rest : List ℕ) × (s.response ≡ head ++ (payload ++ rest))
  buffer_lem =
      let r : List ℕ = encode_response service payload in
      let check : List ℕ = chkpdu_from 0 (head ++ payload) ∷ [] in
      let junk : List ℕ = drop (length r) s.response in
      (
        check ++ junk,
        sym (take-append-drop (length r) s.response)
            ∙ ap (λ xs. xs ++ junk) c.octets
            ∙ unfold encode_response in
              append_assoc (head ++ payload) check junk ∙ append_assoc head payload (check ++ junk),
      )

  pub checked : isdu_chkpdu s.response s.response_len ≡ 0
  unfolding isdu_chkpdu
  checked =
      ap (λ k. chkpdu_from 0 (take k s.response)) c.len
      ∙ ap (λ xs. chkpdu_from 0 xs) c.octets
      ∙ response-sealed service payload hs pos few o

  pub first_lem : get_or s.response 0 0 ≡ get_or head 0 0
  first_lem =
      let (rest, e) = buffer_lem in
      ap (λ xs. get_or xs 0 0) e
      ∙ head_octet head (payload ++ rest) (length-head service (length payload))

  start_lem : payload_start L s ≡ length head
  unfolding payload_start
  start_lem =
      let (q, b, l, e) = head_lem service payload hs pos few o in
      rw (first_lem, and_nibble (get_or head 0 0) b) e

  len_lem : payload_len L s ≡ length payload
  unfolding payload_len
  len_lem = omega (arith, start_lem, c.len, length-encode_response service payload, few)

  payload_lem :
      take (length payload) (
        if ltb 0 (payload_len L s)
        then move_down s.response (payload_start L s) (payload_len L s)
        else s.response)
      ≡ payload
  payload_lem =
      let (rest, e) = buffer_lem in
      rw (len_lem, start_lem, e)
        (elim (Bool-cases (ltb 0 (length payload))) [
          | inl some_octets ↦ rw (some_octets) (take-move_down head payload rest)
          | inr nothing ↦
              let z : length payload ≡ 0 = ground (arith, nothing) in
              rw (nothing) (ap (λ k. take k (head ++ (payload ++ rest))) z ∙ sym (empty payload z))
        ])

  -- What the decoding makes of the response.
  pub decoded_lem :
      (service ≢ 4) × (service ≢ 12)
      → ((isdu_decode_response L s).done ≡ true)
        × ((isdu_decode_response L s).op ≡ base.op)
        × ((isdu_decode_response L s).index ≡ base.index)
        × ((isdu_decode_response L s).subindex ≡ base.subindex)
        × ((isdu_decode_response L s).error ≡ base.error)
        × ((isdu_decode_response L s).response_len ≡ length payload)
        × (take (length payload) (isdu_decode_response L s).response ≡ payload)
  unfolding isdu_decode_response decode_positive
  decoded_lem positive =
      let (q, b, l, e) = head_lem service payload hs pos few o in
      let is : u8 (get_or s.response 0 0 / 2 ^ 4) ≡ service =
        rw (first_lem) (omega (arith, q, hs)) in
      let four : (service == 4) ≡ false = ground (arith, positive) in
      let twelve : (service == 12) ≡ false = ground (arith, positive) in
      rw (checked, is, four, twelve)
        (refl, c.same.op, c.same.index, c.same.subindex, c.same.error, len_lem, payload_lem)
