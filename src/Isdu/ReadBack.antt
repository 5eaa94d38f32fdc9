-- ===== src/Isdu/ReadBack.antt =====
-- A Read Request of src/master_isdu.c from the first octet of the response to the reply of
-- iolink_master_read_isdu.
use mathlib.Core.Path.{subst}
use iolinki_master.Base.{
  ℕ, ◌+◌, ◌*◌, ◌≤◌, ◌<◌, ◌≡◌, ◌≢◌, refl, sym, ap, ◌∙◌, Bool, true, false, inl, inr, arith, u8, ltb,
  leb, ◌==◌, List, [], ◌∷◌, ◌++◌, take, length, length-append, Bool-cases,
}
use iolinki_master.Iolinki.{Iolinki}
use iolinki_master.Bytes.{Octets}
use iolinki_master.Types.Codes.{status_ok}
use iolinki_master.Types.State.{wait, IsduOp, Isdu, Port, op_read, is_op_none}
use iolinki_master.Isdu.Transport.{
  isdu_busy, isdu_matches, chkpdu_from, isdu_decode_response, on_od_octet, on_od_loop,
}
use iolinki_master.Isdu.Service.{read_isdu, isdu_finish_read, is_online}
use iolinki_master.Isdu.Collecting.{IsSame, IsCollecting, stored}
use iolinki_master.Isdu.Response.{
  collect, first_direct, first_extended, second_extended, on_od_loop-Busy, Busy,
}
use iolinki_master.Isdu.Answer.{response_head, encode_response, decoded_lem}
use iolinki_master.Isdu.Pieces.{concat, feed, feed-loop, loop-more}

-- A request of some service has gone out and its response is awaited.
pub record IsAwaiting (L : Iolinki) (s : Isdu) (op : IsduOp) (ix sub : ℕ) : Type 0 where
  pub same_op : s.op ≡ op
  pub running : is_op_none s.op ≡ false
  pub index : s.index ≡ ix
  pub subindex : s.subindex ≡ sub
  pub phase : s.phase ≡ wait
  pub done : s.done ≡ false
  pub error : s.error ≡ L.isdu_error_none
  pub size : length s.response ≡ L.isdu_buffer_size

module _ (L : Iolinki) (s : Isdu) (service : ℕ) (payload tail : List ℕ)
    (size : L.isdu_buffer_size < 65536) (hs : service < 16) (pos : 1 ≤ service)
    (few : length payload ≤ 235) (phase : s.phase ≡ wait)
    (room : length s.response ≡ L.isdu_buffer_size)
    (fits : length (encode_response service payload) ≤ L.isdu_buffer_size) where
  -- The payload and the checksum.
  abbrev rest : List ℕ
  rest = payload ++ chkpdu_from 0 (response_head service (length payload) ++ payload) ∷ []

  self : IsSame s s
  self = record { op = refl; index = refl; subindex = refl; error = refl; done = refl }

  -- What the loop makes of a whole response: it decodes a buffer that holds it.
  abbrev IsReceived : Type 0
  IsReceived =
      (s' : Isdu) × (n : ℕ) × (on_od_loop L s (encode_response service payload ++ tail)
        ≡ isdu_decode_response L s')
      × IsCollecting L s s' (encode_response service payload) n

  length-rest : length rest ≡ length payload + 1
  length-rest = length-append payload _

  direct_lem :
      leb (length payload) 13 ≡ true
      → encode_response service payload ≡ (service * 16 + (length payload + 2)) ∷ rest
  unfolding encode_response response_head
  direct_lem h = rw (h) refl

  extended_lem :
      leb (length payload) 13 ≡ false
      → encode_response service payload ≡ (service * 16 + 1) ∷ (length payload + 3) ∷ rest
  unfolding encode_response response_head
  extended_lem h = rw (h) refl

  direct : leb (length payload) 13 ≡ true → IsReceived
  direct h =
      let e = direct_lem h in
      let small : length payload ≤ 13 = ground (arith, h) in
      let n : ℕ = length payload + 2 in
      let b : ℕ = service * 16 + n in
      let all : length (encode_response service payload) ≡ n =
        ap length e ∙ omega (arith, length-rest) in
      let (more, c) =
        first_direct L size s s n b (self, phase, room) (omega arith) (omega arith) (omega arith)
          (omega arith) (omega (arith, all)) in
      let (s', f, c') =
        collect L size s rest tail (on_od_octet L s b).1 (b ∷ []) n c (omega (arith, length-rest))
          (omega arith) (omega (arith, all)) in
      (
        s',
        n,
        ap (λ xs. on_od_loop L s (xs ++ tail)) e ∙ loop-more L s b (rest ++ tail) more ∙ f,
        subst (λ xs. IsCollecting L s s' xs n) (sym e) c',
      )

  extended : leb (length payload) 13 ≡ false → IsReceived
  extended h =
      let e = extended_lem h in
      let large : 13 < length payload = ground (arith, h) in
      let n : ℕ = length payload + 3 in
      let b : ℕ = service * 16 + 1 in
      let all : length (encode_response service payload) ≡ n =
        ap length e ∙ omega (arith, length-rest) in
      let (more, c) =
        first_extended L size s s b (self, phase, room) (omega arith) (omega arith) (omega arith)
          (omega (arith, all)) in
      let s1 : Isdu = (on_od_octet L s b).1 in
      let (second, c1) =
        second_extended L size s s1 n b c (omega arith) (omega arith) (omega arith)
          (omega (arith, all)) in
      let (s', f, c') =
        collect L size s rest tail (record (stored L size s s1 n) { expected_len = n }) (b ∷ n ∷ [])
          n c1 (omega (arith, length-rest)) (omega arith) (omega (arith, all)) in
      (
        s',
        n,
        ap (λ xs. on_od_loop L s (xs ++ tail)) e
            ∙ loop-more L s b (n ∷ rest ++ tail) more
            ∙ loop-more L s1 n (rest ++ tail) (ap (λ (r : Bool × Isdu). r.0) second)
            ∙ ap (λ (r : Bool × Isdu). on_od_loop L r.1 (rest ++ tail)) second
            ∙ f,
        subst (λ xs. IsCollecting L s s' xs n) (sym e) c',
      )

  pub received : IsReceived
  received = elim (Bool-cases (leb (length payload) 13)) [ inl h ↦ direct h | inr h ↦ extended h ]

-- A whole response, in pieces of any lengths and behind the octets of a busy device, is decoded.
pub feed_lem :
    (L : Iolinki) (s : Isdu) {op : IsduOp} {index subindex : ℕ} (service : ℕ)
    (payload busy tail : List ℕ) (pieces : List (List ℕ))
    → L.isdu_buffer_size < 65536
    → IsAwaiting L s op index subindex
    → service < 16
    → 1 ≤ service
    → length payload ≤ 235
    → length (encode_response service payload) ≤ L.isdu_buffer_size
    → Busy busy
    → concat pieces ≡ busy ++ (encode_response service payload ++ tail)
    → (s' : Isdu) × (n : ℕ) × (feed L s pieces ≡ isdu_decode_response L s')
      × IsCollecting L s s' (encode_response service payload) n
unfolding on_od_loop
feed_lem L s service payload busy tail pieces size a hs pos few fits idle sent =
    let (s', n, loop, c) = received L s service payload tail size hs pos few a.phase a.size fits in
    (
      s',
      n,
      feed-loop L pieces [] s
            (record { running = a.running; pending = a.done; phase = inl a.phase })
          ∙ ap (λ od. on_od_loop L s od) sent
          ∙ on_od_loop-Busy L size s busy (encode_response service payload ++ tail) s a.phase idle
          ∙ loop,
      c,
    )

module _ {W : Type 0} (L : Iolinki) where
  -- The reply to a Read Request that is done, by what its state holds.
  reply_lem :
      (p : Port W) (s : Isdu) (index subindex len n : ℕ) (payload : List ℕ)
      → is_online p ≡ true
      → s.op ≡ op_read
      → s.index ≡ index
      → s.subindex ≡ subindex
      → s.done ≡ true
      → s.error ≡ L.isdu_error_none
      → s.response_len ≡ n
      → n ≤ len
      → n < 256
      → take n s.response ≡ payload
      → ((read_isdu L (record p { isdu = s }) index subindex len).result ≡ status_ok)
        × ((read_isdu L (record p { isdu = s }) index subindex len).octets ≡ payload)
        × ((read_isdu L (record p { isdu = s }) index subindex len).len ≡ n)
  unfolding read_isdu isdu_finish_read is_online isdu_busy isdu_matches
  reply_lem p s index subindex len n payload online op ix sub done error length le small octets =
      let same : (k : ℕ) → (k == k) ≡ true = λ k. ground arith in
      let long : ltb len n ≡ false = ground (arith, le) in
      let fit : u8 n ≡ n = omega (arith, small) in
      rw (online, op, done, ix, sub, error, length)
        (rw (same index, same subindex, same L.isdu_error_none, long, fit) (refl, octets, refl))

  -- An online port awaits the response to a Read Request, and the device answers, in pieces of any
  -- lengths, octets 0 or 1 while it is busy and then a response of at most 235 octets of payload
  -- that fits into the buffer, under a service number that is not a negative one (4 or 12), and
  -- anything behind it. Then the next call of `read_isdu` with room for the payload succeeds and
  -- hands it over.
  pub read_isdu-feed :
      (p : Port W) (index subindex len service : ℕ) (payload busy tail : List ℕ)
      (pieces : List (List ℕ))
      → is_online p ≡ true
      → L.isdu_buffer_size < 65536
      → IsAwaiting L p.isdu op_read index subindex
      → (service < 16) × (1 ≤ service) × (service ≢ 4) × (service ≢ 12)
      → length payload ≤ 235
      → length payload ≤ len
      → Octets payload
      → length (encode_response service payload) ≤ L.isdu_buffer_size
      → Busy busy
      → concat pieces ≡ busy ++ (encode_response service payload ++ tail)
      → ((read_isdu L (record p { isdu = feed L p.isdu pieces }) index subindex len).result
          ≡ status_ok)
        × ((read_isdu L (record p { isdu = feed L p.isdu pieces }) index subindex len).octets
            ≡ payload)
        × ((read_isdu L (record p { isdu = feed L p.isdu pieces }) index subindex len).len
            ≡ length payload)
  read_isdu-feed p index subindex len service payload busy tail pieces online size a
        (hs, pos, not4, not12) few room o fits idle sent =
      let (s', n, run, c) =
        feed_lem L p.isdu service payload busy tail pieces size a hs pos few fits idle sent in
      let (done, op, ix, sub, error, count, octets) =
        decoded_lem L p.isdu s' service payload n size hs pos few o c (not4, not12) in
      subst
        (λ t.
          ((read_isdu L (record p { isdu = t }) index subindex len).result ≡ status_ok)
          × ((read_isdu L (record p { isdu = t }) index subindex len).octets ≡ payload)
          × ((read_isdu L (record p { isdu = t }) index subindex len).len ≡ length payload))
        (sym run)
        (reply_lem p (isdu_decode_response L s') index subindex len (length payload) payload online
          (op ∙ a.same_op) (ix ∙ a.index) (sub ∙ a.subindex) done (error ∙ a.error) count room
          (omega arith) octets)
