-- ===== src/Isdu/Refused.antt =====
-- A negative response to a request of src/master_isdu.c, from its first octet to the caller.
use mathlib.Core.Path.{subst}
use iolinki_master.Base.{
  ℕ, ◌+◌, ◌*◌, ◌/◌, ◌^◌, ◌≤◌, ◌<◌, ◌≡◌, ◌≢◌, refl, sym, ap, ◌∙◌, ◌⊎◌, true, false, arith, u8, u16,
  bit_or, ◌||◌, ◌==◌, some, List, [], ◌∷◌, ◌++◌, get_or,
}
use iolinki_master.Iolinki.{Iolinki}
use iolinki_master.Bytes.{Octets, or_octets}
use iolinki_master.Types.Codes.{isdu_err_device}
use iolinki_master.Types.State.{Isdu, IsduOp, Port, op_none, op_write}
use iolinki_master.Isdu.Transport.{
  isdu_decode_response, decode_negative, isdu_busy, isdu_matches, isdu_clear,
}
use iolinki_master.Isdu.Service.{
  write_isdu, isdu_finish_write, isdu_finish_error, service_result, is_online,
}
use iolinki_master.Isdu.Collecting.{IsCollecting}
use iolinki_master.Isdu.Response.{Busy}
use iolinki_master.Isdu.Answer.{
  encode_response, response_head, checked, first_lem, buffer_lem, head_lem, length-encode_response,
}
use iolinki_master.Isdu.Pieces.{concat, feed}
use iolinki_master.Isdu.ReadBack.{IsAwaiting, feed_lem}

-- The service numbers of the negative responses.
abbrev pub IsNegative : ℕ → Type 0
IsNegative service = (service ≡ 4) ⊎ (service ≡ 12)

-- What is left of a request that the device has refused with these two octets.
pub record IsRefused (base s : Isdu) (code additional : ℕ) : Type 0 where
  pub done : s.done ≡ true
  pub op : s.op ≡ base.op
  pub index : s.index ≡ base.index
  pub subindex : s.subindex ≡ base.subindex
  pub error : s.error ≡ code * 256 + additional

module _ (L : Iolinki) (base s : Isdu) (service code additional n : ℕ)
    (size : L.isdu_buffer_size < 65536) (negative : IsNegative service) (hc : code < 256)
    (ha : additional < 256)
    (c : IsCollecting L base s (encode_response service (code ∷ additional ∷ [])) n) where
  abbrev payload : List ℕ
  payload = code ∷ additional ∷ []

  below : service < 16
  below = ground (arith, negative)

  above : 1 ≤ service
  above = ground (arith, negative)

  payload-Octets : Octets payload
  payload-Octets = (hc, (ha, tt))

  four_octets : s.response_len ≡ 4
  unfolding response_head
  four_octets = c.len ∙ length-encode_response service payload

  error_octets : (get_or s.response 1 0 ≡ code) × (get_or s.response 2 0 ≡ additional)
  unfolding response_head
  error_octets =
      let (rest, e) =
        buffer_lem L base s service payload n size below above (omega arith) payload-Octets c in
      (ap (λ xs. get_or xs 1 0) e, ap (λ xs. get_or xs 2 0) e)

  decoded_negative : isdu_decode_response L s ≡ decode_negative L s
  unfolding isdu_decode_response
  decoded_negative =
      let whole =
        checked L base s service payload n size below above (omega arith) payload-Octets c in
      let (q, b, l, e) = head_lem service payload below above (omega arith) payload-Octets in
      let is : u8 (get_or s.response 0 0 / 2 ^ 4) ≡ service =
        rw (first_lem L base s service payload n size below above (omega arith) payload-Octets c)
          (omega (arith, q, below)) in
      let refusing : ((service == 4) || (service == 12)) ≡ true = ground (arith, negative) in
      rw (whole, is, refusing) refl

  code_lem :
      u16 (bit_or (get_or s.response 1 0 * 2 ^ 8) (get_or s.response 2 0)) ≡ code * 256 + additional
  code_lem =
      let (first, second) = error_octets in
      let both = or_octets code additional hc ha in rw (first, second, both) (omega (arith, hc, ha))

  pub refused_lem : IsRefused base (isdu_decode_response L s) code additional
  unfolding decode_negative
  refused_lem =
      subst (λ t. IsRefused base t code additional) (sym decoded_negative)
        (record {
          done = refl;
          op = c.same.op;
          index = c.same.index;
          subindex = c.same.subindex;
          error = rw (four_octets) code_lem;
        })

-- The error of the device is kept for the caller, and the port is free for the next service.
abbrev pub IsReported : {W : Type 0} → Port W → ℕ → Type 0
IsReported q error =
    (q.diagnostics.last_isdu_error ≡ error)
    × (q.diagnostics.last_service_result ≡ isdu_err_device)
    × (q.isdu.op ≡ op_none)

module _ {W : Type 0} (L : Iolinki) (p : Port W) (s : Isdu) (index subindex code additional : ℕ)
    (online : is_online p ≡ true) (refused : IsRefused p.isdu s code additional)
    (an_error : code * 256 + additional ≢ L.isdu_error_none) where
  no_success : (s.error == L.isdu_error_none) ≡ false
  no_success = ground (arith, an_error, refused.error)

  same : (k : ℕ) → (k == k) ≡ true
  same k = ground arith

  write_refused :
      (octets : List ℕ) (len : ℕ)
      → IsAwaiting L p.isdu op_write index subindex
      → ((write_isdu L (record p { isdu = s }) index subindex (some octets) len).0
          ≡ isdu_err_device)
        × IsReported
            (write_isdu L (record p { isdu = s }) index subindex (some octets) len).1
            (code * 256 + additional)
  unfolding write_isdu isdu_finish_write isdu_finish_error service_result isdu_clear is_online
      isdu_busy isdu_matches
  write_refused octets len a =
      let op : s.op ≡ op_write = refused.op ∙ a.same_op in
      let ix : s.index ≡ index = refused.index ∙ a.index in
      let sub : s.subindex ≡ subindex = refused.subindex ∙ a.subindex in
      rw (online, op, refused.done, ix, sub, no_success)
        (rw (same index, same subindex) (refl, (refused.error, refl, refl)))

module _ {W : Type 0} (L : Iolinki) (p : Port W) (index subindex service code additional : ℕ)
    (busy tail : List ℕ) (pieces : List (List ℕ)) (online : is_online p ≡ true)
    (size : (4 ≤ L.isdu_buffer_size) × (L.isdu_buffer_size < 65536)) (negative : IsNegative service)
    (octets : (code < 256) × (additional < 256))
    (an_error : code * 256 + additional ≢ L.isdu_error_none) (idle : Busy busy)
    (sent : concat pieces
      ≡ busy ++ (encode_response service (code ∷ additional ∷ []) ++ tail)) where
  feed-IsRefused :
      {op : IsduOp}
      → IsAwaiting L p.isdu op index subindex
      → IsRefused p.isdu (feed L p.isdu pieces) code additional
  unfolding response_head
  feed-IsRefused a =
      let payload : List ℕ = code ∷ additional ∷ [] in
      let below : service < 16 = ground (arith, negative) in
      let above : 1 ≤ service = ground (arith, negative) in
      let (s', n, run, c) =
        feed_lem L p.isdu service payload busy tail pieces size.1 a below above (omega arith)
          (omega (arith, length-encode_response service payload, size.0)) idle sent in
      subst (λ t. IsRefused p.isdu t code additional) (sym run)
        (refused_lem L p.isdu s' service code additional n size.1 negative octets.0 octets.1 c)

  -- A device refuses a Write Request, under the same conditions as for a Read Request: the port is
  -- online and awaits the response, which comes in pieces of any lengths behind octets 0 or 1 and is
  -- negative with an error, and the buffer has room for its four octets. The next call of
  -- `write_isdu` returns the error of the device, both codes are the last ISDU error of the port, and
  -- the port is free for the next service.
  pub write_isdu_refused :
      (written : List ℕ) (len : ℕ)
      → IsAwaiting L p.isdu op_write index subindex
      → ((write_isdu L
            (record p { isdu = feed L p.isdu pieces })
            index
            subindex
            (some written)
            len).0
          ≡ isdu_err_device)
        × IsReported
            (write_isdu L
              (record p { isdu = feed L p.isdu pieces })
              index
              subindex
              (some written)
              len).1
            (code * 256 + additional)
  write_isdu_refused written len a =
      write_refused L p (feed L p.isdu pieces) index subindex code additional online
        (feed-IsRefused a) an_error written len a
