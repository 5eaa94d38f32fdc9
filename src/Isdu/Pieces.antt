-- ===== src/Isdu/Pieces.antt =====
-- The octets that a device sends come to src/master_isdu.c in pieces, one for each frame.
use iolinki_master.Base.{
  ℕ, ◌+◌, ◌≡◌, refl, sym, ap, ◌∙◌, Bool, true, false, ◌⊎◌, inl, inr, arith, List, [], ◌∷◌, ◌++◌, u8,
  u16, get_or, set, bit_and, take, take_all, length,
}
use iolinki_master.Iolinki.{Iolinki}
use iolinki_master.Types.State.{wait, response, Isdu, is_op_none}
use iolinki_master.Isdu.Transport.{
  isdu_decode_response, decode_positive, decode_negative, segmentation_failed, response_begins,
  response_complete, response_length, store_octet, on_od_octet, on_od_loop, isdu_on_od,
}

-- A service that takes octets.
pub record IsListening (s : Isdu) : Type 0 where
  pub running : is_op_none s.op ≡ false
  pub pending : s.done ≡ false
  pub phase : (s.phase ≡ wait) ⊎ (s.phase ≡ response)

-- The octets of the pieces.
abbrev pub concat : List (List ℕ) → List ℕ
concat [] = []
concat (c ∷ cs) = c ++ concat cs

module _ (L : Iolinki) where
  -- The pieces, one call for each.
  unfoldable pub feed : Isdu → List (List ℕ) → Isdu
  feed s [] = s
  feed s (c ∷ cs) = feed (isdu_on_od L s c (length c)) cs

  decode-done : (s : Isdu) → (isdu_decode_response L s).done ≡ true
  unfolding isdu_decode_response decode_positive decode_negative
  decode-done s = ground arith

  -- After an octet the service listens on, or it is done.
  abbrev IsSettled : Bool × Isdu → Type 0
  IsSettled (more, s) = ((more ≡ true) × IsListening s) ⊎ ((more ≡ false) × (s.done ≡ true))

  complete-IsSettled : (s : Isdu) → IsListening s → IsSettled (response_complete L s)
  unfolding response_complete
  complete-IsSettled s l = ground (arith, l, decode-done s)

  length-IsSettled : (s : Isdu) → IsListening s → IsSettled (response_length L s)
  unfolding response_length segmentation_failed
  length-IsSettled s l =
      let known : (n : ℕ) → IsSettled (response_complete L (record s { expected_len = n })) = λ n.
        complete-IsSettled (record s { expected_len = n })
          (record { running = l.running; pending = l.pending; phase = l.phase }) in
      ground
        (arith, l, known (get_or s.response 1 0), known (u8 (bit_and (get_or s.response 0 0) 15)))

  store-IsSettled : (s : Isdu) (byte : ℕ) → IsListening s → IsSettled (store_octet L s byte)
  unfolding store_octet segmentation_failed
  store-IsSettled s byte l =
      let s' : Isdu = record s {
        response = set s.response s.response_len byte;
        response_len = u16 (s.response_len + 1);
      } in
      let l' : IsListening s' = record {
        running = l.running;
        pending = l.pending;
        phase = l.phase;
      } in
      ground (arith, length-IsSettled s' l', complete-IsSettled s' l')

  octet-IsSettled : (s : Isdu) (byte : ℕ) → IsListening s → IsSettled (on_od_octet L s byte)
  unfolding on_od_octet response_begins
  octet-IsSettled s byte l = ground (
    arith,
    l,
    store-IsSettled s byte l,
    store-IsSettled (response_begins L s) byte
        (record { running = l.running; pending = l.pending; phase = inr refl }),
  )

  feed-done : (pieces : List (List ℕ)) (s : Isdu) → s.done ≡ true → feed s pieces ≡ s
  unfolding feed isdu_on_od
  feed-done [] s h = refl
  feed-done (c ∷ cs) s h =
      let same : isdu_on_od L s c (length c) ≡ s = unfold isdu_on_od in ground (arith, h) in
      ap (λ t. feed t cs) same ∙ feed-done cs s h

  pub on_od_lem :
      (s : Isdu) (od : List ℕ) → IsListening s → isdu_on_od L s od (length od) ≡ on_od_loop L s od
  unfolding isdu_on_od
  on_od_lem s od l =
      let all : take (length od) od ≡ od = take_all od (length od) (omega arith) in
      rw (l.running, l.pending, all) (ground (arith, l.phase))

  pub loop-more :
      (s : Isdu) (x : ℕ) (od : List ℕ)
      → (on_od_octet L s x).0 ≡ true
      → on_od_loop L s (x ∷ od) ≡ on_od_loop L (on_od_octet L s x).1 od
  unfolding on_od_loop
  loop-more s x od h = rw (on_od_loop, h) refl

  loop-over :
      (s : Isdu) (x : ℕ) (od : List ℕ)
      → (on_od_octet L s x).0 ≡ false
      → on_od_loop L s (x ∷ od) ≡ (on_od_octet L s x).1
  unfolding on_od_loop
  loop-over s x od h = rw (on_od_loop, h) refl

  -- The pieces are taken as their octets are, in one run.
  pub feed-loop :
      (pieces : List (List ℕ)) (od : List ℕ) (s : Isdu)
      → IsListening s
      → feed (on_od_loop L s od) pieces ≡ on_od_loop L s (od ++ concat pieces)
  unfolding feed on_od_loop
  feed-loop [] [] s l = refl
  feed-loop (c ∷ cs) [] s l = ap (λ t. feed t cs) (on_od_lem s c l) ∙ feed-loop cs c s l
  feed-loop pieces (x ∷ od) s l = elim (octet-IsSettled s x l) [
    | inl (more, l') ↦
        ap (λ t. feed t pieces) (loop-more s x od more)
        ∙ feed-loop pieces od (on_od_octet L s x).1 l'
        ∙ sym (loop-more s x (od ++ concat pieces) more)
    | inr (over, done) ↦
        ap (λ t. feed t pieces) (loop-over s x od over)
        ∙ feed-done pieces (on_od_octet L s x).1 done
        ∙ sym (loop-over s x (od ++ concat pieces) over)
  ]
