-- ===== src/Isdu/Segments.antt =====
-- The request side of the segmented transport of src/master_isdu.c: what goes out in the segments.
use iolinki_master.Base.{
  append-nil, ℕ, zero, suc, ◌+◌, ◌-◌, ◌≤◌, ◌<◌, ◌≡◌, refl, ap, ◌∙◌, sym, Bool, true, false, ◌⊎◌,
  inl, inr, arith, if◌then◌else◌, ltb, sub16, List, [], ◌∷◌, ◌++◌, take, drop, replicate, length,
  length-drop,
}
use iolinki_master.Iolinki.{Iolinki}
use iolinki_master.Types.State.{
  Isdu, is_op_none, IsduPhase, phase_none, request, wait, response, is_request,
}
use iolinki_master.Isdu.Transport.{isdu_fill_od, fill_od_in, fill_od_request, fill_od_response}

-- The first octets of a list, filled up with zeros.
unfoldable pub padded : ℕ → List ℕ → List ℕ
padded zero xs = []
padded (suc n) [] = 0 ∷ padded n []
padded (suc n) (x ∷ xs) = x ∷ padded n xs

padded_nil : (n : ℕ) → padded n [] ≡ replicate n 0
unfolding padded
padded_nil zero = refl
padded_nil (suc n) = ap (λ l. 0 ∷ l) (padded_nil n)

drop_nil : (n : ℕ) → drop {A = ℕ} n [] ≡ []
drop_nil zero = refl
drop_nil (suc n) = refl

take_nil : (n : ℕ) → take {A = ℕ} n [] ≡ []
take_nil zero = refl
take_nil (suc n) = refl

padded-add :
    (m w n : ℕ) (xs : List ℕ) → m ≡ w + n → padded m xs ≡ padded w xs ++ padded n (drop w xs)
unfolding padded
padded-add m zero n xs h = ap (λ k. padded k xs) (omega (arith, h))
padded-add zero (suc w) n xs h = absurd (omega arith)
padded-add (suc m) (suc w) n [] h =
    ap (λ l. 0 ∷ l)
      (padded-add m w n [] (omega arith) ∙ ap (λ l. padded w [] ++ padded n l) (drop_nil w))
padded-add (suc m) (suc w) n (x ∷ xs) h = ap (λ l. x ∷ l) (padded-add m w n xs (omega arith))

padded_short : (w r : ℕ) (xs : List ℕ) → w ≤ r → r ≤ length xs → padded w (take r xs) ≡ take w xs
unfolding padded
padded_short zero r xs h hr = refl
padded_short (suc w) zero xs h hr = absurd (omega arith)
padded_short (suc w) (suc r) [] h hr = absurd (omega arith)
padded_short (suc w) (suc r) (x ∷ xs) h hr =
    ap (λ l. x ∷ l) (padded_short w r xs (omega arith) (omega arith))

padded_long :
    (w r k : ℕ) (xs : List ℕ)
    → w ≡ r + k
    → r ≤ length xs
    → padded w (take r xs) ≡ take r xs ++ replicate k 0
unfolding padded
padded_long w zero k xs h hr = padded_nil w ∙ ap (λ n. replicate n 0) (omega (arith, h))
padded_long zero (suc r) k xs h hr = absurd (omega arith)
padded_long (suc w) (suc r) k [] h hr = absurd (omega arith)
padded_long (suc w) (suc r) k (x ∷ xs) h hr =
    ap (λ l. x ∷ l) (padded_long w r k xs (omega arith) (omega arith))

drop-take : (w r : ℕ) (xs : List ℕ) → drop w (take r xs) ≡ take (r - w) (drop w xs)
drop-take zero r xs = ap (λ n. take n xs) (omega arith)
drop-take (suc w) zero [] = sym (take_nil _)
drop-take (suc w) zero (x ∷ xs) =
    let e : 0 ≡ 0 - suc w = omega arith in ap (λ n. take n (drop w xs)) e
drop-take (suc w) (suc r) [] = sym (take_nil _)
drop-take (suc w) (suc r) (x ∷ xs) = drop-take w r xs ∙ ap (λ n. take n (drop w xs)) (omega arith)

pub drop-drop : (a b c : ℕ) (xs : List ℕ) → c ≡ a + b → drop b (drop a xs) ≡ drop c xs
drop-drop zero b c xs h = ap (λ n. drop n xs) (omega (arith, h))
drop-drop (suc a) b zero xs h = absurd (omega arith)
drop-drop (suc a) b (suc c) [] h = drop_nil b
drop-drop (suc a) b (suc c) (x ∷ xs) h = drop-drop a b c xs (omega arith)

-- What of the request is still to go out.
unfoldable pub unsent : Isdu → List ℕ
unsent s =
    if is_request s.phase
    then take (s.request_len - s.request_pos) (drop s.request_pos s.request)
    else []

-- A service runs, and its request is inside the buffer.
pub record IsSending (s : Isdu) : Type 0 where
  pub running : is_op_none s.op ≡ false
  pub small : s.request_len < 65536
  pub inside : s.request_len ≤ length s.request
  pub position : s.request_pos ≤ s.request_len

abbrev pub total : List ℕ → ℕ
total [] = 0
total (w ∷ ws) = w + total ws

pick :
    (b : Bool) (r w : ℕ) (xs : List ℕ)
    → r ≤ length xs
    → b ≡ ltb r w
    → take (if b then r else w) xs ++ replicate (w - (if b then r else w)) 0 ≡ padded w (take r xs)
pick true r w xs hr h = sym (padded_long w r (w - r) xs (ground (arith, h)) hr)
pick false r w xs hr h =
    let e : w - w ≡ 0 = omega arith in
    ap (λ n. take w xs ++ replicate n 0) e
    ∙ append-nil (take w xs)
    ∙ sym (padded_short w r xs (ground (arith, h)) hr)

module _ (L : Iolinki) where
  -- The octets of the request in one segment: zeros behind the end.
  request_octets :
      (s : Isdu) (w : ℕ)
      → IsSending s
      → (fill_od_request L s w).0
        ≡ padded w (take (s.request_len - s.request_pos) (drop s.request_pos s.request))
  unfolding fill_od_request
  request_octets s w i =
      let r : ℕ = s.request_len - s.request_pos in
      let xs : List ℕ = drop s.request_pos s.request in
      let room : r ≤ length xs =
        omega (arith, length-drop s.request_pos s.request, i.inside, i.position) in
      let e : sub16 s.request_len s.request_pos ≡ r = omega (arith, i.small, i.position) in
      ap (λ n. take (if ltb n w then n else w) xs ++ replicate (w - (if ltb n w then n else w)) 0) e
      ∙ pick (ltb r w) r w xs room refl

  -- The position behind the segment, and whether the request is out.
  request_after :
      (s : Isdu) (w : ℕ)
      → IsSending s
      → IsSending (fill_od_request L s w).1
        × ((fill_od_request L s w).1.request ≡ s.request)
        × ((fill_od_request L s w).1.request_len ≡ s.request_len)
        × (((is_request (fill_od_request L s w).1.phase ≡ false)
              × (s.request_len ≤ s.request_pos + w))
            ⊎ (((fill_od_request L s w).1.phase ≡ s.phase)
                × ((fill_od_request L s w).1.request_pos ≡ s.request_pos + w)))
  unfolding fill_od_request
  request_after s w i = ground (arith, i.running, i.small, i.inside, i.position)

  unsent_after :
      (s : Isdu) (w : ℕ)
      → IsSending s
      → s.phase ≡ request
      → unsent (fill_od_request L s w).1
        ≡ drop w (take (s.request_len - s.request_pos) (drop s.request_pos s.request))
  unfolding unsent
  unsent_after s w i p =
      let s' : Isdu = (fill_od_request L s w).1 in
      let r : ℕ = s.request_len - s.request_pos in
      let q : ℕ = s.request_pos + w in
      let e : drop w (take r (drop s.request_pos s.request)) ≡ take (r - w) (drop q s.request) =
        drop-take w r (drop s.request_pos s.request)
        ∙ ap (λ xs. take (r - w) xs) (drop-drop s.request_pos w q s.request refl) in
      let (j, er, el, after) = request_after s w i in
      elim after [
        | inl (n, le) ↦
            let z : r - w ≡ 0 = omega (arith, le) in
            rw (n) (sym (e ∙ ap (λ k. take k (drop q s.request)) z))
        | inr (ph, pos) ↦
            let k : s'.request_len - s'.request_pos ≡ r - w = omega (arith, el, pos) in
            let q' : is_request s'.phase ≡ true = ap is_request ph ∙ ap is_request p in
            rw (q', k, pos, er) (sym e)
      ]

  -- A segment of `w` octets: the next octets of what is left, filled up with zeros.
  abbrev IsSegment : Isdu → ℕ → List ℕ × Isdu → Type 0
  IsSegment s w (od, s') =
      (od ≡ padded w (unsent s)) × (unsent s' ≡ drop w (unsent s)) × IsSending s'

  -- Outside the request phase the segments are zeros.
  zeros-IsSegment :
      (s s' : Isdu) (w : ℕ)
      → is_request s.phase ≡ false
      → is_request s'.phase ≡ false
      → IsSending s'
      → IsSegment s w (replicate w 0, s')
  unfolding unsent
  zeros-IsSegment s s' w p p' i = rw (p, p') (sym (padded_nil w), sym (drop_nil w), i)

  fill_od_in-IsSegment :
      (ph : IsduPhase) (s : Isdu) (w : ℕ)
      → IsSending s
      → s.phase ≡ ph
      → IsSegment s w (fill_od_in L ph s w)
  unfolding fill_od_in
  fill_od_in-IsSegment request s w i p =
      let e : unsent s ≡ take (s.request_len - s.request_pos) (drop s.request_pos s.request) =
        unfold unsent in rw (p) in
      rw (e) (request_octets s w i, unsent_after s w i p, (request_after s w i).0)
  fill_od_in-IsSegment wait s w i p =
      zeros-IsSegment s (record s { flowctrl = L.flowctrl_start }) w (ap is_request p)
        (ap is_request p) (ground (arith, i.running, i.small, i.inside, i.position))
  fill_od_in-IsSegment response s w i p =
      zeros-IsSegment s (fill_od_response L s) w (ap is_request p) (ground (arith, p))
        (ground (arith, i.running, i.small, i.inside, i.position))
  fill_od_in-IsSegment phase_none s w i p =
      zeros-IsSegment s s w (ap is_request p) (ap is_request p) i

  isdu_fill_od-IsSegment : (s : Isdu) (w : ℕ) → IsSending s → IsSegment s w (isdu_fill_od L s w)
  unfolding isdu_fill_od padded unsent
  isdu_fill_od-IsSegment s w i =
      rw (isdu_fill_od, i.running) (fill_od_in-IsSegment s.phase s w i refl)

  -- The octets of the segments of the widths given, one after the other, and the state behind.
  unfoldable pub fill_all : Isdu → List ℕ → List ℕ × Isdu
  fill_all s [] = ([], s)
  fill_all s (w ∷ ws) =
      let (od, s') = isdu_fill_od L s w in let (rest, s'') = fill_all s' ws in (od ++ rest, s'')

  -- The segments of a running service whose request is inside its buffer, whatever their widths,
  -- put together are what is left of the request, followed by zeros; and what is left behind them
  -- is the rest of the request.
  pub fill_all-unsent :
      (s : Isdu) (widths : List ℕ)
      → IsSending s
      → ((fill_all s widths).0 ≡ padded (total widths) (unsent s))
        × (unsent (fill_all s widths).1 ≡ drop (total widths) (unsent s))
  unfolding fill_all padded
  fill_all-unsent s [] i = (refl, refl)
  fill_all-unsent s (w ∷ ws) i =
      let s' : Isdu = (isdu_fill_od L s w).1 in
      let (od, rest, j) = isdu_fill_od-IsSegment s w i in
      let (ods, rests) = fill_all-unsent s' ws j in
      (
        rw (od, ods, rest) (sym (padded-add (w + total ws) w (total ws) (unsent s) refl)),
        rests
            ∙ ap (λ l. drop (total ws) l) rest
            ∙ drop-drop w (total ws) (w + total ws) (unsent s) refl,
      )
