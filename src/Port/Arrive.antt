-- ===== src/Port/Arrive.antt =====
-- A frame that arrives octet by octet at the receive loop of src/master_port.c.
use mathlib.Core.Path.{subst}
use iolinki_master.Base.{
  append_assoc, append-nil, ℕ, zero, suc, ◌+◌, ◌≤◌, ◌<◌, ◌≡◌, refl, ap, ◌∙◌, sym, Option, some,
  List, [], ◌∷◌, ◌++◌, set, take, length, length-set, ℤ, pos, arith,
}
use iolinki_master.Iolinki.{Iolinki}
use iolinki_master.Types.Codes.{status_ok}
use iolinki_master.Types.Limits.{frame_buf_size}
use iolinki_master.Types.State.{Sys}
use iolinki_master.Isdu.Collecting.{take-set}
use iolinki_master.Port.Receive.{poll_loop, on_rx}
use iolinki_master.Port.Device.{Responds}
use iolinki_master.Port.Answers.{
  with_rx, poll_loop_took, poll_loop_empty, receive_byte_more, receive_byte_frame,
}

-- The buffer with octets stored from a place on.
unfoldable pub fill : List ℕ → ℕ → List ℕ → List ℕ
fill buf at [] = buf
fill buf at (x ∷ xs) = fill (set buf at x) (at + 1) xs

pub length-fill : (buf : List ℕ) (at : ℕ) (xs : List ℕ) → length (fill buf at xs) ≡ length buf
unfolding fill
length-fill buf at [] = refl
length-fill buf at (x ∷ xs) = length-fill (set buf at x) (at + 1) xs ∙ length-set buf at x

pub take-fill :
    (buf : List ℕ) (at : ℕ) (xs : List ℕ)
    → at + length xs ≤ length buf
    → take (at + length xs) (fill buf at xs) ≡ take at buf ++ xs
unfolding fill
take-fill buf at [] h = ap (λ k. take k buf) (the_same at) ∙ sym (append-nil (take at buf))
  where
    the_same : (k : ℕ) → k + 0 ≡ k
    the_same k = omega arith
take-fill buf at (x ∷ xs) h =
    let n : at + suc (length xs) ≡ at + 1 + length xs = omega arith in
    let next : at + 1 ≡ suc at = omega arith in
    ap (λ k. take k (fill (set buf at x) (at + 1) xs)) n
    ∙ take-fill (set buf at x) (at + 1) xs (omega (arith, h, length-set buf at x))
    ∙ ap (λ k. take k (set buf at x) ++ xs) next
    ∙ ap (λ l. l ++ xs) (take-set buf at x (omega (arith, h)))
    ∙ append_assoc (take at buf) (x ∷ []) xs

module _ {W : Type 0} (L : Iolinki) where
  -- The frame is complete with what waits: however the world is then, the port takes the frame,
  -- and leaves the world alone.
  abbrev pub IsTaken : (Sys W → Type 0) → Sys W → List ℕ → ℕ → Type 0
  IsTaken P s buf n =
      (w : W)
      → (t : Sys W) × (on_rx L (record (with_rx s buf n) { world = w }) buf n ≡ (status_ok, t))
        × (t.world ≡ w)
        × ((w' : W) → P (record (with_rx t t.port.rx.buf 0) { world = w' }))

module _ {W : Type 0} (L : Iolinki) {send : List ℕ → ℕ → W → ℤ × W} (recv : W → ℤ × ℕ × W)
    {waiting : W → Option (List ℕ)} (responds : Responds L send recv waiting) where
  pub arrive :
      (fuel : ℕ) (xs : List ℕ) (P : Sys W → Type 0) (s : Sys W) (x at n frames : ℕ)
      → s.port.rx.len ≡ at
      → waiting s.world ≡ some (x ∷ xs)
      → at + 1 + length xs ≡ n
      → n ≤ frame_buf_size
      → length xs + 1 < fuel
      → IsTaken L P s (fill s.port.rx.buf at (x ∷ xs)) n
      → (t : Sys W) × (poll_loop L fuel recv s n frames ≡ some (pos (frames + 1), t))
        × (waiting t.world ≡ some [])
        × P t
  unfolding fill
  arrive zero xs P s x at n frames len waits total room enough taken =
      absurd (omega (arith, enough))
  arrive (suc zero) xs P s x at n frames len waits total room enough taken =
      absurd (omega (arith, enough))
  arrive (suc (suc fuel)) [] P s x at n frames len waits total room enough taken =
      let (one, eb, empty) = responds.takes s.world x [] waits in
      let b : ℕ = (recv s.world).1 in
      let buf : List ℕ = set s.port.rx.buf at b in
      let s' : Sys W = record s { world = (recv s.world).2 } in
      let e : n ≡ at + 1 = omega (arith, total) in
      let (t, ok, same, p) =
        subst (λ k. IsTaken L P s buf k) e
          (subst (λ y. IsTaken L P s (set s.port.rx.buf at y) n) (sym eb) taken) s'.world in
      let t' : Sys W = with_rx t t.port.rx.buf 0 in
      let (none_left, quiet) = responds.rests t'.world (ap waiting same ∙ empty) in
      (
        record t' { world = (recv t'.world).2 },
        poll_loop_took L recv (suc fuel) s t' n frames (frames + 1) one (
              receive_byte_frame L s' t n frames b at len (omega (arith, room, total))
                (omega (arith, total)) ok)
            ∙ poll_loop_empty L recv fuel t' n (frames + 1) none_left,
        quiet,
        p (recv t'.world).2,
      )
  arrive (suc (suc fuel)) (y ∷ xs) P s x at n frames len waits total room enough taken =
      let (one, eb, more) = responds.takes s.world x (y ∷ xs) waits in
      let b : ℕ = (recv s.world).1 in
      let s' : Sys W = record s { world = (recv s.world).2 } in
      let t : Sys W = with_rx s' (set s.port.rx.buf at b) (at + 1) in
      let taken' : IsTaken L P t (fill (set s.port.rx.buf at b) (at + 1) (y ∷ xs)) n =
        subst (λ z. IsTaken L P t (fill (set s.port.rx.buf at z) (at + 1) (y ∷ xs)) n) (sym eb)
          taken in
      let (u, e, quiet, p) =
        arrive (suc fuel) xs P t y (at + 1) n frames refl more (omega (arith, total)) room
          (omega (arith, enough)) taken' in
      (
        u,
        poll_loop_took L recv (suc fuel) s t n frames frames one (
              receive_byte_more L s' n frames b at len (omega (arith, room, total))
                (omega (arith, total)))
            ∙ e,
        quiet,
        p,
      )
