-- ===== src/Controller/Loops.antt =====
-- The loops of src/master_controller.c over the managed ports.
use iolinki_master.Base.{
  ℕ, ◌+◌, ◌≤◌, ◌<◌, ◌≡◌, refl, true, false, ◌⊎◌, inl, inr, arith, ℤ, pos, is_neg, eq_ℤ,
  if◌then◌else◌, Option, none, some, Option-cases, List, [], ◌∷◌, ◌++◌, take, drop, length,
}
use iolinki_master.Iolinki.{Iolinki}
use iolinki_master.Types.Codes.{status_ok}
use iolinki_master.Types.Config.{Phy, Config}
use iolinki_master.Types.State.{Port, Sys}
use iolinki_master.Port.Timing.{get_next_tick_time}
use iolinki_master.Port.Init.{init}
use iolinki_master.Controller.{
  Controller, keep_first, Ticked, cons_ticked, tick_ports, tick_managed, next_tick_from,
  controller_next_tick_time, init_ports, controller_init, cons_inited,
}

-- The first negative result, or 0.
unfoldable pub first_error : List ℤ → ℤ
first_error [] = pos 0
first_error (r ∷ rs) = if is_neg r then r else first_error rs

-- The results of a round, the ports and the world after it.
abbrev pub Round : Type 0 → Type 0
Round W = List ℤ × List (Port W) × W

-- What the loop reports of a round, with the first error `first` so far.
unfoldable pub report : {W : Type 0} → ℤ → Option (Round W) → Option (Ticked W)
unfolding first_error
report first none = none
report first (some (rs, ps, w)) = some (if is_neg first then first else first_error rs, ps, w)

module _ {W : Type 0} (step : ℕ → Sys W → Option (ℤ × Sys W)) where
  cons_round : ℤ → Port W → Option (Round W) → Option (Round W)
  cons_round r p none = none
  cons_round r p (some (rs, ps, w)) = some (r ∷ rs, p ∷ ps, w)

  -- A round: every port is stepped once, in order, with no regard to the results; each sees the
  -- world that the one before it left.
  unfoldable pub round : List (Port W) → ℕ → W → Option (Round W)
  unfolding cons_round
  round [] i w = some ([], [], w)
  round (p ∷ ps) i w = elim (step i (record { port = p; world = w })) [
    | none ↦ none
    | some (r, s) ↦ cons_round r s.port (round ps (i + 1) s.world)
  ]

  IsFirst : ℤ → Type 0
  IsFirst first = (first ≡ pos 0) ⊎ (is_neg first ≡ true)

  keep-IsFirst : (first r : ℤ) → IsFirst first → IsFirst (keep_first first r)
  unfolding keep_first IsFirst
  keep-IsFirst first r f = ground arith

  cons-report :
      (first r : ℤ) (p : Port W) (o : Option (Round W))
      → IsFirst first
      → cons_ticked p (report (keep_first first r) o) ≡ report first (cons_round r p o)
  unfolding cons_ticked report cons_round keep_first IsFirst first_error
  cons-report first r p none f = refl
  cons-report first r p (some (rs, ps, w)) f = ground arith

  tick_ports-round :
      (ps : List (Port W)) (i : ℕ) (first : ℤ) (w : W)
      → IsFirst first
      → tick_ports step ps i first w ≡ report first (round ps i w)
  unfolding tick_ports round report first_error IsFirst
  tick_ports-round [] i first w f = ground arith
  tick_ports-round (p ∷ ps) i first w f =
      elim (Option-cases (step i (record { port = p; world = w }))) [
        | inl e ↦ rw (tick_ports, round, e)
        | inr ((r, s), e) ↦
            rw
              (
                tick_ports,
                round,
                e,
                tick_ports-round ps (i + 1) (keep_first first r) s.world (keep-IsFirst first r f),
              )
              (cons-report first r s.port (round ps (i + 1) s.world) f)
      ]

module _ {W : Type 0} (step : ℕ → Sys W → Option (ℤ × Sys W)) where
  -- The controller after a round.
  unfoldable pub managed : Controller W → Option (Round W) → Option (ℤ × Controller W)
  unfolding first_error
  managed c none = none
  managed c (some (rs, ps, w)) =
      some (first_error rs, record c { ports = ps ++ drop c.port_count c.ports; world = w })

  managed-report :
      (c : Controller W) (o : Option (Round W))
      → (elim (report status_ok o) [
        | none ↦ none
        | some (ret, ps, w) ↦
            some (ret, record c { ports = ps ++ drop c.port_count c.ports; world = w })
      ])
        ≡ managed c o
  unfolding report managed
  managed-report c none = refl
  managed-report c (some (rs, ps, w)) = refl

  -- A tick of the controller steps every managed port once, in order and whatever the results
  -- of the others are; the ports behind them stay, and the result is the first negative one among
  -- the ports' results, or OK.
  pub tick_managed-round :
      (c : Controller W)
      → tick_managed step c ≡ managed c (round step (take c.port_count c.ports) 0 c.world)
  unfolding tick_managed IsFirst
  tick_managed-round c =
      rw
        (
          tick_managed,
          tick_ports-round step (take c.port_count c.ports) 0 status_ok c.world (inl refl),
        )
        (managed-report c (round step (take c.port_count c.ports) 0 c.world))

module _ {W : Type 0} where
  next_tick_from-le : (ps : List (Port W)) (now out : ℕ) → next_tick_from ps now out ≤ out
  unfolding next_tick_from
  next_tick_from-le [] now out = omega arith
  next_tick_from-le (p ∷ ps) now out =
      ground
        (arith, next_tick_from-le ps now (get_next_tick_time p now), next_tick_from-le ps now out)

  -- Every element is bounded below.
  abbrev pub AllFrom : ℕ → ℕ → List (Port W) → Type 0
  AllFrom now bound [] = Unit
  AllFrom now bound (p ∷ ps) = (bound ≤ get_next_tick_time p now) × AllFrom now bound ps

  abbrev pub AnyAt : ℕ → ℕ → List (Port W) → Type 0
  AnyAt now t [] = ⊥
  AnyAt now t (p ∷ ps) = (get_next_tick_time p now ≡ t) ⊎ AnyAt now t ps

  next_tick_from-AllFrom :
      (ps : List (Port W)) (now out : ℕ) → AllFrom now (next_tick_from ps now out) ps
  unfolding next_tick_from
  next_tick_from-AllFrom [] now out = tt
  next_tick_from-AllFrom (p ∷ ps) now out = ground (
    arith,
    next_tick_from-le ps now (get_next_tick_time p now),
    next_tick_from-le ps now out,
    next_tick_from-AllFrom ps now (get_next_tick_time p now),
    next_tick_from-AllFrom ps now out,
  )

  next_tick_from-AnyAt :
      (ps : List (Port W)) (now out : ℕ)
      → (next_tick_from ps now out ≡ out) ⊎ AnyAt now (next_tick_from ps now out) ps
  unfolding next_tick_from
  next_tick_from-AnyAt [] now out = inl refl
  next_tick_from-AnyAt (p ∷ ps) now out = ground (
    arith,
    next_tick_from-AnyAt ps now (get_next_tick_time p now),
    next_tick_from-AnyAt ps now out,
  )

  -- The next tick time of a controller with ports is the least of the next tick times of its
  -- managed ports: none of them is earlier, and one of them is that time, unless they all lie at
  -- the end of the 32-bit counter.
  pub controller_next_tick_time_least :
      (c : Controller W) (now : ℕ)
      → 0 < c.port_count
      → AllFrom now (controller_next_tick_time c now) (take c.port_count c.ports)
        × ((controller_next_tick_time c now ≡ 4294967295)
            ⊎ AnyAt now (controller_next_tick_time c now) (take c.port_count c.ports))
  unfolding controller_next_tick_time
  controller_next_tick_time_least c now h = ground (
    arith,
    next_tick_from-AllFrom (take c.port_count c.ports) now 4294967295,
    next_tick_from-AnyAt (take c.port_count c.ports) now 4294967295,
  )

-- The number of results before the first one that is not 0.
unfoldable pub successes : List ℤ → ℕ
successes [] = 0
successes (r ∷ rs) = let n = successes rs in if eq_ℤ r (pos 0) then n + 1 else 0

-- The first result that is not 0, or 0.
unfoldable pub first_failure : List ℤ → ℤ
first_failure [] = pos 0
first_failure (r ∷ rs) = let later = first_failure rs in if eq_ℤ r (pos 0) then later else r

module _ {W : Type 0} (L : Iolinki) where
  -- The results of the initialisation of each port in turn, each in the world that the one before
  -- it left, with no regard to the results.
  unfoldable pub inits : List (Port W) → List (Phy W × Config W) → W → List ℤ
  inits (p ∷ ps) ((phy, config) ∷ rest) w =
      let (ret, s) = init L (record { port = p; world = w }) phy config in
      ret ∷ inits ps rest s.world
  inits ps _ w = []

  init_ports-inits :
      (ps : List (Port W)) (setups : List (Phy W × Config W)) (i : ℕ) (w : W)
      → ((init_ports L ps setups i w).0 ≡ first_failure (inits ps setups w))
        × ((init_ports L ps setups i w).2 ≡ i + successes (inits ps setups w))
  unfolding init_ports cons_inited inits first_failure successes
  init_ports-inits (p ∷ ps) ((phy, config) ∷ rest) i w =
      let s : Sys W = (init L (record { port = p; world = w }) phy config).1 in
      ground (arith, init_ports-inits ps rest (i + 1) s.world)
  init_ports-inits [] [] i w = ground arith
  init_ports-inits (p ∷ ps) [] i w = ground arith
  init_ports-inits [] (x ∷ rest) i w = ground arith

  successes-inits :
      (ps : List (Port W)) (setups : List (Phy W × Config W)) (w : W)
      → length setups ≤ length ps
      → ((first_failure (inits ps setups w) ≡ pos 0)
          × (successes (inits ps setups w) ≡ length setups))
        ⊎ ((eq_ℤ (first_failure (inits ps setups w)) (pos 0) ≡ false)
            × (successes (inits ps setups w) < length setups))
  unfolding inits first_failure successes
  successes-inits (p ∷ ps) ((phy, config) ∷ rest) w h =
      let s : Sys W = (init L (record { port = p; world = w }) phy config).1 in
      ground (arith, successes-inits ps rest s.world)
  successes-inits [] [] w h = ground arith
  successes-inits (p ∷ ps) [] w h = ground arith
  successes-inits [] (x ∷ rest) w h = absurd (omega arith)

  -- The initialisation of a controller with at least one port and enough of them reports the first
  -- result that is not OK, if the ports are initialised in turn, and manages exactly the ports
  -- before the one that gave it. It manages all of them if it reports OK, and fewer if it does not.
  pub port_count-controller_init :
      (c : Controller W) (ports : List (Port W)) (setups : List (Phy W × Config W))
      → 0 < length setups
      → length setups ≤ length ports
      → ((controller_init L c ports setups).0 ≡ first_failure (inits ports setups c.world))
        × ((controller_init L c ports setups).1.port_count ≡ successes (inits ports setups c.world))
        × ((((controller_init L c ports setups).0 ≡ pos 0)
              × ((controller_init L c ports setups).1.port_count ≡ length setups))
            ⊎ ((eq_ℤ (controller_init L c ports setups).0 (pos 0) ≡ false)
                × ((controller_init L c ports setups).1.port_count < length setups)))
  unfolding controller_init
  port_count-controller_init c ports setups h hl =
      ground
        (arith, init_ports-inits ports setups 0 c.world, successes-inits ports setups c.world hl)
