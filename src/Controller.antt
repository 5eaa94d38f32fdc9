-- ===== src/Controller.antt =====
-- src/master_controller.c: a group of ports as a unit. The ports act on one world, in order.
pub mod Loops
use iolinki_master.Base.{
  ℕ, ◌+◌, Bool, false, not, ◌&&◌, if◌then◌else◌, ◌==◌, ltb, leb, Option, none, some, List, [], ◌∷◌,
  ◌++◌, get_elem?, get_or, take, drop, length, ℤ, pos, is_neg, eq_ℤ,
}
use iolinki_master.Iolinki.{Iolinki}
use iolinki_master.Types.Codes.{status_ok, err_invalid_arg, tick_cycle_due, tick_response_timeout}
use iolinki_master.Types.Config.{Phy, Config}
use iolinki_master.Types.State.{Port, Sys}
use iolinki_master.Port.Timing.{response_due_at, get_next_tick_time}
use iolinki_master.Port.Init.{init}
use iolinki_master.Port.Tick.{tick_event, tick_at}

-- `iolink_master_controller_state_t`: the caller's port array and the number of managed ports; and
-- the world that the ports share.
pub record Controller (W : Type 0) : Type 0 where
  pub ports : List (Port W)
  pub port_count : ℕ
  pub world : W

-- `if ((ret < 0) && (first_error == 0)) first_error = ret;`
unfoldable pub keep_first : ℤ → ℤ → ℤ
keep_first first ret = if is_neg ret && eq_ℤ first (pos 0) then ret else first

-- The event of port `i`.
unfoldable pub timeout_event : Option (List Bool) → ℕ → ℕ
timeout_event none i = tick_cycle_due
timeout_event (some due) i = if get_or due i false then tick_response_timeout else tick_cycle_due

unfoldable pub event_at : Option (List ℕ) → ℕ → ℕ
event_at none i = tick_cycle_due
event_at (some events) i = get_or events i tick_cycle_due

-- The result of a loop over ports: result, ports, world.
abbrev pub Ticked : Type 0 → Type 0
Ticked W = ℤ × List (Port W) × W

-- The result of the loop of inits: result, array, number of ports that came up, world.
abbrev pub Inited : Type 0 → Type 0
Inited W = ℤ × List (Port W) × ℕ × W

module _ {W : Type 0} where
  unfoldable pub cons_ticked : Port W → Option (Ticked W) → Option (Ticked W)
  cons_ticked p none = none
  cons_ticked p (some (ret, ps, w)) = some (ret, p ∷ ps, w)

  -- The loop over the ports from index `i` on: each is ticked by `step`.
  unfoldable pub tick_ports :
      (ℕ → Sys W → Option (ℤ × Sys W)) → List (Port W) → ℕ → ℤ → W → Option (Ticked W)
  tick_ports step [] i first w = some (first, [], w)
  tick_ports step (p ∷ ps) i first w = elim (step i (record { port = p; world = w })) [
    | none ↦ none
    | some (ret, s) ↦ cons_ticked s.port (tick_ports step ps (i + 1) (keep_first first ret) s.world)
  ]

  -- The managed ports are ticked, the rest of the array stays.
  unfoldable pub tick_managed :
      (ℕ → Sys W → Option (ℤ × Sys W)) → Controller W → Option (ℤ × Controller W)
  tick_managed step c = elim (tick_ports step (take c.port_count c.ports) 0 status_ok c.world) [
    | none ↦ none
    | some (ret, ps, w) ↦
        some (ret, record c { ports = ps ++ drop c.port_count c.ports; world = w })
  ]

  unfoldable pub get_port_count : Controller W → ℕ
  get_port_count c = c.port_count

  -- `*out_port`, if it is written
  unfoldable pub get_port : Controller W → ℕ → ℤ × Option (Port W)
  get_port c index =
      if leb c.port_count index
      then (err_invalid_arg, none)
      else (status_ok, get_elem? c.ports index)

  -- The minimum over the ports, from the value so far.
  unfoldable pub next_tick_from : List (Port W) → ℕ → ℕ → ℕ
  next_tick_from [] now out = out
  next_tick_from (p ∷ ps) now out =
      let next = get_next_tick_time p now in
      next_tick_from ps now (if ltb next out then next else out)

  unfoldable pub controller_next_tick_time : Controller W → ℕ → ℕ
  controller_next_tick_time c now =
      if c.port_count == 0 then now else next_tick_from (take c.port_count c.ports) now 4294967295

module _ {W : Type 0} where
  unfoldable pub cons_inited : Port W → Inited W → Inited W
  cons_inited p (ret, ps, n, w) = (ret, p ∷ ps, n, w)

module _ {W : Type 0} (L : Iolinki) where
  -- The loop of `controller_init` from index `i` on, over the array and the PHYs and
  -- configurations of its ports.
  unfoldable pub init_ports : List (Port W) → List (Phy W × Config W) → ℕ → W → Inited W
  init_ports (p ∷ ps) ((phy, config) ∷ rest) i w =
      let (ret, s) = init L (record { port = p; world = w }) phy config in
      let others = init_ports ps rest (i + 1) s.world in
      if not (eq_ℤ ret (pos 0)) then (ret, s.port ∷ ps, i, s.world) else cons_inited s.port others
  init_ports ps _ i w = (status_ok, ps, i, w)

  -- The array has a port, a PHY and a configuration for each index below `port_count`.
  unfoldable pub controller_init :
      Controller W → List (Port W) → List (Phy W × Config W) → ℤ × Controller W
  controller_init c ports setups =
      let (ret, ps, n, w) = init_ports ports setups 0 c.world in
      if length setups == 0
      then (err_invalid_arg, c)
      else (ret, record { ports = ps; port_count = n; world = w })

  unfoldable pub controller_tick : ℕ → Controller W → Option (List Bool) → Option (ℤ × Controller W)
  controller_tick fuel c due = tick_managed (λ i s. tick_event L fuel s (timeout_event due i)) c

  unfoldable pub controller_tick_events :
      ℕ → Controller W → Option (List ℕ) → Option (ℤ × Controller W)
  controller_tick_events fuel c events =
      tick_managed (λ i s. tick_event L fuel s (event_at events i)) c

  unfoldable pub controller_tick_at : ℕ → Controller W → ℕ → Option (ℤ × Controller W)
  controller_tick_at fuel c now =
      tick_managed
        (λ i s.
          tick_at L fuel s
            (if response_due_at s.port now then tick_response_timeout else tick_cycle_due) now)
        c
