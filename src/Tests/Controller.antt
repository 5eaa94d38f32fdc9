-- ===== src/Tests/Controller.antt =====
-- The controller of src/master_controller.c with two ports.
use iolinki_master.Base.{
  ℕ, ◌<◌, ◌≡◌, ◌⊎◌, refl, false, arith, Option, List, [], ◌∷◌, length, take, ℤ, pos, eq_ℤ,
}
use iolinki_master.Types.Config.{Phy, Config}
use iolinki_master.Types.State.{State, Sys}
use iolinki_master.Port.Tick.{tick_at}
use iolinki_master.Controller.{Controller, tick_managed, controller_next_tick_time, controller_init}
use iolinki_master.Controller.Loops.{
  round, managed, tick_managed-round, AllFrom, AnyAt, controller_next_tick_time_least,
  port_count-controller_init, inits, successes, first_failure,
}
use iolinki_master.Tests.Instance.{wire, phy, setup, port, system}

unfoldable pair : Controller ℕ
unfolding system
pair = record {
  ports = (system State.operate).port ∷ (system State.startup).port ∷ [];
  port_count = 2;
  world = 0;
}

two : pair.port_count ≡ 2
unfolding pair
two = refl

abbrev step : ℕ → Sys ℕ → Option (ℤ × Sys ℕ)
step i s = tick_at wire 4 s 0 100

tick_managed-round_example :
    tick_managed step pair
    ≡ managed step pair (round step (take pair.port_count pair.ports) 0 pair.world)
tick_managed-round_example = tick_managed-round step pair

controller_next_tick_time_least_example :
    AllFrom 100 (controller_next_tick_time pair 100) (take pair.port_count pair.ports)
    × ((controller_next_tick_time pair 100 ≡ 4294967295)
        ⊎ AnyAt 100 (controller_next_tick_time pair 100) (take pair.port_count pair.ports))
controller_next_tick_time_least_example =
    controller_next_tick_time_least pair 100 (omega (arith, two))

abbrev setups : List (Phy ℕ × Config ℕ)
setups = (phy, setup) ∷ (phy, setup) ∷ []

port_count-controller_init_example :
    ((controller_init wire pair (port ∷ port ∷ []) setups).0
      ≡ first_failure (inits wire (port ∷ port ∷ []) setups pair.world))
    × ((controller_init wire pair (port ∷ port ∷ []) setups).1.port_count
        ≡ successes (inits wire (port ∷ port ∷ []) setups pair.world))
    × ((((controller_init wire pair (port ∷ port ∷ []) setups).0 ≡ pos 0)
          × ((controller_init wire pair (port ∷ port ∷ []) setups).1.port_count ≡ length setups))
        ⊎ ((eq_ℤ (controller_init wire pair (port ∷ port ∷ []) setups).0 (pos 0) ≡ false)
            × ((controller_init wire pair (port ∷ port ∷ []) setups).1.port_count < length setups)))
port_count-controller_init_example =
    port_count-controller_init wire pair (port ∷ port ∷ []) setups (omega arith) (omega arith)
