-- ===== src/Port/Edges.antt =====
-- The state diagram of src/master_port.c: the edges of a tick, and its part behind the reception.
use iolinki_master.Base.{ℕ, ◌≡◌, Bool, true, false, ◌⊎◌, ℤ, is_neg, eq_ℤ, if◌then◌else◌, arith}
use iolinki_master.Iolinki.{Iolinki}
use iolinki_master.Types.Codes.{status_ok, tick_cycle_due, tick_response_timeout}
use iolinki_master.Types.State.{State, startup, preoperate, operate, error, Port, Sys}
use iolinki_master.Port.Line.{flush_rx}
use iolinki_master.Port.Tick.{account_cycle, run_cycle, tick_cycle, tick_timeout}
use iolinki_master.Port.Transitions.{IsSpent, IsAnswered, IsAcknowledged, timeout-state}
use iolinki_master.Port.Sending.{KeepsOrFails, process_at-KeepsOrFails}

-- The state that a port has after a tick that started with the port `p`: the same one; ERROR, with
-- the reason `Fault`; PREOPERATE behind an answered test message; OPERATE behind an acknowledged
-- DeviceOperate; or STARTUP when communication is lost with no retry left.
abbrev pub IsNext : {W : Type 0} → Type 0 → Type 0 → Type 0 → Port W → State → Type 0
IsNext Tested Confirmed Fault p b =
    (b ≡ p.state)
    ⊎ ((b ≡ error) × Fault)
    ⊎ (IsAnswered Tested Confirmed p × (b ≡ preoperate))
    ⊎ (IsAcknowledged Tested Confirmed p × (b ≡ operate))
    ⊎ (((p.state ≡ preoperate) ⊎ (p.state ≡ operate)) × IsSpent p × (b ≡ startup))

-- Why a tick fails: an error is reported, a transmission was due, or a timeout was not handled.
abbrev pub IsFault : ℕ → ℤ → Type 0
IsFault event ret =
    (is_neg ret ≡ true)
    ⊎ (event ≡ tick_cycle_due)
    ⊎ ((event ≡ tick_response_timeout) × (eq_ℤ ret status_ok ≡ false))

module _ {W : Type 0} (L : Iolinki) where
  run_cycle-KeepsOrFails :
      (s : Sys W) (pace : Bool) (now : ℕ)
      → KeepsOrFails s.port.state (run_cycle L s pace now).port.state
  unfolding run_cycle account_cycle
  run_cycle-KeepsOrFails s pace now = ground (arith, process_at-KeepsOrFails L s now pace)

  pub tick_cycle-KeepsOrFails :
      (s : Sys W) (ret : ℤ) (pace : Bool) (now : ℕ)
      → KeepsOrFails s.port.state (tick_cycle L s ret pace now).1.port.state
  unfolding tick_cycle
  tick_cycle-KeepsOrFails s ret pace now = ground (arith, run_cycle-KeepsOrFails s pace now)

  cleared_keeps :
      (s : Sys W)
      → ((if s.port.awaiting_response then flush_rx s else (status_ok, s)).1.port.state
          ≡ s.port.state)
        × ((if s.port.awaiting_response then flush_rx s else (status_ok, s)).1.port.diagnostics
            ≡ s.port.diagnostics)
  unfolding flush_rx
  cleared_keeps s = ground arith

  -- A timeout in a tick, as for a timeout alone.
  pub tick_timeout-state :
      (s : Sys W) (ret : ℤ) (pace : Bool) (now : ℕ)
      → ((tick_timeout L s ret pace now).1.port.state ≡ s.port.state)
        ⊎ (((tick_timeout L s ret pace now).1.port.state ≡ error)
            × (eq_ℤ (tick_timeout L s ret pace now).0 status_ok ≡ false))
        ⊎ ((s.port.state ≡ operate)
            × IsSpent s.port
            × ((tick_timeout L s ret pace now).1.port.state ≡ startup))
  unfolding tick_timeout
  tick_timeout-state s ret pace now =
      let s1 : Sys W = (if s.port.awaiting_response then flush_rx s else (status_ok, s)).1 in
      let s2 : Sys W = record s1 { port = record (s1.port) { awaiting_response = false } } in
      ground (arith, cleared_keeps s, timeout-state L s2 now pace)
