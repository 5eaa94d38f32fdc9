-- ===== src/Port/Tick.antt =====
-- src/master_port.c: the tick engine.
use iolinki_master.Base.{
  ℕ, ◌+◌, Bool, true, false, not, ◌&&◌, if◌then◌else◌, ◌==◌, ltb, u32, Option, none, some, ℤ, eq_ℤ,
  is_neg,
}
use iolinki_master.Iolinki.{Iolinki}
use iolinki_master.Types.Codes.{status_ok, err_invalid_arg, tick_cycle_due, tick_response_timeout}
use iolinki_master.Types.State.{Port, Sys}
use iolinki_master.Port.Timing.{
  cycle_due_at, cycle_slipped_at, cycle_jitter_at, response_timeout_100us,
}
use iolinki_master.Port.Line.{flush_rx}
use iolinki_master.Port.Establish.{on_timeout_at}
use iolinki_master.Port.Process.{process_at}
use iolinki_master.Port.Receive.{poll_rx}

module _ {W : Type 0} (L : Iolinki) where
  -- The bookkeeping of a paced cycle that was sent. The jitter is that of the cycle before it.
  unfoldable pub account_cycle : Port W → ℕ → Port W
  account_cycle p now =
      let d = p.diagnostics in
      let jitter = cycle_jitter_at p now in
      record p {
        diagnostics = record d {
          cycle_slips = if cycle_slipped_at p now then u32 (d.cycle_slips + 1) else d.cycle_slips;
          last_cycle_jitter_100us = jitter;
          max_cycle_jitter_100us =
              if ltb d.max_cycle_jitter_100us jitter then jitter else d.max_cycle_jitter_100us;
        };
        last_cycle_start_100us = now;
        response_deadline_100us = u32 (now + response_timeout_100us L p);
        cycle_timer_valid = true;
        awaiting_response = true;
      }

  -- The due cycle: `cycle_count` changes exactly when a cyclic frame went out.
  unfoldable pub run_cycle : Sys W → Bool → ℕ → Sys W
  run_cycle s pace now =
      let s' = process_at L s now pace in
      if pace && not (s'.port.cycle_count == s.port.cycle_count)
      then record s' { port = account_cycle s'.port now }
      else s'

  unfoldable pub tick_cycle : Sys W → ℤ → Bool → ℕ → ℤ × Sys W
  tick_cycle s rx_ret pace now =
      if s.port.awaiting_response
      then (rx_ret, s)
      else if pace && not (cycle_due_at s.port now)
      then (rx_ret, s)
      else (rx_ret, run_cycle s pace now)

  unfoldable pub tick_timeout : Sys W → ℤ → Bool → ℕ → ℤ × Sys W
  tick_timeout s rx_ret pace now =
      let (flushed, s1) = if s.port.awaiting_response then flush_rx s else (status_ok, s) in
      let s2 = record s1 { port = record (s1.port) { awaiting_response = false } } in
      let (ret, s3) = on_timeout_at L s2 now pace in
      if pace && not s.port.awaiting_response
      then (rx_ret, s)
      else if not (eq_ℤ ret status_ok)
      then (ret, s3)
      else (rx_ret, s3)

  -- What follows the reception.
  unfoldable pub tick_received : ℕ → Bool → ℕ → ℤ × Sys W → ℤ × Sys W
  tick_received event pace now (rx_ret, s) =
      if is_neg rx_ret
      then (rx_ret, s)
      else if event == tick_response_timeout
      then tick_timeout s rx_ret pace now
      else if event == tick_cycle_due
      then tick_cycle s rx_ret pace now
      else (rx_ret, s)

  -- `fuel` bounds the bytes that one reception reads.
  unfoldable pub tick_common : ℕ → Sys W → ℕ → Bool → ℕ → Option (ℤ × Sys W)
  tick_common fuel s event pace now =
      if ltb tick_response_timeout event
      then some (err_invalid_arg, s)
      else elim (poll_rx L fuel s) [
        | none ↦ none
        | some received ↦ some (tick_received event pace now received)
      ]

  unfoldable pub tick_event : ℕ → Sys W → ℕ → Option (ℤ × Sys W)
  tick_event fuel s event = tick_common fuel s event false 0

  unfoldable pub tick : ℕ → Sys W → Bool → Option (ℤ × Sys W)
  tick fuel s response_timeout =
      tick_event fuel s (if response_timeout then tick_response_timeout else tick_cycle_due)

  unfoldable pub tick_at : ℕ → Sys W → ℕ → ℕ → Option (ℤ × Sys W)
  tick_at fuel s event now = tick_common fuel s event true now
