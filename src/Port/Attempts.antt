-- ===== src/Port/Attempts.antt =====
-- Establish-communication in src/master_port.c: the wake-up retries end, and how.
use iolinki_master.Base.{
  u8, leb, true, false, ℕ, zero, suc, ◌+◌, ◌-◌, ◌*◌, ◌≤◌, ◌<◌, ◌≡◌, Bool, ◌⊎◌, arith, ℤ,
  if◌then◌else◌, eq_ℤ,
}
use iolinki_master.Iolinki.{Iolinki}
use iolinki_master.Types.Codes.{status_ok, status_pending, err_retry_limit}
use iolinki_master.Types.State.{step_inactive, wake, Port, Sys}
use iolinki_master.Port.Timing.{wake_retry_limit, startup_baudrate, t_dwu_100us}
use iolinki_master.Port.Line.{set_mode, set_baudrate}
use iolinki_master.Port.Reliable.{IsReliable, attempt-IsReliable, reset-IsReliable}
use iolinki_master.Port.Establish.{
  reset_rate_scan, next_rate, scan_failed, sequence_failed, establish_attempt_failed, arm_send_gate,
}

-- The test messages that the retry sequence still has, this one included: three rates in each
-- attempt with the automatic rate, one otherwise.
unfoldable pub attempts_left : {W : Type 0} → Port W → ℕ
attempts_left p =
    let attempts = wake_retry_limit p + 1 - p.startup.wake_attempts in
    if p.config.auto_baudrate then attempts * 3 - p.startup.baudrate_index else attempts

-- The counters are in range and the limit can be passed by the 8-bit counter of the attempts.
pub record IsCounting {W : Type 0} (p : Port W) : Type 0 where
  pub limit : wake_retry_limit p < 255
  pub attempts : p.startup.wake_attempts ≤ wake_retry_limit p
  pub index : p.startup.baudrate_index ≤ 2

-- What the attempts depend on: the state, the configuration, the attempts made and the rate.
record IsAt {W : Type 0} (p : Port W) (attempts index : ℕ) (q : Port W) : Type 0 where
  state : q.state ≡ p.state
  config : q.config ≡ p.config
  attempts_made : q.startup.wake_attempts ≡ attempts
  rate : q.startup.baudrate_index ≡ index

-- The retry sequence is over.
record IsResting {W : Type 0} (p : Port W) (q : Port W) : Type 0 where
  state : q.state ≡ p.state
  step : q.startup.step ≡ step_inactive
  attempts_made : q.startup.wake_attempts ≡ 0

module _ {W : Type 0} (L : Iolinki) (s : Sys W) (now : ℕ) (timed : Bool) where
  next_rate-IsAt :
      IsReliable s.port
      → ((next_rate L s now timed).0 ≡ status_pending)
        × IsAt s.port s.port.startup.wake_attempts
            (u8 (s.port.startup.baudrate_index + 1))
            (next_rate L s now timed).1.port
  unfolding next_rate set_baudrate arm_send_gate
  next_rate-IsAt r =
      let next : Port W = record (s.port) {
        startup = record (s.port.startup) {
          baudrate_index = u8 (s.port.startup.baudrate_index + 1);
        };
      } in
      ground (arith, r.baudrate (startup_baudrate L next) s.world)

  sequence_failed-IsResting :
      IsReliable s.port
      → ((sequence_failed L s now timed).0 ≡ err_retry_limit)
        × IsResting s.port (sequence_failed L s now timed).1.port
  unfolding sequence_failed set_mode arm_send_gate
  sequence_failed-IsResting r = ground (arith, r.mode L.phy_mode_inactive s.world)

module _ {W : Type 0} (L : Iolinki) (s : Sys W) where
  -- The index of the rate after going back to the first one.
  abbrev first_index : Port W → ℕ
  first_index p = if p.config.auto_baudrate then 0 else p.startup.baudrate_index

  reset-IsAt :
      IsReliable s.port
      → ((reset_rate_scan L s).0 ≡ status_ok)
        × IsAt s.port s.port.startup.wake_attempts (first_index s.port) (reset_rate_scan L s).1.port
  unfolding reset_rate_scan set_baudrate
  reset-IsAt r =
      let first : Port W = record (s.port) {
        startup = record (s.port.startup) { baudrate_index = 0 };
      } in
      ground (arith, r.baudrate (startup_baudrate L first) s.world)

  armed-IsAt :
      (now delay : ℕ) (timed : Bool)
      → IsAt s.port s.port.startup.wake_attempts s.port.startup.baudrate_index
          (arm_send_gate s now delay timed).port
  unfolding arm_send_gate
  armed-IsAt now delay timed = ground arith

module _ {W : Type 0} (L : Iolinki) (s : Sys W) (now : ℕ) (timed : Bool) where
  -- A failed scan: another one, or the end of the sequence.
  scan_failed-IsAt :
      IsReliable s.port
      → (((scan_failed L s now timed).0 ≡ status_pending)
          × (leb (u8 (s.port.startup.wake_attempts + 1)) (wake_retry_limit s.port) ≡ true)
          × IsAt s.port
              (u8 (s.port.startup.wake_attempts + 1))
              (first_index L s s.port)
              (scan_failed L s now timed).1.port)
        ⊎ (((scan_failed L s now timed).0 ≡ err_retry_limit)
            × (leb (u8 (s.port.startup.wake_attempts + 1)) (wake_retry_limit s.port) ≡ false)
            × IsResting s.port (scan_failed L s now timed).1.port)
  unfolding scan_failed wake_retry_limit
  scan_failed-IsAt r =
      let s' : Sys W = record s {
        port = record (s.port) {
          startup = record (s.port.startup) {
            wake_attempts = u8 (s.port.startup.wake_attempts + 1);
          };
        };
      } in
      let s'' : Sys W = (reset_rate_scan L s').1 in
      let again : Sys W = record s'' {
        port = record (s''.port) { startup = record (s''.port.startup) { step = wake } };
      } in
      let r' : IsReliable s'.port = record { mode = r.mode; baudrate = r.baudrate } in
      ground (
        arith,
        reset-IsAt L s' r',
        armed-IsAt L again now (t_dwu_100us again.port) timed,
        sequence_failed-IsResting L s'' now timed (reset-IsReliable L s' r'),
      )

module _ {W : Type 0} (L : Iolinki) (s : Sys W) (now : ℕ) (timed : Bool) where
  -- A failed test message on a PHY that sets the mode and the rate without an error, with the
  -- counters in range, keeps the state of the port. It is pending with exactly one attempt less
  -- and the counters in range again; or it was the last attempt, and then the retry limit is
  -- reported, the counter starts again at 0 and the port rests.
  pub attempts_left-establish_attempt_failed :
      IsReliable s.port
      → IsCounting s.port
      → ((establish_attempt_failed L s now timed).1.port.state ≡ s.port.state)
        × ((((establish_attempt_failed L s now timed).0 ≡ status_pending)
              × (attempts_left (establish_attempt_failed L s now timed).1.port + 1
                  ≡ attempts_left s.port)
              × IsCounting (establish_attempt_failed L s now timed).1.port)
            ⊎ (((establish_attempt_failed L s now timed).0 ≡ err_retry_limit)
                × (attempts_left s.port ≡ 1)
                × ((establish_attempt_failed L s now timed).1.port.startup.step ≡ step_inactive)
                × ((establish_attempt_failed L s now timed).1.port.startup.wake_attempts ≡ 0)))
  unfolding attempts_left establish_attempt_failed wake_retry_limit
  attempts_left-establish_attempt_failed r c =
      let s' : Sys W = record s { port = record (s.port) { awaiting_response = false } } in
      let r' : IsReliable s'.port = record { mode = r.mode; baudrate = r.baudrate } in
      ground (
        arith,
        c.limit,
        c.attempts,
        c.index,
        next_rate-IsAt L s' now timed r',
        scan_failed-IsAt L s' now timed r',
      )

  -- With a configured limit of 255 the 8-bit counter never passes it: on a PHY that sets the mode
  -- and the rate without an error every failed test message is pending and keeps the state, whatever
  -- the counters are, so that the retry limit is never reported.
  pub establish_attempt_failed_unlimited :
      IsReliable s.port
      → s.port.config.wake_retry_limit ≡ 255
      → ((establish_attempt_failed L s now timed).0 ≡ status_pending)
        × ((establish_attempt_failed L s now timed).1.port.state ≡ s.port.state)
  unfolding establish_attempt_failed wake_retry_limit
  establish_attempt_failed_unlimited r h =
      let s' : Sys W = record s { port = record (s.port) { awaiting_response = false } } in
      let r' : IsReliable s'.port = record { mode = r.mode; baudrate = r.baudrate } in
      ground (arith, h, next_rate-IsAt L s' now timed r', scan_failed-IsAt L s' now timed r')

module _ {W : Type 0} (L : Iolinki) where
  -- The result of the last of at most `n` failed test messages in a row at time `now`: the row
  -- ends with the first result that is not pending.
  unfoldable pub failed_in_a_row : ℕ → Sys W → ℕ → Bool → ℤ × Sys W
  failed_in_a_row zero s now timed = (status_pending, s)
  failed_in_a_row (suc n) s now timed =
      let (ret, s') = establish_attempt_failed L s now timed in
      let rest = failed_in_a_row n s' now timed in
      if eq_ℤ ret status_pending then rest else (ret, s')

  -- The row of failed test messages ends: on a PHY that sets the mode and the rate without an
  -- error, with the counters in range, as many failures as the retry sequence has messages left
  -- end it with the retry limit reported, the port at rest in the state in which it was, and the
  -- counter at 0 for the next sequence.
  pub failed_in_a_row_ends :
      (n : ℕ) (s : Sys W) (now : ℕ) (timed : Bool)
      → IsReliable s.port
      → IsCounting s.port
      → attempts_left s.port ≤ n
      → ((failed_in_a_row n s now timed).0 ≡ err_retry_limit)
        × ((failed_in_a_row n s now timed).1.port.state ≡ s.port.state)
        × ((failed_in_a_row n s now timed).1.port.startup.step ≡ step_inactive)
        × ((failed_in_a_row n s now timed).1.port.startup.wake_attempts ≡ 0)
  unfolding failed_in_a_row attempts_left wake_retry_limit
  failed_in_a_row_ends zero s now timed r c h = absurd (ground (arith, c.attempts, c.index))
  failed_in_a_row_ends (suc n) s now timed r c h =
      let s' : Sys W = (establish_attempt_failed L s now timed).1 in
      ground (
        arith,
        attempts_left-establish_attempt_failed L s now timed r c,
        (λ (c' : IsCounting s'.port).
            failed_in_a_row_ends n s' now timed (attempt-IsReliable L s now timed r) c'),
      )
