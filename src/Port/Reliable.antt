-- ===== src/Port/Reliable.antt =====
-- The calls of src/master_port.c to a PHY that reports success.
use iolinki_master.Base.{ℕ, ◌+◌, ◌≡◌, Bool, false, u8, ℤ, arith}
use iolinki_master.Iolinki.{Iolinki}
use iolinki_master.Types.Codes.{status_ok, status_pending}
use iolinki_master.Types.State.{startup, wake, Port, Sys}
use iolinki_master.Port.Timing.{startup_baudrate, t_dwu_100us}
use iolinki_master.Port.Line.{checked_call, phy_set_mode, phy_set_baudrate, set_mode, set_baudrate}
use iolinki_master.Port.Establish.{
  reset_rate_scan, restart_establish, next_rate, scan_failed, sequence_failed,
  establish_attempt_failed, arm_send_gate,
}

-- Setting the mode and setting the rate report success, whatever the value and the world are.
pub record IsReliable {W : Type 0} (p : Port W) : Type 0 where
  pub mode :
      (value : ℕ) (w : W)
      → (checked_call p.config.set_mode_checked (phy_set_mode p.phy) value w).0 ≡ status_ok
  pub baudrate :
      (value : ℕ) (w : W)
      → (checked_call p.config.set_baudrate_checked (phy_set_baudrate p.phy) value w).0 ≡ status_ok

-- The PHY and the configuration of a port are those of another.
pub record IsSameLine {W : Type 0} (p p' : Port W) : Type 0 where
  pub phy : p'.phy ≡ p.phy
  pub config : p'.config ≡ p.config

pub IsSameLine-IsReliable :
    {W : Type 0} (p p' : Port W) → IsSameLine p p' → IsReliable p → IsReliable p'
IsSameLine-IsReliable p p' e r = record {
  mode = λ value w. rw (e.phy, e.config) (r.mode value w);
  baudrate = λ value w. rw (e.phy, e.config) (r.baudrate value w);
}

module _ {W : Type 0} (L : Iolinki) where
  reset-IsSameLine : (s : Sys W) → IsSameLine s.port (reset_rate_scan L s).1.port
  unfolding reset_rate_scan set_baudrate
  reset-IsSameLine s = ground arith

  armed-IsSameLine :
      (s : Sys W) (now delay : ℕ) (timed : Bool)
      → IsSameLine s.port (arm_send_gate s now delay timed).port
  unfolding arm_send_gate
  armed-IsSameLine s now delay timed = ground arith

  next_rate-IsSameLine :
      (s : Sys W) (now : ℕ) (timed : Bool) → IsSameLine s.port (next_rate L s now timed).1.port
  unfolding next_rate set_baudrate arm_send_gate
  next_rate-IsSameLine s now timed = ground arith

  sequence_failed-IsSameLine :
      (s : Sys W) (now : ℕ) (timed : Bool)
      → IsSameLine s.port (sequence_failed L s now timed).1.port
  unfolding sequence_failed set_mode arm_send_gate
  sequence_failed-IsSameLine s now timed = ground arith

  scan_failed-IsSameLine :
      (s : Sys W) (now : ℕ) (timed : Bool) → IsSameLine s.port (scan_failed L s now timed).1.port
  unfolding scan_failed
  scan_failed-IsSameLine s now timed =
      let s' : Sys W = record s {
        port = record (s.port) {
          startup = record (s.port.startup) {
            wake_attempts = u8 (s.port.startup.wake_attempts + 1);
          };
        };
      } in
      let s'' : Sys W = (reset_rate_scan L s').1 in
      let again : Sys W = record s'' {
        port = record (s''.port) { startup = record (s''.port.startup) { step = wake } };
      } in
      let armed : IsSameLine again.port
          (arm_send_gate again now (t_dwu_100us again.port) timed).port =
        armed-IsSameLine again now (t_dwu_100us again.port) timed in
      let reset : IsSameLine s'.port s''.port = reset-IsSameLine s' in
      let failed : IsSameLine s''.port (sequence_failed L s'' now timed).1.port =
        sequence_failed-IsSameLine s'' now timed in
      ground (arith, reset.phy, reset.config, armed.phy, armed.config, failed.phy, failed.config)

  attempt-IsSameLine :
      (s : Sys W) (now : ℕ) (timed : Bool)
      → IsSameLine s.port (establish_attempt_failed L s now timed).1.port
  unfolding establish_attempt_failed
  attempt-IsSameLine s now timed =
      let s' : Sys W = record s { port = record (s.port) { awaiting_response = false } } in
      let next : IsSameLine s'.port (next_rate L s' now timed).1.port =
        next_rate-IsSameLine s' now timed in
      let scan : IsSameLine s'.port (scan_failed L s' now timed).1.port =
        scan_failed-IsSameLine s' now timed in
      ground (arith, next.phy, next.config, scan.phy, scan.config)

  pub reset-IsReliable : (s : Sys W) → IsReliable s.port → IsReliable (reset_rate_scan L s).1.port
  reset-IsReliable s =
      IsSameLine-IsReliable s.port (reset_rate_scan L s).1.port (reset-IsSameLine s)

  -- A PHY that is reliable stays so after a failed test message.
  pub attempt-IsReliable :
      (s : Sys W) (now : ℕ) (timed : Bool)
      → IsReliable s.port
      → IsReliable (establish_attempt_failed L s now timed).1.port
  attempt-IsReliable s now timed =
      IsSameLine-IsReliable s.port (establish_attempt_failed L s now timed).1.port
        (attempt-IsSameLine s now timed)

  -- A restart of the communication on such a PHY: the wake-up sequence is about to begin.
  pub record IsRestarted (r : ℤ × Sys W) : Type 0 where
    pub result : r.0 ≡ status_pending
    pub state : r.1.port.state ≡ startup
    pub step : r.1.port.startup.step ≡ wake
    pub attempts : r.1.port.startup.wake_attempts ≡ 0
    pub retries : r.1.port.diagnostics.rx_retry_count ≡ 0
    pub free : r.1.port.awaiting_response ≡ false

  pub restart_establish-IsRestarted :
      (s : Sys W) (now : ℕ) (timed : Bool)
      → IsReliable s.port
      → IsRestarted (restart_establish L s now timed)
  unfolding restart_establish reset_rate_scan set_baudrate arm_send_gate
  restart_establish-IsRestarted s now timed r =
      let p : Port W = record (s.port) {
        state = startup;
        startup = record (s.port.startup) { step = wake; wake_attempts = 0; baudrate_index = 0 };
        diagnostics = record (s.port.diagnostics) { rx_retry_count = 0 };
        awaiting_response = false;
      } in
      ground (arith, r.baudrate (startup_baudrate L p) s.world)
