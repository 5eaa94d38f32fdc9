-- ===== src/Port/Establish.antt =====
-- src/master_port.c: timeouts, the establish-communication submachine and COMLOST.
use iolinki_master.Base.{
  ℕ, ◌+◌, Bool, true, false, not, ◌&&◌, ◌||◌, if◌then◌else◌, ◌==◌, ltb, leb, u8, u32, is_none, ℤ,
  eq_ℤ,
}
use iolinki_master.Iolinki.{Iolinki}
use iolinki_master.Types.Codes.{status_ok, status_pending, err_invalid_arg, err_retry_limit}
use iolinki_master.Types.Limits.{rx_retry_limit}
use iolinki_master.Types.State.{
  State, is_startup, is_operate, wake, send_type0, step_inactive, is_step_inactive, Sys,
}
use iolinki_master.Port.Timing.{
  wake_retry_limit, t_dwu_100us, t_sd_100us, startup_baudrate, t_dmt_100us,
}
use iolinki_master.Port.Line.{enter, set_mode, set_baudrate, flush_rx}

module _ {W : Type 0} where
  unfoldable pub arm_send_gate : Sys W → ℕ → ℕ → Bool → Sys W
  arm_send_gate s now delay timed =
      if timed
      then record s {
        port = record (s.port) { send_ready_at_100us = u32 (now + delay); send_ready_valid = true };
      }
      else s

module _ {W : Type 0} (L : Iolinki) where
  unfoldable pub reset_rate_scan : Sys W → ℤ × Sys W
  reset_rate_scan s =
      let s' = record s {
        port = record (s.port) { startup = record (s.port.startup) { baudrate_index = 0 } };
      } in
      if not s.port.config.auto_baudrate || s.port.startup.baudrate_index == 0
      then (status_ok, s)
      else set_baudrate s' (startup_baudrate L s'.port)

  unfoldable pub restart_establish : Sys W → ℕ → Bool → ℤ × Sys W
  restart_establish s now timed =
      let s' = record s {
        port = record (s.port) {
          state = State.startup;
          startup = record (s.port.startup) { step = wake; wake_attempts = 0 };
          diagnostics = record (s.port.diagnostics) { rx_retry_count = 0 };
          awaiting_response = false;
        };
      } in
      let (ret, s'') = reset_rate_scan s' in
      if not (eq_ℤ ret status_ok)
      then (ret, enter State.error s'')
      else (status_pending, arm_send_gate s'' now (t_dwu_100us s''.port) timed)

  -- The next lower rate.
  unfoldable pub next_rate : Sys W → ℕ → Bool → ℤ × Sys W
  next_rate s now timed =
      let s' = record s {
        port = record (s.port) {
          startup = record (s.port.startup) {
            baudrate_index = u8 (s.port.startup.baudrate_index + 1);
          };
        };
      } in
      let (ret, s'') = set_baudrate s' (startup_baudrate L s'.port) in
      let sent = record s'' {
        port = record (s''.port) { startup = record (s''.port.startup) { step = send_type0 } };
      } in
      if not (eq_ℤ ret status_ok) then (ret, enter State.error s'') else (
        status_pending,
        arm_send_gate sent now (t_dmt_100us L sent.port (startup_baudrate L sent.port)) timed,
      )

  -- The wake-up retry sequence failed.
  unfoldable pub sequence_failed : Sys W → ℕ → Bool → ℤ × Sys W
  sequence_failed s now timed =
      let s' = record s {
        port = record (s.port) {
          startup = record (s.port.startup) { wake_attempts = 0 };
          diagnostics = record (s.port.diagnostics) {
            establish_failures = u32 (s.port.diagnostics.establish_failures + 1);
          };
        };
      } in
      let (ret, s'') = set_mode s' L.phy_mode_inactive in
      let idle = record s'' {
        port = record (s''.port) { startup = record (s''.port.startup) { step = step_inactive } };
      } in
      if not (eq_ℤ ret status_ok)
      then (ret, enter State.error s'')
      else (err_retry_limit, arm_send_gate idle now (t_sd_100us idle.port) timed)

  -- No answer at the last rate.
  unfoldable pub scan_failed : Sys W → ℕ → Bool → ℤ × Sys W
  scan_failed s now timed =
      let s' = record s {
        port = record (s.port) {
          startup = record (s.port.startup) {
            wake_attempts = u8 (s.port.startup.wake_attempts + 1);
          };
        };
      } in
      let (ret, s'') = reset_rate_scan s' in
      let again = record s'' {
        port = record (s''.port) { startup = record (s''.port.startup) { step = wake } };
      } in
      if not (eq_ℤ ret status_ok)
      then (ret, enter State.error s'')
      else if leb s''.port.startup.wake_attempts (wake_retry_limit s''.port)
      then (status_pending, arm_send_gate again now (t_dwu_100us again.port) timed)
      else sequence_failed s'' now timed

  -- The scan has three rates, so the last index is 2.
  unfoldable pub establish_attempt_failed : Sys W → ℕ → Bool → ℤ × Sys W
  establish_attempt_failed s now timed =
      let s' = record s { port = record (s.port) { awaiting_response = false } } in
      if s.port.config.auto_baudrate && ltb s.port.startup.baudrate_index 2
      then next_rate s' now timed
      else scan_failed s' now timed

  -- A response timeout in OPERATE.
  unfoldable pub operate_timeout : Sys W → ℕ → Bool → ℤ × Sys W
  operate_timeout s now timed =
      let d = s.port.diagnostics in
      let counted = u32 (d.response_timeouts + 1) in
      if ltb d.rx_retry_count rx_retry_limit
      then (
        status_pending,
        record s {
          port = record (s.port) {
            diagnostics = record d {
              response_timeouts = counted;
              rx_retry_count = u8 (d.rx_retry_count + 1);
            };
          };
        },
      )
      else restart_establish
          (record s {
            port = record (s.port) { diagnostics = record d { response_timeouts = counted } };
          })
          now timed

  unfoldable pub on_timeout_at : Sys W → ℕ → Bool → ℤ × Sys W
  on_timeout_at s now timed =
      let (ret, s') = flush_rx s in
      if not (eq_ℤ ret status_ok)
      then (ret, enter State.error s')
      else if not (is_startup s'.port.state)
      then (if is_operate s'.port.state then operate_timeout s' now timed else (status_ok, s'))
      else if is_none s'.port.phy
      then (err_invalid_arg, s')
      else if is_step_inactive s'.port.startup.step
      then (status_pending, s')
      else establish_attempt_failed s' now timed

  unfoldable pub on_timeout : Sys W → ℤ × Sys W
  on_timeout s = on_timeout_at s 0 false
