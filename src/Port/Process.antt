-- ===== src/Port/Process.antt =====
-- src/master_port.c: `iolink_master_process_at`, what a port transmits in one tick.
use iolinki_master.Base.{
  ℕ, ◌+◌, Bool, true, false, not, ◌&&◌, ◌||◌, if◌then◌else◌, ◌==◌, ltb, u32, is_none, get_or, eq_ℤ,
  is_neg,
}
use iolinki_master.Iolinki.{Iolinki}
use iolinki_master.Types.Codes.{
  status_ok, status_pending, m_seq_type_0, inspection_no_check, mc_channel_process, mc_channel_page,
}
use iolinki_master.Types.Limits.{frame_buf_size, t_ren_max_100us}
use iolinki_master.Types.Config.{Config}
use iolinki_master.Types.State.{
  State, is_wake, is_send_type0, is_step_inactive, wake, send_type0, await_response,
  await_operate_ack, Port, Sys,
}
use iolinki_master.Params.Wire.{encode_master_command}
use iolinki_master.Params.Page1.{validate_device_info}
use iolinki_master.Isdu.Transport.{isdu_fill_od}
use iolinki_master.Isdu.Block.{read_device_info}
use iolinki_master.Port.Timing.{startup_baudrate, t_dmt_100us, test_message_timeout_100us}
use iolinki_master.Port.Line.{enter, phy_send, set_mode, wake_up, send_full}
use iolinki_master.Port.Establish.{arm_send_gate}
use iolinki_master.Port.Frames.{build_multi_frame, send_built, send_isdu, send_event}

unfoldable pub startup_validation_required : {W : Type 0} → Config W → Bool
startup_validation_required c =
    c.validate_device_info || not (c.inspection_level == inspection_no_check)

module _ {W : Type 0} where
  -- `cycle_count++` after a successful send
  unfoldable pub count_cycle : Bool → Sys W → Sys W
  count_cycle true s = record s {
    port = record (s.port) { cycle_count = u32 (s.port.cycle_count + 1) };
  }
  count_cycle false s = s

  unfoldable pub is_type0_port : Port W → Bool
  is_type0_port p =
      p.config.m_seq_type == m_seq_type_0 && p.config.pd_in_len == 0 && p.pd_out_len == 0

  -- The send gate of the timed entry points is closed.
  unfoldable pub gate_closed : Port W → ℕ → Bool → Bool
  gate_closed p now timed = timed && p.send_ready_valid && ltb now p.send_ready_at_100us

module _ {W : Type 0} (L : Iolinki) where
  -- STARTUP_STEP_WAKE: the wake-up request.
  unfoldable pub process_wake : Sys W → ℕ → Bool → Sys W
  process_wake s now timed =
      let (woken, s') = wake_up L s in
      let next = record s' {
        port = record (s'.port) { startup = record (s'.port.startup) { step = send_type0 } };
      } in
      if woken
      then arm_send_gate next now
          (t_ren_max_100us + t_dmt_100us L next.port (startup_baudrate L next.port)) timed
      else s'

  -- STARTUP_STEP_SEND_TYPE0: the test message.
  unfoldable pub process_test_message : Sys W → ℕ → Bool → Sys W
  process_test_message s now timed =
      let mc = encode_master_command L true mc_channel_page 0x02 in
      let (frame_len, tx) = L.frame_encode_type0 mc s.port.tx_buf frame_buf_size in
      let (emitted, sent, s') =
        send_built L (record s { port = record (s.port) { tx_buf = tx } }) frame_len in
      let p = record (s'.port) { startup = record (s'.port.startup) { step = await_response } } in
      if not sent
      then s'
      else if timed
      then record s' {
        port = record p {
          response_deadline_100us = u32 (now + test_message_timeout_100us L p);
          awaiting_response = true;
        };
      }
      else record s' { port = p }

  -- The startup step after the wait for T_SD was left.
  unfoldable pub process_startup_step : Sys W → ℕ → Bool → Sys W
  process_startup_step s now timed =
      if is_wake s.port.startup.step
      then process_wake s now timed
      else if is_send_type0 s.port.startup.step
      then process_test_message s now timed
      else s

  unfoldable pub process_startup : Sys W → ℕ → Bool → Sys W
  process_startup s now timed =
      let (ret, s') = set_mode s L.phy_mode_sdci in
      let next = record s' {
        port = record (s'.port) { startup = record (s'.port.startup) { step = wake } };
      } in
      if is_step_inactive s.port.startup.step
      then (if not (eq_ℤ ret status_ok)
          then enter State.error s'
          else process_startup_step next now timed)
      else process_startup_step s now timed

  -- The DeviceOperate write.
  unfoldable pub send_device_operate : Sys W → Sys W
  send_device_operate s =
      let mc = encode_master_command L false mc_channel_page 0x00 in
      let (frame_len, tx) =
        L.frame_encode_type0_write mc L.cmd_device_operate s.port.tx_buf frame_buf_size in
      let (emitted, sent, s') =
        send_built L (record s { port = record (s.port) { tx_buf = tx } }) frame_len in
      if not sent then s' else record s' {
        port = record (s'.port) { startup = record (s'.port.startup) { step = await_operate_ack } };
      }

  -- The validation that stands before the DeviceOperate write, once the page was read.
  unfoldable pub validate_and_operate : Sys W → Sys W
  validate_and_operate s =
      if startup_validation_required s.port.config
        && not (eq_ℤ (validate_device_info s.port) status_ok)
      then enter State.error s
      else send_device_operate s

  unfoldable pub process_preoperate : Sys W → Sys W
  process_preoperate s =
      let (event_sent, s1) = send_event L s in
      let (isdu_sent, s2) = send_isdu L s1 in
      let (ret, p) = read_device_info L s2.port in
      let s3 = record s2 { port = p } in
      if event_sent
      then s1
      else if isdu_sent
      then s2
      else if startup_validation_required s2.port.config && not s2.port.device_info.valid
      then (if eq_ℤ ret status_pending
          then s3
          else if is_neg ret
          then enter State.error s3
          else validate_and_operate s3)
      else validate_and_operate s2

  -- The cyclic frame of a TYPE_0 port.
  unfoldable pub process_type0_cycle : Sys W → Sys W
  process_type0_cycle s =
      let (od, isdu) = isdu_fill_od L s.port.isdu 1 in
      let (frame_len, tx) = L.frame_encode_type0 (get_or od 0 0) s.port.tx_buf frame_buf_size in
      let (emitted, sent, s') =
        send_built L (record s { port = record (s.port) { isdu = isdu; tx_buf = tx } }) frame_len in
      count_cycle sent s'

  -- The cyclic process-data frame.
  unfoldable pub process_pd_cycle : Sys W → Sys W
  process_pd_cycle s =
      let mc = encode_master_command L false mc_channel_process 0 in
      let (od, isdu) = isdu_fill_od L s.port.isdu s.port.od_len in
      let (tx, len) = build_multi_frame L s.port mc od in
      let (sent, s') =
        send_full L (record s { port = record (s.port) { isdu = isdu; tx_buf = tx } }) tx len in
      count_cycle sent s'

  unfoldable pub process_operate : Sys W → Sys W
  process_operate s =
      let (event_sent, s1) = send_event L s in
      let (isdu_sent, s2) = send_isdu L s1 in
      if event_sent
      then s1
      else if isdu_sent
      then s2
      else if is_type0_port s2.port
      then process_type0_cycle s2
      else process_pd_cycle s2

  unfoldable pub process_in : State → Sys W → ℕ → Bool → Sys W
  process_in State.startup s now timed = process_startup s now timed
  process_in State.preoperate s now timed = process_preoperate s
  process_in State.operate s now timed = process_operate s
  process_in _ s now timed = s

  unfoldable pub process_at : Sys W → ℕ → Bool → Sys W
  process_at s now timed =
      if is_none (phy_send s.port.phy)
      then s
      else if gate_closed s.port now timed
      then s
      else process_in s.port.state s now timed

  unfoldable pub process : Sys W → Sys W
  process s = process_at s 0 false
