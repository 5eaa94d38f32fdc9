-- ===== src/Port/Sending.antt =====
-- What a port transmits in src/master_port.c, and the services that it starts for that, keep its
-- state or fail.
use iolinki_master.Base.{
  ℕ, ◌≡◌, refl, Bool, true, false, ◌⊎◌, inl, Option, none, some, set, List, ℤ, to_nat, arith,
}
use iolinki_master.Iolinki.{Iolinki}
use iolinki_master.Types.Codes.{mc_channel_page}
use iolinki_master.Types.Limits.{wakeup_byte, frame_buf_size}
use iolinki_master.Params.Wire.{encode_master_command}
use iolinki_master.Types.State.{
  State, inactive, startup, preoperate, operate, error, Port, Sys, Isdu, wake,
}
use iolinki_master.Isdu.Service.{read_isdu}
use iolinki_master.Isdu.Transport.{isdu_take_abort, isdu_take_idle, isdu_channel_access}
use iolinki_master.Event.Transport.{event_channel_access}
use iolinki_master.Isdu.Block.{read_device_info}
use iolinki_master.Params.Page1.{apply_direct_parameter_page1}
use iolinki_master.Port.Line.{set_mode, send_full, send_prepared, send_failed, wake_up, wake_up_by}
use iolinki_master.Port.Frames.{
  build_isdu_frame, build_event_frame, send_built, send_isdu_frame, send_isdu_service, send_isdu,
  send_event_access, send_event,
}
use iolinki_master.Port.Process.{
  process_wake, process_test_message, process_startup_step, process_startup, send_device_operate,
  validate_and_operate, process_preoperate, process_type0_cycle, process_pd_cycle, count_cycle,
  process_operate, process_in, process_at,
}
use iolinki_master.Port.Establish.{arm_send_gate}

-- A transmission keeps the state, or it fails and leads to ERROR.
abbrev pub KeepsOrFails : State → State → Type 0
KeepsOrFails a b = (b ≡ a) ⊎ (b ≡ error)

pub after : {a b c : State} → b ≡ a → KeepsOrFails b c → KeepsOrFails a c
after e k = ground (arith, e, k)

module _ {W : Type 0} (L : Iolinki) where
  send_full-KeepsOrFails :
      (s : Sys W) (octets : List ℕ) (len : ℕ)
      → KeepsOrFails s.port.state (send_full L s octets len).1.port.state
  unfolding send_full send_prepared send_failed
  send_full-KeepsOrFails s octets len = ground arith

  send_built-KeepsOrFails :
      (s : Sys W) (len : ℤ) → KeepsOrFails s.port.state (send_built L s len).2.port.state
  unfolding send_built
  send_built-KeepsOrFails s len =
      ground (arith, send_full-KeepsOrFails s s.port.tx_buf (to_nat len))

  isdu_frame-state :
      (p : Port W) (mc : ℕ) (od : Option (List ℕ)) (multi : Bool)
      → (build_isdu_frame L p mc od multi).1.state ≡ p.state
  unfolding build_isdu_frame
  isdu_frame-state p mc od multi = ground arith

  event_frame-state :
      (p : Port W) (read : Bool) (addr : ℕ) → (build_event_frame L p read addr).1.state ≡ p.state
  unfolding build_event_frame
  event_frame-state p read addr = ground arith

  isdu_frame-KeepsOrFails :
      (s : Sys W) (read : Bool) (flowctrl : ℕ) (od : Option (List ℕ))
      → KeepsOrFails s.port.state (send_isdu_frame L s read flowctrl od).1.port.state
  unfolding send_isdu_frame
  isdu_frame-KeepsOrFails s read flowctrl od =
      after (isdu_frame-state _ _ _ _) (send_built-KeepsOrFails _ _)

  service-KeepsOrFails :
      (s : Sys W) (access : Option (Bool × ℕ))
      → KeepsOrFails s.port.state (send_isdu_service L s access).1.port.state
  unfolding send_isdu_service
  service-KeepsOrFails s none = inl refl
  service-KeepsOrFails s (some (read, flowctrl)) = after refl (isdu_frame-KeepsOrFails _ _ _ _)

  send_isdu-KeepsOrFails : (s : Sys W) → KeepsOrFails s.port.state (send_isdu L s).1.port.state
  unfolding send_isdu
  send_isdu-KeepsOrFails s =
      let isdu : Isdu = (isdu_take_abort s.port.isdu).1 in
      let isdu' : Isdu = (isdu_take_idle isdu).1 in
      let s' : Sys W = record s { port = record (s.port) { isdu = isdu } } in
      let s'' : Sys W = record s { port = record (s.port) { isdu = isdu' } } in
      ground (
        arith,
        isdu_frame-KeepsOrFails s' true L.flowctrl_abort none,
        isdu_frame-KeepsOrFails s'' true L.flowctrl_idle none,
        service-KeepsOrFails s'' (isdu_channel_access L isdu'),
      )

  access-KeepsOrFails :
      (s : Sys W) (access : Option (Bool × ℕ))
      → KeepsOrFails s.port.state (send_event_access L s access).1.port.state
  unfolding send_event_access
  access-KeepsOrFails s none = inl refl
  access-KeepsOrFails s (some (read, addr)) =
      after (event_frame-state s.port read addr) (send_built-KeepsOrFails _ _)

  send_event-KeepsOrFails : (s : Sys W) → KeepsOrFails s.port.state (send_event L s).1.port.state
  unfolding send_event
  send_event-KeepsOrFails s = access-KeepsOrFails s (event_channel_access s.port.event)

  -- The read service and what it starts keep the state.
  read_isdu-state :
      (p : Port W) (index subindex len : ℕ)
      → (read_isdu L p index subindex len).port.state ≡ p.state
  unfolding read_isdu
  read_isdu-state p index subindex len = ground arith

  device_info-state : (p : Port W) → (read_device_info L p).1.state ≡ p.state
  unfolding read_device_info apply_direct_parameter_page1
  device_info-state p = ground (arith, read_isdu-state p L.idx_direct_parameters_1 0 16)

  wake-KeepsOrFails :
      (s : Sys W) (now : ℕ) (timed : Bool)
      → KeepsOrFails s.port.state (process_wake L s now timed).port.state
  unfolding process_wake wake_up wake_up_by send_failed arm_send_gate
  wake-KeepsOrFails s now timed = ground (
    arith,
    send_full-KeepsOrFails
        (record s { port = record (s.port) { tx_buf = set s.port.tx_buf 0 wakeup_byte } })
        (set s.port.tx_buf 0 wakeup_byte) 1,
  )

  test_message-KeepsOrFails :
      (s : Sys W) (now : ℕ) (timed : Bool)
      → KeepsOrFails s.port.state (process_test_message L s now timed).port.state
  unfolding process_test_message
  test_message-KeepsOrFails s now timed =
      let (len, tx) =
        L.frame_encode_type0 (encode_master_command L true mc_channel_page 0x02) s.port.tx_buf
          frame_buf_size in
      ground
        (arith, send_built-KeepsOrFails (record s { port = record (s.port) { tx_buf = tx } }) len)

  startup_step-KeepsOrFails :
      (s : Sys W) (now : ℕ) (timed : Bool)
      → KeepsOrFails s.port.state (process_startup_step L s now timed).port.state
  unfolding process_startup_step
  startup_step-KeepsOrFails s now timed =
      ground (arith, wake-KeepsOrFails s now timed, test_message-KeepsOrFails s now timed)

  startup-KeepsOrFails :
      (s : Sys W) (now : ℕ) (timed : Bool)
      → KeepsOrFails s.port.state (process_startup L s now timed).port.state
  unfolding process_startup set_mode
  startup-KeepsOrFails s now timed =
      let s' : Sys W = (set_mode s L.phy_mode_sdci).1 in
      let next : Sys W = record s' {
        port = record (s'.port) { startup = record (s'.port.startup) { step = wake } };
      } in
      ground
        (arith, startup_step-KeepsOrFails s now timed, startup_step-KeepsOrFails next now timed)

  device_operate-KeepsOrFails :
      (s : Sys W) → KeepsOrFails s.port.state (send_device_operate L s).port.state
  unfolding send_device_operate
  device_operate-KeepsOrFails s =
      let (len, tx) =
        L.frame_encode_type0_write (encode_master_command L false mc_channel_page 0x00)
          L.cmd_device_operate s.port.tx_buf frame_buf_size in
      ground
        (arith, send_built-KeepsOrFails (record s { port = record (s.port) { tx_buf = tx } }) len)

  validate-KeepsOrFails :
      (s : Sys W) → KeepsOrFails s.port.state (validate_and_operate L s).port.state
  unfolding validate_and_operate
  validate-KeepsOrFails s = ground (arith, device_operate-KeepsOrFails s)

  preoperate-KeepsOrFails :
      (s : Sys W)
      → s.port.state ≡ preoperate
      → KeepsOrFails s.port.state (process_preoperate L s).port.state
  unfolding process_preoperate
  preoperate-KeepsOrFails s h =
      let s1 : Sys W = (send_event L s).1 in
      let s2 : Sys W = (send_isdu L s1).1 in
      let s3 : Sys W = record s2 { port = (read_device_info L s2.port).1 } in
      ground (
        arith,
        send_event-KeepsOrFails s,
        send_isdu-KeepsOrFails s1,
        device_info-state s2.port,
        validate-KeepsOrFails s2,
        validate-KeepsOrFails s3,
      )

  counted :
      {a : State} (sent : Bool) (s : Sys W)
      → KeepsOrFails a s.port.state
      → KeepsOrFails a (count_cycle sent s).port.state
  unfolding count_cycle
  counted true s k = k
  counted false s k = k

  operate-KeepsOrFails : (s : Sys W) → KeepsOrFails s.port.state (process_operate L s).port.state
  unfolding process_operate process_type0_cycle process_pd_cycle
  operate-KeepsOrFails s =
      let s1 : Sys W = (send_event L s).1 in
      let s2 : Sys W = (send_isdu L s1).1 in
      let type0 : KeepsOrFails s2.port.state (process_type0_cycle L s2).port.state =
        counted _ _ (send_built-KeepsOrFails _ _) in
      let pd : KeepsOrFails s2.port.state (process_pd_cycle L s2).port.state =
        counted _ _ (send_full-KeepsOrFails _ _ _) in
      ground (arith, send_event-KeepsOrFails s, send_isdu-KeepsOrFails s1, type0, pd)

  process_in-KeepsOrFails :
      (st : State) (s : Sys W) (now : ℕ) (timed : Bool)
      → s.port.state ≡ st
      → KeepsOrFails st (process_in L st s now timed).port.state
  unfolding process_in
  process_in-KeepsOrFails inactive s now timed h = inl h
  process_in-KeepsOrFails startup s now timed h = ground (arith, startup-KeepsOrFails s now timed)
  process_in-KeepsOrFails preoperate s now timed h = ground (arith, preoperate-KeepsOrFails s h)
  process_in-KeepsOrFails operate s now timed h = ground (arith, operate-KeepsOrFails s)
  process_in-KeepsOrFails error s now timed h = inl h

  -- What a port transmits keeps its state or leads to ERROR.
  pub process_at-KeepsOrFails :
      (s : Sys W) (now : ℕ) (timed : Bool)
      → KeepsOrFails s.port.state (process_at L s now timed).port.state
  unfolding process_at
  process_at-KeepsOrFails s now timed =
      ground (arith, process_in-KeepsOrFails s.port.state s now timed refl)
