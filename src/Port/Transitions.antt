-- ===== src/Port/Transitions.antt =====
-- The state diagram of a port: which states the functions of src/master_port.c lead to, and when.
use iolinki_master.Base.{
  ℕ, ◌+◌, ◌≡◌, Bool, true, false, ◌⊎◌, List, u8, u32, arith, pos, ℤ, eq_ℤ, is_neg, ltb,
}
use iolinki_master.Iolinki.{Iolinki, OperateResponse}
use iolinki_master.Event.Transport.{event_channel_access}
use iolinki_master.Types.Codes.{status_ok}
use iolinki_master.Types.Limits.{rx_retry_limit}
use iolinki_master.Types.State.{
  State, startup, preoperate, operate, error, is_await_response, is_await_operate_ack, Port, Sys,
}
use iolinki_master.Port.Line.{set_mode, set_baudrate, flush_rx}
use iolinki_master.Port.Establish.{
  reset_rate_scan, restart_establish, next_rate, scan_failed, sequence_failed,
  establish_attempt_failed, operate_timeout, on_timeout_at, arm_send_gate,
}
use iolinki_master.Port.Receive.{
  checksum_failed, on_rx_startup, on_rx_ack, on_rx_type0, on_rx_pd, accept_response, on_rx,
  count_checksum_error, count_retry, decode_reply, route_od, route_access, route_event,
  reply_received, type0_reply_ok, ack_ok,
}

-- The states in which a port receives.
abbrev pub IsReceiving : State → Type 0
IsReceiving st = (st ≡ startup) ⊎ (st ≡ preoperate) ⊎ (st ≡ operate)

-- No retry is left.
abbrev pub IsSpent : {W : Type 0} → Port W → Type 0
IsSpent p = ltb p.diagnostics.rx_retry_count rx_retry_limit ≡ false

module _ {W : Type 0} (Tested Confirmed : Type 0) where
  -- The test message that is waited for was answered.
  abbrev pub IsAnswered : Port W → Type 0
  IsAnswered p = (p.state ≡ startup) × (is_await_response p.startup.step ≡ true) × Tested

  -- The DeviceOperate write that is waited for was acknowledged.
  abbrev pub IsAcknowledged : Port W → Type 0
  IsAcknowledged p =
      (p.state ≡ preoperate) × (is_await_operate_ack p.startup.step ≡ true) × Confirmed

  -- A reply is taken without an error: the state is kept, or it is one of the two that are waited
  -- for. A reply with an error keeps the state, fails, or finds no retry left.
  abbrev pub IsReply : Port W → ℤ × Sys W → Type 0
  IsReply p r =
      ((r.0 ≡ pos 0)
        × (r.1.port.startup.step ≡ p.startup.step)
        × (r.1.port.diagnostics.rx_retry_count ≡ 0)
        × (((r.1.port.state ≡ p.state) × ((p.state ≡ preoperate) ⊎ (p.state ≡ operate)))
            ⊎ (IsAnswered p × (r.1.port.state ≡ preoperate))
            ⊎ (IsAcknowledged p × (r.1.port.state ≡ operate))))
      ⊎ ((is_neg r.0 ≡ true)
          × ((r.1.port.state ≡ p.state)
              ⊎ (r.1.port.state ≡ error)
              ⊎ (((p.state ≡ preoperate) ⊎ (p.state ≡ operate))
                  × IsSpent p
                  × (r.1.port.state ≡ startup))))

module _ {W : Type 0} (L : Iolinki) where
  reset_rate_scan-state : (s : Sys W) → (reset_rate_scan L s).1.port.state ≡ s.port.state
  unfolding reset_rate_scan set_baudrate
  reset_rate_scan-state s = ground arith

  -- A restart of the communication ends in STARTUP or, if the PHY refuses, in ERROR.
  restart_establish-state :
      (s : Sys W) (now : ℕ) (timed : Bool)
      → ((restart_establish L s now timed).1.port.state ≡ startup)
        ⊎ (((restart_establish L s now timed).1.port.state ≡ error)
            × (eq_ℤ (restart_establish L s now timed).0 status_ok ≡ false))
  unfolding restart_establish reset_rate_scan set_baudrate arm_send_gate
  restart_establish-state s now timed = ground arith

  -- The state is kept or, if the PHY refuses, ERROR.
  abbrev IsKept : State → ℤ × Sys W → Type 0
  IsKept st r = (r.1.port.state ≡ st) ⊎ ((r.1.port.state ≡ error) × (eq_ℤ r.0 status_ok ≡ false))

  next_rate-IsKept :
      (s : Sys W) (now : ℕ) (timed : Bool) → IsKept s.port.state (next_rate L s now timed)
  unfolding next_rate set_baudrate arm_send_gate
  next_rate-IsKept s now timed = ground arith

  sequence_failed-IsKept :
      (s : Sys W) (now : ℕ) (timed : Bool) → IsKept s.port.state (sequence_failed L s now timed)
  unfolding sequence_failed set_mode arm_send_gate
  sequence_failed-IsKept s now timed = ground arith

  scan_failed-IsKept :
      (s : Sys W) (now : ℕ) (timed : Bool) → IsKept s.port.state (scan_failed L s now timed)
  unfolding scan_failed arm_send_gate
  scan_failed-IsKept s now timed =
      let s' : Sys W = record s {
        port = record (s.port) {
          startup = record (s.port.startup) {
            wake_attempts = u8 (s.port.startup.wake_attempts + 1);
          };
        };
      } in
      ground
        (arith, reset_rate_scan-state s', sequence_failed-IsKept (reset_rate_scan L s').1 now timed)

  attempt-IsKept :
      (s : Sys W) (now : ℕ) (timed : Bool)
      → IsKept s.port.state (establish_attempt_failed L s now timed)
  unfolding establish_attempt_failed
  attempt-IsKept s now timed =
      let s' : Sys W = record s { port = record (s.port) { awaiting_response = false } } in
      ground (arith, next_rate-IsKept s' now timed, scan_failed-IsKept s' now timed)

  -- A timeout keeps the state, fails with a result that is not OK, or finds no retry left.
  pub timeout-state :
      (s : Sys W) (now : ℕ) (timed : Bool)
      → ((on_timeout_at L s now timed).1.port.state ≡ s.port.state)
        ⊎ (((on_timeout_at L s now timed).1.port.state ≡ error)
            × (eq_ℤ (on_timeout_at L s now timed).0 status_ok ≡ false))
        ⊎ ((s.port.state ≡ operate)
            × IsSpent s.port
            × ((on_timeout_at L s now timed).1.port.state ≡ startup))
  unfolding on_timeout_at flush_rx operate_timeout
  timeout-state s now timed = ground (
    arith,
    attempt-IsKept (flush_rx s).1 now timed,
    restart_establish-state
        (record ((flush_rx s).1) {
          port = record ((flush_rx s).1.port) {
            diagnostics = record ((flush_rx s).1.port.diagnostics) {
              response_timeouts = u32 ((flush_rx s).1.port.diagnostics.response_timeouts + 1);
            };
          };
        })
        now timed,
  )

  checksum-state :
      (s : Sys W)
      → (is_neg (checksum_failed L s).0 ≡ true)
        × (((checksum_failed L s).1.port.state ≡ s.port.state)
            ⊎ ((checksum_failed L s).1.port.state ≡ error)
            ⊎ (((checksum_failed L s).1.port.state ≡ startup) × IsSpent s.port))
  unfolding checksum_failed count_checksum_error count_retry
  checksum-state s = ground (arith, restart_establish-state (count_checksum_error L s) 0 false)

  -- What routing leaves alone.
  record IsRouted (p p' : Port W) : Type 0 where
    state : p'.state ≡ p.state
    startup : p'.startup ≡ p.startup
    retries : p'.diagnostics.rx_retry_count ≡ p.diagnostics.rx_retry_count

  route_od-IsRouted : (p : Port W) (od : List ℕ) (od_len : ℕ) → IsRouted p (route_od L p od od_len)
  unfolding route_od route_access route_event event_channel_access
  route_od-IsRouted p od od_len = ground arith

  -- A good reply.
  record IsTaken (p p' : Port W) : Type 0 where
    state : p'.state ≡ p.state
    startup : p'.startup ≡ p.startup
    retries : p'.diagnostics.rx_retry_count ≡ 0

  accept_response-IsTaken :
      (s : Sys W) (resp : OperateResponse) → IsTaken s.port (accept_response L s resp).port
  unfolding accept_response reply_received
  accept_response-IsTaken s resp = record {
    state = rw ((route_od-IsRouted _ resp.od resp.od_len).state) (ground arith);
    startup = rw ((route_od-IsRouted _ resp.od resp.od_len).startup) (ground arith);
    retries = rw ((route_od-IsRouted _ resp.od resp.od_len).retries) (ground arith);
  }

  type0-IsTaken :
      (s : Sys W) (frame : List ℕ) → IsTaken s.port (route_od L (reply_received L s.port) frame 1)
  unfolding reply_received
  type0-IsTaken s frame =
      let r : IsRouted (reply_received L s.port) (route_od L (reply_received L s.port) frame 1) =
        route_od-IsRouted (reply_received L s.port) frame 1 in
      record { state = r.state; startup = r.startup; retries = r.retries }

  pub on_rx-IsReply :
      (s : Sys W) (frame : List ℕ) (len : ℕ)
      → IsReceiving s.port.state
      → IsReply (type0_reply_ok L frame ≡ true) (ack_ok L frame ≡ true) s.port (on_rx L s frame len)
  unfolding on_rx on_rx_startup on_rx_ack on_rx_type0 on_rx_pd reply_received
  on_rx-IsReply s frame len h = ground (
    arith,
    checksum-state s,
    type0-IsTaken s frame,
    accept_response-IsTaken s (decode_reply L s frame len).1,
  )

module _ {W : Type 0} {A B C D : Type 0} (f : A → C) (g : B → D) where
  pub map-IsReply : (p : Port W) (r : ℤ × Sys W) → IsReply A B p r → IsReply C D p r
  map-IsReply p r h = ground (arith, h, f, g)
