-- ===== src/Port/Receive.antt =====
-- src/master_port.c: the reception of replies.
use iolinki_master.Base.{
  ℕ, zero, suc, ◌+◌, Bool, true, false, not, ◌&&◌, ◌||◌, if◌then◌else◌, ◌==◌, ltb, leb, bit_and, u8,
  u32, Option, none, some, is_none, List, [], ◌∷◌, set, get_or, take, ℤ, pos, eq_ℤ, is_neg, is_pos,
}
use iolinki_master.Iolinki.{Iolinki, OperateResponse}
use iolinki_master.Types.Codes.{status_ok, err_invalid_arg, err_frame, err_checksum}
use iolinki_master.Types.Limits.{rx_retry_limit, frame_buf_size}
use iolinki_master.Types.State.{
  State, is_startup, is_preoperate, is_operate, is_await_response, is_await_operate_ack, Port, Sys,
}
use iolinki_master.Isdu.Transport.{isdu_on_od}
use iolinki_master.Isdu.Service.{copy_at}
use iolinki_master.Event.Transport.{event_channel_access, event_on_od}
use iolinki_master.Port.Line.{enter, phy_recv_byte}
use iolinki_master.Port.Establish.{restart_establish}
use iolinki_master.Port.Process.{is_type0_port}

module _ (L : Iolinki) where
  unfoldable pub type0_reply_ok : List ℕ → Bool
  type0_reply_ok frame =
      L.checksum6 (get_or frame 0 0 ∷ u8 (bit_and (get_or frame 1 0) 0xc0) ∷ []) 2
      == u8 (bit_and (get_or frame 1 0) 0x3f)

  -- The CKS octet alone, the reply to a TYPE_0 write.
  unfoldable pub ack_ok : List ℕ → Bool
  ack_ok frame =
      L.checksum6 (u8 (bit_and (get_or frame 0 0) 0xc0) ∷ []) 1
      == u8 (bit_and (get_or frame 0 0) 0x3f)

module _ {W : Type 0} (L : Iolinki) where
  unfoldable pub route_event : Port W → Bool → List ℕ → ℕ → Port W
  route_event p read od od_len =
      if read && p.event.od_expected
      then record p { event = event_on_od (record (p.event) { od_expected = false }) od od_len }
      else p

  unfoldable pub route_access : Port W → Option (Bool × ℕ) → List ℕ → ℕ → Port W
  route_access p none od od_len = record p { isdu = isdu_on_od L p.isdu od od_len }
  route_access p (some (read, addr)) od od_len = route_event p read od od_len

  unfoldable pub route_od : Port W → List ℕ → ℕ → Port W
  route_od p od od_len = route_access p (event_channel_access p.event) od od_len

  -- `checksum_errors++`
  unfoldable pub count_checksum_error : Sys W → Sys W
  count_checksum_error s = record s {
    port = record (s.port) {
      diagnostics = record (s.port.diagnostics) {
        checksum_errors = u32 (s.port.diagnostics.checksum_errors + 1);
      };
    };
  }

  -- `rx_retry_count++`
  unfoldable pub count_retry : Sys W → Sys W
  count_retry s = record s {
    port = record (s.port) {
      diagnostics = record (s.port.diagnostics) {
        rx_retry_count = u8 (s.port.diagnostics.rx_retry_count + 1);
      };
    };
  }

  -- A reply with a bad checksum outside STARTUP: a retry, or COMLOST when there is none left.
  unfoldable pub checksum_failed : Sys W → ℤ × Sys W
  checksum_failed s =
      let counted = count_checksum_error s in
      if ltb s.port.diagnostics.rx_retry_count rx_retry_limit
      then (err_checksum, count_retry counted)
      else (err_checksum, (restart_establish L counted 0 false).1)

  -- `rx_retry_count = 0` and `awaiting_response = false`
  unfoldable pub reply_received : Port W → Port W
  reply_received p = record p {
    diagnostics = record (p.diagnostics) { rx_retry_count = 0 };
    awaiting_response = false;
  }

  -- The answer to a test message.
  unfoldable pub on_rx_startup : Sys W → List ℕ → ℕ → ℤ × Sys W
  on_rx_startup s frame len =
      let p = reply_received s.port in
      if not (is_await_response s.port.startup.step)
      then (err_frame, s)
      else if not (len == L.m_seq_type0_len)
      then (err_frame, s)
      else if not (type0_reply_ok L frame)
      then (
        err_checksum,
        record s {
          port = record (s.port) {
            diagnostics = record (s.port.diagnostics) {
              checksum_errors = u32 (s.port.diagnostics.checksum_errors + 1);
            };
          };
        },
      )
      else (
        status_ok,
        record s {
          port = record p {
            startup = record (p.startup) { wake_attempts = 0 };
            device_info = record (p.device_info) { min_cycle_time = get_or frame 0 0 };
            state = State.preoperate;
          };
        },
      )

  -- The answer to the DeviceOperate write.
  unfoldable pub on_rx_ack : Sys W → List ℕ → ℕ → ℤ × Sys W
  on_rx_ack s frame len =
      let p = reply_received s.port in
      if not (len == 1)
      then (err_frame, s)
      else if not (ack_ok L frame)
      then checksum_failed s
      else (
        status_ok,
        record s {
          port = record p {
            diagnostics = record (p.diagnostics) {
              event_pending = not (bit_and (get_or frame 0 0) 0x80 == 0);
            };
            state = State.operate;
          };
        },
      )

  -- A TYPE_0 reply of one OD octet.
  unfoldable pub on_rx_type0 : Sys W → List ℕ → ℕ → ℤ × Sys W
  on_rx_type0 s frame len =
      if not (len == L.m_seq_type0_len)
      then (err_frame, s)
      else if not (type0_reply_ok L frame)
      then checksum_failed s
      else (status_ok, record s { port = route_od (reply_received s.port) frame 1 })

  unfoldable pub notify : Option (W → W) → W → W
  notify none w = w
  notify (some handler) w = handler w

  -- What a decoded reply with a good checksum changes.
  unfoldable pub accept_response : Sys W → OperateResponse → Sys W
  accept_response s resp =
      let p = reply_received s.port in
      let rising = resp.event_pending && not s.port.diagnostics.event_pending in
      let p' = record p {
        diagnostics = record (p.diagnostics) {
          od_status = resp.status;
          event_pending = resp.event_pending;
        };
      } in
      let with_pd =
        if resp.pd_valid
        then record p' {
          pd_in = copy_at p'.pd_in 0 (take resp.pd_len resp.pd);
          pd_in_len = resp.pd_len;
          pd_valid = true;
        }
        else p' in
      record {
        port = route_od with_pd resp.od resp.od_len;
        world = if rising then notify s.port.config.event_pending_handler s.world else s.world;
      }

  -- The decoding of a reply of [OD][PD-in] CKS.
  unfoldable pub decode_reply : Sys W → List ℕ → ℕ → ℤ × OperateResponse
  decode_reply s frame len =
      L.frame_decode_operate_response frame len s.port.config.pd_in_len
        (if s.port.rx_od_expected then s.port.od_len else 0)

  -- A reply of [OD][PD-in] CKS.
  unfoldable pub on_rx_pd : Sys W → List ℕ → ℕ → ℤ × Sys W
  on_rx_pd s frame len =
      let (ret, resp) = decode_reply s frame len in
      if not (eq_ℤ ret (pos 0))
      then (err_frame, s)
      else if not resp.checksum_ok
      then checksum_failed s
      else (status_ok, accept_response s resp)

  unfoldable pub on_rx : Sys W → List ℕ → ℕ → ℤ × Sys W
  on_rx s frame len =
      let p = s.port in
      if len == 0
      then (err_invalid_arg, s)
      else if is_startup p.state
      then on_rx_startup s frame len
      else if is_preoperate p.state && is_await_operate_ack p.startup.step
      then on_rx_ack s frame len
      else if is_preoperate p.state
      then on_rx_type0 s frame len
      else if is_operate p.state && is_type0_port p
      then on_rx_type0 s frame len
      else on_rx_pd s frame len

  -- The length of the reply that `poll_rx` waits for; `none` where it does not receive.
  unfoldable pub expected_len : Port W → Option ℕ
  expected_len p =
      let od_octets = if is_type0_port p || p.rx_od_expected then p.od_len else 0 in
      if is_startup p.state && is_await_response p.startup.step
      then some L.m_seq_type0_len
      else if is_preoperate p.state
      then some (if is_await_operate_ack p.startup.step then 1 else L.m_seq_type0_len)
      else if is_operate p.state
      then some (u8 (p.config.pd_in_len + od_octets + 1))
      else none

  -- `rx.len = 0`
  abbrev drop_rx : Sys W → Sys W
  drop_rx s = record s { port = record (s.port) { rx = record (s.port.rx) { len = 0 } } }

  -- One received byte: `none` if the loop goes on, with the number of frames so far.
  unfoldable pub receive_byte : Sys W → ℕ → ℕ → ℕ → Option ℤ × ℕ × Sys W
  receive_byte s expected frames byte =
      let rx = s.port.rx in
      let stored = record rx { buf = set rx.buf rx.len byte; len = u8 (rx.len + 1) } in
      let s' = record s { port = record (s.port) { rx = stored } } in
      let (ret, s'') = on_rx s' stored.buf stored.len in
      if leb frame_buf_size rx.len
      then (some err_checksum, frames, drop_rx (enter State.error s))
      else if leb expected stored.len
      then (if not (eq_ℤ ret (pos 0))
          then (some ret, frames, drop_rx s'')
          else (none, frames + 1, drop_rx s''))
      else (none, frames, s')

  -- The loop of `poll_rx`, on fuel; an empty option is a loop that ran out of it.
  unfoldable pub poll_loop : ℕ → (W → ℤ × ℕ × W) → Sys W → ℕ → ℕ → Option (ℤ × Sys W)
  poll_loop zero recv s expected frames = none
  poll_loop (suc fuel) recv s expected frames =
      let (ret, byte, w) = recv s.world in
      let s' = record s { world = w } in
      let (stop, frames', s'') = receive_byte s' expected frames byte in
      elim (is_pos ret) [
        | false ↦
            some
              (if is_neg ret then (err_frame, drop_rx (enter State.error s')) else (pos frames, s'))
        | true ↦ elim stop [
          | some result ↦ some (result, s'')
          | none ↦ poll_loop fuel recv s'' expected frames'
        ]
      ]

  unfoldable pub poll_with : ℕ → Option (W → ℤ × ℕ × W) → Option ℕ → Sys W → Option (ℤ × Sys W)
  poll_with fuel none expected s = some (status_ok, s)
  poll_with fuel (some recv) none s = some (status_ok, s)
  poll_with fuel (some recv) (some expected) s = poll_loop fuel recv s expected 0

  unfoldable pub poll_rx : ℕ → Sys W → Option (ℤ × Sys W)
  poll_rx fuel s =
      if is_none s.port.phy
      then some (err_invalid_arg, s)
      else poll_with fuel (phy_recv_byte s.port.phy) (expected_len s.port) s
