-- ===== src/Port/Poll.antt =====
-- The receive loop of src/master_port.c: it ends, and its buffer holds what it stores.
use iolinki_master.Base.{
  ℕ, zero, suc, ◌+◌, ◌≤◌, ◌<◌, ◌≡◌, refl, ap, ◌∙◌, Bool, true, false, Bool-cases, Option-cases, ◌⊎◌,
  inl, inr, Option, none, some, is_none, List, length, length-set, set, take, ℤ, pos, is_pos,
  is_neg, u8, arith,
}
use iolinki_master.Iolinki.{Iolinki, OperateResponse}
use iolinki_master.Event.Transport.{event_channel_access}
use iolinki_master.Isdu.Service.{copy_at}
use iolinki_master.Types.Limits.{frame_buf_size}
use iolinki_master.Types.Config.{Config}
use iolinki_master.Types.State.{Rx, Port, Sys}
use iolinki_master.Port.Line.{phy_recv_byte, set_baudrate}
use iolinki_master.Port.Establish.{restart_establish, reset_rate_scan, arm_send_gate}
use iolinki_master.Port.Receive.{
  checksum_failed, on_rx_startup, on_rx_ack, on_rx_type0, on_rx_pd, accept_response, on_rx,
  count_checksum_error, count_retry, decode_reply, route_od, route_access, route_event,
  reply_received, receive_byte, poll_loop, poll_with, poll_rx, expected_len, notify,
}

-- The receive buffer has its 64 octets, and at most that many are in it.
pub record IsBuffered {W : Type 0} (p : Port W) : Type 0 where
  pub size : length p.rx.buf ≡ frame_buf_size
  pub len : p.rx.len ≤ frame_buf_size

-- The PHY hands out what is pending, and the handler of events does not add to it.
pub record Drains {W : Type 0} (L : Iolinki) (recv : W → ℤ × ℕ × W) (handler : Option (W → W))
    (pending : W → ℕ) : Type 0 where
  pub taken : (w : W) → is_pos (recv w).0 ≡ true → pending (recv w).2 < pending w
  pub added : (w : W) → pending (notify L handler w) ≤ pending w

module _ {W : Type 0} (L : Iolinki) where
  restart-rx :
      (s : Sys W) (now : ℕ) (timed : Bool) → (restart_establish L s now timed).1.port.rx ≡ s.port.rx
  unfolding restart_establish reset_rate_scan set_baudrate arm_send_gate
  restart-rx s now timed = ground arith

  checksum-rx : (s : Sys W) → (checksum_failed L s).1.port.rx ≡ s.port.rx
  unfolding checksum_failed count_checksum_error count_retry
  checksum-rx s = ground (arith, restart-rx (count_checksum_error L s) 0 false)

  -- Routing the on-request data touches the two services only.
  route-rest :
      (p : Port W) (od : List ℕ) (od_len : ℕ)
      → ((route_od L p od od_len).rx ≡ p.rx) × ((route_od L p od od_len).config ≡ p.config)
  unfolding route_od route_access route_event event_channel_access
  route-rest p od od_len = ground arith

  accept-rest :
      (s : Sys W) (resp : OperateResponse)
      → ((accept_response L s resp).port.rx ≡ s.port.rx)
        × ((accept_response L s resp).port.config ≡ s.port.config)
        × (((accept_response L s resp).world ≡ s.world)
            ⊎ ((accept_response L s resp).world
                ≡ notify L s.port.config.event_pending_handler s.world))
  unfolding accept_response reply_received
  accept-rest s resp =
      let p : Port W = reply_received L s.port in
      let p' : Port W = record p {
        diagnostics = record (p.diagnostics) {
          od_status = resp.status;
          event_pending = resp.event_pending;
        };
      } in
      let p'' : Port W = record p' {
        pd_in = copy_at p'.pd_in 0 (take resp.pd_len resp.pd);
        pd_in_len = resp.pd_len;
        pd_valid = true;
      } in
      ground (arith, route-rest p' resp.od resp.od_len, route-rest p'' resp.od resp.od_len)

  -- A reply leaves the receive buffer alone.
  on_rx-rx : (s : Sys W) (frame : List ℕ) (len : ℕ) → (on_rx L s frame len).1.port.rx ≡ s.port.rx
  unfolding on_rx on_rx_startup on_rx_ack on_rx_type0 on_rx_pd reply_received
  on_rx-rx s frame len = ground (
    arith,
    checksum-rx s,
    route-rest (reply_received L s.port) frame 1,
    accept-rest s (decode_reply L s frame len).1,
  )

  -- A reply that is taken keeps the configuration, and calls at most the event handler.
  on_rx-rest :
      (s : Sys W) (frame : List ℕ) (len : ℕ)
      → (on_rx L s frame len).0 ≡ pos 0
      → ((on_rx L s frame len).1.port.config ≡ s.port.config)
        × (((on_rx L s frame len).1.world ≡ s.world)
            ⊎ ((on_rx L s frame len).1.world
                ≡ notify L s.port.config.event_pending_handler s.world))
  unfolding on_rx on_rx_startup on_rx_ack on_rx_type0 on_rx_pd reply_received checksum_failed
  on_rx-rest s frame len h = ground (
    arith,
    route-rest (reply_received L s.port) frame 1,
    accept-rest s (decode_reply L s frame len).1,
  )

  received-IsBuffered :
      (s : Sys W) (expected frames byte : ℕ)
      → IsBuffered s.port
      → IsBuffered (receive_byte L s expected frames byte).2.port
  unfolding receive_byte
  received-IsBuffered s expected frames byte b =
      let stored : Rx = record (s.port.rx) {
        buf = set s.port.rx.buf s.port.rx.len byte;
        len = u8 (s.port.rx.len + 1);
      } in
      let s' : Sys W = record s { port = record (s.port) { rx = stored } } in
      ground (
        arith,
        b.size,
        b.len,
        length-set s.port.rx.buf s.port.rx.len byte,
        on_rx-rx s' stored.buf stored.len,
        ap (λ (r : Rx). length r.buf) (on_rx-rx s' stored.buf stored.len),
      )

  received-rest :
      (s : Sys W) (expected frames byte : ℕ)
      → (receive_byte L s expected frames byte).0 ≡ none
      → ((receive_byte L s expected frames byte).2.port.config ≡ s.port.config)
        × (((receive_byte L s expected frames byte).2.world ≡ s.world)
            ⊎ ((receive_byte L s expected frames byte).2.world
                ≡ notify L s.port.config.event_pending_handler s.world))
  unfolding receive_byte
  received-rest s expected frames byte h =
      let stored : Rx = record (s.port.rx) {
        buf = set s.port.rx.buf s.port.rx.len byte;
        len = u8 (s.port.rx.len + 1);
      } in
      let s' : Sys W = record s { port = record (s.port) { rx = stored } } in
      ground (arith, on_rx-rest s' stored.buf stored.len)

  -- The loop returned, with the receive buffer in order.
  pub Returns : Option (ℤ × Sys W) → Type 0
  Returns o = (ret : ℤ) × (t : Sys W) × (o ≡ some (ret, t)) × IsBuffered t.port

  returned : (ret : ℤ) (t : Sys W) → IsBuffered t.port → Returns (some (ret, t))
  unfolding Returns
  returned ret t b = (ret, t, refl, b)

  module _ (recv : W → ℤ × ℕ × W) (handler : Option (W → W)) (pending : W → ℕ)
      (drains : Drains L recv handler pending) where
    poll_loop-Returns :
        (fuel : ℕ) (s : Sys W) (expected frames : ℕ)
        → s.port.config.event_pending_handler ≡ handler
        → pending s.world < fuel
        → IsBuffered s.port
        → Returns (poll_loop L fuel recv s expected frames)
    unfolding poll_loop
    poll_loop-Returns zero s expected frames h p b = absurd (omega arith)
    poll_loop-Returns (suc fuel) s expected frames h p b =
        let (ret, byte, w) = recv s.world in
        let s' : Sys W = record s { world = w } in
        let (stop, frames', s'') = receive_byte L s' expected frames byte in
        let kept = received-IsBuffered s' expected frames byte b in
        elim (Bool-cases (is_pos ret)) [
          | inr empty ↦ elim (Bool-cases (is_neg ret)) [
            | inl broken ↦
                rw (poll_loop, empty, broken)
                  (returned _ _ (record { size = b.size; len = omega arith }))
            | inr quiet ↦ rw (poll_loop, empty, quiet) (returned _ _ b)
          ]
          | inl some_octet ↦ elim (Option-cases stop) [
            | inr (result, stops) ↦ rw (poll_loop, some_octet, stops) (returned result s'' kept)
            | inl more ↦
                let (same, calls) = received-rest s' expected frames byte more in
                rw (poll_loop, some_octet, more)
                  (poll_loop-Returns fuel s'' expected frames'
                    (ap (λ (c : Config W). c.event_pending_handler) same ∙ h)
                    (ground (arith, p, h, calls, drains.taken s.world some_octet, drains.added w))
                    kept)
          ]
        ]

  -- The reception returns, and leaves at most 64 octets in its buffer of 64: for a buffer that is
  -- in order, a PHY of which each octet handed out leaves less pending, an event handler that adds
  -- nothing, and fuel for more octets than are pending.
  pub poll_rx_returns :
      (recv : W → ℤ × ℕ × W) (pending : W → ℕ) (fuel : ℕ) (s : Sys W)
      → phy_recv_byte s.port.phy ≡ some recv
      → Drains L recv s.port.config.event_pending_handler pending
      → pending s.world < fuel
      → IsBuffered s.port
      → (ret : ℤ) × (t : Sys W) × (poll_rx L fuel s ≡ some (ret, t)) × IsBuffered t.port
  unfolding poll_rx poll_with Returns
  poll_rx_returns recv pending fuel s r d p b = elim (Bool-cases (is_none s.port.phy)) [
    | inl absent ↦ rw (poll_rx, absent) (returned _ _ b)
    | inr present ↦ elim (Option-cases (expected_len L s.port)) [
      | inl idle ↦ rw (poll_rx, present, r, idle, poll_with) (returned _ _ b)
      | inr (expected, e) ↦
          rw (poll_rx, present, r, e, poll_with)
            (poll_loop-Returns recv s.port.config.event_pending_handler pending d fuel s expected 0
              refl p b)
    ]
  ]
