-- ===== src/Port/Answers.antt =====
-- The answers that src/master_port.c receives while it establishes communication.
use iolinki_master.Base.{
  ℕ, suc, ◌+◌, ◌≤◌, ◌<◌, ◌≡◌, refl, ap, ◌∙◌, true, false, not, ◌==◌, leb, bit_and, u8, Option, none,
  some, List, get_or, set, ℤ, pos, arith, is_none, is_pos, is_neg,
}
use iolinki_master.Iolinki.{Iolinki}
use iolinki_master.Types.Codes.{status_ok}
use iolinki_master.Types.Limits.{frame_buf_size}
use iolinki_master.Types.Config.{Phy}
use iolinki_master.Types.State.{State, await_response, await_operate_ack, Sys}
use iolinki_master.Port.Line.{phy_recv_byte}
use iolinki_master.Port.Receive.{
  poll_rx, poll_with, poll_loop, receive_byte, on_rx, on_rx_startup, on_rx_ack, type0_reply_ok,
  ack_ok, expected_len, reply_received,
}

-- The receive buffer holds these octets.
abbrev pub with_rx : {W : Type 0} → Sys W → List ℕ → ℕ → Sys W
with_rx s buf len = record s { port = record (s.port) { rx = record { buf = buf; len = len } } }

module _ {W : Type 0} (L : Iolinki) where
  -- The state after the answer to the test message, with its first octet.
  abbrev pub answered : Sys W → ℕ → Sys W
  answered s octet =
      let p = s.port in
      record s {
        port = record p {
          diagnostics = record (p.diagnostics) { rx_retry_count = 0 };
          awaiting_response = false;
          startup = record (p.startup) { wake_attempts = 0 };
          device_info = record (p.device_info) { min_cycle_time = octet };
          state = State.preoperate;
        };
      }

  -- The state after the answer to the DeviceOperate write.
  abbrev pub acknowledged : Sys W → ℕ → Sys W
  acknowledged s check =
      let p = s.port in
      record s {
        port = record p {
          diagnostics = record (p.diagnostics) {
            rx_retry_count = 0;
            event_pending = not (bit_and check 0x80 == 0);
          };
          awaiting_response = false;
          state = State.operate;
        };
      }

  pub on_rx-answered :
      (s : Sys W) (frame : List ℕ)
      → s.port.state ≡ State.startup
      → s.port.startup.step ≡ await_response
      → L.m_seq_type0_len ≡ 2
      → type0_reply_ok L frame ≡ true
      → on_rx L s frame 2 ≡ (status_ok, answered s (get_or frame 0 0))
  unfolding on_rx on_rx_startup reply_received
  on_rx-answered s frame st at two ok = rw (st, at, ok, two) refl

  pub on_rx-acknowledged :
      (s : Sys W) (frame : List ℕ)
      → s.port.state ≡ State.preoperate
      → s.port.startup.step ≡ await_operate_ack
      → ack_ok L frame ≡ true
      → on_rx L s frame 1 ≡ (status_ok, acknowledged s (get_or frame 0 0))
  unfolding on_rx on_rx_ack reply_received
  on_rx-acknowledged s frame st at ok = rw (st, at, ok) refl

  module _ (recv : W → ℤ × ℕ × W) where
    -- The rounds of the loop.
    pub poll_loop_took :
        (fuel : ℕ) (s t : Sys W) (expected frames frames' : ℕ)
        → (recv s.world).0 ≡ pos 1
        → receive_byte L (record s { world = (recv s.world).2 }) expected frames (recv s.world).1
          ≡ (none, frames', t)
        → poll_loop L (suc fuel) recv s expected frames ≡ poll_loop L fuel recv t expected frames'
    unfolding poll_loop
    poll_loop_took fuel s t expected frames frames' one e =
        let some_octet : is_pos (recv s.world).0 ≡ true = ap is_pos one in
        let more = ap (λ (r : Option ℤ × ℕ × Sys W). r.0) e in
        rw (poll_loop, some_octet, more)
          (ap (λ (r : Option ℤ × ℕ × Sys W). poll_loop L fuel recv r.2 expected r.1) e)

    pub poll_loop_empty :
        (fuel : ℕ) (s : Sys W) (expected frames : ℕ)
        → (recv s.world).0 ≡ pos 0
        → poll_loop L (suc fuel) recv s expected frames
          ≡ some (pos frames, record s { world = (recv s.world).2 })
    unfolding poll_loop
    poll_loop_empty fuel s expected frames none_left =
        let empty : is_pos (recv s.world).0 ≡ false = ap is_pos none_left in
        let quiet : is_neg (recv s.world).0 ≡ false = ap is_neg none_left in
        rw (poll_loop, empty, quiet) refl

    pub poll_rx_lem :
        (fuel : ℕ) (s : Sys W) (phy : Phy W) (expected : ℕ)
        → s.port.phy ≡ some phy
        → phy.recv_byte ≡ some recv
        → expected_len L s.port ≡ some expected
        → poll_rx L fuel s ≡ poll_loop L fuel recv s expected 0
    unfolding poll_rx poll_with
    poll_rx_lem fuel s phy expected p r e =
        let q : phy_recv_byte s.port.phy ≡ some recv = ap phy_recv_byte p ∙ r in
        let present : is_none s.port.phy ≡ false = ap is_none p in rw (present, q, e) refl

  pub receive_byte_more :
      (s : Sys W) (expected frames byte len : ℕ)
      → s.port.rx.len ≡ len
      → len < frame_buf_size
      → len + 1 < expected
      → receive_byte L s expected frames byte
        ≡ (none, frames, with_rx s (set s.port.rx.buf len byte) (len + 1))
  unfolding receive_byte
  receive_byte_more s expected frames byte len e room short =
      let space : leb frame_buf_size len ≡ false = ground (arith, room) in
      let fit : u8 (len + 1) ≡ len + 1 = omega (arith, room) in
      let more : leb expected (len + 1) ≡ false = ground (arith, short) in
      rw (e, space, fit, more) refl

  pub receive_byte_frame :
      (s t : Sys W) (expected frames byte len : ℕ)
      → s.port.rx.len ≡ len
      → len < frame_buf_size
      → expected ≤ len + 1
      → on_rx L
          (with_rx s (set s.port.rx.buf len byte) (len + 1))
          (set s.port.rx.buf len byte)
          (len + 1)
        ≡ (status_ok, t)
      → receive_byte L s expected frames byte ≡ (none, frames + 1, with_rx t t.port.rx.buf 0)
  unfolding receive_byte
  receive_byte_frame s t expected frames byte len e room enough ok =
      let space : leb frame_buf_size len ≡ false = ground (arith, room) in
      let fit : u8 (len + 1) ≡ len + 1 = omega (arith, room) in
      let all : leb expected (len + 1) ≡ true = ground (arith, enough) in
      rw (e, space, fit, all, ok) refl
