-- ===== src/Port/Reach.antt =====
-- The state diagram over a whole tick of src/master_port.c: reception, timeout, transmission.
use iolinki_master.Base.{
  u8, ltb, ℕ, zero, suc, ◌+◌, ◌≡◌, refl, Bool, true, false, Bool-cases, Option-cases, ◌⊎◌, inl, inr,
  Option, none, some, is_none, set, List, ℤ, pos, is_neg, is_pos, arith,
}
use iolinki_master.Iolinki.{Iolinki}
use iolinki_master.Types.Codes.{tick_response_timeout}
use iolinki_master.Types.State.{preoperate, operate, is_await_operate_ack, Port, Sys, Rx}
use iolinki_master.Port.Line.{phy_recv_byte}
use iolinki_master.Port.Receive.{
  receive_byte, poll_loop, poll_with, poll_rx, expected_len, on_rx, type0_reply_ok, ack_ok,
}
use iolinki_master.Port.Tick.{tick_received, tick_common}
use iolinki_master.Port.Transitions.{
  IsReceiving, IsAnswered, IsAcknowledged, IsReply, on_rx-IsReply, map-IsReply,
}
use iolinki_master.Port.Edges.{IsNext, IsFault, tick_timeout-state, tick_cycle-KeepsOrFails}

module _ {W : Type 0} (L : Iolinki) (Tested Confirmed : Type 0)
    (tested : (frame : List ℕ) → type0_reply_ok L frame ≡ true → Tested)
    (confirmed : (frame : List ℕ) → ack_ok L frame ≡ true → Confirmed) where
  -- Between two octets of a reception that started with the port `p`.
  abbrev IsPast : Port W → Port W → Type 0
  IsPast p q =
      ((q.state ≡ p.state)
        × (q.startup.step ≡ p.startup.step)
        × ((q.diagnostics.rx_retry_count ≡ p.diagnostics.rx_retry_count)
            ⊎ (q.diagnostics.rx_retry_count ≡ 0)))
      ⊎ (IsAnswered Tested Confirmed p
          × (q.state ≡ preoperate)
          × (is_await_operate_ack q.startup.step ≡ false)
          × (q.diagnostics.rx_retry_count ≡ 0))
      ⊎ (IsAcknowledged Tested Confirmed p
          × (q.state ≡ operate)
          × (q.diagnostics.rx_retry_count ≡ 0))

  taken-IsReply :
      (s : Sys W) (frame : List ℕ) (len : ℕ)
      → IsReceiving s.port.state
      → IsReply Tested Confirmed s.port (on_rx L s frame len)
  taken-IsReply s frame len h =
      map-IsReply (tested frame) (confirmed frame) s.port (on_rx L s frame len)
        (on_rx-IsReply L s frame len h)

  -- A reply within a reception.
  taken_lem :
      (p q : Port W) (r : ℤ × Sys W)
      → IsPast p q
      → IsReply Tested Confirmed q r
      → ((r.0 ≡ pos 0) × IsPast p r.1.port × IsReceiving r.1.port.state)
        ⊎ ((is_neg r.0 ≡ true) × IsNext Tested Confirmed Unit p r.1.port.state)
  taken_lem p q r h e = ground (arith, h, e)

  -- One octet: the reception goes on between two octets, or it ends with an error.
  receive_more :
      (p : Port W) (s : Sys W) (expected frames byte : ℕ)
      → IsPast p s.port
      → IsReceiving s.port.state
      → (receive_byte L s expected frames byte).0 ≡ none
      → IsPast p (receive_byte L s expected frames byte).2.port
        × IsReceiving (receive_byte L s expected frames byte).2.port.state
  unfolding receive_byte
  receive_more p s expected frames byte h c e =
      let stored : Rx = record (s.port.rx) {
        buf = set s.port.rx.buf s.port.rx.len byte;
        len = u8 (s.port.rx.len + 1);
      } in
      let s' : Sys W = record s { port = record (s.port) { rx = stored } } in
      ground (
        arith,
        taken_lem p s'.port (on_rx L s' stored.buf stored.len) h
            (taken-IsReply s' stored.buf stored.len c),
      )

  receive_stop :
      (p : Port W) (s : Sys W) (expected frames byte : ℕ) (ret : ℤ)
      → IsPast p s.port
      → IsReceiving s.port.state
      → (receive_byte L s expected frames byte).0 ≡ some ret
      → (is_neg ret ≡ true)
        × IsNext Tested Confirmed Unit p (receive_byte L s expected frames byte).2.port.state
  unfolding receive_byte
  receive_stop p s expected frames byte ret h c e =
      let stored : Rx = record (s.port.rx) {
        buf = set s.port.rx.buf s.port.rx.len byte;
        len = u8 (s.port.rx.len + 1);
      } in
      let s' : Sys W = record s { port = record (s.port) { rx = stored } } in
      ground (
        arith,
        taken_lem p s'.port (on_rx L s' stored.buf stored.len) h
            (taken-IsReply s' stored.buf stored.len c),
      )

  -- The end of a reception: no error between two octets, or an error and an edge.
  abbrev IsReceived : Port W → ℤ × Sys W → Type 0
  IsReceived p r =
      ((is_neg r.0 ≡ false) × IsPast p r.1.port)
      ⊎ ((is_neg r.0 ≡ true) × IsNext Tested Confirmed Unit p r.1.port.state)

  -- The same of a reception that returns.
  abbrev Receives : Port W → Option (ℤ × Sys W) → Type 0
  Receives p none = Unit
  Receives p (some r) = IsReceived p r

  poll_loop-Receives :
      (p : Port W) (fuel : ℕ) (recv : W → ℤ × ℕ × W) (s : Sys W) (expected frames : ℕ)
      → IsPast p s.port
      → IsReceiving s.port.state
      → Receives p (poll_loop L fuel recv s expected frames)
  unfolding poll_loop
  poll_loop-Receives p zero recv s expected frames h c = tt
  poll_loop-Receives p (suc fuel) recv s expected frames h c =
      let (ret, byte, w) = recv s.world in
      let s' : Sys W = record s { world = w } in
      elim (Bool-cases (is_pos ret)) [
        | inr empty ↦
            rw (poll_loop, empty)
              (elim (Bool-cases (is_neg ret)) [
                | inl broken ↦ rw (broken) (inr (refl, ground arith))
                | inr quiet ↦ rw (quiet) (inl (refl, h))
              ])
        | inl some_octet ↦ elim (Option-cases (receive_byte L s' expected frames byte).0) [
          | inr (result, stops) ↦
              rw (poll_loop, some_octet, stops)
                (inr (receive_stop p s' expected frames byte result h c stops))
          | inl more ↦
              let (h', c') = receive_more p s' expected frames byte h c more in
              rw (poll_loop, some_octet, more)
                (poll_loop-Receives p fuel recv (receive_byte L s' expected frames byte).2 expected
                  (receive_byte L s' expected frames byte).1 h' c')
        ]
      ]

  expected-IsReceiving : (p : Port W) {n : ℕ} → expected_len L p ≡ some n → IsReceiving p.state
  unfolding expected_len
  expected-IsReceiving p e = ground (arith, e)

  poll_with-Receives :
      (fuel : ℕ) (recv : Option (W → ℤ × ℕ × W)) (expected : Option ℕ) (s : Sys W)
      → expected_len L s.port ≡ expected
      → Receives s.port (poll_with L fuel recv expected s)
  unfolding poll_with
  poll_with-Receives fuel none expected s e = ground arith
  poll_with-Receives fuel (some recv) none s e = ground arith
  poll_with-Receives fuel (some recv) (some n) s e =
      poll_loop-Receives s.port fuel recv s n 0 (ground arith) (expected-IsReceiving s.port e)

  poll_rx-Receives : (fuel : ℕ) (s : Sys W) → Receives s.port (poll_rx L fuel s)
  unfolding poll_rx
  poll_rx-Receives fuel s = elim (Bool-cases (is_none s.port.phy)) [
    | inl absent ↦ rw (poll_rx, absent) (ground arith)
    | inr present ↦
        rw (poll_rx, present)
          (poll_with-Receives fuel (phy_recv_byte s.port.phy) (expected_len L s.port) s refl)
  ]

  -- The part of a tick behind the reception.
  tick_received-IsNext :
      (event : ℕ) (pace : Bool) (now : ℕ) (p : Port W) (r : ℤ × Sys W)
      → IsReceived p r
      → IsNext Tested Confirmed
          (IsFault event (tick_received L event pace now r).0)
          p
          (tick_received L event pace now r).1.port.state
  unfolding tick_received
  tick_received-IsNext event pace now p (ret, s) h =
      ground
        (arith, h, tick_timeout-state L s ret pace now, tick_cycle-KeepsOrFails L s ret pace now)

  Nexts : ℕ → Port W → Option (ℤ × Sys W) → Type 0
  Nexts event p none = Unit
  Nexts event p (some (ret, s)) = IsNext Tested Confirmed (IsFault event ret) p s.port.state

  received-Nexts :
      (event : ℕ) (pace : Bool) (now : ℕ) (p : Port W) (o : Option (ℤ × Sys W))
      → Receives p o
      → Nexts event p
          (elim o [ none ↦ none | some received ↦ some (tick_received L event pace now received) ])
  unfolding Nexts
  received-Nexts event pace now p none h = tt
  received-Nexts event pace now p (some r) h = tick_received-IsNext event pace now p r h

  tick_common-Nexts :
      (fuel : ℕ) (s : Sys W) (event : ℕ) (pace : Bool) (now : ℕ)
      → Nexts event s.port (tick_common L fuel s event pace now)
  unfolding tick_common Nexts
  tick_common-Nexts fuel s event pace now = elim (Bool-cases (ltb tick_response_timeout event)) [
    | inl refused ↦ rw (tick_common, refused) (inl refl)
    | inr known ↦
        rw (tick_common, known)
          (received-Nexts event pace now s.port (poll_rx L fuel s) (poll_rx-Receives fuel s))
  ]

  pub tick_common-IsNext :
      (fuel : ℕ) (s t : Sys W) (event : ℕ) (pace : Bool) (now : ℕ) (ret : ℤ)
      → tick_common L fuel s event pace now ≡ some (ret, t)
      → IsNext Tested Confirmed (IsFault event ret) s.port t.port.state
  unfolding Nexts
  tick_common-IsNext fuel s t event pace now ret e =
      rw (e) at (tick_common-Nexts fuel s event pace now)
