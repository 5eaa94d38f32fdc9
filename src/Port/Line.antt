-- ===== src/Port/Line.antt =====
-- src/master_port.c: the calls to the PHY and to the configured callbacks.
use iolinki_master.Base.{
  ℕ, ◌+◌, Bool, true, false, not, if◌then◌else◌, ◌==◌, bit_and, u32, Option, none, some, List, set,
  ℤ, pos, negsuc, eq_ℤ,
}
use iolinki_master.Iolinki.{Iolinki}
use iolinki_master.Types.Codes.{status_ok}
use iolinki_master.Types.Limits.{wakeup_byte}
use iolinki_master.Types.Config.{Phy}
use iolinki_master.Types.State.{State, Sys}
use iolinki_master.Base.{get_or}

module _ {W : Type 0} where
  -- `state->state = s`
  abbrev pub enter : State → Sys W → Sys W
  enter st s = record s { port = record (s.port) { state = st } }

  -- A callback that may be NULL: without it the result is OK and nothing happens.
  unfoldable pub optional_call : Option (W → ℤ × W) → W → ℤ × W
  optional_call none w = (status_ok, w)
  optional_call (some f) w = f w

  -- The checked callback of the configuration or, failing that, the one of the PHY.
  unfoldable pub checked_call : Option (ℕ → W → ℤ × W) → Option (ℕ → W → W) → ℕ → W → ℤ × W
  checked_call (some checked) raw value w = checked value w
  checked_call none (some raw) value w = (status_ok, raw value w)
  checked_call none none value w = (status_ok, w)

  abbrev pub phy_set_mode : Option (Phy W) → Option (ℕ → W → W)
  phy_set_mode none = none
  phy_set_mode (some phy) = phy.set_mode

  abbrev pub phy_set_baudrate : Option (Phy W) → Option (ℕ → W → W)
  phy_set_baudrate none = none
  phy_set_baudrate (some phy) = phy.set_baudrate

  abbrev pub phy_send : Option (Phy W) → Option (List ℕ → ℕ → W → ℤ × W)
  phy_send none = none
  phy_send (some phy) = phy.send

  abbrev pub phy_recv_byte : Option (Phy W) → Option (W → ℤ × ℕ × W)
  phy_recv_byte none = none
  phy_recv_byte (some phy) = phy.recv_byte

  unfoldable pub set_mode : Sys W → ℕ → ℤ × Sys W
  unfolding checked_call
  set_mode s mode =
      let (ret, w) =
        checked_call s.port.config.set_mode_checked (phy_set_mode s.port.phy) mode s.world in
      (ret, record s { world = w })

  unfoldable pub set_baudrate : Sys W → ℕ → ℤ × Sys W
  unfolding checked_call
  set_baudrate s baudrate =
      let (ret, w) =
        checked_call s.port.config.set_baudrate_checked (phy_set_baudrate s.port.phy) baudrate
          s.world in
      (ret, record s { world = w })

  unfoldable pub flush_rx : Sys W → ℤ × Sys W
  unfolding optional_call
  flush_rx s =
      let (ret, w) = optional_call s.port.config.flush_rx s.world in
      (ret, record { port = record (s.port) { rx = record (s.port.rx) { len = 0 } }; world = w })

  -- `send_errors++` and ERROR
  unfoldable pub send_failed : Sys W → Sys W
  send_failed s = record s {
    port = record (s.port) {
      diagnostics = record (s.port.diagnostics) {
        send_errors = u32 (s.port.diagnostics.send_errors + 1);
      };
      state = State.error;
    };
  }

  -- `state->phy->send(...)`; the callers test that neither pointer is NULL.
  unfoldable pub call_send : Option (List ℕ → ℕ → W → ℤ × W) → List ℕ → ℕ → W → ℤ × W
  call_send none octets len w = (negsuc 0, w)
  call_send (some send) octets len w = send octets len w

module _ {W : Type 0} (L : Iolinki) where
  -- The send and what follows it, once `prepare_tx` went through.
  unfoldable pub send_prepared : Sys W → List ℕ → ℕ → Bool × Sys W
  unfolding call_send optional_call send_failed
  send_prepared s octets len =
      let (sent, w) = call_send (phy_send s.port.phy) octets len s.world in
      let (ret, w') = optional_call s.port.config.prepare_rx w in
      let after = record s { world = w' } in
      if not (eq_ℤ ret status_ok)
      then (false, send_failed after)
      else if eq_ℤ sent (pos len)
      then (
        true,
        record after {
          port = record (after.port) {
            rx_od_expected = not (bit_and (get_or octets 0 0) L.mc_rw_mask == 0);
          };
        },
      )
      else (false, send_failed after)

  unfoldable pub send_full : Sys W → List ℕ → ℕ → Bool × Sys W
  unfolding optional_call send_prepared send_failed
  send_full s octets len =
      let (ret, w) = optional_call s.port.config.prepare_tx s.world in
      let ready = record s { world = w } in
      if not (eq_ℤ ret status_ok)
      then (false, send_failed ready)
      else send_prepared ready octets len

  unfoldable pub wake_up_by : Option (W → ℤ × W) → Sys W → Bool × Sys W
  unfolding send_full send_failed
  wake_up_by none s =
      let tx = set s.port.tx_buf 0 wakeup_byte in
      send_full (record s { port = record (s.port) { tx_buf = tx } }) tx 1
  wake_up_by (some call) s =
      let (ret, w) = call s.world in
      let after = record s { world = w } in
      if eq_ℤ ret status_ok then (true, after) else (false, send_failed after)

  unfoldable pub wake_up : Sys W → Bool × Sys W
  unfolding wake_up_by
  wake_up s = wake_up_by s.port.config.wake_up s
