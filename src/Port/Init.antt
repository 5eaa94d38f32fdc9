-- ===== src/Port/Init.antt =====
-- src/master_port.c: initialisation, restart and the PHY contract.
use iolinki_master.Base.{
  ℕ, Bool, not, ◌&&◌, ◌||◌, if◌then◌else◌, ◌==◌, ltb, Option, none, some, is_none, ℤ, pos, eq_ℤ,
}
use iolinki_master.Iolinki.{Iolinki}
use iolinki_master.Types.Codes.{
  status_ok, err_invalid_arg, err_unsupported_phy, m_seq_type_0, m_seq_type_2_v, port_mode_iolink,
  port_mode_di, port_mode_dq, port_mode_deactivated,
}
use iolinki_master.Types.Config.{Phy, Config}
use iolinki_master.Types.Zero.{zero_port}
use iolinki_master.Types.State.{State, Port, Sys}
use iolinki_master.Params.Capability.{od_len_for_type}
use iolinki_master.Port.Timing.{startup_baudrate}
use iolinki_master.Port.Line.{enter, set_mode, set_baudrate, flush_rx, optional_call}

module _ {W : Type 0} (L : Iolinki) where
  -- The arguments that `init` refuses.
  unfoldable pub config_refused : Config W → Bool
  config_refused c =
      ltb L.pd_in_max_size c.pd_in_len
      || ltb L.pd_out_max_size c.pd_out_len
      || ltb m_seq_type_2_v c.m_seq_type
      || ltb L.baudrate_com3 c.baudrate
      || ltb port_mode_deactivated c.port_mode
      || (c.m_seq_type == m_seq_type_0 && (ltb 0 c.pd_in_len || ltb 0 c.pd_out_len))

  -- The port storage after the assignments that precede the first PHY call.
  unfoldable pub fresh_port : Phy W → Config W → Port W
  fresh_port phy c =
      let z = zero_port L c in
      record z {
        phy = some phy;
        od_len = od_len_for_type c.m_seq_type;
        pd_in_len = c.pd_in_len;
        pd_out_len = c.pd_out_len;
        diagnostics = record (z.diagnostics) { device_status = L.device_status_failure };
        state = if c.port_mode == port_mode_iolink then State.startup else State.inactive;
      }

  -- The error exit that follows each call.
  unfoldable pub or_error : ℤ × Sys W → ℤ × Sys W
  or_error (ret, s) =
      if not (eq_ℤ ret status_ok) then (ret, enter State.error s) else (status_ok, s)

  -- The line setup of an IO-Link port: flush, rate, SDCI.
  unfoldable pub init_iolink : Sys W → ℤ × Sys W
  init_iolink s =
      let (flushed, s1) = flush_rx s in
      let (rated, s2) = set_baudrate s1 (startup_baudrate L s1.port) in
      if not (eq_ℤ flushed status_ok)
      then (flushed, enter State.error s1)
      else if not (eq_ℤ rated status_ok)
      then (rated, enter State.error s2)
      else or_error (set_mode s2 L.phy_mode_sdci)

  unfoldable pub init_line : Sys W → ℤ × Sys W
  init_line s =
      let mode = s.port.config.port_mode in
      if mode == port_mode_deactivated
      then or_error (set_mode s L.phy_mode_inactive)
      else if (mode == port_mode_di) || (mode == port_mode_dq)
      then or_error (set_mode s L.phy_mode_sio)
      else init_iolink s

  unfoldable pub init : Sys W → Phy W → Config W → ℤ × Sys W
  init s phy c =
      let (ret, w) = optional_call phy.init s.world in
      let s' : Sys W = record { port = fresh_port phy c; world = w } in
      if config_refused c
      then (err_invalid_arg, s)
      else if not (eq_ℤ ret (pos 0))
      then (ret, enter State.error s')
      else init_line s'

  unfoldable pub init_again : Option (Phy W) → Config W → Sys W → ℤ × Sys W
  init_again none c s = (err_invalid_arg, s)
  init_again (some phy) c s = init s phy c

  unfoldable pub restart : Sys W → ℤ × Sys W
  restart s = init_again s.port.phy s.port.config s

  -- src/master_sio.c
  unfoldable pub set_port_mode : Sys W → ℕ → ℤ × Sys W
  set_port_mode s mode =
      if ltb port_mode_deactivated mode
      then (err_invalid_arg, s)
      else init_again s.port.phy (record (s.port.config) { port_mode = mode }) s

unfoldable pub validate_phy_contract : {W : Type 0} → Phy W → Config W → ℤ
validate_phy_contract phy c =
    if ltb port_mode_deactivated c.port_mode
    then err_invalid_arg
    else if c.port_mode == port_mode_iolink
    then (if is_none phy.send
          || is_none phy.recv_byte
          || is_none c.set_mode_checked
          || is_none c.set_baudrate_checked
          || is_none c.flush_rx
          || is_none c.prepare_tx
          || is_none c.prepare_rx
          || is_none c.wake_up
        then err_unsupported_phy
        else status_ok)
    else if c.port_mode == port_mode_di
    then (if is_none c.set_mode_checked || is_none c.read_cq_line_checked
        then err_unsupported_phy
        else status_ok)
    else if c.port_mode == port_mode_dq
    then (if is_none c.set_mode_checked || is_none phy.set_cq_line
        then err_unsupported_phy
        else status_ok)
    else if is_none c.set_mode_checked
    then err_unsupported_phy
    else status_ok
