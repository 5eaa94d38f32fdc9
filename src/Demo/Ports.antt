-- ===== src/Demo/Ports.antt =====
-- examples/master_4port_controller_demo.c: a controller with an IO-Link port, an input, an output
-- and a deactivated port.
use iolinki_master.Base.{
  ℕ, ◌+◌, Bool, true, false, not, ◌||◌, if◌then◌else◌, ◌==◌, Option, none, some, List, [], ◌∷◌,
  get_elem?, get_or, set, ℤ, pos, negsuc, eq_ℤ,
}
use iolinki_master.Iolinki.{Iolinki}
use iolinki_master.Types.Codes.{
  status_ok, m_seq_type_0, port_mode_iolink, port_mode_di, port_mode_dq, port_mode_deactivated,
}
use iolinki_master.Types.Config.{Phy, Config}
use iolinki_master.Types.Zero.{zero_config, zero_port}
use iolinki_master.Types.State.{Port, Sys}
use iolinki_master.Port.Status.{get_di, set_dq}
use iolinki_master.Controller.{Controller, controller_init, controller_tick_at}

-- The variables of the program.
pub record Lines : Type 0 where
  pub iolink_sends : ℕ
  pub dq_level : ℕ
  pub di_level : ℤ
  pub modes : List ℕ

-- The pointer is never NULL here.
unfoldable pub phy0_send : List ℕ → ℕ → Lines → ℤ × Lines
phy0_send octets len g =
    if len == 0 then (negsuc 0, g) else (pos len, record g { iolink_sends = g.iolink_sends + 1 })

-- `phy0_set_mode` to `phy3_set_mode`
unfoldable pub phy_set_mode_of : ℕ → ℕ → Lines → Lines
phy_set_mode_of index mode g = record g { modes = set g.modes index mode }

unfoldable pub phy1_read_cq : Lines → ℤ × Lines
phy1_read_cq g = (g.di_level, g)

unfoldable pub phy2_set_cq : ℕ → Lines → Lines
phy2_set_cq level g = record g { dq_level = if not (level == 0) then 1 else 0 }

-- A PHY of which only `set_mode` is given.
unfoldable pub mode_phy : ℕ → Phy Lines
mode_phy index = record {
  init = none;
  set_mode = some (phy_set_mode_of index);
  set_baudrate = none;
  send = none;
  recv_byte = none;
  set_cq_line = none;
  get_voltage_mv = none;
  is_short_circuit = none;
}

unfoldable pub zero_lines : Lines
zero_lines = record { iolink_sends = 0; dq_level = 0; di_level = pos 1; modes = 0 ∷ 0 ∷ 0 ∷ 0 ∷ [] }

module _ (L : Iolinki) where
  -- `phys` and `configs`
  unfoldable pub port_setups : List (Phy Lines × Config Lines)
  port_setups =
      (
        record (mode_phy 0) { send = some phy0_send },
        record zero_config {
          port_mode = port_mode_iolink;
          m_seq_type = m_seq_type_0;
          baudrate = L.baudrate_com3;
          min_cycle_time = 20;
        },
      )
      ∷ (
        mode_phy 1,
        record zero_config {
          port_mode = port_mode_di;
          m_seq_type = m_seq_type_0;
          baudrate = L.baudrate_com3;
          read_cq_line = some phy1_read_cq;
        },
      )
      ∷ (
        record (mode_phy 2) { set_cq_line = some phy2_set_cq },
        record zero_config {
          port_mode = port_mode_dq;
          m_seq_type = m_seq_type_0;
          baudrate = L.baudrate_com3;
        },
      )
      ∷ (
        mode_phy 3,
        record zero_config {
          port_mode = port_mode_deactivated;
          m_seq_type = m_seq_type_0;
          baudrate = L.baudrate_com3;
        },
      )
      ∷ []

  -- The four ports, cleared by `memset`.
  unfoldable pub four_ports : List (Port Lines)
  four_ports =
      zero_port L zero_config
      ∷ zero_port L zero_config
      ∷ zero_port L zero_config
      ∷ zero_port L zero_config
      ∷ []

  -- A port of the array beside the variables of the program.
  unfoldable pub port_of : Controller Lines → ℕ → Sys Lines
  port_of c index = elim (get_elem? c.ports index) [
    | none ↦ record { port = zero_port L zero_config; world = c.world }
    | some p ↦ record { port = p; world = c.world }
  ]

  -- The tick at 100 and the test of what was sent.
  unfoldable pub ports_tick : ℕ → Controller Lines → Option ℕ
  ports_tick fuel c = elim (controller_tick_at L fuel c 100) [
    | none ↦ none
    | some (ret, c') ↦
        if not (eq_ℤ ret status_ok)
        then some 7
        else if not (c'.world.iolink_sends == 1)
        then some 8
        else some 0
  ]

  -- The output of port 2.
  unfoldable pub ports_output : ℕ → Controller Lines → Option ℕ
  ports_output fuel c =
      let (ret, g) = set_dq (port_of c 2) true in
      if not (eq_ℤ ret status_ok)
      then some 5
      else if not (g.dq_level == 1)
      then some 6
      else ports_tick fuel (record c { world = g })

  -- The input of port 1; `di_level` is false before it is written.
  unfoldable pub ports_input : ℕ → Controller Lines → Option ℕ
  ports_input fuel c =
      let (ret, level, g) = get_di (port_of c 1) in
      let di_level : Bool = elim level [ none ↦ false | some l ↦ l ] in
      if not (eq_ℤ ret status_ok)
      then some 3
      else if not di_level
      then some 4
      else ports_output fuel (record c { world = g })

  -- `main` of the program: its exit code, over a controller that is not yet initialised.
  unfoldable pub ports_main : ℕ → Controller Lines → Option ℕ
  ports_main fuel c =
      let (ret, c') = controller_init L (record c { world = zero_lines }) four_ports port_setups in
      let mode : ℕ → ℕ = λ index. get_or c'.world.modes index 0 in
      if not (eq_ℤ ret status_ok)
      then some 1
      else if not (mode 0 == L.phy_mode_sdci)
          || not (mode 1 == L.phy_mode_sio)
          || not (mode 2 == L.phy_mode_sio)
          || not (mode 3 == L.phy_mode_inactive)
      then some 2
      else ports_input fuel c'
