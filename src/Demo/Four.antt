-- ===== src/Demo/Four.antt =====
-- The run of examples/master_4port_controller_demo.c.
use iolinki_master.Base.{
  ℕ, ◌+◌, ◌≡◌, refl, ap, ◌∙◌, true, false, ◌==◌, ltb, some, [], ◌∷◌, pos, arith,
}
use iolinki_master.Iolinki.{Iolinki}
use iolinki_master.Types.Codes.{
  status_ok, m_seq_type_0, port_mode_iolink, port_mode_di, port_mode_dq, port_mode_deactivated,
}
use iolinki_master.Types.Config.{Config}
use iolinki_master.Types.State.{Port, Sys}
use iolinki_master.Types.Zero.{zero_config, zero_port, zero_startup}
use iolinki_master.Port.Line.{
  set_mode, set_baudrate, flush_rx, optional_call, checked_call, wake_up, wake_up_by, send_full,
  send_prepared, call_send,
}
use iolinki_master.Port.Timing.{startup_baudrate, cycle_due_at, response_due_at}
use iolinki_master.Port.Init.{init, init_line, init_iolink, or_error, config_refused, fresh_port}
use iolinki_master.Port.Tick.{tick_at, tick_common, tick_received, tick_cycle, run_cycle}
use iolinki_master.Port.Process.{
  process_at, gate_closed, process_in, process_startup, process_startup_step, process_wake,
}
use iolinki_master.Port.Establish.{arm_send_gate}
use iolinki_master.Port.Receive.{poll_rx, poll_with}
use iolinki_master.Port.Status.{get_di, set_dq}
use iolinki_master.Controller.{
  Controller, controller_tick_at, tick_managed, tick_ports, keep_first, cons_ticked,
  controller_init, init_ports, cons_inited,
}
use iolinki_master.Demo.Ports.{
  Lines, phy0_send, phy1_read_cq, phy2_set_cq, phy_set_mode_of, mode_phy, zero_lines, port_setups,
  four_ports, port_of, ports_tick, ports_output, ports_input, ports_main,
}

module _ (L : Iolinki) where
  -- The ports after `controller_init`.
  abbrev config : ℕ → Config Lines
  config mode = record zero_config {
    port_mode = mode;
    m_seq_type = m_seq_type_0;
    baudrate = L.baudrate_com3;
  }

  abbrev port0 : Port Lines
  port0 =
      fresh_port L (record (mode_phy 0) { send = some phy0_send })
        (record (config port_mode_iolink) { min_cycle_time = 20 })

  abbrev port1 : Port Lines
  port1 =
      fresh_port L (mode_phy 1) (record (config port_mode_di) { read_cq_line = some phy1_read_cq })

  abbrev port2 : Port Lines
  port2 =
      fresh_port L (record (mode_phy 2) { set_cq_line = some phy2_set_cq }) (config port_mode_dq)

  abbrev port3 : Port Lines
  port3 = fresh_port L (mode_phy 3) (config port_mode_deactivated)

  abbrev lines : Lines
  lines = record zero_lines {
    modes = L.phy_mode_sdci ∷ L.phy_mode_sio ∷ L.phy_mode_sio ∷ L.phy_mode_inactive ∷ [];
  }

  abbrev begun : Lines → Controller Lines
  begun g = record { ports = port0 ∷ port1 ∷ port2 ∷ port3 ∷ []; port_count = 4; world = g }

  init_lem :
      (c : Controller Lines)
      → controller_init L (record c { world = zero_lines }) (four_ports L) (port_setups L)
        ≡ (status_ok, begun lines)
  unfolding controller_init init_ports cons_inited four_ports port_setups init init_line init_iolink
      or_error config_refused set_mode set_baudrate flush_rx optional_call checked_call
      startup_baudrate fresh_port zero_port zero_config mode_phy phy_set_mode_of zero_lines
  init_lem c =
      let a : ltb L.pd_in_max_size 0 ≡ false = ground arith in
      let b : ltb L.pd_out_max_size 0 ≡ false = ground arith in
      let e : ltb L.baudrate_com3 L.baudrate_com3 ≡ false = ground arith in rw (a, b, e) refl

  input_lem :
      (g : Lines) → g.di_level ≡ pos 1 → get_di (port_of L (begun g) 1) ≡ (status_ok, some true, g)
  unfolding get_di port_of fresh_port zero_port zero_config mode_phy phy1_read_cq
  input_lem g h = rw (h) refl

  output_lem :
      (g : Lines) → set_dq (port_of L (begun g) 2) true ≡ (status_ok, record g { dq_level = 1 })
  unfolding set_dq port_of fresh_port zero_port zero_config mode_phy phy2_set_cq
  output_lem g = refl

  abbrev first : Lines → Sys Lines
  first g = record { port = port0; world = g }

  first_sends :
      (g : Lines) → (run_cycle L (first g) true 100).world.iolink_sends ≡ g.iolink_sends + 1
  unfolding run_cycle process_at gate_closed process_in process_startup process_startup_step
      process_wake wake_up wake_up_by send_full send_prepared call_send optional_call phy0_send
      arm_send_gate fresh_port zero_port zero_config zero_startup mode_phy
  first_sends g = refl

  -- The tick at 100: port 0 sends, the others have nothing to send.
  begun_ticked :
      (fuel : ℕ) (g : Lines)
      → (c : Controller Lines) × (controller_tick_at L fuel (begun g) 100 ≡ some (status_ok, c))
        × (c.world ≡ (run_cycle L (first g) true 100).world)
  unfolding controller_tick_at tick_managed tick_ports keep_first cons_ticked response_due_at
      tick_at tick_common tick_received tick_cycle poll_rx poll_with fresh_port zero_port
      zero_config mode_phy cycle_due_at run_cycle process_at
  begun_ticked fuel g = (
    record {
      ports = (run_cycle L (first g) true 100).port ∷ port1 ∷ port2 ∷ port3 ∷ [];
      port_count = 4;
      world = (run_cycle L (first g) true 100).world;
    },
    refl,
    refl,
  )

  ticked : (fuel : ℕ) (g : Lines) → g.iolink_sends ≡ 0 → ports_tick L fuel (begun g) ≡ some 0
  unfolding ports_tick
  ticked fuel g none_sent =
      let (c, e, w) = begun_ticked fuel g in
      let one : c.world.iolink_sends ≡ 1 =
        ap (λ x. x.iolink_sends) w ∙ first_sends g ∙ ap (λ n. n + 1) none_sent in
      rw (ports_tick, e, one) refl

  ports_output_run :
      (fuel : ℕ) (g : Lines) → g.iolink_sends ≡ 0 → ports_output L fuel (begun g) ≡ some 0
  unfolding ports_output
  ports_output_run fuel g none_sent =
      rw (output_lem g) (ticked fuel (record g { dq_level = 1 }) none_sent)

  ports_input_run :
      (fuel : ℕ) (g : Lines)
      → g.di_level ≡ pos 1
      → g.iolink_sends ≡ 0
      → ports_input L fuel (begun g) ≡ some 0
  unfolding ports_input
  ports_input_run fuel g h none_sent = rw (input_lem g h) (ports_output_run fuel g none_sent)

  -- The program of examples/master_4port_controller_demo.c exits with 0 for every library and every
  -- bound of the receptions, whatever the controller held before: the four ports come up in the
  -- modes they are configured for, the input reads as set, the output is driven, and one tick of the
  -- controller sends exactly once.
  pub ports_main_lem : (fuel : ℕ) (c : Controller Lines) → ports_main L fuel c ≡ some 0
  unfolding ports_main zero_lines
  ports_main_lem fuel c =
      let same : (n : ℕ) → (n == n) ≡ true = λ n. ground arith in
      rw (init_lem c, same L.phy_mode_sdci, same L.phy_mode_sio, same L.phy_mode_inactive)
        (ports_input_run fuel lines refl refl)
