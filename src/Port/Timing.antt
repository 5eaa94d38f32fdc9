-- ===== src/Port/Timing.antt =====
-- src/master_port.c: durations in 100us ticks, the cycle pacing and the next tick time.
use iolinki_master.Base.{
  ℕ, ◌+◌, ◌-◌, ◌*◌, ◌/◌, Bool, true, false, not, ◌&&◌, ◌||◌, if◌then◌else◌, ◌==◌, ltb, leb, u32,
  sub32, List, [], ◌∷◌, get_or,
}
use iolinki_master.Iolinki.{Iolinki}
use iolinki_master.Types.Limits.{
  t_bit_com1_ns, t_bit_com2_ns, t_bit_com3_ns, ns_per_100us, default_t_dmt_tbit,
  default_t_dwu_100us, default_wake_retry_limit, default_t_sd_100us, type0_m_seq_max_tbit,
  uart_frame_tbit, t_a_max_tbit,
}
use iolinki_master.Types.State.{is_startup, is_operate, is_inactive_or_error, Port}

-- A configured value, or the default that 0 selects.
abbrev or_default : ℕ → ℕ → ℕ
or_default configured default = if configured == 0 then default else configured

module _ (L : Iolinki) where
  -- `g_iolink_master_baudrate_scan`
  unfoldable pub baudrate_scan : List ℕ
  baudrate_scan = L.baudrate_com3 ∷ L.baudrate_com2 ∷ L.baudrate_com1 ∷ []

  unfoldable pub t_bit_ns : ℕ → ℕ
  t_bit_ns baudrate =
      if baudrate == L.baudrate_com1
      then t_bit_com1_ns
      else if baudrate == L.baudrate_com2
      then t_bit_com2_ns
      else t_bit_com3_ns

  -- The product and the sum are uint64, which they never fill.
  unfoldable pub tbit_to_100us : ℕ → ℕ → ℕ
  unfolding t_bit_ns
  tbit_to_100us baudrate t_bit = u32 ((t_bit_ns baudrate * t_bit + ns_per_100us - 1) / ns_per_100us)

module _ {W : Type 0} where
  unfoldable pub wake_retry_limit : Port W → ℕ
  wake_retry_limit p = or_default p.config.wake_retry_limit default_wake_retry_limit

  unfoldable pub t_dwu_100us : Port W → ℕ
  t_dwu_100us p = or_default p.config.t_dwu_100us default_t_dwu_100us

  unfoldable pub t_sd_100us : Port W → ℕ
  t_sd_100us p = or_default p.config.t_sd_100us default_t_sd_100us

  -- The pacing applies: the three tests that open each of the cycle functions.
  unfoldable pub pacing_active : Port W → Bool
  pacing_active p =
      not (not (is_operate p.state) || p.config.min_cycle_time == 0 || not p.cycle_timer_valid)

  unfoldable pub cycle_due_at : Port W → ℕ → Bool
  unfolding pacing_active
  cycle_due_at p now =
      if not (pacing_active p)
      then true
      else leb p.config.min_cycle_time (sub32 now p.last_cycle_start_100us)

  unfoldable pub cycle_slipped_at : Port W → ℕ → Bool
  unfolding pacing_active
  cycle_slipped_at p now =
      if not (pacing_active p)
      then false
      else ltb p.config.min_cycle_time (sub32 now p.last_cycle_start_100us)

  unfoldable pub cycle_jitter_at : Port W → ℕ → ℕ
  unfolding pacing_active
  cycle_jitter_at p now =
      let elapsed = sub32 now p.last_cycle_start_100us in
      if not (pacing_active p)
      then 0
      else if leb elapsed p.config.min_cycle_time
      then 0
      else sub32 elapsed p.config.min_cycle_time

  unfoldable pub response_due_at : Port W → ℕ → Bool
  response_due_at p now = p.awaiting_response && leb p.response_deadline_100us now

  unfoldable pub get_next_tick_time : Port W → ℕ → ℕ
  unfolding pacing_active
  get_next_tick_time p now =
      let cycle_due = u32 (p.last_cycle_start_100us + p.config.min_cycle_time) in
      if is_inactive_or_error p.state
      then now
      else if p.awaiting_response
      then (if leb p.response_deadline_100us now then now else p.response_deadline_100us)
      else if is_startup p.state && p.send_ready_valid && ltb now p.send_ready_at_100us
      then p.send_ready_at_100us
      else if not (pacing_active p)
      then now
      else if leb cycle_due now
      then now
      else cycle_due

module _ {W : Type 0} (L : Iolinki) where
  unfoldable pub startup_baudrate : Port W → ℕ
  unfolding baudrate_scan
  startup_baudrate p =
      if p.config.auto_baudrate
      then get_or (baudrate_scan L) p.startup.baudrate_index 0
      else p.config.baudrate

  unfoldable pub response_timeout_100us : Port W → ℕ
  response_timeout_100us p =
      let frame = tbit_to_100us L (startup_baudrate p) (uart_frame_tbit + t_a_max_tbit) in
      let configured =
        if ltb p.config.response_timeout_100us frame
        then frame
        else p.config.response_timeout_100us in
      if configured == 0 then 1 else configured

  unfoldable pub t_dmt_100us : Port W → ℕ → ℕ
  t_dmt_100us p baudrate =
      tbit_to_100us L baudrate (or_default p.config.t_dmt_tbit default_t_dmt_tbit)

  unfoldable pub test_message_timeout_100us : Port W → ℕ
  test_message_timeout_100us p =
      let base = tbit_to_100us L (startup_baudrate p) type0_m_seq_max_tbit in
      let window =
        if ltb base p.config.response_timeout_100us
        then p.config.response_timeout_100us
        else base in
      if window == 0 then 1 else window
