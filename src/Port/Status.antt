-- ===== src/Port/Status.antt =====
-- src/master_port.c and src/master_sio.c: the accessors of a port, the process data out and the
-- C/Q line.
use iolinki_master.Base.{
  ℕ, ◌+◌, ◌*◌, ◌/◌, Bool, false, not, ◌&&◌, ◌||◌, if◌then◌else◌, ◌==◌, ltb, u8, u32, Option, none,
  some, is_none, List, [], take, ℤ, pos, is_neg, eq_ℤ,
}
use iolinki_master.Iolinki.{Iolinki}
use iolinki_master.Types.Codes.{
  status_ok, status_pending, err_invalid_arg, err_buffer_too_small, sio_err_wrong_mode,
  sio_err_unsupported_phy, port_mode_di, port_mode_dq,
}
use iolinki_master.Types.Config.{Phy}
use iolinki_master.Types.State.{State, Diagnostics, Port, Sys}
use iolinki_master.Isdu.Service.{octets_of, copy_at}

-- `iolink_master_timing_t`
pub record Timing : Type 0 where
  pub cycle_timer_valid : Bool
  pub awaiting_response : Bool
  pub min_cycle_time_100us : ℕ
  pub last_cycle_start_100us : ℕ
  pub response_deadline_100us : ℕ

-- `diagnostics->link_quality_percent`
unfoldable pub link_quality : ℕ → ℕ → ℕ
link_quality cycle_count error_count =
    let total = u32 (cycle_count + error_count) in
    if total == 0 then 100 else u8 (u32 (cycle_count * 100) / total)

module _ {W : Type 0} where
  unfoldable pub get_state : Port W → State
  get_state p = p.state

  -- The result, the octets copied to the caller's buffer and `*out_len`.
  unfoldable pub get_pd_in : Port W → ℕ → ℤ × List ℕ × ℕ
  get_pd_in p buffer_len =
      if ltb buffer_len p.pd_in_len
      then (err_buffer_too_small, [], p.pd_in_len)
      else if not p.pd_valid
      then (status_pending, [], p.pd_in_len)
      else (status_ok, take p.pd_in_len p.pd_in, p.pd_in_len)

  unfoldable pub get_od_status : Port W → ℕ
  get_od_status p = p.diagnostics.od_status

  unfoldable pub get_device_status : Port W → ℕ
  get_device_status p = p.diagnostics.device_status

  unfoldable pub get_timing : Port W → Timing
  get_timing p = record {
    cycle_timer_valid = p.cycle_timer_valid;
    awaiting_response = p.awaiting_response;
    min_cycle_time_100us = p.config.min_cycle_time;
    last_cycle_start_100us = p.last_cycle_start_100us;
    response_deadline_100us = p.response_deadline_100us;
  }

  -- A measurement of the PHY, or a default without it.
  measure : {A : Type 0} → Option (W → A × W) → A → W → A × W
  measure none default w = (default, w)
  measure (some f) default w = f w

  abbrev phy_voltage : Option (Phy W) → Option (W → ℤ × W)
  phy_voltage none = none
  phy_voltage (some phy) = phy.get_voltage_mv

  abbrev phy_short : Option (Phy W) → Option (W → Bool × W)
  phy_short none = none
  phy_short (some phy) = phy.is_short_circuit

  unfoldable pub get_diagnostics : Sys W → Diagnostics × W
  unfolding measure link_quality
  get_diagnostics s =
      let d = s.port.diagnostics in
      let (voltage, w) = measure (phy_voltage s.port.phy) (pos 0) s.world in
      let (short, w') = measure (phy_short s.port.phy) false w in
      let errors = u32 (d.checksum_errors + d.send_errors + d.response_timeouts) in
      (
        record d {
          supply_voltage_mv = voltage;
          short_circuit = short;
          link_quality_percent = link_quality s.port.cycle_count errors;
        },
        w',
      )

  abbrev phy_cq_line : Option (Phy W) → Option (ℕ → W → W)
  phy_cq_line none = none
  phy_cq_line (some phy) = phy.set_cq_line

  drive : Option (ℕ → W → W) → Bool → W → ℤ × W
  drive none level w = (sio_err_unsupported_phy, w)
  drive (some f) level w = (status_ok, f (if level then 1 else 0) w)

  unfoldable pub set_dq : Sys W → Bool → ℤ × W
  unfolding drive
  set_dq s level =
      if not (s.port.config.port_mode == port_mode_dq)
      then (sio_err_wrong_mode, s.world)
      else drive (phy_cq_line s.port.phy) level s.world

  sensed : ℤ × W → ℤ × Option Bool × W
  sensed (level, w) =
      if is_neg level
      then (sio_err_unsupported_phy, none, w)
      else (status_ok, some (not (eq_ℤ level (pos 0))), w)

  sense : Option (W → ℤ × W) → Option (W → ℤ × W) → W → ℤ × Option Bool × W
  unfolding sensed
  sense none none w = (sio_err_unsupported_phy, none, w)
  sense (some checked) raw w = sensed (checked w)
  sense none (some raw) w = sensed (raw w)

  -- The result, `*level` if it is written, and the world.
  unfoldable pub get_di : Sys W → ℤ × Option Bool × W
  unfolding sense
  get_di s =
      if not (s.port.config.port_mode == port_mode_di)
      then (sio_err_wrong_mode, none, s.world)
      else sense s.port.config.read_cq_line_checked s.port.config.read_cq_line s.world

module _ {W : Type 0} (L : Iolinki) where
  -- `none` is a NULL `data`.
  unfoldable pub set_pd_out : Port W → Option (List ℕ) → ℕ → ℤ × Port W
  unfolding copy_at
  set_pd_out p octets len =
      let pd = if ltb 0 len then copy_at p.pd_out 0 (take len (octets_of octets)) else p.pd_out in
      if is_none octets && ltb 0 len
      then (err_invalid_arg, p)
      else if ltb L.pd_out_max_size len || not (len == p.config.pd_out_len)
      then (err_buffer_too_small, p)
      else (status_ok, record p { pd_out = pd; pd_out_len = len })
