-- ===== src/Types/Zero.antt =====
-- The all-zero values that `memset` leaves in the port storage, and a configuration of which no
-- member is given.
use iolinki_master.Base.{ℕ, false, none, pos, replicate}
use iolinki_master.Iolinki.{Iolinki}
use iolinki_master.Types.Config.{Config}
use iolinki_master.Types.Limits.{event_memory_len, frame_buf_size}
use iolinki_master.Types.State.{
  State, StartupStep, Startup, op_none, phase_none, Isdu, event_idle, req_none, EventState,
  block_idle, Block, Diagnostics, DeviceInfo, Port,
}

unfoldable pub zero_config : {W : Type 0} → Config W
zero_config = record {
  port_mode = 0;
  m_seq_type = 0;
  baudrate = 0;
  min_cycle_time = 0;
  pd_in_len = 0;
  pd_out_len = 0;
  auto_baudrate = false;
  validate_device_info = false;
  inspection_level = 0;
  expected_vendor_id = 0;
  expected_device_id = 0;
  response_timeout_100us = 0;
  t_dmt_tbit = 0;
  t_dwu_100us = 0;
  wake_retry_limit = 0;
  t_sd_100us = 0;
  event_pending_handler = none;
  event_handler = none;
  set_mode_checked = none;
  set_baudrate_checked = none;
  read_cq_line_checked = none;
  flush_rx = none;
  prepare_tx = none;
  prepare_rx = none;
  read_cq_line = none;
  wake_up = none;
}

unfoldable pub zero_startup : Startup
zero_startup = record { step = StartupStep.wake; baudrate_index = 0; wake_attempts = 0 }

unfoldable pub zero_isdu : ℕ → Isdu
zero_isdu size = record {
  op = op_none;
  phase = phase_none;
  index = 0;
  subindex = 0;
  request = replicate size 0;
  request_len = 0;
  request_pos = 0;
  flowctrl = 0;
  chk = 0;
  expected_len = 0;
  response = replicate size 0;
  response_len = 0;
  response_pos = 0;
  done = false;
  idle_pending = false;
  abort_pending = false;
  error = 0;
}

unfoldable pub zero_event : EventState
zero_event = record {
  phase = event_idle;
  request = req_none;
  addr = 0;
  needed = 0;
  memory = replicate event_memory_len 0;
  len = 0;
  last_slot = 0;
  status_seen = false;
  od_expected = false;
  result = pos 0;
}

unfoldable pub zero_block : ℕ → Block
zero_block size = record {
  step = block_idle;
  index = 0;
  subindex = 0;
  bytes = replicate size 0;
  len = 0;
}

unfoldable pub zero_diagnostics : Diagnostics
zero_diagnostics = record {
  od_status = 0;
  device_status = 0;
  event_pending = false;
  rx_retry_count = 0;
  checksum_errors = 0;
  send_errors = 0;
  response_timeouts = 0;
  cycle_slips = 0;
  last_cycle_jitter_100us = 0;
  max_cycle_jitter_100us = 0;
  supply_voltage_mv = pos 0;
  short_circuit = false;
  link_quality_percent = 0;
  last_service_result = pos 0;
  last_event_count = 0;
  last_event_code = 0;
  last_isdu_error = 0;
  establish_failures = 0;
}

unfoldable pub zero_device_info : DeviceInfo
zero_device_info = record {
  valid = false;
  min_cycle_time = 0;
  min_cycle_time_100us = 0;
  mseq_capability = 0;
  isdu_supported = false;
  operate_mseq_code = 0;
  preoperate_mseq_code = 0;
  revision_id = 0;
  pd_in_descriptor = 0;
  pd_out_descriptor = 0;
  pd_in_len = 0;
  pd_out_len = 0;
  vendor_id = 0;
  device_id = 0;
}

-- The storage after `memset(port, 0, sizeof(*port))`, its configuration already copied in.
unfoldable pub zero_port : {W : Type 0} → Iolinki → Config W → Port W
unfolding zero_startup zero_isdu zero_event zero_block zero_diagnostics zero_device_info
zero_port L config = record {
  phy = none;
  config = config;
  state = State.inactive;
  od_len = 0;
  tx_buf = replicate frame_buf_size 0;
  pd_in = replicate L.pd_in_max_size 0;
  pd_in_len = 0;
  pd_out = replicate L.pd_out_max_size 0;
  pd_out_len = 0;
  pd_valid = false;
  startup = zero_startup;
  diagnostics = zero_diagnostics;
  device_info = zero_device_info;
  isdu = zero_isdu L.isdu_buffer_size;
  event = zero_event;
  block = zero_block L.isdu_buffer_size;
  rx = record { buf = replicate frame_buf_size 0; len = 0 };
  cycle_count = 0;
  last_cycle_start_100us = 0;
  response_deadline_100us = 0;
  send_ready_at_100us = 0;
  send_ready_valid = false;
  cycle_timer_valid = false;
  awaiting_response = false;
  rx_od_expected = false;
}
