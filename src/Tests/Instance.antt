-- ===== src/Tests/Instance.antt =====
-- A library instance with the wire constants of the tests, and a port that runs over it. The
-- world counts the calls of the line.
use iolinki_master.Base.{ℕ, ◌+◌, true, false, List, [], ◌∷◌, none, some, pos}
use iolinki_master.Iolinki.{Iolinki, OperateResponse}
use iolinki_master.Types.Config.{Phy, Config}
use iolinki_master.Types.State.{State, DeviceInfo, Port, Sys}
use iolinki_master.Types.Zero.{zero_device_info, zero_port}

abbrev pub no_answer : OperateResponse
no_answer = record {
  checksum_ok = false;
  status = 0;
  event_pending = false;
  pd_valid = false;
  pd = [];
  pd_len = 0;
  od = [];
  od_len = 0;
}

abbrev pub wire : Iolinki
wire = record {
  mc_rw_mask = 0x80;
  mc_comm_channel_mask = 0x60;
  mc_addr_mask = 0x1f;
  m_seq_header_len = 2;
  m_seq_type0_len = 2;
  m_seq_min_len = 3;
  pd_in_max_size = 32;
  pd_out_max_size = 32;
  isdu_buffer_size = 256;
  isdu_error_none = 0;
  isdu_error_segmentation = 0x8081;
  flowctrl_start = 0x10;
  flowctrl_idle = 0x11;
  flowctrl_abort = 0x1f;
  flowctrl_count_mask = 0x0f;
  idx_direct_parameters_1 = 0;
  idx_system_command = 2;
  idx_data_storage = 3;
  idx_detailed_device_status = 0x25;
  cmd_device_operate = 0x99;
  cmd_param_download_start = 3;
  cmd_param_download_end = 4;
  cmd_param_download_store = 5;
  cmd_param_upload_start = 1;
  cmd_param_upload_end = 2;
  baudrate_com1 = 0;
  baudrate_com2 = 1;
  baudrate_com3 = 2;
  phy_mode_inactive = 0;
  phy_mode_sio = 1;
  phy_mode_sdci = 2;
  device_status_failure = 4;
  checksum6 = λ octets len. 0;
  frame_encode_type0 = λ mc buf size. (pos 2, buf);
  frame_encode_type0_write = λ mc od buf size. (pos 3, buf);
  frame_decode_operate_response = λ frame len pd_len od_len. (pos 0, no_answer);
}

abbrev pub phy : Phy ℕ
phy = record {
  init = some (λ w. (pos 0, w));
  set_mode = some (λ mode w. w + 1);
  set_baudrate = some (λ rate w. w + 1);
  send = some (λ octets len w. (pos len, w));
  recv_byte = some (λ w. (pos 0, 0, w));
  set_cq_line = none;
  get_voltage_mv = none;
  is_short_circuit = none;
}

-- COM3 by the automatic rate, 1 ms cycles and a timeout of 10 ms.
abbrev pub setup : Config ℕ
setup = record {
  port_mode = 0;
  m_seq_type = 0;
  baudrate = 2;
  min_cycle_time = 10;
  pd_in_len = 0;
  pd_out_len = 0;
  auto_baudrate = true;
  validate_device_info = false;
  inspection_level = 0;
  expected_vendor_id = 0;
  expected_device_id = 0;
  response_timeout_100us = 100;
  t_dmt_tbit = 0;
  t_dwu_100us = 0;
  wake_retry_limit = 0;
  t_sd_100us = 0;
  event_pending_handler = none;
  event_handler = none;
  set_mode_checked = none;
  set_baudrate_checked = none;
  read_cq_line_checked = none;
  flush_rx = none;
  prepare_tx = none;
  prepare_rx = none;
  read_cq_line = none;
  wake_up = none;
}

unfoldable pub port : Port ℕ
unfolding zero_port
port = zero_port wire setup

unfoldable pub system : State → Sys ℕ
unfolding zero_port
system st = record { port = record port { phy = some phy; state = st }; world = 0 }

-- A device with 2 octets of process data in, and its page.
abbrev pub page : List ℕ
page = 0 ∷ 0 ∷ 10 ∷ 0x01 ∷ 0x11 ∷ 0x10 ∷ 0 ∷ 0x01 ∷ 0x42 ∷ 0 ∷ 0x12 ∷ 0x34 ∷ 0 ∷ 0 ∷ 0 ∷ 0 ∷ []

unfoldable pub no_info : DeviceInfo
unfolding zero_device_info
no_info = zero_device_info
