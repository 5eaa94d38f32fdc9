-- ===== src/Iolinki.antt =====
-- The device-stack library `iolinki` (headers iolinki/config.h, phy.h, crc.h, frame.h, protocol.h),
-- which this repository uses and does not contain. Its constants and functions are the fields of a
-- record that every definition takes; what is assumed of them is stated where it is used.
use iolinki_master.Base.{ℕ, Bool, List, ℤ}

-- `iolink_frame_operate_response_t`, the fields that the port reads
pub record OperateResponse : Type 0 where
  pub checksum_ok : Bool
  pub status : ℕ
  pub event_pending : Bool
  pub pd_valid : Bool
  pub pd : List ℕ
  pub pd_len : ℕ
  pub od : List ℕ
  pub od_len : ℕ

pub record Iolinki : Type 0 where
  -- the fields of the M-sequence control octet
  pub mc_rw_mask : ℕ
  pub mc_comm_channel_mask : ℕ
  pub mc_addr_mask : ℕ
  -- frame sizes
  pub m_seq_header_len : ℕ
  pub m_seq_type0_len : ℕ
  pub m_seq_min_len : ℕ
  pub pd_in_max_size : ℕ
  pub pd_out_max_size : ℕ
  -- ISDU transport
  pub isdu_buffer_size : ℕ
  pub isdu_error_none : ℕ
  pub isdu_error_segmentation : ℕ
  pub flowctrl_start : ℕ
  pub flowctrl_idle : ℕ
  pub flowctrl_abort : ℕ
  pub flowctrl_count_mask : ℕ
  -- ISDU indices and commands
  pub idx_direct_parameters_1 : ℕ
  pub idx_system_command : ℕ
  pub idx_data_storage : ℕ
  pub idx_detailed_device_status : ℕ
  pub cmd_device_operate : ℕ
  pub cmd_param_download_start : ℕ
  pub cmd_param_download_end : ℕ
  pub cmd_param_download_store : ℕ
  pub cmd_param_upload_start : ℕ
  pub cmd_param_upload_end : ℕ
  -- PHY enumerations
  pub baudrate_com1 : ℕ
  pub baudrate_com2 : ℕ
  pub baudrate_com3 : ℕ
  pub phy_mode_inactive : ℕ
  pub phy_mode_sio : ℕ
  pub phy_mode_sdci : ℕ
  pub device_status_failure : ℕ
  -- `iolink_checksum6(data, len)`
  pub checksum6 : List ℕ → ℕ → ℕ
  -- `iolink_frame_encode_type0(mc, buf, size)`: the returned length and the buffer afterwards
  pub frame_encode_type0 : ℕ → List ℕ → ℕ → ℤ × List ℕ
  -- `iolink_frame_encode_type0_write(mc, od, buf, size)`
  pub frame_encode_type0_write : ℕ → ℕ → List ℕ → ℕ → ℤ × List ℕ
  -- `iolink_frame_decode_operate_response(data, len, pd_len, od_len, &resp)`
  pub frame_decode_operate_response : List ℕ → ℕ → ℕ → ℕ → ℤ × OperateResponse
