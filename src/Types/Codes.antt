-- ===== src/Types/Codes.antt =====
-- The result codes and the enumerations of include/iolinki_master/master.h that callers pass in.
-- Such an enumeration is a number, as it is in C: the guards on its range are then in the model.
use iolinki_master.Base.{ℕ, ℤ, pos, negsuc}

-- `iolink_master_result_t`
abbrev pub status_ok : ℤ
status_ok = pos 0

abbrev pub status_pending : ℤ
status_pending = pos 1

abbrev pub err_invalid_arg : ℤ
err_invalid_arg = negsuc 0

abbrev pub err_retry_limit : ℤ
err_retry_limit = negsuc 1

abbrev pub err_frame : ℤ
err_frame = negsuc 1

abbrev pub err_buffer_too_small : ℤ
err_buffer_too_small = negsuc 1

abbrev pub err_checksum : ℤ
err_checksum = negsuc 2

abbrev pub err_unsupported_phy : ℤ
err_unsupported_phy = negsuc 5

-- `iolink_master_parameter_result_t`
abbrev pub param_err_too_short : ℤ
param_err_too_short = negsuc 1

abbrev pub param_err_revision : ℤ
param_err_revision = negsuc 1

abbrev pub param_err_cycle_time : ℤ
param_err_cycle_time = negsuc 2

abbrev pub param_err_pd_size : ℤ
param_err_pd_size = negsuc 3

abbrev pub param_err_m_sequence : ℤ
param_err_m_sequence = negsuc 4

abbrev pub param_err_vendor_id : ℤ
param_err_vendor_id = negsuc 5

abbrev pub param_err_device_id : ℤ
param_err_device_id = negsuc 6

abbrev pub param_err_pd_descriptor : ℤ
param_err_pd_descriptor = negsuc 7

-- `iolink_master_isdu_result_t`
abbrev pub isdu_err_buffer_too_small : ℤ
isdu_err_buffer_too_small = negsuc 1

abbrev pub isdu_err_busy : ℤ
isdu_err_busy = negsuc 2

abbrev pub isdu_err_device : ℤ
isdu_err_device = negsuc 3

abbrev pub isdu_err_invalid_state : ℤ
isdu_err_invalid_state = negsuc 4

abbrev pub isdu_err_verify_failed : ℤ
isdu_err_verify_failed = negsuc 5

-- `iolink_master_sio_result_t`
abbrev pub sio_err_wrong_mode : ℤ
sio_err_wrong_mode = negsuc 1

abbrev pub sio_err_unsupported_phy : ℤ
sio_err_unsupported_phy = negsuc 2

-- `iolink_master_m_seq_type_t`
abbrev pub m_seq_type_0 : ℕ
m_seq_type_0 = 0

abbrev pub m_seq_type_1_1 : ℕ
m_seq_type_1_1 = 1

abbrev pub m_seq_type_1_2 : ℕ
m_seq_type_1_2 = 2

abbrev pub m_seq_type_1_v : ℕ
m_seq_type_1_v = 3

abbrev pub m_seq_type_2_1 : ℕ
m_seq_type_2_1 = 4

abbrev pub m_seq_type_2_2 : ℕ
m_seq_type_2_2 = 5

abbrev pub m_seq_type_2_v : ℕ
m_seq_type_2_v = 6

-- `iolink_master_port_mode_t`
abbrev pub port_mode_iolink : ℕ
port_mode_iolink = 0

abbrev pub port_mode_di : ℕ
port_mode_di = 1

abbrev pub port_mode_dq : ℕ
port_mode_dq = 2

abbrev pub port_mode_deactivated : ℕ
port_mode_deactivated = 3

-- `iolink_master_tick_event_t`
abbrev pub tick_none : ℕ
tick_none = 0

abbrev pub tick_cycle_due : ℕ
tick_cycle_due = 1

abbrev pub tick_response_timeout : ℕ
tick_response_timeout = 2

-- `iolink_master_inspection_level_t`
abbrev pub inspection_no_check : ℕ
inspection_no_check = 0

abbrev pub inspection_type_comp : ℕ
inspection_type_comp = 1

abbrev pub inspection_identical : ℕ
inspection_identical = 2

-- `iolink_master_mc_channel_t`
abbrev pub mc_channel_process : ℕ
mc_channel_process = 0

abbrev pub mc_channel_page : ℕ
mc_channel_page = 1

abbrev pub mc_channel_diagnosis : ℕ
mc_channel_diagnosis = 2

abbrev pub mc_channel_isdu : ℕ
mc_channel_isdu = 3
