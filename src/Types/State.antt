-- ===== src/Types/State.antt =====
-- The port state of src/master_internal.h and the records of include/iolinki_master/master.h
-- that it holds.
use iolinki_master.Base.{ℕ, ℤ, Bool, true, false, Option, List}
use iolinki_master.Types.Config.{Phy, Config}

-- `iolink_master_state_t`
pub data State : Type 0 where
  inactive startup preoperate operate error : State

abbrev pub is_startup : State → Bool
is_startup State.startup = true
is_startup _ = false

abbrev pub is_preoperate : State → Bool
is_preoperate State.preoperate = true
is_preoperate _ = false

abbrev pub is_operate : State → Bool
is_operate State.operate = true
is_operate _ = false

abbrev pub is_inactive_or_error : State → Bool
is_inactive_or_error State.inactive = true
is_inactive_or_error State.error = true
is_inactive_or_error _ = false

-- IOLINK_MASTER_STARTUP_STEP_*
pub data StartupStep : Type 0 where
  wake send_type0 await_response await_operate_ack step_inactive : StartupStep

abbrev pub is_wake : StartupStep → Bool
is_wake wake = true
is_wake _ = false

abbrev pub is_send_type0 : StartupStep → Bool
is_send_type0 send_type0 = true
is_send_type0 _ = false

abbrev pub is_await_response : StartupStep → Bool
is_await_response await_response = true
is_await_response _ = false

abbrev pub is_await_operate_ack : StartupStep → Bool
is_await_operate_ack await_operate_ack = true
is_await_operate_ack _ = false

abbrev pub is_step_inactive : StartupStep → Bool
is_step_inactive step_inactive = true
is_step_inactive _ = false

-- `iolink_master_startup_state_t`
pub record Startup : Type 0 where
  pub step : StartupStep
  pub baudrate_index : ℕ
  pub wake_attempts : ℕ

-- `iolink_master_isdu_op_t`
pub data IsduOp : Type 0 where
  op_none op_read op_write : IsduOp

abbrev pub is_op_none : IsduOp → Bool
is_op_none op_none = true
is_op_none _ = false

abbrev pub eq_op : IsduOp → IsduOp → Bool
eq_op op_none op_none = true
eq_op op_read op_read = true
eq_op op_write op_write = true
eq_op _ _ = false

-- `iolink_master_isdu_phase_t`
pub data IsduPhase : Type 0 where
  phase_none request wait response : IsduPhase

abbrev pub is_request : IsduPhase → Bool
is_request request = true
is_request _ = false

abbrev pub is_wait : IsduPhase → Bool
is_wait wait = true
is_wait _ = false

abbrev pub is_phase_none : IsduPhase → Bool
is_phase_none phase_none = true
is_phase_none _ = false

-- `iolink_master_isdu_state_t`
pub record Isdu : Type 0 where
  pub op : IsduOp
  pub phase : IsduPhase
  pub index : ℕ
  pub subindex : ℕ
  pub request : List ℕ
  pub request_len : ℕ
  pub request_pos : ℕ
  pub flowctrl : ℕ
  pub chk : ℕ
  pub expected_len : ℕ
  pub response : List ℕ
  pub response_len : ℕ
  pub response_pos : ℕ
  pub done : Bool
  pub idle_pending : Bool
  pub abort_pending : Bool
  pub error : ℕ

-- `iolink_master_event_phase_t`
pub data EventPhase : Type 0 where
  event_idle event_read event_write : EventPhase

abbrev pub is_event_idle : EventPhase → Bool
is_event_idle event_idle = true
is_event_idle _ = false

abbrev pub is_event_read : EventPhase → Bool
is_event_read event_read = true
is_event_read _ = false

abbrev pub is_event_write : EventPhase → Bool
is_event_write event_write = true
is_event_write _ = false

-- `iolink_master_event_req_t`
pub data EventReq : Type 0 where
  req_none req_code req_details req_ack : EventReq

abbrev pub is_req_none : EventReq → Bool
is_req_none req_none = true
is_req_none _ = false

abbrev pub is_req_ack : EventReq → Bool
is_req_ack req_ack = true
is_req_ack _ = false

-- `iolink_master_event_state_t`
pub record EventState : Type 0 where
  pub phase : EventPhase
  pub request : EventReq
  pub addr : ℕ
  pub needed : ℕ
  pub memory : List ℕ
  pub len : ℕ
  pub last_slot : ℕ
  pub status_seen : Bool
  pub od_expected : Bool
  pub result : ℤ

-- `iolink_master_block_step_t`
pub data BlockStep : Type 0 where
  block_idle begin_download write_block end_download verify_block : BlockStep

-- `iolink_master_block_state_t`
pub record Block : Type 0 where
  pub step : BlockStep
  pub index : ℕ
  pub subindex : ℕ
  pub bytes : List ℕ
  pub len : ℕ

-- `iolink_master_rx_state_t`
pub record Rx : Type 0 where
  pub buf : List ℕ
  pub len : ℕ

-- `iolink_master_diagnostics_t`
pub record Diagnostics : Type 0 where
  pub od_status : ℕ
  pub device_status : ℕ
  pub event_pending : Bool
  pub rx_retry_count : ℕ
  pub checksum_errors : ℕ
  pub send_errors : ℕ
  pub response_timeouts : ℕ
  pub cycle_slips : ℕ
  pub last_cycle_jitter_100us : ℕ
  pub max_cycle_jitter_100us : ℕ
  pub supply_voltage_mv : ℤ
  pub short_circuit : Bool
  pub link_quality_percent : ℕ
  pub last_service_result : ℤ
  pub last_event_count : ℕ
  pub last_event_code : ℕ
  pub last_isdu_error : ℕ
  pub establish_failures : ℕ

-- `iolink_master_device_info_t`
pub record DeviceInfo : Type 0 where
  pub valid : Bool
  pub min_cycle_time : ℕ
  pub min_cycle_time_100us : ℕ
  pub mseq_capability : ℕ
  pub isdu_supported : Bool
  pub operate_mseq_code : ℕ
  pub preoperate_mseq_code : ℕ
  pub revision_id : ℕ
  pub pd_in_descriptor : ℕ
  pub pd_out_descriptor : ℕ
  pub pd_in_len : ℕ
  pub pd_out_len : ℕ
  pub vendor_id : ℕ
  pub device_id : ℕ

-- `iolink_master_port_state_t`
pub record Port (W : Type 0) : Type 0 where
  pub phy : Option (Phy W)
  pub config : Config W
  pub state : State
  pub od_len : ℕ
  pub tx_buf : List ℕ
  pub pd_in : List ℕ
  pub pd_in_len : ℕ
  pub pd_out : List ℕ
  pub pd_out_len : ℕ
  pub pd_valid : Bool
  pub startup : Startup
  pub diagnostics : Diagnostics
  pub device_info : DeviceInfo
  pub isdu : Isdu
  pub event : EventState
  pub block : Block
  pub rx : Rx
  pub cycle_count : ℕ
  pub last_cycle_start_100us : ℕ
  pub response_deadline_100us : ℕ
  pub send_ready_at_100us : ℕ
  pub send_ready_valid : Bool
  pub cycle_timer_valid : Bool
  pub awaiting_response : Bool
  pub rx_od_expected : Bool

-- A port and the world that its callbacks act on.
pub record Sys (W : Type 0) : Type 0 where
  pub port : Port W
  pub world : W
