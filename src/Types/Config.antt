-- ===== src/Types/Config.antt =====
-- `iolink_phy_api_t` (of the device-stack library) and `iolink_master_config_t`.
-- A callback runs on the outside world, a type `W` that the model leaves open, and returns the
-- world afterwards; a callback that may be NULL is an option.
use iolinki_master.Base.{ℕ, ℤ, Bool, Option, List}

-- `iolink_master_event_t`; the type is the number of `iolink_master_event_type_t`
pub record Event : Type 0 where
  pub qualifier : ℕ
  pub type : ℕ
  pub code : ℕ

-- `iolink_phy_api_t`: the entries that the master calls
pub record Phy (W : Type 0) : Type 0 where
  pub init : Option (W → ℤ × W)
  pub set_mode : Option (ℕ → W → W)
  pub set_baudrate : Option (ℕ → W → W)
  pub send : Option (List ℕ → ℕ → W → ℤ × W)
  pub recv_byte : Option (W → ℤ × ℕ × W)
  pub set_cq_line : Option (ℕ → W → W)
  pub get_voltage_mv : Option (W → ℤ × W)
  pub is_short_circuit : Option (W → Bool × W)

-- `iolink_master_config_t`
pub record Config (W : Type 0) : Type 0 where
  pub port_mode : ℕ
  pub m_seq_type : ℕ
  pub baudrate : ℕ
  pub min_cycle_time : ℕ
  pub pd_in_len : ℕ
  pub pd_out_len : ℕ
  pub auto_baudrate : Bool
  pub validate_device_info : Bool
  pub inspection_level : ℕ
  pub expected_vendor_id : ℕ
  pub expected_device_id : ℕ
  pub response_timeout_100us : ℕ
  pub t_dmt_tbit : ℕ
  pub t_dwu_100us : ℕ
  pub wake_retry_limit : ℕ
  pub t_sd_100us : ℕ
  pub event_pending_handler : Option (W → W)
  pub event_handler : Option (Event → W → W)
  pub set_mode_checked : Option (ℕ → W → ℤ × W)
  pub set_baudrate_checked : Option (ℕ → W → ℤ × W)
  pub read_cq_line_checked : Option (W → ℤ × W)
  pub flush_rx : Option (W → ℤ × W)
  pub prepare_tx : Option (W → ℤ × W)
  pub prepare_rx : Option (W → ℤ × W)
  pub read_cq_line : Option (W → ℤ × W)
  pub wake_up : Option (W → ℤ × W)
