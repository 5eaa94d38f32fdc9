-- ===== src/Params/Page1.antt =====
-- src/master_parameters.c: Direct Parameter Page 1, and the checks of a port configuration
-- against it.
use iolinki_master.Base.{
  ℕ, ◌*◌, ◌/◌, ◌^◌, true, not, ◌&&◌, ◌||◌, if◌then◌else◌, ◌==◌, ltb, bit_and, bit_or, u8, u16,
  Option, none, some, List, get_or, ℤ,
}
use iolinki_master.Types.Codes.{
  status_ok, status_pending, err_invalid_arg, param_err_too_short, param_err_revision,
  param_err_cycle_time, param_err_pd_size, param_err_m_sequence, param_err_vendor_id,
  param_err_device_id, param_err_pd_descriptor, inspection_no_check,
}
use iolinki_master.Types.Limits.{dpp1_len}
use iolinki_master.Types.Config.{Config}
use iolinki_master.Types.State.{DeviceInfo, Port}
use iolinki_master.Params.Wire.{decode_min_cycle_time_100us}
use iolinki_master.Params.Capability.{
  decode_pd_descriptor, pd_descriptor_is_reserved, mseq_code_compatible,
  mseq_type_from_capability_code,
}

-- The assignments to `*info`, on a page that is long enough.
unfoldable pub page1_info : List ℕ → DeviceInfo
page1_info page = record {
  valid = true;
  min_cycle_time = octet 0x02;
  min_cycle_time_100us = decode_min_cycle_time_100us (octet 0x02);
  mseq_capability = octet 0x03;
  isdu_supported = not (bit_and (octet 0x03) 0x01 == 0);
  operate_mseq_code = u8 (bit_and (octet 0x03 / 2 ^ 1) 0x07);
  preoperate_mseq_code = u8 (bit_and (octet 0x03 / 2 ^ 4) 0x03);
  revision_id = octet 0x04;
  pd_in_descriptor = octet 0x05;
  pd_out_descriptor = octet 0x06;
  pd_in_len = decode_pd_descriptor (octet 0x05);
  pd_out_len = decode_pd_descriptor (octet 0x06);
  vendor_id = u16 (bit_or (octet 0x07 * 2 ^ 8) (octet 0x08));
  device_id = bit_or (bit_or (octet 0x09 * 2 ^ 16) (octet 0x0a * 2 ^ 8)) (octet 0x0b);
}
  where
    octet : ℕ → ℕ
    octet i = get_or page i 0

-- The result and `*info` afterwards; `none` is a NULL `page`.
unfoldable pub parse_direct_parameter_page1 : Option (List ℕ) → ℕ → DeviceInfo → ℤ × DeviceInfo
parse_direct_parameter_page1 none len info = (err_invalid_arg, info)
parse_direct_parameter_page1 (some page) len info =
    if ltb len dpp1_len
    then (param_err_too_short, info)
    else if pd_descriptor_is_reserved (get_or page 0x05 0)
        || pd_descriptor_is_reserved (get_or page 0x06 0)
    then (param_err_pd_descriptor, info)
    else (status_ok, page1_info page)

-- The identity leg of the validation.
unfoldable pub check_identity : {W : Type 0} → DeviceInfo → Config W → ℤ
check_identity info config =
    if not (config.inspection_level == inspection_no_check)
    then (if not (info.vendor_id == config.expected_vendor_id)
        then param_err_vendor_id
        else if not (info.device_id == config.expected_device_id)
        then param_err_device_id
        else status_ok)
    else status_ok

unfoldable pub validate_config_against_device_info : {W : Type 0} → DeviceInfo → Config W → ℤ
unfolding check_identity
validate_config_against_device_info info config =
    if not info.valid
    then status_pending
    else if not (info.revision_id == 0x10) && not (info.revision_id == 0x11)
    then param_err_revision
    else if ltb config.min_cycle_time info.min_cycle_time_100us
    then param_err_cycle_time
    else if not (config.pd_in_len == info.pd_in_len) || not (config.pd_out_len == info.pd_out_len)
    then param_err_pd_size
    else if not (mseq_code_compatible config.m_seq_type info.operate_mseq_code)
    then param_err_m_sequence
    else check_identity info config

-- The result and `*config` afterwards.
unfoldable pub select_config_from_device_info : {W : Type 0} → DeviceInfo → Config W → ℤ × Config W
select_config_from_device_info info config =
    if not info.valid
    then (status_pending, config)
    else elim (mseq_type_from_capability_code info.operate_mseq_code info.isdu_supported
        info.pd_in_len info.pd_out_len) [
          | none ↦ (param_err_m_sequence, config)
          | some type ↦ (
            status_ok,
            record config {
              m_seq_type = type;
              min_cycle_time =
                  if ltb 255 info.min_cycle_time_100us then 255 else u8 info.min_cycle_time_100us;
              pd_in_len = info.pd_in_len;
              pd_out_len = info.pd_out_len;
            },
          )
        ]

module _ {W : Type 0} where
  unfoldable pub apply_direct_parameter_page1 : Port W → Option (List ℕ) → ℕ → ℤ × Port W
  apply_direct_parameter_page1 p page len =
      let (ret, info) = parse_direct_parameter_page1 page len p.device_info in
      (ret, record p { device_info = info })

  unfoldable pub get_device_info : Port W → ℤ × DeviceInfo
  get_device_info p =
      if not p.device_info.valid
      then (status_pending, p.device_info)
      else (status_ok, p.device_info)

  unfoldable pub validate_device_info : Port W → ℤ
  validate_device_info p = validate_config_against_device_info p.device_info p.config
