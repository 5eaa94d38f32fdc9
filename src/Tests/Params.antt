-- ===== src/Tests/Params.antt =====
-- The wire format and the Direct Parameter Page of src/master_parameters.c at the test device.
use iolinki_master.Base.{
  ℕ, ◌≡◌, refl, true, false, not, ◌&&◌, if◌then◌else◌, ◌==◌, ltb, some, arith,
}
use iolinki_master.Types.Codes.{status_ok, param_err_revision, param_err_cycle_time}
use iolinki_master.Types.State.{DeviceInfo}
use iolinki_master.Types.Config.{Config}
use iolinki_master.Types.Zero.{zero_device_info}
use iolinki_master.Params.Wire.{
  encode_master_command, mc_is_read, mc_channel, mc_address, decode_min_cycle_time_100us,
}
use iolinki_master.Params.Codec.{
  mc-encode_master_command, decode_min_cycle_time_ranges, min_cycle_ranges,
}
use iolinki_master.Params.Capability.{
  decode_pd_descriptor, pd_descriptor_is_reserved, mseq_capability_code,
  mseq_type_from_capability_code,
}
use iolinki_master.Params.Page1.{
  page1_info, parse_direct_parameter_page1, check_identity, validate_config_against_device_info,
  select_config_from_device_info,
}
use iolinki_master.Params.Selection.{validate-select, init-select}
use iolinki_master.Port.Init.{config_refused}
use iolinki_master.Tests.Instance.{wire, setup, page, no_info}

mc-encode_master_command_example :
    (mc_is_read wire (encode_master_command wire true 3 5) ≡ true)
    × (mc_channel wire (encode_master_command wire true 3 5) ≡ 3)
    × (mc_address wire (encode_master_command wire true 3 5) ≡ 5)
    × (encode_master_command wire true 3 5 ≡ 229)
mc-encode_master_command_example =
    mc-encode_master_command wire true 3 5 (record { rw = refl; channel = refl; address = refl })
      (omega arith) (omega arith)

decode_min_cycle_time_ranges_example : decode_min_cycle_time_100us 0x90 ≡ min_cycle_ranges 0x90
decode_min_cycle_time_ranges_example = decode_min_cycle_time_ranges 0x90 (omega arith)

-- The information read from the page.
abbrev info : DeviceInfo
unfolding page1_info zero_device_info no_info
info = page1_info page

parsed : parse_direct_parameter_page1 (some page) 16 no_info ≡ (status_ok, info)
unfolding parse_direct_parameter_page1 page1_info zero_device_info no_info pd_descriptor_is_reserved
    decode_pd_descriptor mseq_capability_code decode_min_cycle_time_100us
parsed = refl

abbrev selected : Config ℕ
unfolding select_config_from_device_info
selected = (select_config_from_device_info info setup).1

selects : select_config_from_device_info info setup ≡ (status_ok, selected)
unfolding select_config_from_device_info mseq_type_from_capability_code decode_pd_descriptor
    mseq_capability_code decode_min_cycle_time_100us info
selects = refl

validate-select_example : validate_config_against_device_info info selected ≡ (
    if not (info.revision_id == 0x10) && not (info.revision_id == 0x11)
    then param_err_revision
    else if ltb 255 info.min_cycle_time_100us
    then param_err_cycle_time
    else check_identity info selected)
validate-select_example = validate-select info setup selected selects

init-select_example : config_refused wire selected ≡ false
init-select_example =
    init-select wire page 16 no_info info setup selected (ground arith) parsed selects (omega arith)
      (omega arith) (omega arith) (omega arith)
