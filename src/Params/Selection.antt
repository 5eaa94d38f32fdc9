-- ===== src/Params/Selection.antt =====
-- Direct Parameter Page 1: what is decoded, and that a configuration derived from it is accepted.
use iolinki_master.Base.{
  ℕ, ◌+◌, ◌*◌, ◌≤◌, ◌<◌, ◌≡◌, refl, Bool, true, false, not, ◌&&◌, ◌||◌, List, some, get_or, arith,
  ◌==◌, ltb, if◌then◌else◌, leb,
}
use iolinki_master.Bytes.{Octets, get_or-lt, or_octets, all_below, all_below_sound}
use iolinki_master.Iolinki.{Iolinki}
use iolinki_master.Types.Codes.{
  status_ok, param_err_revision, param_err_cycle_time, m_seq_type_0, m_seq_type_2_v,
  port_mode_deactivated,
}
use iolinki_master.Types.Config.{Config}
use iolinki_master.Types.State.{DeviceInfo}
use iolinki_master.Params.Capability.{
  decode_pd_descriptor, pd_descriptor_is_reserved, mseq_code_compatible,
  mseq_type_from_capability_code,
}
use iolinki_master.Port.Init.{config_refused}
use iolinki_master.Params.Page1.{
  page1_info, parse_direct_parameter_page1, check_identity, validate_config_against_device_info,
  select_config_from_device_info,
}

-- Table B.6 by ranges: 0 bits to 16 bits, or 3 to 32 octets.
descriptor_ok : ℕ → Bool
descriptor_ok x = pd_descriptor_is_reserved x || leb (decode_pd_descriptor x) 32

descriptor_table : all_below 256 descriptor_ok ≡ true
unfolding descriptor_ok pd_descriptor_is_reserved decode_pd_descriptor
descriptor_table = refl

-- A descriptor that is not reserved stands for at most 32 octets.
pub decode_pd_descriptor-le :
    (x : ℕ) → x < 256 → pd_descriptor_is_reserved x ≡ false → decode_pd_descriptor x ≤ 32
unfolding descriptor_ok
decode_pd_descriptor-le x h r =
    ground (arith, all_below_sound 256 descriptor_ok x descriptor_table h)

module _ (page : List ℕ) (len : ℕ) (info out : DeviceInfo) (octets : Octets page)
    (parsed : parse_direct_parameter_page1 (some page) len info ≡ (status_ok, out)) where
  pub parse_lem :
      (16 ≤ len)
      × (pd_descriptor_is_reserved (get_or page 5 0) ≡ false)
      × (pd_descriptor_is_reserved (get_or page 6 0) ≡ false)
      × (out ≡ page1_info page)
      × (out.valid ≡ true)
      × (out.vendor_id ≡ get_or page 7 0 * 256 + get_or page 8 0)
      × (out.pd_in_len ≡ decode_pd_descriptor (get_or page 5 0))
      × (out.pd_out_len ≡ decode_pd_descriptor (get_or page 6 0))
      × (out.pd_in_len ≤ 32)
      × (out.pd_out_len ≤ 32)
  unfolding parse_direct_parameter_page1 page1_info
  parse_lem = ground (
    arith,
    get_or-lt page 5 octets,
    get_or-lt page 6 octets,
    get_or-lt page 7 octets,
    get_or-lt page 8 octets,
    or_octets (get_or page 7 0) (get_or page 8 0),
    decode_pd_descriptor-le (get_or page 5 0),
    decode_pd_descriptor-le (get_or page 6 0),
  )

-- What is selected is compatible with the capability that it was selected from.
type-compatible :
    (code : ℕ) (isdu : Bool) (pd_in pd_out : ℕ) {type : ℕ}
    → mseq_type_from_capability_code code isdu pd_in pd_out ≡ some type
    → (mseq_code_compatible type code ≡ true)
      × (type ≤ m_seq_type_2_v)
      × ((type ≡ m_seq_type_0) → (pd_in ≡ 0) × (pd_out ≡ 0))
unfolding mseq_type_from_capability_code mseq_code_compatible
type-compatible code isdu pd_in pd_out h = ground arith

-- A configuration that was selected from the device information passes the validation against the
-- same information, but for the revision, a minimum cycle time above 25.5 ms, and the identity,
-- which the selection does not decide.
pub validate-select :
    {W : Type 0} (info : DeviceInfo) (config out : Config W)
    → select_config_from_device_info info config ≡ (status_ok, out)
    → validate_config_against_device_info info out ≡ (
        if not (info.revision_id == 0x10) && not (info.revision_id == 0x11)
        then param_err_revision
        else if ltb 255 info.min_cycle_time_100us
        then param_err_cycle_time
        else check_identity info out)
unfolding select_config_from_device_info validate_config_against_device_info
validate-select info config out h = ground (
  arith,
  type-compatible info.operate_mseq_code info.isdu_supported info.pd_in_len info.pd_out_len
      {type = out.m_seq_type},
)

-- A configuration that was selected from an accepted page is accepted by the initialisation, if
-- the process-data buffers hold 32 octets and the rest of the configuration is in range.
pub init-select :
    {W : Type 0} (L : Iolinki) (page : List ℕ) (len : ℕ) (info info' : DeviceInfo)
    (config out : Config W)
    → Octets page
    → parse_direct_parameter_page1 (some page) len info ≡ (status_ok, info')
    → select_config_from_device_info info' config ≡ (status_ok, out)
    → 32 ≤ L.pd_in_max_size
    → 32 ≤ L.pd_out_max_size
    → config.baudrate ≤ L.baudrate_com3
    → config.port_mode ≤ port_mode_deactivated
    → config_refused L out ≡ false
unfolding select_config_from_device_info config_refused
init-select L page len info info' config out octets parsed selected hi ho hb hm = ground (
  arith,
  parse_lem page len info info' octets parsed,
  type-compatible info'.operate_mseq_code info'.isdu_supported info'.pd_in_len info'.pd_out_len
      {type = out.m_seq_type},
)
