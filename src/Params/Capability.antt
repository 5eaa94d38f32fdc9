-- ===== src/Params/Capability.antt =====
-- src/master_parameters.c and src/master_internal.h: ProcessData descriptors, M-sequence types and
-- their capability codes.
use iolinki_master.Base.{
  ℕ, ◌+◌, ◌-◌, ◌/◌, Bool, false, not, ◌&&◌, ◌||◌, if◌then◌else◌, ◌==◌, ltb, leb, bit_and, u8,
  Option, none, some,
}
use iolinki_master.Types.Codes.{
  m_seq_type_0, m_seq_type_1_1, m_seq_type_1_2, m_seq_type_1_v, m_seq_type_2_1, m_seq_type_2_2,
  m_seq_type_2_v,
}

unfoldable pub decode_pd_descriptor : ℕ → ℕ
decode_pd_descriptor descriptor =
    let len = bit_and descriptor 0x1f in
    if not (bit_and descriptor 0x80 == 0) then u8 (len + 1) else u8 ((len + (8 - 1)) / 8)

unfoldable pub pd_descriptor_is_reserved : ℕ → Bool
pd_descriptor_is_reserved descriptor =
    let len = bit_and descriptor 0x1f in
    if not (bit_and descriptor 0x80 == 0) then ltb len 2 else leb 17 len

unfoldable pub mseq_capability_code : ℕ → ℕ → ℕ
mseq_capability_code type od_len =
    if type == m_seq_type_1_2
    then 1
    else if type == m_seq_type_1_v
    then (if od_len == 32 then 7 else 6)
    else if type == m_seq_type_2_v
    then (if od_len == 1
        then 4
        else if od_len == 2
        then 5
        else if od_len == 8
        then 6
        else if od_len == 32
        then 7
        else 0)
    else 0

unfoldable pub mseq_code_compatible : ℕ → ℕ → Bool
mseq_code_compatible type code =
    if (type == m_seq_type_1_1) || (type == m_seq_type_1_2)
    then (code == 0) || (code == 1)
    else if (type == m_seq_type_0) || (type == m_seq_type_2_1) || (type == m_seq_type_2_2)
    then code == 0
    else if type == m_seq_type_1_v
    then (code == 6) || (code == 7)
    else if type == m_seq_type_2_v
    then leb 4 code && leb code 7
    else false

-- `none` is the `false` that leaves `*type` alone.
unfoldable pub mseq_type_from_capability_code : ℕ → Bool → ℕ → ℕ → Option ℕ
mseq_type_from_capability_code code isdu_supported pd_in_len pd_out_len =
    if code == 0
    then some (
        if (pd_in_len == 0) && (pd_out_len == 0)
        then m_seq_type_0
        else if isdu_supported
        then m_seq_type_2_2
        else m_seq_type_2_1)
    else if code == 1
    then some (if isdu_supported then m_seq_type_1_2 else m_seq_type_1_1)
    else if (code == 4) || (code == 6) || (code == 7)
    then some m_seq_type_2_v
    else if code == 5
    then some m_seq_type_2_v
    else none

-- The type bits of the CKT octet.
unfoldable pub ckt_type_bits : ℕ → ℕ
ckt_type_bits type =
    if (type == m_seq_type_1_1) || (type == m_seq_type_1_2) || (type == m_seq_type_1_v)
    then 0x40
    else if (type == m_seq_type_2_1) || (type == m_seq_type_2_2) || (type == m_seq_type_2_v)
    then 0x80
    else 0x00

unfoldable pub od_len_for_type : ℕ → ℕ
od_len_for_type type =
    if type == m_seq_type_1_2
    then 2
    else if type == m_seq_type_1_v
    then 8
    else if type == m_seq_type_2_v
    then 2
    else 1
