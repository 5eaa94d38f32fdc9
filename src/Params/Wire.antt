-- ===== src/Params/Wire.antt =====
-- src/master_parameters.c: the MinCycleTime octet and the M-sequence control octet (MC).
use iolinki_master.Base.{
  ℕ, ◌+◌, ◌*◌, ◌/◌, ◌^◌, Bool, not, if◌then◌else◌, ◌==◌, bit_and, bit_or, u8, u16,
}
use iolinki_master.Iolinki.{Iolinki}

unfoldable pub decode_min_cycle_time_100us : ℕ → ℕ
decode_min_cycle_time_100us octet =
    let time_base = bit_and (octet / 2 ^ 6) 0x03 in
    let multiplier = bit_and octet 0x3f in
    if time_base == 0
    then multiplier
    else if time_base == 1
    then u16 (64 + multiplier * 4)
    else if time_base == 2
    then u16 (320 + multiplier * 16)
    else octet

module _ (L : Iolinki) where
  unfoldable pub encode_master_command : Bool → ℕ → ℕ → ℕ
  encode_master_command read channel address =
      let mc = u8 (bit_and address L.mc_addr_mask) in
      let mc' = u8 (bit_or mc (bit_and (u8 (channel * 2 ^ 5)) L.mc_comm_channel_mask)) in
      if read then u8 (bit_or mc' L.mc_rw_mask) else mc'

  unfoldable pub mc_is_read : ℕ → Bool
  mc_is_read mc = not (bit_and mc L.mc_rw_mask == 0)

  unfoldable pub mc_channel : ℕ → ℕ
  mc_channel mc = bit_and mc L.mc_comm_channel_mask / 2 ^ 5

  unfoldable pub mc_address : ℕ → ℕ
  mc_address mc = u8 (bit_and mc L.mc_addr_mask)
