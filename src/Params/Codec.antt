-- ===== src/Params/Codec.antt =====
-- The control octet and the MinCycleTime octet of src/master_parameters.c, decoded and encoded.
use iolinki_master.Base.{
  ℕ, ◌+◌, ◌-◌, ◌*◌, ◌/◌, ◌^◌, ◌<◌, ◌≡◌, refl, Bool, true, false, ◌&&◌, arith, ◌==◌, if◌then◌else◌,
  ltb, not, bit_and, bit_or, u8,
}
use iolinki_master.Bytes.{all_below, all_below_sound, by_table}
use iolinki_master.Iolinki.{Iolinki}
use iolinki_master.Params.Wire.{
  decode_min_cycle_time_100us, encode_master_command, mc_is_read, mc_channel, mc_address,
}

-- The fields of the control octet: bit 7 for the direction, bits 5-6 for the channel and bits 0-4
-- for the address.
pub record IsSpecMc (L : Iolinki) : Type 0 where
  pub rw : L.mc_rw_mask ≡ 0x80
  pub channel : L.mc_comm_channel_mask ≡ 0x60
  pub address : L.mc_addr_mask ≡ 0x1f

-- The encoding and the decoding at these masks.
encode_at : Bool → ℕ → ℕ → ℕ
encode_at read channel address =
    let mc = u8 (bit_or (u8 (bit_and address 0x1f)) (bit_and (u8 (channel * 2 ^ 5)) 0x60)) in
    if read then u8 (bit_or mc 0x80) else mc

encode-at :
    {L : Iolinki} (read : Bool) (channel address : ℕ)
    → IsSpecMc L
    → encode_master_command L read channel address ≡ encode_at read channel address
unfolding encode_master_command encode_at
encode-at read channel address m = rw (m.rw, m.channel, m.address)

-- All the fields come back, as one test.
fields_back : Bool → ℕ → ℕ → Bool
unfolding encode_at
fields_back read channel address =
    let mc = encode_at read channel address in
    (bit_and mc 0x60 / 2 ^ 5 == channel)
    && (u8 (bit_and mc 0x1f) == address)
    && (if read then not (bit_and mc 0x80 == 0) else bit_and mc 0x80 == 0)
    && (mc == (if read then 128 else 0) + channel * 32 + address)

table : Bool → Bool
table read = all_below 4 (λ channel. all_below 32 (λ address. fields_back read channel address))

table_holds : (read : Bool) → table read ≡ true
unfolding table fields_back
table_holds true = refl
table_holds false = refl

back :
    (read : Bool) (channel address : ℕ)
    → channel < 4
    → address < 32
    → fields_back read channel address ≡ true
unfolding table
back read channel address hc ha =
    all_below_sound 32 (λ a. fields_back read channel a) address
      (all_below_sound 4 (λ c. all_below 32 (λ a. fields_back read c a)) channel (table_holds read)
        hc)
      ha

-- The direction, the channel and the address that the master encodes in a control octet are the
-- ones that its decoding functions read back, for every channel of the wire and every address of
-- five bits; and the octet is the sum of the three fields.
pub mc-encode_master_command :
    (L : Iolinki) (read : Bool) (channel address : ℕ)
    → IsSpecMc L
    → channel < 4
    → address < 32
    → (mc_is_read L (encode_master_command L read channel address) ≡ read)
      × (mc_channel L (encode_master_command L read channel address) ≡ channel)
      × (mc_address L (encode_master_command L read channel address) ≡ address)
      × (encode_master_command L read channel address
          ≡ (if read then 128 else 0) + channel * 32 + address)
unfolding mc_is_read mc_channel mc_address
mc-encode_master_command L read channel address m hc ha =
    rw (encode-at read channel address m, m.rw, m.channel, m.address)
      (unfold fields_back in ground (arith, back read channel address hc ha))

-- The duration of a MinCycleTime octet, by the ranges of the specification.
unfoldable pub min_cycle_ranges : ℕ → ℕ
min_cycle_ranges octet =
    if ltb octet 64
    then octet
    else if ltb octet 128
    then 64 + (octet - 64) * 4
    else if ltb octet 192
    then 320 + (octet - 128) * 16
    else octet

-- Every MinCycleTime octet is decoded as its range prescribes: 0.1 ms steps up to 6.3 ms, 0.4 ms
-- steps from 6.4 ms, 1.6 ms steps from 32.0 ms, and the raw octet in the reserved range.
pub decode_min_cycle_time_ranges :
    (octet : ℕ) → octet < 256 → decode_min_cycle_time_100us octet ≡ min_cycle_ranges octet
unfolding decode_min_cycle_time_100us min_cycle_ranges
decode_min_cycle_time_ranges =
    by_table (λ x. decode_min_cycle_time_100us x) (λ x. min_cycle_ranges x) refl

-- Outside the reserved range a larger octet stands for a longer time.
pub decode_min_cycle_time_mono :
    (a b : ℕ) → a < b → b < 192 → decode_min_cycle_time_100us a < decode_min_cycle_time_100us b
decode_min_cycle_time_mono a b h hb =
    rw (decode_min_cycle_time_ranges a (omega arith), decode_min_cycle_time_ranges b (omega arith))
      (unfold min_cycle_ranges in ground arith)
