-- ===== src/Isdu/DataStorage.antt =====
-- src/master_isdu.c: the Data Storage image as a sequence of records, and the readback checks.
use iolinki_master.Base.{
  ℕ, zero, suc, ◌+◌, ◌-◌, ◌%◌, Bool, true, false, not, ◌&&◌, ◌||◌, if◌then◌else◌, ◌==◌, ltb, u8,
  sub8, Option, none, some, is_none, List, [], ◌∷◌, get_or, take, drop, ℤ, eq_ℤ,
}
use iolinki_master.Iolinki.{Iolinki}
use iolinki_master.Types.Codes.{status_ok, err_invalid_arg, isdu_err_verify_failed}
use iolinki_master.Types.Limits.{ds_record_header_len}
use iolinki_master.Types.State.{Port}
use iolinki_master.Isdu.Service.{service_result, octets_of, Reply, read_isdu, write_isdu}

-- `memcmp(a, b, n) == 0` on the first `n` octets, given as lists
unfoldable pub same_octets : List ℕ → List ℕ → Bool
same_octets [] [] = true
same_octets (x ∷ xs) (y ∷ ys) = x == y && same_octets xs ys
same_octets _ _ = false

-- The record at a cursor, its length and the cursor behind it; `none` is the result `false`.
unfoldable pub ds_next_record : List ℕ → ℕ → ℕ → Option (List ℕ × ℕ × ℕ)
ds_next_record octets len at =
    let value_len = get_or octets (u8 (at + (ds_record_header_len - 1))) 0 in
    let record_len = u8 (ds_record_header_len + value_len) in
    if ltb len at || ltb (sub8 len at) ds_record_header_len
    then none
    else if ltb ((len + 512 - at - ds_record_header_len) % 256) value_len
    then none
    else some (take record_len (drop at octets), record_len, u8 (at + record_len))

-- The inner loop: looks for the record `wanted` from the cursor on.
unfoldable pub ds_find : ℕ → List ℕ → ℕ → ℕ → List ℕ → ℕ → Option Bool
ds_find zero actual len at wanted wanted_len = none
ds_find (suc fuel) actual len at wanted wanted_len =
    if ltb at len
    then elim (ds_next_record actual len at) [
      | none ↦ some false
      | some (found, found_len, next) ↦
          let rest = ds_find fuel actual len next wanted wanted_len in
          if found_len == wanted_len && same_octets found wanted then some true else rest
    ]
    else some false

-- The outer loop: every record of `expected` from the cursor on.
unfoldable pub ds_contains_from : ℕ → List ℕ → ℕ → List ℕ → ℕ → ℕ → Option Bool
ds_contains_from zero actual actual_len expected expected_len at = none
ds_contains_from (suc fuel) actual actual_len expected expected_len at =
    if ltb at expected_len
    then elim (ds_next_record expected expected_len at) [
      | none ↦ some false
      | some (wanted, wanted_len, next) ↦
          elim (ds_find (suc actual_len) actual actual_len 0 wanted wanted_len) [
            | none ↦ none
            | some false ↦ some false
            | some true ↦ ds_contains_from fuel actual actual_len expected expected_len next
          ]
    ]
    else some true

-- Every record is at least four octets long, so the fuel is never used up. An empty option is a
-- loop that ran out of it.
unfoldable pub ds_image_contains_records : List ℕ → ℕ → Option (List ℕ) → ℕ → Option Bool
ds_image_contains_records actual actual_len expected expected_len =
    if is_none expected && ltb 0 expected_len
    then some false
    else ds_contains_from (suc expected_len) actual actual_len (octets_of expected) expected_len 0

unfoldable pub ds_valid_from : ℕ → List ℕ → ℕ → ℕ → Option Bool
ds_valid_from zero octets len at = none
ds_valid_from (suc fuel) octets len at =
    if ltb at len
    then elim (ds_next_record octets len at) [
      | none ↦ some false
      | some (found, found_len, next) ↦ ds_valid_from fuel octets len next
    ]
    else some true

unfoldable pub ds_image_is_valid : Option (List ℕ) → ℕ → Option Bool
ds_image_is_valid octets len =
    if is_none octets && ltb 0 len
    then some false
    else ds_valid_from (suc len) (octets_of octets) len 0

abbrev pub is_some_true : Option Bool → Bool
is_some_true (some true) = true
is_some_true _ = false

-- The comparison of the readback with what was expected.
unfoldable pub same_image : List ℕ → ℕ → List ℕ → ℕ → Bool
same_image octets read_len expected len =
    read_len == len && ((len == 0) || same_octets (take len octets) (take len expected))

-- The order-independent comparison, where both images are sequences of records.
unfoldable pub same_data_storage : List ℕ → ℕ → Option (List ℕ) → ℕ → Bool
same_data_storage octets read_len expected len =
    if is_some_true (ds_image_is_valid expected len)
      && is_some_true (ds_image_is_valid (some octets) read_len)
    then is_some_true (ds_image_contains_records octets read_len expected len)
    else same_image octets read_len (octets_of expected) len

module _ {W : Type 0} where
  unfoldable pub verify_result : Port W → Bool → ℤ × Port W
  unfolding service_result
  verify_result p same = service_result p (if same then status_ok else isdu_err_verify_failed)

module _ {W : Type 0} (L : Iolinki) where
  -- The local buffer has `isdu_buffer_size` octets and `read_len` starts at 255.
  unfoldable pub verify_isdu : Port W → ℕ → ℕ → Option (List ℕ) → ℕ → ℤ × Port W
  unfolding verify_result same_image
  verify_isdu p index subindex expected len =
      let reply = read_isdu L p index subindex 255 in
      if is_none expected && ltb 0 len
      then (err_invalid_arg, p)
      else if not (eq_ℤ reply.result status_ok)
      then (reply.result, reply.port)
      else verify_result reply.port (same_image reply.octets reply.len (octets_of expected) len)

  unfoldable pub verify_data_storage : Port W → Option (List ℕ) → ℕ → ℤ × Port W
  unfolding verify_result same_data_storage
  verify_data_storage p expected len =
      let reply = read_isdu L p L.idx_data_storage 0 255 in
      if is_none expected && ltb 0 len
      then (err_invalid_arg, p)
      else if not (eq_ℤ reply.result status_ok)
      then (reply.result, reply.port)
      else verify_result reply.port (same_data_storage reply.octets reply.len expected len)

  unfoldable pub read_data_storage : Port W → ℕ → Reply W
  read_data_storage p len = read_isdu L p L.idx_data_storage 0 len

  unfoldable pub write_data_storage : Port W → Option (List ℕ) → ℕ → ℤ × Port W
  write_data_storage p octets len = write_isdu L p L.idx_data_storage 0 octets len

  unfoldable pub read_detailed_device_status : Port W → ℕ → Reply W
  read_detailed_device_status p len = read_isdu L p L.idx_detailed_device_status 0 len
