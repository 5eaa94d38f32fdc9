-- ===== src/Isdu/Restore.antt =====
-- The comparison of Data Storage images in src/master_isdu.c decides whether records are contained.
use iolinki_master.Base.{
  ℕ, zero, suc, ◌+◌, ◌≤◌, ◌<◌, ◌≡◌, refl, ap, Bool, true, false, ◌&&◌, ◌⊎◌, ◌↔◌, if◌then◌else◌,
  ◌==◌, none, some, List, [], ◌∷◌, ◌++◌, length, length-append, arith,
}
use iolinki_master.Isdu.DataStorage.{
  same_octets, ds_find, ds_contains_from, ds_image_contains_records, ds_image_is_valid,
  same_data_storage, is_some_true,
}
use iolinki_master.Isdu.Records.{
  DsRecord, encode, encode_all, length-encode, IsRecords, next-cons, IsRecords-cons, before,
  IsRecords-nil, valid-records,
}

-- Whether a record occurs in a list of records, and whether all of a list do.
unfoldable pub occurs : DsRecord → List DsRecord → Bool
occurs r [] = false
occurs r (a ∷ held) = if same_octets (encode a) (encode r) then true else occurs r held

unfoldable pub all_occur : List DsRecord → List DsRecord → Bool
all_occur held [] = true
all_occur held (e ∷ es) = if occurs e held then all_occur held es else false

same-length : (xs ys : List ℕ) → same_octets xs ys ≡ true → length xs ≡ length ys
unfolding same_octets
same-length [] [] h = refl
same-length [] (y ∷ ys) h = absurd (cc)
same-length (x ∷ xs) [] h = absurd (cc)
same-length (x ∷ xs) (y ∷ ys) h = ap suc (same-length xs ys (ground (arith, h)))

same_test : (xs ys : List ℕ) → ((length xs == length ys) && same_octets xs ys) ≡ same_octets xs ys
same_test xs ys = ground (arith, same-length xs ys)

module _ (octets : List ℕ) (len : ℕ) (junk : List ℕ) (r : DsRecord) where
  find-occurs :
      (fuel at : ℕ) (held : List DsRecord)
      → IsRecords octets len at held junk
      → length held < fuel
      → ds_find fuel octets len at (encode r) (length (encode r)) ≡ some (occurs r held)
  unfolding ds_find occurs
  find-occurs zero at held h f = absurd (omega arith)
  find-occurs (suc fuel) at [] h f = rw (ds_find, IsRecords-nil octets len junk at h, occurs)
  find-occurs (suc fuel) at (a ∷ held) h f =
      rw
        (
          ds_find,
          before octets len at a held junk h,
          next-cons octets len at a held junk h,
          same_test (encode a) (encode r),
          find-occurs fuel (at + length (encode a)) held
              (IsRecords-cons octets len at a held junk h) (omega arith),
          occurs,
        )
        (found (same_octets (encode a) (encode r)))
    where
      found :
          (b : Bool)
          → (if b then some true else some (occurs r held))
            ≡ some (if b then true else occurs r held)
      found true = refl
      found false = refl

length-le-encode_all : (rs : List DsRecord) → length rs ≤ length (encode_all rs)
unfolding encode_all
length-le-encode_all [] = omega arith
length-le-encode_all (r ∷ rs) =
    omega
      (arith, length-append (encode r) (encode_all rs), length-encode r, length-le-encode_all rs)

-- Both images are sequences of records.
module _ (octets expected : List ℕ) (len expected_len : ℕ) (junk expected_junk : List ℕ)
    (held : List DsRecord) where
  contains-records :
      (fuel at : ℕ) (wanted : List DsRecord)
      → IsRecords octets len 0 held junk
      → IsRecords expected expected_len at wanted expected_junk
      → length wanted < fuel
      → ds_contains_from fuel octets len expected expected_len at ≡ some (all_occur held wanted)
  unfolding ds_contains_from all_occur
  contains-records zero at wanted h w f = absurd (omega arith)
  contains-records (suc fuel) at [] h w f =
      rw (ds_contains_from, IsRecords-nil expected expected_len expected_junk at w)
  contains-records (suc fuel) at (e ∷ wanted) h w f =
      rw
        (
          ds_contains_from,
          before expected expected_len at e wanted expected_junk w,
          next-cons expected expected_len at e wanted expected_junk w,
          find-occurs octets len junk e (suc len) 0 held h
              (omega (arith, h.end, length-le-encode_all held)),
        )
        (decided (occurs e held) (
          contains-records fuel (at + length (encode e)) wanted h
            (IsRecords-cons expected expected_len at e wanted expected_junk w) (omega arith)))
    where
      decided :
          (b : Bool)
          → ds_contains_from fuel octets len expected expected_len (at + length (encode e))
            ≡ some (all_occur held wanted)
          → (elim (some b) [
            | none ↦ none
            | some false ↦ some false
            | some true ↦
                ds_contains_from fuel octets len expected expected_len (at + length (encode e))
          ])
            ≡ some (if b then all_occur held wanted else false)
      decided true rest = rest
      decided false rest = refl

some_true : (b : Bool) → is_some_true (some b) ≡ b
some_true true = refl
some_true false = refl

-- An image is what is at the start of a buffer.
image-IsRecords :
    (rs : List DsRecord) (junk : List ℕ)
    → length (encode_all rs) < 256
    → IsRecords (encode_all rs ++ junk) (length (encode_all rs)) 0 rs junk
image-IsRecords rs junk h = record { from = refl; end = omega arith; small = h }

module _ (held wanted : List DsRecord) (junk expected_junk : List ℕ)
    (short : length (encode_all held) < 256)
    (expected_short : length (encode_all wanted) < 256) where
  -- The comparison of a readback with an expected image, both of them sequences of records, tests
  -- whether every expected record occurs in the readback.
  same_data_storage-all_occur :
      same_data_storage
        (encode_all held ++ junk)
        (length (encode_all held))
        (some (encode_all wanted ++ expected_junk))
        (length (encode_all wanted))
      ≡ all_occur held wanted
  unfolding same_data_storage ds_image_is_valid ds_image_contains_records
  same_data_storage-all_occur =
      let h = image-IsRecords held junk short in
      let w = image-IsRecords wanted expected_junk expected_short in
      let fh : length held < suc (length (encode_all held)) =
        omega (arith, length-le-encode_all held) in
      let fw : length wanted < suc (length (encode_all wanted)) =
        omega (arith, length-le-encode_all wanted) in
      rw
        (
          valid-records _ _ expected_junk _ 0 wanted w fw,
          valid-records _ _ junk _ 0 held h fh,
          contains-records _ _ _ _ junk expected_junk held _ 0 wanted h w fw,
        )
        (some_true (all_occur held wanted))

same_octets_iff : (xs ys : List ℕ) → (same_octets xs ys ≡ true) ↔ (xs ≡ ys)
unfolding same_octets
same_octets_iff [] [] = (λ h. refl, λ h. refl)
same_octets_iff [] (y ∷ ys) = (λ h. cc, λ h. cc)
same_octets_iff (x ∷ xs) [] = (λ h. cc, λ h. cc)
same_octets_iff (x ∷ xs) (y ∷ ys) = ground (arith, same_octets_iff xs ys)

same_encode_iff : (a r : DsRecord) → (same_octets (encode a) (encode r) ≡ true) ↔ (a ≡ r)
unfolding encode
same_encode_iff a r = ground (arith, same_octets_iff (encode a) (encode r))

-- The record is one of the list.
abbrev pub IsIn : DsRecord → List DsRecord → Type 0
IsIn r [] = ⊥
IsIn r (a ∷ held) = (a ≡ r) ⊎ IsIn r held

-- All of the records are among those of the list.
abbrev pub AreIn : List DsRecord → List DsRecord → Type 0
AreIn [] held = Unit
AreIn (r ∷ rs) held = IsIn r held × AreIn rs held

occurs_iff : (r : DsRecord) (held : List DsRecord) → (occurs r held ≡ true) ↔ IsIn r held
unfolding occurs
occurs_iff r [] = (λ h. absurd (cc), λ h. absurd h)
occurs_iff r (a ∷ held) = ground (arith, same_encode_iff a r, occurs_iff r held)

all_occur_iff : (held wanted : List DsRecord) → (all_occur held wanted ≡ true) ↔ AreIn wanted held
unfolding all_occur
all_occur_iff held [] = (λ h. tt, λ h. refl)
all_occur_iff held (e ∷ wanted) = ground (arith, occurs_iff e held, all_occur_iff held wanted)

-- For two images of at most 255 octets that are sequences of records, whatever stands behind them
-- in their buffers, the comparison of the readback with the expected image succeeds exactly if
-- every expected record is in the readback, in any order; records that were not expected do not
-- matter.
pub same_data_storage_iff :
    (held wanted : List DsRecord) (junk expected_junk : List ℕ)
    → length (encode_all held) < 256
    → length (encode_all wanted) < 256
    → (same_data_storage
          (encode_all held ++ junk)
          (length (encode_all held))
          (some (encode_all wanted ++ expected_junk))
          (length (encode_all wanted))
        ≡ true)
      ↔ AreIn wanted held
same_data_storage_iff held wanted junk expected_junk short expected_short =
    rw (same_data_storage-all_occur held wanted junk expected_junk short expected_short)
      (all_occur_iff held wanted)
