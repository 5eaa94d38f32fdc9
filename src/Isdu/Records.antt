-- ===== src/Isdu/Records.antt =====
-- The Data Storage image of src/master_isdu.c as a list of records, and the walk over it.
use iolinki_master.Base.{
  append_assoc, ℕ, zero, suc, ◌+◌, ◌-◌, ◌≤◌, ◌<◌, ◌≡◌, refl, sym, ap, ◌∙◌, true, false, ltb, u8,
  some, List, [], ◌∷◌, ◌++◌, get_or, drop, length, length-append, take-append, drop-append, arith,
}
use iolinki_master.Types.Limits.{ds_record_header_len}
use iolinki_master.Isdu.Segments.{drop-drop}
use iolinki_master.Isdu.DataStorage.{ds_next_record, ds_valid_from}

-- A record of the image: an index, a subindex and a value.
pub record DsRecord : Type 0 where
  pub index_high : ℕ
  pub index_low : ℕ
  pub subindex : ℕ
  pub value : List ℕ

-- Its octets: three of the header, the length of the value, the value.
unfoldable pub encode : DsRecord → List ℕ
encode r = r.index_high ∷ r.index_low ∷ r.subindex ∷ length r.value ∷ r.value

unfoldable pub encode_all : List DsRecord → List ℕ
encode_all [] = []
encode_all (r ∷ rs) = encode r ++ encode_all rs

get_or-drop : (n i : ℕ) (xs : List ℕ) (d : ℕ) → get_or (drop n xs) i d ≡ get_or xs (n + i) d
get_or-drop zero i xs d = ap (λ k. get_or xs k d) (omega arith)
get_or-drop (suc n) i [] d = refl
get_or-drop (suc n) i (x ∷ xs) d =
    let e : suc n + i ≡ suc (n + i) = omega arith in
    get_or-drop n i xs d ∙ sym (ap (λ k. get_or (x ∷ xs) k d) e)

pub length-encode : (r : DsRecord) → length (encode r) ≡ 4 + length r.value
unfolding encode
length-encode r = omega arith

module _ (octets : List ℕ) (len at : ℕ) (r : DsRecord) (tail : List ℕ)
    (here : drop at octets ≡ encode r ++ tail) (room : at + length (encode r) ≤ len)
    (small : len < 256) where
  value_len_lem : get_or octets (u8 (at + (ds_record_header_len - 1))) 0 ≡ length r.value
  unfolding encode
  value_len_lem =
      let e : u8 (at + (ds_record_header_len - 1)) ≡ at + 3 =
        omega (arith, room, length-encode r) in
      ap (λ k. get_or octets k 0) e
      ∙ sym (get_or-drop at 3 octets 0)
      ∙ ap (λ xs. get_or xs 3 0) here

  -- The walk finds a record that stands at its cursor.
  ds_next_record-encode :
      ds_next_record octets len at ≡ some (encode r, length (encode r), at + length (encode r))
  unfolding ds_next_record
  ds_next_record-encode =
      let el : length (encode r) ≡ 4 + length r.value = length-encode r in
      let el' : u8 (ds_record_header_len + length r.value) ≡ length (encode r) =
        omega (arith, el, room) in
      let en : u8 (at + length (encode r)) ≡ at + length (encode r) = omega (arith, room) in
      rw (value_len_lem, el', en, here, take-append (encode r) tail)
        (ground (arith, el, room, small))

  ds_drop-next : drop (at + length (encode r)) octets ≡ tail
  ds_drop-next =
      sym (drop-drop at (length (encode r)) (at + length (encode r)) octets refl)
      ∙ ap (λ xs. drop (length (encode r)) xs) here
      ∙ drop-append (encode r) tail

-- The records from the cursor on, up to the end of the image; behind it stands what else the
-- buffer holds.
pub record IsRecords (octets : List ℕ) (len at : ℕ) (rs : List DsRecord) (junk : List ℕ)
    : Type 0 where
  pub from : drop at octets ≡ encode_all rs ++ junk
  pub end : at + length (encode_all rs) ≡ len
  pub small : len < 256

module _ (octets : List ℕ) (len at : ℕ) (r : DsRecord) (rs : List DsRecord) (junk : List ℕ)
    (h : IsRecords octets len at (r ∷ rs) junk) where
  length-cons : length (encode_all (r ∷ rs)) ≡ length (encode r) + length (encode_all rs)
  unfolding encode_all
  length-cons = length-append (encode r) (encode_all rs)

  cons-from : drop at octets ≡ encode r ++ (encode_all rs ++ junk)
  unfolding encode_all
  cons-from = h.from ∙ append_assoc (encode r) (encode_all rs) junk

  cons-room : at + length (encode r) ≤ len
  cons-room = omega (arith, h.end, length-cons)

  pub next-cons :
      ds_next_record octets len at ≡ some (encode r, length (encode r), at + length (encode r))
  next-cons =
      ds_next_record-encode octets len at r (encode_all rs ++ junk) cons-from cons-room h.small

  pub IsRecords-cons : IsRecords octets len (at + length (encode r)) rs junk
  IsRecords-cons = record {
    from = ds_drop-next octets len at r (encode_all rs ++ junk) cons-from cons-room h.small;
    end = omega (arith, h.end, length-cons);
    small = h.small;
  }

  pub before : ltb at len ≡ true
  before = ground (arith, cons-room, length-encode r)

module _ (octets : List ℕ) (len : ℕ) (junk : List ℕ) where
  pub IsRecords-nil : (at : ℕ) → IsRecords octets len at [] junk → ltb at len ≡ false
  unfolding encode_all
  IsRecords-nil at h = ground (arith, h.end)

  pub valid-records :
      (fuel at : ℕ) (rs : List DsRecord)
      → IsRecords octets len at rs junk
      → length rs < fuel
      → ds_valid_from fuel octets len at ≡ some true
  unfolding ds_valid_from
  valid-records zero at rs h f = absurd (omega arith)
  valid-records (suc fuel) at [] h f = rw (ds_valid_from, IsRecords-nil at h)
  valid-records (suc fuel) at (r ∷ rs) h f =
      rw (ds_valid_from, before octets len at r rs junk h, next-cons octets len at r rs junk h)
        (valid-records fuel (at + length (encode r)) rs (IsRecords-cons octets len at r rs junk h)
          (omega arith))
