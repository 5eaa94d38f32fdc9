-- ===== src/Isdu/Request.antt =====
-- The request that src/master_isdu.c stages, read back by an independent decoder of the octet
-- stream (A.5: I-Service, Length or ExtLength, Index, Subindex, Data, CHKPDU).
use iolinki_master.Base.{
  ℕ, zero, suc, ◌+◌, ◌-◌, ◌*◌, ◌/◌, ◌^◌, ◌%◌, ◌≤◌, ◌<◌, ◌≡◌, refl, ap, ◌∙◌, inl, inr, Bool, true,
  false, Bool-cases, if◌then◌else◌, ◌==◌, leb, bit_and, bit_or, bit_xor, u8, Option, none, some,
  List, [], ◌∷◌, ◌++◌, length, take, drop, take-append, set-append, take-suc_append, drop-cons,
  arith,
}
use iolinki_master.Bytes.{Octets, xor_self, xor-lt, by_table2}
use iolinki_master.Types.State.{Isdu}
use iolinki_master.Iolinki.{Iolinki}
use iolinki_master.Isdu.Transport.{chkpdu_from, isdu_chkpdu, isdu_index_len}
use iolinki_master.Isdu.Service.{copy_at, index_octets, seal_request, stage_read}

pub chkpdu_from-append :
    (chk : ℕ) (xs ys : List ℕ) → chkpdu_from chk (xs ++ ys) ≡ chkpdu_from (chkpdu_from chk xs) ys
unfolding chkpdu_from
chkpdu_from-append chk [] ys = refl
chkpdu_from-append chk (x ∷ xs) ys = chkpdu_from-append (bit_xor chk x) xs ys

pub chkpdu_from-lt : (chk : ℕ) (xs : List ℕ) → chk < 256 → Octets xs → chkpdu_from chk xs < 256
unfolding chkpdu_from
chkpdu_from-lt chk [] h o = h
chkpdu_from-lt chk (x ∷ xs) h o = chkpdu_from-lt (bit_xor chk x) xs (xor-lt chk x h o.0) o.1

-- A stream with its checksum behind it has the checksum 0.
pub chkpdu_sealed : (xs : List ℕ) → Octets xs → chkpdu_from 0 (xs ++ (chkpdu_from 0 xs ∷ [])) ≡ 0
chkpdu_sealed xs o =
    chkpdu_from-append 0 xs (chkpdu_from 0 xs ∷ [])
    ∙ unfold chkpdu_from in xor_self (chkpdu_from 0 xs) (chkpdu_from-lt 0 xs (omega arith) o)

-- The staged buffer begins with the octets and their checksum.
pub take-seal_request :
    (buf octets : List ℕ)
    → length octets < length buf
    → take (suc (length octets)) (seal_request buf octets) ≡ octets ++ (chkpdu_from 0 octets ∷ [])
unfolding seal_request copy_at isdu_chkpdu
take-seal_request buf octets h =
    let (y, ys, e) = drop-cons (length octets) buf h in
    let shift : drop (0 + length octets) buf ≡ y ∷ ys = ap (λ n. drop n buf) (omega arith) ∙ e in
    rw (shift, take-append, set-append) (take-suc_append octets ys (chkpdu_from 0 octets))

-- What a device reads in a request.
pub record Request : Type 0 where
  pub read : Bool
  pub index : ℕ
  pub subindex : ℕ
  pub octets : List ℕ

abbrev pub all_but_last : List ℕ → List ℕ
all_but_last xs = take (length xs - 1) xs

-- Index and Subindex by their format, then the Data and the CHKPDU.
unfoldable pub decode_body : Bool → ℕ → List ℕ → Option Request
decode_body read (suc zero) (i ∷ rest) =
    some (record { read = read; index = i; subindex = 0; octets = all_but_last rest })
decode_body read (suc (suc zero)) (i ∷ s ∷ rest) =
    some (record { read = read; index = i; subindex = s; octets = all_but_last rest })
decode_body read (suc (suc (suc zero))) (hi ∷ lo ∷ s ∷ rest) =
    some (record { read = read; index = hi * 256 + lo; subindex = s; octets = all_but_last rest })
decode_body read _ _ = none

unfoldable pub decode_extended : ℕ → List ℕ → Option Request
unfolding decode_body
decode_extended service [] = none
decode_extended service (ext ∷ rest) =
    if ext == suc (suc (length rest)) then decode_body (leb 8 service) (service % 8) rest else none

unfoldable pub decode_checked : ℕ → List ℕ → Option Request
unfolding decode_body decode_extended
decode_checked b rest =
    if b % 16 == 1
    then decode_extended (b / 16) rest
    else if b % 16 == suc (length rest)
    then decode_body (leb 8 (b / 16)) (b / 16 % 8) rest
    else none

-- The decoder: the checksum over the whole stream is 0 and the declared length is its length.
unfoldable pub decode_request : List ℕ → Option Request
unfolding decode_checked
decode_request [] = none
decode_request (b ∷ rest) = if chkpdu_from 0 (b ∷ rest) == 0 then decode_checked b rest else none

decode_sealed :
    (b : ℕ) (rest : List ℕ)
    → Octets (b ∷ rest)
    → decode_request ((b ∷ rest) ++ (chkpdu_from 0 (b ∷ rest) ∷ []))
      ≡ decode_checked b (rest ++ (chkpdu_from 0 (b ∷ rest) ∷ []))
unfolding decode_request
decode_sealed b rest o = rw (chkpdu_sealed (b ∷ rest) o)

low_octet : (x : ℕ) → x < 65536 → bit_and x 0xff ≡ x % 256
low_octet x h =
    let split : x ≡ (x / 256) * 256 + x % 256 = omega arith in
    rw split (
      by_table2 (λ a b. bit_and (a * 256 + b) 0xff) (λ a b. (a * 256 + b) % 256) refl (x / 256)
        (x % 256) (omega arith) (omega arith))

module _ (index subindex : ℕ) (h : index < 65536) where
  short :
      leb index 0xff ≡ true
      → (subindex == 0) ≡ true
      → (isdu_index_len index subindex ≡ 1) × (index_octets index subindex ≡ index ∷ [])
  unfolding index_octets
  short low z = ground (arith, low_octet index h)

  medium :
      leb index 0xff ≡ true
      → (subindex == 0) ≡ false
      → (isdu_index_len index subindex ≡ 2) × (index_octets index subindex ≡ index ∷ subindex ∷ [])
  unfolding index_octets
  medium low nz = ground (arith, low_octet index h)

  long :
      leb index 0xff ≡ false
      → (isdu_index_len index subindex ≡ 3)
        × (index_octets index subindex ≡ (index / 256) ∷ (index % 256) ∷ subindex ∷ [])
  unfolding index_octets
  long high = ground (arith, low_octet index h)

  -- What holds of the three formats of the Index and Subindex octets holds of the ones staged.
  pub format_cases :
      (P : ℕ → List ℕ → Type 0)
      → (index < 256 → subindex ≡ 0 → P 1 (index ∷ []))
      → (index < 256 → P 2 (index ∷ subindex ∷ []))
      → P 3 ((index / 256) ∷ (index % 256) ∷ subindex ∷ [])
      → P (isdu_index_len index subindex) (index_octets index subindex)
  format_cases P one two three = elim (Bool-cases (leb index 0xff)) [
    | inl low ↦ elim (Bool-cases (subindex == 0)) [
      | inl z ↦ rw ((short low z).0, (short low z).1) (one (ground arith) (ground arith))
      | inr nz ↦ rw ((medium low nz).0, (medium low nz).1) (two (ground arith))
    ]
    | inr high ↦ rw ((long high).0, (long high).1) three
  ]

abbrev read_request : ℕ → ℕ → Request
read_request index subindex = record {
  read = true;
  index = index;
  subindex = subindex;
  octets = [];
}

-- A staged stream, decoded.
pub staged :
    (buf : List ℕ) (b : ℕ) (rest : List ℕ) (r : Option Request)
    → Octets (b ∷ rest)
    → suc (length rest) < length buf
    → decode_checked b (rest ++ (chkpdu_from 0 (b ∷ rest) ∷ [])) ≡ r
    → decode_request (take (suc (suc (length rest))) (seal_request buf (b ∷ rest))) ≡ r
staged buf b rest r o h e = rw (take-seal_request buf (b ∷ rest) h) (decode_sealed b rest o ∙ e)

-- The staged Read Request as a function of the format.
abbrev read_stream : List ℕ → ℕ → List ℕ → List ℕ
read_stream buf n xs =
    take (u8 (1 + n + 1))
      (seal_request buf (u8 (bit_or (u8 (0x08 + n) * 2 ^ 4) (bit_and (u8 (1 + n + 1)) 15)) ∷ xs))

read_stream_staged :
    (L : Iolinki) (s : Isdu) (index subindex : ℕ)
    → take (stage_read L s index subindex).request_len (stage_read L s index subindex).request
      ≡ read_stream s.request (isdu_index_len index subindex) (index_octets index subindex)
unfolding stage_read
read_stream_staged L s index subindex = refl

module _ (buf : List ℕ) (index subindex : ℕ) (hi : index < 65536) (hs : subindex < 256)
    (hb : 6 ≤ length buf) where
  read_decodes :
      decode_request (read_stream buf (isdu_index_len index subindex) (index_octets index subindex))
      ≡ some (read_request index subindex)
  unfolding decode_checked
  read_decodes =
      format_cases index subindex hi
        (λ n xs. decode_request (read_stream buf n xs) ≡ some (read_request index subindex))
        (λ lt z. staged buf 147 (index ∷ []) _ (omega arith) (omega arith) (ground arith))
        (λ lt. staged buf 164 (index ∷ subindex ∷ []) _ (omega arith) (omega arith) (ground arith))
        (staged buf 181 ((index / 256) ∷ (index % 256) ∷ subindex ∷ []) _ (omega arith)
          (omega arith) (ground arith))

-- A device that decodes the Read Request staged by `read_isdu` gets back the index and the
-- subindex that the caller asked for: the declared length is the length of the stream and the
-- checksum over it is 0. The buffer holds at least six octets.
pub decode-stage_read :
    (L : Iolinki) (s : Isdu) (index subindex : ℕ)
    → index < 65536
    → subindex < 256
    → 6 ≤ length s.request
    → decode_request
        (take (stage_read L s index subindex).request_len (stage_read L s index subindex).request)
      ≡ some (record { read = true; index = index; subindex = subindex; octets = [] })
decode-stage_read L s index subindex hi hs hb =
    rw (read_stream_staged L s index subindex) (read_decodes s.request index subindex hi hs hb)
