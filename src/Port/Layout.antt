-- ===== src/Port/Layout.antt =====
-- What a master message of src/master_port.c is on the wire.
use iolinki_master.Base.{
  append_assoc, ℕ, zero, suc, ◌+◌, ◌≤◌, ◌≡◌, refl, sym, ap, ◌∙◌, inl, inr, arith, if◌then◌else◌,
  ltb, bit_or, u8, List, [], ◌∷◌, ◌++◌, set, take, drop, length, length-append, length-take,
  length-drop, take-append, Bool-cases,
}
use iolinki_master.Iolinki.{Iolinki}
use iolinki_master.Types.State.{Port}
use iolinki_master.Params.Capability.{ckt_type_bits}
use iolinki_master.Isdu.Service.{copy_at}
use iolinki_master.Port.Frames.{fold_checksum, build_multi_frame}

-- The octets of a message: MC, CKT with the checksum of the message in which its own bits are 0,
-- and the rest.
unfoldable pub message : Iolinki → ℕ → ℕ → List ℕ → List ℕ
message L mc type rest =
    mc ∷ u8 (bit_or type (L.checksum6 (mc ∷ type ∷ rest) (2 + length rest))) ∷ rest

pub two_set : (tx : List ℕ) (a b : ℕ) → 2 ≤ length tx → set (set tx 0 a) 1 b ≡ a ∷ b ∷ drop 2 tx
two_set [] a b h = absurd (omega arith)
two_set (x ∷ []) a b h = absurd (omega arith)
two_set (x ∷ y ∷ tx) a b h = refl

take_front : (front rest : List ℕ) (n : ℕ) → n ≡ length front → take n (front ++ rest) ≡ front
take_front front rest n e = ap (λ k. take k (front ++ rest)) e ∙ take-append front rest

drop_front :
    (front rest : List ℕ) (n k : ℕ) → n ≡ length front + k → drop n (front ++ rest) ≡ drop k rest
drop_front [] rest n k e = ap (λ i. drop i rest) (omega (arith, e))
drop_front (x ∷ front) rest zero k e = absurd (omega (arith, e))
drop_front (x ∷ front) rest (suc n) k e = drop_front front rest n k (omega (arith, e))

copied :
    (a b n : ℕ) (front octets rest : List ℕ)
    → n ≡ 2 + length front
    → copy_at (a ∷ b ∷ (front ++ rest)) n octets
      ≡ a ∷ b ∷ (front ++ (octets ++ drop (length octets) rest))
unfolding copy_at
copied a b zero front octets rest e = absurd (omega (arith, e))
copied a b (suc zero) front octets rest e = absurd (omega (arith, e))
copied a b (suc (suc n)) front octets rest e =
    let whole : List ℕ = a ∷ b ∷ (front ++ rest) in
    let head : take (suc (suc n)) whole ≡ a ∷ b ∷ front =
      ap (λ xs. a ∷ b ∷ xs) (take_front front rest n (omega (arith, e))) in
    let tail : drop (suc (suc n) + length octets) whole ≡ drop (length octets) rest =
      drop_front (a ∷ b ∷ front) rest (suc (suc n) + length octets) (length octets)
        (omega (arith, e)) in
    ap (λ xs. (xs ++ octets) ++ drop (suc (suc n) + length octets) whole) head
    ∙ ap (λ xs. ((a ∷ b ∷ front) ++ octets) ++ xs) tail
    ∙ append_assoc (a ∷ b ∷ front) octets (drop (length octets) rest)

module _ {W : Type 0} (L : Iolinki) (p : Port W) (mc : ℕ) (od : List ℕ)
    (header : L.m_seq_header_len ≡ 2) (pd : p.pd_out_len ≤ length p.pd_out)
    (room : 2 + (p.pd_out_len + length od) ≤ length p.tx_buf) where
  abbrev payload : List ℕ
  payload = take p.pd_out_len p.pd_out

  abbrev type : ℕ
  type = ckt_type_bits p.config.m_seq_type

  abbrev rest : List ℕ
  rest = drop 2 p.tx_buf

  length-payload : length payload ≡ p.pd_out_len
  length-payload = omega (arith, length-take p.pd_out_len p.pd_out)

  abbrev framed : List ℕ
  framed = mc ∷ type ∷ (payload ++ (od ++ drop (length od) (drop (length payload) rest)))

  -- The outputs behind MC and CKT, whether they are copied or there are none.
  with_payload :
      (if ltb 0 p.pd_out_len
        then copy_at (mc ∷ type ∷ rest) L.m_seq_header_len payload
        else (mc ∷ type ∷ rest))
      ≡ mc ∷ type ∷ (payload ++ drop (length payload) rest)
  with_payload = elim (Bool-cases (ltb 0 p.pd_out_len)) [
    | inl some_octets ↦ rw (some_octets) (copied mc type L.m_seq_header_len [] payload rest header)
    | inr nothing ↦
        let z : p.pd_out_len ≡ 0 = ground (arith, nothing) in
        rw (nothing)
          (sym (ap (λ k. mc ∷ type ∷ (take k p.pd_out ++ drop (length (take k p.pd_out)) rest)) z))
  ]

  filled :
      copy_at
        (if ltb 0 p.pd_out_len
          then copy_at (set (set p.tx_buf 0 mc) 1 type) L.m_seq_header_len payload
          else set (set p.tx_buf 0 mc) 1 type)
        (L.m_seq_header_len + p.pd_out_len)
        od
      ≡ framed
  filled =
      ap
        (λ h.
          copy_at (if ltb 0 p.pd_out_len then copy_at h L.m_seq_header_len payload else h)
            (L.m_seq_header_len + p.pd_out_len) od)
        (two_set p.tx_buf mc type (omega (arith, room)))
      ∙ ap (λ h. copy_at h (L.m_seq_header_len + p.pd_out_len) od) with_payload
      ∙ copied mc type (L.m_seq_header_len + p.pd_out_len) payload od (drop (length payload) rest)
          (omega (arith, header, length-payload))

  framed_lem :
      (n : ℕ)
      → fold_checksum L framed n
        ≡ mc
          ∷ u8 (bit_or type (L.checksum6 framed n))
          ∷ (payload ++ (od ++ drop (length od) (drop (length payload) rest)))
  unfolding fold_checksum
  framed_lem n = refl

  cut :
      (n a b : ℕ)
      → n ≡ 2 + p.pd_out_len + length od
      → take n (a ∷ b ∷ (payload ++ (od ++ drop (length od) (drop (length payload) rest))))
        ≡ a ∷ b ∷ (payload ++ od)
  cut n a b e =
      let front : List ℕ = a ∷ b ∷ (payload ++ od) in
      ap (λ xs. take n (a ∷ b ∷ xs))
        (sym (append_assoc payload od (drop (length od) (drop (length payload) rest))))
      ∙ take_front front (drop (length od) (drop (length payload) rest)) n
          (omega (arith, e, length-append payload od, length-payload))

  length-junk :
      length (drop (length od) (drop (length payload) rest)) + (2 + p.pd_out_len + length od)
      ≡ length p.tx_buf
  length-junk = omega (
    arith,
    length-drop (length od) (drop (length payload) rest),
    length-drop (length payload) rest,
    length-drop 2 p.tx_buf,
    length-payload,
    room,
  )

  -- A master message of the multi-octet kinds consists on the wire of MC, CKT, the outputs and the
  -- on-request data, in this order, and CKT has the bits of the kind and the checksum of the message
  -- with a checksum of 0 in it. The transmit buffer keeps its length. This holds where the header
  -- has two octets, the outputs and the message fit into their buffers, and the checksum reads only
  -- the octets of the message.
  pub build_multi_frame-message :
      ((xs : List ℕ) (n : ℕ) → L.checksum6 xs n ≡ L.checksum6 (take n xs) n)
      → (take (build_multi_frame L p mc od).1 (build_multi_frame L p mc od).0
          ≡ message L mc (ckt_type_bits p.config.m_seq_type) (take p.pd_out_len p.pd_out ++ od))
        × (length (build_multi_frame L p mc od).0 ≡ length p.tx_buf)
  unfolding build_multi_frame message
  build_multi_frame-message local =
      let n : ℕ = L.m_seq_header_len + p.pd_out_len + length od in
      let count : n ≡ 2 + p.pd_out_len + length od = omega (arith, header) in
      let all : n ≡ 2 + length (payload ++ od) =
        omega (arith, count, length-append payload od, length-payload) in
      let whole = ap (λ tx. fold_checksum L tx n) filled ∙ framed_lem n in
      let sum : L.checksum6 framed n
          ≡ L.checksum6 (mc ∷ type ∷ (payload ++ od)) (2 + length (payload ++ od)) =
        local framed n
        ∙ ap (λ xs. L.checksum6 xs n) (cut n mc type count)
        ∙ ap (λ k. L.checksum6 (mc ∷ type ∷ (payload ++ od)) k) all in
      (
        ap (λ tx. take n tx) whole
            ∙ cut n mc (u8 (bit_or type (L.checksum6 framed n))) count
            ∙ ap (λ c. mc ∷ u8 (bit_or type c) ∷ (payload ++ od)) sum,
        ap length whole
            ∙ omega (
              arith,
              length-append payload (od ++ drop (length od) (drop (length payload) rest)),
              length-append od (drop (length od) (drop (length payload) rest)),
              length-junk,
              length-payload,
            ),
      )
