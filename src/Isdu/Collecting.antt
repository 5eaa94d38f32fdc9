-- ===== src/Isdu/Collecting.antt =====
-- The octets of a response of src/master_isdu.c as they are collected one by one.
use iolinki_master.Base.{
  ℕ, zero, suc, ◌+◌, ◌≤◌, ◌<◌, ◌≡◌, refl, ap, true, false, arith, u16, List, [], ◌∷◌, ◌++◌, get_or,
  set, take, length, length-set, length-append,
}
use iolinki_master.Iolinki.{Iolinki}
use iolinki_master.Types.State.{response, Isdu}
use iolinki_master.Isdu.Transport.{
  isdu_decode_response, response_complete, store_octet, on_od_octet,
}

pub take-set :
    (xs : List ℕ) (i v : ℕ) → i < length xs → take (suc i) (set xs i v) ≡ take i xs ++ v ∷ []
take-set [] i v h = absurd (omega arith)
take-set (x ∷ xs) zero v h = refl
take-set (x ∷ xs) (suc i) v h = ap (λ l. x ∷ l) (take-set xs i v (omega arith))

pub get_or-head : (xs : List ℕ) (v : ℕ) → 0 < length xs → get_or (set xs 0 v) 0 0 ≡ v
get_or-head [] v h = absurd (omega arith)
get_or-head (x ∷ xs) v h = refl

pub get_or-second :
    (xs : List ℕ) (u v : ℕ)
    → 2 ≤ length xs
    → take 1 xs ≡ u ∷ []
    → (get_or (set xs 1 v) 0 0 ≡ u) × (get_or (set xs 1 v) 1 0 ≡ v)
get_or-second [] u v h e = absurd (omega arith)
get_or-second (x ∷ []) u v h e = absurd (omega arith)
get_or-second (x ∷ y ∷ xs) u v h e = ground (arith, e)

-- The service that a state belongs to, which the octets of a response do not change.
pub record IsSame (base s : Isdu) : Type 0 where
  pub op : s.op ≡ base.op
  pub index : s.index ≡ base.index
  pub subindex : s.subindex ≡ base.subindex
  pub error : s.error ≡ base.error
  pub done : s.done ≡ base.done

-- The octets `got` of a response are in the buffer, and as many as `expected` are awaited.
pub record IsCollecting (L : Iolinki) (base s : Isdu) (got : List ℕ) (expected : ℕ) : Type 0 where
  pub same : IsSame base s
  pub phase : s.phase ≡ response
  pub size : length s.response ≡ L.isdu_buffer_size
  pub len : s.response_len ≡ length got
  pub octets : take (length got) s.response ≡ got
  pub awaited : s.expected_len ≡ expected

module _ (L : Iolinki) (size : L.isdu_buffer_size < 65536) (base : Isdu) where
  -- One more octet of a response of known length that does not complete it.
  pub next_octet :
      (s : Isdu) (got : List ℕ) (n byte : ℕ)
      → IsCollecting L base s got n
      → length got + 1 < n
      → n ≤ L.isdu_buffer_size
      → ((on_od_octet L s byte).0 ≡ true)
        × IsCollecting L base (on_od_octet L s byte).1 (got ++ byte ∷ []) n
  unfolding on_od_octet store_octet response_complete
  next_octet s got n byte c h k =
      let grown = length-append got (byte ∷ []) in
      ground (
        arith,
        c.same,
        c.same.op,
        c.same.index,
        c.same.subindex,
        c.same.error,
        c.same.done,
        c.phase,
        c.size,
        c.len,
        c.octets,
        c.awaited,
        size,
        grown,
        length-set s.response s.response_len byte,
        take-set s.response s.response_len byte,
      )

  -- The octet stored, before the length is looked at.
  abbrev pub stored : Isdu → ℕ → Isdu
  stored s byte = record s {
    response = set s.response s.response_len byte;
    response_len = u16 (s.response_len + 1);
  }

  -- The octet that completes a response of known length.
  pub last_octet :
      (s : Isdu) (got : List ℕ) (n byte : ℕ)
      → IsCollecting L base s got n
      → length got + 1 ≡ n
      → n ≤ L.isdu_buffer_size
      → (on_od_octet L s byte ≡ (false, isdu_decode_response L (stored s byte)))
        × IsCollecting L base (stored s byte) (got ++ byte ∷ []) n
  unfolding on_od_octet store_octet response_complete
  last_octet s got n byte c h k =
      let grown = length-append got (byte ∷ []) in
      ground (
        arith,
        c.same,
        c.same.op,
        c.same.index,
        c.same.subindex,
        c.same.error,
        c.same.done,
        c.phase,
        c.size,
        c.len,
        c.octets,
        c.awaited,
        size,
        grown,
        length-set s.response s.response_len byte,
        take-set s.response s.response_len byte,
      )
