-- ===== src/Isdu/Response.antt =====
-- A response of src/master_isdu.c as the receiving loop takes it in.
use mathlib.Core.Path.{subst}
use iolinki_master.Base.{
  append_assoc, ℕ, ◌+◌, ◌%◌, ◌≤◌, ◌<◌, ◌≡◌, refl, ap, ◌∙◌, Bool, true, arith, List, [], ◌∷◌, ◌++◌,
  get_or, set, take, length, length-set, length-append,
}
use iolinki_master.Iolinki.{Iolinki}
use iolinki_master.Bytes.{and_nibble}
use iolinki_master.Types.State.{wait, response, Isdu}
use iolinki_master.Isdu.Transport.{
  isdu_decode_response, response_begins, response_complete, response_length, store_octet,
  on_od_octet, on_od_loop,
}
use iolinki_master.Isdu.Collecting.{
  IsCollecting, IsSame, get_or-head, get_or-second, last_octet, next_octet, stored, take-set,
}

module _ (L : Iolinki) (size : L.isdu_buffer_size < 65536) (base : Isdu) where
  -- What a waiting state has.
  abbrev pub IsWaiting : Isdu → Type 0
  IsWaiting s = IsSame base s × (s.phase ≡ wait) × (length s.response ≡ L.isdu_buffer_size)

  -- The first octet of a response that has its length in the nibble.
  pub first_direct :
      (s : Isdu) (n byte : ℕ)
      → IsWaiting s
      → byte < 256
      → 2 ≤ byte
      → byte % 16 ≡ n
      → 2 ≤ n
      → n ≤ L.isdu_buffer_size
      → ((on_od_octet L s byte).0 ≡ true)
        × IsCollecting L base (on_od_octet L s byte).1 (byte ∷ []) n
  unfolding on_od_octet store_octet response_complete response_length response_begins
  first_direct s n byte (i, p, z) b b2 m n2 k = ground (
    arith,
    i.op,
    i.index,
    i.subindex,
    i.error,
    i.done,
    size,
    and_nibble byte b,
    length-set s.response 0 byte,
    take-set s.response 0 byte,
    get_or-head s.response byte,
  )

  -- The first octet of a response that has its length in the second one.
  pub first_extended :
      (s : Isdu) (byte : ℕ)
      → IsWaiting s
      → byte < 256
      → 2 ≤ byte
      → byte % 16 ≡ 1
      → 2 ≤ L.isdu_buffer_size
      → ((on_od_octet L s byte).0 ≡ true)
        × IsCollecting L base (on_od_octet L s byte).1 (byte ∷ []) 0
  unfolding on_od_octet store_octet response_complete response_length response_begins
  first_extended s byte (i, p, z) b b2 m k = ground (
    arith,
    i.op,
    i.index,
    i.subindex,
    i.error,
    i.done,
    size,
    and_nibble byte b,
    length-set s.response 0 byte,
    take-set s.response 0 byte,
    get_or-head s.response byte,
  )

  second_step :
      (s : Isdu) (n byte : ℕ)
      → s.phase ≡ response
      → s.expected_len ≡ 0
      → s.response_len ≡ 1
      → get_or (stored L size base s n).response 0 0 ≡ byte
      → get_or (stored L size base s n).response 1 0 ≡ n
      → byte < 256
      → byte % 16 ≡ 1
      → 3 ≤ n
      → 2 ≤ L.isdu_buffer_size
      → on_od_octet L s n ≡ (true, record (stored L size base s n) { expected_len = n })
  unfolding on_od_octet store_octet response_complete response_length
  second_step s n byte p e l f g b m n3 k =
      rw (p, e, l) (ground (arith, f, g, l, and_nibble byte b))

  -- The second octet of such a response.
  pub second_extended :
      (s : Isdu) (n byte : ℕ)
      → IsCollecting L base s (byte ∷ []) 0
      → byte < 256
      → byte % 16 ≡ 1
      → 3 ≤ n
      → n ≤ L.isdu_buffer_size
      → (on_od_octet L s n ≡ (true, record (stored L size base s n) { expected_len = n }))
        × IsCollecting L base
            (record (stored L size base s n) { expected_len = n })
            (byte ∷ n ∷ [])
            n
  second_extended s n byte c b m n3 k =
      let room : 2 ≤ length s.response = omega (arith, c.size) in
      let at : s.response_len ≡ 1 = c.len in
      let set_at : (stored L size base s n).response ≡ set s.response 1 n =
        ap (λ i. set s.response i n) at in
      let (f, g) = get_or-second s.response byte n room c.octets in
      (
        second_step s n byte c.phase c.awaited at (ap (λ xs. get_or xs 0 0) set_at ∙ f)
            (ap (λ xs. get_or xs 1 0) set_at ∙ g) b m n3 (omega arith),
        record {
          same = record {
            op = c.same.op;
            index = c.same.index;
            subindex = c.same.subindex;
            error = c.same.error;
            done = c.same.done;
          };
          phase = c.phase;
          size = length-set s.response s.response_len n ∙ c.size;
          len = omega (arith, at);
          octets =
              ap (λ xs. take 2 xs) set_at
              ∙ take-set s.response 1 n (omega arith)
              ∙ ap (λ xs. xs ++ n ∷ []) c.octets;
          awaited = refl;
        },
      )

  -- The octets that complete a response of known length, and what comes behind them.
  pub collect :
      (rest tail : List ℕ) (s : Isdu) (got : List ℕ) (n : ℕ)
      → IsCollecting L base s got n
      → length got + length rest ≡ n
      → length got < n
      → n ≤ L.isdu_buffer_size
      → (s' : Isdu) × (on_od_loop L s (rest ++ tail) ≡ isdu_decode_response L s')
        × IsCollecting L base s' (got ++ rest) n
  unfolding on_od_loop
  collect [] tail s got n c h l k = absurd (omega arith)
  collect (x ∷ []) tail s got n c h l k =
      let (e, c') = last_octet L size base s got n x c h k in
      (
        stored L size base s x,
        rw (on_od_loop, ap (λ (r : Bool × Isdu). r.0) e) (ap (λ (r : Bool × Isdu). r.1) e),
        c',
      )
  collect (x ∷ y ∷ rest) tail s got n c h l k =
      let grown = length-append got (x ∷ []) in
      let (e, c') = next_octet L size base s got n x c (omega arith) k in
      let (s', f, c'') =
        collect (y ∷ rest) tail (on_od_octet L s x).1 (got ++ x ∷ []) n c' (omega (arith, grown, h))
          (omega (arith, grown, h)) k in
      (
        s',
        rw (on_od_loop, e) f,
        subst (λ l. IsCollecting L base s' l n) (append_assoc got (x ∷ []) (y ∷ rest)) c'',
      )

  -- An octet that says that the device is still busy.
  busy_octet : (s : Isdu) (byte : ℕ) → s.phase ≡ wait → byte < 2 → on_od_octet L s byte ≡ (true, s)
  unfolding on_od_octet
  busy_octet s byte p h = ground (arith, p)

-- Octets that say that the device is still busy.
abbrev pub Busy : List ℕ → Type 0
Busy [] = Unit
Busy (x ∷ xs) = (x < 2) × Busy xs

module _ (L : Iolinki) (size : L.isdu_buffer_size < 65536) (base : Isdu) where
  pub on_od_loop-Busy :
      (busy od : List ℕ) (s : Isdu)
      → s.phase ≡ wait
      → Busy busy
      → on_od_loop L s (busy ++ od) ≡ on_od_loop L s od
  unfolding on_od_loop
  on_od_loop-Busy [] od s p h = refl
  on_od_loop-Busy (x ∷ busy) od s p h =
      let e = busy_octet L size base s x p h.0 in
      rw (on_od_loop, ap (λ (r : Bool × Isdu). r.0) e, ap (λ (r : Bool × Isdu). r.1) e)
        (on_od_loop-Busy busy od s p h.1)
