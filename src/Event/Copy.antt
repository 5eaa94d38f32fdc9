-- ===== src/Event/Copy.antt =====
-- The event readout of src/master_isdu.c stores the octets of the device where they belong.
use mathlib.Core.Path.{subst}
use iolinki_master.Base.{
  ℕ, zero, suc, ◌+◌, ◌≤◌, ◌<◌, ◌≡◌, refl, sym, ap, ◌∙◌, true, false, ◌⊎◌, inl, inr, arith, ◌==◌,
  bit_and, u8, List, [], ◌∷◌, get_or, set, take, drop, length, length-set, Bool-cases, ltb,
}
use iolinki_master.Bytes.{get_or-set}
use iolinki_master.Types.Limits.{event_memory_len, event_slot_max}
use iolinki_master.Types.State.{EventState}
use iolinki_master.Event.Transport.{store_event_octet, decode_status, on_event_octets}
use iolinki_master.Event.Memory.{last_slot-le}
use iolinki_master.Event.Slots.{octets_needed, last_active, active_slots, eq_lem}

-- What has been read is the memory of the device.
pub record IsCopy (device : List ℕ) (e : EventState) : Type 0 where
  pub memory : length e.memory ≡ event_memory_len
  pub addr : e.addr ≡ e.len
  pub len : e.len ≤ event_memory_len
  pub octets : (i : ℕ) → i < e.len → get_or e.memory i 0 ≡ get_or device i 0
  pub status :
      ((e.len ≡ 0) × (e.status_seen ≡ false) × (e.needed ≡ 1))
      ⊎ ((1 ≤ e.len) × (e.status_seen ≡ true) × (e.needed ≡ octets_needed device))

drop-get_or : (xs : List ℕ) (i : ℕ) → i < length xs → drop i xs ≡ get_or xs i 0 ∷ drop (suc i) xs
drop-get_or [] i h = absurd (omega arith)
drop-get_or (x ∷ xs) zero h = refl
drop-get_or (x ∷ xs) (suc i) h = drop-get_or xs i (omega arith)

drop_all : (xs : List ℕ) (i : ℕ) → length xs ≤ i → drop i xs ≡ []
drop_all [] zero h = refl
drop_all [] (suc i) h = refl
drop_all (x ∷ xs) zero h = absurd (omega arith)
drop_all (x ∷ xs) (suc i) h = drop_all xs i (omega arith)

decode_keeps :
    (e : EventState)
    → ((decode_status e).memory ≡ e.memory)
      × ((decode_status e).addr ≡ e.addr)
      × ((decode_status e).len ≡ e.len)
unfolding decode_status
decode_keeps e = ground arith

module _ (device : List ℕ) (size : length device ≡ event_memory_len) where
  abbrev stored : EventState → EventState
  stored e = record e {
    memory = set e.memory e.addr (get_or device e.len 0);
    addr = u8 (e.addr + 1);
    len = u8 (e.len + 1);
  }

  store_lem :
      (e : EventState)
      → IsCopy device e
      → e.len < event_memory_len
      → store_event_octet e (get_or device e.len 0) ≡ stored e
  unfolding store_event_octet
  store_lem e c h =
      let a : ltb e.addr event_memory_len ≡ true = ground (arith, c.addr, h) in
      let l : ltb e.len event_memory_len ≡ true = ground (arith, h) in rw (a, l) refl

  stored-octets :
      (e : EventState)
      → IsCopy device e
      → e.len < event_memory_len
      → (i : ℕ) → i < e.len + 1
      → get_or (stored e).memory i 0 ≡ get_or device i 0
  stored-octets e c h i k =
      let w =
        get_or-set e.memory e.addr i (get_or device e.len 0) 0
          (omega (arith, c.memory, c.addr, h)) in
      elim (Bool-cases (e.addr == i)) [
        | inl at ↦ w ∙ rw (at) (ap (λ j. get_or device j 0) (sym c.addr ∙ eq_lem e.addr i at))
        | inr off ↦ w ∙ rw (off) (c.octets i (ground (arith, off, c.addr)))
      ]

  decode_lem :
      (e : EventState)
      → 1 ≤ e.len
      → get_or e.memory 0 0 ≡ get_or device 0 0
      → (e.status_seen ≡ false) ⊎ ((e.status_seen ≡ true) × (e.needed ≡ octets_needed device))
      → ((decode_status e).status_seen ≡ true) × ((decode_status e).needed ≡ octets_needed device)
  unfolding decode_status octets_needed last_active active_slots
  decode_lem e h f t =
      let small =
        last_slot-le event_slot_max 0 (u8 (bit_and (get_or device 0 0) 0x3f)) 0 6 (omega arith)
          (omega arith) (omega arith) in
      rw (f) (ground (arith, t, small))

  -- One octet of the device's memory, at the place that was asked for.
  next-IsCopy :
      (e : EventState)
      → IsCopy device e
      → e.len < event_memory_len
      → IsCopy device (decode_status (store_event_octet e (get_or device e.len 0)))
        × ((decode_status (store_event_octet e (get_or device e.len 0))).len ≡ e.len + 1)
  next-IsCopy e c h =
      let s : EventState = stored e in
      let (m, a, l) = decode_keeps s in
      let count : (decode_status s).len ≡ e.len + 1 = omega (arith, l, h) in
      let seen : (s.status_seen ≡ false)
          ⊎ ((s.status_seen ≡ true) × (s.needed ≡ octets_needed device)) =
        ground (arith, c.status) in
      let (known, needed) =
        decode_lem s (omega (arith, h)) (stored-octets e c h 0 (omega arith)) seen in
      subst (λ t. IsCopy device (decode_status t) × ((decode_status t).len ≡ e.len + 1))
        (sym (store_lem e c h))
        (
          record {
            memory = ap length m ∙ length-set e.memory e.addr (get_or device e.len 0) ∙ c.memory;
            addr = omega (arith, a, l, c.addr, h);
            len = omega (arith, count, h);
            octets =
                λ i k. ap (λ xs. get_or xs i 0) m ∙ stored-octets e c h i (omega (arith, k, count));
            status = inr (omega (arith, count), known, needed);
          },
          count,
        )

  -- The octets of one frame.
  abbrev pub IsFramed : EventState → ℕ → List ℕ → Type 0
  IsFramed e n od =
      IsCopy device (on_event_octets e od)
      × (((on_event_octets e od).len ≡ e.len + n) ⊎ ((on_event_octets e od).len ≡ event_memory_len))

  pub frame-IsFramed :
      (n : ℕ) (e : EventState) → IsCopy device e → IsFramed e n (take n (drop e.len device))
  unfolding on_event_octets
  frame-IsFramed zero e c = (c, inl (omega arith))
  frame-IsFramed (suc n) e c = elim (Bool-cases (ltb e.len event_memory_len)) [
    | inr full ↦
        let end : e.len ≡ event_memory_len = ground (arith, full, c.len) in
        subst (λ od. IsFramed e (suc n) (take (suc n) od))
          (sym (drop_all device e.len (omega (arith, end, size)))) (c, inr end)
    | inl room ↦
        let h : e.len < event_memory_len = ground (arith, room) in
        let (c', l) = next-IsCopy e c h in
        let e' : EventState = decode_status (store_event_octet e (get_or device e.len 0)) in
        let (c'', l') = frame-IsFramed n e' c' in
        let framed : EventState = on_event_octets e' (take n (drop e'.len device)) in
        let rest : List ℕ = take n (drop (suc e.len) device) in
        let next : e'.len ≡ suc e.len = omega (arith, l) in
        let at : take n (drop e'.len device) ≡ rest = ap (λ i. take n (drop i device)) next in
        let counted : (framed.len ≡ e.len + suc n) ⊎ (framed.len ≡ event_memory_len) = elim l' [
          | inl a ↦ inl (omega (arith, a, next))
          | inr b ↦ inr b
        ] in
        subst (λ od. IsFramed e (suc n) (take (suc n) od))
          (sym (drop-get_or device e.len (omega (arith, h, size))))
          (subst (λ od. IsFramed e (suc n) (get_or device e.len 0 ∷ od)) at (c'', counted))
  ]
