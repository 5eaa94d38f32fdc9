-- ===== src/Event/Slots.antt =====
-- The events of src/master_isdu.c depend only on the octets up to the last active slot.
use mathlib.Core.Path.{subst}
use iolinki_master.Base.{
  ℕ, zero, suc, ◌+◌, ◌*◌, ◌≤◌, ◌<◌, ◌≡◌, refl, sym, ap, ◌∙◌, true, inl, inr, arith, ◌==◌, bit_and,
  u8, List, get_or, Bool-cases,
}
use iolinki_master.Types.Config.{Event}
use iolinki_master.Types.Limits.{event_memory_len, event_slot_max, event_entry_len}
use iolinki_master.Event.Transport.{
  slot_active, last_slot_from, slot_code, first_code_from, event_first_code,
}
use iolinki_master.Event.Service.{event_details, details_from, slot_event}
use iolinki_master.Event.Memory.{last_slot-le}

-- The slots that the StatusCode of a memory has active, and the number of octets up to the last one.
unfoldable pub active_slots : List ℕ → ℕ
active_slots memory = u8 (bit_and (get_or memory 0 0) 0x3f)

unfoldable pub last_active : List ℕ → ℕ
last_active memory = last_slot_from event_slot_max 0 (active_slots memory) 0

unfoldable pub octets_needed : List ℕ → ℕ
octets_needed memory = 3 * last_active memory + 1

-- The last active slot is a bound on all of them.
pub eq_lem : (m n : ℕ) → (m == n) ≡ true → m ≡ n
eq_lem m n h = ground (arith, h)

last_slot_mono :
    (n slot active last : ℕ)
    → last ≤ slot
    → slot + n < 256
    → last ≤ last_slot_from n slot active last
unfolding last_slot_from
last_slot_mono zero slot active last h k = omega arith
last_slot_mono (suc n) slot active last h k = ground (
  arith,
  last_slot_mono n (slot + 1) active (u8 (slot + 1)) (omega arith) (omega arith),
  last_slot_mono n (slot + 1) active last (omega arith) (omega arith),
)

last_slot-above :
    (n slot active last k : ℕ)
    → last ≤ slot
    → slot + n < 256
    → slot ≤ k
    → k < slot + n
    → slot_active active k ≡ true
    → k < last_slot_from n slot active last
unfolding last_slot_from
last_slot-above zero slot active last k h m lo hi a = absurd (omega arith)
last_slot-above (suc n) slot active last k h m lo hi a = elim (Bool-cases (slot == k)) [
  | inl e ↦
      let same : slot_active active slot ≡ true =
        subst (λ j. slot_active active j ≡ true) (sym (eq_lem slot k e)) a in
      ground (
        arith,
        e,
        same,
        last_slot_mono n (slot + 1) active (u8 (slot + 1)) (omega arith) (omega arith),
      )
  | inr e ↦ ground (
    arith,
    e,
    a,
    last_slot-above n (slot + 1) active (u8 (slot + 1)) k (omega arith) (omega arith) (ground arith)
        (omega arith) a,
    last_slot-above n (slot + 1) active last k (omega arith) (omega arith) (ground arith)
        (omega arith) a,
  )
]

-- A copy of enough octets has the same events.
same-slots :
    (n slot active count max_events : ℕ) (memory device : List ℕ)
    → ((k : ℕ)
        → slot ≤ k
        → k < slot + n
        → slot_active active k ≡ true
        → slot_event memory k ≡ slot_event device k)
    → details_from n slot memory active count max_events
      ≡ details_from n slot device active count max_events
unfolding details_from
same-slots zero slot active count max_events memory device h = refl
same-slots (suc n) slot active count max_events memory device h =
    let later : (c : ℕ)
        → details_from n (slot + 1) memory active c max_events
          ≡ details_from n (slot + 1) device active c max_events =
      λ c.
        same-slots n (slot + 1) active c max_events memory device
          (λ k lo hi. h k (omega arith) (omega arith)) in
    elim (Bool-cases (slot_active active slot)) [
      | inr off ↦ rw (details_from, off) (later count)
      | inl on ↦
          rw (details_from, on, h slot (omega arith) (omega arith) on, later (count + 1)) refl
    ]

same-codes :
    (n slot active : ℕ) (memory device : List ℕ)
    → ((k : ℕ)
        → slot ≤ k
        → k < slot + n
        → slot_active active k ≡ true
        → slot_code memory k ≡ slot_code device k)
    → first_code_from n slot memory active ≡ first_code_from n slot device active
unfolding first_code_from
same-codes zero slot active memory device h = refl
same-codes (suc n) slot active memory device h = elim (Bool-cases (slot_active active slot)) [
  | inr off ↦
      rw (first_code_from, off)
        (same-codes n (slot + 1) active memory device (λ k lo hi. h k (omega arith) (omega arith)))
  | inl on ↦ rw (first_code_from, on) (h slot (omega arith) (omega arith) on)
]

-- A copy of the octets up to the last active slot shows the events of the device.
module _ (memory device : List ℕ)
    (same : (i : ℕ) → i < octets_needed device → get_or memory i 0 ≡ get_or device i 0) where
  active_lem : active_slots memory ≡ active_slots device
  unfolding active_slots octets_needed
  active_lem = ap (λ o. u8 (bit_and o 0x3f)) (same 0 (omega arith))

  within :
      (k : ℕ)
      → k < 6
      → slot_active (active_slots device) k ≡ true
      → 3 * k + 3 < octets_needed device
  unfolding octets_needed last_active
  within k h a = omega (
    arith,
    last_slot-above event_slot_max 0 (active_slots device) 0 k (omega arith) (omega arith)
        (omega arith) (omega (arith, h)) a,
  )

  event_lem :
      (k : ℕ)
      → k < 6
      → slot_active (active_slots device) k ≡ true
      → slot_event memory k ≡ slot_event device k
  unfolding slot_event slot_code
  event_lem k h a =
      let w = within k h a in
      let q = same (u8 (1 + event_entry_len * k)) (omega (arith, w, h)) in
      let c = same (u8 (u8 (1 + event_entry_len * k) + 1)) (omega (arith, w, h)) in
      let d = same (u8 (u8 (1 + event_entry_len * k) + 2)) (omega (arith, w, h)) in
      rw (q, c, d) refl

  code_lem :
      (k : ℕ)
      → k < 6
      → slot_active (active_slots device) k ≡ true
      → slot_code memory k ≡ slot_code device k
  unfolding slot_event
  code_lem k h a = ap (λ (e : Event). e.code) (event_lem k h a)

  pub details_lem :
      (max_events : ℕ) → event_details memory max_events ≡ event_details device max_events
  unfolding event_details active_slots
  details_lem max_events =
      ap (λ a. details_from event_slot_max 0 memory a 0 max_events) active_lem
      ∙ same-slots event_slot_max 0 (active_slots device) 0 max_events memory device
          (λ k lo hi. event_lem k hi)

  pub first_lem : event_first_code memory ≡ event_first_code device
  unfolding event_first_code active_slots
  first_lem =
      ap (λ a. first_code_from event_slot_max 0 memory a) active_lem
      ∙ same-codes event_slot_max 0 (active_slots device) memory device (λ k lo hi. code_lem k hi)

pub octets_needed-le : (device : List ℕ) → octets_needed device ≤ event_memory_len
unfolding octets_needed last_active
octets_needed-le device = omega (
  arith,
  last_slot-le event_slot_max 0 (active_slots device) 0 6 (omega arith) (omega arith) (omega arith),
)
