-- ===== src/Event/Memory.antt =====
-- The event-memory readout of src/master_isdu.c stays inside its buffer and finds the first event.
use iolinki_master.Base.{
  ℕ, zero, suc, ◌+◌, ◌≤◌, ◌<◌, ◌≡◌, refl, true, false, ◌⊎◌, inl, inr, arith, if◌then◌else◌, ◌==◌,
  bit_and, u8, List, [], ◌∷◌, get_or, take, length, length-set, Bool-cases,
}
use iolinki_master.Types.Codes.{status_ok}
use iolinki_master.Types.Limits.{event_memory_len, event_slot_max}
use iolinki_master.Types.State.{
  event_idle, event_read, event_write, EventState, EventReq, is_req_ack,
}
use iolinki_master.Event.Transport.{
  event_finish, event_start, slot_active, last_slot_from, store_event_octet, decode_status,
  on_event_octets, event_complete_read, event_on_od, slot_code, first_code_from, event_first_code,
}
use iolinki_master.Event.Service.{event_details, details_from}

-- The readout is inside the buffer: the next address is the number of octets stored, and both it
-- and the number of octets needed are at most the size of the buffer.
pub record IsReading (e : EventState) : Type 0 where
  pub memory : length e.memory ≡ event_memory_len
  pub addr : e.addr ≡ e.len
  pub len : e.len ≤ event_memory_len
  pub needed : (1 ≤ e.needed) × (e.needed ≤ event_memory_len)
  pub slot : e.last_slot ≤ event_slot_max

pub last_slot-le :
    (n slot active last bound : ℕ)
    → slot + n ≤ bound
    → last ≤ bound
    → bound < 256
    → last_slot_from n slot active last ≤ bound
unfolding last_slot_from
last_slot-le zero slot active last bound h hl hb = hl
last_slot-le (suc n) slot active last bound h hl hb =
    last_slot-le n (slot + 1) active (if slot_active active slot then u8 (slot + 1) else last) bound
      (omega arith) (ground arith) hb

store-IsReading : (e : EventState) (byte : ℕ) → IsReading e → IsReading (store_event_octet e byte)
unfolding store_event_octet
store-IsReading e byte r =
    ground (arith, r.memory, r.addr, r.len, r.needed, r.slot, length-set e.memory e.addr byte)

decode-IsReading : (e : EventState) → IsReading e → IsReading (decode_status e)
unfolding decode_status
decode-IsReading e r =
    let active : ℕ = u8 (bit_and (get_or e.memory 0 0) 0x3f) in
    ground (
      arith,
      r.memory,
      r.addr,
      r.len,
      r.needed,
      r.slot,
      last_slot-le event_slot_max 0 active 0 event_slot_max (omega arith) (omega arith)
          (omega arith),
    )

on_octets-IsReading :
    (od : List ℕ) (e : EventState) → IsReading e → IsReading (on_event_octets e od)
unfolding on_event_octets
on_octets-IsReading [] e r = r
on_octets-IsReading (x ∷ od) e r =
    on_octets-IsReading od (decode_status (store_event_octet e x))
      (decode-IsReading (store_event_octet e x) (store-IsReading e x r))

pub on_octets-phase : (od : List ℕ) (e : EventState) → (on_event_octets e od).phase ≡ e.phase
unfolding on_event_octets decode_status store_event_octet
on_octets-phase [] e = refl
on_octets-phase (x ∷ od) e =
    ground (arith, on_octets-phase od (decode_status (store_event_octet e x)))

pub on_octets-request : (od : List ℕ) (e : EventState) → (on_event_octets e od).request ≡ e.request
unfolding on_event_octets decode_status store_event_octet
on_octets-request [] e = refl
on_octets-request (x ∷ od) e =
    ground (arith, on_octets-request od (decode_status (store_event_octet e x)))

-- A fresh readout is inside the buffer.
pub event_start-IsReading : (request : EventReq) → IsReading (event_start request)
unfolding event_start
event_start-IsReading request = ground arith

-- The octets of an answer keep a readout inside its buffer of 19 octets, with the next address
-- equal to the number of octets stored, and keep its purpose. The readout goes on; or it has the
-- octets that it needs, and then it is complete with the result OK if its purpose is not an
-- acknowledgement, and goes on to the write to address 0 that confirms the events if it is.
pub event_on_od-IsReading :
    (e : EventState) (od : List ℕ) (od_len : ℕ)
    → e.phase ≡ event_read
    → IsReading e
    → (length (event_on_od e od od_len).memory ≡ event_memory_len)
      × ((event_on_od e od od_len).len ≤ event_memory_len)
      × ((event_on_od e od od_len).request ≡ e.request)
      × ((IsReading (event_on_od e od od_len) × ((event_on_od e od od_len).phase ≡ event_read))
          ⊎ (((event_on_od e od od_len).needed ≤ (event_on_od e od od_len).len)
              × (((is_req_ack e.request ≡ false)
                    × ((event_on_od e od od_len).phase ≡ event_idle)
                    × ((event_on_od e od od_len).result ≡ status_ok))
                  ⊎ ((is_req_ack e.request ≡ true)
                      × ((event_on_od e od od_len).phase ≡ event_write)
                      × ((event_on_od e od od_len).addr ≡ 0)))))
unfolding event_on_od event_complete_read event_finish
event_on_od-IsReading e od od_len h r = ground (
  arith,
  on_octets-IsReading (take od_len od) e r,
  on_octets-phase (take od_len od) e,
  on_octets-request (take od_len od) e,
)

first_code-from :
    (n slot k : ℕ) (memory : List ℕ) (active : ℕ)
    → slot ≤ k
    → k < slot + n
    → ((j : ℕ) → j < k → slot_active active j ≡ false)
    → slot_active active k ≡ true
    → first_code_from n slot memory active ≡ slot_code memory k
unfolding first_code_from
first_code-from zero slot k memory active hs hk low hi = absurd (omega arith)
first_code-from (suc n) slot k memory active hs hk low hi = elim (Bool-cases (slot == k)) [
  | inl e ↦ ground (arith)
  | inr e ↦ ground (
    arith,
    low slot (ground arith),
    first_code-from n (slot + 1) k memory active (ground arith) (omega arith) low hi,
  )
]

-- The event code that is reported is the code of the lowest slot whose activity bit is set.
pub event_first_code_lowest :
    (memory : List ℕ) (slot : ℕ)
    → slot < event_slot_max
    → ((j : ℕ) → j < slot → slot_active (u8 (bit_and (get_or memory 0 0) 0x3f)) j ≡ false)
    → slot_active (u8 (bit_and (get_or memory 0 0) 0x3f)) slot ≡ true
    → event_first_code memory ≡ slot_code memory slot
unfolding event_first_code
event_first_code_lowest memory slot h low hi =
    first_code-from event_slot_max 0 slot memory (u8 (bit_and (get_or memory 0 0) 0x3f))
      (omega arith) (omega arith) low hi

-- The details that are still written, with `count` of them written before.
details-length :
    (n slot : ℕ) (memory : List ℕ) (active count max_events : ℕ)
    → (length (details_from n slot memory active count max_events) + count ≤ max_events)
      ⊎ (length (details_from n slot memory active count max_events) ≤ 1)
unfolding details_from
details-length zero slot memory active count max_events = ground arith
details-length (suc n) slot memory active count max_events = ground (
  arith,
  details-length n (slot + 1) memory active count max_events,
  details-length n (slot + 1) memory active (count + 1) max_events,
)

details-full :
    (n slot k : ℕ) (memory : List ℕ) (active count max_events : ℕ)
    → slot ≤ k
    → k < slot + n
    → slot_active active k ≡ true
    → max_events ≤ count + 1
    → length (details_from n slot memory active count max_events) ≡ 1
unfolding details_from
details-full zero slot k memory active count max_events hs hk hi hm = absurd (omega arith)
details-full (suc n) slot k memory active count max_events hs hk hi hm =
    elim (Bool-cases (slot == k)) [
      | inl e ↦ ground (arith)
      | inr e ↦ ground (
        arith,
        details-full n (slot + 1) k memory active count max_events (ground arith) (omega arith) hi
            hm,
      )
    ]

-- A caller that has room for at least one event gets at most as many as it has room for.
pub length-event_details :
    (memory : List ℕ) (max_events : ℕ)
    → 0 < max_events
    → length (event_details memory max_events) ≤ max_events
unfolding event_details
length-event_details memory max_events h =
    let active : ℕ = u8 (bit_and (get_or memory 0 0) 0x3f) in
    ground (arith, details-length event_slot_max 0 memory active 0 max_events)

-- A caller that has room for no event is written one event all the same, whenever the activity
-- bit of a slot is set.
pub length-event_details_no_room :
    (memory : List ℕ) (slot : ℕ)
    → slot < event_slot_max
    → slot_active (u8 (bit_and (get_or memory 0 0) 0x3f)) slot ≡ true
    → length (event_details memory 0) ≡ 1
unfolding event_details
length-event_details_no_room memory slot h hi =
    details-full event_slot_max 0 slot memory (u8 (bit_and (get_or memory 0 0) 0x3f)) 0 0
      (omega arith) (omega arith) hi (omega arith)
