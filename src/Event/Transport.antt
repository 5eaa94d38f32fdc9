-- ===== src/Event/Transport.antt =====
-- src/master_isdu.c: the event-memory readout. The functions act on the `event` part of the port.
use iolinki_master.Base.{
  ℕ, zero, suc, ◌+◌, ◌*◌, ◌^◌, Bool, true, false, not, ◌&&◌, if◌then◌else◌, ◌==◌, ltb, leb, bit_and,
  bit_or, u8, u16, Option, none, some, List, [], ◌∷◌, get_or, set, take, ℤ,
}
use iolinki_master.Types.Codes.{status_ok, status_pending}
use iolinki_master.Types.Limits.{event_memory_len, event_entry_len, event_slot_max}
use iolinki_master.Types.State.{
  event_idle, event_read, event_write, is_event_idle, is_event_read, is_event_write, EventReq,
  is_req_none, is_req_ack, EventState,
}
use iolinki_master.Types.Zero.{zero_event}

unfoldable pub event_finish : EventState → ℤ → EventState
event_finish e result = record e { result = result; phase = event_idle; od_expected = false }

unfoldable pub event_start : EventReq → EventState
unfolding zero_event
event_start request = record zero_event {
  request = request;
  phase = event_read;
  addr = 0;
  needed = 1;
  result = status_pending;
}

-- `none` is the result `false`; otherwise `*read` and `*addr` (`*od_len` is the port's `od_len`).
unfoldable pub event_channel_access : EventState → Option (Bool × ℕ)
event_channel_access e =
    if is_event_idle e.phase then none else some (is_event_read e.phase, e.addr)

-- `(active & (1 << slot)) != 0`
unfoldable pub slot_active : ℕ → ℕ → Bool
slot_active active slot = not (bit_and active (u8 (2 ^ slot)) == 0)

-- The loop over the slots from `slot` on, `n` of them.
unfoldable pub last_slot_from : ℕ → ℕ → ℕ → ℕ → ℕ
unfolding slot_active
last_slot_from zero slot active last = last
last_slot_from (suc n) slot active last =
    last_slot_from n (slot + 1) active (if slot_active active slot then u8 (slot + 1) else last)

unfoldable pub store_event_octet : EventState → ℕ → EventState
store_event_octet e byte =
    if ltb e.addr event_memory_len && ltb e.len event_memory_len
    then record e {
      memory = set e.memory e.addr byte;
      addr = u8 (e.addr + 1);
      len = u8 (e.len + 1);
    }
    else e

unfoldable pub decode_status : EventState → EventState
unfolding last_slot_from
decode_status e =
    let active = u8 (bit_and (get_or e.memory 0 0) 0x3f) in
    let last = last_slot_from event_slot_max 0 active 0 in
    if not e.status_seen && leb 1 e.len
    then record e {
      status_seen = true;
      last_slot = last;
      needed = if last == 0 then 1 else u8 (event_entry_len * last + 1);
    }
    else e

unfoldable pub on_event_octets : EventState → List ℕ → EventState
unfolding decode_status store_event_octet
on_event_octets e [] = e
on_event_octets e (byte ∷ od) = on_event_octets (decode_status (store_event_octet e byte)) od

-- The end of `event_on_od`, once enough octets are there.
unfoldable pub event_complete_read : EventState → EventState
unfolding event_finish
event_complete_read e =
    if e.status_seen && leb e.needed e.len && leb 1 e.len
    then (if is_req_ack e.request
        then record e { phase = event_write; addr = 0 }
        else event_finish e status_ok)
    else e

unfoldable pub event_on_od : EventState → List ℕ → ℕ → EventState
unfolding on_event_octets event_complete_read
event_on_od e od od_len =
    if not (is_event_read e.phase)
    then e
    else event_complete_read (on_event_octets e (take od_len od))

unfoldable pub event_on_written : EventState → EventState
unfolding event_finish
event_on_written e = if is_event_write e.phase then event_finish e status_ok else e

unfoldable pub event_complete : EventState → Bool
event_complete e = is_event_idle e.phase && not (is_req_none e.request)

-- The EventCode of a slot in the memory image.
unfoldable pub slot_code : List ℕ → ℕ → ℕ
slot_code memory slot =
    let base = u8 (1 + event_entry_len * slot) in
    u16 (bit_or (get_or memory (u8 (base + 1)) 0 * 2 ^ 8) (get_or memory (u8 (base + 2)) 0))

unfoldable pub first_code_from : ℕ → ℕ → List ℕ → ℕ → ℕ
unfolding slot_active slot_code
first_code_from zero slot memory active = 0
first_code_from (suc n) slot memory active =
    let rest = first_code_from n (slot + 1) memory active in
    if slot_active active slot then slot_code memory slot else rest

unfoldable pub event_first_code : List ℕ → ℕ
unfolding first_code_from
event_first_code memory =
    first_code_from event_slot_max 0 memory (u8 (bit_and (get_or memory 0 0) 0x3f))
