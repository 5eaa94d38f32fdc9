-- ===== src/Event/Service.antt =====
-- src/master_isdu.c: the event services of a port.
use iolinki_master.Base.{
  ℕ, zero, suc, ◌+◌, ◌*◌, ◌/◌, ◌^◌, not, if◌then◌else◌, ◌==◌, leb, bit_and, u8, Option, none, some,
  List, [], ◌∷◌, get_or, length, ℤ,
}
use iolinki_master.Types.Codes.{status_ok, status_pending, isdu_err_invalid_state}
use iolinki_master.Types.Limits.{event_entry_len, event_slot_max}
use iolinki_master.Types.Config.{Event}
use iolinki_master.Types.State.{
  is_event_idle, EventReq, req_none, req_code, req_details, req_ack, Port, Sys,
}
use iolinki_master.Isdu.Service.{is_online}
use iolinki_master.Event.Transport.{
  event_start, event_complete, event_first_code, slot_active, slot_code,
}

-- The number of the `iolink_master_event_type_t`.
unfoldable pub event_type_from_qualifier : ℕ → ℕ
event_type_from_qualifier qualifier =
    let mode = u8 (bit_and (qualifier / 2 ^ 4) 0x03) in
    if mode == 1 then 1 else if mode == 2 then 2 else if mode == 3 then 3 else 0

unfoldable pub slot_event : List ℕ → ℕ → Event
unfolding event_type_from_qualifier slot_code
slot_event memory slot =
    let qualifier = get_or memory (u8 (1 + event_entry_len * slot)) 0 in
    record {
      qualifier = qualifier;
      type = event_type_from_qualifier qualifier;
      code = slot_code memory slot;
    }

-- The loop over the slots: the events written to `events[count]` on. The test of `max_events`
-- stands behind the write.
unfoldable pub details_from : ℕ → ℕ → List ℕ → ℕ → ℕ → ℕ → List Event
unfolding slot_active slot_event
details_from zero slot memory active count max_events = []
details_from (suc n) slot memory active count max_events =
    let skip = details_from n (slot + 1) memory active count max_events in
    let more = details_from n (slot + 1) memory active (count + 1) max_events in
    if not (slot_active active slot)
    then skip
    else slot_event memory slot ∷ (if leb max_events (count + 1) then [] else more)

unfoldable pub event_details : List ℕ → ℕ → List Event
unfolding details_from
event_details memory max_events =
    details_from event_slot_max 0 memory (u8 (bit_and (get_or memory 0 0) 0x3f)) 0 max_events

-- `events[count - 1].code`, or 0
unfoldable pub last_code : ℕ → List Event → ℕ
last_code code [] = code
last_code code (e ∷ es) = last_code e.code es

module _ {W : Type 0} where
  unfoldable pub begin_event : Port W → EventReq → Port W
  unfolding event_start
  begin_event p request = record p { event = event_start request }

  -- The result, `*event_code` if it is written, and the port.
  unfoldable pub read_event_code : Port W → ℤ × Option ℕ × Port W
  unfolding is_online event_complete event_first_code begin_event
  read_event_code p =
      let code = event_first_code p.event.memory in
      if not (is_online p)
      then (isdu_err_invalid_state, none, p)
      else if not (is_event_idle p.event.phase)
      then (status_pending, none, p)
      else if not (event_complete p.event)
      then (status_pending, none, begin_event p req_code)
      else (
        status_ok,
        some code,
        record p {
          event = record (p.event) { request = req_none };
          diagnostics = record (p.diagnostics) {
            last_event_code = code;
            last_event_count =
                if leb 1 p.event.last_slot then 1 else p.diagnostics.last_event_count;
          };
        },
      )

  unfoldable pub ack_event : Port W → ℤ × Option ℕ × Port W
  unfolding is_online event_complete event_first_code begin_event
  ack_event p =
      let code = event_first_code p.event.memory in
      if not (is_online p)
      then (isdu_err_invalid_state, none, p)
      else if not (is_event_idle p.event.phase)
      then (status_pending, none, p)
      else if not (event_complete p.event)
      then (status_pending, none, begin_event p req_ack)
      else (
        status_ok,
        some code,
        record p {
          event = record (p.event) { request = req_none };
          diagnostics = record (p.diagnostics) { last_event_code = code };
        },
      )

  -- The calls of `event_handler`, in order.
  unfoldable pub dispatch_events : (Event → W → W) → List Event → W → W
  dispatch_events handler [] w = w
  dispatch_events handler (e ∷ es) w = dispatch_events handler es (handler e w)

  handle_events : Option (Event → W → W) → List Event → W → W
  unfolding dispatch_events
  handle_events none es w = w
  handle_events (some handler) es w = dispatch_events handler es w

  -- The result, the events written to the caller's array, and the port with its world.
  unfoldable pub read_event_details : Sys W → ℕ → ℤ × Option (List Event) × Sys W
  unfolding is_online event_complete event_details begin_event last_code handle_events
  read_event_details s max_events =
      let p = s.port in
      let events = event_details p.event.memory max_events in
      if not (is_online p)
      then (isdu_err_invalid_state, none, s)
      else if not (is_event_idle p.event.phase)
      then (status_pending, none, s)
      else if not (event_complete p.event)
      then (status_pending, none, record s { port = begin_event p req_details })
      else (
        status_ok,
        some events,
        record {
          port = record p {
            event = record (p.event) { request = req_none };
            diagnostics = record (p.diagnostics) {
              last_event_count = length events;
              last_event_code = last_code 0 events;
            };
          };
          world = handle_events p.config.event_handler events s.world;
        },
      )
