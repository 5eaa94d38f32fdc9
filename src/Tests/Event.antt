-- ===== src/Tests/Event.antt =====
-- The event memory of src/master_isdu.c at concrete contents.
use iolinki_master.Base.{
  ℕ, zero, suc, ◌≤◌, ◌<◌, ◌≡◌, ◌⊎◌, refl, true, false, arith, none, some, List, [], ◌∷◌, ◌++◌,
  replicate, length,
}
use iolinki_master.Types.Codes.{status_ok, status_pending}
use iolinki_master.Types.Limits.{event_memory_len}
use iolinki_master.Types.State.{
  State, EventState, event_read, event_idle, event_write, req_code, req_ack, is_event_read,
  is_req_none, is_req_ack, Port,
}
use iolinki_master.Types.Zero.{zero_event}
use iolinki_master.Isdu.Service.{is_online}
use iolinki_master.Event.Transport.{
  event_channel_access, event_start, event_on_od, last_slot_from, event_first_code, event_complete,
  slot_active,
}
use iolinki_master.Event.Service.{event_details, ack_event}
use iolinki_master.Event.Memory.{
  IsReading, event_start-IsReading, event_on_od-IsReading, length-event_details_no_room,
}
use iolinki_master.Event.Confirm.{with_answer, ack_event_unconfirmed}
use iolinki_master.Isdu.Segments.{total}
use iolinki_master.Event.Slots.{octets_needed, last_active, active_slots}
use iolinki_master.Event.Readout.{exchange, readout, readout_complete}
use iolinki_master.Tests.Instance.{port}

-- Slots 2 and 3 are active.
abbrev memory : List ℕ
memory = 0x06 ∷ 0 ∷ 0 ∷ 0 ∷ 0xf4 ∷ 0x8c ∷ 0x40 ∷ 0xe4 ∷ 0x18 ∷ 0x00 ∷ []

abbrev begun : EventState
begun = event_start req_code

begun-phase : begun.phase ≡ event_read
unfolding event_start
begun-phase = refl

event_on_od-IsReading_example :
    (length (event_on_od begun memory 10).memory ≡ event_memory_len)
    × ((event_on_od begun memory 10).len ≤ event_memory_len)
    × ((event_on_od begun memory 10).request ≡ begun.request)
    × ((IsReading (event_on_od begun memory 10)
          × ((event_on_od begun memory 10).phase ≡ event_read))
        ⊎ (((event_on_od begun memory 10).needed ≤ (event_on_od begun memory 10).len)
            × (((is_req_ack begun.request ≡ false)
                  × ((event_on_od begun memory 10).phase ≡ event_idle)
                  × ((event_on_od begun memory 10).result ≡ status_ok))
                ⊎ ((is_req_ack begun.request ≡ true)
                    × ((event_on_od begun memory 10).phase ≡ event_write)
                    × ((event_on_od begun memory 10).addr ≡ 0)))))
event_on_od-IsReading_example =
    event_on_od-IsReading begun memory 10 begun-phase (event_start-IsReading req_code)

slot_2 : slot_active 6 1 ≡ true
unfolding slot_active
slot_2 = refl

below : (j : ℕ) → j < 1 → slot_active 6 j ≡ false
unfolding slot_active
below zero h = refl
below (suc j) h = absurd (omega arith)

length-event_details_no_room_example : length (event_details memory 0) ≡ 1
length-event_details_no_room_example = length-event_details_no_room memory 1 (omega arith) slot_2

-- A readout for `read_event_code` is under way.
unfoldable reading : Port ℕ
unfolding port
reading = record port { state = State.operate; event = event_start req_code }

online : is_online reading ≡ true
unfolding is_online reading
online = refl

reading-phase : reading.event.phase ≡ event_read
unfolding reading event_start
reading-phase = refl

purpose : is_req_none reading.event.request ≡ false
unfolding reading event_start
purpose = refl

done : is_event_read (event_on_od reading.event memory 10).phase ≡ false
unfolding reading event_start event_on_od zero_event
done = refl

ack_event_unconfirmed_example :
    ((is_req_ack reading.event.request ≡ true)
      × ((ack_event (with_answer reading memory 10)).0 ≡ status_pending)
      × (event_channel_access (ack_event (with_answer reading memory 10)).2.event
          ≡ some (false, 0)))
    ⊎ ((is_req_ack reading.event.request ≡ false)
        × ((ack_event (with_answer reading memory 10)).0 ≡ status_ok)
        × ((ack_event (with_answer reading memory 10)).1
            ≡ some (event_first_code (event_on_od reading.event memory 10).memory))
        × (event_channel_access (ack_event (with_answer reading memory 10)).2.event ≡ none)
        × ((ack_event (ack_event (with_answer reading memory 10)).2).0 ≡ status_pending)
        × ((ack_event (ack_event (with_answer reading memory 10)).2).2.event ≡ event_start req_ack))
ack_event_unconfirmed_example =
    ack_event_unconfirmed reading memory 10 online reading-phase purpose done

-- The same memory in a device.
abbrev device : List ℕ
device = memory ++ replicate 9 0

device_size : length device ≡ event_memory_len
device_size = refl

enough : octets_needed device ≤ total (2 ∷ 2 ∷ 6 ∷ [])
unfolding octets_needed last_active active_slots last_slot_from slot_active
enough = omega arith

-- Three messages, and one to confirm.
readout_complete_example :
    (event_complete (exchange device (readout device (event_start req_ack) (2 ∷ 2 ∷ 6 ∷ [])) 2)
      ≡ true)
    × ((exchange device (readout device (event_start req_ack) (2 ∷ 2 ∷ 6 ∷ [])) 2).request
        ≡ req_ack)
    × (event_details
          (exchange device (readout device (event_start req_ack) (2 ∷ 2 ∷ 6 ∷ [])) 2).memory
          6
        ≡ event_details device 6)
    × (event_first_code
          (exchange device (readout device (event_start req_ack) (2 ∷ 2 ∷ 6 ∷ [])) 2).memory
        ≡ event_first_code device)
readout_complete_example =
    readout_complete device req_ack (2 ∷ 2 ∷ 6 ∷ []) 2 6 device_size refl enough
