-- ===== src/Event/Confirm.antt =====
-- The acknowledgement of events in src/master_isdu.c, and the readouts that it may take over.
use iolinki_master.Base.{◌≡◌, true, false, ◌⊎◌, arith, none, some, List, ℕ, take}
use iolinki_master.Types.Codes.{status_ok, status_pending}
use iolinki_master.Types.State.{event_read, is_event_read, is_req_ack, is_req_none, req_ack, Port}
use iolinki_master.Isdu.Service.{is_online}
use iolinki_master.Event.Transport.{
  event_finish, event_start, event_channel_access, event_complete_read, event_on_od, event_complete,
  event_first_code,
}
use iolinki_master.Event.Service.{ack_event, begin_event}
use iolinki_master.Event.Memory.{on_octets-phase, on_octets-request}

-- The port after an answer of the device to a readout.
abbrev pub with_answer : {W : Type 0} → Port W → List ℕ → ℕ → Port W
with_answer p od od_len = record p { event = event_on_od p.event od od_len }

-- When a readout has just got the octets that it needs, an acknowledgement depends on what the
-- readout was for. If it was for an acknowledgement, the call is pending and the write to address 0
-- that confirms the events comes next. If it was for another purpose, the call succeeds at once
-- with the first code, nothing is left to send, so that the confirming write is never made, and
-- the readout is used up: the next acknowledgement starts one of its own.
pub ack_event_unconfirmed :
    {W : Type 0} (p : Port W) (od : List ℕ) (od_len : ℕ)
    → is_online p ≡ true
    → p.event.phase ≡ event_read
    → is_req_none p.event.request ≡ false
    → is_event_read (event_on_od p.event od od_len).phase ≡ false
    → ((is_req_ack p.event.request ≡ true)
        × ((ack_event (with_answer p od od_len)).0 ≡ status_pending)
        × (event_channel_access (ack_event (with_answer p od od_len)).2.event ≡ some (false, 0)))
      ⊎ ((is_req_ack p.event.request ≡ false)
          × ((ack_event (with_answer p od od_len)).0 ≡ status_ok)
          × ((ack_event (with_answer p od od_len)).1
              ≡ some (event_first_code (event_on_od p.event od od_len).memory))
          × (event_channel_access (ack_event (with_answer p od od_len)).2.event ≡ none)
          × ((ack_event (ack_event (with_answer p od od_len)).2).0 ≡ status_pending)
          × ((ack_event (ack_event (with_answer p od od_len)).2).2.event ≡ event_start req_ack))
unfolding ack_event event_complete event_on_od event_complete_read event_finish event_channel_access
    is_online begin_event
ack_event_unconfirmed p od od_len on h n d =
    ground
      (arith, on_octets-phase (take od_len od) p.event, on_octets-request (take od_len od) p.event)
