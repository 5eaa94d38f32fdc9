-- ===== src/Event/Readout.antt =====
-- The event readout of src/master_isdu.c against the event memory of a device.
use mathlib.Core.Path.{subst}
use iolinki_master.Base.{
  ℕ, ◌+◌, ◌≤◌, ◌<◌, ◌≡◌, refl, sym, ap, ◌∙◌, Bool, true, false, ◌⊎◌, inl, inr, arith, List, [], ◌∷◌,
  get_or, take, drop, take_all, length, length-take, Bool-cases, leb, ◌&&◌, length-replicate,
  Option, none, some,
}
use iolinki_master.Types.Limits.{event_memory_len}
use iolinki_master.Types.State.{
  event_idle, event_read, event_write, EventState, EventReq, is_req_ack, is_req_none,
}
use iolinki_master.Types.Zero.{zero_event}
use iolinki_master.Isdu.Segments.{total}
use iolinki_master.Event.Transport.{
  event_finish, event_start, event_channel_access, on_event_octets, event_complete_read,
  event_on_od, event_on_written, event_first_code, event_complete,
}
use iolinki_master.Event.Service.{event_details}
use iolinki_master.Event.Memory.{on_octets-phase, on_octets-request}
use iolinki_master.Event.Slots.{octets_needed, octets_needed-le, details_lem, first_lem}
use iolinki_master.Event.Copy.{IsCopy, frame-IsFramed}

-- One message on the diagnosis channel: the device answers with its memory from the place that is
-- asked for, and takes what is written.
unfoldable pub answered : List ℕ → EventState → ℕ → Option (Bool × ℕ) → EventState
answered device e n none = e
answered device e n (some (true, addr)) = event_on_od e (take n (drop addr device)) n
answered device e n (some (false, addr)) = event_on_written e

unfoldable pub exchange : List ℕ → EventState → ℕ → EventState
unfolding answered
exchange device e n = answered device e n (event_channel_access e)

-- Messages of the given numbers of octets.
unfoldable pub readout : List ℕ → EventState → List ℕ → EventState
readout device e [] = e
readout device e (n ∷ ns) = readout device (exchange device e n) ns

-- Everything that the device shows has been read.
pub record IsRead (device : List ℕ) (want : EventReq) (e : EventState) : Type 0 where
  pub phase : (e.phase ≡ event_idle) ⊎ (e.phase ≡ event_write)
  pub request : e.request ≡ want
  pub octets : (i : ℕ) → i < octets_needed device → get_or e.memory i 0 ≡ get_or device i 0

-- The readout is under way.
pub record IsUnderWay (device : List ℕ) (want : EventReq) (e : EventState) : Type 0 where
  pub phase : e.phase ≡ event_read
  pub request : e.request ≡ want
  pub copy : IsCopy device e
  pub short : e.len < octets_needed device

module _ (device : List ℕ) (size : length device ≡ event_memory_len) (want : EventReq) where
  complete_lem :
      (e : EventState)
      → e.phase ≡ event_read
      → e.request ≡ want
      → IsCopy device e
      → IsRead device want (event_complete_read e)
        ⊎ (IsUnderWay device want (event_complete_read e) × (event_complete_read e ≡ e))
  unfolding event_complete_read event_finish
  complete_lem e p r c =
      let least : 1 ≤ octets_needed device = unfold octets_needed in omega arith in
      elim (Bool-cases (e.status_seen && leb e.needed e.len && leb 1 e.len)) [
        | inr more ↦
            let short : e.len < octets_needed device = ground (arith, more, c.status, least) in
            rw (more) (inr (record { phase = p; request = r; copy = c; short = short }, refl))
        | inl enough ↦
            let all : octets_needed device ≤ e.len = ground (arith, enough, c.status) in
            let octets : (i : ℕ)
                → i < octets_needed device
                → get_or e.memory i 0 ≡ get_or device i 0 =
              λ i k. c.octets i (omega (arith, k, all)) in
            elim (Bool-cases (is_req_ack e.request)) [
              | inl ack ↦
                  rw (enough, ack) (inl (record { phase = inr refl; request = r; octets = octets }))
              | inr ack ↦
                  rw (enough, ack) (inl (record { phase = inl refl; request = r; octets = octets }))
            ]
      ]

  asks : (e : EventState) → e.phase ≡ event_read → event_channel_access e ≡ some (true, e.addr)
  unfolding event_channel_access
  asks e p = rw (p) refl

  reads :
      (e : EventState) (n : ℕ)
      → e.phase ≡ event_read
      → event_on_od e (take n (drop e.addr device)) n
        ≡ event_complete_read (on_event_octets e (take n (take n (drop e.addr device))))
  unfolding event_on_od
  reads e n p = ground (arith, p)

  exchange_lem :
      (e : EventState) (n : ℕ)
      → e.phase ≡ event_read
      → e.addr ≡ e.len
      → exchange device e n ≡ event_complete_read (on_event_octets e (take n (drop e.len device)))
  unfolding exchange
  exchange_lem e n p a =
      let twice : take n (take n (drop e.addr device)) ≡ take n (drop e.len device) =
        take_all (take n (drop e.addr device)) n (omega (arith, length-take n (drop e.addr device)))
        ∙ ap (λ i. take n (drop i device)) a in
      ap (λ o. answered device e n o) (asks e p)
      ∙ reads e n p
      ∙ ap (λ od. event_complete_read (on_event_octets e od)) twice

  exchange-IsUnderWay :
      (e : EventState) (n : ℕ)
      → IsUnderWay device want e
      → IsRead device want (exchange device e n)
        ⊎ (IsUnderWay device want (exchange device e n) × ((exchange device e n).len ≡ e.len + n))
  exchange-IsUnderWay e n u =
      let od : List ℕ = take n (drop e.len device) in
      let e' : EventState = on_event_octets e od in
      let (c, l) = frame-IsFramed device size n e u.copy in
      let done =
        complete_lem e' (on_octets-phase od e ∙ u.phase) (on_octets-request od e ∙ u.request) c in
      subst (λ t. IsRead device want t ⊎ (IsUnderWay device want t × (t.len ≡ e.len + n)))
        (sym (exchange_lem e n u.phase u.copy.addr))
        (elim done [
          | inl read ↦ inl read
          | inr (under_way, same) ↦
              let len : (event_complete_read e').len ≡ e'.len =
                ap (λ (t : EventState). t.len) same in
              let short = under_way.short in
              let fits = octets_needed-le device in
              elim l [
                | inl counted ↦ inr (under_way, len ∙ counted)
                | inr full ↦ absurd (omega (arith, len, full, short, fits))
              ]
        ])

  exchange-IsRead :
      (e : EventState) (n : ℕ)
      → IsRead device want e
      → IsRead device want (exchange device e n) × ((exchange device e n).phase ≡ event_idle)
  unfolding exchange event_channel_access event_on_written event_finish
  exchange-IsRead e n d = elim d.phase [
    | inl idle ↦
        rw (idle) (record { phase = inl refl; request = d.request; octets = d.octets }, refl)
    | inr writing ↦
        rw (writing) (record { phase = inl refl; request = d.request; octets = d.octets }, refl)
  ]

  readout-IsRead :
      (ns : List ℕ) (e : EventState)
      → IsRead device want e
      → IsRead device want (readout device e ns)
  unfolding readout
  readout-IsRead [] e d = d
  readout-IsRead (n ∷ ns) e d = readout-IsRead ns (exchange device e n) (exchange-IsRead e n d).0

  readout-IsUnderWay :
      (ns : List ℕ) (e : EventState)
      → IsUnderWay device want e
      → octets_needed device ≤ e.len + total ns
      → IsRead device want (readout device e ns)
  unfolding readout
  readout-IsUnderWay [] e u h = absurd (omega (arith, u.short, h))
  readout-IsUnderWay (n ∷ ns) e u h = elim (exchange-IsUnderWay e n u) [
    | inl read ↦ readout-IsRead ns (exchange device e n) read
    | inr (under_way, len) ↦
        readout-IsUnderWay ns (exchange device e n) under_way (omega (arith, len, h))
  ]

start-IsUnderWay : (device : List ℕ) (want : EventReq) → IsUnderWay device want (event_start want)
unfolding event_start zero_event octets_needed
start-IsUnderWay device want = record {
  phase = refl;
  request = refl;
  copy = record {
    memory = length-replicate {A = ℕ} event_memory_len 0;
    addr = refl;
    len = omega arith;
    octets = λ i k. absurd (omega (arith, k));
    status = inl (refl, refl, refl);
  };
  short = omega arith;
}

-- A device has an event memory of 19 octets, and answers the messages of the diagnosis channel with
-- the octets of it from the place that the master asks for. Once the messages of a readout that was
-- started for some request have room for the octets up to the last active slot, and one further
-- message (which confirms the events if that is the request) has followed, the readout is complete
-- for that request, and the master finds the same first event and the same details as it would in
-- the memory of the device itself.
pub readout_complete :
    (device : List ℕ) (request : EventReq) (ns : List ℕ) (last max_events : ℕ)
    → length device ≡ event_memory_len
    → is_req_none request ≡ false
    → octets_needed device ≤ total ns
    → (event_complete (exchange device (readout device (event_start request) ns) last) ≡ true)
      × ((exchange device (readout device (event_start request) ns) last).request ≡ request)
      × (event_details
            (exchange device (readout device (event_start request) ns) last).memory
            max_events
          ≡ event_details device max_events)
      × (event_first_code (exchange device (readout device (event_start request) ns) last).memory
          ≡ event_first_code device)
unfolding event_complete
readout_complete device request ns last max_events size real room =
    let read =
      readout-IsUnderWay device size request ns (event_start request)
        (start-IsUnderWay device request) (omega (arith, room)) in
    let (d, idle) =
      exchange-IsRead device size request (readout device (event_start request) ns) last read in
    (
      rw (idle, d.request, real) refl,
      d.request,
      details_lem _ device d.octets max_events,
      first_lem _ device d.octets,
    )
