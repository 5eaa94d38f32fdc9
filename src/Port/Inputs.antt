-- ===== src/Port/Inputs.antt =====
-- A cyclic exchange of src/master_port.c: the outputs go out, and the inputs of the reply come in.
use iolinki_master.Base.{
  ℕ, ◌+◌, ◌≤◌, ◌<◌, ◌≡◌, refl, ap, ◌∙◌, sym, false, ltb, u8, Option, some, List, [], ◌∷◌, ◌++◌,
  take, drop, length, length-append, take-append, ℤ, pos, arith,
}
use iolinki_master.Iolinki.{Iolinki, OperateResponse}
use iolinki_master.Types.Codes.{status_ok}
use iolinki_master.Types.Limits.{frame_buf_size}
use iolinki_master.Types.State.{State, StartupStep, Sys}
use iolinki_master.Params.Capability.{ckt_type_bits}
use iolinki_master.Isdu.Service.{copy_at}
use iolinki_master.Port.Process.{process}
use iolinki_master.Port.Receive.{poll_rx, poll_loop, decode_reply, expected_len}
use iolinki_master.Port.Status.{get_pd_in}
use iolinki_master.Port.Device.{IsFraming, Responds, IsLinked}
use iolinki_master.Port.Answers.{with_rx, poll_rx_lem}
use iolinki_master.Port.Arrive.{fill, length-fill, take-fill, IsTaken, arrive}
use iolinki_master.Port.Exchange.{
  IsCyclic, Exchanges, cycled, multi_lem, updated, accept_lem, on_rx_lem,
}
use iolinki_master.Port.Cycle.{outputs, cycled_lem}

cons_form :
    (xs : List ℕ) (y : ℕ)
    → (z : ℕ) × (zs : List ℕ) × (xs ++ y ∷ [] ≡ z ∷ zs) × (length zs ≡ length xs)
cons_form [] y = (y, [], refl, refl)
cons_form (x ∷ xs) y = (x, xs ++ y ∷ [], refl, omega (arith, length-append xs (y ∷ [])))

taken_back :
    (buf octets inputs : List ℕ) (n : ℕ)
    → n ≡ length inputs
    → take n octets ≡ inputs
    → take n (copy_at buf 0 (take n octets)) ≡ inputs
unfolding copy_at
taken_back buf octets inputs n e h =
    ap (λ xs. take n (xs ++ drop (0 + length xs) buf)) h
    ∙ ap (λ k. take k (inputs ++ drop (0 + length inputs) buf)) e
    ∙ take-append inputs (drop (0 + length inputs) buf)

module _ {W : Type 0} (send : List ℕ → ℕ → W → ℤ × W) (recv : W → ℤ × ℕ × W)
    (waiting : W → Option (List ℕ)) where
  -- What is left after the reply: the inputs are there, and the line is as it was.
  abbrev pub IsExchanged : StartupStep → List ℕ → Sys W → Sys W → Type 0
  IsExchanged at inputs s t =
      (waiting t.world ≡ some [] → IsLinked send recv waiting State.operate at [] t)
      × ((room : ℕ)
          → length inputs ≤ room
          → get_pd_in t.port room ≡ (status_ok, inputs, length inputs))
      × (t.port.config ≡ s.port.config)
      × (t.port.pd_out ≡ s.port.pd_out)

module _ {W : Type 0} (L : Iolinki) where
  reply-expected :
      (s : Sys W) {send : List ℕ → ℕ → W → ℤ × W} {recv : W → ℤ × ℕ × W}
      {waiting : W → Option (List ℕ)} {at : StartupStep} {octets : List ℕ}
      → IsLinked send recv waiting State.operate at octets s
      → IsCyclic s.port
      → s.port.rx_od_expected ≡ false
      → expected_len L s.port ≡ some (s.port.config.pd_in_len + 1)
  unfolding expected_len
  reply-expected s l c none_expected =
      let multi = multi_lem L s.port c.multi in
      let fit : u8 (s.port.config.pd_in_len + 0 + 1) ≡ s.port.config.pd_in_len + 1 =
        omega (arith, c.inputs) in
      rw (multi, none_expected, fit, l.state) refl

  decode_lem :
      (s : Sys W) (frame inputs : List ℕ) (n : ℕ) (r : ℤ × OperateResponse)
      → s.port.rx_od_expected ≡ false
      → s.port.config.pd_in_len ≡ length inputs
      → L.frame_decode_operate_response frame n (length inputs) 0 ≡ r
      → decode_reply L s frame n ≡ r
  unfolding decode_reply
  decode_lem s frame inputs n r none_expected size e = rw (none_expected, size) e

  inputs_read :
      (s : Sys W) (resp : OperateResponse) (buf inputs : List ℕ) (room : ℕ)
      → resp.pd_len ≡ length inputs
      → take (length inputs) resp.pd ≡ inputs
      → length inputs ≤ room
      → get_pd_in (with_rx (updated L s resp) buf 0).port room ≡ (status_ok, inputs, length inputs)
  unfolding get_pd_in
  inputs_read s resp buf inputs room size pd fits =
      let back = taken_back s.port.pd_in resp.pd inputs (length inputs) refl pd in
      let space : ltb room (length inputs) ≡ false = ground (arith, fits) in
      rw (size, space, back) refl

module _ {W : Type 0} (L : Iolinki) {send : List ℕ → ℕ → W → ℤ × W} {recv : W → ℤ × ℕ × W}
    {waiting : W → Option (List ℕ)} where
  reply-IsTaken :
      (s : Sys W) {at : StartupStep} {octets inputs : List ℕ} (type : ℕ)
      → IsLinked send recv waiting State.operate at octets s
      → IsCyclic s.port
      → s.port.rx_od_expected ≡ false
      → (e : Exchanges L send waiting type s.port.od_len (outputs s) inputs)
      → s.port.config.pd_in_len ≡ length inputs
      → (frame : List ℕ) → length frame ≡ frame_buf_size
      → take (length inputs + 1) frame ≡ inputs ++ e.check ∷ []
      → IsTaken L (IsExchanged send recv waiting at inputs s) s frame (length inputs + 1)
  reply-IsTaken s {at} {octets} {inputs} type l c none_expected e size frame long whole w =
      let full : Sys W = record (with_rx s frame (length inputs + 1)) { world = w } in
      let full_taken =
        on_rx_lem L full frame (length inputs + 1) e.response l.state
          (multi_lem L full.port c.multi) (ground arith)
          (decode_lem L full frame inputs (length inputs + 1) (pos 0, e.response) none_expected size
            (e.decodes frame whole))
          e.sealed in
      let accepted = accept_lem L full e.response l.no_event l.no_isdu e.valid e.calm in
      (
        updated L full e.response,
        full_taken ∙ ap (λ t. (status_ok, t)) accepted,
        refl,
        λ w'. (
          λ quiet. record {
            phy = l.phy;
            linked = l.linked;
            sends = l.sends;
            receives = l.receives;
            plain = l.plain;
            state = l.state;
            step = l.step;
            waits = quiet;
            rx_len = refl;
            rx_size = long;
            tx_size = l.tx_size;
            no_event = l.no_event;
            no_isdu = l.no_isdu;
            no_abort = l.no_abort;
            no_idle = l.no_idle;
          },
          λ room fits. inputs_read L full e.response frame inputs room e.pd_len e.pd fits,
          refl,
          refl,
        ),
      )

module _ {W : Type 0} (L : Iolinki) (send : List ℕ → ℕ → W → ℤ × W) (recv : W → ℤ × ℕ × W)
    (waiting : W → Option (List ℕ)) (framing : IsFraming L)
    (responds : Responds L send recv waiting) (header : L.m_seq_header_len ≡ 2)
    (local : (xs : List ℕ) (n : ℕ) → L.checksum6 xs n ≡ L.checksum6 (take n xs) n) where
  -- A cyclic exchange with a device that answers, for a type of several octets. A port in OPERATE,
  -- on a line on which nothing waits, without callbacks around the line and without an active
  -- service, sends in one call of `process` its outputs, with zeros as on-request data. If the
  -- device answers this message by a reply that the library decodes as valid inputs of the
  -- configured length without an event, one reception takes in one frame; `get_pd_in` then returns
  -- these inputs for a buffer that has room for them, and the port is in OPERATE and ready for the
  -- next cycle, with the same configuration and outputs. The reception has fuel for the octets of
  -- the reply and one more; message and reply fit into their buffers, the library lays out its
  -- control octet as documented, the header has two octets, and the checksum reads only the octets
  -- of the message.
  pub get_pd_in-poll_rx :
      (fuel room : ℕ) (s : Sys W) {at : StartupStep} {inputs : List ℕ}
      → IsLinked send recv waiting State.operate at [] s
      → IsCyclic s.port
      → Exchanges L send waiting
          (ckt_type_bits s.port.config.m_seq_type)
          s.port.od_len
          (outputs s)
          inputs
      → s.port.config.pd_in_len ≡ length inputs
      → length inputs + 1 < fuel
      → length inputs ≤ room
      → (t : Sys W) × (poll_rx L fuel (process L s) ≡ some (pos 1, t))
        × IsLinked send recv waiting State.operate at [] t
        × (get_pd_in t.port room ≡ (status_ok, inputs, length inputs))
        × (t.port.config ≡ s.port.config)
        × (t.port.pd_out ≡ s.port.pd_out)
  get_pd_in-poll_rx fuel room s {at} {inputs} l c e size enough fits =
      let (processed, l', none_expected) = cycled_lem L framing header local s l c e in
      let s' : Sys W = cycled L send s in
      let (x, xs, split, same) = cons_form inputs e.check in
      let total : 1 + length xs ≡ length inputs + 1 = omega (arith, same) in
      let total0 : length inputs + 1 ≡ 0 + length (x ∷ xs) = omega (arith, same) in
      let frame : List ℕ = fill s'.port.rx.buf 0 (x ∷ xs) in
      let whole : take (length inputs + 1) frame ≡ inputs ++ e.check ∷ [] =
        ap (λ k. take k frame) total0
        ∙ take-fill s'.port.rx.buf 0 (x ∷ xs) (omega (arith, l.rx_size, total, size, c.inputs))
        ∙ sym split in
      let (t, received, quiet, kept) =
        arrive L recv responds fuel xs (IsExchanged send recv waiting at inputs s') s' x 0
          (length inputs + 1) 0 l'.rx_len (l'.waits ∙ ap some split) total
          (omega (arith, size, c.inputs)) (omega (arith, enough, total))
          (reply-IsTaken L s' (ckt_type_bits s.port.config.m_seq_type) l'
            (record { multi = c.multi; outputs = c.outputs; room = c.room; inputs = c.inputs })
            none_expected e size frame (length-fill s'.port.rx.buf 0 (x ∷ xs) ∙ l.rx_size) whole) in
      (
        t,
        ap (λ u. poll_rx L fuel u) processed
            ∙ poll_rx_lem L recv fuel s' l'.phy (s.port.config.pd_in_len + 1) l'.linked l'.receives
                (reply-expected L s' l'
                  (record {
                    multi = c.multi;
                    outputs = c.outputs;
                    room = c.room;
                    inputs = c.inputs;
                  })
                  none_expected)
            ∙ ap (λ k. poll_loop L fuel recv s' k 0) (ap (λ n. n + 1) size)
            ∙ received,
        kept.0 quiet,
        kept.1 room fits,
        kept.2,
        kept.3,
      )
