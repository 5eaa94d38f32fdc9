-- ===== src/Port/Wake.antt =====
-- The messages of src/master_port.c that establish communication, to a device that answers.
use iolinki_master.Base.{
  ℕ, ◌<◌, ◌≡◌, refl, ap, ◌∙◌, true, false, bit_and, u8, Option, some, List, [], ◌∷◌, get_or, set,
  length, length-set, ℤ, pos, arith, is_pos,
}
use iolinki_master.Iolinki.{Iolinki}
use iolinki_master.Types.Codes.{mc_channel_page}
use iolinki_master.Types.Limits.{frame_buf_size, wakeup_byte}
use iolinki_master.Types.Config.{Phy}
use iolinki_master.Types.State.{State, wake, send_type0, await_response, Sys}
use iolinki_master.Params.Wire.{encode_master_command}
use iolinki_master.Params.Codec.{mc-encode_master_command}
use iolinki_master.Port.Line.{wake_up, wake_up_by}
use iolinki_master.Port.Establish.{arm_send_gate}
use iolinki_master.Port.Frames.{send_built}
use iolinki_master.Port.Process.{
  process, process_at, process_in, process_startup, process_startup_step, process_wake,
  process_test_message, gate_closed,
}
use iolinki_master.Port.Device.{
  IsFraming, Responds, IsPlain, IsLinked, sent_by, sending, send_full_lem,
}

head_set : (xs : List ℕ) (v : ℕ) → 0 < length xs → get_or (set xs 0 v) 0 0 ≡ v
head_set [] v h = absurd (omega arith)
head_set (x ∷ xs) v h = refl

module _ {W : Type 0} (L : Iolinki) (send : List ℕ → ℕ → W → ℤ × W) where
  abbrev pub woken : Sys W → Sys W
  woken s =
      let tx = set s.port.tx_buf 0 wakeup_byte in
      let s' = sent_by L send (record s { port = record (s.port) { tx_buf = tx } }) tx 1 in
      record s' {
        port = record (s'.port) { startup = record (s'.port.startup) { step = send_type0 } };
      }

  -- The test message.
  abbrev pub framed : Sys W → Sys W
  framed s =
      let mc = encode_master_command L true mc_channel_page 0x02 in
      record s {
        port = record (s.port) {
          tx_buf = (L.frame_encode_type0 mc s.port.tx_buf frame_buf_size).1;
        };
      }

  abbrev pub tested : Sys W → Sys W
  tested s =
      let s' = sent_by L send (framed s) (framed s).port.tx_buf 2 in
      record s' {
        port = record (s'.port) { startup = record (s'.port.startup) { step = await_response } };
      }

  pub send_built_lem :
      (s : Sys W) (phy : Phy W) (n : ℕ)
      → s.port.phy ≡ some phy
      → phy.send ≡ some send
      → IsPlain s.port.config
      → 0 < n
      → (send s.port.tx_buf n s.world).0 ≡ pos n
      → send_built L s (pos n) ≡ (true, true, sent_by L send s s.port.tx_buf n)
  unfolding send_built
  send_built_lem s phy n p e c h ok =
      let some_octets : is_pos (pos n) ≡ true = ground (arith, h) in
      rw (some_octets, send_full_lem L send s phy s.port.tx_buf n p e c.prepare_tx c.prepare_rx ok)
        refl

module _ {W : Type 0} (L : Iolinki) {send : List ℕ → ℕ → W → ℤ × W} {recv : W → ℤ × ℕ × W}
    {waiting : W → Option (List ℕ)} (framing : IsFraming L)
    (responds : Responds L send recv waiting) where
  wake_up_lem :
      (s : Sys W)
      → IsLinked send recv waiting State.startup wake [] s
      → wake_up L s ≡ (
        true,
        sent_by L send
            (record s { port = record (s.port) { tx_buf = set s.port.tx_buf 0 wakeup_byte } })
            (set s.port.tx_buf 0 wakeup_byte)
            1,
      )
  unfolding wake_up wake_up_by
  wake_up_lem s l =
      let tx : List ℕ = set s.port.tx_buf 0 wakeup_byte in
      ap (λ c. wake_up_by L c s) l.plain.wake_up
      ∙ send_full_lem L send (record s { port = record (s.port) { tx_buf = tx } }) l.phy tx 1
          l.linked l.sends l.plain.prepare_tx l.plain.prepare_rx
          (responds.wakes tx s.world (head_set s.port.tx_buf wakeup_byte (omega (arith, l.tx_size)))
            l.waits).0

  process_wake_lem :
      (s : Sys W)
      → IsLinked send recv waiting State.startup wake [] s
      → process_wake L s 0 false ≡ woken L send s
  unfolding process_wake arm_send_gate
  process_wake_lem s l = rw (wake_up_lem s l) refl

  process-wake :
      (s : Sys W)
      → IsLinked send recv waiting State.startup wake [] s
      → process L s ≡ process_wake L s 0 false
  unfolding process process_at gate_closed process_in process_startup process_startup_step
  process-wake s l = rw (sending s l, l.state, l.step) refl

  pub woken-IsLinked :
      (s : Sys W)
      → IsLinked send recv waiting State.startup wake [] s
      → (process L s ≡ woken L send s)
        × IsLinked send recv waiting State.startup send_type0 [] (woken L send s)
  woken-IsLinked s l =
      let tx : List ℕ = set s.port.tx_buf 0 wakeup_byte in
      (
        process-wake s l ∙ process_wake_lem s l,
        record {
          phy = l.phy;
          linked = l.linked;
          sends = l.sends;
          receives = l.receives;
          plain = l.plain;
          state = l.state;
          step = refl;
          waits =
              (responds.wakes tx s.world
                (head_set s.port.tx_buf wakeup_byte (omega (arith, l.tx_size))) l.waits).1;
          rx_len = l.rx_len;
          rx_size = l.rx_size;
          tx_size = length-set s.port.tx_buf 0 wakeup_byte ∙ l.tx_size;
          no_event = l.no_event;
          no_isdu = l.no_isdu;
          no_abort = l.no_abort;
          no_idle = l.no_idle;
        },
      )

  test_mc : encode_master_command L true mc_channel_page 0x02 ≡ 0xa2
  test_mc =
      (mc-encode_master_command L true mc_channel_page 0x02 framing.mc (omega arith)
        (omega arith)).3

  framed-answer :
      (s : Sys W)
      → IsLinked send recv waiting State.startup send_type0 [] s
      → ((send (framed L send s).port.tx_buf 2 s.world).0 ≡ pos 2)
        × (octet : ℕ) × (check : ℕ) × (waiting (send (framed L send s).port.tx_buf 2 s.world).1
            ≡ some (octet ∷ check ∷ []))
        × (L.checksum6 (octet ∷ u8 (bit_and check 0xc0) ∷ []) 2 ≡ u8 (bit_and check 0x3f))
  framed-answer s l =
      responds.tests (framed L send s).port.tx_buf s.world
        (framing.read_mc (encode_master_command L true mc_channel_page 0x02) s.port.tx_buf
            frame_buf_size (omega (arith, l.tx_size))
          ∙ test_mc)
        l.waits

  process_test_message_lem :
      (s : Sys W)
      → IsLinked send recv waiting State.startup send_type0 [] s
      → process_test_message L s 0 false ≡ tested L send s
  unfolding process_test_message
  process_test_message_lem s l =
      let f =
        framing.read_len (encode_master_command L true mc_channel_page 0x02) s.port.tx_buf
          frame_buf_size in
      rw
        (
          f,
          send_built_lem L send (framed L send s) l.phy 2 l.linked l.sends l.plain (omega arith)
              (framed-answer s l).0,
        )
        refl

  process-test :
      (s : Sys W)
      → IsLinked send recv waiting State.startup send_type0 [] s
      → process L s ≡ process_test_message L s 0 false
  unfolding process process_at gate_closed process_in process_startup process_startup_step
  process-test s l = rw (sending s l, l.state, l.step) refl

  pub tested-IsLinked :
      (s : Sys W)
      → IsLinked send recv waiting State.startup send_type0 [] s
      → (process L s ≡ tested L send s)
        × (octet : ℕ) × (check : ℕ) × IsLinked send recv waiting State.startup await_response
            (octet ∷ check ∷ [])
            (tested L send s)
        × (L.checksum6 (octet ∷ u8 (bit_and check 0xc0) ∷ []) 2 ≡ u8 (bit_and check 0x3f))
  tested-IsLinked s l =
      let (ok, octet, check, waits, sealed) = framed-answer s l in
      (
        process-test s l ∙ process_test_message_lem s l,
        octet,
        check,
        record {
          phy = l.phy;
          linked = l.linked;
          sends = l.sends;
          receives = l.receives;
          plain = l.plain;
          state = l.state;
          step = refl;
          waits = waits;
          rx_len = l.rx_len;
          rx_size = l.rx_size;
          tx_size =
              framing.read_size (encode_master_command L true mc_channel_page 0x02) s.port.tx_buf
                frame_buf_size (omega (arith, l.tx_size))
              ∙ l.tx_size;
          no_event = l.no_event;
          no_isdu = l.no_isdu;
          no_abort = l.no_abort;
          no_idle = l.no_idle;
        },
        sealed,
      )
