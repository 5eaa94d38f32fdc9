-- ===== src/Port/Operate.antt =====
-- The DeviceOperate write of src/master_port.c, to a device that answers.
use iolinki_master.Base.{
  ℕ, ◌≡◌, refl, ap, ◌∙◌, false, bit_and, u8, Option, none, some, List, [], ◌∷◌, ℤ, pos, arith,
}
use iolinki_master.Iolinki.{Iolinki}
use iolinki_master.Types.Codes.{mc_channel_page}
use iolinki_master.Types.Limits.{frame_buf_size}
use iolinki_master.Types.Config.{Config}
use iolinki_master.Types.State.{
  State, await_response, await_operate_ack, Sys, event_idle, op_none, EventState, Isdu,
}
use iolinki_master.Params.Wire.{encode_master_command}
use iolinki_master.Params.Codec.{mc-encode_master_command}
use iolinki_master.Event.Transport.{event_channel_access}
use iolinki_master.Isdu.Transport.{isdu_take_abort, isdu_take_idle, isdu_channel_access}
use iolinki_master.Port.Frames.{send_event, send_event_access, send_isdu, send_isdu_service}
use iolinki_master.Port.Process.{
  process, process_at, process_in, gate_closed, process_preoperate, validate_and_operate,
  send_device_operate, startup_validation_required,
}
use iolinki_master.Port.Device.{IsFraming, Responds, IsPlain, IsLinked, sent_by, sending}
use iolinki_master.Port.Wake.{send_built_lem}

pub no_access : (e : EventState) → e.phase ≡ event_idle → event_channel_access e ≡ none
unfolding event_channel_access
no_access e h = rw (h) refl

no_abort_taken : (i : Isdu) → i.abort_pending ≡ false → isdu_take_abort i ≡ (false, i)
unfolding isdu_take_abort
no_abort_taken i h = rw (h) refl

no_idle_taken : (i : Isdu) → i.idle_pending ≡ false → isdu_take_idle i ≡ (false, i)
unfolding isdu_take_idle
no_idle_taken i h = rw (h) refl

no_isdu_access : (L : Iolinki) (i : Isdu) → i.op ≡ op_none → isdu_channel_access L i ≡ none
unfolding isdu_channel_access
no_isdu_access L i h = rw (h) refl

-- Without an active service nothing is sent for one.
module _ {W : Type 0} (L : Iolinki) (s : Sys W) where
  pub no_event_sent : s.port.event.phase ≡ event_idle → send_event L s ≡ (false, s)
  unfolding send_event send_event_access
  no_event_sent e = ap (λ a. send_event_access L s a) (no_access s.port.event e)

  pub no_isdu_sent :
      s.port.isdu.op ≡ op_none
      → s.port.isdu.abort_pending ≡ false
      → s.port.isdu.idle_pending ≡ false
      → send_isdu L s ≡ (false, s)
  unfolding send_isdu send_isdu_service
  no_isdu_sent o a i =
      rw (no_abort_taken s.port.isdu a, no_idle_taken s.port.isdu i, no_isdu_access L s.port.isdu o)
        refl

module _ {W : Type 0} (L : Iolinki) (send : List ℕ → ℕ → W → ℤ × W) where
  -- The DeviceOperate write.
  abbrev pub written : Sys W → Sys W
  written s =
      let mc = encode_master_command L false mc_channel_page 0x00 in
      record s {
        port = record (s.port) {
          tx_buf =
              (L.frame_encode_type0_write mc L.cmd_device_operate s.port.tx_buf frame_buf_size).1;
        };
      }

  abbrev pub operated : Sys W → Sys W
  operated s =
      let s' = sent_by L send (written s) (written s).port.tx_buf 3 in
      record s' {
        port = record (s'.port) { startup = record (s'.port.startup) { step = await_operate_ack } };
      }

module _ {W : Type 0} (L : Iolinki) {send : List ℕ → ℕ → W → ℤ × W} {recv : W → ℤ × ℕ × W}
    {waiting : W → Option (List ℕ)} (framing : IsFraming L)
    (responds : Responds L send recv waiting) where
  operate_mc : encode_master_command L false mc_channel_page 0x00 ≡ 0x20
  operate_mc =
      (mc-encode_master_command L false mc_channel_page 0x00 framing.mc (omega arith)
        (omega arith)).3

  written-answer :
      (s : Sys W)
      → IsLinked send recv waiting State.preoperate await_response [] s
      → ((send (written L send s).port.tx_buf 3 s.world).0 ≡ pos 3)
        × (check : ℕ) × (waiting (send (written L send s).port.tx_buf 3 s.world).1
            ≡ some (check ∷ []))
        × (L.checksum6 (u8 (bit_and check 0xc0) ∷ []) 1 ≡ u8 (bit_and check 0x3f))
  written-answer s l =
      let mc : ℕ = encode_master_command L false mc_channel_page 0x00 in
      responds.operates (written L send s).port.tx_buf s.world
        (framing.write_mc mc L.cmd_device_operate s.port.tx_buf frame_buf_size
            (omega (arith, l.tx_size))
          ∙ operate_mc)
        (framing.write_od mc L.cmd_device_operate s.port.tx_buf frame_buf_size
          (omega (arith, l.tx_size)))
        l.waits

  send_device_operate_lem :
      (s : Sys W)
      → IsLinked send recv waiting State.preoperate await_response [] s
      → send_device_operate L s ≡ operated L send s
  unfolding send_device_operate
  send_device_operate_lem s l =
      let f =
        framing.write_len (encode_master_command L false mc_channel_page 0x00) L.cmd_device_operate
          s.port.tx_buf frame_buf_size in
      rw
        (
          f,
          send_built_lem L send (written L send s) l.phy 3 l.linked l.sends l.plain (omega arith)
              (written-answer s l).0,
        )
        refl

  validate_and_operate_lem :
      (s : Sys W)
      → startup_validation_required s.port.config ≡ false
      → validate_and_operate L s ≡ send_device_operate L s
  unfolding validate_and_operate
  validate_and_operate_lem s v = rw (v) refl

  plain_lem : (c : Config W) → IsPlain c → startup_validation_required c ≡ false
  unfolding startup_validation_required
  plain_lem c p = rw (p.unchecked, p.uninspected) refl

  process_preoperate_lem :
      (s : Sys W)
      → IsLinked send recv waiting State.preoperate await_response [] s
      → process_preoperate L s ≡ validate_and_operate L s
  unfolding process_preoperate
  process_preoperate_lem s l =
      rw
        (
          no_event_sent L s l.no_event,
          no_isdu_sent L s l.no_isdu l.no_abort l.no_idle,
          plain_lem s.port.config l.plain,
        )
        refl

  process-operate :
      (s : Sys W)
      → IsLinked send recv waiting State.preoperate await_response [] s
      → process L s ≡ process_preoperate L s
  unfolding process process_at gate_closed process_in
  process-operate s l = rw (sending s l, l.state) refl

  pub operated-IsLinked :
      (s : Sys W)
      → IsLinked send recv waiting State.preoperate await_response [] s
      → (process L s ≡ operated L send s)
        × (check : ℕ) × IsLinked send recv waiting State.preoperate await_operate_ack
            (check ∷ [])
            (operated L send s)
        × (L.checksum6 (u8 (bit_and check 0xc0) ∷ []) 1 ≡ u8 (bit_and check 0x3f))
  operated-IsLinked s l =
      let (ok, check, waits, sealed) = written-answer s l in
      (
        process-operate s l
            ∙ process_preoperate_lem s l
            ∙ validate_and_operate_lem s (plain_lem s.port.config l.plain)
            ∙ send_device_operate_lem s l,
        check,
        record {
          phy = l.phy;
          linked = l.linked;
          sends = l.sends;
          receives = l.receives;
          plain = l.plain;
          state = l.state;
          step = refl;
          waits = waits;
          rx_len = l.rx_len;
          rx_size = l.rx_size;
          tx_size =
              framing.write_size (encode_master_command L false mc_channel_page 0x00)
                L.cmd_device_operate s.port.tx_buf frame_buf_size (omega (arith, l.tx_size))
              ∙ l.tx_size;
          no_event = l.no_event;
          no_isdu = l.no_isdu;
          no_abort = l.no_abort;
          no_idle = l.no_idle;
        },
        sealed,
      )
