-- ===== src/Port/Device.antt =====
-- What src/master_port.c relies on when it establishes communication: the framing of the library,
-- and a device that answers.
use iolinki_master.Base.{
  ℕ, ◌≤◌, ◌≡◌, refl, ap, ◌∙◌, true, false, not, ◌==◌, bit_and, u8, Option, none, some, List, [],
  ◌∷◌, get_or, length, ℤ, pos, arith,
}
use iolinki_master.Iolinki.{Iolinki}
use iolinki_master.Types.Codes.{inspection_no_check}
use iolinki_master.Types.Limits.{frame_buf_size, wakeup_byte}
use iolinki_master.Types.Config.{Phy, Config}
use iolinki_master.Types.State.{State, StartupStep, Sys, event_idle, op_none}
use iolinki_master.Params.Codec.{IsSpecMc}
use iolinki_master.Port.Line.{phy_send, send_full, send_prepared, call_send, optional_call}

-- The TYPE_0 frames of the library: a read has two octets and a write three, with MC in front and
-- the written octet behind CKT.
pub record IsFraming (L : Iolinki) : Type 0 where
  pub mc : IsSpecMc L
  pub type0 : L.m_seq_type0_len ≡ 2
  pub read_len : (mc : ℕ) (buf : List ℕ) (size : ℕ) → (L.frame_encode_type0 mc buf size).0 ≡ pos 2
  pub read_mc :
      (mc : ℕ) (buf : List ℕ) (size : ℕ)
      → 3 ≤ length buf
      → get_or (L.frame_encode_type0 mc buf size).1 0 0 ≡ mc
  pub read_size :
      (mc : ℕ) (buf : List ℕ) (size : ℕ)
      → 3 ≤ length buf
      → length (L.frame_encode_type0 mc buf size).1 ≡ length buf
  pub write_len :
      (mc od : ℕ) (buf : List ℕ) (size : ℕ) → (L.frame_encode_type0_write mc od buf size).0 ≡ pos 3
  pub write_mc :
      (mc od : ℕ) (buf : List ℕ) (size : ℕ)
      → 3 ≤ length buf
      → get_or (L.frame_encode_type0_write mc od buf size).1 0 0 ≡ mc
  pub write_od :
      (mc od : ℕ) (buf : List ℕ) (size : ℕ)
      → 3 ≤ length buf
      → get_or (L.frame_encode_type0_write mc od buf size).1 2 0 ≡ od
  pub write_size :
      (mc od : ℕ) (buf : List ℕ) (size : ℕ)
      → 3 ≤ length buf
      → length (L.frame_encode_type0_write mc od buf size).1 ≡ length buf

-- The line hands out the octets that wait on it one by one; `none` is a line that is in no such state. The device on it stays silent at a
-- wake-up, answers the test message by an octet and its check, and the DeviceOperate write by a
-- check alone.
pub record Responds {W : Type 0} (L : Iolinki) (send : List ℕ → ℕ → W → ℤ × W)
    (recv : W → ℤ × ℕ × W) (waiting : W → Option (List ℕ)) : Type 0 where
  pub takes :
      (w : W) (x : ℕ) (xs : List ℕ)
      → waiting w ≡ some (x ∷ xs)
      → ((recv w).0 ≡ pos 1) × ((recv w).1 ≡ x) × (waiting (recv w).2 ≡ some xs)
  pub rests : (w : W) → waiting w ≡ some [] → ((recv w).0 ≡ pos 0) × (waiting (recv w).2 ≡ some [])
  pub wakes :
      (tx : List ℕ) (w : W)
      → get_or tx 0 0 ≡ wakeup_byte
      → waiting w ≡ some []
      → ((send tx 1 w).0 ≡ pos 1) × (waiting (send tx 1 w).1 ≡ some [])
  pub tests :
      (tx : List ℕ) (w : W)
      → get_or tx 0 0 ≡ 0xa2
      → waiting w ≡ some []
      → ((send tx 2 w).0 ≡ pos 2)
        × (octet : ℕ) × (check : ℕ) × (waiting (send tx 2 w).1 ≡ some (octet ∷ check ∷ []))
        × (L.checksum6 (octet ∷ u8 (bit_and check 0xc0) ∷ []) 2 ≡ u8 (bit_and check 0x3f))
  pub operates :
      (tx : List ℕ) (w : W)
      → get_or tx 0 0 ≡ 0x20
      → get_or tx 2 0 ≡ L.cmd_device_operate
      → waiting w ≡ some []
      → ((send tx 3 w).0 ≡ pos 3)
        × (check : ℕ) × (waiting (send tx 3 w).1 ≡ some (check ∷ []))
        × (L.checksum6 (u8 (bit_and check 0xc0) ∷ []) 1 ≡ u8 (bit_and check 0x3f))

-- A configuration without callbacks around the line, and without a validation of the device.
pub record IsPlain {W : Type 0} (c : Config W) : Type 0 where
  pub wake_up : c.wake_up ≡ none
  pub prepare_tx : c.prepare_tx ≡ none
  pub prepare_rx : c.prepare_rx ≡ none
  pub unchecked : c.validate_device_info ≡ false
  pub uninspected : c.inspection_level ≡ inspection_no_check

-- A port on such a line, in a state and at a startup step, with some octets waiting: its buffers
-- have their sizes, nothing has been received yet, and no service is active.
pub record IsLinked {W : Type 0} (send : List ℕ → ℕ → W → ℤ × W) (recv : W → ℤ × ℕ × W)
    (waiting : W → Option (List ℕ)) (st : State) (at : StartupStep) (octets : List ℕ) (s : Sys W)
    : Type 0 where
  pub phy : Phy W
  pub linked : s.port.phy ≡ some phy
  pub sends : phy.send ≡ some send
  pub receives : phy.recv_byte ≡ some recv
  pub plain : IsPlain s.port.config
  pub state : s.port.state ≡ st
  pub step : s.port.startup.step ≡ at
  pub waits : waiting s.world ≡ some octets
  pub rx_len : s.port.rx.len ≡ 0
  pub rx_size : length s.port.rx.buf ≡ frame_buf_size
  pub tx_size : length s.port.tx_buf ≡ frame_buf_size
  pub no_event : s.port.event.phase ≡ event_idle
  pub no_isdu : s.port.isdu.op ≡ op_none
  pub no_abort : s.port.isdu.abort_pending ≡ false
  pub no_idle : s.port.isdu.idle_pending ≡ false

module _ {W : Type 0} (L : Iolinki) where
  -- A send that succeeds changes the world and what the reply is expected to hold.
  abbrev pub sent_by : (List ℕ → ℕ → W → ℤ × W) → Sys W → List ℕ → ℕ → Sys W
  sent_by send s tx len = record {
    world = (send tx len s.world).1;
    port = record (s.port) { rx_od_expected = not (bit_and (get_or tx 0 0) L.mc_rw_mask == 0) };
  }

  pub send_full_lem :
      (send : List ℕ → ℕ → W → ℤ × W) (s : Sys W) (phy : Phy W) (tx : List ℕ) (len : ℕ)
      → s.port.phy ≡ some phy
      → phy.send ≡ some send
      → s.port.config.prepare_tx ≡ none
      → s.port.config.prepare_rx ≡ none
      → (send tx len s.world).0 ≡ pos len
      → send_full L s tx len ≡ (true, sent_by send s tx len)
  unfolding send_full send_prepared call_send optional_call
  send_full_lem send s phy tx len p e t r ok =
      let q : phy_send s.port.phy ≡ some send = ap phy_send p ∙ e in
      let same : (len == len) ≡ true = ground arith in rw (q, t, r, ok, same) refl

module _ {W : Type 0} {send : List ℕ → ℕ → W → ℤ × W} {recv : W → ℤ × ℕ × W}
    {waiting : W → Option (List ℕ)} where
  pub sending :
      {st : State} {at : StartupStep} {octets : List ℕ} (s : Sys W)
      → IsLinked send recv waiting st at octets s
      → phy_send s.port.phy ≡ some send
  sending s l = ap phy_send l.linked ∙ l.sends
