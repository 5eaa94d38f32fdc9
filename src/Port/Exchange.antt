-- ===== src/Port/Exchange.antt =====
-- A cyclic exchange of src/master_port.c in OPERATE, with a device that answers.
use iolinki_master.Base.{
  ℕ, ◌+◌, ◌≤◌, ◌<◌, ◌≡◌, refl, ap, ◌∙◌, true, false, ◌==◌, u32, Option, some, List, [], ◌∷◌, ◌++◌,
  take, replicate, length, ℤ, pos, arith,
}
use iolinki_master.Iolinki.{Iolinki, OperateResponse}
use iolinki_master.Types.Codes.{status_ok, m_seq_type_0, mc_channel_process}
use iolinki_master.Types.Limits.{frame_buf_size}
use iolinki_master.Types.State.{State, StartupStep, Port, Sys, Isdu, op_none, event_idle}
use iolinki_master.Params.Wire.{encode_master_command}
use iolinki_master.Params.Codec.{mc-encode_master_command}
use iolinki_master.Isdu.Transport.{isdu_fill_od, isdu_on_od}
use iolinki_master.Isdu.Service.{copy_at}
use iolinki_master.Port.Line.{send_full}
use iolinki_master.Port.Frames.{build_multi_frame}
use iolinki_master.Port.Process.{
  process, process_at, process_in, gate_closed, process_operate, process_pd_cycle, is_type0_port,
  count_cycle,
}
use iolinki_master.Port.Receive.{
  on_rx, on_rx_pd, decode_reply, accept_response, reply_received, route_od, route_access,
}
use iolinki_master.Port.Device.{IsFraming, IsLinked, sent_by, sending}
use iolinki_master.Port.Layout.{message}
use iolinki_master.Port.Operate.{no_event_sent, no_isdu_sent, no_access}

-- The process data of a port fit: a multi-octet type, outputs that are there, a message and a reply
-- inside their buffers.
pub record IsCyclic {W : Type 0} (p : Port W) : Type 0 where
  pub multi : (p.config.m_seq_type == m_seq_type_0) ≡ false
  pub outputs : p.pd_out_len ≤ length p.pd_out
  pub room : 2 + (p.pd_out_len + p.od_len) ≤ frame_buf_size
  pub inputs : p.config.pd_in_len < frame_buf_size

-- The device answers a cyclic message with these outputs by a reply that is decoded as these
-- inputs, without an event.
pub record Exchanges {W : Type 0} (L : Iolinki) (send : List ℕ → ℕ → W → ℤ × W)
    (waiting : W → Option (List ℕ)) (type od_len : ℕ) (outputs inputs : List ℕ) : Type 0 where
  pub check : ℕ
  pub response : OperateResponse
  pub answers :
      (tx : List ℕ) (n : ℕ) (w : W)
      → n ≡ 2 + length outputs + od_len
      → take n tx ≡ message L 0 type (outputs ++ replicate od_len 0)
      → waiting w ≡ some []
      → ((send tx n w).0 ≡ pos n) × (waiting (send tx n w).1 ≡ some (inputs ++ check ∷ []))
  pub decodes :
      (frame : List ℕ)
      → take (length inputs + 1) frame ≡ inputs ++ check ∷ []
      → L.frame_decode_operate_response frame (length inputs + 1) (length inputs) 0
        ≡ (pos 0, response)
  pub sealed : response.checksum_ok ≡ true
  pub valid : response.pd_valid ≡ true
  pub pd_len : response.pd_len ≡ length inputs
  pub pd : take (length inputs) response.pd ≡ inputs
  pub calm : response.event_pending ≡ false

pub cyclic_mc_lem :
    (L : Iolinki) → IsFraming L → encode_master_command L false mc_channel_process 0 ≡ 0
cyclic_mc_lem L framing =
    (mc-encode_master_command L false mc_channel_process 0 framing.mc (omega arith) (omega arith)).3

-- Without a service there are zeros to send, and what comes is passed over.
module _ (L : Iolinki) where
  idle_fill : (i : Isdu) (n : ℕ) → i.op ≡ op_none → isdu_fill_od L i n ≡ (replicate n 0, i)
  unfolding isdu_fill_od
  idle_fill i n h = rw (h) refl

  idle_od : (i : Isdu) (od : List ℕ) (n : ℕ) → i.op ≡ op_none → isdu_on_od L i od n ≡ i
  unfolding isdu_on_od
  idle_od i od n h = rw (h) refl

module _ {W : Type 0} (L : Iolinki) where
  -- The message of a cycle and its length.
  abbrev pub built : Sys W → List ℕ × ℕ
  built s =
      build_multi_frame L s.port (encode_master_command L false mc_channel_process 0)
        (replicate s.port.od_len 0)

  abbrev pub loaded : Sys W → Sys W
  loaded s = record s { port = record (s.port) { tx_buf = (built s).0 } }

  pub multi_lem :
      (p : Port W) → (p.config.m_seq_type == m_seq_type_0) ≡ false → is_type0_port p ≡ false
  unfolding is_type0_port
  multi_lem p m = rw (m) refl

  -- The reply in OPERATE.
  abbrev pub updated : Sys W → OperateResponse → Sys W
  updated s resp =
      let p = s.port in
      record s {
        port = record p {
          diagnostics = record (p.diagnostics) {
            rx_retry_count = 0;
            od_status = resp.status;
            event_pending = false;
          };
          awaiting_response = false;
          pd_in = copy_at p.pd_in 0 (take resp.pd_len resp.pd);
          pd_in_len = resp.pd_len;
          pd_valid = true;
        };
      }

  idle_route :
      (p : Port W) (od : List ℕ) (n : ℕ)
      → p.event.phase ≡ event_idle
      → p.isdu.op ≡ op_none
      → route_od L p od n ≡ p
  unfolding route_od route_access
  idle_route p od n e o =
      ap (λ a. route_access L p a od n) (no_access p.event e)
      ∙ ap (λ i. record p { isdu = i }) (idle_od L p.isdu od n o)

  pub accept_lem :
      (s : Sys W) (resp : OperateResponse)
      → s.port.event.phase ≡ event_idle
      → s.port.isdu.op ≡ op_none
      → resp.pd_valid ≡ true
      → resp.event_pending ≡ false
      → accept_response L s resp ≡ updated s resp
  unfolding accept_response reply_received
  accept_lem s resp e o valid calm =
      rw (valid, calm)
        (ap (λ p. record { port = p; world = s.world })
          (idle_route (updated s resp).port resp.od resp.od_len e o))

  pub on_rx_lem :
      (s : Sys W) (frame : List ℕ) (n : ℕ) (resp : OperateResponse)
      → s.port.state ≡ State.operate
      → is_type0_port s.port ≡ false
      → (n == 0) ≡ false
      → decode_reply L s frame n ≡ (pos 0, resp)
      → resp.checksum_ok ≡ true
      → on_rx L s frame n ≡ (status_ok, accept_response L s resp)
  unfolding on_rx on_rx_pd
  on_rx_lem s frame n resp st multi some_octets decoded sealed =
      rw (some_octets, multi, decoded, sealed, st) refl

module _ {W : Type 0} (L : Iolinki) (send : List ℕ → ℕ → W → ℤ × W) where
  abbrev pub cycled : Sys W → Sys W
  cycled s =
      let s' = sent_by L send (loaded L s) (built L s).0 (built L s).1 in
      record s' { port = record (s'.port) { cycle_count = u32 (s'.port.cycle_count + 1) } }

  pub process_pd_cycle_lem :
      (s : Sys W)
      → s.port.isdu.op ≡ op_none
      → send_full L (loaded L s) (built L s).0 (built L s).1
        ≡ (true, sent_by L send (loaded L s) (built L s).0 (built L s).1)
      → process_pd_cycle L s ≡ cycled s
  unfolding process_pd_cycle count_cycle
  process_pd_cycle_lem s o e = rw (idle_fill L s.port.isdu s.port.od_len o, e) refl

module _ {W : Type 0} (L : Iolinki) {send : List ℕ → ℕ → W → ℤ × W} {recv : W → ℤ × ℕ × W}
    {waiting : W → Option (List ℕ)} where
  pub process_operate_lem :
      (s : Sys W) {at : StartupStep}
      → IsLinked send recv waiting State.operate at [] s
      → is_type0_port s.port ≡ false
      → process_operate L s ≡ process_pd_cycle L s
  unfolding process_operate
  process_operate_lem s l m =
      rw (no_event_sent L s l.no_event, no_isdu_sent L s l.no_isdu l.no_abort l.no_idle, m) refl

  pub process-operate :
      (s : Sys W) {at : StartupStep}
      → IsLinked send recv waiting State.operate at [] s
      → process L s ≡ process_operate L s
  unfolding process process_at gate_closed process_in
  process-operate s l = rw (sending s l, l.state) refl
