-- ===== src/Port/Cycle.antt =====
-- A cyclic message of src/master_port.c: the outputs go out, and the device answers.
use iolinki_master.Base.{
  ℕ, suc, ◌+◌, ◌≡◌, refl, ap, ◌∙◌, sym, false, u8, Option, List, [], ◌∷◌, ◌++◌, bit_or, get_or,
  take, replicate, length, length-replicate, length-take, ℤ, pos, arith,
}
use iolinki_master.Iolinki.{Iolinki}
use iolinki_master.Types.Codes.{mc_channel_process}
use iolinki_master.Types.Limits.{frame_buf_size}
use iolinki_master.Types.State.{State, StartupStep, Sys}
use iolinki_master.Params.Wire.{encode_master_command}
use iolinki_master.Params.Capability.{ckt_type_bits}
use iolinki_master.Port.Process.{process}
use iolinki_master.Port.Device.{IsFraming, IsLinked, send_full_lem}
use iolinki_master.Port.Frames.{build_multi_frame}
use iolinki_master.Port.Layout.{message, build_multi_frame-message}
use iolinki_master.Port.Exchange.{
  IsCyclic, Exchanges, built, loaded, cycled, cyclic_mc_lem, process_pd_cycle_lem,
  process_operate_lem, process-operate, multi_lem,
}

first_taken : (xs : List ℕ) (k : ℕ) → get_or (take (suc k) xs) 0 0 ≡ get_or xs 0 0
first_taken [] k = refl
first_taken (x ∷ xs) k = refl

pub first_of : (xs ys : List ℕ) (n k x : ℕ) → n ≡ suc k → take n xs ≡ x ∷ ys → get_or xs 0 0 ≡ x
first_of xs ys n k x e h =
    sym (first_taken xs k) ∙ ap (λ i. get_or (take i xs) 0 0) (sym e) ∙ ap (λ l. get_or l 0 0) h

module _ {W : Type 0} where
  abbrev pub outputs : Sys W → List ℕ
  outputs s = take s.port.pd_out_len s.port.pd_out

message_first :
    (L : Iolinki) (tx : List ℕ) (n k type : ℕ) (rest : List ℕ)
    → n ≡ suc k
    → take n tx ≡ message L 0 type rest
    → get_or tx 0 0 ≡ 0
unfolding message
message_first L tx n k type rest e h =
    first_of tx (u8 (bit_or type (L.checksum6 (0 ∷ type ∷ rest) (2 + length rest))) ∷ rest) n k 0 e
      h

module _ {W : Type 0} (L : Iolinki) (framing : IsFraming L) (header : L.m_seq_header_len ≡ 2)
    (local : (xs : List ℕ) (n : ℕ) → L.checksum6 xs n ≡ L.checksum6 (take n xs) n) where
  length-built :
      (s : Sys W) → IsCyclic s.port → (built L s).1 ≡ 2 + length (outputs s) + s.port.od_len
  unfolding build_multi_frame
  length-built s c = omega (
    arith,
    header,
    c.outputs,
    length-take s.port.pd_out_len s.port.pd_out,
    length-replicate {A = ℕ} s.port.od_len 0,
  )

  -- What goes out.
  built_lem :
      (s : Sys W)
      → length s.port.tx_buf ≡ frame_buf_size
      → IsCyclic s.port
      → (take (built L s).1 (built L s).0
          ≡ message L 0
              (ckt_type_bits s.port.config.m_seq_type)
              (outputs s ++ replicate s.port.od_len 0))
        × (length (built L s).0 ≡ frame_buf_size)
        × ((built L s).1 ≡ 2 + length (outputs s) + s.port.od_len)
  built_lem s size c =
      let od : List ℕ = replicate s.port.od_len 0 in
      let mc : ℕ = encode_master_command L false mc_channel_process 0 in
      let zeros : length od ≡ s.port.od_len = length-replicate s.port.od_len 0 in
      let (out, kept) =
        build_multi_frame-message L s.port mc od header c.outputs
          (omega (arith, c.room, size, zeros)) local in
      let zero_mc : mc ≡ 0 = cyclic_mc_lem L framing in
      (
        out
            ∙ ap (λ m. message L m (ckt_type_bits s.port.config.m_seq_type) (outputs s ++ od))
                zero_mc,
        kept ∙ size,
        length-built s c,
      )

module _ {W : Type 0} (L : Iolinki) {send : List ℕ → ℕ → W → ℤ × W} {recv : W → ℤ × ℕ × W}
    {waiting : W → Option (List ℕ)} (framing : IsFraming L) (header : L.m_seq_header_len ≡ 2)
    (local : (xs : List ℕ) (n : ℕ) → L.checksum6 xs n ≡ L.checksum6 (take n xs) n) where
  -- After the message the reply is awaited.
  pub cycled_lem :
      (s : Sys W) {at : StartupStep} {inputs : List ℕ}
      → IsLinked send recv waiting State.operate at [] s
      → IsCyclic s.port
      → (e : Exchanges L send waiting
          (ckt_type_bits s.port.config.m_seq_type)
          s.port.od_len
          (outputs s)
          inputs)
      → (process L s ≡ cycled L send s)
        × IsLinked send recv waiting State.operate at (inputs ++ e.check ∷ []) (cycled L send s)
        × ((cycled L send s).port.rx_od_expected ≡ false)
  cycled_lem s l c e =
      let (out, kept, count) = built_lem L framing header local s l.tx_size c in
      let tx : List ℕ = (built L s).0 in
      let n : ℕ = (built L s).1 in
      let (ok, waits) = e.answers tx n s.world count out l.waits in
      let ok' : (send tx n s.world).0 ≡ pos n = ok in
      let sent =
        send_full_lem L send (loaded L s) l.phy tx n l.linked l.sends l.plain.prepare_tx
          l.plain.prepare_rx ok' in
      let first : get_or tx 0 0 ≡ 0 =
        message_first L tx n (1 + length (outputs s) + s.port.od_len)
          (ckt_type_bits s.port.config.m_seq_type) (outputs s ++ replicate s.port.od_len 0)
          (omega (arith, count)) out in
      (
        process-operate L s l
            ∙ process_operate_lem L s l (multi_lem L s.port c.multi)
            ∙ process_pd_cycle_lem L send s l.no_isdu sent,
        record {
          phy = l.phy;
          linked = l.linked;
          sends = l.sends;
          receives = l.receives;
          plain = l.plain;
          state = l.state;
          step = l.step;
          waits = waits;
          rx_len = l.rx_len;
          rx_size = l.rx_size;
          tx_size = kept;
          no_event = l.no_event;
          no_isdu = l.no_isdu;
          no_abort = l.no_abort;
          no_idle = l.no_idle;
        },
        rw (first, framing.mc.rw) refl,
      )
