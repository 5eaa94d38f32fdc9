-- ===== src/Port/Frames.antt =====
-- src/master_port.c: the M-sequences of the ISDU and DIAGNOSIS channels.
use iolinki_master.Base.{
  ℕ, ◌+◌, Bool, true, false, not, ◌&&◌, if◌then◌else◌, ◌==◌, ltb, bit_or, u8, Option, none, some,
  is_none, List, [], set, get_or, take, length, replicate, ℤ, pos, is_pos, to_nat,
}
use iolinki_master.Iolinki.{Iolinki}
use iolinki_master.Types.Codes.{m_seq_type_0, mc_channel_diagnosis, mc_channel_isdu}
use iolinki_master.Types.Limits.{frame_buf_size}
use iolinki_master.Types.State.{is_operate, Port, Sys}
use iolinki_master.Params.Wire.{encode_master_command}
use iolinki_master.Params.Capability.{ckt_type_bits}
use iolinki_master.Isdu.Transport.{
  isdu_fill_od, isdu_channel_access, isdu_take_idle, isdu_take_abort,
}
use iolinki_master.Isdu.Service.{octets_of, copy_at}
use iolinki_master.Event.Transport.{event_channel_access, event_on_written}
use iolinki_master.Port.Line.{send_full}

module _ (L : Iolinki) where
  -- The checksum of `tx_buf[0..len)` folded into its CKT octet.
  unfoldable pub fold_checksum : List ℕ → ℕ → List ℕ
  fold_checksum tx len = set tx 1 (u8 (bit_or (get_or tx 1 0) (L.checksum6 tx len)))

module _ {W : Type 0} (L : Iolinki) where
  -- A master message of the configured type: MC, CKT, PD-out, OD. The buffer and the length.
  unfoldable pub build_multi_frame : Port W → ℕ → List ℕ → List ℕ × ℕ
  build_multi_frame p mc od =
      let head = set (set p.tx_buf 0 mc) 1 (ckt_type_bits p.config.m_seq_type) in
      let with_pd =
        if ltb 0 p.pd_out_len
        then copy_at head L.m_seq_header_len (take p.pd_out_len p.pd_out)
        else head in
      let len = L.m_seq_header_len + p.pd_out_len + length od in
      (fold_checksum L (copy_at with_pd (L.m_seq_header_len + p.pd_out_len) od) len, len)

  -- `none` is a NULL `od`. The frame length and the port with its transmit buffer.
  unfoldable pub build_isdu_frame : Port W → ℕ → Option (List ℕ) → Bool → ℤ × Port W
  build_isdu_frame p mc od multi =
      let octets = take p.od_len (octets_of od) in
      if not multi
      then (if is_none od
          then (let (len, tx) = L.frame_encode_type0 mc p.tx_buf frame_buf_size in
              (len, record p { tx_buf = tx }))
          else let head = set (set p.tx_buf 0 mc) 1 0x00 in
            let len = L.m_seq_header_len + p.od_len in
            let tx = fold_checksum L (copy_at head L.m_seq_header_len octets) len in
            (pos len, record p { tx_buf = tx }))
      else let (tx, len) = build_multi_frame p mc octets in (pos len, record p { tx_buf = tx })

  -- Sends the frame in the transmit buffer, if it has a length: whether it has one, and whether
  -- it went out.
  unfoldable pub send_built : Sys W → ℤ → Bool × Bool × Sys W
  send_built s frame_len =
      let (sent, s') = send_full L s s.port.tx_buf (to_nat frame_len) in
      if is_pos frame_len then (true, sent, s') else (false, false, s)

  -- One ISDU frame with this MC and these OD octets.
  unfoldable pub send_isdu_frame : Sys W → Bool → ℕ → Option (List ℕ) → Bool × Sys W
  send_isdu_frame s read flowctrl od =
      let multi = is_operate s.port.state && not (s.port.config.m_seq_type == m_seq_type_0) in
      let mc = encode_master_command L read mc_channel_isdu flowctrl in
      let (frame_len, p) = build_isdu_frame s.port mc od multi in
      let (emitted, sent, s') = send_built (record s { port = p }) frame_len in (emitted, s')

  -- The regular M-sequence of a service in progress.
  unfoldable pub send_isdu_service : Sys W → Option (Bool × ℕ) → Bool × Sys W
  send_isdu_service s none = (false, s)
  send_isdu_service s (some (read, flowctrl)) =
      let (od, isdu) = isdu_fill_od L s.port.isdu s.port.od_len in
      let s' = record s { port = record (s.port) { isdu = isdu } } in
      send_isdu_frame s' read flowctrl (if read then none else some od)

  unfoldable pub send_isdu : Sys W → Bool × Sys W
  send_isdu s =
      let (aborted, isdu) = isdu_take_abort s.port.isdu in
      let (idle, isdu') = isdu_take_idle isdu in
      let s' = record s { port = record (s.port) { isdu = isdu } } in
      let s'' = record s { port = record (s.port) { isdu = isdu' } } in
      if aborted
      then send_isdu_frame s' true L.flowctrl_abort none
      else if idle
      then send_isdu_frame s'' true L.flowctrl_idle none
      else send_isdu_service s'' (isdu_channel_access L isdu')

  -- The frame of an event-memory access.
  unfoldable pub build_event_frame : Port W → Bool → ℕ → ℤ × Port W
  build_event_frame p read addr =
      let mc = encode_master_command L read mc_channel_diagnosis addr in
      if p.config.m_seq_type == m_seq_type_0
      then (let (len, tx) =
            if read
            then L.frame_encode_type0 mc p.tx_buf frame_buf_size
            else L.frame_encode_type0_write mc 0x00 p.tx_buf frame_buf_size in
          (len, record p { tx_buf = tx }))
      else let (tx, len) = build_multi_frame p mc (if read then [] else replicate p.od_len 0x00) in
        (pos len, record p { tx_buf = tx })

  unfoldable pub send_event_access : Sys W → Option (Bool × ℕ) → Bool × Sys W
  send_event_access s none = (false, s)
  send_event_access s (some (read, addr)) =
      let (frame_len, p) = build_event_frame s.port read addr in
      let (emitted, sent, s') = send_built (record s { port = p }) frame_len in
      let e = s'.port.event in
      let armed = if sent && read then record e { od_expected = true } else e in
      let e' = if not read then event_on_written armed else armed in
      (emitted, record s' { port = record (s'.port) { event = e' } })

  unfoldable pub send_event : Sys W → Bool × Sys W
  send_event s = send_event_access s (event_channel_access s.port.event)
