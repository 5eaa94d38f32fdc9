-- ===== src/Isdu/Transport.antt =====
-- src/master_isdu.c: the segmented ISDU transport. The functions act on the `isdu` part of the
-- port state; a buffer write out of range changes nothing, which the bounds in `Isdu.Bounds` rule
-- out.
use iolinki_master.Base.{
  ℕ, ◌+◌, ◌-◌, ◌*◌, ◌/◌, ◌%◌, ◌^◌, Bool, true, false, not, ◌&&◌, ◌||◌, if◌then◌else◌, ◌==◌, ltb,
  leb, bit_and, bit_or, bit_xor, u8, u16, sub16, Option, none, some, List, [], ◌∷◌, ◌++◌, get_or,
  set, take, drop, replicate,
}
use iolinki_master.Iolinki.{Iolinki}
use iolinki_master.Types.Limits.{isdu_chkpdu_len}
use iolinki_master.Types.State.{
  IsduOp, op_none, is_op_none, eq_op, IsduPhase, phase_none, request, wait, response, is_request,
  is_wait, is_phase_none, Isdu,
}

unfoldable pub isdu_busy : Isdu → Bool
isdu_busy s = not (is_op_none s.op) && not s.done

unfoldable pub isdu_matches : Isdu → IsduOp → ℕ → ℕ → Bool
isdu_matches s op index subindex = eq_op s.op op && s.index == index && s.subindex == subindex

-- The loop of `isdu_chkpdu`, over the octets that it reads.
unfoldable pub chkpdu_from : ℕ → List ℕ → ℕ
chkpdu_from chk [] = chk
chkpdu_from chk (x ∷ xs) = chkpdu_from (bit_xor chk x) xs

unfoldable pub isdu_chkpdu : List ℕ → ℕ → ℕ
unfolding chkpdu_from
isdu_chkpdu octets len = chkpdu_from 0 (take len octets)

unfoldable pub isdu_index_len : ℕ → ℕ → ℕ
isdu_index_len index subindex = if leb index 0xff then (if subindex == 0 then 1 else 2) else 3

unfoldable pub isdu_service : Bool → ℕ → ℕ
isdu_service read index_len = if read then u8 (0x08 + index_len) else index_len

-- `memmove(buf, &buf[start], n)`
unfoldable pub move_down : List ℕ → ℕ → ℕ → List ℕ
move_down buf start n = take n (drop start buf) ++ drop n buf

module _ (L : Iolinki) where
  unfoldable pub isdu_clear : Isdu → Isdu
  isdu_clear s = record s {
    op = op_none;
    phase = phase_none;
    index = 0;
    subindex = 0;
    request_len = 0;
    request_pos = 0;
    flowctrl = L.flowctrl_idle;
    chk = 0;
    expected_len = 0;
    response_len = 0;
    response_pos = 0;
    done = false;
    idle_pending = false;
    abort_pending = false;
    error = L.isdu_error_none;
  }

  unfoldable pub isdu_start : Isdu → IsduOp → ℕ → ℕ → Isdu
  isdu_start s op index subindex = record s {
    op = op;
    phase = request;
    index = index;
    subindex = subindex;
    request_pos = 0;
    flowctrl = L.flowctrl_start;
    chk = 0;
    expected_len = 0;
    response_len = 0;
    response_pos = 0;
    done = false;
    idle_pending = false;
    abort_pending = false;
    error = L.isdu_error_none;
  }

  -- The request branch: the octets that go out, and the state afterwards.
  unfoldable pub fill_od_request : Isdu → ℕ → List ℕ × Isdu
  fill_od_request s od_len =
      let remaining = sub16 s.request_len s.request_pos in
      let n = if ltb remaining od_len then remaining else od_len in
      let od = take n (drop s.request_pos s.request) ++ replicate (od_len - n) 0 in
      let sent = u16 (s.request_pos + n) in
      (
        od,
        if leb s.request_len sent
            then record s { request_pos = sent; phase = wait; flowctrl = L.flowctrl_start }
            else if s.flowctrl == L.flowctrl_start
            then record s { request_pos = sent; flowctrl = 1 }
            else record s {
              request_pos = sent;
              flowctrl = u8 (bit_and (s.flowctrl + 1) L.flowctrl_count_mask);
            },
      )

  unfoldable pub fill_od_response : Isdu → Isdu
  fill_od_response s =
      if (s.flowctrl == L.flowctrl_start) || (s.flowctrl == L.flowctrl_idle)
      then record s { flowctrl = 1 }
      else record s { flowctrl = u8 (bit_and (s.flowctrl + 1) L.flowctrl_count_mask) }

  unfoldable pub fill_od_in : IsduPhase → Isdu → ℕ → List ℕ × Isdu
  unfolding fill_od_request fill_od_response
  fill_od_in request s od_len = fill_od_request s od_len
  fill_od_in wait s od_len = (replicate od_len 0, record s { flowctrl = L.flowctrl_start })
  fill_od_in response s od_len = (replicate od_len 0, fill_od_response s)
  fill_od_in phase_none s od_len = (replicate od_len 0, s)

  -- `isdu_fill_od`: the `od_len` octets that it writes, and the state afterwards.
  unfoldable pub isdu_fill_od : Isdu → ℕ → List ℕ × Isdu
  unfolding fill_od_in
  isdu_fill_od s od_len =
      if is_op_none s.op then (replicate od_len 0, s) else fill_od_in s.phase s od_len

  unfoldable pub decode_negative : Isdu → Isdu
  decode_negative s = record s {
    error =
        if leb 4 s.response_len
        then u16 (bit_or (get_or s.response 1 0 * 2 ^ 8) (get_or s.response 2 0))
        else L.isdu_error_segmentation;
    done = true;
    idle_pending = true;
    phase = phase_none;
  }

  -- where the payload of a positive response starts
  unfoldable pub payload_start : Isdu → ℕ
  payload_start s = if bit_and (get_or s.response 0 0) 0x0f == 0x01 then 2 else 1

  unfoldable pub payload_len : Isdu → ℕ
  payload_len s = (s.response_len + 65536 - payload_start s - isdu_chkpdu_len) % 65536

  unfoldable pub decode_positive : Isdu → Isdu
  decode_positive s = record s {
    response =
        if ltb 0 (payload_len s)
        then move_down s.response (payload_start s) (payload_len s)
        else s.response;
    response_len = payload_len s;
    done = true;
    idle_pending = true;
    phase = phase_none;
  }

  unfoldable pub isdu_decode_response : Isdu → Isdu
  unfolding isdu_chkpdu decode_negative decode_positive
  isdu_decode_response s =
      let service = u8 (get_or s.response 0 0 / 2 ^ 4) in
      if not (isdu_chkpdu s.response s.response_len == 0)
      then record s {
        error = L.isdu_error_segmentation;
        done = true;
        abort_pending = true;
        phase = phase_none;
      }
      else if (service == 0x4) || (service == 0xc)
      then decode_negative s
      else decode_positive s

  unfoldable pub segmentation_failed : Isdu → Isdu
  segmentation_failed s = record s {
    error = L.isdu_error_segmentation;
    done = true;
    phase = phase_none;
  }

  -- One round of the loop of `isdu_on_od` in steps: `true` beside the state means that the loop
  -- goes on.
  unfoldable pub response_begins : Isdu → Isdu
  response_begins s = record s {
    phase = response;
    response_len = 0;
    response_pos = 0;
    expected_len = 0;
    flowctrl = 1;
  }

  unfoldable pub response_complete : Isdu → Bool × Isdu
  response_complete s =
      if leb s.expected_len s.response_len then (false, isdu_decode_response s) else (true, s)

  unfoldable pub response_length : Isdu → Bool × Isdu
  response_length s =
      let nibble = u8 (bit_and (get_or s.response 0 0) 0x0f) in
      if leb 2 nibble
      then response_complete (record s { expected_len = nibble })
      else if nibble == 1
      then (if ltb s.response_len 2
          then (true, s)
          else response_complete (record s { expected_len = get_or s.response 1 0 }))
      else (false, segmentation_failed s)

  unfoldable pub store_octet : Isdu → ℕ → Bool × Isdu
  store_octet s byte =
      if leb L.isdu_buffer_size s.response_len
      then (false, segmentation_failed s)
      else let s' = record s {
        response = set s.response s.response_len byte;
        response_len = u16 (s.response_len + 1);
      } in
        if s'.expected_len == 0 then response_length s' else response_complete s'

  unfoldable pub on_od_octet : Isdu → ℕ → Bool × Isdu
  on_od_octet s byte =
      if is_wait s.phase
      then (if (byte == 0x00) || (byte == 0x01)
          then (true, s)
          else store_octet (response_begins s) byte)
      else store_octet s byte

  unfoldable pub on_od_loop : Isdu → List ℕ → Isdu
  on_od_loop s [] = s
  on_od_loop s (byte ∷ od) =
      let (more, s') = on_od_octet s byte in elim more [ true ↦ on_od_loop s' od | false ↦ s' ]

  unfoldable pub isdu_on_od : Isdu → List ℕ → ℕ → Isdu
  unfolding on_od_loop
  isdu_on_od s od od_len =
      if is_op_none s.op || s.done || is_request s.phase || is_phase_none s.phase
      then s
      else on_od_loop s (take od_len od)

  -- `none` is the result `false`; otherwise `*read` and `*flowctrl`.
  unfoldable pub isdu_channel_access : Isdu → Option (Bool × ℕ)
  isdu_channel_access s =
      if is_op_none s.op
      then none
      else if s.done && not s.idle_pending
      then none
      else if s.done
      then some (true, L.flowctrl_idle)
      else some (not (is_request s.phase), s.flowctrl)

unfoldable pub isdu_take_idle : Isdu → Bool × Isdu
isdu_take_idle s =
    if not s.idle_pending then (false, s) else (true, record s { idle_pending = false })

unfoldable pub isdu_take_abort : Isdu → Bool × Isdu
isdu_take_abort s =
    if not s.abort_pending then (false, s) else (true, record s { abort_pending = false })
