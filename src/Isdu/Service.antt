-- ===== src/Isdu/Service.antt =====
-- src/master_isdu.c: the ISDU read and write services on a port.
use iolinki_master.Base.{
  ℕ, ◌+◌, ◌-◌, ◌*◌, ◌/◌, ◌^◌, Bool, true, false, not, ◌&&◌, ◌||◌, if◌then◌else◌, ◌==◌, ltb, leb,
  bit_and, bit_or, u8, u16, Option, none, some, is_none, List, [], ◌∷◌, ◌++◌, set, take, drop,
  length, ℤ, eq_ℤ,
}
use iolinki_master.Iolinki.{Iolinki}
use iolinki_master.Types.Codes.{
  status_ok, status_pending, err_invalid_arg, isdu_err_buffer_too_small, isdu_err_busy,
  isdu_err_device, isdu_err_invalid_state,
}
use iolinki_master.Types.Limits.{
  isdu_ext_max, isdu_length_nibble_max, isdu_write_header_max, isdu_chkpdu_len,
}
use iolinki_master.Types.State.{is_operate, is_preoperate, op_read, op_write, Isdu, Port}
use iolinki_master.Isdu.Transport.{
  isdu_busy, isdu_matches, isdu_clear, isdu_start, isdu_chkpdu, isdu_index_len, isdu_service,
}

-- `memcpy(&buf[at], octets, n)`: the octets in place of those that stood there
unfoldable pub copy_at : List ℕ → ℕ → List ℕ → List ℕ
copy_at buf at octets = take at buf ++ octets ++ drop (at + length octets) buf

-- What a read service returns: the result, the octets copied to the caller's buffer, `*len`
-- afterwards and the port.
pub record Reply (W : Type 0) : Type 0 where
  pub result : ℤ
  pub octets : List ℕ
  pub len : ℕ
  pub port : Port W

module _ {W : Type 0} where
  unfoldable pub service_result : Port W → ℤ → ℤ × Port W
  service_result p ret = (
    ret,
    if not (eq_ℤ ret status_pending)
        then record p { diagnostics = record (p.diagnostics) { last_service_result = ret } }
        else p,
  )

  -- The states in which the acyclic services run.
  unfoldable pub is_online : Port W → Bool
  is_online p = is_operate p.state || is_preoperate p.state

module _ {W : Type 0} (L : Iolinki) where
  -- The error exit of both `finish` functions.
  unfoldable pub isdu_finish_error : Port W → ℤ × Port W
  unfolding service_result isdu_clear
  isdu_finish_error p =
      let cleared = record (isdu_clear L p.isdu) { abort_pending = p.isdu.abort_pending } in
      service_result
        (record p {
          diagnostics = record (p.diagnostics) { last_isdu_error = p.isdu.error };
          isdu = cleared;
        })
        isdu_err_device

  -- `len` is `*len` on entry.
  unfoldable pub isdu_finish_read : Port W → ℕ → Reply W
  unfolding isdu_finish_error service_result isdu_clear
  isdu_finish_read p len =
      if not (p.isdu.error == L.isdu_error_none)
      then (let (ret, p') = isdu_finish_error p in
          record { result = ret; octets = []; len = len; port = p' })
      else if ltb len p.isdu.response_len
      then (let (ret, p') = service_result p isdu_err_buffer_too_small in
          record {
            result = ret;
            octets = [];
            len = if ltb 255 p.isdu.response_len then 255 else u8 p.isdu.response_len;
            port = p';
          })
      else let (ret, p') = service_result (record p { isdu = isdu_clear L p.isdu }) status_ok in
        record {
          result = ret;
          octets = take p.isdu.response_len p.isdu.response;
          len = u8 p.isdu.response_len;
          port = p';
        }

  unfoldable pub isdu_finish_write : Port W → ℤ × Port W
  unfolding isdu_finish_error service_result isdu_clear
  isdu_finish_write p =
      if not (p.isdu.error == L.isdu_error_none)
      then isdu_finish_error p
      else service_result (record p { isdu = isdu_clear L p.isdu }) status_ok

-- The Index and Subindex octets of a request.
unfoldable pub index_octets : ℕ → ℕ → List ℕ
unfolding isdu_index_len
index_octets index subindex =
    let idx_len = isdu_index_len index subindex in
    if idx_len == 3
    then u8 (index / 2 ^ 8) ∷ u8 (bit_and index 0xff) ∷ subindex ∷ []
    else if idx_len == 2
    then u8 (bit_and index 0xff) ∷ subindex ∷ []
    else u8 (bit_and index 0xff) ∷ []

-- A request buffer with these octets at its start and their CHKPDU behind them.
unfoldable pub seal_request : List ℕ → List ℕ → List ℕ
unfolding copy_at isdu_chkpdu
seal_request buf octets =
    let filled = copy_at buf 0 octets in
    set filled (length octets) (isdu_chkpdu filled (length octets))

-- The octets of a Read Request before the CHKPDU.
unfoldable pub read_octets : ℕ → ℕ → List ℕ
unfolding index_octets isdu_service
read_octets index subindex =
    let idx_len = isdu_index_len index subindex in
    let total = u8 (1 + idx_len + isdu_chkpdu_len) in
    u8 (bit_or (isdu_service true idx_len * 2 ^ 4) (bit_and total isdu_length_nibble_max))
    ∷ index_octets index subindex

-- `total` of a Write Request.
unfoldable pub write_total : ℕ → ℕ → ℕ → ℕ
unfolding isdu_index_len
write_total index subindex len = u16 (1 + isdu_index_len index subindex + len + isdu_chkpdu_len)

-- The octets of a Write Request before the CHKPDU.
unfoldable pub write_octets : ℕ → ℕ → List ℕ → ℕ → List ℕ
unfolding index_octets isdu_service write_total
write_octets index subindex octets len =
    let service = isdu_service false (isdu_index_len index subindex) * 2 ^ 4 in
    let total = write_total index subindex len in
    (if leb total isdu_length_nibble_max
      then u8 (bit_or service (u8 (bit_and total isdu_length_nibble_max))) ∷ []
      else u8 (bit_or service 0x01) ∷ u8 (total + 1) ∷ [])
    ++ index_octets index subindex
    ++ take len octets

-- The octets behind a `data` pointer.
abbrev pub octets_of : Option (List ℕ) → List ℕ
octets_of none = []
octets_of (some xs) = xs

module _ (L : Iolinki) where
  -- The request that `read_isdu` stages.
  unfoldable pub stage_read : Isdu → ℕ → ℕ → Isdu
  unfolding isdu_start seal_request read_octets
  stage_read s index subindex = record (isdu_start L s op_read index subindex) {
    request = seal_request s.request (read_octets index subindex);
    request_len = u8 (1 + isdu_index_len index subindex + isdu_chkpdu_len);
  }

  -- The request that `write_isdu` stages. `pos` is a uint8.
  unfoldable pub stage_write : Isdu → ℕ → ℕ → List ℕ → ℕ → Isdu
  unfolding isdu_start seal_request write_octets
  stage_write s index subindex octets len = record (isdu_start L s op_write index subindex) {
    request = seal_request s.request (write_octets index subindex octets len);
    request_len = u8 (length (write_octets index subindex octets len) + isdu_chkpdu_len);
  }

  -- The lengths that `write_isdu` refuses.
  unfoldable pub write_too_long : ℕ → ℕ → ℕ → Bool
  unfolding write_total
  write_too_long index subindex len =
      let total = write_total index subindex len in
      ltb (u8 (L.isdu_buffer_size + 256 - isdu_write_header_max)) len
      || ltb isdu_ext_max (if ltb 15 total then total + 1 else total)
      || total == 16

-- An answer that leaves the port and `*len` alone.
unfoldable pub answer : {W : Type 0} → Port W → ℕ → ℤ → Reply W
answer p len ret = record { result = ret; octets = []; len = len; port = p }

module _ {W : Type 0} (L : Iolinki) where
  -- `len` is `*len` on entry.
  unfoldable pub read_isdu : Port W → ℕ → ℕ → ℕ → Reply W
  unfolding is_online isdu_busy isdu_matches isdu_finish_read stage_read answer
  read_isdu p index subindex len =
      if not (is_online p)
      then answer p len isdu_err_invalid_state
      else if isdu_busy p.isdu
      then (if isdu_matches p.isdu op_read index subindex
          then answer p len status_pending
          else answer p len isdu_err_busy)
      else if p.isdu.done
      then (if not (isdu_matches p.isdu op_read index subindex)
          then answer p len isdu_err_busy
          else isdu_finish_read L p len)
      else record {
        result = status_pending;
        octets = [];
        len = len;
        port = record p { isdu = stage_read L p.isdu index subindex };
      }

  -- `none` is a NULL `data`.
  unfoldable pub write_isdu : Port W → ℕ → ℕ → Option (List ℕ) → ℕ → ℤ × Port W
  unfolding is_online isdu_busy isdu_matches isdu_finish_write stage_write write_too_long
  write_isdu p index subindex octets len =
      if is_none octets && ltb 0 len
      then (err_invalid_arg, p)
      else if not (is_online p)
      then (isdu_err_invalid_state, p)
      else if isdu_busy p.isdu
      then (if isdu_matches p.isdu op_write index subindex
          then (status_pending, p)
          else (isdu_err_busy, p))
      else if p.isdu.done
      then (if not (isdu_matches p.isdu op_write index subindex)
          then (isdu_err_busy, p)
          else isdu_finish_write L p)
      else if write_too_long L index subindex len
      then (isdu_err_buffer_too_small, p)
      else (
        status_pending,
        record p { isdu = stage_write L p.isdu index subindex (octets_of octets) len },
      )
