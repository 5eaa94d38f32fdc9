-- ===== src/Isdu/Block.antt =====
-- src/master_isdu.c: system commands, the parameter-block transfer and the device-info read.
use iolinki_master.Base.{
  ℕ, ◌+◌, ◌-◌, Bool, true, false, not, ◌&&◌, ◌||◌, if◌then◌else◌, ◌==◌, ltb, u8, Option, some,
  is_none, List, [], ◌∷◌, take, replicate, ℤ, eq_ℤ, is_neg,
}
use iolinki_master.Iolinki.{Iolinki}
use iolinki_master.Types.Codes.{
  status_ok, err_invalid_arg, isdu_err_buffer_too_small, isdu_err_busy,
}
use iolinki_master.Types.Limits.{isdu_write_header_max, dpp1_len}
use iolinki_master.Types.Zero.{zero_block}
use iolinki_master.Types.State.{
  BlockStep, block_idle, begin_download, write_block, end_download, verify_block, Block, Port,
}
use iolinki_master.Params.Page1.{apply_direct_parameter_page1, validate_device_info}
use iolinki_master.Isdu.Service.{service_result, octets_of, copy_at, read_isdu, write_isdu}
use iolinki_master.Isdu.DataStorage.{same_octets, verify_isdu, verify_data_storage}

unfoldable pub block_matches : Block → ℕ → ℕ → List ℕ → ℕ → Bool
unfolding same_octets
block_matches b index subindex octets len =
    b.index == index
    && b.subindex == subindex
    && b.len == len
    && ((len == 0) || same_octets (take len b.bytes) (take len octets))

abbrev pub is_block_idle : BlockStep → Bool
is_block_idle block_idle = true
is_block_idle _ = false

module _ {W : Type 0} (L : Iolinki) where
  unfoldable pub write_system_command : Port W → ℕ → ℤ × Port W
  write_system_command p command = write_isdu L p L.idx_system_command 0 (some (command ∷ [])) 1

  unfoldable pub begin_parameter_download : Port W → ℤ × Port W
  begin_parameter_download p = write_system_command p L.cmd_param_download_start

  unfoldable pub end_parameter_download : Port W → ℤ × Port W
  end_parameter_download p = write_system_command p L.cmd_param_download_end

  unfoldable pub begin_parameter_upload : Port W → ℤ × Port W
  begin_parameter_upload p = write_system_command p L.cmd_param_upload_start

  unfoldable pub end_parameter_upload : Port W → ℤ × Port W
  end_parameter_upload p = write_system_command p L.cmd_param_upload_end

  unfoldable pub store_parameter_download : Port W → ℤ × Port W
  store_parameter_download p = write_system_command p L.cmd_param_download_store

  unfoldable pub block_clear : Port W → Port W
  block_clear p = record p { block = zero_block L.isdu_buffer_size }

  -- The latch of a transfer that is not active.
  unfoldable pub block_latch : Port W → ℕ → ℕ → List ℕ → ℕ → Port W
  block_latch p index subindex octets len = record p {
    block = record {
      step = begin_download;
      index = index;
      subindex = subindex;
      bytes = copy_at p.block.bytes 0 (take len octets);
      len = len;
    };
  }

  abbrev set_step : Port W → BlockStep → Port W
  set_step p step = record p { block = record (p.block) { step = step } }

  -- The last step: the readback, and the release of the transfer unless it is pending.
  unfoldable pub block_verify : Port W → ℤ × Port W
  block_verify p =
      let b = p.block in
      let (ret, p') =
        if b.index == L.idx_data_storage && b.subindex == 0
        then verify_data_storage L p (some b.bytes) b.len
        else verify_isdu L p b.index b.subindex (some b.bytes) b.len in
      service_result (if eq_ℤ ret status_ok || is_neg ret then block_clear p' else p') ret

  unfoldable pub block_end : Port W → ℤ × Port W
  block_end p =
      let (ret, p') = end_parameter_download p in
      if not (eq_ℤ ret status_ok) then (ret, p') else block_verify (set_step p' verify_block)

  unfoldable pub block_write : Port W → ℤ × Port W
  block_write p =
      let (ret, p') =
        write_isdu L p p.block.index p.block.subindex (some p.block.bytes) p.block.len in
      if not (eq_ℤ ret status_ok) then (ret, p') else block_end (set_step p' end_download)

  unfoldable pub block_begin : Port W → ℤ × Port W
  block_begin p =
      let (ret, p') = begin_parameter_download p in
      if not (eq_ℤ ret status_ok) then (ret, p') else block_write (set_step p' write_block)

  -- The chain of `if`s on the step: each step that completes goes on to the next one.
  unfoldable pub block_run : BlockStep → Port W → ℤ × Port W
  block_run begin_download p = block_begin p
  block_run write_block p = block_write p
  block_run end_download p = block_end p
  block_run verify_block p = block_verify p
  block_run block_idle p = block_verify p

  unfoldable pub write_parameter_block : Port W → ℕ → ℕ → Option (List ℕ) → ℕ → ℤ × Port W
  write_parameter_block p index subindex octets len =
      if is_none octets && ltb 0 len
      then (err_invalid_arg, p)
      else if ltb (u8 (L.isdu_buffer_size + 256 - isdu_write_header_max)) len
      then (isdu_err_buffer_too_small, p)
      else if is_block_idle p.block.step
      then block_run begin_download (block_latch p index subindex (octets_of octets) len)
      else if not (block_matches p.block index subindex (octets_of octets) len)
      then service_result p isdu_err_busy
      else block_run p.block.step p

  unfoldable pub restore_data_storage : Port W → Option (List ℕ) → ℕ → ℤ × Port W
  restore_data_storage p octets len = write_parameter_block p L.idx_data_storage 0 octets len

  -- The local page has 16 octets.
  unfoldable pub read_device_info : Port W → ℤ × Port W
  read_device_info p =
      let reply = read_isdu L p L.idx_direct_parameters_1 0 dpp1_len in
      if not (eq_ℤ reply.result status_ok)
      then (reply.result, reply.port)
      else let page = copy_at (replicate dpp1_len 0) 0 reply.octets in
        let (ret, p') = apply_direct_parameter_page1 reply.port (some page) reply.len in
        if not (eq_ℤ ret status_ok) then (ret, p') else (validate_device_info p', p')
