-- ===== src/Isdu/Latch.antt =====
-- A parameter-block transfer of src/master_isdu.c that the device refuses.
use iolinki_master.Base.{
  ℕ, ◌≡◌, refl, ap, ◌∙◌, true, false, arith, ◌==◌, ltb, u8, ◌+◌, ◌-◌, some, List, ℤ, eq_ℤ,
}
use iolinki_master.Iolinki.{Iolinki}
use iolinki_master.Types.Codes.{status_ok, isdu_err_busy, isdu_err_device}
use iolinki_master.Types.Limits.{isdu_write_header_max}
use iolinki_master.Types.State.{write_block, Block, Port, op_write}
use iolinki_master.Isdu.Service.{
  service_result, write_isdu, isdu_finish_write, isdu_finish_error, is_online,
}
use iolinki_master.Isdu.Transport.{isdu_matches, isdu_busy}
use iolinki_master.Isdu.Block.{
  block_matches, is_block_idle, block_write, block_run, write_parameter_block,
}
use iolinki_master.Isdu.Transfer.{write_isdu-block}

module _ {W : Type 0} (L : Iolinki) where
  exclusive :
      (q : Port W) (index subindex : ℕ) (octets : List ℕ) (len : ℕ)
      → ltb (u8 (L.isdu_buffer_size + 256 - isdu_write_header_max)) len ≡ false
      → is_block_idle q.block.step ≡ false
      → block_matches q.block index subindex octets len ≡ false
      → (write_parameter_block L q index subindex (some octets) len).0 ≡ isdu_err_busy
  unfolding write_parameter_block service_result
  exclusive q index subindex octets len fits running other = rw (fits, running, other) refl

  refused :
      (p : Port W) (octets : List ℕ) (len index subindex : ℕ)
      → is_online p ≡ true
      → isdu_matches p.isdu op_write index subindex ≡ true
      → p.isdu.done ≡ true
      → (p.isdu.error == L.isdu_error_none) ≡ false
      → (write_isdu L p index subindex (some octets) len).0 ≡ isdu_err_device
  unfolding write_isdu isdu_finish_write isdu_finish_error service_result isdu_busy
  refused p octets len index subindex online matches done error =
      ground (arith, online, matches, done, error)

  refused_run :
      (p : Port W)
      → (write_isdu L p p.block.index p.block.subindex (some p.block.bytes) p.block.len).0
        ≡ isdu_err_device
      → block_write L p
        ≡ write_isdu L p p.block.index p.block.subindex (some p.block.bytes) p.block.len
  unfolding block_write
  refused_run p e = rw (ap (λ r. eq_ℤ r status_ok) e) refl

  resumed :
      (p : Port W) (index subindex : ℕ) (octets : List ℕ) (len : ℕ)
      → ltb (u8 (L.isdu_buffer_size + 256 - isdu_write_header_max)) len ≡ false
      → p.block.step ≡ write_block
      → block_matches p.block index subindex octets len ≡ true
      → write_parameter_block L p index subindex (some octets) len ≡ block_write L p
  unfolding write_parameter_block block_run
  resumed p index subindex octets len fits step same =
      let running : is_block_idle p.block.step ≡ false = ap is_block_idle step in
      rw (fits, running, same) (ap (λ b. block_run L b p) step)

  -- When the device refuses the data of a transfer, the call reports it, but the transfer stays
  -- latched as it was: a call for another transfer is turned away as busy.
  pub write_parameter_block_latched :
      (p : Port W) (index subindex index' subindex' : ℕ) (octets octets' : List ℕ) (len len' : ℕ)
      → ltb (u8 (L.isdu_buffer_size + 256 - isdu_write_header_max)) len ≡ false
      → ltb (u8 (L.isdu_buffer_size + 256 - isdu_write_header_max)) len' ≡ false
      → p.block.step ≡ write_block
      → block_matches p.block index subindex octets len ≡ true
      → block_matches p.block index' subindex' octets' len' ≡ false
      → is_online p ≡ true
      → isdu_matches p.isdu op_write p.block.index p.block.subindex ≡ true
      → p.isdu.done ≡ true
      → (p.isdu.error == L.isdu_error_none) ≡ false
      → ((write_parameter_block L p index subindex (some octets) len).0 ≡ isdu_err_device)
        × ((write_parameter_block L p index subindex (some octets) len).1.block ≡ p.block)
        × ((write_parameter_block L
              (write_parameter_block L p index subindex (some octets) len).1
              index'
              subindex'
              (some octets')
              len').0
            ≡ isdu_err_busy)
  write_parameter_block_latched p index subindex index' subindex' octets octets' len len' fits fits'
        step same other online matches done error =
      let e =
        refused p p.block.bytes p.block.len p.block.index p.block.subindex online matches done
          error in
      let run = resumed p index subindex octets len fits step same ∙ refused_run p e in
      let kept : (write_parameter_block L p index subindex (some octets) len).1.block ≡ p.block =
        ap (λ (r : ℤ × Port W). r.1.block) run
        ∙ write_isdu-block L p p.block.index p.block.subindex (some p.block.bytes) p.block.len in
      (
        ap (λ (r : ℤ × Port W). r.0) run ∙ e,
        kept,
        exclusive (write_parameter_block L p index subindex (some octets) len).1 index' subindex'
            octets' len' fits'
            (ap (λ (b : Block). is_block_idle b.step) kept ∙ ap is_block_idle step)
            (ap (λ b. block_matches b index' subindex' octets' len') kept ∙ other),
      )
