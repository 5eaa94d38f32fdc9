-- ===== src/Isdu/Transfer.antt =====
-- The parameter-block transfer of src/master_isdu.c: its steps, and what it leaves behind.
use iolinki_master.Base.{
  ℕ, ◌≤◌, ◌<◌, ◌≡◌, refl, ap, ◌∙◌, true, false, not, ◌⊎◌, inl, inr, arith, if◌then◌else◌, ltb, u8,
  ◌+◌, ◌-◌, Option, some, List, [], ◌∷◌, ℤ, eq_ℤ, is_neg, Bool-cases,
}
use iolinki_master.Iolinki.{Iolinki}
use iolinki_master.Types.Codes.{status_ok}
use iolinki_master.Types.Limits.{isdu_write_header_max}
use iolinki_master.Types.Zero.{zero_block}
use iolinki_master.Types.State.{
  BlockStep, block_idle, begin_download, write_block, end_download, verify_block, Block, Port,
}
use iolinki_master.Isdu.Service.{
  service_result, read_isdu, write_isdu, isdu_finish_read, isdu_finish_write, isdu_finish_error,
  answer,
}
use iolinki_master.Isdu.DataStorage.{verify_isdu, verify_data_storage, verify_result}
use iolinki_master.Isdu.Block.{
  block_matches, is_block_idle, write_system_command, begin_parameter_download,
  end_parameter_download, block_clear, block_latch, block_verify, block_end, block_write,
  block_begin, block_run, write_parameter_block,
}

-- The place of a step in the order of a transfer.
abbrev pub stage : BlockStep → ℕ
stage block_idle = 0
stage begin_download = 1
stage write_block = 2
stage end_download = 3
stage verify_block = 4

-- A transfer that is not over: the same one, and not behind where it was.
pub record IsHeld (b b' : Block) : Type 0 where
  pub index : b'.index ≡ b.index
  pub subindex : b'.subindex ≡ b.subindex
  pub bytes : b'.bytes ≡ b.bytes
  pub len : b'.len ≡ b.len
  pub running : is_block_idle b'.step ≡ false
  pub order : stage b.step ≤ stage b'.step

module _ {W : Type 0} (L : Iolinki) where
  -- A call ends the transfer, by success or by an error, or has not succeeded and holds it; an
  -- error holds it only at a step before the readback.
  abbrev pub IsOutcome : Block → ℤ × Port W → Type 0
  IsOutcome b r =
      (((r.0 ≡ status_ok) ⊎ (is_neg r.0 ≡ true)) × (r.1.block.step ≡ block_idle))
      ⊎ ((eq_ℤ r.0 status_ok ≡ false)
          × IsHeld b r.1.block
          × ((is_neg r.0 ≡ false) ⊎ (stage r.1.block.step < stage verify_block)))

  pub write_isdu-block :
      (p : Port W) (index subindex : ℕ) (octets : Option (List ℕ)) (len : ℕ)
      → (write_isdu L p index subindex octets len).1.block ≡ p.block
  unfolding write_isdu isdu_finish_write isdu_finish_error service_result
  write_isdu-block p index subindex octets len = ground arith

  read_isdu-block :
      (p : Port W) (index subindex len : ℕ)
      → (read_isdu L p index subindex len).port.block ≡ p.block
  unfolding read_isdu isdu_finish_read isdu_finish_error service_result answer
  read_isdu-block p index subindex len = ground arith

  verify_isdu-block :
      (p : Port W) (index subindex : ℕ) (octets : Option (List ℕ)) (len : ℕ)
      → (verify_isdu L p index subindex octets len).1.block ≡ p.block
  unfolding verify_isdu verify_result service_result
  verify_isdu-block p index subindex octets len =
      ground (arith, read_isdu-block p index subindex 255)

  verify_data_storage-block :
      (p : Port W) (octets : Option (List ℕ)) (len : ℕ)
      → (verify_data_storage L p octets len).1.block ≡ p.block
  unfolding verify_data_storage verify_result service_result
  verify_data_storage-block p octets len =
      ground (arith, read_isdu-block p L.idx_data_storage 0 255)

  block_verify-IsOutcome :
      (p : Port W) → is_block_idle p.block.step ≡ false → IsOutcome p.block (block_verify L p)
  unfolding block_verify service_result block_clear zero_block
  block_verify-IsOutcome p h = ground (
    arith,
    h,
    verify_isdu-block p p.block.index p.block.subindex (some p.block.bytes) p.block.len,
    verify_data_storage-block p (some p.block.bytes) p.block.len,
  )

  IsOutcome-earlier : (b b' : Block) (r : ℤ × Port W) → IsHeld b b' → IsOutcome b' r → IsOutcome b r
  IsOutcome-earlier b b' r h (inl over) = inl over
  IsOutcome-earlier b b' r h (inr (pending, h', early)) = inr (
    pending,
    record {
      index = h'.index ∙ h.index;
      subindex = h'.subindex ∙ h.subindex;
      bytes = h'.bytes ∙ h.bytes;
      len = h'.len ∙ h.len;
      running = h'.running;
      order = omega (arith, h.order, h'.order);
    },
    early,
  )

  -- The transfer at a later step, after a service that left it alone.
  later-IsHeld :
      (b : Block) (p : Port W) (step : BlockStep)
      → p.block ≡ b
      → is_block_idle step ≡ false
      → stage b.step ≤ stage step
      → IsHeld b (record (p.block) { step = step })
  later-IsHeld b p step e r o = record {
    index = ap (λ (b : Block). b.index) e;
    subindex = ap (λ (b : Block). b.subindex) e;
    bytes = ap (λ (b : Block). b.bytes) e;
    len = ap (λ (b : Block). b.len) e;
    running = r;
    order = o;
  }

  -- A service of the transfer, and what follows if it is done.
  after-IsOutcome :
      (b : Block) (r : ℤ × Port W) (step : BlockStep) (next : Port W → ℤ × Port W)
      → r.1.block ≡ b
      → is_block_idle b.step ≡ false
      → is_block_idle step ≡ false
      → stage b.step ≤ stage step
      → stage b.step < stage verify_block
      → IsOutcome
          (record (r.1.block) { step = step })
          (next (record (r.1) { block = record (r.1.block) { step = step } }))
      → IsOutcome b (
          if not (eq_ℤ r.0 status_ok)
          then r
          else next (record (r.1) { block = record (r.1.block) { step = step } }))
  after-IsOutcome b r step next e running run o early n =
      let p : Port W = record (r.1) { block = record (r.1.block) { step = step } } in
      elim (Bool-cases (eq_ℤ r.0 status_ok)) [
        | inl done ↦
            rw (done) (IsOutcome-earlier b p.block (next p) (later-IsHeld b r.1 step e run o) n)
        | inr failed ↦ rw (failed) (inr (failed, same, inr before))
      ]
    where
      before : stage r.1.block.step < stage verify_block
      before = omega (arith, early, ap (λ (b : Block). stage b.step) e)

      same : IsHeld b r.1.block
      same = record {
        index = ap (λ (b : Block). b.index) e;
        subindex = ap (λ (b : Block). b.subindex) e;
        bytes = ap (λ (b : Block). b.bytes) e;
        len = ap (λ (b : Block). b.len) e;
        running = ap (λ (b : Block). is_block_idle b.step) e ∙ running;
        order = omega (arith, ap (λ (b : Block). stage b.step) e);
      }

  block_end-IsOutcome :
      (p : Port W) → p.block.step ≡ end_download → IsOutcome p.block (block_end L p)
  unfolding block_end end_parameter_download write_system_command
  block_end-IsOutcome p h =
      let r : ℤ × Port W = end_parameter_download L p in
      after-IsOutcome p.block r verify_block (block_verify L)
        (write_isdu-block p L.idx_system_command 0 (some (L.cmd_param_download_end ∷ [])) 1)
        (ap is_block_idle h) refl (omega (arith, ap stage h)) (omega (arith, ap stage h))
        (block_verify-IsOutcome
          (record (r.1) { block = record (r.1.block) { step = verify_block } }) refl)

  block_write-IsOutcome :
      (p : Port W) → p.block.step ≡ write_block → IsOutcome p.block (block_write L p)
  unfolding block_write
  block_write-IsOutcome p h =
      let r : ℤ × Port W =
        write_isdu L p p.block.index p.block.subindex (some p.block.bytes) p.block.len in
      after-IsOutcome p.block r end_download (block_end L)
        (write_isdu-block p p.block.index p.block.subindex (some p.block.bytes) p.block.len)
        (ap is_block_idle h) refl (omega (arith, ap stage h)) (omega (arith, ap stage h))
        (block_end-IsOutcome (record (r.1) { block = record (r.1.block) { step = end_download } })
          refl)

  block_begin-IsOutcome :
      (p : Port W) → p.block.step ≡ begin_download → IsOutcome p.block (block_begin L p)
  unfolding block_begin begin_parameter_download write_system_command
  block_begin-IsOutcome p h =
      let r : ℤ × Port W = begin_parameter_download L p in
      after-IsOutcome p.block r write_block (block_write L)
        (write_isdu-block p L.idx_system_command 0 (some (L.cmd_param_download_start ∷ [])) 1)
        (ap is_block_idle h) refl (omega (arith, ap stage h)) (omega (arith, ap stage h))
        (block_write-IsOutcome (record (r.1) { block = record (r.1.block) { step = write_block } })
          refl)

  block_run-IsOutcome :
      (step : BlockStep) (p : Port W)
      → p.block.step ≡ step
      → is_block_idle step ≡ false
      → IsOutcome p.block (block_run L step p)
  unfolding block_run
  block_run-IsOutcome begin_download p e h = block_begin-IsOutcome p e
  block_run-IsOutcome write_block p e h = block_write-IsOutcome p e
  block_run-IsOutcome end_download p e h = block_end-IsOutcome p e
  block_run-IsOutcome verify_block p e h = block_verify-IsOutcome p (ap is_block_idle e ∙ h)
  block_run-IsOutcome block_idle p e h = absurd (cc)

  -- The transfer that a call starts or goes on with.
  abbrev pub transfer : Port W → ℕ → ℕ → List ℕ → ℕ → Port W
  transfer p index subindex octets len =
      if is_block_idle p.block.step then block_latch L p index subindex octets len else p

  latched-step :
      (p : Port W) (index subindex : ℕ) (octets : List ℕ) (len : ℕ)
      → (block_latch L p index subindex octets len).block.step ≡ begin_download
  unfolding block_latch
  latched-step p index subindex octets len = refl

  -- A call that the transfer in progress does not exclude, with data of a length that is allowed,
  -- starts a transfer or goes on with it. Either the transfer is over afterwards, and the call
  -- succeeds or reports an error; or the call does not succeed, and the transfer is held: it has
  -- the same index, subindex and data, and a step that is not before the one that it had. An error
  -- holds the transfer only at a step before the readback; a call that holds it at the readback
  -- reports neither success nor an error.
  pub write_parameter_block-IsOutcome :
      (p : Port W) (index subindex : ℕ) (octets : List ℕ) (len : ℕ)
      → ltb (u8 (L.isdu_buffer_size + 256 - isdu_write_header_max)) len ≡ false
      → (is_block_idle p.block.step ≡ true)
        ⊎ (block_matches p.block index subindex octets len ≡ true)
      → IsOutcome
          (transfer p index subindex octets len).block
          (write_parameter_block L p index subindex (some octets) len)
  unfolding write_parameter_block
  write_parameter_block-IsOutcome p index subindex octets len fits free =
      let p' : Port W = block_latch L p index subindex octets len in
      elim (Bool-cases (is_block_idle p.block.step)) [
        | inl idle ↦
            rw (fits, idle)
              (block_run-IsOutcome begin_download p' (latched-step p index subindex octets len)
                refl)
        | inr running ↦
            let same : block_matches p.block index subindex octets len ≡ true =
              ground (arith, free, running) in
            rw (fits, running, same) (block_run-IsOutcome p.block.step p refl running)
      ]
