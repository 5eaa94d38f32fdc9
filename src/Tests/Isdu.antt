-- ===== src/Tests/Isdu.antt =====
-- The ISDU transport of src/master_isdu.c at concrete requests and responses.
use iolinki_master.Base.{
  ℕ, ◌+◌, ◌-◌, ◌==◌, ltb, u8, ◌≡◌, ◌≢◌, ◌≤◌, ◌<◌, ◌++◌, ◌↔◌, List, refl, true, false, arith, some,
  [], ◌∷◌, replicate, take, drop, inl, length, length-replicate,
}
use iolinki_master.Types.State.{Isdu, op_read, op_write, write_block, wait, request, operate, Port}
use iolinki_master.Types.Zero.{zero_isdu, zero_port, zero_block}
use iolinki_master.Isdu.Service.{stage_read, stage_write, write_too_long, read_isdu, is_online}
use iolinki_master.Isdu.Transport.{chkpdu_from, isdu_matches, isdu_on_od, isdu_index_len}
use iolinki_master.Isdu.Request.{decode_request, decode-stage_read}
use iolinki_master.Isdu.WriteRequest.{decode-stage_write}
use iolinki_master.Isdu.Segments.{IsSending, fill_all, padded, total, unsent, fill_all-unsent}
use iolinki_master.Isdu.Bounds.{isdu_on_od-IsSound, IsSound}
use iolinki_master.Types.Codes.{status_ok, isdu_err_device, isdu_err_busy}
use iolinki_master.Isdu.DataStorage.{same_data_storage}
use iolinki_master.Isdu.Records.{DsRecord, encode, encode_all}
use iolinki_master.Isdu.Restore.{AreIn, same_data_storage_iff}
use iolinki_master.Isdu.Answer.{encode_response, response_head, length-encode_response}
use iolinki_master.Isdu.Pieces.{feed, concat}
use iolinki_master.Isdu.ReadBack.{IsAwaiting, read_isdu-feed}
use iolinki_master.Types.Limits.{isdu_write_header_max}
use iolinki_master.Isdu.Block.{block_matches, is_block_idle, write_parameter_block}
use iolinki_master.Isdu.Latch.{write_parameter_block_latched}
use iolinki_master.Isdu.Transfer.{transfer, IsOutcome, write_parameter_block-IsOutcome}
use iolinki_master.Tests.Instance.{wire, port}

-- A service that waits for its response.
abbrev waiting : Isdu
unfolding zero_isdu
waiting = record (zero_isdu 256) { op = op_read; phase = wait }

request_size : length waiting.request ≡ 256
unfolding waiting zero_isdu
request_size = length-replicate {A = ℕ} 256 0

response_size : length waiting.response ≡ 256
unfolding waiting zero_isdu
response_size = length-replicate {A = ℕ} 256 0

short_enough : write_too_long wire 0x1234 5 20 ≡ false
unfolding write_too_long isdu_index_len
short_enough = refl

decode-stage_read_example :
    decode_request (
      take
        (stage_read wire waiting 0x1234 5).request_len
        (stage_read wire waiting 0x1234 5).request)
    ≡ some (record { read = true; index = 0x1234; subindex = 5; octets = [] })
decode-stage_read_example =
    decode-stage_read wire waiting 0x1234 5 (omega arith) (omega arith)
      (omega (arith, request_size))

decode-stage_write_example :
    decode_request (
      take
        (stage_write wire waiting 0x1234 5 (replicate 20 7) 20).request_len
        (stage_write wire waiting 0x1234 5 (replicate 20 7) 20).request)
    ≡ some
        (record { read = false; index = 0x1234; subindex = 5; octets = take 20 (replicate 20 7) })
decode-stage_write_example =
    decode-stage_write wire waiting 0x1234 5 (replicate 20 7) 20 (omega arith) (omega arith)
      (ground arith) (omega arith) (ground arith) request_size (omega arith) (omega arith)
      short_enough

-- A response of four octets, and what comes behind it.
isdu_on_od-IsSound_example :
    IsSound wire (omega arith) (isdu_on_od wire waiting (0xd4 ∷ 1 ∷ 2 ∷ 0xd7 ∷ []) 4)
unfolding waiting zero_isdu
isdu_on_od-IsSound_example =
    isdu_on_od-IsSound wire (omega arith) waiting (0xd4 ∷ 1 ∷ 2 ∷ 0xd7 ∷ []) 4 (ground arith)
      (record { size = response_size; len = omega arith }, inl (inl refl))

-- A request of four octets at its start.
unfoldable sending : Isdu
unfolding zero_isdu
sending = record (zero_isdu 256) {
  op = op_read;
  phase = request;
  request = 0x93 ∷ 0x10 ∷ 0x83 ∷ 0 ∷ [];
  request_len = 3;
}

sends : IsSending sending
unfolding sending zero_isdu
sends = record { running = refl; small = omega arith; inside = omega arith; position = omega arith }

fill_all-unsent_example :
    ((fill_all wire sending (2 ∷ 2 ∷ 1 ∷ [])).0 ≡ padded (total (2 ∷ 2 ∷ 1 ∷ [])) (unsent sending))
    × (unsent (fill_all wire sending (2 ∷ 2 ∷ 1 ∷ [])).1
        ≡ drop (total (2 ∷ 2 ∷ 1 ∷ [])) (unsent sending))
fill_all-unsent_example = fill_all-unsent wire sending (2 ∷ 2 ∷ 1 ∷ []) sends

-- Two records of a device, and one of them as the expected one.
abbrev first_record : DsRecord
first_record = record { index_high = 0x12; index_low = 0x34; subindex = 1; value = 7 ∷ 8 ∷ [] }

abbrev second_record : DsRecord
second_record = record { index_high = 0; index_low = 0x18; subindex = 0; value = 65 ∷ [] }

abbrev held : List DsRecord
held = first_record ∷ second_record ∷ []

abbrev wanted : List DsRecord
wanted = second_record ∷ []

held_fits : length (encode_all held) < 256
unfolding encode_all encode
held_fits = omega arith

wanted_fits : length (encode_all wanted) < 256
unfolding encode_all encode
wanted_fits = omega arith

same_data_storage_iff_example :
    (same_data_storage
        (encode_all held ++ 9 ∷ [])
        (length (encode_all held))
        (some (encode_all wanted ++ []))
        (length (encode_all wanted))
      ≡ true)
    ↔ AreIn wanted held
same_data_storage_iff_example = same_data_storage_iff held wanted (9 ∷ []) [] held_fits wanted_fits

-- A port in operation whose device is asked for index 0x12.
reader : Port ℕ
unfolding zero_port waiting
reader = record port { state = operate; isdu = record waiting { index = 0x12; subindex = 0 } }

reader_online : is_online reader ≡ true
unfolding reader is_online
reader_online = refl

awaiting : IsAwaiting wire reader.isdu op_read 0x12 0
unfolding reader waiting zero_isdu
awaiting = record {
  same_op = refl;
  running = refl;
  index = refl;
  subindex = refl;
  phase = refl;
  done = refl;
  error = refl;
  size = response_size;
}

reply_fits : length (encode_response 13 (0x41 ∷ 0x42 ∷ [])) ≤ 256
unfolding encode_response response_head
reply_fits = omega (arith, length-encode_response 13 (0x41 ∷ 0x42 ∷ []))

four : ◌≢◌ {A = ℕ} 13 4
four h = absurd (omega (arith, h))

twelve : ◌≢◌ {A = ℕ} 13 12
twelve h = absurd (omega (arith, h))

-- The device is busy in the first frame and the start of the next, and then answers.
abbrev pieces : List (List ℕ)
pieces = (0 ∷ []) ∷ (1 ∷ 0xd4 ∷ 0x41 ∷ []) ∷ [] ∷ (0x42 ∷ 0xd7 ∷ 0 ∷ []) ∷ []

sent : concat pieces ≡ (0 ∷ 1 ∷ []) ++ (encode_response 13 (0x41 ∷ 0x42 ∷ []) ++ 0 ∷ [])
unfolding encode_response response_head chkpdu_from
sent = refl

read_isdu-feed_example :
    ((read_isdu wire (record reader { isdu = feed wire reader.isdu pieces }) 0x12 0 32).result
      ≡ status_ok)
    × ((read_isdu wire (record reader { isdu = feed wire reader.isdu pieces }) 0x12 0 32).octets
        ≡ 0x41 ∷ 0x42 ∷ [])
    × ((read_isdu wire (record reader { isdu = feed wire reader.isdu pieces }) 0x12 0 32).len ≡ 2)
read_isdu-feed_example =
    read_isdu-feed wire reader 0x12 0 32 13 (0x41 ∷ 0x42 ∷ []) (0 ∷ 1 ∷ []) (0 ∷ []) pieces
      reader_online (omega arith) awaiting (omega arith, omega arith, four, twelve) (omega arith)
      (omega arith) (ground arith) reply_fits (omega arith, (omega arith, tt)) sent

-- A port that has no transfer in progress.
allowed : ltb (u8 (wire.isdu_buffer_size + 256 - isdu_write_header_max)) 2 ≡ false
allowed = refl

free : is_block_idle reader.block.step ≡ true
unfolding reader zero_port zero_block port
free = refl

write_parameter_block-IsOutcome_example :
    IsOutcome wire
      (transfer wire reader 0x40 1 (7 ∷ 8 ∷ []) 2).block
      (write_parameter_block wire reader 0x40 1 (some (7 ∷ 8 ∷ [])) 2)
write_parameter_block-IsOutcome_example =
    write_parameter_block-IsOutcome wire reader 0x40 1 (7 ∷ 8 ∷ []) 2 allowed (inl free)

-- A port whose device has refused the data of a transfer.
refused : Port ℕ
unfolding zero_port zero_isdu
refused = record port {
  state = operate;
  isdu = record (zero_isdu 256) {
    op = op_write;
    index = 0x40;
    subindex = 1;
    done = true;
    error = 0x8030;
  };
  block = record { step = write_block; index = 0x40; subindex = 1; bytes = 7 ∷ 8 ∷ []; len = 2 };
}

same_transfer : block_matches refused.block 0x40 1 (7 ∷ 8 ∷ []) 2 ≡ true
unfolding refused block_matches
same_transfer = refl

other_transfer : block_matches refused.block 0x41 1 (7 ∷ 8 ∷ []) 2 ≡ false
unfolding refused block_matches
other_transfer = refl

same_write : isdu_matches refused.isdu op_write refused.block.index refused.block.subindex ≡ true
unfolding refused isdu_matches zero_isdu
same_write = refl

refused_step : refused.block.step ≡ write_block
unfolding refused
refused_step = refl

refused_online : is_online refused ≡ true
unfolding refused is_online
refused_online = refl

refused_done : refused.isdu.done ≡ true
unfolding refused zero_isdu
refused_done = refl

refused_error : (refused.isdu.error == wire.isdu_error_none) ≡ false
unfolding refused zero_isdu
refused_error = refl

write_parameter_block_latched_example :
    ((write_parameter_block wire refused 0x40 1 (some (7 ∷ 8 ∷ [])) 2).0 ≡ isdu_err_device)
    × ((write_parameter_block wire refused 0x40 1 (some (7 ∷ 8 ∷ [])) 2).1.block ≡ refused.block)
    × ((write_parameter_block wire
          (write_parameter_block wire refused 0x40 1 (some (7 ∷ 8 ∷ [])) 2).1
          0x41
          1
          (some (7 ∷ 8 ∷ []))
          2).0
        ≡ isdu_err_busy)
write_parameter_block_latched_example =
    write_parameter_block_latched wire refused 0x40 1 0x41 1 (7 ∷ 8 ∷ []) (7 ∷ 8 ∷ []) 2 2 allowed
      allowed refused_step same_transfer other_transfer refused_online same_write refused_done
      refused_error
