-- ===== src/Isdu/WriteBack.antt =====
-- A Write Request of src/master_isdu.c from the first octet of the response to the result of
-- iolink_master_write_isdu.
use iolinki_master.Base.{◌≡◌}
use iolinki_master.Iolinki.{Iolinki}
use iolinki_master.Types.Codes.{status_ok}
use iolinki_master.Types.State.{Isdu, Port, op_none}

-- A write service is complete, and the port is free for the next service.
abbrev pub IsWritten : {W : Type 0} → Port W → Type 0
IsWritten q = (q.diagnostics.last_service_result ≡ status_ok) × (q.isdu.op ≡ op_none)
