-- ===== src/Tests/Services.antt =====
-- The theorems on the responses to requests of src/master_isdu.c at concrete octets.
use iolinki_master.Base.{ℕ, List, [], ◌∷◌}
use iolinki_master.Types.State.{State, wait, Port, IsduOp}
use iolinki_master.Types.Zero.{zero_isdu, zero_port}
use iolinki_master.Tests.Instance.{port}

-- A port in operation whose device is asked for index 0x12.
asking : IsduOp → Port ℕ
unfolding zero_port zero_isdu
asking op = record port {
  state = State.operate;
  isdu = record (zero_isdu 256) { op = op; phase = wait; index = 0x12 };
}

-- A refusal with the codes 0x80 and 0x11, behind an octet of a busy device.
abbrev refusal : List (List ℕ)
refusal = (1 ∷ 0x44 ∷ []) ∷ (0x80 ∷ 0x11 ∷ 0xd5 ∷ []) ∷ []

-- The acknowledgement of a write.
abbrev acknowledgement : List (List ℕ)
acknowledgement = (0x52 ∷ []) ∷ (0x52 ∷ 0 ∷ []) ∷ []
