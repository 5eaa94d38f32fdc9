-- ===== src/Tests/Gateway.antt =====
-- The status line of src/master_gateway.c for a concrete device.
use iolinki_master.Base.{
  ℕ, ◌≡◌, refl, true, arith, some, none, List, [], ◌∷◌, length, if◌then◌else◌, ltb,
}
use iolinki_master.Types.Codes.{status_ok, err_buffer_too_small}
use iolinki_master.Types.State.{DeviceInfo}
use iolinki_master.Types.Zero.{zero_device_info}
use iolinki_master.Gateway.{format_gateway_line}
use iolinki_master.Gateway.Text.{line_text, format_gateway_line-line_text}
use iolinki_master.Tests.Instance.{wire}

abbrev info : DeviceInfo
unfolding zero_device_info
info = record zero_device_info { valid = true; vendor_id = 0x0142; device_id = 0x001234 }

valid : info.valid ≡ true
unfolding info
valid = refl

abbrev measured : List ℕ
measured = 0xca ∷ 0xfe ∷ []

format_gateway_line-line_text_example : format_gateway_line wire 7 info (some measured) 2 64 ≡ (
    if ltb (length (line_text 7 info measured)) 64
    then (status_ok, some (line_text 7 info measured))
    else (err_buffer_too_small, none))
format_gateway_line-line_text_example =
    format_gateway_line-line_text wire 7 info measured 64 (omega arith) (omega arith) valid
      (omega arith) (omega arith)
