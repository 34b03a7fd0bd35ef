-- ===== src/Danger/Examples.antt =====
-- Tests of the policy, and the theorems about it at concrete operations.
use serial_value_matcher_nat.Base.{◌≡◌, refl, ◌↔◌, false, pos}
use serial_value_matcher_nat.Base.Decimal.{decimal, size_text}
use serial_value_matcher_nat.Danger.Policy.{
  DangerousOperationKind, DangerousOperationRequest, evaluate_dangerous_operation,
}
use serial_value_matcher_nat.Danger.PolicyLaws.{IsHarmless, requires_confirmation_iff}

abbrev coil_to_all : DangerousOperationRequest
coil_to_all = record {
  kind = DangerousOperationKind.manual_serial_write;
  payload_bytes = 8;
  command_count = 0;
  repeat_count = pos 1;
  slave_id = pos 0;
  function_code = 5;
  address = pos 10;
  quantity = pos 1;
}

-- A coil written to slave 0 is a broadcast.
kind-evaluate :
    (evaluate_dangerous_operation coil_to_all).kind ≡ DangerousOperationKind.modbus_broadcast_write
unfolding evaluate_dangerous_operation
kind-evaluate = refl

size_text-hundred : size_text 120 ≡ "120"
unfolding size_text decimal
size_text-hundred = refl

requires_confirmation_iff_example :
    ((evaluate_dangerous_operation coil_to_all).requires_confirmation ≡ false)
    ↔ IsHarmless coil_to_all
requires_confirmation_iff_example = requires_confirmation_iff coil_to_all
