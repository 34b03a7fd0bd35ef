-- ===== src/Danger/PolicyLaws.antt =====
-- Which operations go without a confirmation, and what satisfies one.
use serial_value_matcher_nat.Base.{◌≡◌, ◌≢◌, ◌↔◌, ◌⊎◌, true, false, arith, ℤ, pos}
use serial_value_matcher_nat.Danger.Policy.{
  DangerousOperationKind, DangerousOperationRequest, dangerous_operation_confirmation_satisfied,
  dangerous_operation_confirmation_state_from_dialog_result, evaluate_dangerous_operation,
}

-- A manual write that changes no device's registers, and no coil of every device.
pub record IsHarmless (r : DangerousOperationRequest) : Type 0 where
  pub manual : r.kind ≡ DangerousOperationKind.manual_serial_write
  pub no_register_write : r.function_code ≢ 6
  pub no_registers_write : r.function_code ≢ 16
  pub no_broadcast : (r.slave_id ≢ pos 0) ⊎ ((r.function_code ≢ 5) × (r.function_code ≢ 15))

-- An operation goes without a confirmation exactly when it is a manual write whose function writes
-- no register and, if it goes to slave 0, no coil either.
pub requires_confirmation_iff :
    (r : DangerousOperationRequest)
    → ((evaluate_dangerous_operation r).requires_confirmation ≡ false) ↔ IsHarmless r
unfolding evaluate_dangerous_operation
requires_confirmation_iff r = ground arith

-- A dialog satisfies a confirmation exactly by OK (1) or Yes (6).
dialog_satisfied_iff :
    (answer : ℤ)
    → (dangerous_operation_confirmation_satisfied
          (dangerous_operation_confirmation_state_from_dialog_result answer)
        ≡ true)
      ↔ ((answer ≡ pos 1) ⊎ (answer ≡ pos 6))
unfolding dangerous_operation_confirmation_state_from_dialog_result
dialog_satisfied_iff answer = ground arith
