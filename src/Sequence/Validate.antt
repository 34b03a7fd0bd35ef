-- ===== src/Sequence/Validate.antt =====
-- src/command_sequence/command_sequence.cpp: what a sequence may ask for, checked before it runs.
use serial_value_matcher_nat.Base.{
  ℕ, ◌+◌, ◌-◌, ◌/◌, ◌^◌, String, Bool, true, false, not, ◌&&◌, ◌||◌, Option, none, some, List, [],
  ◌∷◌, ltb, ◌==◌, if◌then◌else◌, length, is_empty, ℤ, pos_part, ◌+ℤ◌, ◌-ℤ◌, ◌*ℤ◌, ltb_ℤ, leb_ℤ, pos,
}
use serial_value_matcher_nat.Modbus.Request.{is_supported_read_function}
use serial_value_matcher_nat.Sequence.Types.{
  AssertionKind, CommandExecutionStatus, SerialWriteCommand, DelayCommand, WaitForResponseCommand,
  ModbusReadCommand, AssertionCommand, CommandAction, CommandStep, CommandSequence,
  CommandSequenceSafetyLimits, CommandSequenceValidationResult,
}

abbrev pub int_max : ℤ
int_max = pos (2 ^ 31 - 1)

-- The budget with the value added; `none` when the sum is no `int`.
unfoldable pub add_budget : ℤ → ℤ → Option ℤ
add_budget budget_ms value_ms =
    if leb_ℤ value_ms (pos 0)
    then some budget_ms
    else if ltb_ℤ (int_max -ℤ value_ms) budget_ms
    then none
    else some (budget_ms +ℤ value_ms)

abbrev pub valid : CommandSequenceValidationResult
valid = record {
  ok = true;
  status = CommandExecutionStatus.completed;
  step_index = 0;
  message = "";
}

abbrev pub unsafe : ℕ → String → CommandSequenceValidationResult
unsafe step_index message = record {
  ok = false;
  status = CommandExecutionStatus.rejected_unsafe;
  step_index = step_index;
  message = message;
}

-- The verdict on a step and the budget after it.
abbrev pub Verdict : Type 0
Verdict = CommandSequenceValidationResult × ℤ

-- The last check of a step: its time goes on the budget.
unfoldable pub charge : ℤ → ℤ → ℕ → Verdict
charge budget_ms value_ms step_index = elim (add_budget budget_ms value_ms) [
  | none ↦ (unsafe step_index "Command sequence timeout budget overflowed.", budget_ms)
  | some total ↦ (valid, total)
]

unfoldable pub valid_command_timeout : ℤ → CommandSequenceSafetyLimits → Bool
valid_command_timeout timeout_ms limits =
    ltb_ℤ (pos 0) timeout_ms && leb_ℤ timeout_ms limits.max_command_timeout_ms

unfoldable pub validate_serial_write :
    SerialWriteCommand → ℕ → CommandSequenceSafetyLimits → ℤ → Verdict
unfolding valid_command_timeout
validate_serial_write command step_index limits budget =
    if is_empty command.payload
    then (unsafe step_index "Serial write command payload must not be empty.", budget)
    else if ltb limits.max_payload_bytes (length command.payload)
    then (
      unsafe step_index "Serial write command payload exceeds the configured safety limit.",
      budget,
    )
    else if not (valid_command_timeout command.timeout_ms limits)
    then (
      unsafe step_index "Serial write command timeout is outside the configured safety limit.",
      budget,
    )
    else charge budget command.timeout_ms step_index

unfoldable pub validate_delay : DelayCommand → ℕ → CommandSequenceSafetyLimits → ℤ → Verdict
validate_delay command step_index limits budget =
    if ltb_ℤ command.duration_ms (pos 0) || ltb_ℤ limits.max_delay_ms command.duration_ms
    then (
      unsafe step_index "Delay command duration is outside the configured safety limit.",
      budget,
    )
    else charge budget command.duration_ms step_index

unfoldable pub validate_wait_for_response :
    WaitForResponseCommand → ℕ → CommandSequenceSafetyLimits → ℤ → Verdict
unfolding valid_command_timeout
validate_wait_for_response command step_index limits budget =
    if is_empty command.expected_payload
    then (
      unsafe step_index "Wait-for-response command must declare the expected payload bytes.",
      budget,
    )
    else if ltb limits.max_payload_bytes (length command.expected_payload)
    then (
      unsafe step_index "Wait-for-response payload exceeds the configured safety limit.",
      budget,
    )
    else if not (valid_command_timeout command.timeout_ms limits)
    then (
      unsafe step_index "Wait-for-response timeout is outside the configured safety limit.",
      budget,
    )
    else charge budget command.timeout_ms step_index

-- `responseTimeoutMs > INT_MAX / attemptCount` for positive numbers, and the product.
unfoldable pub validate_modbus_read :
    ModbusReadCommand → ℕ → CommandSequenceSafetyLimits → ℤ → Verdict
unfolding valid_command_timeout is_supported_read_function
validate_modbus_read command step_index limits budget =
    let attempt_count = command.retry_count +ℤ pos 1 in
    if ltb_ℤ command.slave_id (pos 1) || ltb_ℤ (pos 247) command.slave_id
    then (
      unsafe step_index
          "Modbus read command slave id must be 1-247; broadcast id 0 is not allowed.",
      budget,
    )
    else if not (is_supported_read_function command.function_code)
    then (
      unsafe step_index "Modbus read command only supports read functions FC03 and FC04.",
      budget,
    )
    else if ltb_ℤ command.start_address (pos 0)
    then (unsafe step_index "Modbus read command start address must not be negative.", budget)
    else if leb_ℤ command.quantity (pos 0) || ltb_ℤ limits.max_modbus_quantity command.quantity
    then (
      unsafe step_index "Modbus read command quantity is outside the configured safety limit.",
      budget,
    )
    else if ltb_ℤ command.retry_count (pos 0) || ltb_ℤ limits.max_modbus_retries command.retry_count
    then (
      unsafe step_index "Modbus read command retry count is outside the configured safety limit.",
      budget,
    )
    else if not (valid_command_timeout command.response_timeout_ms limits)
    then (
      unsafe step_index
          "Modbus read command response timeout is outside the configured safety limit.",
      budget,
    )
    else if ltb_ℤ (pos 0) attempt_count
        && ltb ((2 ^ 31 - 1) / pos_part attempt_count) (pos_part command.response_timeout_ms)
    then (unsafe step_index "Command sequence timeout budget overflowed.", budget)
    else charge budget (command.response_timeout_ms *ℤ attempt_count) step_index

unfoldable pub validate_assertion :
    AssertionCommand → ℕ → CommandSequenceSafetyLimits → CommandSequenceValidationResult
validate_assertion command step_index limits = elim command.kind [
  | AssertionKind.last_serial_write_accepted ↦ valid
  | AssertionKind.last_modbus_read_succeeded ↦ valid
  | AssertionKind.last_response_contains ↦
      if is_empty command.expected_payload
      then unsafe step_index "Response assertion must declare expected payload bytes."
      else if ltb limits.max_payload_bytes (length command.expected_payload)
      then unsafe step_index "Response assertion payload exceeds the configured safety limit."
      else valid
  | AssertionKind.register_equals ↦
      if ltb_ℤ command.register_address (pos 0)
      then unsafe step_index "Register assertion address must not be negative."
      else valid
]

unfoldable pub validate_action : CommandAction → ℕ → CommandSequenceSafetyLimits → ℤ → Verdict
validate_action (CommandAction.serial_write c) step_index limits budget =
    validate_serial_write c step_index limits budget
validate_action (CommandAction.delay c) step_index limits budget =
    validate_delay c step_index limits budget
validate_action (CommandAction.wait_for_response c) step_index limits budget =
    validate_wait_for_response c step_index limits budget
validate_action (CommandAction.modbus_read c) step_index limits budget =
    validate_modbus_read c step_index limits budget
validate_action (CommandAction.assertion c) step_index limits budget =
    (validate_assertion c step_index limits, budget)

-- The loop over the steps, from `index` on.
unfoldable pub validate_steps :
    List CommandStep → ℕ → CommandSequenceSafetyLimits → ℤ → CommandSequenceValidationResult
validate_steps [] index limits budget = valid
validate_steps (step ∷ steps) index limits budget =
    let verdict = validate_action step.action index limits budget in
    let rest = validate_steps steps (index + 1) limits verdict.1 in
    if not verdict.0.ok
    then verdict.0
    else if ltb_ℤ limits.max_total_budget_ms verdict.1
    then unsafe index "Command sequence exceeds the configured total timeout budget."
    else rest

unfoldable pub limits_invalid : CommandSequenceSafetyLimits → Bool
limits_invalid limits =
    limits.max_payload_bytes == 0
    || (leb_ℤ limits.max_command_timeout_ms (pos 0)
        || (ltb_ℤ limits.max_delay_ms (pos 0)
            || (leb_ℤ limits.max_total_budget_ms (pos 0)
                || (leb_ℤ limits.max_modbus_quantity (pos 0)
                    || ltb_ℤ limits.max_modbus_retries (pos 0)))))

unfoldable pub validate_command_sequence :
    CommandSequence → CommandSequenceSafetyLimits → CommandSequenceValidationResult
unfolding limits_invalid
validate_command_sequence sequence limits =
    if is_empty sequence.steps
    then unsafe 0 "Command sequence must contain at least one command."
    else if limits.max_command_count == 0 || ltb limits.max_command_count (length sequence.steps)
    then unsafe 0 "Command sequence exceeds the configured command-count safety limit."
    else if limits_invalid limits
    then unsafe 0 "Command sequence safety limits are invalid."
    else validate_steps sequence.steps 0 limits (pos 0)
