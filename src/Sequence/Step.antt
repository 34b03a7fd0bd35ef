-- ===== src/Sequence/Step.antt =====
-- src/command_sequence/command_sequence.cpp: one step run against its back end.
use serial_value_matcher_nat.Base.{
  ℕ, String, Bool, true, false, not, ◌&&◌, ◌||◌, Option, none, some, List, [], ◌∷◌, ◌==◌,
  if◌then◌else◌, length, ℤ, ◌+ℤ◌, ◌-ℤ◌, eq_ℤ, pos,
}
use serial_value_matcher_nat.Base.Decimal.{size_text, int_text, bool_text, set_value}
use serial_value_matcher_nat.Transport.Types.{deadline_set, SerialOperationResult, is_accepted}
use serial_value_matcher_nat.Transport.Names.{
  serial_operation_status_name, serial_deadline_status_name, serial_error_category_name,
}
use serial_value_matcher_nat.Modbus.Plan.{ScanSafetyLevel, ScanPlanOptions}
use serial_value_matcher_nat.Scan.Types.{
  ScanAttemptStatus, ScanExecutionStatus, ScanAttemptResult, ScanObservation, ScanBlockResult,
  ScanExecutionResult, describe_scan_execution_status,
}
use serial_value_matcher_nat.Sequence.Types.{
  AssertionKind, CommandExecutionStatus, ModbusReadCommand, AssertionCommand, CommandStep,
  CommandStepExecutionResult, command_kind, assertion_kind_name, step_label, contains_subsequence,
}

-- The results that a later assertion looks at.
pub record LastResults : Type 0 where
  pub last_serial_write_result : Option SerialOperationResult
  pub last_response : Option (List ℕ)
  pub last_modbus_result : Option ScanExecutionResult

abbrev pub no_results : LastResults
no_results = record {
  last_serial_write_result = Option.none;
  last_response = Option.none;
  last_modbus_result = Option.none;
}

abbrev pub make_step_result :
    CommandStep → ℕ → CommandExecutionStatus → String → CommandStepExecutionResult
make_step_result step step_index status message = record {
  step_index = step_index;
  step_id = step_label step step_index;
  kind = command_kind step;
  status = status;
  message = message;
  metadata = [];
}

-- `result.metadata[key] = value` for each entry, in order.
abbrev pub set_values : List (String × String) → List (String × String) → List (String × String)
set_values [] metadata = metadata
set_values (entry ∷ entries) metadata = set_values entries (set_value entry.0 entry.1 metadata)

abbrev pub add_values :
    List (String × String) → CommandStepExecutionResult → CommandStepExecutionResult
add_values entries result = record result { metadata = set_values entries result.metadata }

-- How the loop over the slices of a delay ends.
pub data DelayEnd : Type 0 where
  elapsed cancelled out_of_fuel : DelayEnd

abbrev pub delay_cancellation_slice_ms : ℕ
delay_cancellation_slice_ms = 100

abbrev pub write_values : SerialOperationResult → List (String × String)
write_values r =
    ("serial_request_id", size_text r.operation.request_id)
    ∷ ("serial_generation", size_text r.operation.generation)
    ∷ ("serial_status", serial_operation_status_name r.status)
    ∷ ("serial_error_category", serial_error_category_name r.error.category)
    ∷ ("deadline_status", serial_deadline_status_name r.deadline_status)
    ∷ ("deadline_set", bool_text (deadline_set r.operation.deadline))
    ∷ ("byte_count", size_text r.byte_count)
    ∷ []

abbrev pub is_scan_completed : ScanExecutionStatus → Bool
is_scan_completed ScanExecutionStatus.completed = true
is_scan_completed ScanExecutionStatus.completed_with_errors = false
is_scan_completed ScanExecutionStatus.cancelled = false
is_scan_completed ScanExecutionStatus.failed = false

abbrev pub is_scan_cancelled : ScanExecutionStatus → Bool
is_scan_cancelled ScanExecutionStatus.cancelled = true
is_scan_cancelled ScanExecutionStatus.completed = false
is_scan_cancelled ScanExecutionStatus.completed_with_errors = false
is_scan_cancelled ScanExecutionStatus.failed = false

abbrev pub is_attempt_timeout : ScanAttemptStatus → Bool
is_attempt_timeout ScanAttemptStatus.timeout = true
is_attempt_timeout ScanAttemptStatus.success = false
is_attempt_timeout ScanAttemptStatus.modbus_exception = false
is_attempt_timeout ScanAttemptStatus.parse_error = false
is_attempt_timeout ScanAttemptStatus.transport_error = false

unfoldable pub last_of : List ScanAttemptResult → Option ScanAttemptResult
last_of [] = none
last_of (a ∷ []) = some a
last_of (a ∷ b ∷ attempts) = last_of (b ∷ attempts)

-- The last attempt of the last block that has one.
unfoldable pub last_scan_attempt : List ScanBlockResult → Option ScanAttemptResult
unfolding last_of
last_scan_attempt [] = none
last_scan_attempt (block ∷ blocks) = elim (last_scan_attempt blocks) [
  | some attempt ↦ some attempt
  | none ↦ last_of block.attempts
]

unfoldable pub register_equals : List ScanObservation → ℤ → ℕ → Bool
register_equals [] address value = false
register_equals (o ∷ observations) address value =
    eq_ℤ (pos o.address) address && o.value == value || register_equals observations address value

-- The plan of a Modbus read: one block.
abbrev pub read_plan_options : ModbusReadCommand → ScanPlanOptions
read_plan_options command = record {
  slave_id = command.slave_id;
  function_code = command.function_code;
  range = record {
    start_address = command.start_address;
    end_address = command.start_address +ℤ command.quantity -ℤ pos 1;
  };
  block_size = command.quantity;
  request_interval_ms = pos 0;
  retry_count = command.retry_count;
  safety_level = ScanSafetyLevel.conservative;
}

abbrev pub read_values : ModbusReadCommand → List (String × String)
read_values c =
    ("backend", "core_modbus_scan_executor")
    ∷ ("slave_id", int_text c.slave_id)
    ∷ ("function_code", size_text c.function_code)
    ∷ ("start_address", int_text c.start_address)
    ∷ ("quantity", int_text c.quantity)
    ∷ ("timeout_ms", int_text c.response_timeout_ms)
    ∷ ("retry_count", int_text c.retry_count)
    ∷ []

abbrev pub scan_values : ScanExecutionResult → List (String × String)
scan_values r =
    ("modbus_status", describe_scan_execution_status r.status)
    ∷ ("observation_count", size_text (length r.observations))
    ∷ ("success_block_count", size_text r.success_block_count)
    ∷ ("failed_block_count", size_text r.failed_block_count)
    ∷ []

-- The status of a read from what the scan reports; `failed` is what the step starts with.
unfoldable pub read_status : ScanExecutionResult → CommandExecutionStatus
read_status r =
    let timed_out : Bool = elim (last_scan_attempt r.blocks) [
      | none ↦ false
      | some attempt ↦ is_attempt_timeout attempt.status
    ] in
    if is_scan_completed r.status
    then CommandExecutionStatus.completed
    else if is_scan_cancelled r.status
    then CommandExecutionStatus.cancelled
    else if timed_out
    then CommandExecutionStatus.timeout
    else CommandExecutionStatus.failed

-- Did the assertion pass, and the values that it records before `passed`.
unfoldable pub assertion_passed : AssertionCommand → LastResults → Bool
assertion_passed command last = elim command.kind [
  | AssertionKind.last_serial_write_accepted ↦ elim last.last_serial_write_result [
    | none ↦ false
    | some r ↦ is_accepted r.status
  ]
  | AssertionKind.last_response_contains ↦ elim last.last_response [
    | none ↦ false
    | some response ↦ contains_subsequence response command.expected_payload
  ]
  | AssertionKind.last_modbus_read_succeeded ↦ elim last.last_modbus_result [
    | none ↦ false
    | some r ↦ is_scan_completed r.status
  ]
  | AssertionKind.register_equals ↦ elim last.last_modbus_result [
    | none ↦ false
    | some r ↦
        register_equals r.observations command.register_address command.expected_register_value
  ]
]

abbrev pub assertion_values : AssertionCommand → List (String × String)
assertion_values command = elim command.kind [
  | AssertionKind.last_serial_write_accepted ↦ []
  | AssertionKind.last_response_contains ↦
      ("expected_payload_bytes", size_text (length command.expected_payload)) ∷ []
  | AssertionKind.last_modbus_read_succeeded ↦ []
  | AssertionKind.register_equals ↦
      ("register_address", int_text command.register_address)
      ∷ ("expected_register_value", size_text command.expected_register_value)
      ∷ []
]

unfoldable pub run_assertion :
    CommandStep → ℕ → AssertionCommand → LastResults → CommandStepExecutionResult
unfolding assertion_passed
run_assertion step step_index command last =
    let passed = assertion_passed command last in
    let result =
      add_values (("assertion_kind", assertion_kind_name command.kind) ∷ assertion_values command)
        (make_step_result step step_index CommandExecutionStatus.completed "") in
    let recorded = add_values (("passed", bool_text passed) ∷ []) result in
    if not passed
    then record recorded {
      status = CommandExecutionStatus.assertion_failed;
      message = "Command sequence assertion failed.";
    }
    else recorded
