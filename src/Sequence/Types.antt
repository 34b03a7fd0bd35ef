-- ===== src/Sequence/Types.antt =====
-- src/command_sequence/command_sequence.h: commands, limits and results, and the names of the
-- enumerators.
use serial_value_matcher_nat.Base.{
  ℕ, ◌+◌, String, Bool, true, false, not, ◌&&◌, Option, List, [], ◌∷◌, ltb, ◌==◌, if◌then◌else◌,
  length, is_empty, ℤ, pos, empty_text, text_append,
}
use serial_value_matcher_nat.Base.Decimal.{size_text}
use serial_value_matcher_nat.Transport.Types.{SerialDeadline, SerialOperationResult}
use serial_value_matcher_nat.Scan.Types.{RtuTransportExchange}

pub data CommandKind : Type 0 where
  serial_write delay wait_for_response modbus_read assertion : CommandKind

pub data AssertionKind : Type 0 where
  last_serial_write_accepted last_response_contains : AssertionKind
  last_modbus_read_succeeded register_equals : AssertionKind

pub data CommandExecutionStatus : Type 0 where
  completed failed timeout cancelled assertion_failed rejected_unsafe : CommandExecutionStatus

pub data CommandEvidenceEventType : Type 0 where
  step_result assertion_result : CommandEvidenceEventType

pub record SerialWriteCommand : Type 0 where
  pub payload : List ℕ
  pub timeout_ms : ℤ

pub record DelayCommand : Type 0 where
  pub duration_ms : ℤ

pub record WaitForResponseCommand : Type 0 where
  pub expected_payload : List ℕ
  pub timeout_ms : ℤ

pub record ModbusReadCommand : Type 0 where
  pub slave_id : ℤ
  pub function_code : ℕ
  pub start_address : ℤ
  pub quantity : ℤ
  pub response_timeout_ms : ℤ
  pub retry_count : ℤ

pub record AssertionCommand : Type 0 where
  pub kind : AssertionKind
  pub expected_payload : List ℕ
  pub register_address : ℤ
  pub expected_register_value : ℕ

pub data CommandAction : Type 0 where
  serial_write : SerialWriteCommand → CommandAction
  delay : DelayCommand → CommandAction
  wait_for_response : WaitForResponseCommand → CommandAction
  modbus_read : ModbusReadCommand → CommandAction
  assertion : AssertionCommand → CommandAction

pub record CommandStep : Type 0 where
  pub id : String
  pub action : CommandAction

pub record CommandSequence : Type 0 where
  pub id : String
  pub steps : List CommandStep

pub record CommandSequenceSafetyLimits : Type 0 where
  pub max_command_count : ℕ
  pub max_payload_bytes : ℕ
  pub max_command_timeout_ms : ℤ
  pub max_delay_ms : ℤ
  pub max_total_budget_ms : ℤ
  pub max_modbus_quantity : ℤ
  pub max_modbus_retries : ℤ

abbrev pub default_limits : CommandSequenceSafetyLimits
default_limits = record {
  max_command_count = 64;
  max_payload_bytes = 4096;
  max_command_timeout_ms = pos 30_000;
  max_delay_ms = pos 60_000;
  max_total_budget_ms = pos 300_000;
  max_modbus_quantity = pos 125;
  max_modbus_retries = pos 3;
}

pub record CommandSequenceValidationResult : Type 0 where
  pub ok : Bool
  pub status : CommandExecutionStatus
  pub step_index : ℕ
  pub message : String

pub record CommandStepExecutionResult : Type 0 where
  pub step_index : ℕ
  pub step_id : String
  pub kind : CommandKind
  pub status : CommandExecutionStatus
  pub message : String
  pub metadata : List (String × String)

pub record CommandSequenceEvidenceEvent : Type 0 where
  pub type : CommandEvidenceEventType
  pub sequence_id : String
  pub step_index : ℕ
  pub step_id : String
  pub command_kind : CommandKind
  pub status : CommandExecutionStatus
  pub message : String
  pub metadata : List (String × String)

pub record CommandSequenceExecutionResult : Type 0 where
  pub status : CommandExecutionStatus
  pub message : String
  pub steps : List CommandStepExecutionResult
  pub evidence : List CommandSequenceEvidenceEvent

-- The callbacks and back ends of the caller, on a state `World` of theirs.
pub record CommandSequenceExecutionContext (World : Type 0) : Type 0 where
  pub serial_write_scheduler :
      Option (List ℕ → SerialDeadline → World → SerialOperationResult × World)
  pub modbus_transport : Option (List ℕ → ℤ → World → RtuTransportExchange × World)
  pub wait_for_response : Option (ℤ → World → Option (List ℕ) × World)
  pub sleep_for_ms : Option (ℤ → World → World)
  pub should_cancel : Option (World → Bool × World)
  pub now_utc : Option (World → String × World)

-- The clocks of the standard library: the steady one in ticks, and the one of calendar time.
pub record Clocks (World : Type 0) : Type 0 where
  pub steady_now : World → ℕ × World
  pub ticks_per_ms : ℕ
  pub default_utc : World → String × World

abbrev pub is_completed : CommandExecutionStatus → Bool
is_completed CommandExecutionStatus.completed = true
is_completed CommandExecutionStatus.failed = false
is_completed CommandExecutionStatus.timeout = false
is_completed CommandExecutionStatus.cancelled = false
is_completed CommandExecutionStatus.assertion_failed = false
is_completed CommandExecutionStatus.rejected_unsafe = false

abbrev pub make_serial_write_step : String → List ℕ → ℤ → CommandStep
make_serial_write_step id payload timeout_ms = record {
  id = id;
  action = CommandAction.serial_write (record { payload = payload; timeout_ms = timeout_ms });
}

abbrev pub make_delay_step : String → ℤ → CommandStep
make_delay_step id duration_ms = record {
  id = id;
  action = CommandAction.delay (record { duration_ms = duration_ms });
}

abbrev pub make_wait_for_response_step : String → List ℕ → ℤ → CommandStep
make_wait_for_response_step id expected_payload timeout_ms = record {
  id = id;
  action =
      CommandAction.wait_for_response
        (record { expected_payload = expected_payload; timeout_ms = timeout_ms });
}

abbrev pub make_modbus_read_step : String → ModbusReadCommand → CommandStep
make_modbus_read_step id command = record { id = id; action = CommandAction.modbus_read command }

abbrev pub make_assertion_step : String → AssertionCommand → CommandStep
make_assertion_step id command = record { id = id; action = CommandAction.assertion command }

abbrev pub command_kind : CommandStep → CommandKind
command_kind step = elim step.action [
  | serial_write c ↦ CommandKind.serial_write
  | delay c ↦ CommandKind.delay
  | wait_for_response c ↦ CommandKind.wait_for_response
  | modbus_read c ↦ CommandKind.modbus_read
  | assertion c ↦ CommandKind.assertion
]

abbrev pub command_kind_name : CommandKind → String
command_kind_name CommandKind.serial_write = "serial_write"
command_kind_name CommandKind.delay = "delay"
command_kind_name CommandKind.wait_for_response = "wait_for_response"
command_kind_name CommandKind.modbus_read = "modbus_read"
command_kind_name CommandKind.assertion = "assertion"

abbrev pub assertion_kind_name : AssertionKind → String
assertion_kind_name AssertionKind.last_serial_write_accepted = "last_serial_write_accepted"
assertion_kind_name AssertionKind.last_response_contains = "last_response_contains"
assertion_kind_name AssertionKind.last_modbus_read_succeeded = "last_modbus_read_succeeded"
assertion_kind_name AssertionKind.register_equals = "register_equals"

abbrev pub command_execution_status_name : CommandExecutionStatus → String
command_execution_status_name CommandExecutionStatus.completed = "completed"
command_execution_status_name CommandExecutionStatus.failed = "failed"
command_execution_status_name CommandExecutionStatus.timeout = "timeout"
command_execution_status_name CommandExecutionStatus.cancelled = "cancelled"
command_execution_status_name CommandExecutionStatus.assertion_failed = "assertion_failed"
command_execution_status_name CommandExecutionStatus.rejected_unsafe = "rejected_unsafe"

unfoldable pub step_path : ℕ → String
step_path index = text_append "step" (size_text (index + 1))

unfoldable pub step_label : CommandStep → ℕ → String
step_label step index = if not (empty_text step.id) then step.id else step_path index

-- Is the needle at the head of the text?
unfoldable pub starts_with : List ℕ → List ℕ → Bool
starts_with [] haystack = true
starts_with (n ∷ needle) [] = false
starts_with (n ∷ needle) (h ∷ haystack) = h == n && starts_with needle haystack

-- `std::search`: the needle at some place of the text.
unfoldable pub search_bytes : List ℕ → List ℕ → Bool
unfolding starts_with
search_bytes [] needle = starts_with needle []
search_bytes (h ∷ haystack) needle =
    let later = search_bytes haystack needle in
    if starts_with needle (h ∷ haystack) then true else later

unfoldable pub contains_subsequence : List ℕ → List ℕ → Bool
unfolding search_bytes
contains_subsequence haystack needle =
    if is_empty needle
    then true
    else if ltb (length haystack) (length needle)
    then false
    else search_bytes haystack needle
