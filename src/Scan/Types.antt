-- ===== src/Scan/Types.antt =====
-- src/core/modbus_scan_executor_core.h: what the executor reads and what it reports. The transport,
-- the clock and the callbacks are the caller's: functions on a state `World` of theirs.
use serial_value_matcher_nat.Base.{ℕ, String, Bool, true, false, Option, List, ℤ}
use serial_value_matcher_nat.Modbus.Plan.{ScanBlock, ScanPlan}

pub data RtuTransportExchangeStatus : Type 0 where
  success timeout transport_error : RtuTransportExchangeStatus

pub record RtuTransportExchange : Type 0 where
  pub status : RtuTransportExchangeStatus
  pub request_frame : List ℕ
  pub response_frame : List ℕ
  pub error_message : String
  pub sent_at_utc : String
  pub received_at_utc : String
  pub endpoint : String

pub data ScanAttemptStatus : Type 0 where
  success modbus_exception parse_error timeout transport_error : ScanAttemptStatus

pub data ScanExecutionStatus : Type 0 where
  completed completed_with_errors cancelled failed : ScanExecutionStatus

pub record ScanAttemptResult : Type 0 where
  pub block_index : ℤ
  pub attempt_index : ℕ
  pub status : ScanAttemptStatus
  pub request_frame : List ℕ
  pub response_frame : List ℕ
  pub error_message : String
  pub is_modbus_exception : Bool
  pub exception_code : ℕ
  pub exception_description : String
  pub sent_at_utc : String
  pub received_at_utc : String
  pub endpoint : String

pub record ScanObservation : Type 0 where
  pub block_index : ℤ
  pub attempt_index : ℕ
  pub slave_id : ℤ
  pub function_code : ℕ
  pub address : ℕ
  pub value : ℕ
  pub observed_at_utc : String

pub record ScanBlockResult : Type 0 where
  pub block : ScanBlock
  pub attempts : List ScanAttemptResult
  pub observations : List ScanObservation
  pub ok : Bool
  pub final_error_message : String

pub record ScanExecutionProgress : Type 0 where
  pub completed_blocks : ℕ
  pub total_blocks : ℕ
  pub success_blocks : ℕ
  pub failed_blocks : ℕ
  pub observations : ℕ

pub record ScanExecutionOptions (World : Type 0) : Type 0 where
  pub response_timeout_ms : ℤ
  pub continue_on_block_error : Bool
  pub retry_on_timeout : Bool
  pub retry_on_transport_error : Bool
  pub retry_on_parse_error : Bool
  pub retry_on_modbus_exception : Bool
  pub should_cancel : Option (World → Bool × World)
  pub sleep_for_ms : Option (ℤ → World → World)
  pub now_utc : Option (World → String × World)
  pub on_progress : Option (ScanExecutionProgress → World → World)

pub record ScanExecutionResult : Type 0 where
  pub status : ScanExecutionStatus
  pub error_message : String
  pub started_at_utc : String
  pub finished_at_utc : String
  pub plan : ScanPlan
  pub blocks : List ScanBlockResult
  pub observations : List ScanObservation
  pub success_block_count : ℕ
  pub failed_block_count : ℕ

-- `RtuTransport::exchange` and the system clock behind `defaultUtcTimestampText`.
pub record Surroundings (World : Type 0) : Type 0 where
  pub exchange : List ℕ → ℤ → World → RtuTransportExchange × World
  pub default_utc : World → String × World

abbrev pub describe_scan_attempt_status : ScanAttemptStatus → String
describe_scan_attempt_status ScanAttemptStatus.success = "success"
describe_scan_attempt_status ScanAttemptStatus.modbus_exception = "Modbus exception"
describe_scan_attempt_status ScanAttemptStatus.parse_error = "response parse error"
describe_scan_attempt_status ScanAttemptStatus.timeout = "response timeout"
describe_scan_attempt_status ScanAttemptStatus.transport_error = "transport error"

abbrev pub describe_scan_execution_status : ScanExecutionStatus → String
describe_scan_execution_status ScanExecutionStatus.completed = "completed"
describe_scan_execution_status ScanExecutionStatus.completed_with_errors = "completed with errors"
describe_scan_execution_status ScanExecutionStatus.cancelled = "cancelled"
describe_scan_execution_status ScanExecutionStatus.failed = "failed"

abbrev pub is_success : ScanAttemptStatus → Bool
is_success ScanAttemptStatus.success = true
is_success ScanAttemptStatus.modbus_exception = false
is_success ScanAttemptStatus.parse_error = false
is_success ScanAttemptStatus.timeout = false
is_success ScanAttemptStatus.transport_error = false
