-- ===== src/Transport/Types.antt =====
-- src/transport/serial_types.h: identities, statuses, deadlines, evidence and results that the
-- serial sessions, the write queue and the window share.
use serial_value_matcher_nat.Base.{
  ℕ, ℤ, pos, String, Bool, true, false, not, ◌==◌, Option, some, List,
}

pub data SerialParity : Type 0 where
  none odd even mark space : SerialParity

pub data SerialStopBits : Type 0 where
  one one_point_five two : SerialStopBits

pub data SerialFlowControl : Type 0 where
  none hardware_rts_cts software_xon_xoff : SerialFlowControl

abbrev pub serial_terminal_result_target_ms : ℤ
serial_terminal_result_target_ms = pos 1000

pub record SerialOpenOptions : Type 0 where
  pub port_name : String
  pub baud_rate : ℤ
  pub data_bits : ℤ
  pub parity : SerialParity
  pub stop_bits : SerialStopBits
  pub flow_control : SerialFlowControl
  pub data_terminal_ready : Bool
  pub request_to_send : Bool
  pub read_timeout_ms : ℤ
  pub write_timeout_ms : ℤ
  pub read_buffer_size : ℕ

abbrev pub unassigned_serial_operation_id : ℕ
unassigned_serial_operation_id = 0

abbrev pub unassigned_serial_session_generation : ℕ
unassigned_serial_session_generation = 0

pub data SerialSessionState : Type 0 where
  closed opening opened closing faulted : SerialSessionState

pub data SerialOperationKind : Type 0 where
  open_port close_port read write set_data_terminal_ready set_request_to_send : SerialOperationKind

pub data SerialDataDirection : Type 0 where
  none transmit receive : SerialDataDirection

pub data SerialOperationStatus : Type 0 where
  accepted succeeded rejected_invalid rejected_full rejected_closed : SerialOperationStatus
  failed timeout cancelled disconnected : SerialOperationStatus

pub data SerialDeadlineStatus : Type 0 where
  not_set pending met expired : SerialDeadlineStatus

pub data SerialErrorCategory : Type 0 where
  none invalid_input session_closed queue_full timeout : SerialErrorCategory
  cancelled disconnected native_failure io_failure : SerialErrorCategory

-- A time point of the steady clock, in its ticks.
pub record SerialDeadline : Type 0 where
  pub expires_at : Option ℕ

abbrev pub deadline_set : SerialDeadline → Bool
deadline_set d = elim d.expires_at [ Option.none ↦ false | some t ↦ true ]

pub record SerialErrorEvidence : Type 0 where
  pub category : SerialErrorCategory
  pub native_code : ℕ
  pub byte_count : ℕ
  pub comm_error_mask : ℕ
  pub input_queue_bytes : Option ℕ
  pub output_queue_bytes : Option ℕ

abbrev pub evidence_ok : SerialErrorEvidence → Bool
evidence_ok e = elim e.category [ SerialErrorCategory.none ↦ true | _ ↦ false ]

pub record SerialOperationDescriptor : Type 0 where
  pub request_id : ℕ
  pub generation : ℕ
  pub kind : SerialOperationKind
  pub deadline : SerialDeadline

abbrev pub descriptor_assigned : SerialOperationDescriptor → Bool
descriptor_assigned d = not (d.request_id == unassigned_serial_operation_id)

pub record SerialOperationResult : Type 0 where
  pub operation : SerialOperationDescriptor
  pub status : SerialOperationStatus
  pub deadline_status : SerialDeadlineStatus
  pub byte_count : ℕ
  pub endpoint : String
  pub error : SerialErrorEvidence

-- `SerialOperationResult::accepted`, `succeeded`, `rejected` and `terminal`, on the status.
abbrev pub is_accepted : SerialOperationStatus → Bool
is_accepted SerialOperationStatus.accepted = true
is_accepted _ = false

abbrev pub is_succeeded : SerialOperationStatus → Bool
is_succeeded SerialOperationStatus.succeeded = true
is_succeeded _ = false

abbrev pub is_rejected : SerialOperationStatus → Bool
is_rejected SerialOperationStatus.rejected_invalid = true
is_rejected SerialOperationStatus.rejected_full = true
is_rejected SerialOperationStatus.rejected_closed = true
is_rejected _ = false

abbrev pub is_terminal : SerialOperationStatus → Bool
is_terminal SerialOperationStatus.succeeded = true
is_terminal SerialOperationStatus.failed = true
is_terminal SerialOperationStatus.timeout = true
is_terminal SerialOperationStatus.cancelled = true
is_terminal SerialOperationStatus.disconnected = true
is_terminal _ = false

pub record SerialReadResult : Type 0 where
  pub operation : SerialOperationResult
  pub bytes : List ℕ

pub record SerialSessionSnapshot : Type 0 where
  pub state : SerialSessionState
  pub generation : ℕ
  pub endpoint : String
  pub options : SerialOpenOptions

abbrev pub is_open : SerialSessionState → Bool
is_open SerialSessionState.opened = true
is_open _ = false

abbrev pub uses_hardware_rts_cts : SerialSessionSnapshot → Bool
uses_hardware_rts_cts s = elim s.options.flow_control [
  | SerialFlowControl.hardware_rts_cts ↦ true
  | _ ↦ false
]

abbrev pub serial_operation_direction : SerialOperationKind → SerialDataDirection
serial_operation_direction SerialOperationKind.write = SerialDataDirection.transmit
serial_operation_direction SerialOperationKind.read = SerialDataDirection.receive
serial_operation_direction _ = SerialDataDirection.none
