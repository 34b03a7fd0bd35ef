-- ===== src/Transport/Names.antt =====
-- src/transport/serial_types.h: the names of the enumerators in logs.
use serial_value_matcher_nat.Base.{String}
use serial_value_matcher_nat.Transport.Types.{
  SerialSessionState, SerialOperationKind, SerialDataDirection, SerialOperationStatus,
  SerialDeadlineStatus, SerialErrorCategory,
}

abbrev pub serial_session_state_name : SerialSessionState → String
serial_session_state_name SerialSessionState.closed = "closed"
serial_session_state_name SerialSessionState.opening = "opening"
serial_session_state_name SerialSessionState.opened = "open"
serial_session_state_name SerialSessionState.closing = "closing"
serial_session_state_name SerialSessionState.faulted = "faulted"

abbrev pub serial_data_direction_name : SerialDataDirection → String
serial_data_direction_name SerialDataDirection.none = "none"
serial_data_direction_name SerialDataDirection.transmit = "tx"
serial_data_direction_name SerialDataDirection.receive = "rx"

abbrev pub serial_operation_kind_name : SerialOperationKind → String
serial_operation_kind_name SerialOperationKind.open_port = "open"
serial_operation_kind_name SerialOperationKind.close_port = "close"
serial_operation_kind_name SerialOperationKind.read = "read"
serial_operation_kind_name SerialOperationKind.write = "write"
serial_operation_kind_name SerialOperationKind.set_data_terminal_ready = "set_dtr"
serial_operation_kind_name SerialOperationKind.set_request_to_send = "set_rts"

abbrev pub serial_operation_status_name : SerialOperationStatus → String
serial_operation_status_name SerialOperationStatus.accepted = "accepted"
serial_operation_status_name SerialOperationStatus.succeeded = "succeeded"
serial_operation_status_name SerialOperationStatus.rejected_invalid = "rejected_invalid"
serial_operation_status_name SerialOperationStatus.rejected_full = "rejected_full"
serial_operation_status_name SerialOperationStatus.rejected_closed = "rejected_closed"
serial_operation_status_name SerialOperationStatus.failed = "failed"
serial_operation_status_name SerialOperationStatus.timeout = "timeout"
serial_operation_status_name SerialOperationStatus.cancelled = "cancelled"
serial_operation_status_name SerialOperationStatus.disconnected = "disconnected"

abbrev pub serial_deadline_status_name : SerialDeadlineStatus → String
serial_deadline_status_name SerialDeadlineStatus.not_set = "not_set"
serial_deadline_status_name SerialDeadlineStatus.pending = "pending"
serial_deadline_status_name SerialDeadlineStatus.met = "met"
serial_deadline_status_name SerialDeadlineStatus.expired = "expired"

abbrev pub serial_error_category_name : SerialErrorCategory → String
serial_error_category_name SerialErrorCategory.none = "none"
serial_error_category_name SerialErrorCategory.invalid_input = "invalid_input"
serial_error_category_name SerialErrorCategory.session_closed = "session_closed"
serial_error_category_name SerialErrorCategory.queue_full = "queue_full"
serial_error_category_name SerialErrorCategory.timeout = "timeout"
serial_error_category_name SerialErrorCategory.cancelled = "cancelled"
serial_error_category_name SerialErrorCategory.disconnected = "disconnected"
serial_error_category_name SerialErrorCategory.native_failure = "native_failure"
serial_error_category_name SerialErrorCategory.io_failure = "io_failure"
