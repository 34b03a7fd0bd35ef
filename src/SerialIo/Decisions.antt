-- ===== src/SerialIo/Decisions.antt =====
-- src/win32/native_serial_io_state.h and .cpp: which admissions, completions, cancellations and
-- reads the window acts on.
use serial_value_matcher_nat.Base.{
  ℕ, Bool, true, false, not, ◌&&◌, ◌||◌, ◌==◌, if◌then◌else◌, is_empty,
}
use serial_value_matcher_nat.Transport.Types.{
  unassigned_serial_operation_id, unassigned_serial_session_generation, SerialSessionState,
  SerialOperationKind, SerialOperationStatus, SerialErrorCategory, SerialOperationDescriptor,
  descriptor_assigned, SerialOperationResult, is_accepted, is_succeeded, is_terminal,
  SerialReadResult, SerialSessionSnapshot, is_open,
}

pub record NativeSerialWriteKey : Type 0 where
  pub generation : ℕ
  pub request_id : ℕ

abbrev pub no_key : NativeSerialWriteKey
no_key = record {
  generation = unassigned_serial_session_generation;
  request_id = unassigned_serial_operation_id;
}

abbrev pub assigned : NativeSerialWriteKey → Bool
assigned k =
    not (k.generation == unassigned_serial_session_generation)
    && not (k.request_id == unassigned_serial_operation_id)

unfoldable pub matches : NativeSerialWriteKey → SerialOperationDescriptor → Bool
matches k operation =
    assigned k
    && (descriptor_assigned operation
        && (k.generation == operation.generation && k.request_id == operation.request_id))

-- Comparisons of an enumerator with a fixed one.
abbrev pub is_write : SerialOperationKind → Bool
is_write SerialOperationKind.write = true
is_write _ = false

abbrev pub is_read : SerialOperationKind → Bool
is_read SerialOperationKind.read = true
is_read _ = false

abbrev pub is_cancelled : SerialOperationStatus → Bool
is_cancelled SerialOperationStatus.cancelled = true
is_cancelled _ = false

abbrev pub is_disconnected : SerialOperationStatus → Bool
is_disconnected SerialOperationStatus.disconnected = true
is_disconnected _ = false

abbrev pub is_cancelled_error : SerialErrorCategory → Bool
is_cancelled_error SerialErrorCategory.cancelled = true
is_cancelled_error _ = false

abbrev pub is_disconnected_error : SerialErrorCategory → Bool
is_disconnected_error SerialErrorCategory.disconnected = true
is_disconnected_error _ = false

abbrev pub is_faulted : SerialSessionState → Bool
is_faulted SerialSessionState.faulted = true
is_faulted _ = false

unfoldable pub native_serial_write_key_for_admission :
    SerialOperationResult → ℕ → NativeSerialWriteKey
native_serial_write_key_for_admission result expected_generation =
    if not (is_accepted result.status)
      || (not (is_write result.operation.kind)
          || (not (descriptor_assigned result.operation)
              || (result.operation.generation == unassigned_serial_session_generation
                  || not (result.operation.generation == expected_generation))))
    then no_key
    else record {
      generation = result.operation.generation;
      request_id = result.operation.request_id;
    }

unfoldable pub native_serial_write_cancellation_matches :
    NativeSerialWriteKey → SerialOperationResult → ℕ → Bool
native_serial_write_cancellation_matches pending result expected_generation =
    not (expected_generation == unassigned_serial_session_generation)
    && (pending.generation == expected_generation
        && (is_cancelled result.status
            && (is_cancelled_error result.error.category && matches pending result.operation)))

unfoldable pub native_serial_write_should_publish_on_close :
    NativeSerialWriteKey → SerialOperationResult → ℕ → Bool
native_serial_write_should_publish_on_close pending result closing_generation =
    not (closing_generation == unassigned_serial_session_generation)
    && (pending.generation == closing_generation
        && (is_terminal result.status
            && (is_succeeded result.status
                && (is_write result.operation.kind && matches pending result.operation))))

pub data NativeSerialWriteCompletionDecision : Type 0 where
  ignore succeeded cancelled failed : NativeSerialWriteCompletionDecision

abbrev pub status_decision : SerialOperationStatus → NativeSerialWriteCompletionDecision
status_decision SerialOperationStatus.succeeded = NativeSerialWriteCompletionDecision.succeeded
status_decision SerialOperationStatus.cancelled = NativeSerialWriteCompletionDecision.cancelled
status_decision SerialOperationStatus.failed = NativeSerialWriteCompletionDecision.failed
status_decision SerialOperationStatus.timeout = NativeSerialWriteCompletionDecision.failed
status_decision SerialOperationStatus.disconnected = NativeSerialWriteCompletionDecision.failed
status_decision _ = NativeSerialWriteCompletionDecision.ignore

unfoldable pub native_serial_write_completion_decision :
    NativeSerialWriteKey
    → SerialOperationResult
    → SerialSessionSnapshot
    → ℕ
    → NativeSerialWriteCompletionDecision
native_serial_write_completion_decision pending result current_session fault_generation =
    let current_generation =
      is_open current_session.state && current_session.generation == result.operation.generation in
    let matching_fault_generation =
      is_faulted current_session.state
      && (not (fault_generation == unassigned_serial_session_generation)
          && result.operation.generation == fault_generation) in
    let publishable_fault_success = matching_fault_generation && is_succeeded result.status in
    let current_fault =
      matching_fault_generation
      && (is_disconnected result.status && is_disconnected_error result.error.category) in
    if not (is_terminal result.status)
      || (not (is_write result.operation.kind) || not (matches pending result.operation))
    then NativeSerialWriteCompletionDecision.ignore
    else if not current_generation && (not publishable_fault_success && not current_fault)
    then NativeSerialWriteCompletionDecision.ignore
    else status_decision result.status

pub data NativeSerialReadDecision : Type 0 where
  append stop fail report_error : NativeSerialReadDecision

abbrev pub read_status_decision :
    SerialReadResult → SerialOperationStatus → NativeSerialReadDecision
read_status_decision result SerialOperationStatus.succeeded =
    if not (descriptor_assigned result.operation.operation)
    then NativeSerialReadDecision.report_error
    else if is_empty result.bytes
    then NativeSerialReadDecision.stop
    else NativeSerialReadDecision.append
read_status_decision result SerialOperationStatus.timeout = NativeSerialReadDecision.stop
read_status_decision result SerialOperationStatus.cancelled = NativeSerialReadDecision.stop
read_status_decision result SerialOperationStatus.rejected_closed = NativeSerialReadDecision.stop
read_status_decision result SerialOperationStatus.disconnected = NativeSerialReadDecision.fail
read_status_decision result SerialOperationStatus.failed = NativeSerialReadDecision.fail
read_status_decision result SerialOperationStatus.accepted = NativeSerialReadDecision.report_error
read_status_decision result SerialOperationStatus.rejected_invalid =
    NativeSerialReadDecision.report_error
read_status_decision result SerialOperationStatus.rejected_full =
    NativeSerialReadDecision.report_error

unfoldable pub native_serial_read_decision : SerialReadResult → ℕ → NativeSerialReadDecision
native_serial_read_decision result expected_generation =
    if not (is_read result.operation.operation.kind)
    then NativeSerialReadDecision.report_error
    else if expected_generation == unassigned_serial_session_generation
        || not (result.operation.operation.generation == expected_generation)
    then NativeSerialReadDecision.stop
    else read_status_decision result result.operation.status
