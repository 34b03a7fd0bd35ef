-- ===== src/SerialIo/Examples.antt =====
-- The theorems about the serial port's state at concrete states and results.
use serial_value_matcher_nat.Base.{
  ℕ, ◌≡◌, refl, ◌≢◌, ◌↔◌, ◌⊎◌, true, false, Option, List, [], ◌∷◌, pos,
}
use serial_value_matcher_nat.Transport.Types.{
  SerialParity, SerialStopBits, SerialFlowControl, SerialSessionState, SerialOperationKind,
  SerialOperationStatus, SerialDeadlineStatus, SerialErrorCategory, SerialErrorEvidence,
  SerialOperationResult, SerialSessionSnapshot,
}
use serial_value_matcher_nat.SerialIo.State.{
  NativeSerialIoOwner, new_io_state, has_pending_serial_writes, serial_write_queue_has_backpressure,
  allows_owner, can_acquire, try_acquire, release, force_release,
}
use serial_value_matcher_nat.SerialIo.Decisions.{
  NativeSerialWriteKey, no_key, assigned, native_serial_write_key_for_admission,
  NativeSerialWriteCompletionDecision, native_serial_write_completion_decision,
}
use serial_value_matcher_nat.SerialIo.Ownership.{
  Call, OwnerEvent, step, run, run_events, IsLockHistory, try_acquire_lem, run-IsLockHistory,
}
use serial_value_matcher_nat.SerialIo.DecisionLaws.{
  IsPublishable, completion_decision_iff, admission-completion,
}

abbrev scan_then_send : List Call
scan_then_send =
    Call.acquires NativeSerialIoOwner.modbus_scan
    ∷ Call.acquires NativeSerialIoOwner.manual_send
    ∷ Call.releases NativeSerialIoOwner.modbus_scan
    ∷ Call.acquires NativeSerialIoOwner.file_send
    ∷ Call.forces
    ∷ []

run_events-scan_then_send :
    run_events new_io_state scan_then_send
    ≡ OwnerEvent.taken NativeSerialIoOwner.modbus_scan
      ∷ OwnerEvent.freed NativeSerialIoOwner.modbus_scan
      ∷ OwnerEvent.taken NativeSerialIoOwner.file_send
      ∷ OwnerEvent.freed NativeSerialIoOwner.file_send
      ∷ []
unfolding try_acquire can_acquire allows_owner release force_release
run_events-scan_then_send = refl

run-IsLockHistory_example :
    IsLockHistory NativeSerialIoOwner.none
      (run_events new_io_state scan_then_send)
      (run new_io_state scan_then_send).owner
run-IsLockHistory_example = run-IsLockHistory scan_then_send

abbrev no_error : SerialErrorEvidence
no_error = record {
  category = SerialErrorCategory.none;
  native_code = 0;
  byte_count = 0;
  comm_error_mask = 0;
  input_queue_bytes = Option.none;
  output_queue_bytes = Option.none;
}

abbrev write_result : ℕ → SerialOperationStatus → SerialOperationResult
write_result id status = record {
  operation = record {
    request_id = id;
    generation = 2;
    kind = SerialOperationKind.write;
    deadline = record { expires_at = Option.none };
  };
  status = status;
  deadline_status = SerialDeadlineStatus.not_set;
  byte_count = 4;
  endpoint = "COM1";
  error = no_error;
}

abbrev open_session : SerialSessionSnapshot
open_session = record {
  state = SerialSessionState.opened;
  generation = 2;
  endpoint = "COM1";
  options = record {
    port_name = "COM1";
    baud_rate = pos 9600;
    data_bits = pos 8;
    parity = SerialParity.none;
    stop_bits = SerialStopBits.one;
    flow_control = SerialFlowControl.none;
    data_terminal_ready = true;
    request_to_send = true;
    read_timeout_ms = pos 100;
    write_timeout_ms = pos 1000;
    read_buffer_size = 4096;
  };
}

abbrev awaited : NativeSerialWriteKey
awaited = record { generation = 2; request_id = 7 }

completion_decision_iff_example :
    (native_serial_write_completion_decision awaited
        (write_result 7 SerialOperationStatus.succeeded)
        open_session
        0
      ≢ NativeSerialWriteCompletionDecision.ignore)
    ↔ IsPublishable awaited (write_result 7 SerialOperationStatus.succeeded) open_session 0
completion_decision_iff_example =
    completion_decision_iff awaited (write_result 7 SerialOperationStatus.succeeded) open_session 0

admission-completion_example :
    (((assigned awaited ≡ true)
        × (SerialOperationStatus.accepted ≡ SerialOperationStatus.accepted)
        × (SerialOperationKind.write ≡ SerialOperationKind.write)
        × (awaited.generation ≡ 2)
        × (awaited.request_id ≡ 7))
      ⊎ (awaited ≡ no_key))
    × ((native_serial_write_completion_decision awaited
            (write_result 8 SerialOperationStatus.succeeded)
            open_session
            0
          ≡ NativeSerialWriteCompletionDecision.ignore)
        ⊎ (((write_result 8 SerialOperationStatus.succeeded).operation.generation ≡ 2)
            × ((write_result 8 SerialOperationStatus.succeeded).operation.request_id ≡ 7)))
unfolding native_serial_write_key_for_admission
admission-completion_example =
    admission-completion (write_result 7 SerialOperationStatus.accepted) 2
      (write_result 8 SerialOperationStatus.succeeded) open_session 0

try_acquire_lem_example :
    let s = step new_io_state (Call.acquires NativeSerialIoOwner.modbus_scan) in
    (((try_acquire s NativeSerialIoOwner.file_send).0 ≡ true)
      × ((try_acquire s NativeSerialIoOwner.file_send).1
          ≡ record s { owner = NativeSerialIoOwner.file_send })
      × (s.owner ≡ NativeSerialIoOwner.none)
      × (((NativeSerialIoOwner.file_send ≡ NativeSerialIoOwner.manual_send)
            × (serial_write_queue_has_backpressure s ≡ false))
          ⊎ (((NativeSerialIoOwner.file_send ≡ NativeSerialIoOwner.file_send)
                ⊎ (NativeSerialIoOwner.file_send ≡ NativeSerialIoOwner.modbus_scan))
              × (has_pending_serial_writes s ≡ false))))
    ⊎ (((try_acquire s NativeSerialIoOwner.file_send).0 ≡ false)
        × ((try_acquire s NativeSerialIoOwner.file_send).1 ≡ s)
        × ((s.owner ≢ NativeSerialIoOwner.none)
            ⊎ ((NativeSerialIoOwner.file_send ≡ NativeSerialIoOwner.none)
                ⊎ (((NativeSerialIoOwner.file_send ≡ NativeSerialIoOwner.manual_send)
                      × (serial_write_queue_has_backpressure s ≡ true))
                    ⊎ (((NativeSerialIoOwner.file_send ≡ NativeSerialIoOwner.file_send)
                          ⊎ (NativeSerialIoOwner.file_send ≡ NativeSerialIoOwner.modbus_scan))
                        × (has_pending_serial_writes s ≡ true))))))
try_acquire_lem_example =
    let s = step new_io_state (Call.acquires NativeSerialIoOwner.modbus_scan) in
    try_acquire_lem s NativeSerialIoOwner.file_send
