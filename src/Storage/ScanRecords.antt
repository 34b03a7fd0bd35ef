-- ===== src/Storage/ScanRecords.antt =====
-- src/native_storage/native_store_record_codec.cpp: scans as records.
use serial_value_matcher_nat.Base.{[], ◌∷◌, ltb, if◌then◌else◌, length, pos}
use serial_value_matcher_nat.Storage.Numbers.{to_string, bool_to_string, to_int, to_int64, to_bool}
use serial_value_matcher_nat.Storage.Types.{
  Record, ScanSessionRecord, no_scan_session, ScanAttemptRecord, no_scan_attempt,
  ScanObservationRecord, no_scan_observation,
}
use serial_value_matcher_nat.Storage.Records.{field}

unfoldable pub scan_session_from_record : Record → ScanSessionRecord
scan_session_from_record r = if ltb (length r) 13 then no_scan_session else record {
  session_id = field r 0;
  slave_id = to_int (field r 1) (pos 0);
  function_code = to_int (field r 2) (pos 0);
  start_address = to_int (field r 3) (pos 0);
  end_address = to_int (field r 4) (pos 0);
  block_size = to_int (field r 5) (pos 0);
  request_count = to_int (field r 6) (pos 0);
  status = field r 7;
  started_at_utc = field r 8;
  finished_at_utc = field r 9;
  success_block_count = to_int (field r 10) (pos 0);
  failed_block_count = to_int (field r 11) (pos 0);
  error_message = field r 12;
}

unfoldable pub record_from_scan_session : ScanSessionRecord → Record
record_from_scan_session session =
    session.session_id
    ∷ to_string session.slave_id
    ∷ to_string session.function_code
    ∷ to_string session.start_address
    ∷ to_string session.end_address
    ∷ to_string session.block_size
    ∷ to_string session.request_count
    ∷ session.status
    ∷ session.started_at_utc
    ∷ session.finished_at_utc
    ∷ to_string session.success_block_count
    ∷ to_string session.failed_block_count
    ∷ session.error_message
    ∷ []

unfoldable pub scan_attempt_from_record : Record → ScanAttemptRecord
scan_attempt_from_record r = if ltb (length r) 16 then no_scan_attempt else record {
  id = to_int64 (field r 0) (pos 0);
  session_id = field r 1;
  block_index = to_int (field r 2) (pos 0);
  attempt_index = to_int (field r 3) (pos 0);
  start_address = to_int (field r 4) (pos 0);
  quantity = to_int (field r 5) (pos 0);
  status = field r 6;
  request_frame = field r 7;
  response_frame = field r 8;
  error_message = field r 9;
  is_modbus_exception = to_bool (field r 10);
  exception_code = to_int (field r 11) (pos 0);
  exception_description = field r 12;
  sent_at_utc = field r 13;
  received_at_utc = field r 14;
  endpoint = field r 15;
}

unfoldable pub record_from_scan_attempt : ScanAttemptRecord → Record
record_from_scan_attempt attempt =
    to_string attempt.id
    ∷ attempt.session_id
    ∷ to_string attempt.block_index
    ∷ to_string attempt.attempt_index
    ∷ to_string attempt.start_address
    ∷ to_string attempt.quantity
    ∷ attempt.status
    ∷ attempt.request_frame
    ∷ attempt.response_frame
    ∷ attempt.error_message
    ∷ bool_to_string attempt.is_modbus_exception
    ∷ to_string attempt.exception_code
    ∷ attempt.exception_description
    ∷ attempt.sent_at_utc
    ∷ attempt.received_at_utc
    ∷ attempt.endpoint
    ∷ []

unfoldable pub scan_observation_from_record : Record → ScanObservationRecord
scan_observation_from_record r = if ltb (length r) 9 then no_scan_observation else record {
  id = to_int64 (field r 0) (pos 0);
  session_id = field r 1;
  block_index = to_int (field r 2) (pos 0);
  attempt_index = to_int (field r 3) (pos 0);
  slave_id = to_int (field r 4) (pos 0);
  function_code = to_int (field r 5) (pos 0);
  address = to_int (field r 6) (pos 0);
  value = to_int (field r 7) (pos 0);
  observed_at_utc = field r 8;
}

unfoldable pub record_from_scan_observation : ScanObservationRecord → Record
record_from_scan_observation observation =
    to_string observation.id
    ∷ observation.session_id
    ∷ to_string observation.block_index
    ∷ to_string observation.attempt_index
    ∷ to_string observation.slave_id
    ∷ to_string observation.function_code
    ∷ to_string observation.address
    ∷ to_string observation.value
    ∷ observation.observed_at_utc
    ∷ []
