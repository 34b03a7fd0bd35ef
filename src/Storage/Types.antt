-- ===== src/Storage/Types.antt =====
-- src/native_storage/native_session_store.h: the entries that are stored as records.
use serial_value_matcher_nat.Base.{ℕ, Bool, false, Option, List, [], ℤ, pos, negsuc}
use serial_value_matcher_nat.Storage.Numbers.{Text}

abbrev pub Record : Type 0
Record = List Text

pub record RawIoEvent : Type 0 where
  pub id : ℤ
  pub session_id : Text
  pub direction : Text
  pub timestamp_utc : Text
  pub endpoint : Text
  pub payload : List ℕ
  pub operation : Text
  pub request_id : ℕ
  pub generation : ℕ
  pub status : Text
  pub deadline_status : Text
  pub byte_count : ℕ
  pub error_category : Text
  pub native_code : ℕ
  pub comm_error_mask : ℕ
  pub input_queue_bytes : Option ℕ
  pub output_queue_bytes : Option ℕ

abbrev pub no_raw_event : RawIoEvent
no_raw_event = record {
  id = pos 0;
  session_id = [];
  direction = [];
  timestamp_utc = [];
  endpoint = [];
  payload = [];
  operation = [];
  request_id = 0;
  generation = 0;
  status = [];
  deadline_status = [];
  byte_count = 0;
  error_category = [];
  native_code = 0;
  comm_error_mask = 0;
  input_queue_bytes = Option.none;
  output_queue_bytes = Option.none;
}

pub record SendHistoryEntry : Type 0 where
  pub id : ℤ
  pub content : Text
  pub payload_mode : ℤ
  pub line_ending : ℤ
  pub text_encoding_code_page : ℤ
  pub sent_at_utc : Text

abbrev pub no_send_history : SendHistoryEntry
no_send_history = record {
  id = pos 0;
  content = [];
  payload_mode = pos 0;
  line_ending = pos 0;
  text_encoding_code_page = pos 65001;
  sent_at_utc = [];
}

pub record ScanSessionRecord : Type 0 where
  pub session_id : Text
  pub slave_id : ℤ
  pub function_code : ℤ
  pub start_address : ℤ
  pub end_address : ℤ
  pub block_size : ℤ
  pub request_count : ℤ
  pub status : Text
  pub started_at_utc : Text
  pub finished_at_utc : Text
  pub success_block_count : ℤ
  pub failed_block_count : ℤ
  pub error_message : Text

abbrev pub no_scan_session : ScanSessionRecord
no_scan_session = record {
  session_id = [];
  slave_id = pos 0;
  function_code = pos 0;
  start_address = pos 0;
  end_address = pos 0;
  block_size = pos 0;
  request_count = pos 0;
  status = [];
  started_at_utc = [];
  finished_at_utc = [];
  success_block_count = pos 0;
  failed_block_count = pos 0;
  error_message = [];
}

pub record ScanAttemptRecord : Type 0 where
  pub id : ℤ
  pub session_id : Text
  pub block_index : ℤ
  pub attempt_index : ℤ
  pub start_address : ℤ
  pub quantity : ℤ
  pub status : Text
  pub request_frame : List ℕ
  pub response_frame : List ℕ
  pub error_message : Text
  pub is_modbus_exception : Bool
  pub exception_code : ℤ
  pub exception_description : Text
  pub sent_at_utc : Text
  pub received_at_utc : Text
  pub endpoint : Text

abbrev pub no_scan_attempt : ScanAttemptRecord
no_scan_attempt = record {
  id = pos 0;
  session_id = [];
  block_index = negsuc 0;
  attempt_index = pos 0;
  start_address = pos 0;
  quantity = pos 0;
  status = [];
  request_frame = [];
  response_frame = [];
  error_message = [];
  is_modbus_exception = false;
  exception_code = pos 0;
  exception_description = [];
  sent_at_utc = [];
  received_at_utc = [];
  endpoint = [];
}

pub record ScanObservationRecord : Type 0 where
  pub id : ℤ
  pub session_id : Text
  pub block_index : ℤ
  pub attempt_index : ℤ
  pub slave_id : ℤ
  pub function_code : ℤ
  pub address : ℤ
  pub value : ℤ
  pub observed_at_utc : Text

abbrev pub no_scan_observation : ScanObservationRecord
no_scan_observation = record {
  id = pos 0;
  session_id = [];
  block_index = negsuc 0;
  attempt_index = pos 0;
  slave_id = pos 0;
  function_code = pos 0;
  address = pos 0;
  value = pos 0;
  observed_at_utc = [];
}
