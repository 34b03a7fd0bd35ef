-- ===== src/Storage/RecordLaws.antt =====
-- Entries come back from their records.
use serial_value_matcher_nat.Base.{◌^◌, ◌<◌, ◌≡◌, refl, arith, take, pos}
use serial_value_matcher_nat.Storage.NumberLaws.{
  IsInt, IsInt64, to_unsigned-to_string, IsSize, to_optional_size-text, to_int-to_string,
  to_int64-to_string, to_bool-to_string,
}
use serial_value_matcher_nat.Storage.Types.{
  RawIoEvent, SendHistoryEntry, ScanSessionRecord, ScanAttemptRecord, ScanObservationRecord,
}
use serial_value_matcher_nat.Storage.Records.{
  raw_event_from_record, record_from_raw_event, send_history_from_record, record_from_send_history,
}
use serial_value_matcher_nat.Storage.ScanRecords.{
  scan_session_from_record, record_from_scan_session, scan_attempt_from_record,
  record_from_scan_attempt, scan_observation_from_record, record_from_scan_observation,
}

-- The numbers of an event within their types.
pub record IsRawEvent (e : RawIoEvent) : Type 0 where
  pub id_fits : IsInt64 e.id
  pub request_id_fits : e.request_id < 2 ^ 64
  pub generation_fits : e.generation < 2 ^ 64
  pub byte_count_fits : e.byte_count < 2 ^ 64
  pub native_code_fits : e.native_code < 2 ^ 32
  pub comm_error_mask_fits : e.comm_error_mask < 2 ^ 32
  pub input_fits : IsSize e.input_queue_bytes
  pub output_fits : IsSize e.output_queue_bytes

-- A raw event whose numbers are within their types comes back from its record unchanged.
pub raw_event-record :
    (e : RawIoEvent) → IsRawEvent e → raw_event_from_record (record_from_raw_event e) ≡ e
unfolding raw_event_from_record record_from_raw_event
raw_event-record e h =
    rw
      (
        to_int64-to_string e.id (pos 0) h.id_fits,
        to_unsigned-to_string (2 ^ 64) e.request_id 0 (omega arith) h.request_id_fits,
        to_unsigned-to_string (2 ^ 64) e.generation 0 (omega arith) h.generation_fits,
        to_unsigned-to_string (2 ^ 64) e.byte_count 0 (omega arith) h.byte_count_fits,
        to_unsigned-to_string (2 ^ 32) e.native_code 0 (omega arith) h.native_code_fits,
        to_unsigned-to_string (2 ^ 32) e.comm_error_mask 0 (omega arith) h.comm_error_mask_fits,
        to_optional_size-text e.input_queue_bytes h.input_fits,
        to_optional_size-text e.output_queue_bytes h.output_fits,
      )
      refl

pub record IsScanSession (s : ScanSessionRecord) : Type 0 where
  pub slave_id_fits : IsInt s.slave_id
  pub function_code_fits : IsInt s.function_code
  pub start_address_fits : IsInt s.start_address
  pub end_address_fits : IsInt s.end_address
  pub block_size_fits : IsInt s.block_size
  pub request_count_fits : IsInt s.request_count
  pub success_block_count_fits : IsInt s.success_block_count
  pub failed_block_count_fits : IsInt s.failed_block_count

scan_session-record :
    (s : ScanSessionRecord)
    → IsScanSession s
    → scan_session_from_record (record_from_scan_session s) ≡ s
unfolding scan_session_from_record record_from_scan_session
scan_session-record s h =
    rw
      (
        to_int-to_string s.slave_id (pos 0) h.slave_id_fits,
        to_int-to_string s.function_code (pos 0) h.function_code_fits,
        to_int-to_string s.start_address (pos 0) h.start_address_fits,
        to_int-to_string s.end_address (pos 0) h.end_address_fits,
        to_int-to_string s.block_size (pos 0) h.block_size_fits,
        to_int-to_string s.request_count (pos 0) h.request_count_fits,
        to_int-to_string s.success_block_count (pos 0) h.success_block_count_fits,
        to_int-to_string s.failed_block_count (pos 0) h.failed_block_count_fits,
      )
      refl

pub record IsScanAttempt (a : ScanAttemptRecord) : Type 0 where
  pub id_fits : IsInt64 a.id
  pub block_index_fits : IsInt a.block_index
  pub attempt_index_fits : IsInt a.attempt_index
  pub start_address_fits : IsInt a.start_address
  pub quantity_fits : IsInt a.quantity
  pub exception_code_fits : IsInt a.exception_code

scan_attempt-record :
    (a : ScanAttemptRecord)
    → IsScanAttempt a
    → scan_attempt_from_record (record_from_scan_attempt a) ≡ a
unfolding scan_attempt_from_record record_from_scan_attempt
scan_attempt-record a h =
    rw
      (
        to_int64-to_string a.id (pos 0) h.id_fits,
        to_int-to_string a.block_index (pos 0) h.block_index_fits,
        to_int-to_string a.attempt_index (pos 0) h.attempt_index_fits,
        to_int-to_string a.start_address (pos 0) h.start_address_fits,
        to_int-to_string a.quantity (pos 0) h.quantity_fits,
        to_bool-to_string a.is_modbus_exception,
        to_int-to_string a.exception_code (pos 0) h.exception_code_fits,
      )
      refl

pub record IsScanObservation (o : ScanObservationRecord) : Type 0 where
  pub id_fits : IsInt64 o.id
  pub block_index_fits : IsInt o.block_index
  pub attempt_index_fits : IsInt o.attempt_index
  pub slave_id_fits : IsInt o.slave_id
  pub function_code_fits : IsInt o.function_code
  pub address_fits : IsInt o.address
  pub value_fits : IsInt o.value

scan_observation-record :
    (o : ScanObservationRecord)
    → IsScanObservation o
    → scan_observation_from_record (record_from_scan_observation o) ≡ o
unfolding scan_observation_from_record record_from_scan_observation
scan_observation-record o h =
    rw
      (
        to_int64-to_string o.id (pos 0) h.id_fits,
        to_int-to_string o.block_index (pos 0) h.block_index_fits,
        to_int-to_string o.attempt_index (pos 0) h.attempt_index_fits,
        to_int-to_string o.slave_id (pos 0) h.slave_id_fits,
        to_int-to_string o.function_code (pos 0) h.function_code_fits,
        to_int-to_string o.address (pos 0) h.address_fits,
        to_int-to_string o.value (pos 0) h.value_fits,
      )
      refl

-- The session, the attempts and the observations of a scan, with numbers within their types, come back
-- from their records unchanged.
pub scan_records-same :
    (s : ScanSessionRecord) (a : ScanAttemptRecord) (o : ScanObservationRecord)
    → IsScanSession s
    → IsScanAttempt a
    → IsScanObservation o
    → (scan_session_from_record (record_from_scan_session s) ≡ s)
      × (scan_attempt_from_record (record_from_scan_attempt a) ≡ a)
      × (scan_observation_from_record (record_from_scan_observation o) ≡ o)
scan_records-same s a o hs ha ho =
    (scan_session-record s hs, scan_attempt-record a ha, scan_observation-record o ho)

pub record IsSendHistory (e : SendHistoryEntry) : Type 0 where
  pub id_fits : IsInt64 e.id
  pub payload_mode_fits : IsInt e.payload_mode
  pub line_ending_fits : IsInt e.line_ending
  pub code_page_fits : IsInt e.text_encoding_code_page

-- An entry of the send history whose numbers are within their types comes back from its record
-- unchanged, and from a record of an older version, without the code page, with the code page of UTF-8.
pub send_history-record :
    (e : SendHistoryEntry)
    → IsSendHistory e
    → (send_history_from_record (record_from_send_history e) ≡ e)
      × (send_history_from_record (take 5 (record_from_send_history e))
          ≡ record e { text_encoding_code_page = pos 65001 })
unfolding send_history_from_record record_from_send_history
send_history-record e h =
    rw
      (
        to_int64-to_string e.id (pos 0) h.id_fits,
        to_int-to_string e.payload_mode (pos 0) h.payload_mode_fits,
        to_int-to_string e.line_ending (pos 0) h.line_ending_fits,
        to_int-to_string e.text_encoding_code_page (pos 0) h.code_page_fits,
      )
      (refl, refl)
