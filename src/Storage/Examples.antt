-- ===== src/Storage/Examples.antt =====
-- A raw event and the records of a scan, stored and read.
use serial_value_matcher_nat.Base.{ℕ, ◌^◌, ◌<◌, ◌≡◌, refl, true, some, [], ◌∷◌, arith, pos, negsuc}
use serial_value_matcher_nat.Storage.Numbers.{unsigned_to_string, to_string, to_int, to_unsigned}
use serial_value_matcher_nat.Storage.NumberLaws.{IsInt}
use serial_value_matcher_nat.Storage.Types.{
  RawIoEvent, no_raw_event, ScanSessionRecord, no_scan_session, ScanAttemptRecord, no_scan_attempt,
  no_scan_observation,
}
use serial_value_matcher_nat.Storage.Records.{raw_event_from_record, record_from_raw_event}
use serial_value_matcher_nat.Storage.ScanRecords.{
  scan_session_from_record, record_from_scan_session, scan_attempt_from_record,
  record_from_scan_attempt, scan_observation_from_record, record_from_scan_observation,
}
use serial_value_matcher_nat.Storage.RecordLaws.{
  IsRawEvent, raw_event-record, IsScanSession, IsScanAttempt, IsScanObservation, scan_records-same,
}
use serial_value_matcher_nat.Storage.SettingRecords.{
  UiPreferences, default_preferences, ui_preferences_from_record, record_from_ui_preferences,
}
use serial_value_matcher_nat.Storage.SettingLaws.{IsUiPreferences, ui_preferences-record}

abbrev test_event : RawIoEvent
test_event = record no_raw_event {
  id = negsuc 41;
  payload = 0 ∷ 255 ∷ [];
  request_id = 1024;
  input_queue_bytes = some 7;
}

minus-42 : to_string (negsuc 41) ≡ 45 ∷ 52 ∷ 50 ∷ []
unfolding to_string unsigned_to_string
minus-42 = refl

-- A number with a letter behind it: taken by the signed reader, refused by the unsigned one.
letter-behind :
    (to_int (52 ∷ 50 ∷ 120 ∷ []) (pos 0) ≡ pos 42)
    × (to_unsigned (2 ^ 32) (52 ∷ 50 ∷ 120 ∷ []) 5 ≡ 5)
unfolding to_int to_unsigned
letter-behind = (refl, refl)

small : (n : ℕ) → n < 2 ^ 31 → IsInt (pos n)
small n h = (h, omega arith)

zero_fits : IsInt (pos 0)
zero_fits = small 0 (omega arith)

test_event-IsRawEvent : IsRawEvent test_event
test_event-IsRawEvent = record {
  id_fits = (omega arith, omega arith);
  request_id_fits = omega arith;
  generation_fits = omega arith;
  byte_count_fits = omega arith;
  native_code_fits = omega arith;
  comm_error_mask_fits = omega arith;
  input_fits = omega arith;
  output_fits = tt;
}

raw_event-record_example : raw_event_from_record (record_from_raw_event test_event) ≡ test_event
raw_event-record_example = raw_event-record test_event test_event-IsRawEvent

abbrev test_session : ScanSessionRecord
test_session = record no_scan_session {
  slave_id = pos 17;
  end_address = pos 99;
  status = 111 ∷ 107 ∷ [];
}

test_session-IsScanSession : IsScanSession test_session
test_session-IsScanSession = record {
  slave_id_fits = small 17 (omega arith);
  function_code_fits = zero_fits;
  start_address_fits = zero_fits;
  end_address_fits = small 99 (omega arith);
  block_size_fits = zero_fits;
  request_count_fits = zero_fits;
  success_block_count_fits = zero_fits;
  failed_block_count_fits = zero_fits;
}

abbrev test_attempt : ScanAttemptRecord
test_attempt = record no_scan_attempt { is_modbus_exception = true; exception_code = pos 2 }

test_attempt-IsScanAttempt : IsScanAttempt test_attempt
test_attempt-IsScanAttempt = record {
  id_fits = (omega arith, omega arith);
  block_index_fits = (omega arith, omega arith);
  attempt_index_fits = zero_fits;
  start_address_fits = zero_fits;
  quantity_fits = zero_fits;
  exception_code_fits = small 2 (omega arith);
}

test_observation-IsScanObservation : IsScanObservation no_scan_observation
test_observation-IsScanObservation = record {
  id_fits = (omega arith, omega arith);
  block_index_fits = (omega arith, omega arith);
  attempt_index_fits = zero_fits;
  slave_id_fits = zero_fits;
  function_code_fits = zero_fits;
  address_fits = zero_fits;
  value_fits = zero_fits;
}

scan_records-same_example :
    (scan_session_from_record (record_from_scan_session test_session) ≡ test_session)
    × (scan_attempt_from_record (record_from_scan_attempt test_attempt) ≡ test_attempt)
    × (scan_observation_from_record (record_from_scan_observation no_scan_observation)
        ≡ no_scan_observation)
scan_records-same_example =
    scan_records-same test_session test_attempt no_scan_observation test_session-IsScanSession
      test_attempt-IsScanAttempt test_observation-IsScanObservation

abbrev test_preferences : UiPreferences
test_preferences = record default_preferences { quick_send_slots = (65 ∷ []) ∷ [] }

test_preferences-IsUiPreferences : IsUiPreferences test_preferences
test_preferences-IsUiPreferences = record {
  id_fits = (omega arith, omega arith);
  log_theme_index_fits = zero_fits;
  log_format_fits = zero_fits;
  log_encoding_code_page_fits = small 65001 (omega arith);
  send_payload_mode_fits = zero_fits;
  send_text_encoding_code_page_fits = small 65001 (omega arith);
  send_line_ending_fits = zero_fits;
  timed_send_period_ms_fits = small 1000 (omega arith);
  file_send_delay_ms_fits = zero_fits;
  log_visible_char_limit_fits = small 350000 (omega arith);
  raw_event_retention_limit_mb_fits = small 100 (omega arith);
  workbench_height_fits = zero_fits;
  window_left_fits = (omega arith, omega arith);
  window_top_fits = (omega arith, omega arith);
  window_width_fits = small 1220 (omega arith);
  window_height_fits = small 780 (omega arith);
}

ui_preferences-record_example :
    ui_preferences_from_record (record_from_ui_preferences test_preferences)
    ≡ record test_preferences {
      quick_send_slots = (65 ∷ []) ∷ [] ∷ [] ∷ [] ∷ [] ∷ [] ∷ [] ∷ [] ∷ [] ∷ [] ∷ [];
    }
ui_preferences-record_example =
    ui_preferences-record test_preferences test_preferences-IsUiPreferences
