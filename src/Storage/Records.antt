-- ===== src/Storage/Records.antt =====
-- src/native_storage/native_store_record_codec.cpp: raw events and the send history as records. Bytes
-- and the characters of a text are the same numbers.
use serial_value_matcher_nat.Base.{ℕ, ◌^◌, [], ◌∷◌, ltb, leb, if◌then◌else◌, length, get_or, pos}
use serial_value_matcher_nat.Storage.Numbers.{
  Text, unsigned_to_string, to_string, to_int, to_int64, to_unsigned, to_optional_size,
  optional_size_text,
}
use serial_value_matcher_nat.Storage.Types.{
  Record, RawIoEvent, no_raw_event, SendHistoryEntry, no_send_history,
}

abbrev pub field : Record → ℕ → Text
field record_fields index = get_or record_fields index []

unfoldable pub raw_event_from_record : Record → RawIoEvent
raw_event_from_record r =
    let event : RawIoEvent = record no_raw_event {
      id = to_int64 (field r 0) (pos 0);
      session_id = field r 1;
      direction = field r 2;
      timestamp_utc = field r 3;
      endpoint = field r 4;
      payload = field r 5;
    } in
    if ltb (length r) 6
    then no_raw_event
    else if leb 17 (length r)
    then record event {
      operation = field r 6;
      request_id = to_unsigned (2 ^ 64) (field r 7) 0;
      generation = to_unsigned (2 ^ 64) (field r 8) 0;
      status = field r 9;
      deadline_status = field r 10;
      byte_count = to_unsigned (2 ^ 64) (field r 11) 0;
      error_category = field r 12;
      native_code = to_unsigned (2 ^ 32) (field r 13) 0;
      comm_error_mask = to_unsigned (2 ^ 32) (field r 14) 0;
      input_queue_bytes = to_optional_size (field r 15);
      output_queue_bytes = to_optional_size (field r 16);
    }
    else event

unfoldable pub record_from_raw_event : RawIoEvent → Record
record_from_raw_event event =
    to_string event.id
    ∷ event.session_id
    ∷ event.direction
    ∷ event.timestamp_utc
    ∷ event.endpoint
    ∷ event.payload
    ∷ event.operation
    ∷ unsigned_to_string event.request_id
    ∷ unsigned_to_string event.generation
    ∷ event.status
    ∷ event.deadline_status
    ∷ unsigned_to_string event.byte_count
    ∷ event.error_category
    ∷ unsigned_to_string event.native_code
    ∷ unsigned_to_string event.comm_error_mask
    ∷ optional_size_text event.input_queue_bytes
    ∷ optional_size_text event.output_queue_bytes
    ∷ []

unfoldable pub send_history_from_record : Record → SendHistoryEntry
send_history_from_record r =
    let entry : SendHistoryEntry = record no_send_history {
      id = to_int64 (field r 0) (pos 0);
      content = field r 1;
      payload_mode = to_int (field r 2) (pos 0);
      line_ending = to_int (field r 3) (pos 0);
      sent_at_utc = field r 4;
    } in
    if ltb (length r) 5
    then no_send_history
    else if leb 6 (length r)
    then record entry { text_encoding_code_page = to_int (field r 5) (pos 0) }
    else entry

unfoldable pub record_from_send_history : SendHistoryEntry → Record
record_from_send_history entry =
    to_string entry.id
    ∷ entry.content
    ∷ to_string entry.payload_mode
    ∷ to_string entry.line_ending
    ∷ entry.sent_at_utc
    ∷ to_string entry.text_encoding_code_page
    ∷ []
