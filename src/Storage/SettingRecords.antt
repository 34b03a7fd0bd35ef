-- ===== src/Storage/SettingRecords.antt =====
-- src/native_storage/native_store_record_codec.cpp, and the types of native_session_store.h: the
-- serial profile and the preferences as records.
use serial_value_matcher_nat.Base.{
  ℕ, ◌+◌, Bool, true, false, List, [], ◌∷◌, ◌++◌, map, ltb, leb, if◌then◌else◌, length, get_or, ℤ,
  pos, negsuc,
}
use serial_value_matcher_nat.Storage.Numbers.{
  Text, to_string, bool_to_string, to_int, to_int64, to_bool,
}
use serial_value_matcher_nat.Storage.Types.{Record}
use serial_value_matcher_nat.Storage.Records.{field}

pub record SerialProfile : Type 0 where
  pub id : ℤ
  pub name : Text
  pub port_name : Text
  pub baud_rate : ℤ
  pub data_bits : ℤ
  pub parity : Text
  pub stop_bits : Text
  pub flow_control : Text
  pub data_terminal_ready : Bool
  pub request_to_send : Bool
  pub updated_at_utc : Text

-- "default", "None" and "One".
abbrev pub default_text : Text
default_text = 100 ∷ 101 ∷ 102 ∷ 97 ∷ 117 ∷ 108 ∷ 116 ∷ []

abbrev pub none_text : Text
none_text = 78 ∷ 111 ∷ 110 ∷ 101 ∷ []

abbrev pub one_text : Text
one_text = 79 ∷ 110 ∷ 101 ∷ []

abbrev pub default_profile : SerialProfile
default_profile = record {
  id = pos 0;
  name = default_text;
  port_name = [];
  baud_rate = pos 115200;
  data_bits = pos 8;
  parity = none_text;
  stop_bits = one_text;
  flow_control = none_text;
  data_terminal_ready = false;
  request_to_send = false;
  updated_at_utc = [];
}

unfoldable pub serial_profile_from_record : Record → SerialProfile
serial_profile_from_record r = if ltb (length r) 11 then default_profile else record {
  id = to_int64 (field r 0) (pos 0);
  name = field r 1;
  port_name = field r 2;
  baud_rate = to_int (field r 3) (pos 115200);
  data_bits = to_int (field r 4) (pos 8);
  parity = field r 5;
  stop_bits = field r 6;
  flow_control = field r 7;
  data_terminal_ready = to_bool (field r 8);
  request_to_send = to_bool (field r 9);
  updated_at_utc = field r 10;
}

unfoldable pub record_from_serial_profile : SerialProfile → Record
record_from_serial_profile profile =
    to_string profile.id
    ∷ profile.name
    ∷ profile.port_name
    ∷ to_string profile.baud_rate
    ∷ to_string profile.data_bits
    ∷ profile.parity
    ∷ profile.stop_bits
    ∷ profile.flow_control
    ∷ bool_to_string profile.data_terminal_ready
    ∷ bool_to_string profile.request_to_send
    ∷ profile.updated_at_utc
    ∷ []

pub record UiPreferences : Type 0 where
  pub id : ℤ
  pub name : Text
  pub log_theme_index : ℤ
  pub log_format : ℤ
  pub log_encoding_code_page : ℤ
  pub show_log_timestamps : Bool
  pub send_payload_mode : ℤ
  pub send_text_encoding_code_page : ℤ
  pub send_line_ending : ℤ
  pub auto_reconnect : Bool
  pub timed_send_enabled : Bool
  pub timed_send_period_ms : ℤ
  pub file_send_delay_ms : ℤ
  pub log_visible_char_limit : ℤ
  pub raw_event_retention_limit_mb : ℤ
  pub workbench_height : ℤ
  pub quick_send_slots : List Text
  pub window_left : ℤ
  pub window_top : ℤ
  pub window_width : ℤ
  pub window_height : ℤ
  pub updated_at_utc : Text

abbrev pub default_preferences : UiPreferences
default_preferences = record {
  id = pos 0;
  name = default_text;
  log_theme_index = pos 0;
  log_format = pos 0;
  log_encoding_code_page = pos 65001;
  show_log_timestamps = true;
  send_payload_mode = pos 0;
  send_text_encoding_code_page = pos 65001;
  send_line_ending = pos 0;
  auto_reconnect = false;
  timed_send_enabled = false;
  timed_send_period_ms = pos 1000;
  file_send_delay_ms = pos 0;
  log_visible_char_limit = pos 350000;
  raw_event_retention_limit_mb = pos 100;
  workbench_height = pos 0;
  quick_send_slots = [];
  window_left = negsuc 0;
  window_top = negsuc 0;
  window_width = pos 1220;
  window_height = pos 780;
  updated_at_utc = [];
}

-- The ten places from `first` on.
abbrev pub ten_places : ℕ → List ℕ
ten_places first =
    first
    ∷ (first + 1)
    ∷ (first + 2)
    ∷ (first + 3)
    ∷ (first + 4)
    ∷ (first + 5)
    ∷ (first + 6)
    ∷ (first + 7)
    ∷ (first + 8)
    ∷ (first + 9)
    ∷ []

unfoldable pub ui_preferences_from_record : Record → UiPreferences
ui_preferences_from_record r =
    let oldest : UiPreferences = record default_preferences {
      id = to_int64 (field r 0) (pos 0);
      name = field r 1;
      log_theme_index = to_int (field r 2) (pos 0);
      log_format = to_int (field r 3) (pos 0);
      log_encoding_code_page = to_int (field r 4) (pos 65001);
      show_log_timestamps = to_bool (field r 5);
      send_payload_mode = to_int (field r 6) (pos 0);
      send_text_encoding_code_page = to_int (field r 7) (pos 65001);
      send_line_ending = to_int (field r 8) (pos 0);
      window_left = to_int (field r 9) (negsuc 0);
      window_top = to_int (field r 10) (negsuc 0);
      window_width = to_int (field r 11) (pos 1220);
      window_height = to_int (field r 12) (pos 780);
    } in
    let dated =
      if leb 14 (length r) then record oldest { updated_at_utc = field r 13 } else oldest in
    let timed =
      if leb 19 (length r)
      then record dated {
        auto_reconnect = to_bool (field r 14);
        timed_send_enabled = to_bool (field r 15);
        timed_send_period_ms = to_int (field r 16) (pos 1000);
        file_send_delay_ms = to_int (field r 17) (pos 0);
        log_visible_char_limit = to_int (field r 18) (pos 350000);
      }
      else dated in
    let slotted =
      if leb 29 (length r)
      then record timed { quick_send_slots = map (field r) (ten_places 19) }
      else timed in
    let limited =
      if leb 30 (length r)
      then record slotted { raw_event_retention_limit_mb = to_int (field r 29) (pos 100) }
      else slotted in
    if ltb (length r) 13
    then default_preferences
    else if leb 31 (length r)
    then record limited { workbench_height = to_int (field r 30) (pos 0) }
    else limited

-- The first ten slots, with empty ones where there are fewer.
abbrev pub ten_slots : List Text → List Text
ten_slots slots = map (λ (index : ℕ). get_or slots index []) (ten_places 0)

unfoldable pub record_from_ui_preferences : UiPreferences → Record
record_from_ui_preferences p =
    (to_string p.id
      ∷ p.name
      ∷ to_string p.log_theme_index
      ∷ to_string p.log_format
      ∷ to_string p.log_encoding_code_page
      ∷ bool_to_string p.show_log_timestamps
      ∷ to_string p.send_payload_mode
      ∷ to_string p.send_text_encoding_code_page
      ∷ to_string p.send_line_ending
      ∷ to_string p.window_left
      ∷ to_string p.window_top
      ∷ to_string p.window_width
      ∷ to_string p.window_height
      ∷ p.updated_at_utc
      ∷ bool_to_string p.auto_reconnect
      ∷ bool_to_string p.timed_send_enabled
      ∷ to_string p.timed_send_period_ms
      ∷ to_string p.file_send_delay_ms
      ∷ to_string p.log_visible_char_limit
      ∷ [])
    ++ (ten_slots p.quick_send_slots
        ++ (to_string p.raw_event_retention_limit_mb ∷ to_string p.workbench_height ∷ []))
