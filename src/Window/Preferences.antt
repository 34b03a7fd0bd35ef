-- ===== src/Window/Preferences.antt =====
-- src/win32/native_ui_preferences.h and .cpp: preferences brought within their limits.
use serial_value_matcher_nat.Base.{
  ℕ, zero, suc, ◌||◌, List, [], ◌∷◌, ltb, if◌then◌else◌, ℤ, pos_part, ltb_ℤ, leb_ℤ, eq_ℤ, pos,
}
use serial_value_matcher_nat.Storage.Numbers.{Text}
use serial_value_matcher_nat.Storage.SettingRecords.{UiPreferences}

abbrev pub clamp : ℤ → ℤ → ℤ → ℤ
clamp value low high = if ltb_ℤ value low then low else if ltb_ℤ high value then high else value

abbrev pub native_quick_send_slot_count : ℕ
native_quick_send_slot_count = 10

unfoldable pub native_normalize_timed_send_period_ms : ℤ → ℤ
native_normalize_timed_send_period_ms period_ms = clamp period_ms (pos 50) (pos 3600000)

unfoldable pub native_normalize_file_send_delay_ms : ℤ → ℤ
native_normalize_file_send_delay_ms delay_ms = clamp delay_ms (pos 0) (pos 1000)

unfoldable pub native_normalize_raw_event_retention_mb : ℤ → ℤ
native_normalize_raw_event_retention_mb value =
    if eq_ℤ value (pos 0)
      || (eq_ℤ value (pos 100) || (eq_ℤ value (pos 500) || eq_ℤ value (pos 1000)))
    then value
    else pos 100

-- The limit is a `size_t`.
unfoldable pub native_normalize_log_visible_char_limit : ℕ → ℕ
native_normalize_log_visible_char_limit char_limit =
    if ltb char_limit 200000
    then 200000
    else if ltb 100000000 char_limit
    then 100000000
    else char_limit

unfoldable pub native_normalize_workbench_height : ℤ → ℤ
native_normalize_workbench_height height =
    if leb_ℤ height (pos 0) then pos 0 else clamp height (pos 120) (pos 900)

unfoldable pub native_normalize_window_width : ℤ → ℤ
native_normalize_window_width width =
    if leb_ℤ width (pos 0) then pos 1220 else clamp width (pos 760) (pos 16384)

unfoldable pub native_normalize_window_height : ℤ → ℤ
native_normalize_window_height height =
    if leb_ℤ height (pos 0) then pos 780 else clamp height (pos 520) (pos 9216)

-- `resize`: cut, or filled up with empty texts.
unfoldable pub native_normalize_quick_send_slots : List Text → ℕ → List Text
native_normalize_quick_send_slots slots zero = []
native_normalize_quick_send_slots [] (suc count_left) =
    [] ∷ native_normalize_quick_send_slots [] count_left
native_normalize_quick_send_slots (slot ∷ slots) (suc count_left) =
    slot ∷ native_normalize_quick_send_slots slots count_left

unfoldable pub native_normalize_ui_preferences : UiPreferences → ℕ → UiPreferences
native_normalize_ui_preferences p slot_count = record p {
  timed_send_period_ms = native_normalize_timed_send_period_ms p.timed_send_period_ms;
  file_send_delay_ms = native_normalize_file_send_delay_ms p.file_send_delay_ms;
  log_visible_char_limit =
      pos (native_normalize_log_visible_char_limit (pos_part p.log_visible_char_limit));
  raw_event_retention_limit_mb =
      native_normalize_raw_event_retention_mb p.raw_event_retention_limit_mb;
  workbench_height = native_normalize_workbench_height p.workbench_height;
  window_width = native_normalize_window_width p.window_width;
  window_height = native_normalize_window_height p.window_height;
  quick_send_slots = native_normalize_quick_send_slots p.quick_send_slots slot_count;
}
