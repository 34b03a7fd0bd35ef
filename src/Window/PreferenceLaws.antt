-- ===== src/Window/PreferenceLaws.antt =====
-- Preferences within their limits stay as they are.
use serial_value_matcher_nat.Base.{ℕ, zero, suc, ◌≡◌, refl, ap, List, [], ◌∷◌, arith, ℤ, pos_part}
use serial_value_matcher_nat.Storage.Numbers.{Text}
use serial_value_matcher_nat.Storage.SettingRecords.{UiPreferences}
use serial_value_matcher_nat.Window.Preferences.{
  native_normalize_timed_send_period_ms, native_normalize_file_send_delay_ms,
  native_normalize_raw_event_retention_mb, native_normalize_log_visible_char_limit,
  native_normalize_workbench_height, native_normalize_window_width, native_normalize_window_height,
  native_normalize_quick_send_slots, native_normalize_ui_preferences,
}

timed-twice :
    (v : ℤ)
    → native_normalize_timed_send_period_ms (native_normalize_timed_send_period_ms v)
      ≡ native_normalize_timed_send_period_ms v
unfolding native_normalize_timed_send_period_ms
timed-twice v = ground arith

delay-twice :
    (v : ℤ)
    → native_normalize_file_send_delay_ms (native_normalize_file_send_delay_ms v)
      ≡ native_normalize_file_send_delay_ms v
unfolding native_normalize_file_send_delay_ms
delay-twice v = ground arith

retention-twice :
    (v : ℤ)
    → native_normalize_raw_event_retention_mb (native_normalize_raw_event_retention_mb v)
      ≡ native_normalize_raw_event_retention_mb v
unfolding native_normalize_raw_event_retention_mb
retention-twice v = ground arith

limit-twice :
    (n : ℕ)
    → native_normalize_log_visible_char_limit (native_normalize_log_visible_char_limit n)
      ≡ native_normalize_log_visible_char_limit n
unfolding native_normalize_log_visible_char_limit
limit-twice n = ground arith

workbench-twice :
    (v : ℤ)
    → native_normalize_workbench_height (native_normalize_workbench_height v)
      ≡ native_normalize_workbench_height v
unfolding native_normalize_workbench_height
workbench-twice v = ground arith

width-twice :
    (v : ℤ)
    → native_normalize_window_width (native_normalize_window_width v)
      ≡ native_normalize_window_width v
unfolding native_normalize_window_width
width-twice v = ground arith

height-twice :
    (v : ℤ)
    → native_normalize_window_height (native_normalize_window_height v)
      ≡ native_normalize_window_height v
unfolding native_normalize_window_height
height-twice v = ground arith

slots-twice :
    (slots : List Text) (n : ℕ)
    → native_normalize_quick_send_slots (native_normalize_quick_send_slots slots n) n
      ≡ native_normalize_quick_send_slots slots n
unfolding native_normalize_quick_send_slots
slots-twice slots zero = refl
slots-twice [] (suc n) = ap (◌∷◌ []) (slots-twice [] n)
slots-twice (slot ∷ slots) (suc n) = ap (◌∷◌ slot) (slots-twice slots n)

-- Normalizing preferences a second time changes nothing.
normalize-twice :
    (p : UiPreferences) (n : ℕ)
    → native_normalize_ui_preferences (native_normalize_ui_preferences p n) n
      ≡ native_normalize_ui_preferences p n
unfolding native_normalize_ui_preferences
normalize-twice p n =
    rw
      (
        timed-twice p.timed_send_period_ms,
        delay-twice p.file_send_delay_ms,
        retention-twice p.raw_event_retention_limit_mb,
        limit-twice (pos_part p.log_visible_char_limit),
        workbench-twice p.workbench_height,
        width-twice p.window_width,
        height-twice p.window_height,
        slots-twice p.quick_send_slots n,
      )
      refl
