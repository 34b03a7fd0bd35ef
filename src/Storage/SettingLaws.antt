-- ===== src/Storage/SettingLaws.antt =====
-- The preferences come back from their record.
use serial_value_matcher_nat.Base.{
  ℕ, zero, suc, ◌≡◌, refl, ap, ◌∙◌, List, [], ◌∷◌, ◌++◌, take, pos, negsuc,
}
use serial_value_matcher_nat.Storage.Numbers.{Text}
use serial_value_matcher_nat.Storage.NumberLaws.{
  IsInt, IsInt64, to_int-to_string, to_int64-to_string, to_bool-to_string,
}
use serial_value_matcher_nat.Storage.SettingRecords.{
  SerialProfile, serial_profile_from_record, record_from_serial_profile, UiPreferences,
  ui_preferences_from_record, ten_slots, record_from_ui_preferences,
}

pub record IsSerialProfile (p : SerialProfile) : Type 0 where
  pub id_fits : IsInt64 p.id
  pub baud_rate_fits : IsInt p.baud_rate
  pub data_bits_fits : IsInt p.data_bits

serial_profile-record :
    (p : SerialProfile)
    → IsSerialProfile p
    → serial_profile_from_record (record_from_serial_profile p) ≡ p
unfolding serial_profile_from_record record_from_serial_profile
serial_profile-record p h =
    rw
      (
        to_int64-to_string p.id (pos 0) h.id_fits,
        to_int-to_string p.baud_rate (pos 115200) h.baud_rate_fits,
        to_int-to_string p.data_bits (pos 8) h.data_bits_fits,
        to_bool-to_string p.data_terminal_ready,
        to_bool-to_string p.request_to_send,
      )
      refl

pub record IsUiPreferences (p : UiPreferences) : Type 0 where
  pub id_fits : IsInt64 p.id
  pub log_theme_index_fits : IsInt p.log_theme_index
  pub log_format_fits : IsInt p.log_format
  pub log_encoding_code_page_fits : IsInt p.log_encoding_code_page
  pub send_payload_mode_fits : IsInt p.send_payload_mode
  pub send_text_encoding_code_page_fits : IsInt p.send_text_encoding_code_page
  pub send_line_ending_fits : IsInt p.send_line_ending
  pub timed_send_period_ms_fits : IsInt p.timed_send_period_ms
  pub file_send_delay_ms_fits : IsInt p.file_send_delay_ms
  pub log_visible_char_limit_fits : IsInt p.log_visible_char_limit
  pub raw_event_retention_limit_mb_fits : IsInt p.raw_event_retention_limit_mb
  pub workbench_height_fits : IsInt p.workbench_height
  pub window_left_fits : IsInt p.window_left
  pub window_top_fits : IsInt p.window_top
  pub window_width_fits : IsInt p.window_width
  pub window_height_fits : IsInt p.window_height

-- No text, so many times.
abbrev pub empty_slots : ℕ → List Text
empty_slots zero = []
empty_slots (suc n) = [] ∷ empty_slots n

-- What stands in the ten places is a list's head, filled up with empty texts.
ten_slots_lem : (slots : List Text) → ten_slots slots ≡ take 10 (slots ++ empty_slots 10)
ten_slots_lem [] = refl
ten_slots_lem (a ∷ []) = refl
ten_slots_lem (a ∷ b ∷ []) = refl
ten_slots_lem (a ∷ b ∷ c ∷ []) = refl
ten_slots_lem (a ∷ b ∷ c ∷ d ∷ []) = refl
ten_slots_lem (a ∷ b ∷ c ∷ d ∷ e ∷ []) = refl
ten_slots_lem (a ∷ b ∷ c ∷ d ∷ e ∷ f ∷ []) = refl
ten_slots_lem (a ∷ b ∷ c ∷ d ∷ e ∷ f ∷ g ∷ []) = refl
ten_slots_lem (a ∷ b ∷ c ∷ d ∷ e ∷ f ∷ g ∷ h ∷ []) = refl
ten_slots_lem (a ∷ b ∷ c ∷ d ∷ e ∷ f ∷ g ∷ h ∷ i ∷ []) = refl
ten_slots_lem (a ∷ b ∷ c ∷ d ∷ e ∷ f ∷ g ∷ h ∷ i ∷ j ∷ slots) = refl

ui_preferences-read :
    (p : UiPreferences)
    → IsUiPreferences p
    → ui_preferences_from_record (record_from_ui_preferences p)
      ≡ record p { quick_send_slots = ten_slots p.quick_send_slots }
unfolding ui_preferences_from_record record_from_ui_preferences
ui_preferences-read p h =
    rw
      (
        to_int64-to_string p.id (pos 0) h.id_fits,
        to_int-to_string p.log_theme_index (pos 0) h.log_theme_index_fits,
        to_int-to_string p.log_format (pos 0) h.log_format_fits,
        to_int-to_string p.log_encoding_code_page (pos 65001) h.log_encoding_code_page_fits,
        to_bool-to_string p.show_log_timestamps,
        to_int-to_string p.send_payload_mode (pos 0) h.send_payload_mode_fits,
        to_int-to_string p.send_text_encoding_code_page (pos 65001)
            h.send_text_encoding_code_page_fits,
        to_int-to_string p.send_line_ending (pos 0) h.send_line_ending_fits,
        to_int-to_string p.window_left (negsuc 0) h.window_left_fits,
        to_int-to_string p.window_top (negsuc 0) h.window_top_fits,
        to_int-to_string p.window_width (pos 1220) h.window_width_fits,
        to_int-to_string p.window_height (pos 780) h.window_height_fits,
        to_bool-to_string p.auto_reconnect,
        to_bool-to_string p.timed_send_enabled,
        to_int-to_string p.timed_send_period_ms (pos 1000) h.timed_send_period_ms_fits,
        to_int-to_string p.file_send_delay_ms (pos 0) h.file_send_delay_ms_fits,
        to_int-to_string p.log_visible_char_limit (pos 350000) h.log_visible_char_limit_fits,
        to_int-to_string p.raw_event_retention_limit_mb (pos 100)
            h.raw_event_retention_limit_mb_fits,
        to_int-to_string p.workbench_height (pos 0) h.workbench_height_fits,
      )
      refl

-- Preferences whose numbers are within their types come back from their record with the first ten of
-- their quick send slots and ten empty ones, and otherwise unchanged.
pub ui_preferences-record :
    (p : UiPreferences)
    → IsUiPreferences p
    → ui_preferences_from_record (record_from_ui_preferences p)
      ≡ record p { quick_send_slots = take 10 (p.quick_send_slots ++ empty_slots 10) }
ui_preferences-record p h =
    ui_preferences-read p h
    ∙ ap (λ (slots : List Text). record p { quick_send_slots = slots })
        (ten_slots_lem p.quick_send_slots)
