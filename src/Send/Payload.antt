-- ===== src/Send/Payload.antt =====
-- src/win32/native_send_codec.cpp: text in a code page, line endings, and the payload of a send.
use serial_value_matcher_nat.Base.{
  ℕ, ◌%◌, ◌^◌, Bool, not, ◌&&◌, Option, none, some, List, [], ◌∷◌, ◌++◌, ltb, leb, ◌==◌,
  if◌then◌else◌, is_empty, ℤ, eq_ℤ, pos,
}
use serial_value_matcher_nat.Send.Parse.{
  NativeSendCodecErrors, Parsed, parsed, set_error, native_parse_hex_payload,
  native_parse_decimal_payload, native_parse_binary_payload,
}

abbrev pub native_code_page_gbk : ℕ
native_code_page_gbk = 936

abbrev pub native_code_page_ascii : ℕ
native_code_page_ascii = 20127

abbrev pub native_code_page_utf8 : ℕ
native_code_page_utf8 = 65001

pub record NativeSendPayloadOptions : Type 0 where
  pub mode : ℤ
  pub text_code_page : ℕ
  pub line_ending : ℤ

-- `WideCharToMultiByte` of Windows: its bytes, none when it fails, and whether it put the default
-- character for one that the code page has not. `MultiByteToWideChar` is the way back.
pub record CodePages : Type 0 where
  pub wide_char_to_multi_byte : ℕ → List ℕ → List ℕ × Bool
  pub multi_byte_to_wide_char : ℕ → List ℕ → List ℕ

unfoldable pub ascii_bytes : List ℕ → List ℕ → Option (List ℕ)
ascii_bytes [] bytes = some bytes
ascii_bytes (ch ∷ text) bytes =
    let rest = ascii_bytes text (bytes ++ (ch % 2 ^ 8 ∷ [])) in if ltb 0x7F ch then none else rest

unfoldable pub ascii_text : List ℕ → List ℕ
ascii_text [] = []
ascii_text (byte ∷ bytes) = (if leb byte 0x7F then byte else b'.') ∷ ascii_text bytes

unfoldable pub fallback_ascii_preview : List ℕ → List ℕ
fallback_ascii_preview [] = []
fallback_ascii_preview (byte ∷ bytes) =
    (if leb 0x20 byte && leb byte 0x7E then byte else b'.') ∷ fallback_ascii_preview bytes

unfoldable pub native_append_line_ending : List ℕ → ℤ → List ℕ
native_append_line_ending payload line_ending =
    if eq_ℤ line_ending (pos 1)
    then payload ++ (0x0D ∷ [])
    else if eq_ℤ line_ending (pos 2)
    then payload ++ (0x0A ∷ [])
    else if eq_ℤ line_ending (pos 3)
    then payload ++ (0x0D ∷ 0x0A ∷ [])
    else payload

module _ (pages : CodePages) where
  unfoldable pub native_encode_text_payload : List ℕ → ℕ → NativeSendCodecErrors → Parsed
  unfolding ascii_bytes
  native_encode_text_payload text code_page errors =
      let encoded = pages.wide_char_to_multi_byte code_page text in
      if is_empty text
      then parsed []
      else if code_page == native_code_page_ascii
      then elim (ascii_bytes text []) [
        | none ↦ set_error errors.text_encoding_failed
        | some bytes ↦ parsed bytes
      ]
      else if is_empty encoded.0
      then set_error errors.text_encoding_failed
      else if not (code_page == native_code_page_utf8) && encoded.1
      then set_error errors.text_encoding_failed
      else parsed encoded.0

  unfoldable pub native_decode_bytes_to_text : List ℕ → ℕ → List ℕ
  unfolding ascii_text fallback_ascii_preview
  native_decode_bytes_to_text bytes code_page =
      let decoded = pages.multi_byte_to_wide_char code_page bytes in
      if is_empty bytes
      then []
      else if code_page == native_code_page_ascii
      then ascii_text bytes
      else if is_empty decoded
      then fallback_ascii_preview bytes
      else decoded

  -- The parser that the mode chooses.
  unfoldable pub parse_by_mode :
      (ℕ → Bool) → List ℕ → NativeSendPayloadOptions → NativeSendCodecErrors → Parsed
  parse_by_mode iswspace text options errors =
      if eq_ℤ options.mode (pos 1)
      then native_parse_hex_payload iswspace text errors
      else if eq_ℤ options.mode (pos 2)
      then native_parse_decimal_payload iswspace text errors
      else if eq_ℤ options.mode (pos 3)
      then native_parse_binary_payload iswspace text errors
      else native_encode_text_payload text options.text_code_page errors

  unfoldable pub native_build_send_payload :
      (ℕ → Bool) → List ℕ → NativeSendPayloadOptions → NativeSendCodecErrors → Parsed
  unfolding parse_by_mode
  native_build_send_payload iswspace text options errors =
      let result = parse_by_mode iswspace text options errors in
      if is_empty result.error_text
      then record result { payload = native_append_line_ending result.payload options.line_ending }
      else result
