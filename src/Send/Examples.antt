-- ===== src/Send/Examples.antt =====
-- Tests of the send codec, and the theorems about it at concrete texts.
use serial_value_matcher_nat.Base.{
  ℕ, ◌%◌, String, ◌≡◌, refl, ◌⊎◌, inl, inr, Bool, true, false, ◌&&◌, ◌||◌, List, [], ◌∷◌, arith,
  leb, ◌==◌, length, pos,
}
use Prim.Native.Char.{code}
use serial_value_matcher_nat.Send.Parse.{
  NativeSendCodecErrors, parsed, set_error, native_parse_hex_payload, native_parse_decimal_payload,
  native_parse_binary_payload,
}
use serial_value_matcher_nat.Send.Print.{hex_byte, native_bytes_to_hex, native_bytes_to_decimal}
use serial_value_matcher_nat.Send.Payload.{
  NativeSendPayloadOptions, CodePages, native_build_send_payload,
}
use serial_value_matcher_nat.Send.HexLaws.{IsSpaceTest}
use serial_value_matcher_nat.Send.HexErrors.{all_hex, pair_bytes, digit_values, parse_hex_lem}
use serial_value_matcher_nat.Send.PayloadLaws.{build_send_payload-Shows}

-- The C locale's spaces.
abbrev c_iswspace : ℕ → Bool
c_iswspace ch = ch == b' ' || (leb 9 ch && leb ch 13)

c_iswspace-IsSpaceTest : IsSpaceTest c_iswspace
c_iswspace-IsSpaceTest = record { space = refl; mark = λ ch low high. ground arith }

abbrev codes : String → List ℕ
codes String.[] = []
codes (String.◌∷◌ c s) = code c ∷ codes s

abbrev test_errors : NativeSendCodecErrors
test_errors = record {
  hex_invalid_char = 1 ∷ [];
  hex_odd_nibble = 2 ∷ [];
  invalid_decimal = 3 ∷ [];
  invalid_binary = 4 ∷ [];
  text_encoding_failed = 5 ∷ [];
}

abbrev no_pages : CodePages
no_pages = record {
  wide_char_to_multi_byte = λ page text. ([], false);
  multi_byte_to_wide_char = λ page bytes. [];
}

hex-shown : native_bytes_to_hex (0 ∷ 171 ∷ []) ≡ codes "00 AB"
unfolding native_bytes_to_hex hex_byte
hex-shown = refl

hex-separators :
    native_parse_hex_payload c_iswspace (codes "0a-Ff, 3\t0") test_errors
    ≡ parsed (10 ∷ 255 ∷ 48 ∷ [])
unfolding native_parse_hex_payload
hex-separators = refl

decimal-tokens :
    native_parse_decimal_payload c_iswspace (codes "+7; -0,255") test_errors
    ≡ parsed (7 ∷ 0 ∷ 255 ∷ [])
unfolding native_parse_decimal_payload
decimal-tokens = refl

decimal-large :
    native_parse_decimal_payload c_iswspace (codes "256") test_errors ≡ set_error (3 ∷ [])
unfolding native_parse_decimal_payload
decimal-large = refl

binary-parsed :
    native_parse_binary_payload c_iswspace (codes "0000 0101") test_errors ≡ parsed (5 ∷ [])
unfolding native_parse_binary_payload
binary-parsed = refl

abbrev decimal_with_newline : NativeSendPayloadOptions
decimal_with_newline = record { mode = pos 2; text_code_page = 65001; line_ending = pos 3 }

build_send_payload-Shows_example :
    native_build_send_payload no_pages c_iswspace
      (native_bytes_to_decimal (7 ∷ 200 ∷ []))
      decimal_with_newline
      test_errors
    ≡ parsed (7 ∷ 200 ∷ 13 ∷ 10 ∷ [])
build_send_payload-Shows_example =
    build_send_payload-Shows no_pages c_iswspace c_iswspace-IsSpaceTest (7 ∷ 200 ∷ [])
      (native_bytes_to_decimal (7 ∷ 200 ∷ [])) (13 ∷ 10 ∷ []) decimal_with_newline test_errors
      (omega arith) (inr (inl (refl, refl))) (inr (inr (inl (refl, refl))))

parse_hex_lem_example :
    let text = codes "12 3" in
    ((all_hex c_iswspace text ≡ true)
      × (length (digit_values c_iswspace text) % 2 ≡ 0)
      × (native_parse_hex_payload c_iswspace text test_errors
          ≡ parsed (pair_bytes (digit_values c_iswspace text))))
    ⊎ (((all_hex c_iswspace text ≡ true)
          × (length (digit_values c_iswspace text) % 2 ≡ 1)
          × (native_parse_hex_payload c_iswspace text test_errors ≡ set_error (2 ∷ [])))
        ⊎ ((all_hex c_iswspace text ≡ false)
            × (native_parse_hex_payload c_iswspace text test_errors ≡ set_error (1 ∷ []))))
parse_hex_lem_example = parse_hex_lem c_iswspace (codes "12 3") test_errors
