-- ===== src/Send/PayloadLaws.antt =====
-- What a send puts on the wire: what was shown comes back.
use serial_value_matcher_nat.Base.{
  ℕ, ◌≡◌, refl, ap, ◌≢◌, ◌⊎◌, inl, inr, Bool, List, [], ◌∷◌, ◌++◌, arith, ℤ, pos,
}
use mathlib.Core.List.{append-nil}
use serial_value_matcher_nat.Send.Parse.{NativeSendCodecErrors, parsed}
use serial_value_matcher_nat.Send.Print.{
  native_bytes_to_hex, native_bytes_to_decimal, native_bytes_to_binary,
}
use serial_value_matcher_nat.Send.Payload.{
  NativeSendPayloadOptions, CodePages, native_append_line_ending, parse_by_mode,
  native_build_send_payload,
}
use serial_value_matcher_nat.Send.HexLaws.{IsSpaceTest, AllBytes, parse_hex-bytes_to_hex}
use serial_value_matcher_nat.Send.DecimalLaws.{parse_decimal-bytes_to_decimal}
use serial_value_matcher_nat.Send.BinaryLaws.{parse_binary-bytes_to_binary}

-- How the three modes show bytes.
abbrev pub Shows : ℤ → List ℕ → List ℕ → Type 0
Shows mode bytes text =
    ((mode ≡ pos 1) × (text ≡ native_bytes_to_hex bytes))
    ⊎ (((mode ≡ pos 2) × (text ≡ native_bytes_to_decimal bytes))
        ⊎ ((mode ≡ pos 3) × (text ≡ native_bytes_to_binary bytes)))

-- The bytes of a line ending: CR, LF, CR and LF, or none for any other choice.
abbrev pub IsLineEnding : ℤ → List ℕ → Type 0
IsLineEnding choice ending =
    ((choice ≡ pos 1) × (ending ≡ 13 ∷ []))
    ⊎ (((choice ≡ pos 2) × (ending ≡ 10 ∷ []))
        ⊎ (((choice ≡ pos 3) × (ending ≡ 13 ∷ 10 ∷ []))
            ⊎ ((choice ≢ pos 1) × (choice ≢ pos 2) × (choice ≢ pos 3) × (ending ≡ []))))

append_line_ending-IsLineEnding :
    (bytes ending : List ℕ) (choice : ℤ)
    → IsLineEnding choice ending
    → native_append_line_ending bytes choice ≡ bytes ++ ending
unfolding native_append_line_ending
append_line_ending-IsLineEnding bytes ending choice (inl h) = rw (h.0, h.1) refl
append_line_ending-IsLineEnding bytes ending choice (inr (inl h)) = rw (h.0, h.1) refl
append_line_ending-IsLineEnding bytes ending choice (inr (inr (inl h))) = rw (h.0, h.1) refl
append_line_ending-IsLineEnding bytes ending choice (inr (inr (inr h))) =
    ground (arith, append-nil bytes)

module _ (pages : CodePages) (iswspace : ℕ → Bool) (spaces : IsSpaceTest iswspace) where
  parse_by_mode-Shows :
      (bytes text : List ℕ) (options : NativeSendPayloadOptions) (errors : NativeSendCodecErrors)
      → AllBytes bytes
      → Shows options.mode bytes text
      → parse_by_mode pages iswspace text options errors ≡ parsed bytes
  unfolding parse_by_mode
  parse_by_mode-Shows bytes text options errors h (inl s) =
      rw (s.1) (ground (arith, parse_hex-bytes_to_hex iswspace spaces bytes errors h, s.0))
  parse_by_mode-Shows bytes text options errors h (inr (inl s)) =
      rw (s.1) (ground (arith, parse_decimal-bytes_to_decimal iswspace spaces bytes errors h, s.0))
  parse_by_mode-Shows bytes text options errors h (inr (inr s)) =
      rw (s.1) (ground (arith, parse_binary-bytes_to_binary iswspace spaces bytes errors h, s.0))

  -- Bytes that were shown as hexadecimal, decimal or binary are what a send in that mode puts on the
  -- wire, and behind them CR, LF, CR and LF or nothing as the line ending is 1, 2, 3 or another, with no error.
  pub build_send_payload-Shows :
      (bytes text ending : List ℕ) (options : NativeSendPayloadOptions)
      (errors : NativeSendCodecErrors)
      → AllBytes bytes
      → Shows options.mode bytes text
      → IsLineEnding options.line_ending ending
      → native_build_send_payload pages iswspace text options errors ≡ parsed (bytes ++ ending)
  unfolding native_build_send_payload
  build_send_payload-Shows bytes text ending options errors h s ends =
      rw (parse_by_mode-Shows bytes text options errors h s, native_build_send_payload)
        (ap parsed (append_line_ending-IsLineEnding bytes ending options.line_ending ends))
