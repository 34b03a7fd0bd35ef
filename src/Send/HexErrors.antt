-- ===== src/Send/HexErrors.antt =====
-- How hexadecimal text is read, and which text is refused.
use serial_value_matcher_nat.Base.{
  ℕ, ◌+◌, ◌-◌, ◌*◌, ◌%◌, ◌<◌, ◌≡◌, refl, sym, ap, ◌∙◌, ◌⊎◌, inl, inr, Bool, true, false, not, ◌&&◌,
  ◌||◌, none, some, List, [], ◌∷◌, ◌++◌, arith, leb, ◌==◌, if◌then◌else◌, Bool-cases, length, All,
  pos_part, ltb_ℤ, pos,
}
use mathlib.Core.Path.{ap₂}
use mathlib.Core.List.{append_assoc, append-nil}
use Prim.{tt}
use serial_value_matcher_nat.Base.Bits.{bit_or_high_low}
use serial_value_matcher_nat.Send.Parse.{
  NativeSendCodecErrors, parsed, set_error, native_hex_value, bytes_of_nibbles, hex_nibbles,
  native_parse_hex_payload,
}

-- A character from 0 to 9, from A to F or from a to f.
abbrev pub is_hex_digit : ℕ → Bool
is_hex_digit ch =
    (leb 0x30 ch && leb ch 0x39) || ((leb 0x41 ch && leb ch 0x46) || (leb 0x61 ch && leb ch 0x66))

-- What such a character counts.
abbrev pub digit_value : ℕ → ℕ
digit_value ch = if leb ch 0x39 then ch - 48 else if leb ch 0x46 then ch - 55 else ch - 87

-- Two digits to a byte.
abbrev pub pair_bytes : List ℕ → List ℕ
pair_bytes [] = []
pair_bytes (high ∷ []) = []
pair_bytes (high ∷ low ∷ digits) = (high * 16 + low) ∷ pair_bytes digits

hex_value-is_hex_digit : (ch : ℕ) → not (ltb_ℤ (native_hex_value ch) (pos 0)) ≡ is_hex_digit ch
unfolding native_hex_value
hex_value-is_hex_digit ch = ground arith

hex_value-digit_value :
    (ch : ℕ) → is_hex_digit ch ≡ true → pos_part (native_hex_value ch) ≡ digit_value ch
unfolding native_hex_value
hex_value-digit_value ch h = ground arith

digit_value-lt : (ch : ℕ) → is_hex_digit ch ≡ true → digit_value ch < 16
digit_value-lt ch h = ground arith

bytes_of_nibbles-pair_bytes :
    (digits : List ℕ) → All (λ d. d < 16) digits → bytes_of_nibbles digits ≡ pair_bytes digits
unfolding bytes_of_nibbles
bytes_of_nibbles-pair_bytes [] h = refl
bytes_of_nibbles-pair_bytes (a ∷ []) h = refl
bytes_of_nibbles-pair_bytes (a ∷ b ∷ digits) h =
    ap₂ ◌∷◌ (omega (arith, bit_or_high_low 4 a b (omega arith)))
      (bytes_of_nibbles-pair_bytes digits h.1.1)

module _ (iswspace : ℕ → Bool) where
  -- A character between digits.
  abbrev pub is_skipped : ℕ → Bool
  is_skipped ch = iswspace ch || (ch == b',' || ch == b'-')

  abbrev pub all_hex : List ℕ → Bool
  all_hex [] = true
  all_hex (ch ∷ text) = (is_skipped ch || is_hex_digit ch) && all_hex text

  -- What the digits of a text count.
  abbrev pub digit_values : List ℕ → List ℕ
  digit_values [] = []
  digit_values (ch ∷ text) =
      if is_skipped ch then digit_values text else digit_value ch ∷ digit_values text

  digit_values-lt : (text : List ℕ) → all_hex text ≡ true → All (λ d. d < 16) (digit_values text)
  digit_values-lt [] h = tt
  digit_values-lt (ch ∷ text) h = elim (Bool-cases (is_skipped ch)) [
    | inl skip ↦ rw skip (digit_values-lt text (ground (arith, h)))
    | inr keep ↦
        rw keep
          (digit_value-lt ch (ground (arith, h, keep)), digit_values-lt text (ground (arith, h)))
  ]

  hex_nibbles_lem :
      (text acc : List ℕ)
      → ((all_hex text ≡ true) × (hex_nibbles iswspace text acc ≡ some (acc ++ digit_values text)))
        ⊎ ((all_hex text ≡ false) × (hex_nibbles iswspace text acc ≡ none))
  unfolding hex_nibbles
  hex_nibbles_lem [] acc = inl (refl, ap some (sym (append-nil acc)))
  hex_nibbles_lem (ch ∷ text) acc = elim (Bool-cases (is_skipped ch)) [
    | inl skip ↦ rw skip (hex_nibbles_lem text acc)
    | inr keep ↦ elim (Bool-cases (ltb_ℤ (native_hex_value ch) (pos 0))) [
      | inl bad ↦
          let no_digit : is_hex_digit ch ≡ false = sym (hex_value-is_hex_digit ch) ∙ ap not bad in
          rw (keep, bad, no_digit) (inr (refl, refl))
      | inr good ↦
          let digit : is_hex_digit ch ≡ true = sym (hex_value-is_hex_digit ch) ∙ ap not good in
          let value = hex_value-digit_value ch digit in
          rw (keep, good, digit, value)
            (elim (hex_nibbles_lem text (acc ++ (digit_value ch ∷ []))) [
              | inl h ↦
                  inl (
                    h.0,
                    h.1 ∙ ap some (append_assoc acc (digit_value ch ∷ []) (digit_values text)),
                  )
              | inr h ↦ inr h
            ])
    ]
  ]

  parse_hex_some :
      (text nibbles : List ℕ) (errors : NativeSendCodecErrors)
      → hex_nibbles iswspace text [] ≡ some nibbles
      → ((length nibbles % 2 ≡ 0)
          × (native_parse_hex_payload iswspace text errors ≡ parsed (bytes_of_nibbles nibbles)))
        ⊎ ((length nibbles % 2 ≡ 1)
            × (native_parse_hex_payload iswspace text errors ≡ set_error errors.hex_odd_nibble))
  unfolding native_parse_hex_payload bytes_of_nibbles
  parse_hex_some text [] errors e = inl (refl, rw (e, native_parse_hex_payload) refl)
  parse_hex_some text (n ∷ ns) errors e = elim (Bool-cases (length (n ∷ ns) % 2 == 0)) [
    | inl even ↦ inl (ground arith, rw (e, native_parse_hex_payload) (rw even refl))
    | inr odd ↦ inr (ground arith, rw (e, native_parse_hex_payload) (rw odd refl))
  ]

  parse_hex_none :
      (text : List ℕ) (errors : NativeSendCodecErrors)
      → hex_nibbles iswspace text [] ≡ none
      → native_parse_hex_payload iswspace text errors ≡ set_error errors.hex_invalid_char
  unfolding native_parse_hex_payload
  parse_hex_none text errors e = rw (e, native_parse_hex_payload) refl

  -- Hexadecimal text is refused, with no bytes, exactly when a character is neither a separator nor a
  -- digit, or else when its digits are odd in number, each with its own message; any other text gives
  -- the bytes that its digits write, two digits to a byte and the high one first.
  pub parse_hex_lem :
      (text : List ℕ) (errors : NativeSendCodecErrors)
      → ((all_hex text ≡ true)
          × (length (digit_values text) % 2 ≡ 0)
          × (native_parse_hex_payload iswspace text errors
              ≡ parsed (pair_bytes (digit_values text))))
        ⊎ (((all_hex text ≡ true)
              × (length (digit_values text) % 2 ≡ 1)
              × (native_parse_hex_payload iswspace text errors ≡ set_error errors.hex_odd_nibble))
            ⊎ ((all_hex text ≡ false)
                × (native_parse_hex_payload iswspace text errors
                    ≡ set_error errors.hex_invalid_char)))
  parse_hex_lem text errors = elim (hex_nibbles_lem text []) [
    | inr bad ↦ inr (inr (bad.0, parse_hex_none text errors bad.1))
    | inl (valid, read) ↦ elim (parse_hex_some text (digit_values text) errors read) [
      | inl (even, got) ↦
          let small = digit_values-lt text valid in
          inl (valid, even, got ∙ ap parsed (bytes_of_nibbles-pair_bytes (digit_values text) small))
      | inr (odd, got) ↦ inr (inl (valid, odd, got))
    ]
  ]
