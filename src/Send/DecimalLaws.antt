-- ===== src/Send/DecimalLaws.antt =====
-- Bytes shown as decimal parse back to the same bytes.
use serial_value_matcher_nat.Base.{
  ℕ, ◌^◌, ◌≤◌, ◌<◌, ◌≡◌, refl, sym, ap, ◌∙◌, Bool, false, some, List, [], ◌∷◌, ◌++◌, map, arith,
  is_empty, All,
}
use serial_value_matcher_nat.Send.Parse.{
  NativeSendCodecErrors, parsed, decimal_byte, decimal_bytes, push_token, split_loop,
  split_byte_tokens, native_parse_decimal_payload,
}
use serial_value_matcher_nat.Send.Print.{decimal_digits, spaced, native_bytes_to_decimal}
use serial_value_matcher_nat.Send.HexLaws.{IsSpaceTest, AllBytes}
use mathlib.Core.List.{append_assoc, append-nil}

abbrev IsDigit : ℕ → Type 0
IsDigit ch = (b'0' ≤ ch) × (ch ≤ b'9')

digits-AreDigits : (b : ℕ) → b < 2 ^ 8 → All IsDigit (decimal_digits b)
unfolding decimal_digits
digits-AreDigits b h = ground arith

digits_not_empty : (b : ℕ) → is_empty (decimal_digits b) ≡ false
unfolding decimal_digits
digits_not_empty b = ground arith

-- The digits of a byte are read as that byte.
decimal_byte-digits : (b : ℕ) → b < 2 ^ 8 → decimal_byte (decimal_digits b) ≡ some b
unfolding decimal_byte decimal_digits
decimal_byte-digits b h = ground arith

decimal_bytes-digits :
    (bs acc : List ℕ) → AllBytes bs → decimal_bytes (map decimal_digits bs) acc ≡ some (acc ++ bs)
unfolding decimal_bytes
decimal_bytes-digits [] acc h = ap some (sym (append-nil acc))
decimal_bytes-digits (b ∷ bs) acc h =
    rw (decimal_byte-digits b h.0, decimal_bytes)
      (decimal_bytes-digits bs (acc ++ (b ∷ [])) h.1 ∙ ap some (append_assoc acc (b ∷ []) bs))

module _ (iswspace : ℕ → Bool) (spaces : IsSpaceTest iswspace) where
  split-digit :
      (d : ℕ) (rest : List ℕ) (tokens : List (List ℕ)) (current : List ℕ)
      → IsDigit d
      → split_loop iswspace (d ∷ rest) tokens current
        ≡ split_loop iswspace rest tokens (current ++ (d ∷ []))
  unfolding split_loop
  split-digit d rest tokens current h =
      rw (spaces.mark d (omega (arith, h)) (omega (arith, h))) (ground (arith, h))

  split-digits :
      (word rest : List ℕ) (tokens : List (List ℕ)) (current : List ℕ)
      → All IsDigit word
      → split_loop iswspace (word ++ rest) tokens current
        ≡ split_loop iswspace rest tokens (current ++ word)
  split-digits [] rest tokens current h =
      ap (split_loop iswspace rest tokens) (sym (append-nil current))
  split-digits (d ∷ word) rest tokens current h =
      split-digit d (word ++ rest) tokens current h.0
      ∙ (split-digits word rest tokens (current ++ (d ∷ [])) h.1
          ∙ ap (split_loop iswspace rest tokens) (append_assoc current (d ∷ []) word))

  split-space :
      (rest : List ℕ) (tokens : List (List ℕ)) (current : List ℕ)
      → split_loop iswspace (b' ' ∷ rest) tokens current
        ≡ split_loop iswspace rest (push_token iswspace tokens current) []
  unfolding split_loop
  split-space rest tokens current = rw spaces.space refl

  split-spaced :
      (bs : List ℕ) (tokens : List (List ℕ)) (current : List ℕ)
      → AllBytes bs
      → split_loop iswspace (spaced decimal_digits bs) tokens current
        ≡ push_token iswspace tokens current ++ map decimal_digits bs
  unfolding spaced split_loop
  split-spaced [] tokens current h = sym (append-nil _)
  split-spaced (b ∷ bs) tokens current h =
      let pushed = push_token iswspace tokens current in
      split-space (decimal_digits b ++ spaced decimal_digits bs) tokens current
      ∙ (split-digits (decimal_digits b) (spaced decimal_digits bs) pushed []
            (digits-AreDigits b h.0)
          ∙ (split-spaced bs pushed (decimal_digits b) h.1
              ∙ rw (digits_not_empty b)
                  (append_assoc pushed (decimal_digits b ∷ []) (map decimal_digits bs))))

  split-decimal :
      (bytes : List ℕ)
      → AllBytes bytes
      → split_byte_tokens iswspace (native_bytes_to_decimal bytes) ≡ map decimal_digits bytes
  unfolding split_byte_tokens native_bytes_to_decimal
  split-decimal [] h = refl
  split-decimal (b ∷ bs) h =
      split-digits (decimal_digits b) (spaced decimal_digits bs) [] [] (digits-AreDigits b h.0)
      ∙ (split-spaced bs [] (decimal_digits b) h.1 ∙ rw (digits_not_empty b) refl)

  -- Bytes shown as decimal numbers are read back as the same bytes, with no error.
  pub parse_decimal-bytes_to_decimal :
      (bytes : List ℕ) (errors : NativeSendCodecErrors)
      → AllBytes bytes
      → native_parse_decimal_payload iswspace (native_bytes_to_decimal bytes) errors ≡ parsed bytes
  unfolding native_parse_decimal_payload
  parse_decimal-bytes_to_decimal bytes errors h =
      rw (split-decimal bytes h, native_parse_decimal_payload)
        (rw (decimal_bytes-digits bytes [] h) refl)
