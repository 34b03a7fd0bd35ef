-- ===== src/Send/HexLaws.antt =====
-- Bytes shown as hexadecimal parse back to the same bytes.
use serial_value_matcher_nat.Base.{
  ℕ, ◌*◌, ◌/◌, ◌%◌, ◌^◌, ◌≤◌, ◌<◌, ◌≡◌, refl, sym, ap, ◌∙◌, Bool, true, false, some, List, [], ◌∷◌,
  ◌++◌, arith, length, All, pos,
}
use serial_value_matcher_nat.Base.Bits.{bit_or_high_low}
use serial_value_matcher_nat.Send.Parse.{
  NativeSendCodecErrors, parsed, native_hex_value, bytes_of_nibbles, hex_nibbles,
  native_parse_hex_payload,
}
use serial_value_matcher_nat.Send.Print.{hex_digit, hex_byte, spaced, native_bytes_to_hex}
use Prim.Native.Nat.{bit_or}
use mathlib.Core.List.{append_assoc, append-nil}

-- What the C library says of `iswspace` in every locale: the space is one, and the characters of
-- ASCII that are printed as a mark are not.
pub record IsSpaceTest (iswspace : ℕ → Bool) : Type 0 where
  pub space : iswspace b' ' ≡ true
  pub mark : (ch : ℕ) → 0x21 ≤ ch → ch ≤ 0x7E → iswspace ch ≡ false

-- Bytes are numbers below 256.
abbrev pub AllBytes : List ℕ → Type 0
AllBytes = All (λ b. b < 2 ^ 8)

digit_range : (n : ℕ) → n < 16 → (b'0' ≤ hex_digit n) × (hex_digit n ≤ b'F')
unfolding hex_digit
digit_range n h = ground arith

hex_value-hex_digit : (n : ℕ) → n < 16 → native_hex_value (hex_digit n) ≡ pos n
unfolding native_hex_value hex_digit
hex_value-hex_digit n h = ground arith

-- The digits that the bytes are shown by, as numbers.
abbrev nibbles_of : List ℕ → List ℕ
nibbles_of [] = []
nibbles_of (b ∷ bs) = b / 16 ∷ b % 16 ∷ nibbles_of bs

bytes-nibbles_of : (bs : List ℕ) → AllBytes bs → bytes_of_nibbles (nibbles_of bs) ≡ bs
unfolding bytes_of_nibbles
bytes-nibbles_of [] h = refl
bytes-nibbles_of (b ∷ bs) h =
    let merged = bit_or_high_low 4 (b / 16) (b % 16) (omega arith) in
    let byte : bit_or (b / 16 * 2 ^ 4) (b % 16) % 2 ^ 8 ≡ b = omega (arith, merged, h.0) in
    cc (byte, bytes-nibbles_of bs h.1)

nibbles_of_even : (bs : List ℕ) → length (nibbles_of bs) % 2 ≡ 0
nibbles_of_even [] = refl
nibbles_of_even (b ∷ bs) = omega (arith, nibbles_of_even bs)

module _ (iswspace : ℕ → Bool) (spaces : IsSpaceTest iswspace) where
  nibbles-digit :
      (n : ℕ) (rest acc : List ℕ)
      → n < 16
      → hex_nibbles iswspace (hex_digit n ∷ rest) acc ≡ hex_nibbles iswspace rest (acc ++ (n ∷ []))
  unfolding hex_nibbles
  nibbles-digit n rest acc h =
      let range = digit_range n h in
      let plain = spaces.mark (hex_digit n) (omega (arith, range)) (omega (arith, range)) in
      rw (plain, hex_value-hex_digit n h) (ground (arith, range))

  nibbles-space :
      (rest acc : List ℕ) → hex_nibbles iswspace (b' ' ∷ rest) acc ≡ hex_nibbles iswspace rest acc
  unfolding hex_nibbles
  nibbles-space rest acc = rw (spaces.space) refl

  nibbles-byte :
      (b : ℕ) (rest acc : List ℕ)
      → b < 2 ^ 8
      → hex_nibbles iswspace (hex_byte b ++ rest) acc
        ≡ hex_nibbles iswspace rest (acc ++ (b / 16 ∷ b % 16 ∷ []))
  unfolding hex_byte
  nibbles-byte b rest acc h =
      nibbles-digit (b / 16) _ acc (omega arith)
      ∙ (nibbles-digit (b % 16) rest (acc ++ (b / 16 ∷ [])) (omega arith)
          ∙ ap (hex_nibbles iswspace rest) (append_assoc acc (b / 16 ∷ []) (b % 16 ∷ [])))

  nibbles-spaced :
      (bs acc : List ℕ)
      → AllBytes bs
      → hex_nibbles iswspace (spaced hex_byte bs) acc ≡ some (acc ++ nibbles_of bs)
  unfolding spaced hex_nibbles
  nibbles-spaced [] acc h = ap some (sym (append-nil acc))
  nibbles-spaced (b ∷ bs) acc h =
      nibbles-space (hex_byte b ++ spaced hex_byte bs) acc
      ∙ (nibbles-byte b (spaced hex_byte bs) acc h.0
          ∙ (nibbles-spaced bs (acc ++ (b / 16 ∷ b % 16 ∷ [])) h.1
              ∙ ap some (append_assoc acc (b / 16 ∷ b % 16 ∷ []) (nibbles_of bs))))

  nibbles-joined :
      (bs : List ℕ)
      → AllBytes bs
      → hex_nibbles iswspace (native_bytes_to_hex bs) [] ≡ some (nibbles_of bs)
  unfolding native_bytes_to_hex hex_nibbles
  nibbles-joined [] h = refl
  nibbles-joined (b ∷ bs) h =
      nibbles-byte b (spaced hex_byte bs) [] h.0 ∙ nibbles-spaced bs (b / 16 ∷ b % 16 ∷ []) h.1

  -- Bytes shown as hexadecimal are read back as the same bytes, with no error.
  pub parse_hex-bytes_to_hex :
      (bytes : List ℕ) (errors : NativeSendCodecErrors)
      → AllBytes bytes
      → native_parse_hex_payload iswspace (native_bytes_to_hex bytes) errors ≡ parsed bytes
  unfolding native_parse_hex_payload
  parse_hex-bytes_to_hex [] errors h = rw (nibbles-joined [] h, native_parse_hex_payload) refl
  parse_hex-bytes_to_hex (b ∷ bs) errors h =
      rw (nibbles-joined (b ∷ bs) h, native_parse_hex_payload)
        (rw (nibbles_of_even (b ∷ bs), bytes-nibbles_of (b ∷ bs) h) refl)
