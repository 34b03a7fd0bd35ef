-- ===== src/Send/BinaryLaws.antt =====
-- Bytes shown as binary parse back to the same bytes.
use serial_value_matcher_nat.Base.{
  ℕ, zero, suc, ◌%◌, ◌^◌, ◌<◌, ◌≡◌, refl, sym, ap, ◌∙◌, ◌⊎◌, Bool, true, false, ◌&&◌, some, List,
  [], ◌∷◌, ◌++◌, arith, ◌==◌, ==_iff, length, is_empty, All,
}
use serial_value_matcher_nat.Send.Parse.{
  NativeSendCodecErrors, parsed, is_byte_token_separator, binary_bits, bytes_of_bits,
  native_parse_binary_payload,
}
use serial_value_matcher_nat.Send.Print.{bit_digit, binary_digits, spaced, native_bytes_to_binary}
use serial_value_matcher_nat.Send.HexLaws.{IsSpaceTest, AllBytes}
use mathlib.Core.List.{append_assoc, append-nil}

abbrev IsBit : ℕ → Type 0
IsBit ch = (ch ≡ b'0') ⊎ (ch ≡ b'1')

bit_digit-IsBit : (byte bit : ℕ) → IsBit (bit_digit byte bit)
bit_digit-IsBit byte bit = ground arith

digits-AreBits : (b : ℕ) → All IsBit (binary_digits b)
unfolding binary_digits
digits-AreBits b = (
  bit_digit-IsBit b 7,
  (
    bit_digit-IsBit b 6,
    (
      bit_digit-IsBit b 5,
      (
        bit_digit-IsBit b 4,
        (
          bit_digit-IsBit b 3,
          (bit_digit-IsBit b 2, (bit_digit-IsBit b 1, (bit_digit-IsBit b 0, tt))),
        ),
      ),
    ),
  ),
)

digits_not_empty : (b : ℕ) (rest : List ℕ) → is_empty (binary_digits b ++ rest) ≡ false
unfolding binary_digits
digits_not_empty b rest = refl

-- A test that passes for every number under a bound, and its answer for one of them.
passes_under : (ℕ → Bool) → ℕ → Bool
passes_under test zero = true
passes_under test (suc bound) = passes_under test bound && test bound

passes_one :
    (test : ℕ → Bool) (bound value : ℕ)
    → value < bound
    → passes_under test bound ≡ true
    → test value ≡ true
unfolding passes_under
passes_one test zero value low all = absurd (omega (arith, low))
passes_one test (suc bound) value low all = ground (arith, passes_one test bound value)

first_or : List ℕ → ℕ
first_or [] = 256
first_or (b ∷ bs) = b

every_byte : passes_under (λ b. first_or (bytes_of_bits (binary_digits b)) == b) 256 ≡ true
unfolding passes_under first_or bytes_of_bits binary_digits
every_byte = refl

bytes-binary_digits :
    (b : ℕ) (rest : List ℕ)
    → b < 2 ^ 8
    → bytes_of_bits (binary_digits b ++ rest) ≡ b ∷ bytes_of_bits rest
unfolding bytes_of_bits binary_digits first_or
bytes-binary_digits b rest h =
    let same = (==_iff _ b).0 (passes_one _ 256 b h every_byte) in ap (◌∷ bytes_of_bits rest) same

-- The bits of all bytes, one after the other.
abbrev bits_of : List ℕ → List ℕ
bits_of [] = []
bits_of (b ∷ bs) = binary_digits b ++ bits_of bs

bytes-bits_of : (bs : List ℕ) → AllBytes bs → bytes_of_bits (bits_of bs) ≡ bs
unfolding bytes_of_bits
bytes-bits_of [] h = refl
bytes-bits_of (b ∷ bs) h =
    bytes-binary_digits b (bits_of bs) h.0 ∙ ap (◌∷◌ b) (bytes-bits_of bs h.1)

length-bits_of : (bs : List ℕ) → length (bits_of bs) % 8 ≡ 0
unfolding binary_digits
length-bits_of [] = refl
length-bits_of (b ∷ bs) = omega (arith, length-bits_of bs)

module _ (iswspace : ℕ → Bool) (spaces : IsSpaceTest iswspace) where
  bits-digit :
      (d : ℕ) (rest acc : List ℕ)
      → IsBit d
      → binary_bits iswspace (d ∷ rest) acc ≡ binary_bits iswspace rest (acc ++ (d ∷ []))
  unfolding binary_bits
  bits-digit d rest acc h =
      let plain = spaces.mark d (ground (arith, h)) (ground (arith, h)) in
      rw plain (ground (arith, h))

  bits-digits :
      (word rest acc : List ℕ)
      → All IsBit word
      → binary_bits iswspace (word ++ rest) acc ≡ binary_bits iswspace rest (acc ++ word)
  bits-digits [] rest acc h = ap (binary_bits iswspace rest) (sym (append-nil acc))
  bits-digits (d ∷ word) rest acc h =
      bits-digit d (word ++ rest) acc h.0
      ∙ (bits-digits word rest (acc ++ (d ∷ [])) h.1
          ∙ ap (binary_bits iswspace rest) (append_assoc acc (d ∷ []) word))

  bits-space :
      (rest acc : List ℕ) → binary_bits iswspace (b' ' ∷ rest) acc ≡ binary_bits iswspace rest acc
  unfolding binary_bits is_byte_token_separator
  bits-space rest acc = rw spaces.space refl

  bits-spaced :
      (bs acc : List ℕ)
      → binary_bits iswspace (spaced binary_digits bs) acc ≡ some (acc ++ bits_of bs)
  unfolding spaced binary_bits
  bits-spaced [] acc = ap some (sym (append-nil acc))
  bits-spaced (b ∷ bs) acc =
      bits-space (binary_digits b ++ spaced binary_digits bs) acc
      ∙ (bits-digits (binary_digits b) (spaced binary_digits bs) acc (digits-AreBits b)
          ∙ (bits-spaced bs (acc ++ binary_digits b)
              ∙ ap some (append_assoc acc (binary_digits b) (bits_of bs))))

  bits-joined :
      (bs : List ℕ) → binary_bits iswspace (native_bytes_to_binary bs) [] ≡ some (bits_of bs)
  unfolding native_bytes_to_binary binary_bits
  bits-joined [] = refl
  bits-joined (b ∷ bs) =
      bits-digits (binary_digits b) (spaced binary_digits bs) [] (digits-AreBits b)
      ∙ bits-spaced bs (binary_digits b)

  -- Bytes shown as binary are read back as the same bytes, with no error.
  pub parse_binary-bytes_to_binary :
      (bytes : List ℕ) (errors : NativeSendCodecErrors)
      → AllBytes bytes
      → native_parse_binary_payload iswspace (native_bytes_to_binary bytes) errors ≡ parsed bytes
  unfolding native_parse_binary_payload
  parse_binary-bytes_to_binary [] errors h = rw (bits-joined [], native_parse_binary_payload) refl
  parse_binary-bytes_to_binary (b ∷ bs) errors h =
      rw (bits-joined (b ∷ bs), native_parse_binary_payload)
        (rw (length-bits_of (b ∷ bs), bytes-bits_of (b ∷ bs) h)
          (rw (digits_not_empty b (bits_of bs)) refl))
