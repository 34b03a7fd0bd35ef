-- ===== src/Send/Parse.antt =====
-- src/win32/native_send_codec.cpp: hexadecimal, decimal and binary text to bytes. A wide text is the
-- list of its code units, and an error text is one that the caller supplies.
use serial_value_matcher_nat.Base.{
  ℕ, ◌+◌, ◌-◌, ◌*◌, ◌%◌, ◌^◌, min, Bool, true, false, not, ◌&&◌, ◌||◌, Option, none, some, List, [],
  ◌∷◌, ◌++◌, leb, ◌==◌, if◌then◌else◌, length, is_empty, ℤ, pos_part, ltb_ℤ, cast_mod, pos, negsuc,
}
use Prim.Native.Nat.{bit_or}

pub record NativeSendCodecErrors : Type 0 where
  pub hex_invalid_char : List ℕ
  pub hex_odd_nibble : List ℕ
  pub invalid_decimal : List ℕ
  pub invalid_binary : List ℕ
  pub text_encoding_failed : List ℕ

-- The bytes that a parser returns and the error text that it leaves, empty when there is none.
pub record Parsed : Type 0 where
  pub payload : List ℕ
  pub error_text : List ℕ

abbrev pub parsed : List ℕ → Parsed
parsed bytes = record { payload = bytes; error_text = [] }

abbrev pub set_error : List ℕ → Parsed
set_error message = record { payload = []; error_text = message }

-- -1 for no digit.
unfoldable pub native_hex_value : ℕ → ℤ
native_hex_value ch =
    if leb b'0' ch && leb ch b'9'
    then pos (ch - b'0')
    else if leb b'a' ch && leb ch b'f'
    then pos (10 + ch - b'a')
    else if leb b'A' ch && leb ch b'F'
    then pos (10 + ch - b'A')
    else negsuc 0

-- Two hexadecimal digits to a byte, from the first on.
unfoldable pub bytes_of_nibbles : List ℕ → List ℕ
bytes_of_nibbles [] = []
bytes_of_nibbles (high ∷ []) = []
bytes_of_nibbles (high ∷ low ∷ nibbles) =
    bit_or (high * 2 ^ 4) low % 2 ^ 8 ∷ bytes_of_nibbles nibbles

-- `wcstol` in base 10 on a text with no space at its head: a sign, then digits to the end. `none`
-- when there is no digit or something follows them; a value too large is held at LONG_MAX or
-- LONG_MIN of a 32-bit `long`.
abbrev pub is_digit : ℕ → Bool
is_digit ch = leb b'0' ch && leb ch b'9'

unfoldable pub digits_value : List ℕ → ℕ → Option ℕ
digits_value [] value = some value
digits_value (ch ∷ text) value =
    let rest = digits_value text (value * 10 + (ch - b'0')) in if is_digit ch then rest else none

unfoldable pub unsigned_value : List ℕ → Option ℕ
unfolding digits_value
unsigned_value [] = none
unsigned_value (ch ∷ text) = digits_value (ch ∷ text) 0

-- The number behind a sign, held in a 32-bit `long`.
abbrev pub signed_value : Bool → Option ℕ → Option ℤ
signed_value negative none = none
signed_value true (some n) = some (if n == 0 then pos 0 else negsuc (min n (2 ^ 31) - 1))
signed_value false (some n) = some (pos (min n (2 ^ 31 - 1)))

unfoldable pub wcstol_whole : List ℕ → Option ℤ
unfolding unsigned_value
wcstol_whole [] = none
wcstol_whole (ch ∷ text) =
    if ch == b'-'
    then signed_value true (unsigned_value text)
    else if ch == b'+'
    then signed_value false (unsigned_value text)
    else signed_value false (unsigned_value (ch ∷ text))

-- What the C library sees of a text: up to the first NUL.
abbrev pub before_nul : List ℕ → List ℕ
before_nul [] = []
before_nul (ch ∷ text) = let rest = before_nul text in if ch == 0 then [] else ch ∷ rest

-- One token: a number from 0 to 255.
unfoldable pub decimal_byte : List ℕ → Option ℕ
unfolding wcstol_whole
decimal_byte token = elim (wcstol_whole (before_nul token)) [
  | none ↦ none
  | some value ↦
      if ltb_ℤ value (pos 0) || ltb_ℤ (pos 255) value then none else some (cast_mod (2 ^ 8) value)
]

unfoldable pub decimal_bytes : List (List ℕ) → List ℕ → Option (List ℕ)
unfolding decimal_byte
decimal_bytes [] bytes = some bytes
decimal_bytes (token ∷ tokens) bytes = elim (decimal_byte token) [
  | none ↦ none
  | some value ↦ decimal_bytes tokens (bytes ++ (value ∷ []))
]

-- `iswspace` of the C library, which goes by the locale.
module _ (iswspace : ℕ → Bool) where
  unfoldable pub is_byte_token_separator : ℕ → Bool
  is_byte_token_separator ch =
      iswspace ch
      || (ch == b',' || (ch == b';' || (ch == 0xFF0C || (ch == 0xFF1B || ch == 0x3001))))

  abbrev pub push_token : List (List ℕ) → List ℕ → List (List ℕ)
  push_token tokens current = if is_empty current then tokens else tokens ++ (current ∷ [])

  unfoldable pub split_loop : List ℕ → List (List ℕ) → List ℕ → List (List ℕ)
  unfolding is_byte_token_separator
  split_loop [] tokens current = push_token tokens current
  split_loop (ch ∷ text) tokens current =
      let after_token = split_loop text (push_token tokens current) [] in
      let in_token = split_loop text tokens (current ++ (ch ∷ [])) in
      if is_byte_token_separator ch then after_token else in_token

  unfoldable pub split_byte_tokens : List ℕ → List (List ℕ)
  unfolding split_loop
  split_byte_tokens text = split_loop text [] []

  -- The loop over the characters; `none` at one that is no digit.
  unfoldable pub hex_nibbles : List ℕ → List ℕ → Option (List ℕ)
  unfolding native_hex_value
  hex_nibbles [] nibbles = some nibbles
  hex_nibbles (ch ∷ text) nibbles =
      let skipped = hex_nibbles text nibbles in
      let pushed = hex_nibbles text (nibbles ++ (pos_part (native_hex_value ch) ∷ [])) in
      if iswspace ch || (ch == b',' || ch == b'-')
      then skipped
      else if ltb_ℤ (native_hex_value ch) (pos 0)
      then none
      else pushed

  unfoldable pub native_parse_hex_payload : List ℕ → NativeSendCodecErrors → Parsed
  unfolding bytes_of_nibbles hex_nibbles
  native_parse_hex_payload text errors = elim (hex_nibbles text []) [
    | none ↦ set_error errors.hex_invalid_char
    | some nibbles ↦
        if is_empty nibbles
        then parsed []
        else if not (length nibbles % 2 == 0)
        then set_error errors.hex_odd_nibble
        else parsed (bytes_of_nibbles nibbles)
  ]

  unfoldable pub native_parse_decimal_payload : List ℕ → NativeSendCodecErrors → Parsed
  unfolding decimal_bytes split_byte_tokens
  native_parse_decimal_payload text errors = elim (decimal_bytes (split_byte_tokens text) []) [
    | none ↦ set_error errors.invalid_decimal
    | some bytes ↦ parsed bytes
  ]

  unfoldable pub binary_bits : List ℕ → List ℕ → Option (List ℕ)
  unfolding is_byte_token_separator
  binary_bits [] bits = some bits
  binary_bits (ch ∷ text) bits =
      let skipped = binary_bits text bits in
      let pushed = binary_bits text (bits ++ (ch ∷ [])) in
      if is_byte_token_separator ch
      then skipped
      else if not (ch == b'0') && not (ch == b'1')
      then none
      else pushed

-- Eight bits to a byte, the highest first.
abbrev pub shift_in : ℕ → ℕ → ℕ
shift_in value bit = bit_or (value * 2) (if bit == b'1' then 1 else 0) % 2 ^ 8

unfoldable pub bytes_of_bits : List ℕ → List ℕ
bytes_of_bits (a ∷ b ∷ c ∷ d ∷ e ∷ f ∷ g ∷ h ∷ bits) =
    shift_in
      (shift_in (shift_in (shift_in (shift_in (shift_in (shift_in (shift_in 0 a) b) c) d) e) f) g) h
    ∷ bytes_of_bits bits
bytes_of_bits bits = []

unfoldable pub native_parse_binary_payload : (ℕ → Bool) → List ℕ → NativeSendCodecErrors → Parsed
unfolding bytes_of_bits binary_bits
native_parse_binary_payload iswspace text errors = elim (binary_bits iswspace text []) [
  | none ↦ set_error errors.invalid_binary
  | some bits ↦
      if is_empty bits
      then parsed []
      else if not (length bits % 8 == 0)
      then set_error errors.invalid_binary
      else parsed (bytes_of_bits bits)
]
