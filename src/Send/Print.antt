-- ===== src/Send/Print.antt =====
-- src/win32/native_send_codec.cpp: bytes shown as hexadecimal, decimal or binary text.
use serial_value_matcher_nat.Base.{
  ℕ, ◌+◌, ◌-◌, ◌/◌, ◌%◌, ◌^◌, not, List, [], ◌∷◌, ◌++◌, ltb, ◌==◌, if◌then◌else◌,
}
use Prim.Native.Nat.{bit_and}

-- A digit as `std::hex` with `std::uppercase` writes it.
unfoldable pub hex_digit : ℕ → ℕ
hex_digit n = if ltb n 10 then b'0' + n else b'A' + (n - 10)

unfoldable pub hex_byte : ℕ → List ℕ
unfolding hex_digit
hex_byte byte = hex_digit (byte / 16) ∷ hex_digit (byte % 16) ∷ []

-- An `int` below 256 as a stream writes it.
unfoldable pub decimal_digits : ℕ → List ℕ
decimal_digits byte =
    if ltb byte 10
    then (b'0' + byte) ∷ []
    else if ltb byte 100
    then (b'0' + byte / 10) ∷ (b'0' + byte % 10) ∷ []
    else (b'0' + byte / 100) ∷ (b'0' + byte / 10 % 10) ∷ (b'0' + byte % 10) ∷ []

abbrev pub bit_digit : ℕ → ℕ → ℕ
bit_digit byte bit = if not (bit_and (byte / 2 ^ bit) 1 == 0) then b'1' else b'0'

unfoldable pub binary_digits : ℕ → List ℕ
binary_digits byte =
    bit_digit byte 7
    ∷ bit_digit byte 6
    ∷ bit_digit byte 5
    ∷ bit_digit byte 4
    ∷ bit_digit byte 3
    ∷ bit_digit byte 2
    ∷ bit_digit byte 1
    ∷ bit_digit byte 0
    ∷ []

-- The loop of the three printers: a space before each byte but the first.
unfoldable pub spaced : (ℕ → List ℕ) → List ℕ → List ℕ
spaced show [] = []
spaced show (byte ∷ bytes) = b' ' ∷ (show byte ++ spaced show bytes)

unfoldable pub joined : (ℕ → List ℕ) → List ℕ → List ℕ
unfolding spaced
joined show [] = []
joined show (byte ∷ bytes) = show byte ++ spaced show bytes

unfoldable pub native_bytes_to_hex : List ℕ → List ℕ
unfolding joined
native_bytes_to_hex bytes = joined hex_byte bytes

unfoldable pub native_bytes_to_decimal : List ℕ → List ℕ
unfolding joined
native_bytes_to_decimal bytes = joined decimal_digits bytes

unfoldable pub native_bytes_to_binary : List ℕ → List ℕ
unfolding joined
native_bytes_to_binary bytes = joined binary_digits bytes
