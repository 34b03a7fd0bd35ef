-- ===== src/Storage/Numbers.antt =====
-- src/native_storage/native_store_record_codec.cpp: numbers as texts. A `std::string` is a list of
-- bytes. `std::to_string` and `std::from_chars` are those of the C++ standard library.
use serial_value_matcher_nat.Base.{
  ℕ, zero, suc, ◌+◌, ◌-◌, ◌*◌, ◌/◌, ◌%◌, ◌^◌, Bool, true, false, ◌&&◌, ◌||◌, Option, none, some,
  List, [], ◌∷◌, ltb, leb, ◌==◌, if◌then◌else◌, is_empty, ℤ, sub_ℕ, pos, negsuc,
}

abbrev pub Text : Type 0
Text = List ℕ

abbrev pub is_decimal : ℕ → Bool
is_decimal ch = leb 48 ch && leb ch 57

-- The digits of a number, in front of others.
unfoldable pub digits_before : ℕ → ℕ → Text → Text
digits_before zero n text = text
digits_before (suc fuel) n text =
    let longer = digits_before fuel (n / 10) ((48 + n % 10) ∷ text) in
    if ltb n 10 then (48 + n) ∷ text else longer

-- Twenty digits hold a number of 64 bits.
unfoldable pub unsigned_to_string : ℕ → Text
unfolding digits_before
unsigned_to_string n = digits_before 20 n []

unfoldable pub to_string : ℤ → Text
to_string (pos n) = unsigned_to_string n
to_string (negsuc n) = 45 ∷ unsigned_to_string (suc n)

abbrev pub bool_to_string : Bool → Text
bool_to_string true = 49 ∷ []
bool_to_string false = 48 ∷ []

-- The number in front of a text, after `value`, and what is behind it.
unfoldable pub scan_digits : Text → ℕ → ℕ × Text
scan_digits [] value = (value, [])
scan_digits (ch ∷ text) value =
    let rest = scan_digits text (value * 10 + (ch - 48)) in
    if is_decimal ch then rest else (value, ch ∷ text)

-- `none` where there is no digit.
unfoldable pub scan_number : Text → Option (ℕ × Text)
unfolding scan_digits
scan_number [] = none
scan_number (ch ∷ text) = if is_decimal ch then some (scan_digits (ch ∷ text) 0) else none

-- `from_chars` for a signed type of which `limit` is the number of values from 0 on, or `none`.
unfoldable pub signed_from_chars : ℕ → Text → Option ℤ
unfolding scan_number
signed_from_chars limit [] = none
signed_from_chars limit (ch ∷ text) =
    if ch == 45
    then elim (scan_number text) [
      | none ↦ none
      | some (n, rest) ↦ if ltb limit n then none else some (sub_ℕ 0 n)
    ]
    else elim (scan_number (ch ∷ text)) [
      | none ↦ none
      | some (n, rest) ↦ if ltb n limit then some (pos n) else none
    ]

abbrev pub value_or : Option ℤ → ℤ → ℤ
value_or none fallback = fallback
value_or (some v) fallback = v

unfoldable pub to_int : Text → ℤ → ℤ
unfolding signed_from_chars
to_int text fallback = value_or (signed_from_chars (2 ^ 31) text) fallback

unfoldable pub to_int64 : Text → ℤ → ℤ
unfolding signed_from_chars
to_int64 text fallback = value_or (signed_from_chars (2 ^ 63) text) fallback

-- `from_chars` for an unsigned type of `limit` values, and only if nothing is behind the number.
unfoldable pub unsigned_from_chars : ℕ → Text → Option ℕ
unfolding scan_number
unsigned_from_chars limit text = elim (scan_number text) [
  | none ↦ none
  | some (n, rest) ↦ if ltb n limit && is_empty rest then some n else none
]

unfoldable pub to_unsigned : ℕ → Text → ℕ → ℕ
unfolding unsigned_from_chars
to_unsigned limit text fallback = elim (unsigned_from_chars limit text) [
  | none ↦ fallback
  | some n ↦ n
]

unfoldable pub to_optional_size : Text → Option ℕ
unfolding unsigned_from_chars
to_optional_size text = if is_empty text then none else unsigned_from_chars (2 ^ 64) text

unfoldable pub optional_size_text : Option ℕ → Text
optional_size_text none = []
optional_size_text (some n) = unsigned_to_string n

abbrev pub same_text : Text → Text → Bool
same_text [] [] = true
same_text [] (b ∷ bs) = false
same_text (a ∷ rest) [] = false
same_text (a ∷ rest) (b ∷ bs) = a == b && same_text rest bs

-- "1", "true" and "True".
unfoldable pub to_bool : Text → Bool
to_bool text =
    same_text text (49 ∷ [])
    || (same_text text (116 ∷ 114 ∷ 117 ∷ 101 ∷ []) || same_text text (84 ∷ 114 ∷ 117 ∷ 101 ∷ []))
