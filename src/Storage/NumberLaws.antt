-- ===== src/Storage/NumberLaws.antt =====
-- Numbers as texts are read back.
use native.Mathlib.Nat.{pow-suc}
use mathlib.Core.List.{nil≢cons, head-eq_of_cons-eq}
use serial_value_matcher_nat.Base.{
  ℕ, zero, suc, ◌+◌, ◌-◌, ◌*◌, ◌/◌, ◌%◌, ◌^◌, ◌≤◌, ◌<◌, ◌≡◌, refl, ap, ◌∙◌, inl, inr, Bool, true,
  false, Option, none, some, [], ◌∷◌, arith, ltb, ◌==◌, Bool-cases, is_empty, ℤ, pos_part, neg_part,
  pos, negsuc,
}
use serial_value_matcher_nat.Storage.Numbers.{
  Text, is_decimal, digits_before, unsigned_to_string, to_string, bool_to_string, scan_digits,
  scan_number, signed_from_chars, value_or, to_int, to_int64, unsigned_from_chars, to_unsigned,
  to_optional_size, optional_size_text, to_bool,
}

abbrev pub IsInt : ℤ → Type 0
IsInt v = (pos_part v < 2 ^ 31) × (neg_part v ≤ 2 ^ 31)

abbrev pub IsInt64 : ℤ → Type 0
IsInt64 v = (pos_part v < 2 ^ 63) × (neg_part v ≤ 2 ^ 63)

scan-digit :
    (d value : ℕ) (text : Text)
    → d < 10
    → scan_digits ((48 + d) ∷ text) value ≡ scan_digits text (value * 10 + d)
unfolding scan_digits
scan-digit d value text h =
    let digit : is_decimal (48 + d) ≡ true = ground (arith, h) in
    let next : value * 10 + (48 + d - 48) ≡ value * 10 + d = omega arith in
    rw (digit) (ap (scan_digits text) next)

-- The digits of a number are scanned as that number, whatever is behind them.
scan-digits_before :
    (fuel n : ℕ) (text : Text)
    → n < 10 ^ fuel
    → scan_digits (digits_before fuel n text) 0 ≡ scan_digits text n
unfolding digits_before
scan-digits_before zero n text h = ap (scan_digits text) (omega (arith, h))
scan-digits_before (suc fuel) n text h = elim (Bool-cases (ltb n 10)) [
  | inl short ↦
      rw (short) (scan-digit n 0 text (ground (arith, short)) ∙ ap (scan_digits text) (omega arith))
  | inr long ↦
      let low : n / 10 < 10 ^ fuel = omega (arith, h, pow-suc 10 fuel) in
      rw (long) (
        scan-digits_before fuel (n / 10) ((48 + n % 10) ∷ text) low
        ∙ (scan-digit (n % 10) (n / 10) text (omega arith) ∙ ap (scan_digits text) (omega arith)))
]

-- A text of digits starts with one.
StartsWithDigit : Text → Type 0
StartsWithDigit text = (d : ℕ) × (rest : Text) × (text ≡ d ∷ rest) × (48 ≤ d) × (d ≤ 57)

digits_before-StartsWithDigit :
    (fuel n : ℕ) (text : Text) → 0 < fuel → StartsWithDigit (digits_before fuel n text)
unfolding digits_before StartsWithDigit
digits_before-StartsWithDigit zero n text h = absurd (omega (arith, h))
digits_before-StartsWithDigit (suc zero) n text h = elim (Bool-cases (ltb n 10)) [
  | inl short ↦ rw (short) (48 + n, text, refl, omega arith, ground (arith, short))
  | inr long ↦ rw (long) (48 + n % 10, text, refl, omega arith, omega arith)
]
digits_before-StartsWithDigit (suc (suc fuel)) n text h = elim (Bool-cases (ltb n 10)) [
  | inl short ↦ rw (short) (48 + n, text, refl, omega arith, ground (arith, short))
  | inr long ↦
      rw (long)
        (digits_before-StartsWithDigit (suc fuel) (n / 10) ((48 + n % 10) ∷ text) (omega arith))
]

scan_number-digits :
    (text : Text) → StartsWithDigit text → scan_number text ≡ some (scan_digits text 0)
unfolding scan_number StartsWithDigit
scan_number-digits [] (d, rest, e, low, high) = absurd (nil≢cons e)
scan_number-digits (ch ∷ text) (d, rest, e, low, high) =
    let same : ch ≡ d = head-eq_of_cons-eq e in
    let digit : is_decimal ch ≡ true = ground (arith, same, low, high) in rw (digit) refl

scan_number-unsigned : (n : ℕ) → n < 2 ^ 64 → scan_number (unsigned_to_string n) ≡ some (n, [])
unfolding unsigned_to_string scan_digits
scan_number-unsigned n h =
    scan_number-digits (unsigned_to_string n) (digits_before-StartsWithDigit 20 n [] (omega arith))
    ∙ ap some (scan-digits_before 20 n [] (omega (arith, h)))

unsigned-StartsWithDigit : (n : ℕ) → StartsWithDigit (unsigned_to_string n)
unfolding unsigned_to_string
unsigned-StartsWithDigit n = digits_before-StartsWithDigit 20 n [] (omega arith)

pub to_unsigned-to_string :
    (limit n fallback : ℕ)
    → limit ≤ 2 ^ 64
    → n < limit
    → to_unsigned limit (unsigned_to_string n) fallback ≡ n
unfolding to_unsigned
to_unsigned-to_string limit n fallback h k =
    rw (scan_number-unsigned n (omega (arith, h, k)), to_unsigned) (ground (arith, k))

filled-StartsWithDigit : (text : Text) → StartsWithDigit text → is_empty text ≡ false
unfolding StartsWithDigit
filled-StartsWithDigit [] (d, rest, e, low, high) = absurd (nil≢cons e)
filled-StartsWithDigit (ch ∷ text) start = refl

-- A size that is there is a word of 64 bits.
abbrev pub IsSize : Option ℕ → Type 0
IsSize none = Unit
IsSize (some n) = n < 2 ^ 64

pub to_optional_size-text :
    (size : Option ℕ) → IsSize size → to_optional_size (optional_size_text size) ≡ size
unfolding to_optional_size optional_size_text
to_optional_size-text none h = refl
to_optional_size-text (some n) h =
    rw
      (filled-StartsWithDigit (unsigned_to_string n) (unsigned-StartsWithDigit n), to_optional_size)
      (rw (scan_number-unsigned n h, unsigned_from_chars) (ground (arith, h)))

signed-digits :
    (limit n : ℕ) (text : Text)
    → StartsWithDigit text
    → scan_number text ≡ some (n, [])
    → n < limit
    → signed_from_chars limit text ≡ some (pos n)
unfolding signed_from_chars StartsWithDigit
signed-digits limit n [] (d, rest, e, low, high) scanned within = absurd (nil≢cons e)
signed-digits limit n (ch ∷ text) (d, rest, e, low, high) scanned within =
    let same : ch ≡ d = head-eq_of_cons-eq e in
    let no_sign : (ch == 45) ≡ false = ground (arith, same, low) in
    rw (no_sign, signed_from_chars) (rw (scanned, signed_from_chars) (ground (arith, within)))

signed_from_chars-to_string :
    (limit : ℕ) (v : ℤ)
    → limit ≤ 2 ^ 63
    → pos_part v < limit
    → neg_part v ≤ limit
    → signed_from_chars limit (to_string v) ≡ some v
unfolding signed_from_chars to_string
signed_from_chars-to_string limit (pos n) h low high =
    signed-digits limit n (unsigned_to_string n) (unsigned-StartsWithDigit n)
      (scan_number-unsigned n (omega (arith, h, low))) low
signed_from_chars-to_string limit (negsuc n) h low high =
    rw (scan_number-unsigned (suc n) (omega (arith, h, high)), signed_from_chars) ground
      (arith, high)

pub to_int-to_string : (v fallback : ℤ) → IsInt v → to_int (to_string v) fallback ≡ v
unfolding to_int
to_int-to_string v fallback h =
    ap (λ (o : Option ℤ). value_or o fallback)
      (signed_from_chars-to_string (2 ^ 31) v (omega arith) h.0 h.1)

pub to_int64-to_string : (v fallback : ℤ) → IsInt64 v → to_int64 (to_string v) fallback ≡ v
unfolding to_int64
to_int64-to_string v fallback h =
    ap (λ (o : Option ℤ). value_or o fallback)
      (signed_from_chars-to_string (2 ^ 63) v (omega arith) h.0 h.1)

pub to_bool-to_string : (b : Bool) → to_bool (bool_to_string b) ≡ b
unfolding to_bool
to_bool-to_string true = refl
to_bool-to_string false = refl
