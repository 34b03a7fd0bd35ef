-- ===== src/Base/Bits.antt =====
-- Laws of `&`, `|` and `^` that byte packing and checksums need, from the native digit recursion.
use Prim.Native.Nat.{
  ℕ, zero, suc, ◌+◌, ◌*◌, ◌/◌, ◌%◌, ◌^◌, ◌≤◌, ◌<◌, min, max, digits, bitwise, differ, bit_and,
  bit_or, bit_xor, bit_and-bitwise, bit_or-bitwise, bit_xor-bitwise,
}
use mathlib.Core.Path.{◌≡◌, refl, ap}
use native.Mathlib.Nat.{pow-suc}
use native.Mathlib.Omega.{arith}

-- Any count of digits that the number cannot exceed gives the same result.
module _ (rest : ℕ → ℕ) (digit : ℕ → ℕ → ℕ) where
  digits-agree :
      (x y : ℕ) (fx fy : ℕ) → x ≤ fx → x ≤ fy → digits rest digit fx x y ≡ digits rest digit fy x y
  digits-agree zero y zero zero h k = refl
  digits-agree zero y zero (suc fy) h k = refl
  digits-agree zero y (suc fx) zero h k = refl
  digits-agree zero y (suc fx) (suc fy) h k = refl
  digits-agree (suc x) y zero fy h k = absurd (omega arith)
  digits-agree (suc x) y (suc fx) zero h k = absurd (omega arith)
  digits-agree (suc x) y (suc fx) (suc fy) h k =
      rw (digits-agree (suc x / 2) (y / 2) fx fy (omega arith) (omega arith))

  -- One digit off the low end of both numbers.
  bitwise_low :
      (x y : ℕ)
      → bitwise rest digit (suc x) y
        ≡ bitwise rest digit (suc x / 2) (y / 2) * 2 + digit (suc x % 2) (y % 2)
  bitwise_low x y = rw (digits-agree (suc x / 2) (y / 2) x (suc x / 2) (omega arith) (omega arith))

pub bit_and_low : (x y : ℕ) → bit_and x y ≡ bit_and (x / 2) (y / 2) * 2 + min (x % 2) (y % 2)
bit_and_low zero y = simp bit_and-bitwise (omega arith)
bit_and_low (suc x) y = simp bit_and-bitwise (bitwise_low (λ b. 0) min x y)

pub bit_or_low : (x y : ℕ) → bit_or x y ≡ bit_or (x / 2) (y / 2) * 2 + max (x % 2) (y % 2)
bit_or_low zero y = simp bit_or-bitwise (omega arith)
bit_or_low (suc x) y = simp bit_or-bitwise (bitwise_low (λ b. b) max x y)

differ_bit : (x y : ℕ) → x < 2 → y < 2 → differ x y < 2
differ_bit zero y h k = k
differ_bit (suc x) zero h k = h
differ_bit (suc zero) (suc y) h k = omega arith
differ_bit (suc (suc x)) (suc y) h k = absurd (omega arith)

bit_xor_low : (x y : ℕ) → bit_xor x y ≡ bit_xor (x / 2) (y / 2) * 2 + differ (x % 2) (y % 2)
bit_xor_low zero y = simp bit_xor-bitwise (omega arith)
bit_xor_low (suc x) y = simp bit_xor-bitwise (bitwise_low (λ b. b) differ x y)

-- `^` of two w-bit numbers has w bits.
pub bit_xor-lt : (w x y : ℕ) → x < 2 ^ w → y < 2 ^ w → bit_xor x y < 2 ^ w
bit_xor-lt zero zero y h k = simp bit_xor-bitwise (omega arith)
bit_xor-lt zero (suc x) y h k = absurd (omega arith)
bit_xor-lt (suc w) x y h k = ground (
  arith,
  bit_xor_low x y,
  pow-suc 2 w,
  differ_bit (x % 2) (y % 2) (omega arith) (omega arith),
  bit_xor-lt w (x / 2) (y / 2),
)

pub bit_and-zero_fuel : (n x : ℕ) → x ≤ n → bit_and x 0 ≡ 0
bit_and-zero_fuel zero x h = ground (arith, bit_and-bitwise 0 0)
bit_and-zero_fuel (suc n) zero h = bit_and-bitwise 0 0
bit_and-zero_fuel (suc n) (suc x) h =
    omega (arith, bit_and_low (suc x) 0, bit_and-zero_fuel n (suc x / 2) (omega arith))

bit_or-zero_fuel : (n x : ℕ) → x ≤ n → bit_or x 0 ≡ x
bit_or-zero_fuel zero x h = ground (arith, bit_or-bitwise 0 0)
bit_or-zero_fuel (suc n) zero h = bit_or-bitwise 0 0
bit_or-zero_fuel (suc n) (suc x) h =
    omega (arith, bit_or_low (suc x) 0, bit_or-zero_fuel n (suc x / 2) (omega arith))

-- A mask of low ones is a remainder: one digit at a time up to a byte.
mask_1 : (x : ℕ) → bit_and x 1 ≡ x % 2
mask_1 x = omega (arith, bit_and_low x 1, bit_and-zero_fuel (x / 2) (x / 2) (omega arith))

mask_3 : (x : ℕ) → bit_and x 3 ≡ x % 4
mask_3 x = omega (arith, bit_and_low x 3, mask_1 (x / 2))

mask_7 : (x : ℕ) → bit_and x 7 ≡ x % 8
mask_7 x = omega (arith, bit_and_low x 7, mask_3 (x / 2))

mask_15 : (x : ℕ) → bit_and x 15 ≡ x % 16
mask_15 x = omega (arith, bit_and_low x 15, mask_7 (x / 2))

mask_31 : (x : ℕ) → bit_and x 31 ≡ x % 32
mask_31 x = omega (arith, bit_and_low x 31, mask_15 (x / 2))

mask_63 : (x : ℕ) → bit_and x 63 ≡ x % 64
mask_63 x = omega (arith, bit_and_low x 63, mask_31 (x / 2))

mask_127 : (x : ℕ) → bit_and x 127 ≡ x % 128
mask_127 x = omega (arith, bit_and_low x 127, mask_63 (x / 2))

pub mask_byte : (x : ℕ) → bit_and x 255 ≡ x % 256
mask_byte x = omega (arith, bit_and_low x 255, mask_127 (x / 2))

shift_suc : (hi w : ℕ) → hi * 2 ^ suc w ≡ 2 * (hi * 2 ^ w)
shift_suc hi w = omega (arith, ap (λ (t : ℕ). hi * t) (pow-suc 2 w))

-- Fields that do not overlap add up under `|`, whichever stands first.
pub bit_or_low_high : (w lo hi : ℕ) → lo < 2 ^ w → bit_or lo (hi * 2 ^ w) ≡ lo + hi * 2 ^ w
bit_or_low_high zero zero hi h = ground (arith, bit_or-bitwise 0 (hi * 2 ^ 0))
bit_or_low_high zero (suc lo) hi h = absurd (omega arith)
bit_or_low_high (suc w) lo hi h = ground (
  arith,
  bit_or_low lo (hi * 2 ^ suc w),
  shift_suc hi w,
  pow-suc 2 w,
  bit_or_low_high w (lo / 2) hi,
)

pub bit_or_high_low : (w hi lo : ℕ) → lo < 2 ^ w → bit_or (hi * 2 ^ w) lo ≡ hi * 2 ^ w + lo
bit_or_high_low zero hi zero h = ground (arith, bit_or-zero_fuel (hi * 1) (hi * 1) (omega arith))
bit_or_high_low zero hi (suc lo) h = absurd (omega arith)
bit_or_high_low (suc w) hi lo h = ground (
  arith,
  bit_or_low (hi * 2 ^ suc w) lo,
  shift_suc hi w,
  pow-suc 2 w,
  bit_or_high_low w hi (lo / 2),
)
