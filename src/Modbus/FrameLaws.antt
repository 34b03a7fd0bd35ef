-- ===== src/Modbus/FrameLaws.antt =====
-- The checksum fits its 16 bits, and a frame that was built is a frame that validates.
use serial_value_matcher_nat.Base.{
  ℕ, zero, suc, ◌+◌, ◌-◌, ◌*◌, ◌/◌, ◌%◌, ◌^◌, ◌≤◌, ◌<◌, ◌≡◌, refl, ap, inl, inr, true, List, [],
  ◌∷◌, ◌++◌, arith, leb, Bool-cases, length, get_or, All, length-append, take-length-append,
  get_or-append_right,
}
use serial_value_matcher_nat.Modbus.Frame.{
  crc_bit, crc_bits, crc_bytes, crc16_modbus, append_crc16_modbus, body_without_crc,
  read_frame_crc_little_endian, validate_rtu_frame,
}
use Prim.Native.Nat.{bit_xor}
use mathlib.Core.Path.{ap₂}
use serial_value_matcher_nat.Base.Bits.{bit_xor-lt, mask_byte, bit_or_low_high}

abbrev pub IsBytes : List ℕ → Type 0
IsBytes = All (λ b. b < 256)

crc_bit-lt : (crc : ℕ) → crc < 2 ^ 16 → crc_bit crc < 2 ^ 16
unfolding crc_bit
crc_bit-lt crc h = ground (arith, bit_xor-lt 16 (crc / 2) 0xA001)

crc_bits-lt : (bits crc : ℕ) → crc < 2 ^ 16 → crc_bits bits crc < 2 ^ 16
unfolding crc_bits
crc_bits-lt zero crc h = h
crc_bits-lt (suc bits) crc h = crc_bits-lt bits (crc_bit crc) (crc_bit-lt crc h)

crc_bytes-lt :
    (crc : ℕ) (bytes : List ℕ) → crc < 2 ^ 16 → IsBytes bytes → crc_bytes crc bytes < 2 ^ 16
unfolding crc_bytes
crc_bytes-lt crc [] h b = h
crc_bytes-lt crc (byte ∷ bytes) h b =
    crc_bytes-lt (crc_bits 8 (bit_xor crc byte)) bytes
      (crc_bits-lt 8 (bit_xor crc byte) (bit_xor-lt 16 crc byte h (omega arith))) b.1

pub crc16_modbus-lt : (bytes : List ℕ) → IsBytes bytes → crc16_modbus bytes < 2 ^ 16
unfolding crc16_modbus
crc16_modbus-lt bytes b = crc_bytes-lt 0xFFFF bytes (omega arith) b

no_body : (body : List ℕ) → length body ≡ 0 → [] ≡ body
no_body [] h = refl
no_body (b ∷ body) h = absurd (omega arith)

-- The low byte of a checksum, then the high one.
abbrev pub crc_trailer : ℕ → List ℕ
crc_trailer crc = crc % 256 ∷ crc / 256 ∷ []

pub append_crc16_modbus_lem :
    (body : List ℕ)
    → IsBytes body
    → append_crc16_modbus body ≡ body ++ crc_trailer (crc16_modbus body)
unfolding append_crc16_modbus
append_crc16_modbus_lem body b =
    let crc = crc16_modbus body in
    ap (λ t. body ++ t)
      (ap₂ (λ x y. x ∷ y ∷ []) (omega (arith, mask_byte crc))
        (omega (arith, mask_byte (crc / 256), crc16_modbus-lt body b)))

module _ (body : List ℕ) (x y : ℕ) where
  framed_length : length (body ++ x ∷ y ∷ []) ≡ length body + 2
  framed_length = length-append body (x ∷ y ∷ [])

  pub body_without_crc-append : body_without_crc (body ++ x ∷ y ∷ []) ≡ body
  unfolding body_without_crc
  body_without_crc-append = elim (Bool-cases (leb (length (body ++ x ∷ y ∷ [])) 2)) [
    | inl short ↦ rw short (no_body body (ground (arith, framed_length)))
    | inr more ↦ rw more (rw all_but_two (take-length-append body (x ∷ y ∷ [])))
  ]
    where
      all_but_two : length (body ++ x ∷ y ∷ []) - 2 ≡ length body
      all_but_two = omega (arith, framed_length)

  low_byte : get_or (body ++ x ∷ y ∷ []) (length (body ++ x ∷ y ∷ []) - 2) 0 ≡ x
  low_byte = rw at_end (get_or-append_right body (x ∷ y ∷ []) 0 0)
    where
      at_end : length (body ++ x ∷ y ∷ []) - 2 ≡ length body + 0
      at_end = omega (arith, framed_length)

  high_byte : get_or (body ++ x ∷ y ∷ []) (length (body ++ x ∷ y ∷ []) - 1) 0 ≡ y
  high_byte = rw at_end (get_or-append_right body (x ∷ y ∷ []) 1 0)
    where
      at_end : length (body ++ x ∷ y ∷ []) - 1 ≡ length body + 1
      at_end = omega (arith, framed_length)

  pub read_frame_crc-append :
      x < 256 → y < 256 → read_frame_crc_little_endian (body ++ x ∷ y ∷ []) ≡ x + y * 256
  unfolding read_frame_crc_little_endian
  read_frame_crc-append h k =
      rw (low_byte, high_byte) (ground (arith, framed_length, bit_or_low_high 8 x y))

-- A body of two bytes or more, framed with its checksum, validates, and the check hands back the
-- body and equal checksums.
pub validate-append :
    (body : List ℕ)
    → IsBytes body
    → 2 ≤ length body
    → validate_rtu_frame (append_crc16_modbus body) ≡ record {
      ok = true;
      error_message = "";
      body_without_crc = body;
      actual_crc = crc16_modbus body;
      expected_crc = crc16_modbus body;
    }
unfolding validate_rtu_frame
validate-append body b long =
    rw (append_crc16_modbus_lem body b)
      (rw (body_without_crc-append body lo hi, read) (ground (arith, framed_length body lo hi)))
  where
    lo : ℕ
    lo = crc16_modbus body % 256

    hi : ℕ
    hi = crc16_modbus body / 256

    read : read_frame_crc_little_endian (body ++ lo ∷ hi ∷ []) ≡ crc16_modbus body
    read = omega (arith, read_frame_crc-append body lo hi, crc16_modbus-lt body b)
