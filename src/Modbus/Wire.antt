-- ===== src/Modbus/Wire.antt =====
-- From the bytes of a frame back to what they write: the body with its checksum, and the registers.
use serial_value_matcher_nat.Base.{
  ℕ, zero, suc, ◌+◌, ◌*◌, ◌≤◌, ◌<◌, ◌≡◌, refl, sym, ap, ◌∙◌, true, List, [], ◌∷◌, ◌++◌, arith,
  length, length-append, get_or-append_right, ℤ,
}
use mathlib.Core.Path.{subst, ap₂}
use mathlib.Core.List.{append_assoc}
use Prim.{tt}
use serial_value_matcher_nat.Base.Bits.{bit_or_high_low}
use serial_value_matcher_nat.Modbus.Frame.{
  crc16_modbus, append_crc16_modbus, body_without_crc, read_frame_crc_little_endian,
  validate_rtu_frame,
}
use serial_value_matcher_nat.Modbus.FrameLaws.{
  IsBytes, append_crc16_modbus_lem, body_without_crc-append, read_frame_crc-append,
}
use serial_value_matcher_nat.Modbus.Response.{read_uint16_big_endian, read_registers, values}
use serial_value_matcher_nat.Modbus.ResponseLaws.{register_bytes}

last_two :
    (frame : List ℕ)
    → IsBytes frame
    → 2 ≤ length frame
    → (body : List ℕ) × (x : ℕ) × (y : ℕ) × (frame ≡ body ++ (x ∷ y ∷ []))
      × IsBytes body
      × (x < 256)
      × (y < 256)
last_two [] b h = absurd (omega arith)
last_two (x ∷ []) b h = absurd (omega arith)
last_two (x ∷ y ∷ []) b h = ([], x, y, refl, tt, b.0, b.1.0)
last_two (a ∷ x ∷ y ∷ frame) b h =
    let later = last_two (x ∷ y ∷ frame) b.1 (omega arith) in
    (a ∷ later.0, later.1, later.2, ap (◌∷◌ a) later.3, (b.0, later.4), later.5, later.6)

validated_parts :
    (frame : List ℕ)
    → (validate_rtu_frame frame).ok ≡ true
    → (4 ≤ length frame)
      × ((validate_rtu_frame frame).body_without_crc ≡ body_without_crc frame)
      × (read_frame_crc_little_endian frame ≡ crc16_modbus (body_without_crc frame))
unfolding validate_rtu_frame
validated_parts frame h = ground arith

framed_ok :
    (body : List ℕ) (x y : ℕ)
    → IsBytes body
    → x < 256
    → y < 256
    → (validate_rtu_frame (body ++ (x ∷ y ∷ []))).ok ≡ true
    → ((validate_rtu_frame (body ++ (x ∷ y ∷ []))).body_without_crc ≡ body)
      × (body ++ (x ∷ y ∷ []) ≡ append_crc16_modbus body)
framed_ok body x y b h k ok =
    let parts = validated_parts (body ++ (x ∷ y ∷ [])) ok in
    let same = body_without_crc-append body x y in
    let crc : x + y * 256 ≡ crc16_modbus body =
      sym (read_frame_crc-append body x y h k) ∙ parts.2 ∙ ap crc16_modbus same in
    (
      parts.1 ∙ same,
      ap (λ t. body ++ t) (ap₂ (λ u v. u ∷ v ∷ []) (omega (arith, crc)) (omega (arith, crc)))
          ∙ sym (append_crc16_modbus_lem body b),
    )

-- A frame of bytes that passes is its body with the body's checksum behind it.
pub validated-append :
    (frame : List ℕ)
    → IsBytes frame
    → (validate_rtu_frame frame).ok ≡ true
    → (frame ≡ append_crc16_modbus (validate_rtu_frame frame).body_without_crc)
      × IsBytes (validate_rtu_frame frame).body_without_crc
validated-append frame b ok =
    let long = validated_parts frame ok in
    let split = last_two frame b (omega (arith, long.0)) in
    let framed =
      framed_ok split.0 split.1 split.2 split.4 split.5 split.6
        (subst (λ t. (validate_rtu_frame t).ok ≡ true) split.3 ok) in
    let body : (validate_rtu_frame frame).body_without_crc ≡ split.0 =
      ap (λ t. (validate_rtu_frame t).body_without_crc) split.3 ∙ framed.0 in
    (split.3 ∙ framed.1 ∙ ap append_crc16_modbus (sym body), subst IsBytes (sym body) split.4)

read_uint16_lem :
    (before rest : List ℕ) (high low : ℕ)
    → high < 256
    → low < 256
    → read_uint16_big_endian (before ++ (high ∷ low ∷ rest)) (length before) ≡ high * 256 + low
unfolding read_uint16_big_endian
read_uint16_lem before rest high low h k =
    let first = get_or-append_right before (high ∷ low ∷ rest) 0 0 in
    let second = get_or-append_right before (high ∷ low ∷ rest) 1 0 in
    let here : length before ≡ length before + 0 = omega arith in
    rw second (rw here (rw first (omega (arith, bit_or_high_low 8 high low (omega arith)))))

-- The registers that are read are those that the bytes write, high byte first.
pub register_bytes-read_registers :
    (before rest : List ℕ) (start : ℤ) (index left : ℕ)
    → length before ≡ 3 + index * 2
    → IsBytes rest
    → length rest ≡ 2 * left
    → register_bytes (values (read_registers (before ++ rest) start index left)) ≡ rest
unfolding read_registers
register_bytes-read_registers before [] start index zero e b h = refl
register_bytes-read_registers before [] start index (suc left) e b h = absurd (omega (arith, h))
register_bytes-read_registers before (x ∷ []) start index left e b h = absurd (omega (arith, h))
register_bytes-read_registers before (x ∷ y ∷ rest) start index zero e b h =
    absurd (omega (arith, h))
register_bytes-read_registers before (x ∷ y ∷ rest) start index (suc left) e b h =
    let word = read_uint16_lem before rest x y b.0 b.1.0 in
    let longer : length (before ++ (x ∷ y ∷ [])) ≡ 3 + (index + 1) * 2 =
      omega (arith, length-append {0} before (x ∷ y ∷ []), e) in
    let later =
      register_bytes-read_registers (before ++ (x ∷ y ∷ [])) rest start (index + 1) left longer
        b.1.1 (omega (arith, h)) in
    let moved =
      ap (λ t. register_bytes (values (read_registers t start (index + 1) left)))
        (sym (append_assoc before (x ∷ y ∷ []) rest)) in
    rw (← e, word, moved ∙ later) (ap₂ (λ u v. u ∷ v ∷ rest) (omega (arith, b)) (omega (arith, b)))
