-- ===== src/Modbus/Frame.antt =====
-- src/core/modbus_core.cpp: the checksum and the framing of Modbus RTU. A byte is a number below
-- 256, and a `uint16_t` one below 2 ^ 16; the casts keep them there.
use serial_value_matcher_nat.Base.{
  ℕ, zero, suc, ◌-◌, ◌*◌, ◌/◌, ◌%◌, ◌^◌, String, Bool, true, false, not, List, [], ◌∷◌, ◌++◌, ltb,
  leb, ◌==◌, if◌then◌else◌, length, get_or, take, text_append,
}
use serial_value_matcher_nat.Base.Decimal.{digit_text}
use Prim.Native.Nat.{bit_and, bit_or, bit_xor}

pub record RtuFrameCheck : Type 0 where
  pub ok : Bool
  pub error_message : String
  pub body_without_crc : List ℕ
  pub actual_crc : ℕ
  pub expected_crc : ℕ

abbrev pub minimum_rtu_frame_size : ℕ
minimum_rtu_frame_size = 4

-- One round of the inner loop: shift a bit out, and fold the polynomial in if it was set.
unfoldable pub crc_bit : ℕ → ℕ
crc_bit crc =
    let lsb_set = not (bit_and crc 0x0001 == 0) in
    if lsb_set then bit_xor (crc / 2) 0xA001 else crc / 2

unfoldable pub crc_bits : ℕ → ℕ → ℕ
unfolding crc_bit
crc_bits zero crc = crc
crc_bits (suc bits) crc = crc_bits bits (crc_bit crc)

unfoldable pub crc_bytes : ℕ → List ℕ → ℕ
unfolding crc_bits
crc_bytes crc [] = crc
crc_bytes crc (byte ∷ bytes) = crc_bytes (crc_bits 8 (bit_xor crc byte)) bytes

unfoldable pub crc16_modbus : List ℕ → ℕ
unfolding crc_bytes
crc16_modbus bytes = crc_bytes 0xFFFF bytes

unfoldable pub append_crc16_modbus : List ℕ → List ℕ
unfolding crc16_modbus
append_crc16_modbus body =
    let crc = crc16_modbus body in
    body ++ (bit_and crc 0x00FF % 2 ^ 8 ∷ bit_and (crc / 2 ^ 8) 0x00FF % 2 ^ 8 ∷ [])

unfoldable pub body_without_crc : List ℕ → List ℕ
body_without_crc frame = if leb (length frame) 2 then [] else take (length frame - 2) frame

unfoldable pub read_frame_crc_little_endian : List ℕ → ℕ
read_frame_crc_little_endian frame =
    if ltb (length frame) 2
    then 0
    else bit_or (get_or frame (length frame - 2) 0) (get_or frame (length frame - 1) 0 * 2 ^ 8)
      % 2 ^ 16

abbrev pub no_check : RtuFrameCheck
no_check = record {
  ok = false;
  error_message = "";
  body_without_crc = [];
  actual_crc = 0;
  expected_crc = 0;
}

unfoldable pub validate_rtu_frame : List ℕ → RtuFrameCheck
unfolding body_without_crc read_frame_crc_little_endian crc16_modbus
validate_rtu_frame frame =
    if ltb (length frame) minimum_rtu_frame_size
    then record no_check { error_message = "RTU frame is too short." }
    else let checked : RtuFrameCheck = record no_check {
      body_without_crc = body_without_crc frame;
      actual_crc = read_frame_crc_little_endian frame;
      expected_crc = crc16_modbus (body_without_crc frame);
    } in
      if checked.actual_crc == checked.expected_crc
      then record checked { ok = true }
      else record checked { error_message = "RTU CRC check failed." }

-- One hexadecimal digit in capitals, and `%04X` behind "0x".
abbrev pub hex_digit_text : ℕ → String
hex_digit_text d =
    if d == 10
    then "A"
    else if d == 11
    then "B"
    else if d == 12
    then "C"
    else if d == 13
    then "D"
    else if d == 14
    then "E"
    else if d == 15
    then "F"
    else digit_text d

unfoldable pub format_crc16 : ℕ → String
format_crc16 value =
    let low = text_append (hex_digit_text (value / 16 % 16)) (hex_digit_text (value % 16)) in
    let high =
      text_append (hex_digit_text (value / 4096 % 16)) (hex_digit_text (value / 256 % 16)) in
    text_append "0x" (text_append high low)
