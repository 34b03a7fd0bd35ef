-- ===== src/Modbus/RequestLaws.antt =====
-- Which read requests are built, and what their frames hold.
use serial_value_matcher_nat.Base.{
  ℕ, ◌+◌, ◌/◌, ◌%◌, ◌^◌, ◌≤◌, ◌<◌, ◌≡◌, refl, ◌↔◌, ◌⊎◌, true, List, [], ◌∷◌, ◌++◌, arith, ℤ, ◌+ℤ◌,
  ◌-ℤ◌, ◌≤ℤ◌, pos-add, pos,
}
use serial_value_matcher_nat.Base.Bits.{mask_byte}
use serial_value_matcher_nat.Modbus.Frame.{append_crc16_modbus, validate_rtu_frame}
use serial_value_matcher_nat.Modbus.FrameLaws.{validate-append}
use serial_value_matcher_nat.Modbus.Request.{request_body, build_read_request}

-- A read that the protocol allows, of a unicast slave.
pub record IsReadable (slave_id : ℤ) (function_code : ℕ) (start_address quantity : ℤ) : Type 0 where
  pub slave_low : pos 1 ≤ℤ slave_id
  pub slave_high : slave_id ≤ℤ pos 247
  pub function_read : (function_code ≡ 3) ⊎ (function_code ≡ 4)
  pub start_low : pos 0 ≤ℤ start_address
  pub quantity_low : pos 1 ≤ℤ quantity
  pub quantity_high : quantity ≤ℤ pos 125
  pub range_high : start_address +ℤ quantity ≤ℤ pos (2 ^ 16)

-- A request is built exactly for a read of 1 to 125 registers by a read function from a unicast
-- slave, all of them within the address space.
pub build_read_request_iff :
    (slave_id : ℤ) (function_code : ℕ) (start_address quantity : ℤ)
    → ((build_read_request slave_id function_code start_address quantity).ok ≡ true)
      ↔ IsReadable slave_id function_code start_address quantity
unfolding build_read_request ◌+ℤ◌ ◌-ℤ◌
build_read_request_iff slave_id function_code start_address quantity = ground arith

abbrev pub word_bytes : ℕ → List ℕ
word_bytes n = n / 256 ∷ n % 256 ∷ []

abbrev pub asked : ℕ → ℕ → ℕ → ℕ → List ℕ
asked slave function_code start quantity =
    slave ∷ function_code ∷ word_bytes start ++ word_bytes quantity

build_read_request-frame :
    (slave_id : ℤ) (function_code : ℕ) (start_address quantity : ℤ)
    → let r = build_read_request slave_id function_code start_address quantity in
      r.ok ≡ true
      → r.frame ≡ append_crc16_modbus (request_body slave_id function_code start_address quantity)
unfolding build_read_request
build_read_request-frame slave_id function_code start_address quantity h = ground arith

request_body-asked :
    (slave function_code start quantity : ℕ)
    → slave < 256
    → start < 2 ^ 16
    → quantity < 2 ^ 16
    → request_body (pos slave) function_code (pos start) (pos quantity)
      ≡ asked slave function_code start quantity
unfolding request_body
request_body-asked slave function_code start quantity h k l = ground (
  arith,
  mask_byte start,
  mask_byte (start / 256),
  mask_byte quantity,
  mask_byte (quantity / 256),
)

IsReadable-fits :
    (slave function_code start quantity : ℕ)
    → IsReadable (pos slave) function_code (pos start) (pos quantity)
    → (function_code < 256) × (start + quantity ≤ 2 ^ 16)
IsReadable-fits slave function_code start quantity r =
    let high = rw pos-add at r.range_high in (ground (arith, r.function_read), omega (arith, high))

-- The frame of an allowed read validates, and its body is the slave, the function, the first
-- address and the quantity, the last two with their high byte first.
pub build_read_request-validates :
    (slave function_code start quantity : ℕ)
    → IsReadable (pos slave) function_code (pos start) (pos quantity)
    → let check =
        validate_rtu_frame
          (build_read_request (pos slave) function_code (pos start) (pos quantity)).frame in
      (check.ok ≡ true)
      × (check.body_without_crc ≡ slave ∷ function_code ∷ word_bytes start ++ word_bytes quantity)
build_read_request-validates slave function_code start quantity r =
    let f = IsReadable-fits slave function_code start quantity r in
    let ok = (build_read_request_iff (pos slave) function_code (pos start) (pos quantity)).1 r in
    let body = asked slave function_code start quantity in
    let valid =
      validate-append body (omega (arith, f.0, f.1, r.slave_high, r.quantity_high, r.quantity_low))
        (omega arith) in
    rw
      (
        build_read_request-frame (pos slave) function_code (pos start) (pos quantity) ok,
        request_body-asked slave function_code start quantity (omega (arith, r.slave_high))
            (omega (arith, f.1, r.quantity_low)) (omega (arith, r.quantity_high)),
        valid,
      )
      (refl, refl)
