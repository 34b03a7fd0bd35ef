-- ===== src/Modbus/Accepted.antt =====
-- What an accepted response guarantees, and how device exceptions are reported.
use serial_value_matcher_nat.Base.{
  ℕ, zero, suc, ◌+◌, ◌/◌, ◌%◌, ◌^◌, ◌≤◌, ◌<◌, ◌≡◌, refl, sym, ap, ◌∙◌, true, false, List, [], ◌∷◌,
  arith, length, get_or, ℤ, ◌≤ℤ◌, cast_mod, pos-add, pos-sub, pos, negsuc,
}
use serial_value_matcher_nat.Modbus.Frame.{append_crc16_modbus, validate_rtu_frame}
use serial_value_matcher_nat.Modbus.Response.{
  RegisterObservation, ParseReadResponseResult, read_registers, values, parse_checked_body,
  parse_read_response,
}
use mathlib.Core.Path.{ap₂}
use serial_value_matcher_nat.Modbus.FrameLaws.{IsBytes}
use serial_value_matcher_nat.Modbus.Wire.{validated-append, register_bytes-read_registers}
use serial_value_matcher_nat.Modbus.ResponseLaws.{
  IsExpected, parse_read_response-append, reply_body, register_bytes, numbered, exception_function,
}

length-read_registers :
    (body : List ℕ) (start : ℤ) (index left : ℕ)
    → length (read_registers body start index left) ≡ left
unfolding read_registers
length-read_registers body start index zero = refl
length-read_registers body start index (suc left) =
    ap suc (length-read_registers body start (index + 1) left)

length-values : (os : List RegisterObservation) → length (values os) ≡ length os
length-values [] = refl
length-values (o ∷ os) = ap suc (length-values os)

-- The addresses count up from the first.
read_registers-numbered :
    (body : List ℕ) (start index left : ℕ)
    → start + index + left ≤ 2 ^ 16
    → let os = read_registers body (pos start) index left in
      os ≡ numbered (start + index) (values os)
unfolding read_registers
read_registers-numbered body start index zero h = refl
read_registers-numbered body start index (suc left) h =
    let next : start + (index + 1) ≡ start + index + 1 = omega arith in
    ground (
      arith,
      pos-add start index,
      next,
      read_registers-numbered body start (index + 1) left (omega arith),
    )

-- A body that is accepted: what it says, and that it is a reply with the registers it is read as.
pub record IsReplyTo (body : List ℕ) (slave_id : ℤ) (function_code : ℕ) (start_address quantity : ℤ)
    (r : ParseReadResponseResult) : Type 0 where
  pub same_slave : r.slave_id ≡ cast_mod (2 ^ 8) slave_id
  pub same_function : r.function_code ≡ function_code
  pub no_exception : r.is_exception ≡ false
  pub body_kept : r.body_without_crc ≡ body
  pub written : body ≡ reply_body r.slave_id r.function_code r.registers
  pub whole : pos (length r.registers) ≡ quantity
  pub placed :
      (start : ℕ) × (start_address ≡ pos start)
      × (start + length r.registers ≤ 2 ^ 16)
      × (r.observations ≡ numbered start r.registers)

module _ (body : List ℕ) (slave_id : ℤ) (function_code start : ℕ) (quantity : ℤ)
    (taken : (parse_checked_body body slave_id function_code (pos start) quantity).ok ≡ true) where
  told : ParseReadResponseResult
  told = parse_checked_body body slave_id function_code (pos start) quantity

  seen : List RegisterObservation
  seen = read_registers body (pos start) 0 (get_or body 2 0 / 2)

  told_seen : (told.observations ≡ seen) × (told.registers ≡ values seen)
  unfolding told seen parse_checked_body
  told_seen = ground arith

  counted_quantity : pos (get_or body 2 0 / 2) ≡ quantity
  unfolding parse_checked_body
  counted_quantity = ground arith

  in_range : 1 ≤ get_or body 2 0 / 2 → start + get_or body 2 0 / 2 ≤ 2 ^ 16
  unfolding parse_checked_body
  in_range few = ground (
    arith,
    pos-add start (get_or body 2 0 / 2),
    pos-sub (start + get_or body 2 0 / 2) 1 (omega arith),
  )

  length-told : length told.registers ≡ get_or body 2 0 / 2
  unfolding seen
  length-told =
      ap length told_seen.1
      ∙ length-values seen
      ∙ length-read_registers body (pos start) 0 (get_or body 2 0 / 2)

  told_numbered :
      start + get_or body 2 0 / 2 ≤ 2 ^ 16 → told.observations ≡ numbered start told.registers
  unfolding seen
  told_numbered fits =
      told_seen.0
      ∙ read_registers-numbered body start 0 (get_or body 2 0 / 2) (omega arith)
      ∙ ap₂ numbered (omega arith) (sym told_seen.1)

  parse_checked_body_ok :
      3 ≤ length body
      → pos 1 ≤ℤ quantity
      → body ≡ reply_body told.slave_id told.function_code told.registers
      → IsReplyTo body slave_id function_code (pos start) quantity told
  unfolding told parse_checked_body
  parse_checked_body_ok long wanted written =
      let enough : 1 ≤ get_or body 2 0 / 2 = ground (arith, counted_quantity) in
      record {
        same_slave = ground arith;
        same_function = ground arith;
        no_exception = ground arith;
        body_kept = ground arith;
        written = written;
        whole = ap pos length-told ∙ counted_quantity;
        placed = (start, refl, rw length-told (in_range enough), told_numbered (in_range enough));
      }

-- The bytes of an accepted body are those of a reply with its registers.
body_written :
    (body : List ℕ) (slave_id : ℤ) (function_code start : ℕ) (quantity : ℤ)
    → (parse_checked_body body slave_id function_code (pos start) quantity).ok ≡ true
    → IsBytes body
    → 3 ≤ length body
    → let r = parse_checked_body body slave_id function_code (pos start) quantity in
      body ≡ reply_body r.slave_id r.function_code r.registers
unfolding parse_checked_body told seen
body_written [] slave_id function_code start quantity ok b long = absurd (omega arith)
body_written (s ∷ []) slave_id function_code start quantity ok b long = absurd (omega arith)
body_written (s ∷ f ∷ []) slave_id function_code start quantity ok b long = absurd (omega arith)
body_written (s ∷ f ∷ c ∷ rest) slave_id function_code start quantity ok b long =
    let counted : c ≡ length rest = ground (arith, ok) in
    let even : c % 2 ≡ 0 = ground (arith, ok) in
    let count = length-told (s ∷ f ∷ c ∷ rest) slave_id function_code start quantity ok in
    let bytes =
      ap register_bytes (told_seen (s ∷ f ∷ c ∷ rest) slave_id function_code start quantity ok).1
      ∙ register_bytes-read_registers (s ∷ f ∷ c ∷ []) rest (pos start) 0 (c / 2) (omega arith)
          b.1.1.1 (omega (arith, counted, even)) in
    let slave : s
        ≡ (parse_checked_body (s ∷ f ∷ c ∷ rest) slave_id function_code (pos start)
            quantity).slave_id =
      ground (arith, ok) in
    let code : f
        ≡ (parse_checked_body (s ∷ f ∷ c ∷ rest) slave_id function_code (pos start)
            quantity).function_code =
      ground (arith, ok) in
    ap₂ ◌∷◌ slave (ap₂ ◌∷◌ code (ap₂ ◌∷◌ (omega (arith, count, even)) (sym bytes)))

-- The checks before the body: the frame's, the length's and the arguments'.
parse_read_response_enters :
    (frame : List ℕ) (slave_id : ℤ) (function_code : ℕ) (start_address quantity : ℤ)
    → (parse_read_response frame slave_id function_code start_address quantity).ok ≡ true
    → let check = validate_rtu_frame frame in
      (check.ok ≡ true)
      × (3 ≤ length check.body_without_crc)
      × (parse_read_response frame slave_id function_code start_address quantity
          ≡ parse_checked_body check.body_without_crc slave_id function_code start_address quantity)
unfolding parse_read_response
parse_read_response_enters frame slave_id function_code start_address quantity h = ground arith

parse_read_response-IsExpected :
    (frame : List ℕ) (slave_id : ℤ) (function_code : ℕ) (start_address quantity : ℤ)
    → (parse_read_response frame slave_id function_code start_address quantity).ok ≡ true
    → IsExpected slave_id function_code start_address quantity
unfolding parse_read_response
parse_read_response-IsExpected frame slave_id function_code start_address quantity h = ground arith

-- A response of bytes that is accepted is, for arguments in range, a reply of the expected slave and
-- function with its checksum behind it: the registers reported are those that the frame's bytes
-- write, as many as were asked for, under consecutive addresses of the address space from the first
-- one on.
pub parse_read_response_ok :
    (frame : List ℕ) (slave_id : ℤ) (function_code : ℕ) (start_address quantity : ℤ)
    → IsBytes frame
    → (parse_read_response frame slave_id function_code start_address quantity).ok ≡ true
    → IsExpected slave_id function_code start_address quantity
      × ((body : List ℕ) × (frame ≡ append_crc16_modbus body)
          × IsReplyTo body slave_id function_code start_address quantity
              (parse_read_response frame slave_id function_code start_address quantity))
unfolding told
parse_read_response_ok frame slave_id function_code (pos start) quantity b h =
    let e = parse_read_response_enters frame slave_id function_code (pos start) quantity h in
    let x = parse_read_response-IsExpected frame slave_id function_code (pos start) quantity h in
    let body = (validate_rtu_frame frame).body_without_crc in
    let framed = validated-append frame b e.0 in
    let taken = rw e.2 at h in
    let written = body_written body slave_id function_code start quantity taken framed.1 e.1 in
    (
      x,
      (
        body,
        framed.0,
        rw e.2 (
            parse_checked_body_ok body slave_id function_code start quantity taken e.1
              x.quantity_low written),
      ),
    )
parse_read_response_ok frame slave_id function_code (negsuc n) quantity b h = absurd (
    omega (
      arith,
      (parse_read_response-IsExpected frame slave_id function_code (negsuc n) quantity h).start_low,
    ))

-- A device's exception to a read from an expected slave is reported as one, with its code, and is
-- no success.
pub parse-exception :
    (slave function_code code : ℕ) (start_address quantity : ℤ)
    → IsExpected (pos slave) function_code start_address quantity
    → code < 256
    → let r =
        parse_read_response
          (append_crc16_modbus (slave ∷ (function_code + 128) ∷ code ∷ []))
          (pos slave)
          function_code
          start_address
          quantity in
      (r.ok ≡ false) × (r.is_exception ≡ true) × (r.exception_code ≡ code) × (r.observations ≡ [])
unfolding parse_checked_body
parse-exception slave function_code code start_address quantity e h =
    let body : List ℕ = slave ∷ (function_code + 128) ∷ code ∷ [] in
    rw
      (parse_read_response-append body (pos slave) function_code start_address quantity
        (ground arith) (omega arith) e)
      (ground (arith, exception_function function_code e.function_read))
