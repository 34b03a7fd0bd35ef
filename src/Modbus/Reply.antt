-- ===== src/Modbus/Reply.antt =====
-- The round trip of a device's reply through the parser.
use serial_value_matcher_nat.Base.{
  ℕ, ◌+◌, ◌*◌, ◌/◌, ◌^◌, ◌≤◌, ◌<◌, ◌≡◌, refl, ap, ◌∙◌, true, false, List, [], ◌∷◌, arith, length,
  All, ◌+ℤ◌, ◌-ℤ◌, ltb_ℤ, pos-add, pos-sub, pos,
}
use serial_value_matcher_nat.Modbus.Frame.{append_crc16_modbus}
use serial_value_matcher_nat.Modbus.Request.{maximum_register_address}
use serial_value_matcher_nat.Modbus.Response.{
  read_registers, parse_checked_body, parse_read_response,
}
use serial_value_matcher_nat.Modbus.FrameLaws.{IsBytes}
use serial_value_matcher_nat.Modbus.ResponseLaws.{
  IsExpected, parse_read_response-append, reply_body, numbered, length-register_bytes,
  register_bytes-IsBytes, values-numbered, read_registers-append, exception_function,
}

-- The answer of a device to a read of `length vs` registers, framed: the parser reports exactly
-- those registers under their addresses.
module _ (slave function_code start : ℕ) (vs : List ℕ)
    (expected : IsExpected (pos slave) function_code (pos start) (pos (length vs)))
    (few : length vs ≤ 125) (fits : start + length vs ≤ 2 ^ 16)
    (words : All (λ v. v < 2 ^ 16) vs) where
  reply_body-IsBytes : IsBytes (reply_body slave function_code vs)
  reply_body-IsBytes = (omega arith, (omega arith, (omega arith, register_bytes-IsBytes vs words)))

  checked_reply :
      parse_checked_body
        (reply_body slave function_code vs)
        (pos slave)
        function_code
        (pos start)
        (pos (length vs))
      ≡ record {
        ok = true;
        error_message = "";
        slave_id = slave;
        function_code = function_code;
        is_exception = false;
        exception_code = 0;
        exception_description = "";
        body_without_crc = reply_body slave function_code vs;
        registers = vs;
        observations = numbered start vs;
      }
  unfolding parse_checked_body
  checked_reply = rw (registers_read) (
      ground (
        arith,
        exception_function function_code expected.function_read,
        length-register_bytes vs,
        in_range,
        half,
        values-numbered start vs,
      ))
    where
      half : 2 * length vs / 2 ≡ length vs
      half = omega arith

      registers_read :
          read_registers (reply_body slave function_code vs) (pos start) 0 (2 * length vs / 2)
          ≡ numbered start vs
      registers_read = rw half (
          read_registers-append (slave ∷ function_code ∷ 2 * length vs ∷ []) vs start 0 words refl
            (omega arith)
          ∙ ap (λ s. numbered s vs) (omega arith))

      in_range :
          ltb_ℤ maximum_register_address (pos start +ℤ pos (2 * length vs / 2) -ℤ pos 1) ≡ false
      in_range = rw (half, pos-add, pos-sub (start + length vs) 1 (omega arith)) (ground arith)

  -- A framed reply of at most 125 registers, within the address space, to a read from an expected
  -- slave parses to exactly those registers, each under its address, with no exception.
  pub parse-reply :
      parse_read_response
        (append_crc16_modbus (reply_body slave function_code vs))
        (pos slave)
        function_code
        (pos start)
        (pos (length vs))
      ≡ record {
        ok = true;
        error_message = "";
        slave_id = slave;
        function_code = function_code;
        is_exception = false;
        exception_code = 0;
        exception_description = "";
        body_without_crc = reply_body slave function_code vs;
        registers = vs;
        observations = numbered start vs;
      }
  parse-reply =
      parse_read_response-append (reply_body slave function_code vs) (pos slave) function_code
        (pos start) (pos (length vs)) reply_body-IsBytes (omega arith) expected
      ∙ checked_reply
