-- ===== src/Modbus/Response.antt =====
-- src/core/modbus_core.cpp: `parseReadResponse`, from a received frame to register observations.
use serial_value_matcher_nat.Base.{
  ℕ, zero, suc, ◌+◌, ◌-◌, ◌*◌, ◌/◌, ◌%◌, ◌^◌, String, Bool, true, false, not, ◌||◌, List, [], ◌∷◌,
  ltb, ◌==◌, if◌then◌else◌, length, get_or, ℤ, ◌+ℤ◌, ◌-ℤ◌, ltb_ℤ, eq_ℤ, cast_mod, pos, text_append,
}
use serial_value_matcher_nat.Modbus.Frame.{validate_rtu_frame}
use serial_value_matcher_nat.Modbus.Request.{
  minimum_slave_id, maximum_slave_id, minimum_register_address, maximum_register_address,
  minimum_quantity, is_supported_read_function,
}
use Prim.Native.Nat.{bit_or}

pub record RegisterObservation : Type 0 where
  pub address : ℕ
  pub value : ℕ

pub record ParseReadResponseResult : Type 0 where
  pub ok : Bool
  pub error_message : String
  pub slave_id : ℕ
  pub function_code : ℕ
  pub is_exception : Bool
  pub exception_code : ℕ
  pub exception_description : String
  pub body_without_crc : List ℕ
  pub registers : List ℕ
  pub observations : List RegisterObservation

abbrev pub no_response : ParseReadResponseResult
no_response = record {
  ok = false;
  error_message = "";
  slave_id = 0;
  function_code = 0;
  is_exception = false;
  exception_code = 0;
  exception_description = "";
  body_without_crc = [];
  registers = [];
  observations = [];
}

unfoldable pub fail_response : String → ParseReadResponseResult
fail_response message = record no_response { error_message = message }

unfoldable pub read_uint16_big_endian : List ℕ → ℕ → ℕ
read_uint16_big_endian bytes offset =
    bit_or (get_or bytes offset 0 * 2 ^ 8) (get_or bytes (offset + 1) 0) % 2 ^ 16

unfoldable pub describe_modbus_exception : ℕ → String
describe_modbus_exception exception_code =
    if exception_code == 0x01
    then "illegal function"
    else if exception_code == 0x02
    then "illegal data address"
    else if exception_code == 0x03
    then "illegal data value"
    else if exception_code == 0x04
    then "slave device failure"
    else if exception_code == 0x05
    then "acknowledge"
    else if exception_code == 0x06
    then "slave device busy"
    else "unknown exception"

-- The loop over the registers: `index` runs up while `left` runs down.
unfoldable pub read_registers : List ℕ → ℤ → ℕ → ℕ → List RegisterObservation
unfolding read_uint16_big_endian
read_registers body start_address index zero = []
read_registers body start_address index (suc left) =
    record {
      address = cast_mod (2 ^ 16) (start_address +ℤ pos index);
      value = read_uint16_big_endian body (3 + index * 2);
    }
    ∷ read_registers body start_address (index + 1) left

abbrev pub values : List RegisterObservation → List ℕ
values [] = []
values (o ∷ os) = o.value ∷ values os

-- After the frame check, the length check and the checks of the arguments: what the body says.
-- `body.size()` is at least 3 here.
unfoldable pub parse_checked_body : List ℕ → ℤ → ℕ → ℤ → ℤ → ParseReadResponseResult
unfolding fail_response
parse_checked_body body slave_id function_code start_address quantity =
    let result : ParseReadResponseResult = record no_response {
      body_without_crc = body;
      slave_id = get_or body 0 0;
      function_code = get_or body 1 0;
    } in
    let byte_count = get_or body 2 0 in
    let register_count = byte_count / 2 in
    let observations = read_registers body start_address 0 register_count in
    if not (result.slave_id == cast_mod (2 ^ 8) slave_id)
    then fail_response "Response slave id does not match expected slave id."
    else if result.function_code == bit_or function_code 0x80 % 2 ^ 8
    then (if not (length body == 3)
        then fail_response "Invalid Modbus exception response length."
        else record result {
          is_exception = true;
          exception_code = byte_count;
          exception_description = describe_modbus_exception byte_count;
          error_message =
              text_append "Device returned a Modbus exception: "
                (text_append (describe_modbus_exception byte_count) ".");
        })
    else if not (result.function_code == function_code)
    then fail_response "Response function code does not match expected function code."
    else if not (byte_count == length body - 3)
    then fail_response "Response byte count does not match payload size."
    else if not (byte_count % 2 == 0)
    then fail_response "Response byte count must be even."
    else if not (eq_ℤ (pos register_count) quantity)
    then fail_response "Response register count does not match expected quantity."
    else if ltb_ℤ maximum_register_address (start_address +ℤ pos register_count -ℤ pos 1)
    then fail_response "Response address range is invalid."
    else record result { ok = true; registers = values observations; observations = observations }

unfoldable pub parse_read_response : List ℕ → ℤ → ℕ → ℤ → ℤ → ParseReadResponseResult
unfolding fail_response is_supported_read_function
parse_read_response frame slave_id function_code start_address quantity =
    let check = validate_rtu_frame frame in
    let body = check.body_without_crc in
    if not check.ok
    then fail_response check.error_message
    else if ltb (length body) 3
    then fail_response "Modbus response is too short."
    else if ltb_ℤ slave_id minimum_slave_id || ltb_ℤ maximum_slave_id slave_id
    then fail_response "Invalid expected slave id."
    else if not (is_supported_read_function function_code)
    then fail_response "Invalid expected read function."
    else if ltb_ℤ start_address minimum_register_address
        || (ltb_ℤ maximum_register_address start_address || ltb_ℤ quantity minimum_quantity)
    then fail_response "Invalid expected address or quantity."
    else parse_checked_body body slave_id function_code start_address quantity
