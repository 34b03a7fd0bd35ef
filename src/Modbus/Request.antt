-- ===== src/Modbus/Request.antt =====
-- src/core/modbus_core.cpp: the read functions and the frames that ask for registers.
use serial_value_matcher_nat.Base.{
  ℕ, ◌-◌, ◌/◌, ◌%◌, ◌^◌, String, Bool, true, false, not, ◌||◌, List, [], ◌∷◌, ◌++◌, ◌==◌,
  if◌then◌else◌, ℤ, ◌+ℤ◌, ◌-ℤ◌, ltb_ℤ, cast_mod, pos, negsuc,
}
use serial_value_matcher_nat.Modbus.Frame.{append_crc16_modbus}
use Prim.Native.Nat.{bit_and}

pub data ModbusReadFunction : Type 0 where
  holding_registers input_registers : ModbusReadFunction

-- The enumerators' values.
abbrev pub function_byte : ModbusReadFunction → ℕ
function_byte ModbusReadFunction.holding_registers = 0x03
function_byte ModbusReadFunction.input_registers = 0x04

pub record BuildReadRequestResult : Type 0 where
  pub ok : Bool
  pub error_message : String
  pub frame : List ℕ

abbrev pub minimum_slave_id : ℤ
minimum_slave_id = pos 1

abbrev pub maximum_slave_id : ℤ
maximum_slave_id = pos 247

abbrev pub minimum_register_address : ℤ
minimum_register_address = pos 0

abbrev pub maximum_register_address : ℤ
maximum_register_address = pos 0xFFFF

abbrev pub minimum_quantity : ℤ
minimum_quantity = pos 1

abbrev pub maximum_read_quantity : ℤ
maximum_read_quantity = pos 125

unfoldable pub fail_read : String → BuildReadRequestResult
fail_read message = record { ok = false; error_message = message; frame = [] }

-- `>> 8` and `& 0xFF` of an `int`, in two's complement.
abbrev pub shift_right_8 : ℤ → ℤ
shift_right_8 (pos n) = pos (n / 2 ^ 8)
shift_right_8 (negsuc n) = negsuc (n / 2 ^ 8)

abbrev pub and_255 : ℤ → ℕ
and_255 (pos n) = bit_and n 0xFF
and_255 (negsuc n) = 0xFF - bit_and n 0xFF

unfoldable pub append_uint16_big_endian : List ℕ → ℤ → List ℕ
append_uint16_big_endian bytes value =
    bytes ++ (and_255 (shift_right_8 value) % 2 ^ 8 ∷ and_255 value % 2 ^ 8 ∷ [])

unfoldable pub is_supported_read_function : ℕ → Bool
is_supported_read_function function_code =
    function_code == function_byte ModbusReadFunction.holding_registers
    || function_code == function_byte ModbusReadFunction.input_registers

unfoldable pub describe_read_function : ℕ → String
describe_read_function function_code =
    if function_code == function_byte ModbusReadFunction.holding_registers
    then "FC03 holding registers"
    else if function_code == function_byte ModbusReadFunction.input_registers
    then "FC04 input registers"
    else "unsupported read function"

unfoldable pub request_body : ℤ → ℕ → ℤ → ℤ → List ℕ
unfolding append_uint16_big_endian
request_body slave_id function_code start_address quantity =
    append_uint16_big_endian
      (append_uint16_big_endian (cast_mod (2 ^ 8) slave_id ∷ function_code ∷ []) start_address)
      quantity

unfoldable pub build_read_request : ℤ → ℕ → ℤ → ℤ → BuildReadRequestResult
unfolding fail_read is_supported_read_function
build_read_request slave_id function_code start_address quantity =
    if ltb_ℤ slave_id minimum_slave_id || ltb_ℤ maximum_slave_id slave_id
    then fail_read "Invalid slave id."
    else if not (is_supported_read_function function_code)
    then fail_read "Invalid read function."
    else if ltb_ℤ start_address minimum_register_address
        || ltb_ℤ maximum_register_address start_address
    then fail_read "Invalid start address."
    else if ltb_ℤ quantity minimum_quantity || ltb_ℤ maximum_read_quantity quantity
    then fail_read "Invalid read quantity."
    else if ltb_ℤ maximum_register_address (start_address +ℤ quantity -ℤ pos 1)
    then fail_read "Invalid read address range."
    else record {
      ok = true;
      error_message = "";
      frame = append_crc16_modbus (request_body slave_id function_code start_address quantity);
    }
