-- ===== src/Modbus/Examples.antt =====
-- Tests of the Modbus core on known frames, and its theorems at such inputs.
use serial_value_matcher_nat.Base.Decimal.{digit_text}
use serial_value_matcher_nat.Base.{
  ℕ, ◌≡◌, refl, ap, ◌↔◌, inl, true, false, List, [], ◌∷◌, arith, ℤ, ◌+ℤ◌, ◌-ℤ◌, pos-add, pos,
}
use serial_value_matcher_nat.Modbus.Frame.{
  format_crc16, crc16_modbus, append_crc16_modbus, validate_rtu_frame,
}
use serial_value_matcher_nat.Modbus.FrameLaws.{IsBytes, validate-append}
use serial_value_matcher_nat.Modbus.Request.{is_supported_read_function, build_read_request}
use serial_value_matcher_nat.Modbus.RequestLaws.{
  IsReadable, build_read_request_iff, build_read_request-validates,
}
use serial_value_matcher_nat.Modbus.Response.{parse_read_response}
use serial_value_matcher_nat.Modbus.ResponseLaws.{IsExpected, reply_body, numbered}
use serial_value_matcher_nat.Modbus.Reply.{parse-reply}
use serial_value_matcher_nat.Modbus.Accepted.{IsReplyTo, parse_read_response_ok, parse-exception}
use serial_value_matcher_nat.Modbus.Plan.{
  ScanSafetyLevel, ScanPlanOptions, ScanBlock, plan_refusal, block_quantity, plan_blocks, plan_fuel,
  build_scan_plan,
}
use serial_value_matcher_nat.Modbus.Plan.Tiling.{IsPlannable}
use serial_value_matcher_nat.Modbus.Plan.Complete.{
  IsPlanOf, build_scan_plan_iff, build_scan_plan-IsPlanOf,
}

-- The checksum of this read request is well known.
known_frame :
    append_crc16_modbus (0x01 ∷ 0x03 ∷ 0x00 ∷ 0x00 ∷ 0x00 ∷ 0x0A ∷ [])
    ≡ 0x01 ∷ 0x03 ∷ 0x00 ∷ 0x00 ∷ 0x00 ∷ 0x0A ∷ 0xC5 ∷ 0xCD ∷ []
unfolding append_crc16_modbus
known_frame = refl

abbrev request_bytes : List ℕ
request_bytes = 0x01 ∷ 0x03 ∷ 0x00 ∷ 0x00 ∷ 0x00 ∷ 0x0A ∷ []

validate-append_example : validate_rtu_frame (append_crc16_modbus request_bytes) ≡ record {
  ok = true;
  error_message = "";
  body_without_crc = request_bytes;
  actual_crc = crc16_modbus request_bytes;
  expected_crc = crc16_modbus request_bytes;
}
validate-append_example = validate-append request_bytes (omega arith) (omega arith)

abbrev readings : List ℕ
readings = 513 ∷ 7 ∷ []

readings-IsExpected : IsExpected (pos 1) 3 (pos 100) (pos 2)
readings-IsExpected = record {
  slave_low = omega arith;
  slave_high = omega arith;
  function_read = inl refl;
  start_low = omega arith;
  start_high = omega arith;
  quantity_low = omega arith;
}

abbrev reply_frame : List ℕ
reply_frame = append_crc16_modbus (reply_body 1 3 readings)

parse-reply_example : parse_read_response reply_frame (pos 1) 3 (pos 100) (pos 2) ≡ record {
  ok = true;
  error_message = "";
  slave_id = 1;
  function_code = 3;
  is_exception = false;
  exception_code = 0;
  exception_description = "";
  body_without_crc = reply_body 1 3 readings;
  registers = readings;
  observations = numbered 100 readings;
}
parse-reply_example =
    parse-reply 1 3 100 readings readings-IsExpected (omega arith) (omega arith) (omega arith)

reply_frame-IsBytes : IsBytes reply_frame
unfolding append_crc16_modbus
reply_frame-IsBytes = omega arith

parse_read_response_ok_example :
    IsExpected (pos 1) 3 (pos 100) (pos 2)
    × ((body : List ℕ) × (reply_frame ≡ append_crc16_modbus body)
        × IsReplyTo body
            (pos 1)
            3
            (pos 100)
            (pos 2)
            (parse_read_response reply_frame (pos 1) 3 (pos 100) (pos 2)))
parse_read_response_ok_example =
    parse_read_response_ok reply_frame (pos 1) 3 (pos 100) (pos 2) reply_frame-IsBytes
      (ap (λ r. r.ok) parse-reply_known)
  where
    parse-reply_known : parse_read_response reply_frame (pos 1) 3 (pos 100) (pos 2) ≡ record {
      ok = true;
      error_message = "";
      slave_id = 1;
      function_code = 3;
      is_exception = false;
      exception_code = 0;
      exception_description = "";
      body_without_crc = reply_body 1 3 readings;
      registers = readings;
      observations = numbered 100 readings;
    }
    parse-reply_known =
        parse-reply 1 3 100 readings readings-IsExpected (omega arith) (omega arith) (omega arith)

parse-exception_example :
    let r =
      parse_read_response (append_crc16_modbus (1 ∷ 0x83 ∷ 2 ∷ [])) (pos 1) 3 (pos 100) (pos 2) in
    (r.ok ≡ false) × (r.is_exception ≡ true) × (r.exception_code ≡ 2) × (r.observations ≡ [])
parse-exception_example = parse-exception 1 3 2 (pos 100) (pos 2) readings-IsExpected (omega arith)

build_read_request_iff_example :
    ((build_read_request (pos 1) 3 (pos 65535) (pos 2)).ok ≡ true)
    ↔ IsReadable (pos 1) 3 (pos 65535) (pos 2)
build_read_request_iff_example = build_read_request_iff (pos 1) 3 (pos 65535) (pos 2)

build_read_request-validates_example :
    let check = validate_rtu_frame (build_read_request (pos 1) 3 (pos 258) (pos 2)).frame in
    (check.ok ≡ true) × (check.body_without_crc ≡ 1 ∷ 3 ∷ 1 ∷ 2 ∷ 0 ∷ 2 ∷ [])
build_read_request-validates_example = build_read_request-validates 1 3 258 2 (record {
  slave_low = omega arith;
  slave_high = omega arith;
  function_read = inl refl;
  start_low = omega arith;
  quantity_low = omega arith;
  quantity_high = omega arith;
  range_high = rw pos-add (omega arith);
})

abbrev hundred : ScanPlanOptions
hundred = record {
  slave_id = pos 1;
  function_code = 3;
  range = record { start_address = pos 0; end_address = pos 99 };
  block_size = pos 64;
  request_interval_ms = pos 30;
  retry_count = pos 1;
  safety_level = ScanSafetyLevel.conservative;
}

abbrev quantities : List ScanBlock → List ℤ
quantities [] = []
quantities (x ∷ xs) = x.quantity ∷ quantities xs

quantities-hundred : quantities (build_scan_plan hundred).plan.blocks ≡ pos 64 ∷ pos 36 ∷ []
unfolding build_scan_plan plan_refusal is_supported_read_function plan_blocks plan_fuel
    block_quantity build_read_request ◌+ℤ◌ ◌-ℤ◌
quantities-hundred = refl

build_scan_plan_iff_example : ((build_scan_plan hundred).ok ≡ true) ↔ IsPlannable hundred
build_scan_plan_iff_example = build_scan_plan_iff hundred

hundred-IsPlannable : IsPlannable hundred
hundred-IsPlannable = record {
  slave_low = omega arith;
  slave_high = omega arith;
  function_read = inl refl;
  start_low = omega arith;
  end_high = omega arith;
  ordered = omega arith;
  block_low = omega arith;
  block_high = omega arith;
  interval_low = omega arith;
  retry_low = omega arith;
  retry_high = omega arith;
  registers_high = rw pos-add (omega arith);
}

build_scan_plan-IsPlanOf_example : IsPlanOf hundred (build_scan_plan hundred).plan
build_scan_plan-IsPlanOf_example = build_scan_plan-IsPlanOf hundred hundred-IsPlannable

crc16-shown : format_crc16 0x4B37 ≡ "0x4B37"
unfolding format_crc16 digit_text
crc16-shown = refl
