-- ===== src/Scan/Examples.antt =====
-- Tests of the scan executor against a device that is late once and then answers, and the theorems
-- about it there.
use serial_value_matcher_nat.Base.{
  ℕ, ◌+◌, ◌≡◌, refl, true, false, Option, List, [], ◌∷◌, arith, ◌==◌, if◌then◌else◌, ◌+ℤ◌, ◌-ℤ◌,
  pos,
}
use Prim.{tt}
use serial_value_matcher_nat.Modbus.Frame.{append_crc16_modbus, validate_rtu_frame}
use serial_value_matcher_nat.Modbus.Request.{build_read_request, is_supported_read_function}
use serial_value_matcher_nat.Modbus.Response.{
  read_registers, parse_checked_body, parse_read_response,
}
use serial_value_matcher_nat.Modbus.Plan.{
  ScanPlanOptions, ScanSafetyLevel, build_scan_plan, plan_refusal, plan_blocks, plan_fuel,
  block_quantity, ScanBlock, ScanPlan, empty_plan,
}
use serial_value_matcher_nat.Scan.Types.{
  RtuTransportExchangeStatus, RtuTransportExchange, ScanObservation, ScanExecutionOptions,
  Surroundings,
}
use serial_value_matcher_nat.Scan.Attempt.{
  block_is_invalid, first_invalid_block, invalid_plan_message, exchange_message,
  attempt_from_exchange, attempt_from_parsed, describe_failure, parsed_response, judged_attempt,
  scan_observations, now_utc, best_observed_at_utc, is_cancellation_requested, push_attempt,
  after_attempt, attempt_once, attempt_loop,
}
use serial_value_matcher_nat.Scan.Execute.{
  new_block_result, mark_cancelled, add_block, new_result, publish_progress,
  sleep_before_next_block, after_block, block_once, block_loop, finish, execute,
}
use serial_value_matcher_nat.Scan.Report.{IsScanning}
use serial_value_matcher_nat.Scan.Outcome.{StatusMeans, execute_reports}
use serial_value_matcher_nat.Scan.PlanTaken.{build_scan_plan-taken}
use serial_value_matcher_nat.Scan.Answered.{IsAnswered, execute_completes}
use serial_value_matcher_nat.Scan.Types.{ScanExecutionStatus}
use serial_value_matcher_nat.Scan.Report.{blocks_of, bad_count}

-- The world counts the exchanges. Each run of the device is late at first.
abbrev answer : ℕ → RtuTransportExchange
answer n = record {
  status =
      if n == 0 then RtuTransportExchangeStatus.timeout else RtuTransportExchangeStatus.success;
  request_frame = [];
  response_frame = if n == 0 then [] else append_crc16_modbus (1 ∷ 3 ∷ 4 ∷ 2 ∷ 1 ∷ 0 ∷ 7 ∷ []);
  error_message = "";
  sent_at_utc = "";
  received_at_utc = "now";
  endpoint = "COM1";
}

abbrev device : Surroundings ℕ
device = record { exchange = λ frame timeout n. (answer n, n + 1); default_utc = λ n. ("now", n) }

abbrev test_options : ScanExecutionOptions ℕ
test_options = record {
  response_timeout_ms = pos 1000;
  continue_on_block_error = true;
  retry_on_timeout = true;
  retry_on_transport_error = true;
  retry_on_parse_error = false;
  retry_on_modbus_exception = false;
  should_cancel = Option.none;
  sleep_for_ms = Option.none;
  now_utc = Option.none;
  on_progress = Option.none;
}

abbrev test_block : ScanBlock
test_block = record {
  index = pos 0;
  start_address = pos 100;
  end_address = pos 101;
  quantity = pos 2;
  request_frame = 1 ∷ 3 ∷ 0 ∷ 100 ∷ 0 ∷ 2 ∷ 133 ∷ 212 ∷ [];
}

abbrev test_plan : ScanPlan
test_plan = record empty_plan {
  slave_id = pos 1;
  function_code = 3;
  range = record { start_address = pos 100; end_address = pos 101 };
  block_size = pos 64;
  retry_count = pos 1;
  blocks = test_block ∷ [];
}

taken-test_plan : invalid_plan_message test_plan test_options ≡ Option.none
unfolding invalid_plan_message first_invalid_block block_is_invalid is_supported_read_function
taken-test_plan = refl

abbrev addresses : List ScanObservation → List ℕ
addresses [] = []
addresses (o ∷ os) = o.address ∷ addresses os

-- The late answer is asked for again, and both registers are read.
addresses-execute :
    addresses (execute device test_options test_plan 0).0.observations ≡ 100 ∷ 101 ∷ []
unfolding execute invalid_plan_message first_invalid_block block_is_invalid
    is_supported_read_function block_loop block_once after_block add_block mark_cancelled
    attempt_loop attempt_once after_attempt judged_attempt push_attempt new_block_result finish
    new_result is_cancellation_requested now_utc best_observed_at_utc publish_progress
    sleep_before_next_block attempt_from_exchange exchange_message attempt_from_parsed
    describe_failure parsed_response scan_observations parse_read_response parse_checked_body
    read_registers validate_rtu_frame append_crc16_modbus ◌+ℤ◌ ◌-ℤ◌
addresses-execute = refl

execute_reports_example :
    (left : List ScanBlock) × IsScanning device test_options test_plan left
      (execute device test_options test_plan 0).0
    × (let end = execute device test_options test_plan 0 in
        StatusMeans device test_options test_plan left end.0 end.1)
execute_reports_example = execute_reports device test_options test_plan 0 taken-test_plan

abbrev three_registers : ScanPlanOptions
three_registers = record {
  slave_id = pos 9;
  function_code = 4;
  range = record { start_address = pos 5; end_address = pos 7 };
  block_size = pos 2;
  request_interval_ms = pos 0;
  retry_count = pos 3;
  safety_level = ScanSafetyLevel.custom;
}

built-three_registers : (build_scan_plan three_registers).ok ≡ true
unfolding build_scan_plan plan_refusal is_supported_read_function plan_blocks plan_fuel
    block_quantity build_read_request ◌+ℤ◌ ◌-ℤ◌
built-three_registers = refl

build_scan_plan-taken_example :
    invalid_plan_message (build_scan_plan three_registers).plan test_options ≡ Option.none
build_scan_plan-taken_example =
    build_scan_plan-taken three_registers test_options built-three_registers (omega arith)

abbrev prompt_device : Surroundings ℕ
prompt_device = record {
  exchange = λ frame timeout n. (answer 1, n + 1);
  default_utc = λ n. ("now", n);
}

test_block-IsAnswered : IsAnswered prompt_device test_options test_plan refl test_block
unfolding parsed_response parse_read_response parse_checked_body read_registers validate_rtu_frame
    append_crc16_modbus is_supported_read_function ◌+ℤ◌ ◌-ℤ◌
test_block-IsAnswered = record { sent = λ w. refl; taken = λ w. refl }

execute_completes_example :
    ((execute prompt_device test_options test_plan 0).0.status ≡ ScanExecutionStatus.completed)
    × (blocks_of (execute prompt_device test_options test_plan 0).0.blocks ≡ test_block ∷ [])
    × (bad_count (execute prompt_device test_options test_plan 0).0.blocks ≡ 0)
execute_completes_example =
    execute_completes prompt_device test_options test_plan refl 0 taken-test_plan
      (test_block-IsAnswered, tt)
