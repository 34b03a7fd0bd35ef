-- ===== src/Modbus/Plan.antt =====
-- src/core/modbus_core.cpp: `buildScanPlan`, a range of registers cut into read requests.
pub mod Tiling
pub mod Cover
pub mod Complete
use serial_value_matcher_nat.Base.{
  ℕ, zero, suc, ◌+◌, ◌-◌, ◌*◌, ◌/◌, ◌%◌, ◌^◌, ◌≤◌, ◌<◌, min, max, String, ◌≡◌, refl, sym, ap, ◌∙◌,
  ◌≢◌, ◌↔◌, ◌⊎◌, inl, inr, Bool, true, false, not, ◌&&◌, ◌||◌, Option, none, some, List, [], ◌∷◌,
  ◌++◌, map, arith, ltb, leb, ◌==◌, if◌then◌else◌, ==_iff, ltb→lt, ==_refl, Bool-cases,
  Option-cases, length, is_empty, get_or, take, All, length-append, take-length-append,
  get_or-append_right, All-append, count, count-append, ℤ, pos_part, neg_part, sub_ℕ, ◌+ℤ◌, ◌-ℤ◌,
  ◌*ℤ◌, ◌≤ℤ◌, ltb_ℤ, leb_ℤ, eq_ℤ, cast_mod, pos-add, pos-sub, pos-mul, pos, negsuc, empty_text,
  text_append,
}
use serial_value_matcher_nat.Modbus.Request.{
  ModbusReadFunction, function_byte, BuildReadRequestResult, minimum_slave_id, maximum_slave_id,
  minimum_register_address, maximum_register_address, minimum_quantity, maximum_read_quantity,
  fail_read, shift_right_8, and_255, append_uint16_big_endian, is_supported_read_function,
  describe_read_function, request_body, build_read_request,
}

pub data ScanSafetyLevel : Type 0 where
  conservative balanced aggressive custom : ScanSafetyLevel

pub record ScanRange : Type 0 where
  pub start_address : ℤ
  pub end_address : ℤ

pub record ScanPlanOptions : Type 0 where
  pub slave_id : ℤ
  pub function_code : ℕ
  pub range : ScanRange
  pub block_size : ℤ
  pub request_interval_ms : ℤ
  pub retry_count : ℤ
  pub safety_level : ScanSafetyLevel

pub record ScanBlock : Type 0 where
  pub index : ℤ
  pub start_address : ℤ
  pub end_address : ℤ
  pub quantity : ℤ
  pub request_frame : List ℕ

pub record ScanPlan : Type 0 where
  pub slave_id : ℤ
  pub function_code : ℕ
  pub range : ScanRange
  pub block_size : ℤ
  pub request_interval_ms : ℤ
  pub retry_count : ℤ
  pub safety_level : ScanSafetyLevel
  pub blocks : List ScanBlock

pub record BuildScanPlanResult : Type 0 where
  pub ok : Bool
  pub error_message : String
  pub plan : ScanPlan

abbrev pub minimum_block_size : ℤ
minimum_block_size = pos 1

abbrev pub maximum_safe_block_size : ℤ
maximum_safe_block_size = pos 64

abbrev pub maximum_plan_registers : ℕ
maximum_plan_registers = 4096

abbrev pub maximum_retry_count : ℤ
maximum_retry_count = pos 5

abbrev pub empty_plan : ScanPlan
empty_plan = record {
  slave_id = pos 0;
  function_code = 0;
  range = record { start_address = pos 0; end_address = pos 0 };
  block_size = pos 0;
  request_interval_ms = pos 0;
  retry_count = pos 0;
  safety_level = ScanSafetyLevel.conservative;
  blocks = [];
}

unfoldable pub register_count : ScanPlan → ℤ
register_count plan =
    if ltb_ℤ plan.range.end_address plan.range.start_address
    then pos 0
    else plan.range.end_address -ℤ plan.range.start_address +ℤ pos 1

unfoldable pub request_count : ScanPlan → ℤ
request_count plan = pos (length plan.blocks)

unfoldable pub estimated_attempt_count : ScanPlan → ℤ
unfolding request_count
estimated_attempt_count plan = request_count plan *ℤ (plan.retry_count +ℤ pos 1)

unfoldable pub max_ℤ : ℤ → ℤ → ℤ
max_ℤ a b = if ltb_ℤ a b then b else a

unfoldable pub min_ℤ : ℤ → ℤ → ℤ
min_ℤ a b = if ltb_ℤ b a then b else a

unfoldable pub estimated_inter_request_delay_ms : ScanPlan → ℤ
unfolding request_count max_ℤ
estimated_inter_request_delay_ms plan =
    max_ℤ (pos 0) (request_count plan -ℤ pos 1) *ℤ plan.request_interval_ms

abbrev pub describe_scan_safety_level : ScanSafetyLevel → String
describe_scan_safety_level ScanSafetyLevel.conservative = "conservative"
describe_scan_safety_level ScanSafetyLevel.balanced = "balanced"
describe_scan_safety_level ScanSafetyLevel.aggressive = "aggressive"
describe_scan_safety_level ScanSafetyLevel.custom = "custom"

unfoldable pub fail_plan : String → BuildScanPlanResult
fail_plan message = record { ok = false; error_message = message; plan = empty_plan }

-- The guards of `buildScanPlan`, in their order; `none` goes on.
unfoldable pub plan_refusal : ScanPlanOptions → Option String
plan_refusal o =
    if ltb_ℤ o.slave_id minimum_slave_id || ltb_ℤ maximum_slave_id o.slave_id
    then some "Invalid scan slave id."
    else if not (is_supported_read_function o.function_code)
    then some "Invalid scan read function."
    else if ltb_ℤ o.range.start_address minimum_register_address
        || ltb_ℤ maximum_register_address o.range.start_address
    then some "Invalid scan start address."
    else if ltb_ℤ o.range.end_address minimum_register_address
        || ltb_ℤ maximum_register_address o.range.end_address
    then some "Invalid scan end address."
    else if ltb_ℤ o.range.end_address o.range.start_address
    then some "Scan end address must not be smaller than start address."
    else if ltb_ℤ o.block_size minimum_block_size || ltb_ℤ maximum_safe_block_size o.block_size
    then some "Invalid scan block size."
    else if ltb_ℤ o.request_interval_ms (pos 0)
    then some "Scan request interval must not be negative."
    else if ltb_ℤ o.retry_count (pos 0) || ltb_ℤ maximum_retry_count o.retry_count
    then some "Invalid scan retry count."
    else if ltb_ℤ (pos maximum_plan_registers)
        (o.range.end_address -ℤ o.range.start_address +ℤ pos 1)
    then some "Scan plan is too large."
    else none

-- The loop over the range. It takes fuel, and says when that runs out.
pub data PlanBlocks : Type 0 where
  out_of_fuel failed : PlanBlocks
  built : List ScanBlock → PlanBlocks

unfoldable pub block_quantity : ScanPlanOptions → ℤ → ℤ
unfolding min_ℤ
block_quantity o current_address =
    min_ℤ o.block_size (o.range.end_address -ℤ current_address +ℤ pos 1)

unfoldable pub plan_blocks : ℕ → ScanPlanOptions → ℤ → ℤ → List ScanBlock → PlanBlocks
plan_blocks zero o current_address block_index blocks = out_of_fuel
plan_blocks (suc fuel) o current_address block_index blocks =
    let quantity = block_quantity o current_address in
    let request = build_read_request o.slave_id o.function_code current_address quantity in
    let rest = plan_blocks fuel o (current_address +ℤ quantity) (block_index +ℤ pos 1) (
      blocks
      ++ record {
        index = block_index;
        start_address = current_address;
        end_address = current_address +ℤ quantity -ℤ pos 1;
        quantity = quantity;
        request_frame = request.frame;
      }
        ∷ []) in
    if leb_ℤ current_address o.range.end_address
    then (if not request.ok then failed else rest)
    else built blocks

-- Each round takes at least one register off a range of at most 4096.
unfoldable pub plan_fuel : ℕ
plan_fuel = 4097

unfoldable pub build_scan_plan : ScanPlanOptions → BuildScanPlanResult
unfolding fail_plan
build_scan_plan o = elim (plan_refusal o) [
  | some message ↦ fail_plan message
  | none ↦ elim (plan_blocks plan_fuel o o.range.start_address (pos 0) []) [
    | out_of_fuel ↦ fail_plan "The loop did not end."
    | failed ↦ fail_plan "Failed to build scan request block."
    | built blocks ↦ record {
      ok = true;
      error_message = "";
      plan = record {
        slave_id = o.slave_id;
        function_code = o.function_code;
        range = o.range;
        block_size = o.block_size;
        request_interval_ms = o.request_interval_ms;
        retry_count = o.retry_count;
        safety_level = o.safety_level;
        blocks = blocks;
      };
    }
  ]
]
