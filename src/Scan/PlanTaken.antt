-- ===== src/Scan/PlanTaken.antt =====
-- The plans that `buildScanPlan` makes are plans that the executor takes.
use serial_value_matcher_nat.Base.{
  ℕ, ◌+◌, ◌≤◌, ◌≡◌, refl, sym, ap, ◌∙◌, true, false, none, List, [], ◌∷◌, arith, is_empty, ℤ, ◌≤ℤ◌,
  pos,
}
use mathlib.Core.Path.{subst}
use serial_value_matcher_nat.Modbus.Frame.{append_crc16_modbus}
use serial_value_matcher_nat.Modbus.Request.{
  append_uint16_big_endian, is_supported_read_function, request_body, build_read_request,
}
use serial_value_matcher_nat.Modbus.Plan.{ScanPlanOptions, ScanBlock, build_scan_plan}
use serial_value_matcher_nat.Modbus.Plan.Tiling.{IsPlannable}
use serial_value_matcher_nat.Modbus.Plan.Complete.{build_scan_plan_iff, build_scan_plan-IsPlanOf}
use serial_value_matcher_nat.Scan.Types.{ScanExecutionOptions}
use serial_value_matcher_nat.Scan.Attempt.{
  block_is_invalid, first_invalid_block, invalid_plan_message,
}
use serial_value_matcher_nat.Modbus.Plan.Cover.{IsBlock, Tiles}

frame_not_empty :
    (slave_id : ℤ) (function_code : ℕ) (start_address quantity : ℤ)
    → (build_read_request slave_id function_code start_address quantity).ok ≡ true
    → is_empty (build_read_request slave_id function_code start_address quantity).frame ≡ false
unfolding build_read_request append_crc16_modbus request_body append_uint16_big_endian
frame_not_empty slave_id function_code start_address quantity h = ground arith

IsBlock-valid :
    (o : ScanPlanOptions) (last c i q : ℕ) (b : ScanBlock)
    → IsBlock o last c i q b
    → block_is_invalid b ≡ none
unfolding block_is_invalid
IsBlock-valid o last c i q b h =
    let framed =
      ap is_empty h.framed
      ∙ frame_not_empty o.slave_id o.function_code (pos c) (pos q) h.requested in
    rw (framed, h.starts, h.ends, h.counts) (ground (arith, h.some_registers))

Tiles-valid :
    (o : ScanPlanOptions) (last c i : ℕ) (bs : List ScanBlock)
    → Tiles o last c i bs
    → first_invalid_block bs ≡ none
unfolding first_invalid_block
Tiles-valid o last c i [] h = refl
Tiles-valid o last c i (b ∷ bs) h =
    rw (IsBlock-valid o last c i h.0 b h.1, first_invalid_block)
      (Tiles-valid o last (c + h.0) (i + 1) bs h.2)

tiled_not_empty :
    (o : ScanPlanOptions) (last c i : ℕ) (bs : List ScanBlock)
    → c ≤ last
    → Tiles o last c i bs
    → is_empty bs ≡ false
tiled_not_empty o last c i [] le h = ground arith
tiled_not_empty o last c i (b ∷ bs) le h = refl

-- The options and blocks of a plan, as the executor checks them.
plan_taken :
    {World : Type 0} (o : ScanPlanOptions) (bs : List ScanBlock)
    (options : ScanExecutionOptions World)
    → IsPlannable o
    → is_empty bs ≡ false
    → first_invalid_block bs ≡ none
    → pos 0 ≤ℤ options.response_timeout_ms
    → invalid_plan_message
        (record {
          slave_id = o.slave_id;
          function_code = o.function_code;
          range = o.range;
          block_size = o.block_size;
          request_interval_ms = o.request_interval_ms;
          retry_count = o.retry_count;
          safety_level = o.safety_level;
          blocks = bs;
        })
        options
      ≡ none
unfolding invalid_plan_message is_supported_read_function
plan_taken o bs options p some_blocks valid timeout =
    ground (arith, p.slave_low, p.slave_high, p.function_read, p.retry_low)

-- Every plan that `buildScanPlan` makes is one that the executor takes, with a response timeout
-- that is not negative.
pub build_scan_plan-taken :
    {World : Type 0} (o : ScanPlanOptions) (options : ScanExecutionOptions World)
    → (build_scan_plan o).ok ≡ true
    → pos 0 ≤ℤ options.response_timeout_ms
    → invalid_plan_message (build_scan_plan o).plan options ≡ none
build_scan_plan-taken o options made timeout =
    let p = (build_scan_plan_iff o).0 made in
    let planned = build_scan_plan-IsPlanOf o p in
    let t = planned.tiled in
    let high = rw (t.2, t.3) at p.ordered in
    let ordered : t.0 ≤ t.1 = omega (arith, high) in
    subst (λ plan. invalid_plan_message plan options ≡ none) (sym planned.options_kept)
      (plan_taken o (build_scan_plan o).plan.blocks options p
        (tiled_not_empty o t.1 t.0 0 (build_scan_plan o).plan.blocks ordered t.4)
        (Tiles-valid o t.1 t.0 0 (build_scan_plan o).plan.blocks t.4) timeout)
