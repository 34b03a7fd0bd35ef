-- ===== src/Modbus/Plan/Complete.antt =====
-- `buildScanPlan` as a whole: it makes a plan exactly for a plannable request, and the plan
-- covers the range.
use serial_value_matcher_nat.Base.{
  ℕ, ◌<◌, ◌≡◌, refl, ap, ◌∙◌, ◌↔◌, inl, inr, true, List, [], arith, Option-cases, ℤ, ◌≤ℤ◌, pos-add,
  pos, negsuc,
}
use serial_value_matcher_nat.Modbus.Plan.{
  ScanPlanOptions, ScanBlock, ScanPlan, plan_refusal, plan_blocks, plan_fuel, build_scan_plan,
}
use serial_value_matcher_nat.Modbus.Plan.Tiling.{
  IsPlannable, ≤ℤ_trans, plan_refusal-IsPlannable, plan_refusal_plannable,
}
use serial_value_matcher_nat.Modbus.Plan.Cover.{Tiles, plan_blocks-Tiles}
use serial_value_matcher_nat.Modbus.Plan.{built}

-- The plan of a request: its options, and blocks that tile the range from its first register.
pub record IsPlanOf (o : ScanPlanOptions) (plan : ScanPlan) : Type 0 where
  pub options_kept : plan ≡ record {
    slave_id = o.slave_id;
    function_code = o.function_code;
    range = o.range;
    block_size = o.block_size;
    request_interval_ms = o.request_interval_ms;
    retry_count = o.retry_count;
    safety_level = o.safety_level;
    blocks = plan.blocks;
  }
  pub tiled :
      (first : ℕ) × (last : ℕ) × (o.range.start_address ≡ pos first)
      × (o.range.end_address ≡ pos last)
      × Tiles o last first 0 plan.blocks

nonneg : (x : ℤ) → pos 0 ≤ℤ x → (n : ℕ) × (x ≡ pos n)
nonneg (pos n) h = (n, refl)
nonneg (negsuc n) h = absurd (omega arith)

-- The fuel is above the registers that a plan may have.
plan_fuel_enough : 4096 < plan_fuel
unfolding plan_fuel
plan_fuel_enough = omega arith

planned :
    (o : ScanPlanOptions)
    → IsPlannable o
    → (xs : List ScanBlock) × (plan_blocks plan_fuel o o.range.start_address (pos 0) [] ≡ built xs)
      × (first : ℕ) × (last : ℕ) × (o.range.start_address ≡ pos first)
      × (o.range.end_address ≡ pos last)
      × Tiles o last first 0 xs
planned o p =
    let (first, s) = nonneg o.range.start_address p.start_low in
    let (last, e) =
      nonneg o.range.end_address
        (≤ℤ_trans (pos 0) o.range.start_address o.range.end_address p.start_low p.ordered) in
    let (size, b) =
      nonneg o.block_size (≤ℤ_trans (pos 0) (pos 1) o.block_size (omega arith) p.block_low) in
    let ordered = rw (s, e) at p.ordered in
    let few = rw (s, e, pos-add) at p.registers_high in
    let (xs, ran, tiles) =
      plan_blocks-Tiles o p last size e b plan_fuel first 0 [] (omega (arith, ordered))
        (omega (arith, few, ordered, plan_fuel_enough)) in
    (xs, ap (λ a. plan_blocks plan_fuel o a (pos 0) []) s ∙ ran, first, last, s, e, tiles)

-- A plan is made exactly for a plannable request: a unicast slave, a read function, an ordered
-- range of at most 4096 registers in the address space, and a block size, an interval and a retry
-- count within their limits.
pub build_scan_plan_iff : (o : ScanPlanOptions) → ((build_scan_plan o).ok ≡ true) ↔ IsPlannable o
unfolding build_scan_plan
build_scan_plan_iff o = (refused, made)
  where
    refused : (build_scan_plan o).ok ≡ true → IsPlannable o
    refused h = elim (Option-cases (plan_refusal o)) [
      | inl e ↦ plan_refusal-IsPlannable o e
      | inr (message, e) ↦ cc (rw (e, build_scan_plan) at h)
    ]

    made : IsPlannable o → (build_scan_plan o).ok ≡ true
    made p =
        let w = planned o p in
        rw (plan_refusal_plannable o p, build_scan_plan) (rw (w.1, build_scan_plan) refl)

-- The plan of a plannable request keeps its options, and its blocks cover the range end to end in
-- order: full blocks up to the last, each with the frame of the read request for its registers.
pub build_scan_plan-IsPlanOf :
    (o : ScanPlanOptions) → IsPlannable o → IsPlanOf o (build_scan_plan o).plan
unfolding build_scan_plan
build_scan_plan-IsPlanOf o p =
    let w = planned o p in
    rw (plan_refusal_plannable o p, build_scan_plan)
      (rw (w.1, build_scan_plan)
        (record { options_kept = refl; tiled = (w.2, w.3, w.4, w.5, w.6) }))
