-- ===== src/Sequence/Reads.antt =====
-- A read that passes the validation, and the plan that its scan needs.
use serial_value_matcher_nat.Base.{◌≡◌, ◌↔◌, true, arith, ℤ, ◌+ℤ◌, ◌-ℤ◌, ◌≤ℤ◌, pos, negsuc}
use serial_value_matcher_nat.Modbus.Plan.{build_scan_plan}
use serial_value_matcher_nat.Modbus.Plan.Complete.{build_scan_plan_iff}
use serial_value_matcher_nat.Sequence.Types.{ModbusReadCommand, CommandSequenceSafetyLimits}
use serial_value_matcher_nat.Sequence.Step.{read_plan_options}
use serial_value_matcher_nat.Sequence.Budget.{IsSafeRead}

-- What the scan asks for and the validation does not: at most 64 registers, all of them below
-- 65536, and at most 5 retries.
pub record IsPlannableRead (c : ModbusReadCommand) : Type 0 where
  pub quantity_within : c.quantity ≤ℤ pos 64
  pub range_within : c.start_address +ℤ c.quantity ≤ℤ pos 0x1_0000
  pub retries_within : c.retry_count ≤ℤ pos 5

read_range :
    (start quantity : ℤ)
    → pos 0 ≤ℤ start
    → pos 1 ≤ℤ quantity
    → ((start +ℤ quantity ≤ℤ pos 0x1_0000) ↔ (start +ℤ quantity -ℤ pos 1 ≤ℤ pos 0xFFFF))
      × (start ≤ℤ start +ℤ quantity -ℤ pos 1)
      × (quantity ≤ℤ pos 64 → start +ℤ quantity -ℤ pos 1 ≤ℤ start +ℤ pos 4095)
unfolding ◌+ℤ◌ ◌-ℤ◌
read_range (pos s) (pos q) h k = ground arith
read_range (pos s) (negsuc q) h k = absurd (omega (arith, k))
read_range (negsuc s) q h k = absurd (omega (arith, h))

-- A read that passes the validation gets a plan exactly when it is within the limits of the scan,
-- whatever the configured limits are.
pub build_scan_plan-IsPlannableRead :
    (limits : CommandSequenceSafetyLimits) (c : ModbusReadCommand)
    → IsSafeRead limits c
    → ((build_scan_plan (read_plan_options c)).ok ≡ true) ↔ IsPlannableRead c
build_scan_plan-IsPlannableRead limits c safe =
    let range = read_range c.start_address c.quantity safe.start_low safe.quantity_low in
    let plannable = build_scan_plan_iff (read_plan_options c) in
    (
      λ made.
          let p = plannable.0 made in
          record {
            quantity_within = p.block_high;
            range_within = range.0.1 p.end_high;
            retries_within = p.retry_high;
          },
      λ p. plannable.1 (record {
        slave_low = safe.slave_low;
        slave_high = safe.slave_high;
        function_read = safe.function_read;
        start_low = safe.start_low;
        end_high = range.0.0 p.range_within;
        ordered = range.1;
        block_low = safe.quantity_low;
        block_high = p.quantity_within;
        interval_low = omega arith;
        retry_low = safe.retry_low;
        retry_high = p.retries_within;
        registers_high = range.2 p.quantity_within;
      }),
    )
