-- ===== src/Sequence/Examples.antt =====
-- Sequences run on concrete back ends.
use serial_value_matcher_nat.Base.{
  ℕ, ◌+◌, ◌≡◌, refl, sym, ap, ◌↔◌, inl, Bool, true, false, Option, some, [], ◌∷◌, map, arith, ltb,
  pos_part, ◌+ℤ◌, ◌-ℤ◌, ◌*ℤ◌, pos,
}
use serial_value_matcher_nat.Modbus.Plan.{plan_refusal, build_scan_plan}
use serial_value_matcher_nat.Modbus.Request.{is_supported_read_function}
use serial_value_matcher_nat.Sequence.Types.{
  AssertionKind, CommandExecutionStatus, ModbusReadCommand, AssertionCommand, CommandSequence,
  default_limits, CommandStepExecutionResult, CommandSequenceExecutionContext, Clocks, is_completed,
  make_serial_write_step, make_delay_step, make_wait_for_response_step, make_modbus_read_step,
  make_assertion_step, contains_subsequence,
}
use serial_value_matcher_nat.Sequence.Validate.{
  add_budget, charge, validate_serial_write, validate_delay, validate_wait_for_response,
  validate_modbus_read, validate_assertion, validate_action, validate_steps,
  validate_command_sequence,
}
use serial_value_matcher_nat.Sequence.Step.{no_results, read_plan_options, run_assertion}
use serial_value_matcher_nat.Sequence.Run.{
  cancelled, run_serial_write, run_delay, run_wait_for_response, run_action,
}
use serial_value_matcher_nat.Sequence.Execute.{
  end_with, new_execution, execute_steps, execute_command_sequence,
}
use serial_value_matcher_nat.Sequence.Search.{StandsIn, contains_subsequence_iff}
use serial_value_matcher_nat.Sequence.Budget.{IsSafeRead}
use serial_value_matcher_nat.Sequence.ValidateLaws.{
  IsSafeSequence, validate_command_sequence-IsSafeSequence,
}
use serial_value_matcher_nat.Sequence.Runs.{
  IsReportOf, execute_command_sequence-IsReportOf, execute_command_sequence-unsafe,
}
use serial_value_matcher_nat.Sequence.Delay.{IsSleep, HasEnded, run_delay-HasEnded}
use serial_value_matcher_nat.Sequence.Reads.{IsPlannableRead, build_scan_plan-IsPlannableRead}

-- The world is the time in milliseconds; sleeping moves it, and a response comes after 20.
abbrev bench : CommandSequenceExecutionContext ℕ
bench = record {
  serial_write_scheduler = Option.none;
  modbus_transport = Option.none;
  wait_for_response = some (λ timeout now. (some (1 ∷ 2 ∷ 3 ∷ []), now + 20));
  sleep_for_ms = some (λ ms now. now + pos_part ms);
  should_cancel = some (λ now. (ltb 1000 now, now));
  now_utc = Option.none;
}

abbrev clocks : Clocks ℕ
clocks = record {
  steady_now = λ now. (now, now);
  ticks_per_ms = 1;
  default_utc = λ now. ("now", now);
}

abbrev response_contains : AssertionCommand
response_contains = record {
  kind = AssertionKind.last_response_contains;
  expected_payload = 2 ∷ [];
  register_address = pos 0;
  expected_register_value = 0;
}

abbrev test_sequence : CommandSequence
test_sequence = record {
  id = "test";
  steps =
      make_wait_for_response_step "wait" (2 ∷ 3 ∷ []) (pos 500)
      ∷ make_delay_step "" (pos 250)
      ∷ make_assertion_step "check" response_contains
      ∷ make_serial_write_step "write" (7 ∷ []) (pos 50)
      ∷ [];
}

abbrev read_100 : ModbusReadCommand
read_100 = record {
  slave_id = pos 1;
  function_code = 3;
  start_address = pos 0;
  quantity = pos 100;
  response_timeout_ms = pos 1000;
  retry_count = pos 0;
}

abbrev read_sequence : CommandSequence
read_sequence = record { id = "read"; steps = make_modbus_read_step "" read_100 ∷ [] }

test_sequence-accepted : (validate_command_sequence test_sequence default_limits).ok ≡ true
unfolding validate_command_sequence validate_steps validate_action validate_wait_for_response charge
    add_budget ◌-ℤ◌ ◌+ℤ◌ validate_delay validate_assertion validate_serial_write
test_sequence-accepted = refl

-- Three steps complete; the write has no back end and fails.
test_sequence-statuses :
    map
      (λ (r : CommandStepExecutionResult). is_completed r.status)
      (execute_command_sequence clocks bench test_sequence default_limits 0).0.steps
    ≡ true ∷ true ∷ true ∷ false ∷ []
unfolding validate_command_sequence validate_steps validate_action validate_wait_for_response charge
    add_budget ◌-ℤ◌ ◌+ℤ◌ validate_delay validate_assertion validate_serial_write
    execute_command_sequence execute_steps cancelled run_action run_wait_for_response
    contains_subsequence run_delay run_serial_write run_assertion
test_sequence-statuses = refl

test_sequence-time : (execute_command_sequence clocks bench test_sequence default_limits 0).1 ≡ 270
unfolding validate_command_sequence validate_steps validate_action validate_wait_for_response charge
    add_budget ◌-ℤ◌ ◌+ℤ◌ validate_delay validate_assertion validate_serial_write
    execute_command_sequence execute_steps cancelled run_action run_wait_for_response
    contains_subsequence run_delay run_serial_write run_assertion
test_sequence-time = refl

late-cancelled :
    (execute_command_sequence clocks bench test_sequence default_limits 900).0.status
    ≡ CommandExecutionStatus.cancelled
unfolding validate_command_sequence validate_steps validate_action validate_wait_for_response charge
    add_budget ◌-ℤ◌ ◌+ℤ◌ validate_delay validate_assertion validate_serial_write
    execute_command_sequence execute_steps cancelled run_action run_wait_for_response
    contains_subsequence run_delay run_serial_write run_assertion
late-cancelled = refl

read_sequence-accepted : (validate_command_sequence read_sequence default_limits).ok ≡ true
unfolding validate_command_sequence validate_steps validate_action validate_modbus_read ◌+ℤ◌ charge
    add_budget ◌*ℤ◌ ◌-ℤ◌
read_sequence-accepted = refl

-- The scan refuses what the validation lets pass.
read_100-no_plan :
    (build_scan_plan (read_plan_options read_100)).error_message ≡ "Invalid scan block size."
unfolding build_scan_plan plan_refusal is_supported_read_function ◌-ℤ◌ ◌+ℤ◌
read_100-no_plan = refl

validate_command_sequence-IsSafeSequence_example :
    ((validate_command_sequence test_sequence default_limits).ok ≡ true)
    ↔ IsSafeSequence default_limits test_sequence
validate_command_sequence-IsSafeSequence_example =
    validate_command_sequence-IsSafeSequence test_sequence default_limits (omega arith)

execute_command_sequence-IsReportOf_example :
    IsReportOf test_sequence
      (execute_command_sequence clocks bench test_sequence default_limits 0).0
execute_command_sequence-IsReportOf_example =
    execute_command_sequence-IsReportOf clocks bench test_sequence default_limits 0
      test_sequence-accepted

abbrev no_steps : CommandSequence
no_steps = record { id = "none"; steps = [] }

no_steps-unsafe : IsSafeSequence default_limits no_steps → ⊥
no_steps-unsafe safe = omega (arith, safe.not_empty)

execute_command_sequence-unsafe_example :
    ((execute_command_sequence clocks bench no_steps default_limits 5).1 ≡ 5)
    × ((execute_command_sequence clocks bench no_steps default_limits 5).0
        ≡ end_with CommandExecutionStatus.rejected_unsafe
            (validate_command_sequence no_steps default_limits).message
            new_execution)
execute_command_sequence-unsafe_example =
    execute_command_sequence-unsafe clocks bench no_steps default_limits 5 (omega arith)
      no_steps-unsafe

asked_at : Option (ℕ → Bool × ℕ) → ℕ → ℕ
asked_at Option.none now = now
asked_at (some ask) now = (ask now).1

bench-IsSleep : IsSleep bench (λ now. now) (λ ms now. now + pos_part ms)
unfolding asked_at
bench-IsSleep = record {
  sleeps = λ ms now. refl;
  asks = λ ask e now. sym (ap (λ (o : Option (ℕ → Bool × ℕ)). asked_at o now) e);
}

run_delay-HasEnded_example :
    HasEnded 0 250
      (run_delay clocks bench
        (make_delay_step "" (pos 250))
        0
        (record { duration_ms = pos 250 })
        no_results
        0).result.status
      (run_delay clocks bench
        (make_delay_step "" (pos 250))
        0
        (record { duration_ms = pos 250 })
        no_results
        0).world
run_delay-HasEnded_example =
    run_delay-HasEnded clocks bench (λ now. now) (λ ms now. now + pos_part ms) bench-IsSleep
      (make_delay_step "" (pos 250)) 0 250 no_results 0 refl

contains_subsequence_iff_example :
    (contains_subsequence (1 ∷ 2 ∷ 3 ∷ []) (2 ∷ 3 ∷ []) ≡ true)
    ↔ StandsIn (2 ∷ 3 ∷ []) (1 ∷ 2 ∷ 3 ∷ [])
contains_subsequence_iff_example = contains_subsequence_iff (1 ∷ 2 ∷ 3 ∷ []) (2 ∷ 3 ∷ [])

read_100-IsSafeRead : IsSafeRead default_limits read_100
read_100-IsSafeRead = record {
  slave_low = omega arith;
  slave_high = omega arith;
  function_read = inl refl;
  start_low = omega arith;
  quantity_low = omega arith;
  quantity_high = omega arith;
  retry_low = omega arith;
  retry_high = omega arith;
  in_time = (omega arith, omega arith);
}

build_scan_plan-IsPlannableRead_example :
    ((build_scan_plan (read_plan_options read_100)).ok ≡ true) ↔ IsPlannableRead read_100
build_scan_plan-IsPlannableRead_example =
    build_scan_plan-IsPlannableRead default_limits read_100 read_100-IsSafeRead
