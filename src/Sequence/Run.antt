-- ===== src/Sequence/Run.antt =====
-- src/command_sequence/command_sequence.cpp: the steps that act on the world.
use serial_value_matcher_nat.Base.{
  ℕ, zero, suc, ◌+◌, ◌-◌, ◌*◌, min, Bool, true, false, not, none, some, [], ◌∷◌, ◌==◌,
  if◌then◌else◌, length, ℤ, pos_part, eq_ℤ, pos,
}
use serial_value_matcher_nat.Base.Decimal.{size_text, int_text}
use serial_value_matcher_nat.Transport.Types.{SerialDeadline, is_accepted}
use serial_value_matcher_nat.Modbus.Plan.{build_scan_plan}
use serial_value_matcher_nat.Scan.Types.{ScanExecutionOptions, ScanExecutionResult, Surroundings}
use serial_value_matcher_nat.Scan.Execute.{execute}
use serial_value_matcher_nat.Sequence.Types.{
  CommandExecutionStatus, SerialWriteCommand, DelayCommand, WaitForResponseCommand,
  ModbusReadCommand, CommandAction, CommandStep, CommandStepExecutionResult,
  CommandSequenceExecutionContext, Clocks, is_completed, contains_subsequence,
}
use serial_value_matcher_nat.Sequence.Step.{
  LastResults, make_step_result, add_values, DelayEnd, delay_cancellation_slice_ms, write_values,
  read_plan_options, read_values, scan_values, read_status, run_assertion,
}

-- What a step leaves: its result, what later assertions look at, and the world.
pub record StepRun (World : Type 0) : Type 0 where
  pub result : CommandStepExecutionResult
  pub last : LastResults
  pub world : World

module _ {World : Type 0} (clocks : Clocks World)
    (context : CommandSequenceExecutionContext World) where
  unfoldable pub cancelled : World → Bool × World
  cancelled world = elim context.should_cancel [
    | none ↦ (false, world)
    | some should_cancel ↦ should_cancel world
  ]

  unfoldable pub run_serial_write :
      CommandStep → ℕ → SerialWriteCommand → LastResults → World → StepRun World
  run_serial_write step step_index command last world =
      let result =
        add_values
          (("payload_bytes", size_text (length command.payload))
            ∷ ("timeout_ms", int_text command.timeout_ms)
            ∷ ("backend", "serial_write_scheduler")
            ∷ [])
          (make_step_result step step_index CommandExecutionStatus.failed "") in
      elim context.serial_write_scheduler [
        | none ↦ record {
          result = record result { message = "Serial write transport backend is not available." };
          last = last;
          world = world;
        }
        | some enqueue ↦
            let now = clocks.steady_now world in
            let deadline : SerialDeadline = record {
              expires_at = some (now.0 + pos_part command.timeout_ms * clocks.ticks_per_ms);
            } in
            let written = enqueue command.payload deadline now.1 in
            let recorded = add_values (write_values written.0) result in
            record {
              result =
                  if is_accepted written.0.status
                  then record recorded { status = CommandExecutionStatus.completed }
                  else record recorded { message = "Serial write request was rejected." };
              last = record last { last_serial_write_result = some written.0 };
              world = written.1;
            }
      ]

  -- The loop over the slices, and whether the sequence was cancelled after the last of them.
  unfoldable pub delay_loop : (ℤ → World → World) → ℕ → ℕ → World → DelayEnd × World
  delay_loop sleep zero remaining world = (DelayEnd.out_of_fuel, world)
  delay_loop sleep (suc fuel) remaining world =
      let asked = cancelled world in
      let slice = min remaining delay_cancellation_slice_ms in
      let rest = delay_loop sleep fuel (remaining - slice) (sleep (pos slice) asked.1) in
      if asked.0
      then (DelayEnd.cancelled, asked.1)
      else if remaining == 0
      then (DelayEnd.elapsed, asked.1)
      else rest

  abbrev pub delay_result : DelayEnd → CommandStepExecutionResult → CommandStepExecutionResult
  delay_result DelayEnd.elapsed result = record result { status = CommandExecutionStatus.completed }
  delay_result DelayEnd.cancelled result = record result {
    status = CommandExecutionStatus.cancelled;
    message = "Command sequence was cancelled.";
  }
  delay_result DelayEnd.out_of_fuel result = record result { message = "The delay did not end." }

  unfoldable pub run_delay : CommandStep → ℕ → DelayCommand → LastResults → World → StepRun World
  unfolding delay_loop
  run_delay step step_index command last world =
      let duration = pos_part command.duration_ms in
      let result =
        add_values (("duration_ms", int_text command.duration_ms) ∷ [])
          (make_step_result step step_index CommandExecutionStatus.failed "") in
      if eq_ℤ command.duration_ms (pos 0)
      then record {
        result = record result { status = CommandExecutionStatus.completed };
        last = last;
        world = world;
      }
      else elim context.sleep_for_ms [
        | none ↦ record {
          result = record result { message = "Delay backend is not available." };
          last = last;
          world = world;
        }
        | some sleep ↦
            let ended = delay_loop sleep (duration + 1) duration world in
            record { result = delay_result ended.0 result; last = last; world = ended.1 }
      ]

  unfoldable pub run_wait_for_response :
      CommandStep → ℕ → WaitForResponseCommand → LastResults → World → StepRun World
  run_wait_for_response step step_index command last world =
      let result =
        add_values
          (("expected_payload_bytes", size_text (length command.expected_payload))
            ∷ ("timeout_ms", int_text command.timeout_ms)
            ∷ [])
          (make_step_result step step_index CommandExecutionStatus.failed "") in
      elim context.wait_for_response [
        | none ↦ record {
          result = record result { message = "Wait-for-response backend is not available." };
          last = last;
          world = world;
        }
        | some wait ↦
            let waited = wait command.timeout_ms world in
            elim waited.0 [
              | none ↦ record {
                result = record result {
                  status = CommandExecutionStatus.timeout;
                  message = "Waiting for response timed out.";
                };
                last = last;
                world = waited.1;
              }
              | some response ↦
                  let recorded =
                    add_values (("response_payload_bytes", size_text (length response)) ∷ [])
                      result in
                  record {
                    result =
                        if not (contains_subsequence response command.expected_payload)
                        then record recorded {
                          message = "Response did not contain the declared expected payload.";
                        }
                        else record recorded { status = CommandExecutionStatus.completed };
                    last = record last { last_response = some response };
                    world = waited.1;
                  }
            ]
      ]

  unfoldable pub modbus_execution_options : ModbusReadCommand → ScanExecutionOptions World
  modbus_execution_options command = record {
    response_timeout_ms = command.response_timeout_ms;
    continue_on_block_error = false;
    retry_on_timeout = true;
    retry_on_transport_error = true;
    retry_on_parse_error = false;
    retry_on_modbus_exception = false;
    should_cancel = context.should_cancel;
    sleep_for_ms = none;
    now_utc = context.now_utc;
    on_progress = none;
  }

  -- What the read records of its scan.
  unfoldable pub scan_run :
      CommandStepExecutionResult → LastResults → ScanExecutionResult × World → StepRun World
  unfolding read_status
  scan_run result last scanned =
      let status = read_status scanned.0 in
      record {
        result = record (add_values (scan_values scanned.0) result) {
          status = status;
          message = if is_completed status then "" else scanned.0.error_message;
        };
        last = record last { last_modbus_result = some scanned.0 };
        world = scanned.1;
      }

  unfoldable pub run_modbus_read :
      CommandStep → ℕ → ModbusReadCommand → LastResults → World → StepRun World
  unfolding modbus_execution_options scan_run
  run_modbus_read step step_index command last world =
      let result =
        add_values (read_values command)
          (make_step_result step step_index CommandExecutionStatus.failed "") in
      let built = build_scan_plan (read_plan_options command) in
      elim context.modbus_transport [
        | none ↦ record {
          result = record result { message = "Modbus transport backend is not available." };
          last = last;
          world = world;
        }
        | some exchange ↦
            let surroundings : Surroundings World = record {
              exchange = exchange;
              default_utc = clocks.default_utc;
            } in
            if not built.ok
            then record {
              result = record result { message = built.error_message };
              last = last;
              world = world;
            }
            else scan_run result last
                (execute surroundings (modbus_execution_options command) built.plan world)
      ]

  unfoldable pub run_action : CommandAction → CommandStep → ℕ → LastResults → World → StepRun World
  run_action (CommandAction.serial_write c) step step_index last world =
      run_serial_write step step_index c last world
  run_action (CommandAction.delay c) step step_index last world =
      run_delay step step_index c last world
  run_action (CommandAction.wait_for_response c) step step_index last world =
      run_wait_for_response step step_index c last world
  run_action (CommandAction.modbus_read c) step step_index last world =
      run_modbus_read step step_index c last world
  run_action (CommandAction.assertion c) step step_index last world = record {
    result = run_assertion step step_index c last;
    last = last;
    world = world;
  }
