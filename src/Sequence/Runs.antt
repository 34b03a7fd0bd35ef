-- ===== src/Sequence/Runs.antt =====
-- What the run of a sequence reports.
use mathlib.Core.List.{append_assoc, append-nil}
use serial_value_matcher_nat.Base.{
  ℕ, ◌+◌, ◌≡◌, refl, sym, ◌∙◌, ◌⊎◌, inl, inr, true, false, List, [], ◌∷◌, ◌++◌, arith, Bool-cases,
  ◌≤ℤ◌,
}
use serial_value_matcher_nat.Sequence.Types.{
  CommandExecutionStatus, CommandEvidenceEventType, SerialWriteCommand, DelayCommand,
  WaitForResponseCommand, ModbusReadCommand, AssertionCommand, CommandAction, CommandStep,
  CommandSequence, CommandSequenceSafetyLimits, CommandStepExecutionResult,
  CommandSequenceEvidenceEvent, CommandSequenceExecutionResult, CommandSequenceExecutionContext,
  Clocks, is_completed, command_kind, step_label,
}
use serial_value_matcher_nat.Sequence.Validate.{int_max, validate_command_sequence}
use serial_value_matcher_nat.Sequence.Step.{LastResults, no_results, run_assertion}
use serial_value_matcher_nat.Sequence.Run.{
  cancelled, run_serial_write, run_delay, run_wait_for_response, scan_run, run_modbus_read,
  run_action,
}
use serial_value_matcher_nat.Sequence.Execute.{
  event_of, evidence_type, push_step, end_with, new_execution, cancelled_step, execute_steps,
  execute_command_sequence,
}
use serial_value_matcher_nat.Sequence.ValidateLaws.{
  IsSafeSequence, validate_command_sequence-IsSafeSequence, validate_command_sequence-IsVerdict,
}

-- A result that names its step.
abbrev pub IsResultOf : CommandStep → ℕ → CommandStepExecutionResult → Type 0
IsResultOf step i r =
    (r.step_index ≡ i) × (r.step_id ≡ step_label step i) × (r.kind ≡ command_kind step)

-- One result for each step from the `i`-th on, in order, up to the first that did not complete; its
-- status is that of the sequence, which is completed when every step is.
abbrev pub Follows :
    List CommandStep → ℕ → CommandExecutionStatus → List CommandStepExecutionResult → Type 0
Follows [] i status [] = status ≡ CommandExecutionStatus.completed
Follows [] i status (r ∷ rs) = ⊥
Follows (step ∷ steps) i status [] = ⊥
Follows (step ∷ steps) i status (r ∷ rs) =
    IsResultOf step i r
    × (((is_completed r.status ≡ true) × Follows steps (i + 1) status rs)
        ⊎ ((is_completed r.status ≡ false) × (rs ≡ []) × (status ≡ r.status)))

-- One event for each result, with its content.
abbrev pub Mirrors :
    CommandSequence → List CommandSequenceEvidenceEvent → List CommandStepExecutionResult → Type 0
Mirrors sequence [] [] = Unit
Mirrors sequence (e ∷ es) [] = ⊥
Mirrors sequence [] (r ∷ rs) = ⊥
Mirrors sequence (e ∷ es) (r ∷ rs) = (e ≡ event_of sequence e.type r) × Mirrors sequence es rs

-- The result of a run of the sequence.
abbrev pub IsReportOf : CommandSequence → CommandSequenceExecutionResult → Type 0
IsReportOf sequence result =
    Follows sequence.steps 0 result.status result.steps
    × Mirrors sequence result.evidence result.steps

module _ {World : Type 0} (clocks : Clocks World)
    (context : CommandSequenceExecutionContext World) where
  serial_write-IsResultOf :
      (step : CommandStep) (i : ℕ) (c : SerialWriteCommand) (last : LastResults) (world : World)
      → IsResultOf step i (run_serial_write clocks context step i c last world).result
  unfolding run_serial_write
  serial_write-IsResultOf step i c last world = ground arith

  delay-IsResultOf :
      (step : CommandStep) (i : ℕ) (c : DelayCommand) (last : LastResults) (world : World)
      → IsResultOf step i (run_delay clocks context step i c last world).result
  unfolding run_delay
  delay-IsResultOf step i c last world = ground arith

  wait_for_response-IsResultOf :
      (step : CommandStep) (i : ℕ) (c : WaitForResponseCommand) (last : LastResults) (world : World)
      → IsResultOf step i (run_wait_for_response clocks context step i c last world).result
  unfolding run_wait_for_response
  wait_for_response-IsResultOf step i c last world = ground arith

  modbus_read-IsResultOf :
      (step : CommandStep) (i : ℕ) (c : ModbusReadCommand) (last : LastResults) (world : World)
      → IsResultOf step i (run_modbus_read clocks context step i c last world).result
  unfolding run_modbus_read scan_run
  modbus_read-IsResultOf step i c last world = ground arith

  assertion-IsResultOf :
      (step : CommandStep) (i : ℕ) (c : AssertionCommand) (last : LastResults)
      → IsResultOf step i (run_assertion step i c last)
  unfolding run_assertion
  assertion-IsResultOf step i c last = ground arith

  action-IsResultOf :
      (action : CommandAction) (step : CommandStep) (i : ℕ) (last : LastResults) (world : World)
      → IsResultOf step i (run_action clocks context action step i last world).result
  unfolding run_action
  action-IsResultOf (CommandAction.serial_write c) step i last world =
      serial_write-IsResultOf step i c last world
  action-IsResultOf (CommandAction.delay c) step i last world = delay-IsResultOf step i c last world
  action-IsResultOf (CommandAction.wait_for_response c) step i last world =
      wait_for_response-IsResultOf step i c last world
  action-IsResultOf (CommandAction.modbus_read c) step i last world =
      modbus_read-IsResultOf step i c last world
  action-IsResultOf (CommandAction.assertion c) step i last world =
      assertion-IsResultOf step i c last

  -- What the steps add to a result so far.
  abbrev Adds :
      CommandSequence
      → List CommandStep
      → ℕ
      → CommandSequenceExecutionResult
      → CommandSequenceExecutionResult
      → Type 0
  Adds sequence steps i front whole =
      (rs : List CommandStepExecutionResult) × (es : List CommandSequenceEvidenceEvent)
      × (whole.steps ≡ front.steps ++ rs)
      × Follows steps i whole.status rs
      × (whole.evidence ≡ front.evidence ++ es)
      × Mirrors sequence es rs

  -- A step that completed, and then the rest.
  Adds-push :
      (sequence : CommandSequence) (step : CommandStep) (steps : List CommandStep) (i : ℕ)
      (front whole : CommandSequenceExecutionResult) (type : CommandEvidenceEventType)
      (r : CommandStepExecutionResult)
      → IsResultOf step i r
      → is_completed r.status ≡ true
      → Adds sequence steps (i + 1) (push_step sequence type r front) whole
      → Adds sequence (step ∷ steps) i front whole
  unfolding push_step
  Adds-push sequence step steps i front whole type r of_step done
        (rs, es, in_steps, follows, in_evidence, mirrors) =
      (
        r ∷ rs,
        event_of sequence type r ∷ es,
        in_steps ∙ append_assoc front.steps (r ∷ []) rs,
        (of_step, inl (done, follows)),
        in_evidence ∙ append_assoc front.evidence (event_of sequence type r ∷ []) es,
        (refl, mirrors),
      )

  execute_steps-Adds :
      (sequence : CommandSequence) (steps : List CommandStep) (i : ℕ) (last : LastResults)
      (front : CommandSequenceExecutionResult) (world : World)
      → Adds sequence steps i front
          (execute_steps clocks context sequence steps i last front world).0
  unfolding execute_steps push_step
  execute_steps-Adds sequence [] i last front world =
      ([], [], sym (append-nil front.steps), refl, sym (append-nil front.evidence), tt)
  execute_steps-Adds sequence (step ∷ steps) i last front world =
      elim (Bool-cases (cancelled clocks context world).0) [
        | inl asked ↦
            let r = cancelled_step step i in
            let event = event_of sequence CommandEvidenceEventType.step_result r in
            rw (asked, Adds)
              (
                r ∷ [],
                event ∷ [],
                refl,
                ((refl, refl, refl), inr (refl, refl, refl)),
                refl,
                (refl, tt),
              )
        | inr free ↦
            let w = (cancelled clocks context world).1 in
            let ran = run_action clocks context step.action step i last w in
            let event = event_of sequence (evidence_type step) ran.result in
            let of_step = action-IsResultOf step.action step i last w in
            let later =
              execute_steps-Adds sequence steps (i + 1) ran.last
                (push_step sequence (evidence_type step) ran.result front) ran.world in
            elim (Bool-cases (is_completed ran.result.status)) [
              | inl done ↦
                  rw (free, done, Adds)
                    (Adds-push sequence step steps i front
                      (execute_steps clocks context sequence steps (i + 1) ran.last
                        (push_step sequence (evidence_type step) ran.result front) ran.world).0
                      (evidence_type step) ran.result of_step done later)
              | inr stopped ↦
                  rw (free, stopped, Adds)
                    (
                      ran.result ∷ [],
                      event ∷ [],
                      refl,
                      (of_step, inr (stopped, refl, refl)),
                      refl,
                      (refl, tt),
                    )
            ]
      ]

  -- What a run reports: one result for each step that it came to, in order, and one event for each
  -- result. Every result but the last is completed, the status is that of the last one, and a
  -- run is completed exactly when all its steps are.
  pub execute_command_sequence-IsReportOf :
      (sequence : CommandSequence) (limits : CommandSequenceSafetyLimits) (world : World)
      → (validate_command_sequence sequence limits).ok ≡ true
      → IsReportOf sequence (execute_command_sequence clocks context sequence limits world).0
  unfolding execute_command_sequence
  execute_command_sequence-IsReportOf sequence limits world accepted =
      let added = execute_steps-Adds sequence sequence.steps 0 no_results new_execution world in
      rw (accepted, execute_command_sequence)
        (rw (added.2, IsReportOf) (rw (added.4, IsReportOf) (added.3, added.5)))

  -- A sequence that is not safe leaves the world as it was, is rejected as unsafe, reports no step
  -- and records nothing.
  pub execute_command_sequence-unsafe :
      (sequence : CommandSequence) (limits : CommandSequenceSafetyLimits) (world : World)
      → limits.max_total_budget_ms ≤ℤ int_max
      → (IsSafeSequence limits sequence → ⊥)
      → ((execute_command_sequence clocks context sequence limits world).1 ≡ world)
        × ((execute_command_sequence clocks context sequence limits world).0
            ≡ end_with CommandExecutionStatus.rejected_unsafe
                (validate_command_sequence sequence limits).message
                new_execution)
  unfolding execute_command_sequence
  execute_command_sequence-unsafe sequence limits world in_int not_safe =
      elim (validate_command_sequence-IsVerdict sequence limits) [
        | inl accepted ↦ absurd (
            not_safe ((validate_command_sequence-IsSafeSequence sequence limits in_int).0 accepted))
        | inr refused ↦ rw (refused.0, execute_command_sequence) (refl, rw (refused.1) refl)
      ]
