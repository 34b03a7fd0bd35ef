-- ===== src/Sequence/Execute.antt =====
-- src/command_sequence/command_sequence.cpp: `executeCommandSequence`.
use serial_value_matcher_nat.Base.{ℕ, ◌+◌, String, Bool, not, List, [], ◌∷◌, ◌++◌, if◌then◌else◌}
use serial_value_matcher_nat.Sequence.Types.{
  CommandKind, CommandExecutionStatus, CommandEvidenceEventType, CommandStep, CommandSequence,
  CommandSequenceSafetyLimits, CommandStepExecutionResult, CommandSequenceEvidenceEvent,
  CommandSequenceExecutionResult, CommandSequenceExecutionContext, Clocks, is_completed,
  command_kind,
}
use serial_value_matcher_nat.Sequence.Validate.{validate_command_sequence}
use serial_value_matcher_nat.Sequence.Step.{LastResults, no_results, make_step_result}
use serial_value_matcher_nat.Sequence.Run.{cancelled, run_action}

abbrev pub event_of :
    CommandSequence
    → CommandEvidenceEventType
    → CommandStepExecutionResult
    → CommandSequenceEvidenceEvent
event_of sequence type r = record {
  type = type;
  sequence_id = sequence.id;
  step_index = r.step_index;
  step_id = r.step_id;
  command_kind = r.kind;
  status = r.status;
  message = r.message;
  metadata = r.metadata;
}

abbrev pub evidence_type : CommandStep → CommandEvidenceEventType
evidence_type step = elim (command_kind step) [
  | CommandKind.assertion ↦ CommandEvidenceEventType.assertion_result
  | CommandKind.serial_write ↦ CommandEvidenceEventType.step_result
  | CommandKind.delay ↦ CommandEvidenceEventType.step_result
  | CommandKind.wait_for_response ↦ CommandEvidenceEventType.step_result
  | CommandKind.modbus_read ↦ CommandEvidenceEventType.step_result
]

-- `appendEvidence` and the push of the step's result.
unfoldable pub push_step :
    CommandSequence
    → CommandEvidenceEventType
    → CommandStepExecutionResult
    → CommandSequenceExecutionResult
    → CommandSequenceExecutionResult
push_step sequence type r result = record result {
  steps = result.steps ++ (r ∷ []);
  evidence = result.evidence ++ (event_of sequence type r ∷ []);
}

-- An early return: the status and the message of the last step.
abbrev pub end_with :
    CommandExecutionStatus
    → String
    → CommandSequenceExecutionResult
    → CommandSequenceExecutionResult
end_with status message result = record result { status = status; message = message }

abbrev pub new_execution : CommandSequenceExecutionResult
new_execution = record {
  status = CommandExecutionStatus.failed;
  message = "";
  steps = [];
  evidence = [];
}

abbrev pub success : CommandSequenceExecutionResult → Bool
success result = is_completed result.status

abbrev pub cancelled_step : CommandStep → ℕ → CommandStepExecutionResult
cancelled_step step index =
    make_step_result step index CommandExecutionStatus.cancelled "Command sequence was cancelled."

module _ {World : Type 0} (clocks : Clocks World)
    (context : CommandSequenceExecutionContext World) where
  -- The loop over the steps, from `index` on.
  unfoldable pub execute_steps :
      CommandSequence
      → List CommandStep
      → ℕ
      → LastResults
      → CommandSequenceExecutionResult
      → World
      → CommandSequenceExecutionResult × World
  unfolding push_step
  execute_steps sequence [] index last result world =
      (record result { status = CommandExecutionStatus.completed }, world)
  execute_steps sequence (step ∷ steps) index last result world =
      let asked = cancelled clocks context world in
      let ran = run_action clocks context step.action step index last asked.1 in
      let pushed = push_step sequence (evidence_type step) ran.result result in
      let rest = execute_steps sequence steps (index + 1) ran.last pushed ran.world in
      if asked.0
      then (
        end_with CommandExecutionStatus.cancelled "Command sequence was cancelled." (
            push_step sequence CommandEvidenceEventType.step_result (cancelled_step step index)
              result),
        asked.1,
      )
      else if not (is_completed ran.result.status)
      then (end_with ran.result.status ran.result.message pushed, ran.world)
      else rest

  unfoldable pub execute_command_sequence :
      CommandSequence → CommandSequenceSafetyLimits → World → CommandSequenceExecutionResult × World
  execute_command_sequence sequence limits world =
      let validation = validate_command_sequence sequence limits in
      if not validation.ok
      then (end_with validation.status validation.message new_execution, world)
      else execute_steps sequence sequence.steps 0 no_results new_execution world
