-- ===== src/Sequence/ValidateLaws.antt =====
-- What a valid sequence is: `validateCommandSequence` as a whole.
use serial_value_matcher_nat.Base.{
  ℕ, ◌+◌, ◌≤◌, ◌<◌, ◌≡◌, refl, ◌≢◌, ◌↔◌, ◌⊎◌, inl, inr, true, false, ◌||◌, List, [], ◌∷◌, arith,
  ltb, ◌==◌, Bool-cases, length, is_empty, All, ℤ, ◌+ℤ◌, ◌*ℤ◌, ◌≤ℤ◌, pos,
}
use serial_value_matcher_nat.Sequence.Types.{
  CommandExecutionStatus, CommandAction, CommandStep, CommandSequence, CommandSequenceSafetyLimits,
  CommandSequenceValidationResult,
}
use serial_value_matcher_nat.Sequence.Validate.{
  int_max, charge, validate_serial_write, validate_delay, validate_wait_for_response,
  validate_modbus_read, validate_assertion, validate_action, validate_steps, limits_invalid,
  validate_command_sequence,
}
use serial_value_matcher_nat.Sequence.Budget.{IsSafe, step_budget, action-Judges}

-- The time that all the steps may take.
abbrev pub total_budget : List CommandStep → ℕ
total_budget [] = 0
total_budget (step ∷ steps) = step_budget step.action + total_budget steps

abbrev pub IsSafeStep : CommandSequenceSafetyLimits → CommandStep → Type 0
IsSafeStep limits step = IsSafe limits step.action

-- Limits that allow something.
pub record IsLimits (limits : CommandSequenceSafetyLimits) : Type 0 where
  pub commands : 0 < limits.max_command_count
  pub payload : 0 < limits.max_payload_bytes
  pub command_timeout : pos 1 ≤ℤ limits.max_command_timeout_ms
  pub delays : pos 0 ≤ℤ limits.max_delay_ms
  pub total : pos 1 ≤ℤ limits.max_total_budget_ms
  pub quantity : pos 1 ≤ℤ limits.max_modbus_quantity
  pub retries : pos 0 ≤ℤ limits.max_modbus_retries

pub record IsSafeSequence (limits : CommandSequenceSafetyLimits) (sequence : CommandSequence)
    : Type 0 where
  pub in_limits : IsLimits limits
  pub not_empty : 0 < length sequence.steps
  pub count_within : length sequence.steps ≤ limits.max_command_count
  pub steps_safe : All (IsSafeStep limits) sequence.steps
  pub budget_within : pos (total_budget sequence.steps) ≤ℤ limits.max_total_budget_ms

abbrev Judged :
    CommandSequenceSafetyLimits → ℕ → List CommandStep → CommandSequenceValidationResult → Type 0
Judged limits b steps v =
    ((v.ok ≡ true)
      × All (IsSafeStep limits) steps
      × (pos (b + total_budget steps) ≤ℤ limits.max_total_budget_ms))
    ⊎ ((v.ok ≡ false)
        × ((All (IsSafeStep limits) steps
              × (pos (b + total_budget steps) ≤ℤ limits.max_total_budget_ms))
            → ⊥))

validate_steps-Judged :
    (limits : CommandSequenceSafetyLimits) (steps : List CommandStep) (b i : ℕ)
    → limits.max_total_budget_ms ≤ℤ int_max
    → pos b ≤ℤ limits.max_total_budget_ms
    → Judged limits b steps (validate_steps steps i limits (pos b))
unfolding validate_steps
validate_steps-Judged limits [] b i in_int h = inl (refl, tt, omega (arith, h))
validate_steps-Judged limits (step ∷ steps) b i in_int h =
    elim (action-Judges limits b i step.action (omega (arith, in_int, h))) [
      | inl safe ↦
          let later =
            validate_steps-Judged limits steps (b + step_budget step.action) (i + 1) in_int in
          rw (safe.1.0, safe.1.1, Judged) ground (arith, later, safe, in_int)
      | inr refused ↦ ground (arith, refused, in_int)
    ]

limits_invalid-cases :
    (limits : CommandSequenceSafetyLimits)
    → limits.max_command_count ≢ 0
    → (IsLimits limits × (limits_invalid limits ≡ false))
      ⊎ ((IsLimits limits → ⊥) × (limits_invalid limits ≡ true))
unfolding limits_invalid
limits_invalid-cases limits h = elim (Bool-cases (limits_invalid limits)) [
  | inl bad ↦ inr (
    λ ok.
        ground (
          arith, bad, ok.payload, ok.command_timeout, ok.delays, ok.total, ok.quantity, ok.retries,
        ),
    bad,
  )
  | inr good ↦ inl (
    record {
      commands = omega (arith, h);
      payload = ground (arith, good);
      command_timeout = ground (arith, good);
      delays = ground (arith, good);
      total = ground (arith, good);
      quantity = ground (arith, good);
      retries = ground (arith, good);
    },
    good,
  )
]

length-is_empty :
    {A : Type 0}
    → (xs : List A)
    → ((is_empty xs ≡ true) × (length xs ≡ 0)) ⊎ ((is_empty xs ≡ false) × (0 < length xs))
length-is_empty [] = inl (refl, refl)
length-is_empty (x ∷ xs) = ground arith

-- A sequence gets to the loop over its steps, or it is refused and not safe.
sequence_guards :
    (sequence : CommandSequence) (limits : CommandSequenceSafetyLimits)
    → ((0 < length sequence.steps)
        × (length sequence.steps ≤ limits.max_command_count)
        × IsLimits limits
        × (validate_command_sequence sequence limits
            ≡ validate_steps sequence.steps 0 limits (pos 0)))
      ⊎ (((validate_command_sequence sequence limits).ok ≡ false)
          × (IsSafeSequence limits sequence → ⊥))
unfolding validate_command_sequence
sequence_guards sequence limits = elim (length-is_empty sequence.steps) [
  | inl empty ↦ inr (ground (arith, empty), λ safe. omega (arith, empty.1, safe.not_empty))
  | inr filled ↦
      elim (Bool-cases
        (limits.max_command_count == 0 || ltb limits.max_command_count (length sequence.steps))) [
          | inl over ↦ inr (
            rw (filled.0, over) refl,
            λ safe. ground (arith, over, safe.count_within, safe.in_limits.commands),
          )
          | inr within ↦ elim (limits_invalid-cases limits (ground (arith, within))) [
            | inl good ↦
                inl (filled.1, ground (arith, within), good.0, rw (filled.0, within, good.1) refl)
            | inr bad ↦ inr (rw (filled.0, within, bad.1) refl, λ safe. bad.0 safe.in_limits)
          ]
        ]
]

-- A sequence is accepted exactly when it is safe: limits that allow something, at least one step
-- and at most the allowed number, every step within its limits, and the time of all the steps
-- together within the budget, which is an `int`.
pub validate_command_sequence-IsSafeSequence :
    (sequence : CommandSequence) (limits : CommandSequenceSafetyLimits)
    → limits.max_total_budget_ms ≤ℤ int_max
    → ((validate_command_sequence sequence limits).ok ≡ true) ↔ IsSafeSequence limits sequence
unfolding validate_command_sequence
validate_command_sequence-IsSafeSequence sequence limits in_int =
    elim (sequence_guards sequence limits) [
      | inr refused ↦ (ground (arith, refused), λ safe. absurd (refused.1 safe))
      | inl guarded ↦
          elim (validate_steps-Judged limits sequence.steps 0 0 in_int
            (omega (arith, guarded.2.total))) [
              | inl judged ↦ (
                λ accepted. record {
                  in_limits = guarded.2;
                  not_empty = guarded.0;
                  count_within = guarded.1;
                  steps_safe = judged.1;
                  budget_within = omega (arith, judged.2);
                },
                λ safe. rw (guarded.3) judged.0,
              )
              | inr judged ↦ (
                λ accepted. absurd (ground (arith, guarded.3, judged.0, accepted)),
                λ safe. absurd (judged.1 (safe.steps_safe, omega (arith, safe.budget_within))),
              )
            ]
    ]

-- A verdict passes, or it says that the sequence is rejected as unsafe.
abbrev pub IsVerdict : CommandSequenceValidationResult → Type 0
IsVerdict v = (v.ok ≡ true) ⊎ ((v.ok ≡ false) × (v.status ≡ CommandExecutionStatus.rejected_unsafe))

charge-IsVerdict : (b v : ℤ) (i : ℕ) → IsVerdict (charge b v i).0
unfolding charge
charge-IsVerdict b v i = ground arith

action-IsVerdict :
    (action : CommandAction) (i : ℕ) (limits : CommandSequenceSafetyLimits) (b : ℤ)
    → IsVerdict (validate_action action i limits b).0
unfolding validate_action validate_serial_write validate_delay validate_wait_for_response
    validate_modbus_read validate_assertion
action-IsVerdict (CommandAction.serial_write c) i limits b =
    ground (arith, charge-IsVerdict b c.timeout_ms i)
action-IsVerdict (CommandAction.delay c) i limits b =
    ground (arith, charge-IsVerdict b c.duration_ms i)
action-IsVerdict (CommandAction.wait_for_response c) i limits b =
    ground (arith, charge-IsVerdict b c.timeout_ms i)
action-IsVerdict (CommandAction.modbus_read c) i limits b =
    ground (arith, charge-IsVerdict b (c.response_timeout_ms *ℤ (c.retry_count +ℤ pos 1)) i)
action-IsVerdict (CommandAction.assertion c) i limits b = ground arith

steps-IsVerdict :
    (steps : List CommandStep) (i : ℕ) (limits : CommandSequenceSafetyLimits) (b : ℤ)
    → IsVerdict (validate_steps steps i limits b)
unfolding validate_steps
steps-IsVerdict [] i limits b = inl refl
steps-IsVerdict (step ∷ steps) i limits b = ground (
  arith,
  action-IsVerdict step.action i limits b,
  steps-IsVerdict steps (i + 1) limits (validate_action step.action i limits b).1,
)

pub validate_command_sequence-IsVerdict :
    (sequence : CommandSequence) (limits : CommandSequenceSafetyLimits)
    → IsVerdict (validate_command_sequence sequence limits)
unfolding validate_command_sequence
validate_command_sequence-IsVerdict sequence limits =
    ground (arith, steps-IsVerdict sequence.steps 0 limits (pos 0))
