-- ===== src/Sequence/Delay.antt =====
-- A delay ends: its loop sleeps the whole duration in slices, unless it is cancelled between two.
use serial_value_matcher_nat.Base.{
  ℕ, zero, suc, ◌+◌, ◌-◌, ◌≤◌, ◌<◌, min, ◌≡◌, refl, ap, ◌∙◌, ◌⊎◌, inl, inr, Bool, some, arith, ◌==◌,
  Bool-cases, Option-cases, ℤ, eq_ℤ, pos,
}
use serial_value_matcher_nat.Sequence.Types.{
  CommandExecutionStatus, CommandStep, CommandStepExecutionResult, CommandSequenceExecutionContext,
  Clocks,
}
use serial_value_matcher_nat.Sequence.Step.{LastResults, DelayEnd, delay_cancellation_slice_ms}
use serial_value_matcher_nat.Sequence.Run.{cancelled, delay_loop, delay_result, run_delay}

-- A clock of the world that the back ends move: sleeping takes the time asked for, and asking
-- whether to cancel takes none.
pub record IsSleep {World : Type 0} (context : CommandSequenceExecutionContext World)
    (clock : World → ℕ) (sleep : ℤ → World → World) : Type 0 where
  pub sleeps : (ms : ℕ) (world : World) → clock (sleep (pos ms) world) ≡ clock world + ms
  pub asks :
      (ask : World → Bool × World)
      → context.should_cancel ≡ some ask
      → (world : World) → clock (ask world).1 ≡ clock world

-- The end of a delay of `ms` from a time on.
abbrev pub EndsDelay : ℕ → ℕ → DelayEnd → ℕ → Type 0
EndsDelay start ms DelayEnd.elapsed now = now ≡ start + ms
EndsDelay start ms DelayEnd.cancelled now = (start ≤ now) × (now ≤ start + ms)
EndsDelay start ms DelayEnd.out_of_fuel now = ⊥

-- The same, by the status of the step.
abbrev pub HasEnded : ℕ → ℕ → CommandExecutionStatus → ℕ → Type 0
HasEnded start ms status now =
    ((status ≡ CommandExecutionStatus.completed) × (now ≡ start + ms))
    ⊎ ((status ≡ CommandExecutionStatus.cancelled) × (start ≤ now) × (now ≤ start + ms))

-- A slice, and the end of what is left.
EndsDelay-slice :
    (start later slice ms now : ℕ) (end : DelayEnd)
    → later ≡ start + slice
    → slice ≤ ms
    → EndsDelay later (ms - slice) end now
    → EndsDelay start ms end now
EndsDelay-slice start later slice ms now DelayEnd.elapsed e h ended = omega (arith, e, h, ended)
EndsDelay-slice start later slice ms now DelayEnd.cancelled e h ended = omega (arith, e, h, ended)
EndsDelay-slice start later slice ms now DelayEnd.out_of_fuel e h ended = ended

module _ {World : Type 0} (clocks : Clocks World) (context : CommandSequenceExecutionContext World)
    (clock : World → ℕ) (sleep : ℤ → World → World) (is_sleep : IsSleep context clock sleep) where
  cancelled-clock : (world : World) → clock (cancelled clocks context world).1 ≡ clock world
  unfolding cancelled
  cancelled-clock world = elim (Option-cases context.should_cancel) [
    | inl e ↦ rw (e, cancelled) refl
    | inr (ask, e) ↦ rw (e, cancelled) (is_sleep.asks ask e world)
  ]

  delay_loop-EndsDelay :
      (fuel ms : ℕ) (world : World)
      → ms < fuel
      → EndsDelay
          (clock world)
          ms
          (delay_loop clocks context sleep fuel ms world).0
          (clock (delay_loop clocks context sleep fuel ms world).1)
  unfolding delay_loop
  delay_loop-EndsDelay zero ms world h = absurd (omega (arith, h))
  delay_loop-EndsDelay (suc fuel) ms world h =
      elim (Bool-cases (cancelled clocks context world).0) [
        | inl asked ↦ rw (asked, EndsDelay) (omega (arith, cancelled-clock world))
        | inr free ↦ elim (Bool-cases (ms == 0)) [
          | inl none_left ↦
              rw (free, none_left, EndsDelay) (ground (arith, cancelled-clock world, none_left))
          | inr left ↦
              let slice = min ms delay_cancellation_slice_ms in
              let asked = (cancelled clocks context world).1 in
              let slept = sleep (pos slice) asked in
              let rest = delay_loop clocks context sleep fuel (ms - slice) slept in
              rw (free, left, EndsDelay)
                (EndsDelay-slice (clock world) (clock slept) slice ms (clock rest.1) rest.0
                  (is_sleep.sleeps slice asked ∙ ap (λ (t : ℕ). t + slice) (cancelled-clock world))
                  (omega arith)
                  (delay_loop-EndsDelay fuel (ms - slice) slept (ground (arith, h, left))))
        ]
      ]

  delay_result-HasEnded :
      (start ms now : ℕ) (end : DelayEnd) (result : CommandStepExecutionResult)
      → EndsDelay start ms end now
      → HasEnded start ms (delay_result clocks context end result).status now
  delay_result-HasEnded start ms now DelayEnd.elapsed result ended = inl (refl, ended)
  delay_result-HasEnded start ms now DelayEnd.cancelled result ended = inr (refl, ended.0, ended.1)
  delay_result-HasEnded start ms now DelayEnd.out_of_fuel result ended = absurd ended

  -- A delay that has a back end ends: it is completed after its whole duration, or cancelled at some
  -- time before.
  pub run_delay-HasEnded :
      (step : CommandStep) (i ms : ℕ) (last : LastResults) (world : World)
      → context.sleep_for_ms ≡ some sleep
      → HasEnded
          (clock world)
          ms
          (run_delay clocks context step i
            (record { duration_ms = pos ms })
            last
            world).result.status
          (clock
            (run_delay clocks context step i (record { duration_ms = pos ms }) last world).world)
  unfolding run_delay
  run_delay-HasEnded step i ms last world backed = elim (Bool-cases (eq_ℤ (pos ms) (pos 0))) [
    | inl at_once ↦ rw (at_once, run_delay) (inl (refl, ground (arith, at_once)))
    | inr waits ↦
        rw (waits, run_delay)
          (rw (backed, run_delay)
            (delay_result-HasEnded (clock world) ms _ _ _
              (delay_loop-EndsDelay (ms + 1) ms world (omega arith))))
  ]
