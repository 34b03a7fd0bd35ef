-- ===== src/Scan/Cancelled.antt =====
-- A scan that ends as cancelled was cancelled: the last that it asked was answered by yes.
use serial_value_matcher_nat.Base.{
  ℕ, zero, suc, ◌+◌, ◌≡◌, refl, ◌⊎◌, inl, inr, Bool, true, false, not, ◌&&◌, Option, none, some,
  List, [], ◌∷◌, Bool-cases, is_empty,
}
use Prim.{tt}
use serial_value_matcher_nat.Modbus.Plan.{ScanBlock, ScanPlan}
use serial_value_matcher_nat.Scan.Types.{
  ScanAttemptStatus, ScanBlockResult, ScanExecutionOptions, ScanExecutionResult, Surroundings,
  is_success,
}
use serial_value_matcher_nat.Scan.Attempt.{
  AfterAttempt, is_cancellation_requested, after_attempt, attempt_once, attempt_loop,
}
use serial_value_matcher_nat.Scan.Execute.{
  new_block_result, mark_cancelled, add_block, max_attempts, AfterBlock, publish_progress,
  after_block, block_once, block_loop,
}

module _ {World : Type 0} (surroundings : Surroundings World)
    (options : ScanExecutionOptions World) where
  -- The world right after the caller's test for cancellation answered yes.
  abbrev pub SaidYes : World → Type 0
  SaidYes after =
      (should_cancel : World → Bool × World) × (options.should_cancel ≡ some should_cancel)
      × ((before : World) × ((should_cancel before).0 ≡ true) × ((should_cancel before).1 ≡ after))

  said_yes :
      (test : Option (World → Bool × World)) (w : World)
      → options.should_cancel ≡ test
      → (is_cancellation_requested surroundings options w).0 ≡ true
      → SaidYes (is_cancellation_requested surroundings options w).1
  unfolding is_cancellation_requested
  said_yes none w e h = absurd (cc (rw e at h))
  said_yes (some should_cancel) w e h = (should_cancel, e, (w, rw e at h, rw e refl))

  asked-SaidYes :
      (w : World)
      → (is_cancellation_requested surroundings options w).0 ≡ true
      → SaidYes (is_cancellation_requested surroundings options w).1
  asked-SaidYes w h = said_yes options.should_cancel w refl h

  abbrev StopsByYes : AfterAttempt World → Type 0
  StopsByYes (AfterAttempt.stop b cancelled w) = cancelled ≡ true → SaidYes w
  StopsByYes (AfterAttempt.again b w) = Unit

  after_attempt-StopsByYes :
      (status : ScanAttemptStatus) (retry_allowed : Bool) (b : ScanBlockResult) (w : World)
      → StopsByYes (after_attempt surroundings options status retry_allowed b w)
  unfolding after_attempt
  after_attempt-StopsByYes status retry_allowed b w = elim (Bool-cases (is_success status)) [
    | inl good ↦ rw good (λ h. absurd (cc h))
    | inr bad ↦ elim (Bool-cases (is_cancellation_requested surroundings options w).0) [
      | inl yes_said ↦ rw (bad, yes_said) (λ _. asked-SaidYes w yes_said)
      | inr going ↦ elim (Bool-cases retry_allowed) [
        | inl again ↦ rw (bad, going, again) tt
        | inr over ↦ rw (bad, going, over) (λ h. absurd (cc h))
      ]
    ]
  ]

  attempt_once-StopsByYes :
      (plan : ScanPlan) (limit i : ℕ) (b : ScanBlockResult) (w : World)
      → StopsByYes (attempt_once surroundings options plan limit i b w)
  unfolding attempt_once
  attempt_once-StopsByYes plan limit i b w =
      elim (Bool-cases (is_cancellation_requested surroundings options w).0) [
        | inl yes_said ↦ rw yes_said (λ _. asked-SaidYes w yes_said)
        | inr going ↦ rw going (after_attempt-StopsByYes _ _ _ _)
      ]

  -- The loop over the attempts.
  abbrev EndsByYes : ScanBlockResult × Bool × World → Type 0
  EndsByYes x = x.1 ≡ true → SaidYes x.2

  attempts_after :
      (x : AfterAttempt World) (round : ScanBlockResult → World → ScanBlockResult × Bool × World)
      → StopsByYes x
      → ((b : ScanBlockResult) (w : World) → EndsByYes (round b w))
      → EndsByYes (elim x [
        | AfterAttempt.stop b cancelled w ↦ (b, cancelled, w)
        | AfterAttempt.again b w ↦ round b w
      ])
  attempts_after (AfterAttempt.stop b cancelled w) round stops more = stops
  attempts_after (AfterAttempt.again b w) round stops more = more b w

  attempt_loop-EndsByYes :
      (plan : ScanPlan) (limit left i : ℕ) (b : ScanBlockResult) (w : World)
      → EndsByYes (attempt_loop surroundings options plan limit left i b w)
  unfolding attempt_loop
  attempt_loop-EndsByYes plan limit zero i b w = λ h. absurd (cc h)
  attempt_loop-EndsByYes plan limit (suc left) i b w =
      attempts_after (attempt_once surroundings options plan limit i b w)
        (attempt_loop surroundings options plan limit left (i + 1))
        (attempt_once-StopsByYes plan limit i b w) (attempt_loop-EndsByYes plan limit left (i + 1))

  -- The world after such an answer, or after the progress that was told right behind it.
  abbrev pub ToldYes : ScanPlan → World → Type 0
  ToldYes plan w =
      SaidYes w
      ⊎ ((r : ScanExecutionResult) × (before : World) × SaidYes before
          × (publish_progress surroundings options plan r before ≡ w))

  abbrev BlockByYes : ScanPlan → AfterBlock World → Type 0
  BlockByYes plan (AfterBlock.stop r cancelled w) = cancelled ≡ true → ToldYes plan w
  BlockByYes plan (AfterBlock.next r w) = Unit

  after_block-BlockByYes :
      (plan : ScanPlan) (position : ℕ) (r : ScanExecutionResult) (b : ScanBlockResult)
      (cancelled : Bool) (w : World)
      → (cancelled ≡ true → SaidYes w)
      → BlockByYes plan (after_block surroundings options plan position r b cancelled w)
  unfolding after_block
  after_block-BlockByYes plan position r b true w said = elim (Bool-cases (is_empty b.attempts)) [
    | inl e ↦ rw e (λ _. inl (said refl))
    | inr e ↦ rw e (λ _. inr (add_block (mark_cancelled true r) b, w, said refl, refl))
  ]
  after_block-BlockByYes plan position r b false w said =
      elim (Bool-cases (not b.ok && not options.continue_on_block_error)) [
        | inl e ↦ rw e (λ h. absurd (cc h))
        | inr e ↦ rw e tt
      ]

  block_once-BlockByYes :
      (plan : ScanPlan) (position : ℕ) (block : ScanBlock) (r : ScanExecutionResult) (w : World)
      → BlockByYes plan (block_once surroundings options plan position block r w)
  unfolding block_once
  block_once-BlockByYes plan position block r w =
      elim (Bool-cases (is_cancellation_requested surroundings options w).0) [
        | inl yes_said ↦
            rw yes_said (λ _. inr (mark_cancelled true r, _, asked-SaidYes w yes_said, refl))
        | inr going ↦ rw going (
            after_block-BlockByYes plan position r _ _ _ (
              attempt_loop-EndsByYes plan (max_attempts plan) (max_attempts plan) 0
                (new_block_result block) (is_cancellation_requested surroundings options w).1))
      ]

  -- The loop over the blocks.
  abbrev pub ScanByYes : ScanPlan → ScanExecutionResult × Bool × World → Type 0
  ScanByYes plan x = x.1 ≡ true → ToldYes plan x.2

  blocks_by_yes :
      (plan : ScanPlan) (x : AfterBlock World)
      (round : ScanExecutionResult → World → ScanExecutionResult × Bool × World)
      → BlockByYes plan x
      → ((r : ScanExecutionResult) (w : World) → ScanByYes plan (round r w))
      → ScanByYes plan (elim x [
        | AfterBlock.stop r cancelled w ↦ (r, cancelled, w)
        | AfterBlock.next r w ↦ round r w
      ])
  blocks_by_yes plan (AfterBlock.stop r cancelled w) round goes more = goes
  blocks_by_yes plan (AfterBlock.next r w) round goes more = more r w

  pub block_loop-ScanByYes :
      (plan : ScanPlan) (position : ℕ) (blocks : List ScanBlock) (r : ScanExecutionResult)
      (w : World)
      → ScanByYes plan (block_loop surroundings options plan position blocks r w)
  unfolding block_loop
  block_loop-ScanByYes plan position [] r w = λ h. absurd (cc h)
  block_loop-ScanByYes plan position (block ∷ blocks) r w =
      blocks_by_yes plan (block_once surroundings options plan position block r w)
        (block_loop surroundings options plan (position + 1) blocks)
        (block_once-BlockByYes plan position block r w)
        (block_loop-ScanByYes plan (position + 1) blocks)
