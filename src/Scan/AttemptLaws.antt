-- ===== src/Scan/AttemptLaws.antt =====
-- How the retry loop of a block ends: cancelled, or after one last attempt that decides the block.
use Prim.{tt}
use mathlib.Core.Path.{subst}
use serial_value_matcher_nat.Base.{
  ℕ, zero, suc, ◌+◌, ◌<◌, String, ◌≡◌, refl, ap, ◌∙◌, ◌⊎◌, inl, inr, Bool, true, false, ◌&&◌, ◌||◌,
  List, [], ◌∷◌, ◌++◌, arith, ltb, Bool-cases, length, All, length-append, All-append,
}
use serial_value_matcher_nat.Modbus.Plan.{ScanBlock, ScanPlan}
use serial_value_matcher_nat.Scan.Types.{
  ScanAttemptResult, ScanBlockResult, ScanExecutionOptions, Surroundings, is_success,
}
use serial_value_matcher_nat.Scan.Attempt.{
  should_retry, parsed_response, judged_attempt, scan_observations, AfterAttempt,
  best_observed_at_utc, is_cancellation_requested, push_attempt, attempt_once, attempt_loop,
}
use serial_value_matcher_nat.Scan.AttemptCases.{judged-index, judged-success, after_attempt_cases}

module _ {World : Type 0} (surroundings : Surroundings World)
    (options : ScanExecutionOptions World) where
  -- The attempts before the last one: each failed in a way that the options retry.
  abbrev pub AllRetryable : List ScanAttemptResult → Type 0
  AllRetryable attempts = All (λ a. should_retry a.status options ≡ true) attempts

  -- The loop at attempt `i`: nothing decided yet.
  pub record IsPending (i : ℕ) (b : ScanBlockResult) : Type 0 where
    pub attempted : length b.attempts ≡ i
    pub retryable : AllRetryable b.attempts
    pub not_ok : b.ok ≡ false
    pub unobserved : b.observations ≡ []

  -- What the last attempt decides, at most `limit` of them allowed.
  abbrev pub Verdict :
      ScanPlan → ℕ → ScanBlockResult → List ScanAttemptResult → ScanAttemptResult → Bool → Type 0
  Verdict plan limit b earlier last cancelled =
      ((b.ok ≡ true)
        × (is_success last.status ≡ true)
        × (cancelled ≡ false)
        × ((parsed_response plan b.block last.response_frame).ok ≡ true)
        × ((utc : String) × (b.observations
              ≡ scan_observations plan b.block last.attempt_index utc
                  (parsed_response plan b.block last.response_frame).observations)))
      ⊎ ((b.ok ≡ false)
          × (b.observations ≡ [])
          × (is_success last.status ≡ false)
          × ((cancelled ≡ true)
              ⊎ ((should_retry last.status options ≡ false) ⊎ (length earlier + 1 ≡ limit))))

  -- How the loop leaves a block: cancelled before an attempt, or after a last attempt.
  abbrev pub IsSettled : ScanPlan → ℕ → ScanBlockResult → Bool → Type 0
  IsSettled plan limit b cancelled =
      ((cancelled ≡ true)
        × (length b.attempts < limit)
        × AllRetryable b.attempts
        × (b.ok ≡ false)
        × (b.observations ≡ []))
      ⊎ ((earlier : List ScanAttemptResult) × (last : ScanAttemptResult) × (b.attempts
            ≡ earlier ++ (last ∷ []))
          × AllRetryable earlier
          × (length earlier < limit)
          × (last.attempt_index ≡ length earlier)
          × Verdict plan limit b earlier last cancelled)

  push-attempts :
      (plan : ScanPlan) (b : ScanBlockResult) (a : ScanAttemptResult) (w : World)
      → ((push_attempt surroundings options plan b a w).0.attempts ≡ b.attempts ++ (a ∷ []))
        × ((push_attempt surroundings options plan b a w).0.block ≡ b.block)
        × ((push_attempt surroundings options plan b a w).0.ok ≡ (is_success a.status || b.ok))
  unfolding push_attempt
  push-attempts plan b a w = elim (Bool-cases (is_success a.status)) [
    | inl e ↦ rw e (refl, refl, refl)
    | inr e ↦ rw e (refl, refl, refl)
  ]

  push-observed :
      (plan : ScanPlan) (b : ScanBlockResult) (a : ScanAttemptResult) (w : World)
      → b.observations ≡ []
      → is_success a.status ≡ true
      → (utc : String) × ((push_attempt surroundings options plan b a w).0.observations
          ≡ scan_observations plan b.block a.attempt_index utc
              (parsed_response plan b.block a.response_frame).observations)
  unfolding push_attempt
  push-observed plan b a w empty e =
      ((best_observed_at_utc surroundings options a w).0, rw (e, empty) refl)

  push-unobserved :
      (plan : ScanPlan) (b : ScanBlockResult) (a : ScanAttemptResult) (w : World)
      → is_success a.status ≡ false
      → (push_attempt surroundings options plan b a w).0.observations ≡ b.observations
  unfolding push_attempt
  push-unobserved plan b a w e = rw e refl

  -- What holds where the loop goes on: settled outside, pending one attempt later inside.
  abbrev pub Goes : ScanPlan → ℕ → ℕ → ScanBlock → AfterAttempt World → Type 0
  Goes plan limit i block (AfterAttempt.stop b cancelled w) =
      (b.block ≡ block) × IsSettled plan limit b cancelled
  Goes plan limit i block (AfterAttempt.again b w) =
      (b.block ≡ block) × IsPending (i + 1) b × (i + 1 < limit)

  -- An attempt pushed on a pending block: a good one settles it, a bad one settles it when no
  -- other follows, and else leaves it pending.
  module _ (plan : ScanPlan) (limit i : ℕ) (b : ScanBlockResult) (a : ScanAttemptResult) (w : World)
      (small : i < limit) (pending : IsPending i b) (index : a.attempt_index ≡ i) where
    good-IsSettled :
        is_success a.status ≡ true
        → (parsed_response plan b.block a.response_frame).ok ≡ true
        → IsSettled plan limit (push_attempt surroundings options plan b a w).0 false
    good-IsSettled e parsed =
        let fields = push-attempts plan b a w in
        inr (
          b.attempts,
          a,
          fields.0,
          pending.retryable,
          ground (arith, pending.attempted),
          ground (arith, pending.attempted, index),
          inl (
            rw (fields.2, e) refl,
            e,
            refl,
            rw fields.1 parsed,
            rw fields.1 (push-observed plan b a w pending.unobserved e),
          ),
        )

    bad-IsSettled :
        (cancelled : Bool)
        → is_success a.status ≡ false
        → (cancelled ≡ true) ⊎ ((should_retry a.status options ≡ false) ⊎ (i + 1 ≡ limit))
        → IsSettled plan limit (push_attempt surroundings options plan b a w).0 cancelled
    bad-IsSettled cancelled e why =
        let fields = push-attempts plan b a w in
        inr (
          b.attempts,
          a,
          fields.0,
          pending.retryable,
          ground (arith, pending.attempted),
          ground (arith, pending.attempted, index),
          inr (
            rw (fields.2, e) pending.not_ok,
            push-unobserved plan b a w e ∙ pending.unobserved,
            e,
            rw pending.attempted why,
          ),
        )

    more-IsPending :
        is_success a.status ≡ false
        → should_retry a.status options ≡ true
        → IsPending (i + 1) (push_attempt surroundings options plan b a w).0
    more-IsPending e retry =
        let fields = push-attempts plan b a w in
        record {
          attempted =
              ap length fields.0
              ∙ (length-append b.attempts (a ∷ []) ∙ ap (◌+ 1) pending.attempted);
          retryable = rw fields.0 (All-append _ b.attempts (a ∷ []) pending.retryable (retry, tt));
          not_ok = fields.2 ∙ rw e pending.not_ok;
          unobserved = push-unobserved plan b a w e ∙ pending.unobserved;
        }

  attempt_once-Goes :
      (plan : ScanPlan) (limit i : ℕ) (b : ScanBlockResult) (w : World)
      → i < limit
      → IsPending i b
      → Goes plan limit i b.block (attempt_once surroundings options plan limit i b w)
  unfolding attempt_once
  attempt_once-Goes plan limit i b w small pending =
      let asked = is_cancellation_requested surroundings options w in
      let exchanged =
        surroundings.exchange b.block.request_frame options.response_timeout_ms asked.1 in
      let a = judged_attempt plan b.block i exchanged.0 in
      let index = judged-index plan b.block i exchanged.0 in
      let pushed = push_attempt surroundings options plan b a exchanged.1 in
      let same = (push-attempts plan b a exchanged.1).1 in
      let w' = exchanged.1 in
      elim (Bool-cases asked.0) [
        | inl e ↦ rw e (
          refl,
          inl (
            refl,
            rw pending.attempted small,
            pending.retryable,
            pending.not_ok,
            pending.unobserved,
          ),
        )
        | inr e ↦ rw e (
            after_attempt_cases surroundings options (Goes plan limit i b.block) a.status
              (ltb (i + 1) limit && should_retry a.status options) pushed.0 pushed.1
              (λ good. (
                same,
                good-IsSettled plan limit i b a w' small pending index good
                    (judged-success plan b.block i exchanged.0 good),
              ))
              (λ bad w''.
                (same, bad-IsSettled plan limit i b a w' small pending index true bad (inl refl)))
              (λ bad spent w''. (
                same,
                bad-IsSettled plan limit i b a w' small pending index false bad
                    (inr (ground arith)),
              ))
              (λ bad more w''. (
                same,
                more-IsPending plan limit i b a w' small pending index bad (ground arith),
                ground arith,
              )))
      ]

  -- The loop's result, wherever the body left it.
  abbrev pub Settles : ScanPlan → ℕ → ScanBlock → ScanBlockResult × Bool × World → Type 0
  Settles plan limit block r = (r.0.block ≡ block) × IsSettled plan limit r.0 r.1

  loop_after :
      (plan : ScanPlan) (limit i : ℕ) (block : ScanBlock) (x : AfterAttempt World)
      (round : ScanBlockResult → World → ScanBlockResult × Bool × World)
      → Goes plan limit i block x
      → ((b : ScanBlockResult) (w : World)
          → b.block ≡ block
          → IsPending (i + 1) b
          → i + 1 < limit
          → Settles plan limit block (round b w))
      → Settles plan limit block (elim x [
        | AfterAttempt.stop b cancelled w ↦ (b, cancelled, w)
        | AfterAttempt.again b w ↦ round b w
      ])
  loop_after plan limit i block (AfterAttempt.stop b cancelled w) round goes next = goes
  loop_after plan limit i block (AfterAttempt.again b w) round goes next =
      next b w goes.0 goes.1 goes.2

  pub attempt_loop-Settles :
      (plan : ScanPlan) (limit left i : ℕ) (b : ScanBlockResult) (w : World)
      → i + left ≡ limit
      → i < limit
      → IsPending i b
      → Settles plan limit b.block (attempt_loop surroundings options plan limit left i b w)
  unfolding attempt_loop
  attempt_loop-Settles plan limit zero i b w total small pending =
      let impossible : ⊥ = omega (arith, total, small) in elim impossible [ ]
  attempt_loop-Settles plan limit (suc left) i b w total small pending =
      loop_after plan limit i b.block (attempt_once surroundings options plan limit i b w)
        (attempt_loop surroundings options plan limit left (i + 1))
        (attempt_once-Goes plan limit i b w small pending)
        (λ b' w' same pending' small'.
          subst
            (λ block.
              Settles plan limit block
                (attempt_loop surroundings options plan limit left (i + 1) b' w'))
            same
            (attempt_loop-Settles plan limit left (i + 1) b' w' (omega (arith, total)) small'
              pending'))
