-- ===== src/Scan/Answered.antt =====
-- A device that answers every request: the scan completes.
use serial_value_matcher_nat.Base.{
  ℕ, suc, ◌+◌, ◌≡◌, refl, sym, ap, ◌∙◌, inl, inr, Bool, true, false, none, List, [], ◌∷◌, ◌++◌,
  arith, All, pos_part,
}
use mathlib.Core.Path.{subst}
use serial_value_matcher_nat.Modbus.Plan.{ScanBlock, ScanPlan}
use serial_value_matcher_nat.Scan.Types.{
  RtuTransportExchangeStatus, RtuTransportExchange, ScanExecutionStatus, ScanAttemptResult,
  ScanBlockResult, ScanExecutionOptions, ScanExecutionResult, Surroundings, is_success,
}
use serial_value_matcher_nat.Scan.Attempt.{
  invalid_plan_message, attempt_from_exchange, attempt_from_parsed, describe_failure,
  parsed_response, judged_attempt, AfterAttempt, now_utc, is_cancellation_requested, push_attempt,
  after_attempt, attempt_once, attempt_loop,
}
use serial_value_matcher_nat.Scan.Execute.{
  new_block_result, mark_cancelled, add_block, max_attempts, AfterBlock, final_status, new_result,
  publish_progress, sleep_before_next_block, after_block, block_once, block_loop, finish, execute,
}
use serial_value_matcher_nat.Scan.Report.{bad_count, blocks_of, IsScanning}
use serial_value_matcher_nat.Scan.Outcome.{StatusMeans, execute_reports}
use mathlib.Core.List.{append-nil}

judged-answered :
    (plan : ScanPlan) (block : ScanBlock) (i : ℕ) (exchange : RtuTransportExchange)
    → exchange.status ≡ RtuTransportExchangeStatus.success
    → (parsed_response plan block exchange.response_frame).ok ≡ true
    → is_success (judged_attempt plan block i exchange).status ≡ true
unfolding judged_attempt describe_failure attempt_from_parsed attempt_from_exchange
judged-answered plan block i exchange sent parsed = rw (sent, parsed) refl

module _ {World : Type 0} (surroundings : Surroundings World) (options : ScanExecutionOptions World)
    (plan : ScanPlan) (never_cancelled : options.should_cancel ≡ none) where
  -- Whatever the world, the device's answer to the block's request is one that the parser takes.
  pub record IsAnswered (block : ScanBlock) : Type 0 where
    pub sent :
        (w : World)
        → (surroundings.exchange block.request_frame options.response_timeout_ms w).0.status
          ≡ RtuTransportExchangeStatus.success
    pub taken :
        (w : World)
        → (parsed_response plan block
            (surroundings.exchange block.request_frame options.response_timeout_ms
              w).0.response_frame).ok
          ≡ true

  not_asked : (w : World) → is_cancellation_requested surroundings options w ≡ (false, w)
  unfolding is_cancellation_requested
  not_asked w = rw never_cancelled refl

  push-good :
      (b : ScanBlockResult) (a : ScanAttemptResult) (w : World)
      → is_success a.status ≡ true
      → ((push_attempt surroundings options plan b a w).0.ok ≡ true)
        × ((push_attempt surroundings options plan b a w).0.attempts ≡ b.attempts ++ (a ∷ []))
  unfolding push_attempt
  push-good b a w e = rw e (refl, refl)

  -- A result that a loop over attempts leaves good, with the scan going on.
  abbrev IsGood : ScanBlockResult × Bool × World → Type 0
  IsGood x = (x.0.ok ≡ true) × (x.1 ≡ false)

  attempt_once-answered :
      (limit i : ℕ) (b : ScanBlockResult) (w : World)
      → IsAnswered b.block
      → (r : ScanBlockResult) × (w' : World) × (attempt_once surroundings options plan limit i b w
          ≡ AfterAttempt.stop r false w')
        × (r.ok ≡ true)
  unfolding attempt_once after_attempt
  attempt_once-answered limit i b w h =
      let exchanged = surroundings.exchange b.block.request_frame options.response_timeout_ms w in
      let a = judged_attempt plan b.block i exchanged.0 in
      let good = judged-answered plan b.block i exchanged.0 (h.sent w) (h.taken w) in
      let pushed = push_attempt surroundings options plan b a exchanged.1 in
      (pushed.0, pushed.1, rw (not_asked w, good) refl, (push-good b a exchanged.1 good).0)

  attempt_loop-IsGood :
      (limit left i : ℕ) (b : ScanBlockResult) (w : World)
      → IsAnswered b.block
      → IsGood (attempt_loop surroundings options plan limit (suc left) i b w)
  unfolding attempt_loop
  attempt_loop-IsGood limit left i b w h =
      let x = attempt_once-answered limit i b w h in rw (x.2, attempt_loop) (x.3, refl)

  after_block-next :
      (position : ℕ) (r : ScanExecutionResult) (b : ScanBlockResult) (w : World)
      → b.ok ≡ true
      → (r' : ScanExecutionResult) × (w' : World) × (after_block surroundings options plan position
            r b false w
          ≡ AfterBlock.next r' w')
        × (r'.failed_block_count ≡ r.failed_block_count)
  unfolding after_block mark_cancelled add_block
  after_block-next position r b w good =
      let published = publish_progress surroundings options plan (add_block r b) w in
      (
        add_block r b,
        sleep_before_next_block surroundings options plan (position + 1) published,
        rw good refl,
        rw good refl,
      )

  block_once-next :
      (position : ℕ) (block : ScanBlock) (r : ScanExecutionResult) (w : World)
      → IsAnswered block
      → (r' : ScanExecutionResult) × (w' : World) × (block_once surroundings options plan position
            block r w
          ≡ AfterBlock.next r' w')
        × (r'.failed_block_count ≡ r.failed_block_count)
  unfolding block_once new_block_result
  block_once-next position block r w h =
      let one_more : suc (pos_part plan.retry_count) ≡ max_attempts plan = omega arith in
      let good =
        subst
          (λ left. IsGood (
            attempt_loop surroundings options plan (max_attempts plan) left 0
              (new_block_result block) w))
          one_more
          (attempt_loop-IsGood (max_attempts plan) (pos_part plan.retry_count) 0
            (new_block_result block) w h) in
      let attempted =
        attempt_loop surroundings options plan (max_attempts plan) (max_attempts plan) 0
          (new_block_result block) w in
      let n = after_block-next position r attempted.0 attempted.2 good.0 in
      (n.0, n.1, rw (not_asked w, good.1) n.2, n.3)

  block_loop-good :
      (position : ℕ) (blocks : List ScanBlock) (r : ScanExecutionResult) (w : World)
      → All IsAnswered blocks
      → r.failed_block_count ≡ 0
      → ((block_loop surroundings options plan position blocks r w).0.failed_block_count ≡ 0)
        × ((block_loop surroundings options plan position blocks r w).1 ≡ false)
  unfolding block_loop
  block_loop-good position [] r w h clean = (clean, refl)
  block_loop-good position (block ∷ blocks) r w h clean =
      let x = block_once-next position block r w h.0 in
      rw (x.2, block_loop) (block_loop-good (position + 1) blocks x.0 x.1 h.1 (x.3 ∙ clean))

  finish-completed :
      (r : ScanExecutionResult) (cancelled : Bool) (w : World)
      → r.failed_block_count ≡ 0
      → cancelled ≡ false
      → (finish surroundings options r cancelled w).0.status ≡ ScanExecutionStatus.completed
  unfolding finish final_status
  finish-completed r cancelled w clean going = rw (going, clean) refl

  execute-completed :
      (world : World)
      → invalid_plan_message plan options ≡ none
      → All IsAnswered plan.blocks
      → (execute surroundings options plan world).0.status ≡ ScanExecutionStatus.completed
  unfolding execute new_result
  execute-completed world taken answered =
      let started = now_utc surroundings options world in
      let scanned =
        block_loop-good 0 plan.blocks (new_result plan started.0) started.1 answered refl in
      rw (taken, execute) (finish-completed _ _ _ scanned.0 scanned.1)

  -- A completed scan has done every block of its plan, and well.
  completed_did_all :
      (left : List ScanBlock) (r : ScanExecutionResult) (w : World)
      → IsScanning surroundings options plan left r
      → StatusMeans surroundings options plan left r w
      → r.status ≡ ScanExecutionStatus.completed
      → (blocks_of r.blocks ≡ plan.blocks) × (bad_count r.blocks ≡ 0)
  completed_did_all left r w s (inl cancelled) e = absurd (cc (cancelled.0, e))
  completed_did_all left r w s (inr means) e =
      let done : (r.failed_block_count ≡ 0) × (left ≡ []) = ground (arith, means, e) in
      (
        sym (append-nil (blocks_of r.blocks))
            ∙ (ap (λ rest. blocks_of r.blocks ++ rest) (sym done.1) ∙ s.in_order),
        sym s.bad ∙ done.0,
      )

  -- If nothing can cancel the scan, the executor takes the plan and the device always answers each
  -- block's request with a response that parses, the scan is completed: every block of the plan is
  -- done in order, and none is bad.
  pub execute_completes :
      (world : World)
      → invalid_plan_message plan options ≡ none
      → All IsAnswered plan.blocks
      → ((execute surroundings options plan world).0.status ≡ ScanExecutionStatus.completed)
        × (blocks_of (execute surroundings options plan world).0.blocks ≡ plan.blocks)
        × (bad_count (execute surroundings options plan world).0.blocks ≡ 0)
  execute_completes world taken answered =
      let completed = execute-completed world taken answered in
      let reports = execute_reports surroundings options plan world taken in
      let all = completed_did_all reports.0 _ _ reports.1 reports.2 completed in
      (completed, all.0, all.1)
