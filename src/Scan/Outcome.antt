-- ===== src/Scan/Outcome.antt =====
-- `ScanExecutor::execute` as a whole.
use serial_value_matcher_nat.Base.{
  ◌<◌, String, ◌≡◌, refl, sym, ◌⊎◌, inl, inr, Bool, true, false, none, List, [], arith,
}
use Prim.{tt}
use mathlib.Core.Path.{subst}
use serial_value_matcher_nat.Modbus.Plan.{ScanBlock, ScanPlan}
use serial_value_matcher_nat.Scan.Types.{
  ScanExecutionStatus, ScanExecutionOptions, ScanExecutionResult, Surroundings,
}
use serial_value_matcher_nat.Scan.Attempt.{invalid_plan_message, now_utc}
use serial_value_matcher_nat.Scan.Execute.{
  final_status, final_message, new_result, block_loop, finish, execute,
}
use serial_value_matcher_nat.Scan.Report.{IsScanning}
use serial_value_matcher_nat.Scan.Cancelled.{ToldYes, block_loop-ScanByYes}
use serial_value_matcher_nat.Scan.ExecuteLaws.{Ended, block_loop-Scanned}

module _ {World : Type 0} (surroundings : Surroundings World) (options : ScanExecutionOptions World)
    (plan : ScanPlan) where
  -- Why a block with errors may be the last one, `left` of the plan's blocks after it.
  abbrev pub ErrorsEnd : List ScanBlock → ScanExecutionResult → Type 0
  ErrorsEnd left r =
      (0 < r.failed_block_count) × ((left ≡ []) ⊎ (options.continue_on_block_error ≡ false))

  -- A cancelled scan: its test for cancellation answered yes, and up to the world at the end the
  -- progress was told at most, and the clock was read.
  abbrev pub CancelledBy : World → Type 0
  CancelledBy after =
      (w : World) × ToldYes surroundings options plan w
      × ((now_utc surroundings options w).1 ≡ after)

  -- The status other than cancelled and what it means, `left` of the plan's blocks not done.
  abbrev pub EndMeans : List ScanBlock → ScanExecutionResult → Type 0
  EndMeans left r =
      ((r.status ≡ ScanExecutionStatus.completed)
        × (r.failed_block_count ≡ 0)
        × (left ≡ [])
        × (r.error_message ≡ ""))
      ⊎ (((r.status ≡ ScanExecutionStatus.completed_with_errors)
            × (0 < r.success_block_count)
            × ErrorsEnd left r)
          ⊎ ((r.status ≡ ScanExecutionStatus.failed)
              × (r.success_block_count ≡ 0)
              × ErrorsEnd left r))

  -- The status of a scan that ends in the world `after`.
  abbrev pub StatusMeans : List ScanBlock → ScanExecutionResult → World → Type 0
  StatusMeans left r after =
      ((r.status ≡ ScanExecutionStatus.cancelled) × CancelledBy after) ⊎ EndMeans left r

  finish-EndMeans :
      (left : List ScanBlock) (r : ScanExecutionResult) (w : World)
      → ((left ≡ []) ⊎ ((0 < r.failed_block_count) × (options.continue_on_block_error ≡ false)))
      → EndMeans left (finish surroundings options r false w).0
  unfolding finish final_status final_message
  finish-EndMeans left r w ended = ground arith

  finish-StatusMeans :
      (left : List ScanBlock) (r : ScanExecutionResult) (cancelled : Bool) (w : World)
      → Ended surroundings options plan left r cancelled
      → (cancelled ≡ true → ToldYes surroundings options plan w)
      → let end = finish surroundings options r cancelled w in StatusMeans left end.0 end.1
  unfolding finish final_status
  finish-StatusMeans left r true w ended told = inl (refl, (w, told refl, refl))
  finish-StatusMeans left r false w (inl impossible) told = absurd (cc impossible)
  finish-StatusMeans left r false w (inr ended) told = inr (finish-EndMeans left r w ended.1)

  execute_taken :
      (world : World)
      → invalid_plan_message plan options ≡ none
      → let started = now_utc surroundings options world in
        let scanned =
          block_loop surroundings options plan 0 plan.blocks
            (new_result plan started.0)
            started.1 in
        execute surroundings options plan world
        ≡ finish surroundings options scanned.0 scanned.1 scanned.2
  unfolding execute
  execute_taken world taken = rw (taken, execute) refl

  new_result-IsScanning :
      (utc : String) → IsScanning surroundings options plan plan.blocks (new_result plan utc)
  unfolding new_result
  new_result-IsScanning utc = record {
    in_order = refl;
    good = refl;
    bad = refl;
    observed = refl;
    reported = tt;
    same_plan = refl;
  }

  finish-IsScanning :
      (left : List ScanBlock) (r : ScanExecutionResult) (cancelled : Bool) (w : World)
      → IsScanning surroundings options plan left r
      → IsScanning surroundings options plan left (finish surroundings options r cancelled w).0
  unfolding finish
  finish-IsScanning left r cancelled w s = record {
    in_order = s.in_order;
    good = s.good;
    bad = s.bad;
    observed = s.observed;
    reported = s.reported;
    same_plan = s.same_plan;
  }

  -- A scan of a plan that the executor takes reports a prefix of the plan's blocks in order, each
  -- settled and tried at least once and at most once more than the retry count; its counts are
  -- those of the good and bad blocks and its observations those of the good blocks; and its
  -- status is cancelled, the caller's test for cancellation having answered yes with nothing after
  -- it but a call of the progress and of the clock, or completed with all blocks done, none bad and
  -- no message, or completed with errors or failed with a bad block, some good one or none, all
  -- blocks done or the options stopping at the first bad one.
  pub execute_reports :
      (world : World)
      → invalid_plan_message plan options ≡ none
      → (left : List ScanBlock) × IsScanning surroundings options plan left
          (execute surroundings options plan world).0
        × (let end = execute surroundings options plan world in StatusMeans left end.0 end.1)
  execute_reports world taken =
      let started = now_utc surroundings options world in
      let scanned =
        block_loop-Scanned surroundings options plan 0 plan.blocks (new_result plan started.0)
          started.1 (new_result-IsScanning started.0) in
      subst
        (λ x.
          (left : List ScanBlock) × IsScanning surroundings options plan left x.0
          × StatusMeans left x.0 x.1)
        (sym (execute_taken world taken))
        (
          scanned.0,
          finish-IsScanning scanned.0 _ _ _ scanned.1,
          finish-StatusMeans scanned.0 _ _ _ scanned.2 (
              block_loop-ScanByYes surroundings options plan 0 plan.blocks
                (new_result plan started.0) started.1),
        )
