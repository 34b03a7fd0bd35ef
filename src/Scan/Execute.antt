-- ===== src/Scan/Execute.antt =====
-- src/core/modbus_scan_executor_core.cpp: `ScanExecutor::execute`, the loop over a plan's blocks.
use serial_value_matcher_nat.Base.{
  ℕ, ◌+◌, String, Bool, true, false, not, ◌&&◌, ◌||◌, none, some, List, [], ◌∷◌, ◌++◌, ltb, leb,
  ◌==◌, if◌then◌else◌, length, is_empty, pos_part, leb_ℤ, pos, empty_text,
}
use serial_value_matcher_nat.Modbus.Plan.{ScanBlock, ScanPlan}
use serial_value_matcher_nat.Scan.Types.{
  ScanExecutionStatus, ScanBlockResult, ScanExecutionOptions, ScanExecutionResult, Surroundings,
}
use serial_value_matcher_nat.Scan.Attempt.{
  invalid_plan_message, now_utc, is_cancellation_requested, attempt_loop,
}

unfoldable pub new_block_result : ScanBlock → ScanBlockResult
new_block_result block = record {
  block = block;
  attempts = [];
  observations = [];
  ok = false;
  final_error_message = "";
}

unfoldable pub mark_cancelled : Bool → ScanExecutionResult → ScanExecutionResult
mark_cancelled cancelled result =
    if cancelled then record result { error_message = "Scan was cancelled." } else result

unfoldable pub first_message : String → String → String
first_message message later = if empty_text message then later else message

-- A finished block is counted, its observations are kept if it is good, and it is pushed.
unfoldable pub add_block : ScanExecutionResult → ScanBlockResult → ScanExecutionResult
unfolding first_message
add_block result block_result =
    if block_result.ok
    then record result {
      success_block_count = result.success_block_count + 1;
      observations = result.observations ++ block_result.observations;
      blocks = result.blocks ++ (block_result ∷ []);
    }
    else record result {
      failed_block_count = result.failed_block_count + 1;
      error_message = first_message result.error_message block_result.final_error_message;
      blocks = result.blocks ++ (block_result ∷ []);
    }

-- `retryCount + 1`; the plan's check leaves no negative count.
abbrev pub max_attempts : ScanPlan → ℕ
max_attempts plan = pos_part plan.retry_count + 1

-- Where the loop goes on after one block: out of it, or to the next block.
pub data AfterBlock (World : Type 0) : Type 0 where
  stop : ScanExecutionResult → Bool → World → AfterBlock World
  next : ScanExecutionResult → World → AfterBlock World

-- The status and the message, from the counts.
unfoldable pub final_status : Bool → ScanExecutionResult → ScanExecutionStatus
final_status cancelled result =
    if cancelled
    then ScanExecutionStatus.cancelled
    else if result.failed_block_count == 0
    then ScanExecutionStatus.completed
    else if ltb 0 result.success_block_count
    then ScanExecutionStatus.completed_with_errors
    else ScanExecutionStatus.failed

unfoldable pub final_message : Bool → ScanExecutionResult → String
final_message cancelled result =
    if not cancelled && result.failed_block_count == 0 then "" else result.error_message

unfoldable pub new_result : ScanPlan → String → ScanExecutionResult
new_result plan started_at_utc = record {
  status = ScanExecutionStatus.failed;
  error_message = "";
  started_at_utc = started_at_utc;
  finished_at_utc = "";
  plan = plan;
  blocks = [];
  observations = [];
  success_block_count = 0;
  failed_block_count = 0;
}

module _ {World : Type 0} (surroundings : Surroundings World)
    (options : ScanExecutionOptions World) where
  unfoldable pub publish_progress : ScanPlan → ScanExecutionResult → World → World
  publish_progress plan result world = elim options.on_progress [
    | none ↦ world
    | some on_progress ↦
        on_progress
          record {
            completed_blocks = length result.blocks;
            total_blocks = length plan.blocks;
            success_blocks = result.success_block_count;
            failed_blocks = result.failed_block_count;
            observations = length result.observations;
          }
          world
  ]

  unfoldable pub sleep_before_next_block : ScanPlan → ℕ → World → World
  sleep_before_next_block plan next_block_index world = elim options.sleep_for_ms [
    | none ↦ world
    | some sleep ↦
        if leb_ℤ plan.request_interval_ms (pos 0) || leb (length plan.blocks) next_block_index
        then world
        else sleep plan.request_interval_ms world
  ]

  -- The rest of the body once the block's attempts are over.
  unfoldable pub after_block :
      ScanPlan → ℕ → ScanExecutionResult → ScanBlockResult → Bool → World → AfterBlock World
  after_block plan position result block_result cancelled world =
      let marked = mark_cancelled cancelled result in
      let added = add_block marked block_result in
      let published = publish_progress plan added world in
      if cancelled && is_empty block_result.attempts
      then stop marked cancelled world
      else if cancelled || (not block_result.ok && not options.continue_on_block_error)
      then stop added cancelled published
      else next added (sleep_before_next_block plan (position + 1) published)

  -- The loop's body.
  unfoldable pub block_once :
      ScanPlan → ℕ → ScanBlock → ScanExecutionResult → World → AfterBlock World
  block_once plan position block result world =
      let cancelled = is_cancellation_requested surroundings options world in
      let attempted =
        attempt_loop surroundings options plan (max_attempts plan) (max_attempts plan) 0
          (new_block_result block) cancelled.1 in
      if cancelled.0
      then stop (mark_cancelled true result) true
          (publish_progress plan (mark_cancelled true result) cancelled.1)
      else after_block plan position result attempted.0 attempted.1 attempted.2

  -- The loop over the blocks from `position` on.
  unfoldable pub block_loop :
      ScanPlan
      → ℕ
      → List ScanBlock
      → ScanExecutionResult
      → World
      → ScanExecutionResult × Bool × World
  block_loop plan position [] result world = (result, false, world)
  block_loop plan position (block ∷ blocks) result world =
      elim (block_once plan position block result world) [
        | stop result' cancelled world' ↦ (result', cancelled, world')
        | next result' world' ↦ block_loop plan (position + 1) blocks result' world'
      ]

  unfoldable pub finish : ScanExecutionResult → Bool → World → ScanExecutionResult × World
  unfolding final_status final_message
  finish result cancelled world =
      let now = now_utc surroundings options world in
      (
        record result {
          status = final_status cancelled result;
          error_message = final_message cancelled result;
          finished_at_utc = now.0;
        },
        now.1,
      )

  unfoldable pub execute : ScanPlan → World → ScanExecutionResult × World
  execute plan world =
      let started = now_utc surroundings options world in
      let result = new_result plan started.0 in
      let scanned = block_loop plan 0 plan.blocks result started.1 in
      elim (invalid_plan_message plan options) [
        | none ↦ finish scanned.0 scanned.1 scanned.2
        | some message ↦
            let now = now_utc surroundings options started.1 in
            (record result { error_message = message; finished_at_utc = now.0 }, now.1)
      ]
