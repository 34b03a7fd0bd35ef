-- ===== src/Scan/Attempt.antt =====
-- src/core/modbus_scan_executor_core.cpp: one request of a block, and the loop that retries it.
use serial_value_matcher_nat.Base.{
  ℕ, zero, suc, ◌+◌, String, Bool, true, false, not, ◌&&◌, ◌||◌, Option, none, some, List, [], ◌∷◌,
  ◌++◌, ltb, if◌then◌else◌, is_empty, ltb_ℤ, leb_ℤ, pos, empty_text,
}
use serial_value_matcher_nat.Modbus.Request.{is_supported_read_function}
use serial_value_matcher_nat.Modbus.Response.{
  RegisterObservation, ParseReadResponseResult, parse_read_response,
}
use serial_value_matcher_nat.Modbus.Plan.{ScanBlock, ScanPlan}
use serial_value_matcher_nat.Scan.Types.{
  RtuTransportExchangeStatus, RtuTransportExchange, ScanAttemptStatus, ScanAttemptResult,
  ScanObservation, ScanBlockResult, ScanExecutionOptions, Surroundings,
  describe_scan_attempt_status, is_success,
}

unfoldable pub block_is_invalid : ScanBlock → Option String
block_is_invalid block =
    if is_empty block.request_frame
    then some "Scan execution failed: request block is missing its raw request frame."
    else if ltb_ℤ block.start_address (pos 0)
        || (ltb_ℤ block.end_address block.start_address || leb_ℤ block.quantity (pos 0))
    then some "Scan execution failed: request block address or quantity is invalid."
    else none

unfoldable pub first_invalid_block : List ScanBlock → Option String
first_invalid_block [] = none
first_invalid_block (block ∷ blocks) =
    let later = first_invalid_block blocks in
    elim (block_is_invalid block) [ some message ↦ some message | none ↦ later ]

-- `none` stands for the empty message.
unfoldable pub invalid_plan_message :
    {World : Type 0} → ScanPlan → ScanExecutionOptions World → Option String
invalid_plan_message plan options =
    if ltb_ℤ plan.slave_id (pos 1) || ltb_ℤ (pos 247) plan.slave_id
    then some "Scan execution failed: slave id must be 1-247."
    else if not (is_supported_read_function plan.function_code)
    then some "Scan execution failed: unsupported read function."
    else if is_empty plan.blocks
    then some "Scan execution failed: scan plan has no request blocks."
    else if ltb_ℤ plan.retry_count (pos 0)
    then some "Scan execution failed: retry count must not be negative."
    else if ltb_ℤ options.response_timeout_ms (pos 0)
    then some "Scan execution failed: response timeout must not be negative."
    else first_invalid_block plan.blocks

abbrev pub should_retry : {World : Type 0} → ScanAttemptStatus → ScanExecutionOptions World → Bool
should_retry ScanAttemptStatus.success options = false
should_retry ScanAttemptStatus.timeout options = options.retry_on_timeout
should_retry ScanAttemptStatus.transport_error options = options.retry_on_transport_error
should_retry ScanAttemptStatus.parse_error options = options.retry_on_parse_error
should_retry ScanAttemptStatus.modbus_exception options = options.retry_on_modbus_exception

abbrev pub exchange_attempt_status : RtuTransportExchangeStatus → ScanAttemptStatus
exchange_attempt_status RtuTransportExchangeStatus.success = ScanAttemptStatus.parse_error
exchange_attempt_status RtuTransportExchangeStatus.timeout = ScanAttemptStatus.timeout
exchange_attempt_status RtuTransportExchangeStatus.transport_error =
    ScanAttemptStatus.transport_error

unfoldable pub exchange_message : RtuTransportExchangeStatus → String → String
exchange_message RtuTransportExchangeStatus.success message = message
exchange_message RtuTransportExchangeStatus.timeout message =
    if empty_text message then "Waiting for Modbus response timed out." else message
exchange_message RtuTransportExchangeStatus.transport_error message =
    if empty_text message then "Modbus transport failed." else message

unfoldable pub attempt_from_exchange :
    ScanBlock → ℕ → List ℕ → RtuTransportExchange → ScanAttemptResult
attempt_from_exchange block attempt_index fallback_request_frame exchange = record {
  block_index = block.index;
  attempt_index = attempt_index;
  status = exchange_attempt_status exchange.status;
  request_frame =
      if is_empty exchange.request_frame then fallback_request_frame else exchange.request_frame;
  response_frame = exchange.response_frame;
  error_message = exchange_message exchange.status exchange.error_message;
  is_modbus_exception = false;
  exception_code = 0;
  exception_description = "";
  sent_at_utc = exchange.sent_at_utc;
  received_at_utc = exchange.received_at_utc;
  endpoint = exchange.endpoint;
}

-- The three branches on what `parseReadResponse` said.
unfoldable pub attempt_from_parsed : ScanAttemptResult → ParseReadResponseResult → ScanAttemptResult
attempt_from_parsed attempt parsed =
    if parsed.ok
    then record attempt { status = ScanAttemptStatus.success; error_message = "" }
    else if parsed.is_exception
    then record attempt {
      status = ScanAttemptStatus.modbus_exception;
      is_modbus_exception = true;
      exception_code = parsed.exception_code;
      exception_description = parsed.exception_description;
      error_message = parsed.error_message;
    }
    else record attempt {
      status = ScanAttemptStatus.parse_error;
      error_message = parsed.error_message;
    }

unfoldable pub describe_failure : ScanAttemptResult → ScanAttemptResult
describe_failure attempt =
    if not (is_success attempt.status) && empty_text attempt.error_message
    then record attempt { error_message = describe_scan_attempt_status attempt.status }
    else attempt

unfoldable pub parsed_response : ScanPlan → ScanBlock → List ℕ → ParseReadResponseResult
parsed_response plan block response_frame =
    parse_read_response response_frame plan.slave_id plan.function_code block.start_address
      block.quantity

-- The attempt that is pushed: a successful exchange is parsed, a failed one is not.
unfoldable pub judged_attempt : ScanPlan → ScanBlock → ℕ → RtuTransportExchange → ScanAttemptResult
unfolding describe_failure
judged_attempt plan block attempt_index exchange =
    let attempt = attempt_from_exchange block attempt_index block.request_frame exchange in
    describe_failure (elim exchange.status [
      | RtuTransportExchangeStatus.success ↦
          attempt_from_parsed attempt (parsed_response plan block exchange.response_frame)
      | _ ↦ attempt
    ])

unfoldable pub scan_observations :
    ScanPlan → ScanBlock → ℕ → String → List RegisterObservation → List ScanObservation
scan_observations plan block attempt_index observed_at_utc [] = []
scan_observations plan block attempt_index observed_at_utc (observation ∷ observations) =
    record {
      block_index = block.index;
      attempt_index = attempt_index;
      slave_id = plan.slave_id;
      function_code = plan.function_code;
      address = observation.address;
      value = observation.value;
      observed_at_utc = observed_at_utc;
    }
    ∷ scan_observations plan block attempt_index observed_at_utc observations

-- Where the loop goes on after one attempt: out of it, or round again.
pub data AfterAttempt (World : Type 0) : Type 0 where
  stop : ScanBlockResult → Bool → World → AfterAttempt World
  again : ScanBlockResult → World → AfterAttempt World

module _ {World : Type 0} (surroundings : Surroundings World)
    (options : ScanExecutionOptions World) where
  unfoldable pub now_utc : World → String × World
  now_utc world = elim options.now_utc [
    | none ↦ surroundings.default_utc world
    | some now ↦ now world
  ]

  unfoldable pub best_observed_at_utc : ScanAttemptResult → World → String × World
  best_observed_at_utc attempt world =
      if not (empty_text attempt.received_at_utc)
      then (attempt.received_at_utc, world)
      else if not (empty_text attempt.sent_at_utc)
      then (attempt.sent_at_utc, world)
      else now_utc world

  unfoldable pub is_cancellation_requested : World → Bool × World
  is_cancellation_requested world = elim options.should_cancel [
    | none ↦ (false, world)
    | some should_cancel ↦ should_cancel world
  ]

  -- The block's result once the attempt is pushed, and the world after the clock was read.
  unfoldable pub push_attempt :
      ScanPlan → ScanBlockResult → ScanAttemptResult → World → ScanBlockResult × World
  push_attempt plan result attempt world =
      let observed = best_observed_at_utc attempt world in
      let pushed : ScanBlockResult = record result {
        attempts = result.attempts ++ (attempt ∷ []);
        final_error_message = attempt.error_message;
      } in
      if is_success attempt.status
      then (
        record pushed {
          ok = true;
          observations =
              result.observations
              ++ scan_observations plan result.block attempt.attempt_index observed.0
                  (parsed_response plan result.block attempt.response_frame).observations;
        },
        observed.1,
      )
      else (pushed, world)

  -- The checks at the end of the loop's body: cancelled, done, or once more.
  unfoldable pub after_attempt :
      ScanAttemptStatus → Bool → ScanBlockResult → World → AfterAttempt World
  after_attempt status retry_allowed result world =
      if is_success status
      then stop result false world
      else let cancelled = is_cancellation_requested world in
        if cancelled.0
        then stop result true cancelled.1
        else if not retry_allowed
        then stop result false cancelled.1
        else again result cancelled.1

  -- The loop's body.
  unfoldable pub attempt_once : ScanPlan → ℕ → ℕ → ScanBlockResult → World → AfterAttempt World
  attempt_once plan max_attempts attempt_index result world =
      let cancelled = is_cancellation_requested world in
      let exchanged =
        surroundings.exchange result.block.request_frame options.response_timeout_ms cancelled.1 in
      let attempt = judged_attempt plan result.block attempt_index exchanged.0 in
      let pushed = push_attempt plan result attempt exchanged.1 in
      let retry_allowed =
        ltb (attempt_index + 1) max_attempts && should_retry attempt.status options in
      if cancelled.0
      then stop result true cancelled.1
      else after_attempt attempt.status retry_allowed pushed.0 pushed.1

  -- The loop over the attempts, `left` of them at most: the block's result, whether the scan is
  -- cancelled, and the world after it.
  unfoldable pub attempt_loop :
      ScanPlan → ℕ → ℕ → ℕ → ScanBlockResult → World → ScanBlockResult × Bool × World
  attempt_loop plan max_attempts zero attempt_index result world = (result, false, world)
  attempt_loop plan max_attempts (suc left) attempt_index result world =
      elim (attempt_once plan max_attempts attempt_index result world) [
        | stop result' cancelled world' ↦ (result', cancelled, world')
        | again result' world' ↦
            attempt_loop plan max_attempts left (attempt_index + 1) result' world'
      ]
