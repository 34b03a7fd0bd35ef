-- ===== src/Rtu/State.antt =====
-- src/transport/serial_rtu_transport.h and .cpp: the transport's options and members, the length of
-- a response, and the marks that an exchange ends with. The callbacks and the byte stream are the
-- caller's: functions on a state `World` of theirs.
use serial_value_matcher_nat.Base.{
  ℕ, zero, suc, ◌+◌, ◌-◌, String, Bool, true, false, not, ◌&&◌, ◌||◌, Option, none, some, List, ltb,
  ◌==◌, if◌then◌else◌, length, get_or, take, text_append,
}
use serial_value_matcher_nat.Base.Decimal.{size_text}
use serial_value_matcher_nat.Transport.Types.{
  unassigned_serial_session_generation, SerialOperationKind, SerialOperationStatus, SerialDeadline,
  SerialOperationResult, SerialReadResult,
}
use serial_value_matcher_nat.Modbus.Frame.{validate_rtu_frame}
use serial_value_matcher_nat.Scan.Types.{RtuTransportExchangeStatus, RtuTransportExchange}
use Prim.Native.Nat.{bit_and}

pub record SerialRtuTransportOptions (World : Type 0) : Type 0 where
  pub generation : ℕ
  pub endpoint : String
  pub generation_is_current : Option (ℕ → World → Bool × World)
  pub should_cancel : Option (World → Bool × World)
  pub now_utc : Option (World → String × World)
  pub on_io_evidence : Option (List ℕ → SerialOperationResult → World → World)
  pub timeout_error_message : String

-- `SerialByteStream`, and the steady clock with its sleep of a millisecond.
pub record Port (World : Type 0) : Type 0 where
  pub write_bytes : List ℕ → SerialDeadline → World → SerialOperationResult × World
  pub read_available : ℕ → SerialDeadline → World → SerialReadResult × World
  pub steady_now : World → ℕ × World
  pub sleep_one_ms : World → World
  pub ticks_per_ms : ℕ

-- The exchange under way, the members of the transport, and the world.
pub record RtuState (World : Type 0) : Type 0 where
  pub exchange : RtuTransportExchange
  pub cancel_observed : Bool
  pub serial_failure : Option SerialOperationResult
  pub last_error_message : String
  pub world : World

abbrev pub cancelled_message : String
cancelled_message = "扫描已取消。"

abbrev pub empty_request_message : String
empty_request_message = "Modbus 请求为空。"

abbrev pub partial_write_message : String
partial_write_message = "Modbus 请求发送不完整。"

abbrev pub timeout_message : String
timeout_message = "等待 Modbus 响应超时。"

abbrev pub session_changed_message : String
session_changed_message = "串口会话已变化，Modbus 扫描已停止。"

abbrev pub minimum_rtu_frame_bytes : ℕ
minimum_rtu_frame_bytes = 4

abbrev pub max_rtu_frame_bytes : ℕ
max_rtu_frame_bytes = 260

-- The candidates from `next` on, as many as are left in the response.
unfoldable pub find_frame : ℕ → List ℕ → ℕ → Option ℕ × ℕ
find_frame zero response next = (none, next)
find_frame (suc left) response next =
    let rest = find_frame left response (next + 1) in
    if (validate_rtu_frame (take next response)).ok then (some next, next) else rest

-- The length, once it is known, and the next candidate.
unfoldable pub response_frame_length : List ℕ → ℕ → Option ℕ × ℕ
unfolding find_frame
response_frame_length response next_candidate_bytes =
    let function_code = get_or response 1 0 in
    if ltb (length response) 2
    then (none, next_candidate_bytes)
    else if not (bit_and function_code 0x80 == 0)
    then (some 5, next_candidate_bytes)
    else if function_code == 3 || function_code == 4
    then (
      if ltb (length response) 3 then none else some (5 + get_or response 2 0),
      next_candidate_bytes,
    )
    else find_frame (length response + 1 - next_candidate_bytes) response next_candidate_bytes

abbrev pub is_kind : SerialOperationKind → SerialOperationKind → Bool
is_kind SerialOperationKind.write SerialOperationKind.write = true
is_kind SerialOperationKind.read SerialOperationKind.read = true
is_kind _ _ = false

abbrev pub is_cancelled : SerialOperationStatus → Bool
is_cancelled SerialOperationStatus.cancelled = true
is_cancelled _ = false

abbrev pub is_disconnected : SerialOperationStatus → Bool
is_disconnected SerialOperationStatus.disconnected = true
is_disconnected _ = false

abbrev pub is_rejected_closed : SerialOperationStatus → Bool
is_rejected_closed SerialOperationStatus.rejected_closed = true
is_rejected_closed _ = false

abbrev pub is_timeout : SerialOperationStatus → Bool
is_timeout SerialOperationStatus.timeout = true
is_timeout _ = false

abbrev pub status_message : SerialOperationStatus → Bool → String
status_message SerialOperationStatus.timeout write =
    if write then "Modbus 请求发送超时。" else timeout_message
status_message SerialOperationStatus.cancelled write = cancelled_message
status_message SerialOperationStatus.disconnected write = "串口设备已断开。"
status_message SerialOperationStatus.rejected_closed write = "串口会话已关闭。"
status_message SerialOperationStatus.rejected_invalid write =
    if write then "Modbus 请求未被串口接受。" else "Modbus 读取请求无效。"
status_message SerialOperationStatus.rejected_full write =
    if write then "Modbus 请求未被串口接受。" else "Modbus 读取请求无效。"
status_message SerialOperationStatus.failed write =
    if write then "Modbus 请求发送失败。" else "读取 Modbus 响应失败。"
status_message SerialOperationStatus.accepted write =
    if write then "Modbus 请求发送状态无效。" else "Modbus 读取状态无效。"
status_message SerialOperationStatus.succeeded write =
    if write then "Modbus 请求发送状态无效。" else "Modbus 读取状态无效。"

unfoldable pub operation_failure_message : SerialOperationResult → Bool → String
operation_failure_message result write =
    let message = status_message result.status write in
    if not (result.error.native_code == 0)
    then text_append message
        (text_append " (native=" (text_append (size_text result.error.native_code) ")"))
    else message

module _ {World : Type 0} (options : SerialRtuTransportOptions World) where
  unfoldable pub cancellation_requested : World → Bool × World
  cancellation_requested world = elim options.should_cancel [
    | none ↦ (false, world)
    | some should_cancel ↦ should_cancel world
  ]

  unfoldable pub generation_current : World → Bool × World
  generation_current world =
      let asked : Bool × World = elim options.generation_is_current [
        | none ↦ (true, world)
        | some is_current ↦ is_current options.generation world
      ] in
      if options.generation == unassigned_serial_session_generation then (false, world) else asked

  abbrev pub result_matches_generation : SerialOperationResult → SerialOperationKind → Bool
  result_matches_generation result kind =
      is_kind result.operation.kind kind && result.operation.generation == options.generation

  unfoldable pub timestamp : World → String × World
  timestamp world = elim options.now_utc [ none ↦ ("", world) | some now ↦ now world ]

  unfoldable pub report_evidence : List ℕ → SerialOperationResult → RtuState World → RtuState World
  report_evidence bytes result s = elim options.on_io_evidence [
    | none ↦ s
    | some on_io_evidence ↦ record s { world = on_io_evidence bytes result s.world }
  ]

  -- The marks of a cancellation and of a changed session differ in the message.
  unfoldable pub mark_stopped : String → RtuState World → RtuState World
  mark_stopped message s =
      let stamped = timestamp s.world in
      record s {
        exchange = record s.exchange {
          status = RtuTransportExchangeStatus.transport_error;
          error_message = message;
          received_at_utc = stamped.0;
        };
        cancel_observed = true;
        world = stamped.1;
      }

  abbrev pub mark_cancelled : RtuState World → RtuState World
  mark_cancelled s = mark_stopped cancelled_message s

  abbrev pub mark_generation_changed : RtuState World → RtuState World
  mark_generation_changed s = mark_stopped session_changed_message s

  abbrev pub mark_transport_failure :
      SerialOperationResult → String → RtuState World → RtuState World
  mark_transport_failure result message s = record s {
    exchange = record s.exchange {
      status = RtuTransportExchangeStatus.transport_error;
      error_message = message;
    };
    serial_failure = some result;
    last_error_message = message;
  }
