-- ===== src/Rtu/Exchange.antt =====
-- src/transport/serial_rtu_transport.cpp: `SerialRtuTransport::exchange`.
use serial_value_matcher_nat.Base.{
  ℕ, ◌+◌, ◌*◌, Bool, true, false, not, ◌||◌, Option, none, some, List, [], ltb, if◌then◌else◌,
  length, is_empty, take, ℤ, pos_part, empty_text,
}
use serial_value_matcher_nat.Scan.Types.{RtuTransportExchangeStatus}
use serial_value_matcher_nat.Rtu.State.{
  SerialRtuTransportOptions, Port, RtuState, empty_request_message, timeout_message,
  minimum_rtu_frame_bytes, max_rtu_frame_bytes, cancellation_requested, generation_current,
  timestamp, mark_cancelled, mark_generation_changed,
}
use serial_value_matcher_nat.Rtu.Write.{moved, after_write}
use serial_value_matcher_nat.Rtu.Read.{Reading, read_loop}

abbrev pub is_transport_error : RtuTransportExchangeStatus → Bool
is_transport_error RtuTransportExchangeStatus.transport_error = true
is_transport_error RtuTransportExchangeStatus.success = false
is_transport_error RtuTransportExchangeStatus.timeout = false

abbrev pub exchange_succeeded : RtuTransportExchangeStatus → Bool
exchange_succeeded RtuTransportExchangeStatus.success = true
exchange_succeeded RtuTransportExchangeStatus.transport_error = false
exchange_succeeded RtuTransportExchangeStatus.timeout = false

-- The response cut to its frame.
abbrev pub cut_to : Option ℕ → List ℕ → List ℕ
cut_to none response = response
cut_to (some bytes) response = if ltb bytes (length response) then take bytes response else response

module _ {World : Type 0} (options : SerialRtuTransportOptions World) (port : Port World) where
  -- Marks a changed session when it is one and the exchange has no error yet.
  unfoldable pub check_generation : Bool → RtuState World → RtuState World
  check_generation current s =
      if current
      then s
      else if is_transport_error s.exchange.status
      then s
      else mark_generation_changed options s

  abbrev pub with_response : List ℕ → RtuState World → RtuState World
  with_response response s = record s { exchange = record s.exchange { response_frame = response } }

  -- After the loop.
  unfoldable pub finish_reading : Reading World → RtuState World
  unfolding check_generation
  finish_reading r =
      let stamped = timestamp options r.io.world in
      let s = record r.io {
        exchange = record r.io.exchange { received_at_utc = stamped.0 };
        world = stamped.1;
      } in
      let current = generation_current options s.world in
      let checked = check_generation current.0 (moved options current.1 s) in
      let discarded = not current.0 || r.discard_response in
      let response = cut_to r.complete_frame_bytes (if discarded then [] else r.response) in
      let again = generation_current options checked.world in
      let last =
        check_generation again.0
          (with_response (if again.0 then response else []) (moved options again.1 checked)) in
      if exchange_succeeded last.exchange.status || is_transport_error last.exchange.status
      then last
      else record last {
        exchange = record last.exchange {
          status = RtuTransportExchangeStatus.timeout;
          error_message =
              if empty_text options.timeout_error_message
              then timeout_message
              else options.timeout_error_message;
        };
      }

  abbrev pub with_status : RtuTransportExchangeStatus → RtuState World → RtuState World
  with_status status s = record s { exchange = record s.exchange { status = status } }

  abbrev pub new_reading : RtuState World → Reading World
  new_reading s = record {
    io = with_status RtuTransportExchangeStatus.timeout s;
    response = [];
    complete_frame_bytes = Option.none;
    next_candidate_bytes = minimum_rtu_frame_bytes;
    discard_response = false;
  }

  abbrev pub timeout_ticks : ℤ → ℕ
  timeout_ticks response_timeout_ms = pos_part response_timeout_ms * port.ticks_per_ms

  -- More rounds than the loop takes: each sleeps for a tick or more, or takes a byte.
  abbrev pub read_fuel : ℤ → ℕ
  read_fuel response_timeout_ms = timeout_ticks response_timeout_ms + max_rtu_frame_bytes + 1

  -- The write and the loop, once the exchange is let through; `none` when the fuel is out.
  unfoldable pub send_and_read : List ℕ → ℤ → RtuState World → Option (RtuState World)
  unfolding finish_reading
  send_and_read request response_timeout_ms s =
      let now = port.steady_now s.world in
      let deadline_at = now.0 + timeout_ticks response_timeout_ms in
      let written = port.write_bytes request (record { expires_at = some deadline_at }) now.1 in
      let sent = after_write options request written.0 (moved options written.1 s) in
      let read =
        read_loop options port (read_fuel response_timeout_ms) deadline_at
          (new_reading sent.state) in
      if sent.returned
      then some sent.state
      else elim read [ none ↦ none | some r ↦ some (finish_reading r) ]

  -- An exchange of a transport whose members are those of `s`.
  unfoldable pub exchange : List ℕ → ℤ → RtuState World → Option (RtuState World)
  unfolding send_and_read
  exchange request_frame response_timeout_ms s =
      let stamped = timestamp options s.world in
      let fresh = record s {
        exchange = record {
          status = RtuTransportExchangeStatus.transport_error;
          request_frame = request_frame;
          response_frame = [];
          error_message = "";
          sent_at_utc = stamped.0;
          received_at_utc = "";
          endpoint = options.endpoint;
        };
        world = stamped.1;
      } in
      let asked = cancellation_requested options fresh.world in
      let current = generation_current options asked.1 in
      let at = moved options current.1 fresh in
      if asked.0
      then some (mark_cancelled options (moved options asked.1 fresh))
      else if not current.0
      then some (mark_generation_changed options at)
      else if is_empty request_frame
      then some (record at {
        exchange = record at.exchange {
          status = RtuTransportExchangeStatus.transport_error;
          error_message = empty_request_message;
        };
      })
      else send_and_read request_frame response_timeout_ms at
