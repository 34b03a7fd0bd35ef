-- ===== src/Rtu/Examples.antt =====
-- An exchange on a concrete port.
use serial_value_matcher_nat.Base.{
  ℕ, ◌+◌, ◌≡◌, refl, false, Option, some, List, [], ◌∷◌, arith, ltb, leb, ◌==◌, if◌then◌else◌,
  length, count, pos,
}
use serial_value_matcher_nat.Transport.Types.{
  SerialOperationKind, SerialOperationStatus, SerialDeadlineStatus, SerialErrorCategory,
  SerialOperationResult,
}
use serial_value_matcher_nat.Scan.Types.{RtuTransportExchangeStatus}
use serial_value_matcher_nat.Rtu.State.{
  SerialRtuTransportOptions, Port, RtuState, response_frame_length, cancellation_requested,
  generation_current, timestamp, report_evidence,
}
use serial_value_matcher_nat.Rtu.Write.{after_write}
use serial_value_matcher_nat.Rtu.Read.{read_loop}
use serial_value_matcher_nat.Rtu.Exchange.{exchange}
use serial_value_matcher_nat.Rtu.Frames.{IsResponse}
use serial_value_matcher_nat.Rtu.Complete.{exchange-IsResponse}
use serial_value_matcher_nat.Rtu.Ends.{IsSteady, exchange-ends}

-- The world is the time in milliseconds.
abbrev test_options : SerialRtuTransportOptions ℕ
test_options = record {
  generation = 7;
  endpoint = "COM1";
  generation_is_current = some (λ generation now. (generation == 7, now));
  should_cancel = some (λ now. (leb 50 now, now));
  now_utc = Option.none;
  on_io_evidence = Option.none;
  timeout_error_message = "";
}

abbrev done : SerialOperationKind → ℕ → SerialOperationResult
done kind count = record {
  operation = record {
    request_id = 1;
    generation = 7;
    kind = kind;
    deadline = record { expires_at = Option.none };
  };
  status = SerialOperationStatus.succeeded;
  deadline_status = SerialDeadlineStatus.met;
  byte_count = count;
  endpoint = "COM1";
  error = record {
    category = SerialErrorCategory.none;
    native_code = 0;
    byte_count = 0;
    comm_error_mask = 0;
    input_queue_bytes = Option.none;
    output_queue_bytes = Option.none;
  };
}

-- A device that answers with an exception after three milliseconds, and a byte of noise.
abbrev exception_reply : List ℕ
exception_reply = 1 ∷ 131 ∷ 2 ∷ 192 ∷ 241 ∷ 99 ∷ []

abbrev port : Port ℕ
port = record {
  write_bytes = λ bytes deadline now. (done SerialOperationKind.write (length bytes), now);
  read_available = λ count deadline now. (
    record {
      operation = done SerialOperationKind.read 0;
      bytes = if ltb now 3 then [] else exception_reply;
    },
    now,
  );
  steady_now = λ now. (now, now);
  sleep_one_ms = λ now. now + 1;
  ticks_per_ms = 1;
}

abbrev idle : RtuState ℕ
idle = record {
  exchange = record {
    status = RtuTransportExchangeStatus.transport_error;
    request_frame = [];
    response_frame = [];
    error_message = "";
    sent_at_utc = "";
    received_at_utc = "";
    endpoint = "";
  };
  cancel_observed = false;
  serial_failure = Option.none;
  last_error_message = "";
  world = 0;
}

abbrev answered : RtuState ℕ
answered = record idle {
  exchange = record {
    status = RtuTransportExchangeStatus.success;
    request_frame = 1 ∷ 3 ∷ [];
    response_frame = 1 ∷ 131 ∷ 2 ∷ 192 ∷ 241 ∷ [];
    error_message = "";
    sent_at_utc = "";
    received_at_utc = "";
    endpoint = "COM1";
  };
  world = 3;
}

exchange-answered : exchange test_options port (1 ∷ 3 ∷ []) (pos 10) idle ≡ some answered
unfolding exchange cancellation_requested timestamp generation_current after_write read_loop
    report_evidence response_frame_length
exchange-answered = refl

port-IsSteady : IsSteady test_options port (λ now. now)
unfolding cancellation_requested generation_current report_evidence
port-IsSteady = record {
  reads = λ now. refl;
  after_now = λ now. omega arith;
  after_sleep = λ now. omega arith;
  after_cancel = λ now. omega arith;
  after_generation = λ now. omega arith;
  after_evidence = λ bytes result s. omega arith;
  after_write = λ bytes deadline now. omega arith;
  after_read = λ bytes deadline now. omega arith;
}

exchange-IsResponse_example : IsResponse (1 ∷ 131 ∷ 2 ∷ 192 ∷ 241 ∷ [])
exchange-IsResponse_example =
    exchange-IsResponse test_options port (1 ∷ 3 ∷ []) (pos 10) idle answered exchange-answered refl

exchange-ends_example :
    (ended : RtuState ℕ) × (exchange test_options port (1 ∷ 3 ∷ []) (pos 10) idle ≡ some ended)
exchange-ends_example =
    exchange-ends test_options port (λ now. now) port-IsSteady (1 ∷ 3 ∷ []) (pos 10) idle
