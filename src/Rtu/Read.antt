-- ===== src/Rtu/Read.antt =====
-- src/transport/serial_rtu_transport.cpp: the loop that collects a response.
use serial_value_matcher_nat.Base.{
  ℕ, zero, suc, ◌-◌, min, Bool, true, false, not, ◌&&◌, Option, none, some, List, [], ◌++◌, ltb,
  leb, ◌==◌, if◌then◌else◌, length, is_empty, take,
}
use serial_value_matcher_nat.Transport.Types.{
  SerialOperationKind, SerialDeadline, is_succeeded, SerialReadResult,
}
use serial_value_matcher_nat.Scan.Types.{RtuTransportExchangeStatus}
use serial_value_matcher_nat.Rtu.State.{
  SerialRtuTransportOptions, Port, RtuState, max_rtu_frame_bytes, response_frame_length,
  is_cancelled, is_disconnected, is_rejected_closed, is_timeout, operation_failure_message,
  cancellation_requested, generation_current, result_matches_generation, report_evidence,
  mark_cancelled, mark_generation_changed, mark_transport_failure,
}
use serial_value_matcher_nat.Rtu.Write.{moved}

pub record Reading (World : Type 0) : Type 0 where
  pub io : RtuState World
  pub response : List ℕ
  pub complete_frame_bytes : Option ℕ
  pub next_candidate_bytes : ℕ
  pub discard_response : Bool

-- A round that ends the loop, or goes on.
pub record Round (World : Type 0) : Type 0 where
  pub stopped : Bool
  pub reading : Reading World

module _ {World : Type 0} (options : SerialRtuTransportOptions World) (port : Port World) where
  abbrev pub stop_with : RtuState World → Reading World → Round World
  stop_with io r = record { stopped = true; reading = record r { io = io } }

  abbrev pub discard_with : RtuState World → Reading World → Round World
  discard_with io r = record {
    stopped = true;
    reading = record r { io = mark_generation_changed options io; discard_response = true };
  }

  abbrev pub succeed_with : Option ℕ → Reading World → Round World
  succeed_with bytes r = record {
    stopped = true;
    reading = record r {
      io = record r.io {
        exchange = record r.io.exchange { status = RtuTransportExchangeStatus.success };
      };
      complete_frame_bytes = bytes;
    };
  }

  abbrev pub reaches : Option ℕ → ℕ → Bool
  reaches none size = false
  reaches (some bytes) size = leb bytes size

  -- Bytes that were read go on the response.
  unfoldable pub accept_bytes : ℕ → SerialReadResult → Reading World → Round World
  accept_bytes remaining_frame_bytes read r =
      let accepted_bytes = min (length read.bytes) remaining_frame_bytes in
      let response = r.response ++ take accepted_bytes read.bytes in
      let frame = response_frame_length response r.next_candidate_bytes in
      let next = record r {
        io = report_evidence options read.bytes read.operation r.io;
        response = response;
        next_candidate_bytes = frame.1;
      } in
      if reaches frame.0 (length response)
      then succeed_with frame.0 next
      else if length response == max_rtu_frame_bytes
      then succeed_with (some (length response)) next
      else record { stopped = false; reading = next }

  -- A read that succeeded.
  unfoldable pub after_read_success : ℕ → SerialReadResult → Reading World → Round World
  unfolding accept_bytes
  after_read_success remaining_frame_bytes read r =
      let current = generation_current options r.io.world in
      let at = moved options current.1 r.io in
      if not current.0
      then discard_with at r
      else if is_empty read.bytes
      then record {
        stopped = false;
        reading = record r { io = moved options (port.sleep_one_ms at.world) at };
      }
      else accept_bytes remaining_frame_bytes read (record r { io = at })

  unfoldable pub after_read : ℕ → SerialReadResult → Reading World → Round World
  unfolding after_read_success
  after_read remaining_frame_bytes read r =
      let status = read.operation.status in
      let asked = cancellation_requested options r.io.world in
      let current = generation_current options asked.1 in
      let at = moved options current.1 r.io in
      if not (result_matches_generation options read.operation SerialOperationKind.read)
      then discard_with r.io r
      else if asked.0
      then stop_with
          (mark_cancelled options (
            report_evidence options (if is_succeeded status then read.bytes else []) read.operation
              (moved options asked.1 r.io)))
          r
      else if not current.0 && (not (is_cancelled status) && not (is_disconnected status))
      then discard_with at r
      else if is_cancelled status
      then stop_with (mark_cancelled options (report_evidence options [] read.operation at)) r
      else if is_rejected_closed status
      then discard_with (report_evidence options [] read.operation at) r
      else if is_timeout status
      then stop_with (report_evidence options [] read.operation at) r
      else if not (is_succeeded status)
      then stop_with
          (mark_transport_failure options read.operation
            (operation_failure_message read.operation false)
            (report_evidence options [] read.operation at))
          r
      else after_read_success remaining_frame_bytes read (record r { io = at })

  -- One round, before the deadline.
  unfoldable pub read_round : SerialDeadline → Reading World → Round World
  unfolding after_read
  read_round deadline r =
      let asked = cancellation_requested options r.io.world in
      let current = generation_current options asked.1 in
      let remaining_frame_bytes = max_rtu_frame_bytes - length r.response in
      let read = port.read_available remaining_frame_bytes deadline current.1 in
      if asked.0
      then stop_with (mark_cancelled options (moved options asked.1 r.io)) r
      else if not current.0
      then discard_with (moved options current.1 r.io) r
      else after_read remaining_frame_bytes read.0 (record r { io = moved options read.1 r.io })

  -- `none` when the fuel is out.
  unfoldable pub read_loop : ℕ → ℕ → Reading World → Option (Reading World)
  unfolding read_round
  read_loop zero deadline_at r = none
  read_loop (suc fuel) deadline_at r =
      let now = port.steady_now r.io.world in
      let at = record r { io = moved options now.1 r.io } in
      let round = read_round (record { expires_at = some deadline_at }) at in
      let rest = read_loop fuel deadline_at round.reading in
      if not (ltb now.0 deadline_at)
      then some at
      else if round.stopped
      then some round.reading
      else rest
