-- ===== src/Transport/WriteQueue/Enqueue.antt =====
-- src/transport/serial_write_queue.cpp: generations, request ids and `enqueue`. The steady clock
-- is an argument of the call that reads it.
use serial_value_matcher_nat.Base.{
  ℕ, ◌+◌, ◌-◌, ◌*◌, ◌%◌, max, ℤ, pos, pos_part, leb_ℤ, Bool, true, false, not, ◌&&◌, ◌||◌, ◌==◌,
  ltb, leb, if◌then◌else◌, Option, none, some, List, [], ◌∷◌, ◌++◌, length, is_empty,
}
use serial_value_matcher_nat.Transport.Types.{
  SerialDeadline, deadline_set, unassigned_serial_session_generation,
}
use serial_value_matcher_nat.Transport.WriteQueue.State.{
  word, limits_valid, SerialWriteCancellationState, SerialWriteResultStatus, SerialWriteRequest,
  SerialWriteResult, SerialWriteQueue, counted_count, counted_bytes, empty, snapshot,
}

unfoldable pub begin_generation : SerialWriteQueue → ℕ → SerialWriteQueue × Bool
unfolding empty
begin_generation q generation =
    if generation == unassigned_serial_session_generation || not (empty q)
    then (q, false)
    else (record q { generation = generation; high_water_count = 0; high_water_bytes = 0 }, true)

unfoldable pub reserve_request_id : SerialWriteQueue → SerialWriteQueue × Option ℕ
reserve_request_id q = if q.next_request_id == 0 then (q, none) else (
  record q {
    next_request_id = if q.next_request_id == word - 1 then 0 else (q.next_request_id + 1) % word;
  },
  some q.next_request_id,
)

unfoldable pub reject : SerialWriteResultStatus → ℕ → SerialDeadline → SerialWriteResult
reject status generation deadline = record {
  request_id = 0;
  generation = generation;
  status = status;
  byte_count = 0;
  deadline = deadline;
}

unfoldable pub reject_completion : ℕ → ℕ → SerialWriteResult
reject_completion request_id generation = record {
  request_id = request_id;
  generation = generation;
  status = SerialWriteResultStatus.rejected_invalid;
  byte_count = 0;
  deadline = record { expires_at = none };
}

-- `std::chrono::steady_clock`: the reading of this call, the last time point that it can stand
-- for, and the ticks in a millisecond.
pub record SteadyClock : Type 0 where
  pub now : ℕ
  pub time_point_max : ℕ
  pub ticks_per_ms : ℕ

unfoldable pub deadline_from_timeout : SteadyClock → ℤ → SerialDeadline
deadline_from_timeout clock timeout_ms =
    let timeout = pos_part timeout_ms * clock.ticks_per_ms in
    let remaining = clock.time_point_max - clock.now in
    record {
      expires_at =
          some (if leb remaining timeout then clock.time_point_max else clock.now + timeout);
    }

-- The guards of `enqueue`, in their order; `none` goes on.
unfoldable pub enqueue_refusal : SerialWriteQueue → List ℕ → ℤ → ℕ → Option SerialWriteResultStatus
unfolding empty snapshot
enqueue_refusal q payload timeout_ms generation =
    if is_empty payload
    then some SerialWriteResultStatus.rejected_invalid
    else if leb_ℤ timeout_ms (pos 0)
    then some SerialWriteResultStatus.rejected_invalid
    else if not (limits_valid q.limits)
    then some SerialWriteResultStatus.rejected_invalid
    else if not (generation == q.generation)
        && (not (empty q) || not (q.generation == unassigned_serial_session_generation))
    then some SerialWriteResultStatus.rejected_invalid
    else if leb q.limits.request_capacity (counted_count (snapshot q))
        || (ltb q.limits.byte_capacity (length payload)
            || ltb (q.limits.byte_capacity - length payload) (counted_bytes (snapshot q)))
    then some SerialWriteResultStatus.rejected_full
    else none

-- The first request of a session that has no generation yet gives the queue its own.
unfoldable pub adopt_generation : SerialWriteQueue → ℕ → SerialWriteQueue
adopt_generation q generation =
    if q.generation == unassigned_serial_session_generation
      && not (generation == unassigned_serial_session_generation)
    then record q { generation = generation; high_water_count = 0; high_water_bytes = 0 }
    else q

unfoldable pub push_request : SerialWriteQueue → SerialWriteRequest → SerialWriteQueue
push_request q r = record q {
  pending = q.pending ++ r ∷ [];
  pending_bytes = (q.pending_bytes + r.payload_bytes) % word;
}

unfoldable pub raise_high_water : SerialWriteQueue → SerialWriteQueue
unfolding snapshot
raise_high_water q = record q {
  high_water_count = max q.high_water_count (counted_count (snapshot q));
  high_water_bytes = max q.high_water_bytes (counted_bytes (snapshot q));
}

unfoldable pub make_request : ℕ → ℕ → List ℕ → ℤ → SerialDeadline → SerialWriteRequest
make_request id generation payload timeout_ms deadline = record {
  id = id;
  generation = generation;
  cancellation_token = record { request_id = id; generation = generation };
  payload = payload;
  payload_bytes = length payload;
  timeout_ms = timeout_ms;
  deadline = deadline;
  cancellation_state = SerialWriteCancellationState.active;
}

unfoldable pub admit :
    SerialWriteQueue → ℕ → List ℕ → ℤ → ℕ → SerialDeadline → SerialWriteQueue × SerialWriteResult
unfolding adopt_generation push_request raise_high_water make_request
admit q id payload timeout_ms generation deadline =
    let request = make_request id generation payload timeout_ms deadline in
    (
      raise_high_water (push_request (adopt_generation q generation) request),
      record {
        request_id = id;
        generation = generation;
        status = SerialWriteResultStatus.accepted;
        byte_count = length payload;
        deadline = deadline;
      },
    )

unfoldable pub enqueue :
    SteadyClock
    → SerialWriteQueue
    → List ℕ
    → ℤ
    → ℕ
    → SerialDeadline
    → SerialWriteQueue × SerialWriteResult
unfolding reject
enqueue clock q payload timeout_ms generation deadline =
    elim (enqueue_refusal q payload timeout_ms generation) [
      | some status ↦ (q, reject status generation deadline)
      | none ↦ elim (reserve_request_id q).1 [
        | none ↦ (
          (reserve_request_id q).0,
          reject SerialWriteResultStatus.rejected_invalid generation deadline,
        )
        | some id ↦
            admit (reserve_request_id q).0 id payload timeout_ms generation
              (if deadline_set deadline then deadline else deadline_from_timeout clock timeout_ms)
      ]
    ]
