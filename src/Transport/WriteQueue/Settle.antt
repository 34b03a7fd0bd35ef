-- ===== src/Transport/WriteQueue/Settle.antt =====
-- src/transport/serial_write_queue.cpp: how a request leaves the queue: activation, cancellation
-- and completion.
use serial_value_matcher_nat.Base.{
  ℕ, ◌+◌, ◌-◌, ◌%◌, Bool, not, ◌&&◌, ◌||◌, ◌==◌, ltb, if◌then◌else◌, Option, none, some, List, [],
  ◌∷◌,
}
use serial_value_matcher_nat.Transport.WriteQueue.State.{
  word, SerialWriteResultStatus, is_terminal, SerialWriteCancellationToken, SerialWriteRequest,
  SerialWriteResult, SerialWriteQueue, has_active,
}
use serial_value_matcher_nat.Transport.WriteQueue.Enqueue.{reject, reject_completion}

unfoldable pub peek : SerialWriteQueue → Option SerialWriteRequest
peek q = elim q.pending [ [] ↦ none | r ∷ rs ↦ some r ]

unfoldable pub activate_next : SerialWriteQueue → SerialWriteQueue × Option SerialWriteRequest
activate_next q = if has_active q.active then (q, none) else elim q.pending [
  | [] ↦ (q, none)
  | r ∷ rs ↦ (
    record q {
      pending = rs;
      pending_bytes = (q.pending_bytes + word - r.payload_bytes) % word;
      active = some (record {
        request_id = r.id;
        generation = r.generation;
        payload_bytes = r.payload_bytes;
        deadline = r.deadline;
      });
    },
    some r,
  )
]

-- `std::find_if` and `deque::erase` of the entry that it finds.
unfoldable pub find_request :
    (SerialWriteRequest → Bool) → List SerialWriteRequest → Option SerialWriteRequest
find_request p [] = none
find_request p (r ∷ rs) = if p r then some r else find_request p rs

unfoldable pub erase_request :
    (SerialWriteRequest → Bool) → List SerialWriteRequest → List SerialWriteRequest
erase_request p [] = []
erase_request p (r ∷ rs) = if p r then rs else r ∷ erase_request p rs

unfoldable pub cancelled_result : SerialWriteRequest → SerialWriteResult
cancelled_result r = record {
  request_id = r.id;
  generation = r.generation;
  status = SerialWriteResultStatus.cancelled;
  byte_count = 0;
  deadline = r.deadline;
}

abbrev pub has_id : ℕ → SerialWriteRequest → Bool
has_id id r = r.id == id

unfoldable pub cancel_pending : SerialWriteQueue → ℕ → SerialWriteQueue × SerialWriteResult
unfolding reject cancelled_result
cancel_pending q request_id =
    let refused =
      reject SerialWriteResultStatus.rejected_invalid 0 (record { expires_at = none }) in
    if request_id == 0 then (q, refused) else elim (find_request (has_id request_id) q.pending) [
      | none ↦ (q, refused)
      | some r ↦ (
        record q {
          pending_bytes = (q.pending_bytes + word - r.payload_bytes) % word;
          pending = erase_request (has_id request_id) q.pending;
        },
        cancelled_result r,
      )
    ]

unfoldable pub cancel_pending_token :
    SerialWriteQueue → SerialWriteCancellationToken → SerialWriteQueue × SerialWriteResult
unfolding reject reject_completion
cancel_pending_token q token =
    if token.request_id == 0
    then (q, reject SerialWriteResultStatus.rejected_invalid 0 (record { expires_at = none }))
    else elim (find_request (λ r. r.id == token.request_id && r.generation == token.generation)
        q.pending) [
          | none ↦ (q, reject_completion token.request_id token.generation)
          | some r ↦ cancel_pending q r.id
        ]

unfoldable pub cancel_results : List SerialWriteRequest → List SerialWriteResult
unfolding cancelled_result
cancel_results [] = []
cancel_results (r ∷ rs) = cancelled_result r ∷ cancel_results rs

unfoldable pub cancel_all_pending : SerialWriteQueue → SerialWriteQueue × List SerialWriteResult
cancel_all_pending q = (record q { pending = []; pending_bytes = 0 }, cancel_results q.pending)

-- `Sent` with another count than the payload's is published as `Failed`.
abbrev pub settled_status : SerialWriteResultStatus → ℕ → ℕ → SerialWriteResultStatus
settled_status SerialWriteResultStatus.sent byte_count payload_bytes =
    if byte_count == payload_bytes
    then SerialWriteResultStatus.sent
    else SerialWriteResultStatus.failed
settled_status status byte_count payload_bytes = status

unfoldable pub complete_active :
    SerialWriteQueue → ℕ → ℕ → SerialWriteResultStatus → ℕ → SerialWriteQueue × SerialWriteResult
unfolding reject_completion
complete_active q request_id generation status byte_count =
    if not (is_terminal status)
    then (q, reject_completion request_id generation)
    else elim q.active [
      | none ↦ (q, reject_completion request_id generation)
      | some a ↦
          if not (a.request_id == request_id) || not (a.generation == generation)
          then (q, reject_completion request_id generation)
          else if ltb a.payload_bytes byte_count
          then (q, reject_completion request_id generation)
          else (
            record q { active = none },
            record {
              request_id = a.request_id;
              generation = a.generation;
              status = settled_status status byte_count a.payload_bytes;
              byte_count = byte_count;
              deadline = a.deadline;
            },
          )
    ]
