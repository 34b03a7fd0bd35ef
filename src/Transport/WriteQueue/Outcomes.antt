-- ===== src/Transport/WriteQueue/Outcomes.antt =====
-- When the write queue takes a request, and when it takes a completion: both exactly.
use serial_value_matcher_nat.Base.{
  ◌≢◌, ◌⊎◌, ℕ, ◌≤◌, ◌<◌, ◌≡◌, refl, ◌↔◌, true, none, some, List, arith, ℤ,
}
use serial_value_matcher_nat.Transport.Types.{SerialDeadline}
use serial_value_matcher_nat.Transport.WriteQueue.State.{
  SerialWriteResultStatus, is_terminal, ActiveReservation, SerialWriteQueue, active_bytes,
}
use serial_value_matcher_nat.Transport.WriteQueue.Enqueue.{
  reject, reject_completion, SteadyClock, admit, enqueue,
}
use serial_value_matcher_nat.Transport.WriteQueue.Settle.{complete_active}
use serial_value_matcher_nat.Transport.WriteQueue.Invariant.{Inv}
use serial_value_matcher_nat.Transport.WriteQueue.Admission.{
  IsAdmissible, enqueue_refusal_admissible,
}
use serial_value_matcher_nat.Transport.WriteQueue.Cases.{reserve_request_id_left, enqueue_cases}
use serial_value_matcher_nat.Transport.WriteQueue.Conservation.{is_accepted, rejected_neither}

-- A valid queue accepts a request exactly when it has bytes, a positive timeout, the queue's
-- generation (or the queue is empty and has none yet), room by count and by bytes, and an id is
-- left.
pub enqueue_accepts_iff :
    (clock : SteadyClock) (q : SerialWriteQueue) (payload : List ℕ) (timeout_ms : ℤ)
    (generation : ℕ) (d : SerialDeadline)
    → Inv q
    → (is_accepted (enqueue clock q payload timeout_ms generation d).1.status ≡ true)
      ↔ (IsAdmissible q payload timeout_ms generation × (0 < q.next_request_id))
unfolding enqueue reject admit
enqueue_accepts_iff clock q payload timeout_ms generation d v = (forth, back)
  where
    forth :
        is_accepted (enqueue clock q payload timeout_ms generation d).1.status ≡ true
        → IsAdmissible q payload timeout_ms generation × (0 < q.next_request_id)
    forth =
        enqueue_cases
          (λ q' r.
            is_accepted r.status ≡ true
            → IsAdmissible q payload timeout_ms generation × (0 < q.next_request_id))
          clock q payload timeout_ms generation d v
          (λ status h e. cc ((rejected_neither status h).0, e)) (λ _ a left e. (a, left))

    back :
        IsAdmissible q payload timeout_ms generation × (0 < q.next_request_id)
        → is_accepted (enqueue clock q payload timeout_ms generation d).1.status ≡ true
    back h =
        rw (enqueue_refusal_admissible q payload timeout_ms generation v h.0, enqueue)
          (rw (reserve_request_id_left q (ground arith), enqueue) refl)

-- The active reservation that a completion names, with no more bytes than its payload had.
abbrev pub Completes : SerialWriteQueue → ℕ → ℕ → SerialWriteResultStatus → ℕ → Type 0
Completes q id generation status bytes =
    (is_terminal status ≡ true)
    × ((a : ActiveReservation) × (q.active ≡ some a)
        × (a.request_id ≡ id)
        × (a.generation ≡ generation)
        × (bytes ≤ a.payload_bytes))

-- A completion is taken exactly when its status is terminal and it names the active request by id
-- and generation with at most its bytes. It then frees the active place and nothing else, and the
-- result has its bytes and a terminal status, which is `sent` only if every byte was. Any other
-- completion leaves the queue as it was and is rejected under its id and generation.
pub complete_active_lem :
    (q : SerialWriteQueue) (id generation : ℕ) (status : SerialWriteResultStatus) (bytes : ℕ)
    → let r = complete_active q id generation status bytes in
      (Completes q id generation status bytes
        × (r.0 ≡ record q { active = none })
        × (is_terminal r.1.status ≡ true)
        × (r.1.request_id ≡ id)
        × (r.1.byte_count ≡ bytes)
        × ((r.1.status ≢ SerialWriteResultStatus.sent) ⊎ (bytes ≡ active_bytes q.active)))
      ⊎ ((¬ Completes q id generation status bytes)
          × (r.0 ≡ q)
          × (r.1 ≡ reject_completion id generation))
unfolding complete_active reject_completion
complete_active_lem q id generation status bytes = ground arith
