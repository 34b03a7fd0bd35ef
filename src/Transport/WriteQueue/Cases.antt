-- ===== src/Transport/WriteQueue/Cases.antt =====
-- The ways in which a call can end, one rule for each operation: a statement about the queue and
-- the result holds after the call if it holds after a refusal and after the effect.
use serial_value_matcher_nat.Base.{
  ℕ, ◌+◌, ◌-◌, ◌%◌, ◌≤◌, ◌<◌, ◌≡◌, ◌==◌, inl, inr, ℤ, true, false, List, none, some, arith, refl,
  not, ◌&&◌, ◌||◌, ltb, Option-cases, Bool-cases,
}
use serial_value_matcher_nat.Transport.Types.{SerialDeadline}
use serial_value_matcher_nat.Transport.WriteQueue.State.{
  SerialWriteQueue, SerialWriteRequest, SerialWriteResult, ActiveReservation,
  SerialWriteResultStatus, SerialWriteCancellationToken, is_rejected, is_terminal, word,
}
use serial_value_matcher_nat.Transport.WriteQueue.Enqueue.{
  SteadyClock, reserve_request_id, enqueue_refusal, reject, reject_completion, admit, enqueue,
}
use serial_value_matcher_nat.Transport.WriteQueue.Settle.{
  find_request, erase_request, has_id, cancelled_result, cancel_pending, cancel_pending_token,
  settled_status, complete_active,
}
use serial_value_matcher_nat.Transport.WriteQueue.Invariant.{Inv}
use serial_value_matcher_nat.Transport.WriteQueue.Admission.{IsAdmissible, enqueue_refusal-none}

enqueue_refusal-is_rejected :
    (q : SerialWriteQueue) (payload : List ℕ) (timeout_ms : ℤ) (generation : ℕ)
    (status : SerialWriteResultStatus)
    → enqueue_refusal q payload timeout_ms generation ≡ some status
    → is_rejected status ≡ true
unfolding enqueue_refusal
enqueue_refusal-is_rejected q payload timeout_ms generation status h = ground arith

reserve_request_id_spent :
    (q : SerialWriteQueue) → (q.next_request_id == 0) ≡ true → reserve_request_id q ≡ (q, none)
unfolding reserve_request_id
reserve_request_id_spent q z = rw z

pub reserve_request_id_left :
    (q : SerialWriteQueue)
    → (q.next_request_id == 0) ≡ false
    → (reserve_request_id q).1 ≡ some q.next_request_id
unfolding reserve_request_id
reserve_request_id_left q nz = rw nz

-- `enqueue` admits the next id, or refuses and leaves the queue as it was.
pub enqueue_cases {ℓ} :
    (P : SerialWriteQueue → SerialWriteResult → Type ℓ) (clock : SteadyClock) (q : SerialWriteQueue)
    (payload : List ℕ) (timeout_ms : ℤ) (generation : ℕ) (deadline : SerialDeadline)
    → Inv q
    → ((status : SerialWriteResultStatus)
        → is_rejected status ≡ true
        → P q (reject status generation deadline))
    → ((d : SerialDeadline)
        → IsAdmissible q payload timeout_ms generation
        → 0 < q.next_request_id
        → let r =
            admit (reserve_request_id q).0 q.next_request_id payload timeout_ms generation d in
          P r.0 r.1)
    → let r = enqueue clock q payload timeout_ms generation deadline in P r.0 r.1
unfolding enqueue
enqueue_cases P clock q payload timeout_ms generation deadline v refused admitted =
    elim (Option-cases (enqueue_refusal q payload timeout_ms generation)) [
      | inl e ↦ elim (Bool-cases (q.next_request_id == 0)) [
        | inl z ↦
            rw (e, enqueue)
              (rw (reserve_request_id_spent q z) (
                rw (reserve_request_id_spent q z)
                  (refused SerialWriteResultStatus.rejected_invalid refl)))
        | inr nz ↦
            rw (e, enqueue)
              (rw (reserve_request_id_left q nz, enqueue)
                (admitted _ (enqueue_refusal-none q payload timeout_ms generation v e)
                  (ground arith)))
      ]
      | inr (status, e) ↦
          rw (e, enqueue)
            (refused status (enqueue_refusal-is_rejected q payload timeout_ms generation status e))
    ]

-- What `cancel_pending` leaves of the queue when it found `r`.
abbrev pub without_request : SerialWriteQueue → SerialWriteRequest → ℕ → SerialWriteQueue
without_request q r id = record q {
  pending_bytes = (q.pending_bytes + word - r.payload_bytes) % word;
  pending = erase_request (has_id id) q.pending;
}

pub cancel_pending_cases {ℓ} :
    (P : SerialWriteQueue → SerialWriteResult → Type ℓ) (q : SerialWriteQueue) (id : ℕ)
    → P q (reject SerialWriteResultStatus.rejected_invalid 0 (record { expires_at = none }))
    → ((r : SerialWriteRequest)
        → find_request (has_id id) q.pending ≡ some r
        → P (without_request q r id) (cancelled_result r))
    → P (cancel_pending q id).0 (cancel_pending q id).1
unfolding cancel_pending
cancel_pending_cases P q id refused found = elim (Bool-cases (id == 0)) [
  | inl z ↦ rw z refused
  | inr nz ↦ elim (Option-cases (find_request (has_id id) q.pending)) [
    | inl e ↦ rw (nz, e, cancel_pending) refused
    | inr (r, e) ↦ rw (nz, e, cancel_pending) (found r e)
  ]
]

pub cancel_pending_token_cases {ℓ} :
    (P : SerialWriteQueue → SerialWriteResult → Type ℓ) (q : SerialWriteQueue)
    (token : SerialWriteCancellationToken)
    → P q (reject SerialWriteResultStatus.rejected_invalid 0 (record { expires_at = none }))
    → P q (reject_completion token.request_id token.generation)
    → ((id : ℕ) → P (cancel_pending q id).0 (cancel_pending q id).1)
    → P (cancel_pending_token q token).0 (cancel_pending_token q token).1
unfolding cancel_pending_token
cancel_pending_token_cases P q token refused missing found =
    elim (Bool-cases (token.request_id == 0)) [
      | inl z ↦ rw z refused
      | inr nz ↦
          elim (Option-cases (
            find_request (λ r. r.id == token.request_id && r.generation == token.generation)
              q.pending)) [
                | inl e ↦ rw (nz, e, cancel_pending_token) missing
                | inr (r, e) ↦ rw (nz, e, cancel_pending_token) (found r.id)
              ]
    ]

pub complete_active_cases {ℓ} :
    (P : SerialWriteQueue → SerialWriteResult → Type ℓ) (q : SerialWriteQueue) (id generation : ℕ)
    (status : SerialWriteResultStatus) (bytes : ℕ)
    → P q (reject_completion id generation)
    → ((a : ActiveReservation)
        → q.active ≡ some a
        → a.request_id ≡ id
        → a.generation ≡ generation
        → bytes ≤ a.payload_bytes
        → is_terminal status ≡ true
        → P
            (record q { active = none })
            (record {
              request_id = a.request_id;
              generation = a.generation;
              status = settled_status status bytes a.payload_bytes;
              byte_count = bytes;
              deadline = a.deadline;
            }))
    → P
        (complete_active q id generation status bytes).0
        (complete_active q id generation status bytes).1
unfolding complete_active
complete_active_cases P q id generation status bytes refused done =
    elim (Bool-cases (is_terminal status)) [
      | inr e ↦ rw e refused
      | inl t ↦ elim (Option-cases q.active) [
        | inl e ↦ rw (t, e, complete_active) refused
        | inr (a, e) ↦
            elim (Bool-cases (not (a.request_id == id) || not (a.generation == generation))) [
              | inl other ↦ rw (t, e, complete_active) (rw other refused)
              | inr same ↦ elim (Bool-cases (ltb a.payload_bytes bytes)) [
                | inl more ↦ rw (t, e, complete_active) (rw (same, more) refused)
                | inr fits ↦
                    rw (t, e, complete_active)
                      (rw (same, fits) (done a e (ground arith) (ground arith) (ground arith) t))
              ]
            ]
      ]
    ]
