-- ===== src/Transport/WriteQueue/Runs.antt =====
-- Runs of the write queue: any sequence of calls, with the results that they publish.
use serial_value_matcher_nat.Base.{ℕ, ◌<◌, ℤ, List, [], ◌∷◌, ◌++◌, arith, refl}
use serial_value_matcher_nat.Transport.Types.{SerialDeadline}
use serial_value_matcher_nat.Transport.WriteQueue.State.{
  SerialWriteQueueLimits, SerialWriteQueue, SerialWriteResult, SerialWriteResultStatus,
  SerialWriteCancellationToken, new, word,
}
use serial_value_matcher_nat.Transport.WriteQueue.Enqueue.{
  SteadyClock, begin_generation, reserve_request_id, enqueue,
}
use serial_value_matcher_nat.Transport.WriteQueue.Settle.{
  has_id, activate_next, cancel_pending, cancel_pending_token, cancel_all_pending, complete_active,
}
use serial_value_matcher_nat.Transport.WriteQueue.Ids.{
  active_ids, request_ids, id_bound, total_bytes-erase, erase_request-All, erase_live-Ascending,
  length-erase-le, Ascending-prefix, Ascending-suffix,
}
use serial_value_matcher_nat.Transport.WriteQueue.Invariant.{
  Inv, IsQueued, new-Inv, begin_generation-Inv, reserve_request_id-Inv,
}
use serial_value_matcher_nat.Transport.WriteQueue.Admission.{admit-Inv}
use serial_value_matcher_nat.Transport.WriteQueue.Cases.{
  enqueue_cases, cancel_pending_cases, cancel_pending_token_cases, complete_active_cases,
}

pub data Call : Type 0 where
  begins : ℕ → Call
  reserves : Call
  enqueues : SteadyClock → List ℕ → ℤ → ℕ → SerialDeadline → Call
  activates : Call
  cancels : ℕ → Call
  cancels_token : SerialWriteCancellationToken → Call
  cancels_all : Call
  completes : ℕ → ℕ → SerialWriteResultStatus → ℕ → Call

abbrev one_result : SerialWriteQueue × SerialWriteResult → SerialWriteQueue × List SerialWriteResult
one_result (q, r) = (q, r ∷ [])

unfoldable pub step : SerialWriteQueue → Call → SerialWriteQueue × List SerialWriteResult
step q (begins generation) = ((begin_generation q generation).0, [])
step q reserves = ((reserve_request_id q).0, [])
step q (enqueues clock payload timeout_ms generation deadline) =
    one_result (enqueue clock q payload timeout_ms generation deadline)
step q activates = ((activate_next q).0, [])
step q (cancels id) = one_result (cancel_pending q id)
step q (cancels_token token) = one_result (cancel_pending_token q token)
step q cancels_all = cancel_all_pending q
step q (completes id generation status bytes) =
    one_result (complete_active q id generation status bytes)

unfoldable pub run : SerialWriteQueue → List Call → SerialWriteQueue × List SerialWriteResult
run q [] = (q, [])
run q (c ∷ cs) = let (q', now) = step q c in let (q'', later) = run q' cs in (q'', now ++ later)

activate_next-Inv : (q : SerialWriteQueue) → Inv q → Inv (activate_next q).0
unfolding activate_next
activate_next-Inv q v = ground arith

cancel_pending-Inv : (q : SerialWriteQueue) (id : ℕ) → Inv q → Inv (cancel_pending q id).0
cancel_pending-Inv q id v =
    cancel_pending_cases (λ q' r. Inv q') q id v
      λ r found.
        let shorter = total_bytes-erase (has_id id) q.pending r found in
        record {
          capacity_word = v.capacity_word;
          byte_capacity_word = v.byte_capacity_word;
          next_word = v.next_word;
          pending_sum =
              omega (arith, v.pending_sum, v.bytes_marked, v.bytes_room, v.byte_capacity_word);
          count_marked = omega (arith, length-erase-le (has_id id) q.pending, v.count_marked);
          count_room = v.count_room;
          bytes_marked =
              omega (arith, v.pending_sum, v.bytes_marked, v.bytes_room, v.byte_capacity_word);
          bytes_room = v.bytes_room;
          ascending =
              erase_live-Ascending (has_id id) 0 (active_ids q.active) q.pending
                (id_bound q.next_request_id) v.ascending;
          queued = erase_request-All (has_id id) (IsQueued q.generation) q.pending v.queued;
          active_of = v.active_of;
        }

cancel_all_pending-Inv : (q : SerialWriteQueue) → Inv q → Inv (cancel_all_pending q).0
unfolding cancel_all_pending
cancel_all_pending-Inv q v = record {
  capacity_word = v.capacity_word;
  byte_capacity_word = v.byte_capacity_word;
  next_word = v.next_word;
  pending_sum = refl;
  count_marked = omega (arith, v.count_marked);
  count_room = v.count_room;
  bytes_marked = omega (arith, v.bytes_marked);
  bytes_room = v.bytes_room;
  ascending = Ascending-prefix 0 (active_ids q.active) (request_ids q.pending) _ v.ascending;
  queued = tt;
  active_of = v.active_of;
}

complete_active-Inv :
    (q : SerialWriteQueue) (id generation : ℕ) (status : SerialWriteResultStatus) (bytes : ℕ)
    → Inv q
    → Inv (complete_active q id generation status bytes).0
complete_active-Inv q id generation status bytes v =
    complete_active_cases (λ q' r. Inv q') q id generation status bytes v
      λ a e _ _ _ _. record {
        capacity_word = v.capacity_word;
        byte_capacity_word = v.byte_capacity_word;
        next_word = v.next_word;
        pending_sum = v.pending_sum;
        count_marked = omega (arith, v.count_marked);
        count_room = v.count_room;
        bytes_marked = omega (arith, v.bytes_marked);
        bytes_room = v.bytes_room;
        ascending = Ascending-suffix 0 (active_ids q.active) (request_ids q.pending) _ v.ascending;
        queued = v.queued;
        active_of = tt;
      }

-- Every call keeps the invariant.
pub step-Inv : (q : SerialWriteQueue) (c : Call) → Inv q → Inv (step q c).0
unfolding step
step-Inv q (begins generation) v = begin_generation-Inv q generation v
step-Inv q reserves v = reserve_request_id-Inv q v
step-Inv q (enqueues clock payload timeout_ms generation deadline) v =
    enqueue_cases (λ q' r. Inv q') clock q payload timeout_ms generation deadline v (λ _ _. v)
      (λ d a left. admit-Inv q payload timeout_ms generation d v a left)
step-Inv q activates v = activate_next-Inv q v
step-Inv q (cancels id) v = cancel_pending-Inv q id v
step-Inv q (cancels_token token) v =
    cancel_pending_token_cases (λ q' r. Inv q') q token v v (λ id. cancel_pending-Inv q id v)
step-Inv q cancels_all v = cancel_all_pending-Inv q v
step-Inv q (completes id generation status bytes) v =
    complete_active-Inv q id generation status bytes v

pub run-Inv : (q : SerialWriteQueue) (cs : List Call) → Inv q → Inv (run q cs).0
unfolding run
run-Inv q [] v = v
run-Inv q (c ∷ cs) v = run-Inv (step q c).0 cs (step-Inv q c v)

-- Whatever is called on a new queue whose limits fit a `size_t`, the queue stays within its
-- limits, counts its bytes exactly, keeps its high-water marks above what is live, holds its
-- requests in the order of their ids, and holds only requests of its generation.
pub run-new-Inv :
    (l : SerialWriteQueueLimits) (cs : List Call)
    → l.request_capacity < word
    → l.byte_capacity < word
    → Inv (run (new l) cs).0
run-new-Inv l cs h k = run-Inv (new l) cs (new-Inv l h k)
