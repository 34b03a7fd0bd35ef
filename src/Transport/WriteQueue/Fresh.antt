-- ===== src/Transport/WriteQueue/Fresh.antt =====
-- Accepted ids are new and grow: no id is given to two requests.
use serial_value_matcher_nat.Base.{
  ℕ, ◌+◌, ◌-◌, ◌≤◌, ◌<◌, ◌≡◌, refl, List, [], ◌∷◌, ◌++◌, arith, count, ℤ,
}
use serial_value_matcher_nat.Transport.Types.{SerialDeadline}
use serial_value_matcher_nat.Transport.WriteQueue.State.{
  SerialWriteQueueLimits, SerialWriteQueue, SerialWriteRequest, SerialWriteResult, new, word,
}
use serial_value_matcher_nat.Transport.WriteQueue.Enqueue.{
  begin_generation, reserve_request_id, admit, reject, reject_completion, push_request,
  raise_high_water,
}
use serial_value_matcher_nat.Transport.WriteQueue.Settle.{
  activate_next, cancel_pending, cancel_all_pending, cancelled_result, cancel_results,
}
use serial_value_matcher_nat.Transport.WriteQueue.Ids.{
  live_ids, Ascending, id_bound, Ascending-lt, Ascending-lower, count-Ascending_le_one,
}
use serial_value_matcher_nat.Transport.WriteQueue.Invariant.{Inv, new-Inv}
use serial_value_matcher_nat.Transport.WriteQueue.Admission.{prepared-rest, reserve_request_id-rest}
use serial_value_matcher_nat.Transport.WriteQueue.Cases.{
  enqueue_cases, cancel_pending_cases, cancel_pending_token_cases, complete_active_cases,
}
use serial_value_matcher_nat.Transport.WriteQueue.Runs.{
  Call, begins, reserves, enqueues, activates, cancels, cancels_token, cancels_all, completes, step,
  run, step-Inv,
}
use serial_value_matcher_nat.Transport.WriteQueue.Conservation.{
  accepted_ids, settled_ids, rejected_neither, settled_status-is_terminal, accepted_ids-append,
  run-Conserves,
}

-- The ids that a call accepts are new: at or above the old bound, and below the new one.
abbrev Fresh : SerialWriteQueue → SerialWriteQueue → List SerialWriteResult → Type 0
Fresh q q' out =
    Ascending (id_bound q.next_request_id - 1) (accepted_ids out) (id_bound q'.next_request_id)

module _ (q : SerialWriteQueue) (v : Inv q) where
  bound_pos : 0 < id_bound q.next_request_id
  bound_pos = Ascending-lt 0 (live_ids q) (id_bound q.next_request_id) v.ascending

  -- A call that accepts nothing keeps the id counter, or hands an id out.
  keeps-Fresh : Fresh q q []
  keeps-Fresh = omega (arith, bound_pos)

begin_generation-next :
    (q : SerialWriteQueue) (g : ℕ) → (begin_generation q g).0.next_request_id ≡ q.next_request_id
unfolding begin_generation
begin_generation-next q g = ground arith

activate_next-next :
    (q : SerialWriteQueue) → (activate_next q).0.next_request_id ≡ q.next_request_id
unfolding activate_next
activate_next-next q = ground arith

reserve_request_id-bound :
    (q : SerialWriteQueue)
    → Inv q
    → id_bound q.next_request_id ≤ id_bound (reserve_request_id q).0.next_request_id
unfolding reserve_request_id
reserve_request_id-bound q v = ground (arith, v.next_word)

cancel_pending-Fresh :
    (q : SerialWriteQueue) (id : ℕ) → Inv q → let r = cancel_pending q id in Fresh q r.0 (r.1 ∷ [])
unfolding cancelled_result reject
cancel_pending-Fresh q id v =
    cancel_pending_cases (λ q' r. Fresh q q' (r ∷ [])) q id (keeps-Fresh q v)
      λ r found. keeps-Fresh q v

accepted_ids-cancel_results : (rs : List SerialWriteRequest) → accepted_ids (cancel_results rs) ≡ []
unfolding cancel_results
accepted_ids-cancel_results [] = refl
accepted_ids-cancel_results (r ∷ rs) = accepted_ids-cancel_results rs

admit-Fresh :
    (q : SerialWriteQueue) (payload : List ℕ) (timeout_ms : ℤ) (generation : ℕ) (d : SerialDeadline)
    → Inv q
    → 0 < q.next_request_id
    → let r = admit (reserve_request_id q).0 q.next_request_id payload timeout_ms generation d in
      Fresh q r.0 (r.1 ∷ [])
unfolding admit push_request raise_high_water
admit-Fresh q payload timeout_ms generation d v left =
    let r = prepared-rest q generation left v.next_word in
    let b = reserve_request_id-rest q left v.next_word in (omega (arith, b.5), r.4)

step-Fresh : (q : SerialWriteQueue) (c : Call) → Inv q → let r = step q c in Fresh q r.0 r.1
unfolding step reject cancel_all_pending reject_completion
step-Fresh q (begins generation) v = rw (begin_generation-next q generation) (keeps-Fresh q v)
step-Fresh q reserves v = omega (arith, bound_pos q v, reserve_request_id-bound q v)
step-Fresh q (enqueues clock payload timeout_ms generation deadline) v =
    enqueue_cases (λ q' r. Fresh q q' (r ∷ [])) clock q payload timeout_ms generation deadline v
      (λ status h. let n = rejected_neither status h in rw n.0 (keeps-Fresh q v))
      (λ d _ left. admit-Fresh q payload timeout_ms generation d v left)
step-Fresh q activates v = rw (activate_next-next q) (keeps-Fresh q v)
step-Fresh q (cancels id) v = cancel_pending-Fresh q id v
step-Fresh q (cancels_token token) v =
    cancel_pending_token_cases (λ q' r. Fresh q q' (r ∷ [])) q token (keeps-Fresh q v)
      (keeps-Fresh q v) (λ id. cancel_pending-Fresh q id v)
step-Fresh q cancels_all v = rw (accepted_ids-cancel_results q.pending) (keeps-Fresh q v)
step-Fresh q (completes id generation status bytes) v =
    complete_active_cases (λ q' r. Fresh q q' (r ∷ [])) q id generation status bytes
      (keeps-Fresh q v)
      λ x e _ _ _ t.
        let s = settled_status-is_terminal status bytes x.payload_bytes t in
        rw s.0 (keeps-Fresh q v)

Ascending-append :
    (lo : ℕ) (xs : List ℕ) (mid : ℕ) (ys : List ℕ) (hi : ℕ)
    → Ascending lo xs mid
    → Ascending (mid - 1) ys hi
    → Ascending lo (xs ++ ys) hi
Ascending-append lo [] mid ys hi a b = Ascending-lower (mid - 1) lo ys hi (omega arith) b
Ascending-append lo (x ∷ xs) mid ys hi a b = (a.0, Ascending-append x xs mid ys hi a.1 b)

run-Fresh : (q : SerialWriteQueue) (cs : List Call) → Inv q → let r = run q cs in Fresh q r.0 r.1
unfolding run
run-Fresh q [] v = keeps-Fresh q v
run-Fresh q (c ∷ cs) v = rw (accepted_ids-append (step q c).1 (run (step q c).0 cs).1) (
    Ascending-append _ (accepted_ids (step q c).1) _ _ _ (step-Fresh q c v)
      (run-Fresh (step q c).0 cs (step-Inv q c v)))

-- Whatever is called on a new queue whose limits fit a `size_t`: no request id is accepted twice,
-- and each accepted id is either live in the queue once or settled by exactly one terminal result.
pub accepted-settled-live :
    (l : SerialWriteQueueLimits) (cs : List Call) (a : ℕ)
    → l.request_capacity < word
    → l.byte_capacity < word
    → let r = run (new l) cs in
      (count a (accepted_ids r.1) ≤ 1)
      × (count a (accepted_ids r.1) ≡ count a (settled_ids r.1) + count a (live_ids r.0))
accepted-settled-live l cs a h k = (
  count-Ascending_le_one a _ _ _ (run-Fresh (new l) cs (new-Inv l h k)),
  omega (arith, run-Conserves (new l) cs (new-Inv l h k) a, new_live),
)
  where
    new_live : count a (live_ids (new l)) ≡ 0
    new_live = unfold new in refl
