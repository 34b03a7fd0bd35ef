-- ===== src/Transport/WriteQueue/Conservation.antt =====
-- No request is lost or settled twice: ids accepted, settled and live, counted over any run.
use serial_value_matcher_nat.Base.{
  ap, ℕ, ◌+◌, ◌<◌, ◌≡◌, ℤ, List, [], ◌∷◌, ◌++◌, arith, refl, Bool, true, false, if◌then◌else◌,
  count, count-append,
}
use mathlib.Core.List.{append_assoc}
use serial_value_matcher_nat.Transport.Types.{SerialDeadline}
use serial_value_matcher_nat.Transport.WriteQueue.State.{
  SerialWriteQueue, SerialWriteRequest, SerialWriteResult, SerialWriteResultStatus, is_rejected,
  is_terminal,
}
use serial_value_matcher_nat.Transport.WriteQueue.Enqueue.{
  begin_generation, reserve_request_id, admit, reject, reject_completion, make_request,
  push_request, raise_high_water,
}
use serial_value_matcher_nat.Transport.WriteQueue.Settle.{
  has_id, activate_next, cancel_pending, cancel_all_pending, complete_active, cancelled_result,
  cancel_results, settled_status,
}
use serial_value_matcher_nat.Transport.WriteQueue.Ids.{
  live_ids, active_ids, request_ids, count-erase,
}
use serial_value_matcher_nat.Transport.WriteQueue.Invariant.{Inv}
use serial_value_matcher_nat.Transport.WriteQueue.Admission.{prepared-rest, request_ids-append}
use serial_value_matcher_nat.Transport.WriteQueue.Cases.{
  enqueue_cases, without_request, cancel_pending_cases, cancel_pending_token_cases,
  complete_active_cases,
}
use serial_value_matcher_nat.Transport.WriteQueue.Runs.{
  Call, begins, reserves, enqueues, activates, cancels, cancels_token, cancels_all, completes, step,
  run, step-Inv,
}

abbrev pub is_accepted : SerialWriteResultStatus → Bool
is_accepted SerialWriteResultStatus.accepted = true
is_accepted _ = false

-- The ids that results accept, and those that they settle.
abbrev pub accepted_ids : List SerialWriteResult → List ℕ
accepted_ids [] = []
accepted_ids (r ∷ rs) = (if is_accepted r.status then r.request_id ∷ [] else []) ++ accepted_ids rs

abbrev pub settled_ids : List SerialWriteResult → List ℕ
settled_ids [] = []
settled_ids (r ∷ rs) = (if is_terminal r.status then r.request_id ∷ [] else []) ++ settled_ids rs

-- From `q` to `q'` under `out`: what `out` accepts becomes live, and what it settles is no more.
abbrev pub Conserves : SerialWriteQueue → SerialWriteQueue → List SerialWriteResult → Type 0
Conserves q q' out =
    (a : ℕ)
    → count a (accepted_ids out) + count a (live_ids q)
      ≡ count a (settled_ids out) + count a (live_ids q')

pub rejected_neither :
    (s : SerialWriteResultStatus)
    → is_rejected s ≡ true
    → (is_accepted s ≡ false) × (is_terminal s ≡ false)
rejected_neither s h = ground arith

pub settled_status-is_terminal :
    (s : SerialWriteResultStatus) (bytes size : ℕ)
    → is_terminal s ≡ true
    → (is_accepted (settled_status s bytes size) ≡ false)
      × (is_terminal (settled_status s bytes size) ≡ true)
settled_status-is_terminal s bytes size h = ground arith

admit-Conserves :
    (q : SerialWriteQueue) (payload : List ℕ) (timeout_ms : ℤ) (generation : ℕ) (d : SerialDeadline)
    → Inv q
    → 0 < q.next_request_id
    → let r = admit (reserve_request_id q).0 q.next_request_id payload timeout_ms generation d in
      Conserves q r.0 (r.1 ∷ [])
unfolding admit push_request raise_high_water make_request
admit-Conserves q payload timeout_ms generation d v left a =
    let r = prepared-rest q generation left v.next_word in
    rw (r.2, r.3)
      (omega (
        arith,
        count-append a (active_ids q.active) (request_ids q.pending),
        count-append a (active_ids q.active) (request_ids (q.pending ++ made ∷ [])),
        ap (count a) (request_ids-append q.pending made),
        count-append a (request_ids q.pending) (q.next_request_id ∷ []),
      ))
  where
    made : SerialWriteRequest
    made = make_request q.next_request_id generation payload timeout_ms d

activate_next-Conserves : (q : SerialWriteQueue) → Conserves q (activate_next q).0 []
unfolding activate_next
activate_next-Conserves q a = ground arith

cancel_pending-Conserves :
    (q : SerialWriteQueue) (id : ℕ) → let r = cancel_pending q id in Conserves q r.0 (r.1 ∷ [])
unfolding cancelled_result reject
cancel_pending-Conserves q id =
    cancel_pending_cases (λ q' r. Conserves q q' (r ∷ [])) q id (λ a. refl)
      λ r found a. omega (
        arith,
        count-append a (active_ids q.active) (request_ids q.pending),
        count-append a (active_ids q.active) (request_ids (without_request q r id).pending),
        count-erase (has_id id) a q.pending r found,
      )

pub count-cancel_results :
    (a : ℕ) (rs : List SerialWriteRequest)
    → (count a (accepted_ids (cancel_results rs)) ≡ 0)
      × (count a (settled_ids (cancel_results rs)) ≡ count a (request_ids rs))
unfolding cancel_results
count-cancel_results a [] = (refl, refl)
count-cancel_results a (r ∷ rs) = omega (arith, count-cancel_results a rs)

cancel_all_pending-Conserves :
    (q : SerialWriteQueue) → let r = cancel_all_pending q in Conserves q r.0 r.1
unfolding cancel_all_pending
cancel_all_pending-Conserves q a = omega (
  arith,
  count-cancel_results a q.pending,
  count-append a (active_ids q.active) (request_ids q.pending),
  count-append a (active_ids q.active) [],
)

complete_active-Conserves :
    (q : SerialWriteQueue) (id generation : ℕ) (status : SerialWriteResultStatus) (bytes : ℕ)
    → let r = complete_active q id generation status bytes in Conserves q r.0 (r.1 ∷ [])
unfolding reject_completion
complete_active-Conserves q id generation status bytes =
    complete_active_cases (λ q' r. Conserves q q' (r ∷ [])) q id generation status bytes (λ a. refl)
      λ x e _ _ _ t a.
        let s = settled_status-is_terminal status bytes x.payload_bytes t in
        rw (e, s.0, s.1) (omega arith)

step-Conserves : (q : SerialWriteQueue) (c : Call) → Inv q → let r = step q c in Conserves q r.0 r.1
unfolding step begin_generation reserve_request_id reject reject_completion
step-Conserves q (begins generation) v = λ a. ground arith
step-Conserves q reserves v = λ a. ground arith
step-Conserves q (enqueues clock payload timeout_ms generation deadline) v =
    enqueue_cases (λ q' r. Conserves q q' (r ∷ [])) clock q payload timeout_ms generation deadline v
      (λ status h a. let n = rejected_neither status h in rw (n.0, n.1) refl)
      (λ d _ left. admit-Conserves q payload timeout_ms generation d v left)
step-Conserves q activates v = activate_next-Conserves q
step-Conserves q (cancels id) v = cancel_pending-Conserves q id
step-Conserves q (cancels_token token) v =
    cancel_pending_token_cases (λ q' r. Conserves q q' (r ∷ [])) q token (λ a. refl) (λ a. refl)
      (λ id. cancel_pending-Conserves q id)
step-Conserves q cancels_all v = cancel_all_pending-Conserves q
step-Conserves q (completes id generation status bytes) v =
    complete_active-Conserves q id generation status bytes

pub accepted_ids-append :
    (xs ys : List SerialWriteResult) → accepted_ids (xs ++ ys) ≡ accepted_ids xs ++ accepted_ids ys
accepted_ids-append [] ys = refl
accepted_ids-append (x ∷ xs) ys = simp (accepted_ids-append xs ys, append_assoc)

settled_ids-append :
    (xs ys : List SerialWriteResult) → settled_ids (xs ++ ys) ≡ settled_ids xs ++ settled_ids ys
settled_ids-append [] ys = refl
settled_ids-append (x ∷ xs) ys = simp (settled_ids-append xs ys, append_assoc)

pub run-Conserves :
    (q : SerialWriteQueue) (cs : List Call) → Inv q → let r = run q cs in Conserves q r.0 r.1
unfolding run
run-Conserves q [] v a = refl
run-Conserves q (c ∷ cs) v a =
    let q' = (step q c).0 in
    let now = (step q c).1 in
    let later = (run q' cs).1 in
    omega (
      arith,
      ap (count a) (accepted_ids-append now later),
      ap (count a) (settled_ids-append now later),
      count-append a (accepted_ids now) (accepted_ids later),
      count-append a (settled_ids now) (settled_ids later),
      step-Conserves q c v a,
      run-Conserves q' cs (step-Inv q c v) a,
    )
