-- ===== src/Transport/WriteQueue/Fifo.antt =====
-- What the write queue is for a caller: a first-in first-out line of payloads and one request in
-- the writer's hands, moved by the results that the queue publishes.
use serial_value_matcher_nat.Base.{
  ℕ, ◌<◌, ◌≡◌, refl, ap, Option, none, some, List, [], ◌∷◌, ◌++◌, arith, ◌==◌, if◌then◌else◌, ℤ,
}
use serial_value_matcher_nat.Transport.Types.{SerialDeadline}
use serial_value_matcher_nat.Transport.WriteQueue.State.{
  is_terminal, SerialWriteRequest, SerialWriteResult, ActiveReservation, SerialWriteQueue,
}
use serial_value_matcher_nat.Transport.WriteQueue.Enqueue.{
  begin_generation, reserve_request_id, reject, reject_completion, push_request, raise_high_water,
  make_request, admit,
}
use serial_value_matcher_nat.Transport.WriteQueue.Settle.{
  activate_next, find_request, erase_request, cancelled_result, has_id, cancel_pending,
  cancel_all_pending,
}
use serial_value_matcher_nat.Transport.WriteQueue.Invariant.{Inv}
use serial_value_matcher_nat.Transport.WriteQueue.Admission.{prepared-rest}
use serial_value_matcher_nat.Transport.WriteQueue.Cases.{
  enqueue_cases, cancel_pending_cases, cancel_pending_token_cases, complete_active_cases,
}
use serial_value_matcher_nat.Transport.WriteQueue.Conservation.{
  is_accepted, rejected_neither, settled_status-is_terminal,
}
use serial_value_matcher_nat.Transport.WriteQueue.Runs.{
  Call, begins, reserves, enqueues, activates, cancels, cancels_token, cancels_all, completes, step,
}

pub record View : Type 0 where
  pub waiting : List (ℕ × List ℕ)
  pub running : Option ℕ

abbrev pub entries : List SerialWriteRequest → List (ℕ × List ℕ)
entries [] = []
entries (r ∷ rs) = (r.id, r.payload) ∷ entries rs

abbrev pub running_id : Option ActiveReservation → Option ℕ
running_id none = none
running_id (some a) = some a.request_id

abbrev pub view : SerialWriteQueue → View
view q = record { waiting = entries q.pending; running = running_id q.active }

pub erase_entry : ℕ → List (ℕ × List ℕ) → List (ℕ × List ℕ)
erase_entry id [] = []
erase_entry id ((j, payload) ∷ es) = if j == id then es else (j, payload) ∷ erase_entry id es

pub start : View → View
start v = elim v.running [
  | some id ↦ v
  | none ↦ elim v.waiting [ [] ↦ v | e ∷ es ↦ record { waiting = es; running = some e.0 } ]
]

-- The line after a call, given only the line before it and the published results.
pub spec_step : Call → List SerialWriteResult → View → View
unfolding start erase_entry
spec_step (begins generation) out v = v
spec_step reserves out v = v
spec_step (enqueues clock payload timeout_ms generation deadline) [] v = v
spec_step (enqueues clock payload timeout_ms generation deadline) (r ∷ out) v =
    if is_accepted r.status
    then record v { waiting = v.waiting ++ (r.request_id, payload) ∷ [] }
    else v
spec_step activates out v = start v
spec_step (cancels id) [] v = v
spec_step (cancels id) (r ∷ out) v =
    if is_terminal r.status then record v { waiting = erase_entry r.request_id v.waiting } else v
spec_step (cancels_token token) [] v = v
spec_step (cancels_token token) (r ∷ out) v =
    if is_terminal r.status then record v { waiting = erase_entry r.request_id v.waiting } else v
spec_step cancels_all out v = record v { waiting = [] }
spec_step (completes id generation status bytes) [] v = v
spec_step (completes id generation status bytes) (r ∷ out) v =
    if is_terminal r.status then record v { running = none } else v

entries-append :
    (rs : List SerialWriteRequest) (r : SerialWriteRequest)
    → entries (rs ++ r ∷ []) ≡ entries rs ++ (r.id, r.payload) ∷ []
entries-append [] r = refl
entries-append (x ∷ rs) r = ap (◌∷◌ (x.id, x.payload)) (entries-append rs r)

entries-erase :
    (id : ℕ) (rs : List SerialWriteRequest)
    → entries (erase_request (has_id id) rs) ≡ erase_entry id (entries rs)
unfolding erase_request erase_entry
entries-erase id [] = refl
entries-erase id (r ∷ rs) = ground (arith, entries-erase id rs)

find_request-id :
    (id : ℕ) (rs : List SerialWriteRequest) (r : SerialWriteRequest)
    → find_request (has_id id) rs ≡ some r
    → r.id ≡ id
unfolding find_request
find_request-id id [] r h = ground arith
find_request-id id (x ∷ rs) r h = ground (arith, find_request-id id rs r)

begin_generation-view : (q : SerialWriteQueue) (g : ℕ) → view (begin_generation q g).0 ≡ view q
unfolding begin_generation
begin_generation-view q g = ground arith

reserve_request_id-view : (q : SerialWriteQueue) → view (reserve_request_id q).0 ≡ view q
unfolding reserve_request_id
reserve_request_id-view q = ground arith

activate_next-view : (q : SerialWriteQueue) → view (activate_next q).0 ≡ start (view q)
unfolding activate_next start
activate_next-view q = ground arith

admit-view :
    (q : SerialWriteQueue) (payload : List ℕ) (timeout_ms : ℤ) (generation : ℕ) (d : SerialDeadline)
    → Inv q
    → 0 < q.next_request_id
    → view (admit (reserve_request_id q).0 q.next_request_id payload timeout_ms generation d).0
      ≡ record (view q) { waiting = entries q.pending ++ (q.next_request_id, payload) ∷ [] }
unfolding admit push_request raise_high_water make_request
admit-view q payload timeout_ms generation d v left =
    let r = prepared-rest q generation left v.next_word in rw (r.2, r.3, entries-append) refl

-- A cancellation, by id or by token, takes out the entry that its result names.
abbrev TakesOut : SerialWriteQueue → SerialWriteQueue → SerialWriteResult → Type 0
TakesOut q q' r = view q' ≡ (
    if is_terminal r.status
    then record (view q) { waiting = erase_entry r.request_id (entries q.pending) }
    else view q)

cancel_pending-TakesOut :
    (q : SerialWriteQueue) (id : ℕ) → let r = cancel_pending q id in TakesOut q r.0 r.1
unfolding reject cancelled_result
cancel_pending-TakesOut q id =
    cancel_pending_cases (TakesOut q) q id refl
      λ r found. rw (entries-erase id q.pending, find_request-id id q.pending r found) refl

-- The queue implements the line: after any call it is the line that the results describe.
pub step-view :
    (q : SerialWriteQueue) (c : Call)
    → Inv q
    → let r = step q c in view r.0 ≡ spec_step c r.1 (view q)
unfolding step spec_step cancel_all_pending reject reject_completion admit
step-view q (begins generation) v = begin_generation-view q generation
step-view q reserves v = reserve_request_id-view q
step-view q (enqueues clock payload timeout_ms generation deadline) v =
    enqueue_cases
      (λ q' r.
        view q'
        ≡ spec_step (enqueues clock payload timeout_ms generation deadline) (r ∷ []) (view q))
      clock q payload timeout_ms generation deadline v
      (λ status h. let n = rejected_neither status h in rw (n.0) refl)
      (λ d _ left. admit-view q payload timeout_ms generation d v left)
step-view q activates v = activate_next-view q
step-view q (cancels id) v = cancel_pending-TakesOut q id
step-view q (cancels_token token) v =
    cancel_pending_token_cases (TakesOut q) q token refl refl (λ id. cancel_pending-TakesOut q id)
step-view q cancels_all v = refl
step-view q (completes id generation status bytes) v =
    complete_active_cases
      (λ q' r. view q' ≡ spec_step (completes id generation status bytes) (r ∷ []) (view q)) q id
      generation status bytes refl
      λ a e _ _ _ t.
        let s = settled_status-is_terminal status bytes a.payload_bytes t in rw s.1 refl
