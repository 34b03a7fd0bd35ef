-- ===== src/Transport/WriteQueue/Examples.antt =====
-- Tests of the write queue on small inputs, and the theorems about it at such inputs.
use serial_value_matcher_nat.Base.{
  ◌+◌, ◌^◌, ◌≤◌, ◌<◌, ◌≡◌, refl, ◌↔◌, true, none, some, List, [], ◌∷◌, arith, count, pos,
}
use serial_value_matcher_nat.Transport.Types.{SerialDeadline}
use serial_value_matcher_nat.Base.{◌⊎◌, ◌≢◌, ℕ}
use serial_value_matcher_nat.Transport.WriteQueue.Enqueue.{reject_completion}
use serial_value_matcher_nat.Transport.WriteQueue.State.{
  SerialWriteQueueLimits, SerialWriteResultStatus, is_terminal, SerialWriteResult, SerialWriteQueue,
  new,
}
use serial_value_matcher_nat.Transport.WriteQueue.Enqueue.{
  begin_generation, reserve_request_id, SteadyClock, deadline_from_timeout, enqueue_refusal,
  make_request, admit, enqueue,
}
use serial_value_matcher_nat.Transport.WriteQueue.Settle.{
  activate_next, find_request, erase_request, cancel_pending, complete_active,
}
use serial_value_matcher_nat.Transport.WriteQueue.Ids.{live_ids}
use serial_value_matcher_nat.Transport.WriteQueue.Invariant.{Inv}
use serial_value_matcher_nat.Transport.WriteQueue.Admission.{IsAdmissible}
use serial_value_matcher_nat.Transport.WriteQueue.Conservation.{
  is_accepted, accepted_ids, settled_ids,
}
use serial_value_matcher_nat.Transport.WriteQueue.Fresh.{accepted-settled-live}
use serial_value_matcher_nat.Transport.WriteQueue.Fifo.{view, spec_step, step-view}
use serial_value_matcher_nat.Transport.WriteQueue.Outcomes.{
  enqueue_accepts_iff, Completes, complete_active_lem,
}
use serial_value_matcher_nat.Transport.WriteQueue.Runs.{
  Call, begins, enqueues, activates, cancels, completes, step, run, run-new-Inv,
}

abbrev small_limits : SerialWriteQueueLimits
small_limits = record { request_capacity = 2; byte_capacity = 8 }

abbrev test_clock : SteadyClock
test_clock = record { now = 5; time_point_max = 2 ^ 63; ticks_per_ms = 1_000_000 }

abbrev no_deadline : SerialDeadline
no_deadline = record { expires_at = none }

-- Two writes fit, the third is refused; the first is sent in part and the second cancelled.
abbrev history : List Call
history =
    begins 7
    ∷ enqueues test_clock (1 ∷ 2 ∷ 3 ∷ []) (pos 50) 7 no_deadline
    ∷ enqueues test_clock (4 ∷ 5 ∷ []) (pos 50) 7 no_deadline
    ∷ enqueues test_clock (6 ∷ []) (pos 50) 7 no_deadline
    ∷ activates
    ∷ completes 1 7 SerialWriteResultStatus.sent 2
    ∷ cancels 2
    ∷ []

abbrev statuses : List SerialWriteResult → List SerialWriteResultStatus
statuses [] = []
statuses (r ∷ rs) = r.status ∷ statuses rs

history-statuses :
    statuses (run (new small_limits) history).1
    ≡ SerialWriteResultStatus.accepted ∷ SerialWriteResultStatus.accepted
      ∷ SerialWriteResultStatus.rejected_full ∷ SerialWriteResultStatus.failed
      ∷ SerialWriteResultStatus.cancelled ∷ []
unfolding run step new begin_generation enqueue enqueue_refusal reserve_request_id admit
    activate_next complete_active cancel_pending find_request erase_request deadline_from_timeout
history-statuses = refl

-- One write in the writer's hands and one waiting.
abbrev busy : SerialWriteQueue
busy = record {
  limits = small_limits;
  generation = 7;
  next_request_id = 3;
  pending_bytes = 2;
  high_water_count = 2;
  high_water_bytes = 5;
  pending = make_request 2 7 (4 ∷ 5 ∷ []) (pos 50) no_deadline ∷ [];
  active =
      some (record { request_id = 1; generation = 7; payload_bytes = 3; deadline = no_deadline });
}

busy-Inv : Inv busy
unfolding make_request
busy-Inv = ground arith

run-new-Inv_example : Inv (run (new small_limits) history).0
run-new-Inv_example = run-new-Inv small_limits history (omega arith) (omega arith)

accepted-settled-live_example :
    let r = run (new small_limits) history in
    (count 2 (accepted_ids r.1) ≤ 1)
    × (count 2 (accepted_ids r.1) ≡ count 2 (settled_ids r.1) + count 2 (live_ids r.0))
accepted-settled-live_example =
    accepted-settled-live small_limits history 2 (omega arith) (omega arith)

step-view_example :
    let r = step busy (completes 1 7 SerialWriteResultStatus.sent 3) in
    view r.0 ≡ spec_step (completes 1 7 SerialWriteResultStatus.sent 3) r.1 (view busy)
step-view_example = step-view busy (completes 1 7 SerialWriteResultStatus.sent 3) busy-Inv

enqueue_accepts_iff_example :
    (is_accepted (enqueue test_clock busy (6 ∷ []) (pos 50) 7 no_deadline).1.status ≡ true)
    ↔ (IsAdmissible busy (6 ∷ []) (pos 50) 7 × (0 < busy.next_request_id))
enqueue_accepts_iff_example =
    enqueue_accepts_iff test_clock busy (6 ∷ []) (pos 50) 7 no_deadline busy-Inv

complete_active_lem_example :
    let r = complete_active busy 1 7 SerialWriteResultStatus.sent 2 in
    (Completes busy 1 7 SerialWriteResultStatus.sent 2
      × (r.0 ≡ record busy { active = none })
      × (is_terminal r.1.status ≡ true)
      × (r.1.request_id ≡ 1)
      × (r.1.byte_count ≡ 2)
      × ((r.1.status ≢ SerialWriteResultStatus.sent) ⊎ (◌≡◌ {A = ℕ} 2 3)))
    ⊎ ((¬ Completes busy 1 7 SerialWriteResultStatus.sent 2)
        × (r.0 ≡ busy)
        × (r.1 ≡ reject_completion 1 7))
complete_active_lem_example = complete_active_lem busy 1 7 SerialWriteResultStatus.sent 2
