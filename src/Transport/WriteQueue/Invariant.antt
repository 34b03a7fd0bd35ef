-- ===== src/Transport/WriteQueue/Invariant.antt =====
-- What holds of the write queue between calls, whatever was called: the limits, the byte count,
-- the high-water marks, the order of the ids and the generation of every live request.
use serial_value_matcher_nat.Base.{
  ℕ, ◌+◌, ◌≤◌, ◌<◌, ◌≡◌, List, [], ◌∷◌, Option, none, some, All, arith, length,
}
use serial_value_matcher_nat.Transport.WriteQueue.State.{
  SerialWriteQueueLimits, SerialWriteQueue, SerialWriteRequest, ActiveReservation,
  SerialWriteCancellationState, new, active_count, active_bytes, word,
}
use serial_value_matcher_nat.Transport.WriteQueue.Enqueue.{begin_generation, reserve_request_id}
use serial_value_matcher_nat.Transport.WriteQueue.Ids.{
  total_bytes, live_ids, Ascending, id_bound, Ascending-raise,
}

-- A queued request as `enqueue` made it, of the queue's generation.
abbrev pub IsQueued : ℕ → SerialWriteRequest → Type 0
IsQueued generation r =
    (r.payload_bytes ≡ length r.payload)
    × (0 < r.payload_bytes)
    × (r.generation ≡ generation)
    × (r.cancellation_token.request_id ≡ r.id)
    × (r.cancellation_token.generation ≡ generation)
    × (r.cancellation_state ≡ SerialWriteCancellationState.active)

abbrev pub IsActiveOf : ℕ → Option ActiveReservation → Type 0
IsActiveOf generation none = Unit {0}
IsActiveOf generation (some a) = a.generation ≡ generation

pub record Inv (q : SerialWriteQueue) : Type 0 where
  pub capacity_word : q.limits.request_capacity < word
  pub byte_capacity_word : q.limits.byte_capacity < word
  pub next_word : q.next_request_id < word
  pub pending_sum : q.pending_bytes ≡ total_bytes q.pending
  pub count_marked : length q.pending + active_count q.active ≤ q.high_water_count
  pub count_room : q.high_water_count ≤ q.limits.request_capacity
  pub bytes_marked : q.pending_bytes + active_bytes q.active ≤ q.high_water_bytes
  pub bytes_room : q.high_water_bytes ≤ q.limits.byte_capacity
  pub ascending : Ascending 0 (live_ids q) (id_bound q.next_request_id)
  pub queued : All (IsQueued q.generation) q.pending
  pub active_of : IsActiveOf q.generation q.active

pub new-Inv :
    (l : SerialWriteQueueLimits) → l.request_capacity < word → l.byte_capacity < word → Inv (new l)
unfolding new
new-Inv l h k = ground arith

-- The generation of an empty queue can be replaced.
pub All-IsQueued_empty : (g : ℕ) (rs : List SerialWriteRequest) → rs ≡ [] → All (IsQueued g) rs
All-IsQueued_empty g [] e = tt
All-IsQueued_empty g (r ∷ rs) e = ground arith

pub begin_generation-Inv : (q : SerialWriteQueue) (g : ℕ) → Inv q → Inv (begin_generation q g).0
unfolding begin_generation
begin_generation-Inv q g v = ground arith

pub reserve_request_id-Inv : (q : SerialWriteQueue) → Inv q → Inv (reserve_request_id q).0
unfolding reserve_request_id
reserve_request_id-Inv q v = ground (
  arith,
  Ascending-raise 0 (live_ids q) (id_bound q.next_request_id) (q.next_request_id + 1),
  Ascending-raise 0 (live_ids q) (id_bound q.next_request_id) word,
)
