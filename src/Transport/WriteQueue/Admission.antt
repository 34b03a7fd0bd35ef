-- ===== src/Transport/WriteQueue/Admission.antt =====
-- Why `enqueue` keeps the invariant: what its guards ask, and what an admitted request does.
use mathlib.Core.List.{append_assoc}
use serial_value_matcher_nat.Base.{
  ℕ, suc, ◌+◌, ◌≤◌, ◌<◌, ◌≡◌, ◌⊎◌, refl, sym, ◌∙◌, ap, ℤ, pos, ◌≤ℤ◌, List, [], ◌∷◌, ◌++◌, none,
  All-append, arith, length, length-append,
}
use serial_value_matcher_nat.Transport.Types.{SerialDeadline}
use serial_value_matcher_nat.Transport.WriteQueue.State.{
  SerialWriteQueue, SerialWriteRequest, active_count, active_bytes, word,
}
use serial_value_matcher_nat.Transport.WriteQueue.Enqueue.{
  reserve_request_id, enqueue_refusal, admit, make_request, push_request, raise_high_water,
  adopt_generation,
}
use serial_value_matcher_nat.Transport.WriteQueue.Ids.{
  request_ids, total_bytes, live_ids, Ascending, id_bound, Ascending-snoc,
}
use serial_value_matcher_nat.Transport.WriteQueue.Invariant.{
  IsQueued, Inv, All-IsQueued_empty, reserve_request_id-Inv,
}

-- What `enqueue` asks of a request, in the arithmetic of the limits.
pub record IsAdmissible (q : SerialWriteQueue) (payload : List ℕ) (timeout_ms : ℤ) (generation : ℕ)
    : Type 0 where
  pub has_bytes : 0 < length payload
  pub has_time : pos 1 ≤ℤ timeout_ms
  pub same_generation :
      (generation ≡ q.generation) ⊎ ((q.generation ≡ 0) × (q.pending ≡ []) × (q.active ≡ none))
  pub count_fits : suc (length q.pending + active_count q.active) ≤ q.limits.request_capacity
  pub bytes_fit : q.pending_bytes + active_bytes q.active + length payload ≤ q.limits.byte_capacity

pub enqueue_refusal-none :
    (q : SerialWriteQueue) (payload : List ℕ) (timeout_ms : ℤ) (generation : ℕ)
    → Inv q
    → enqueue_refusal q payload timeout_ms generation ≡ none
    → IsAdmissible q payload timeout_ms generation
unfolding enqueue_refusal
enqueue_refusal-none q payload timeout_ms generation v h = ground arith

-- And it refuses nothing that meets all of it.
pub enqueue_refusal_admissible :
    (q : SerialWriteQueue) (payload : List ℕ) (timeout_ms : ℤ) (generation : ℕ)
    → Inv q
    → IsAdmissible q payload timeout_ms generation
    → enqueue_refusal q payload timeout_ms generation ≡ none
unfolding enqueue_refusal
enqueue_refusal_admissible q payload timeout_ms generation v a = ground arith

total_bytes-append :
    (rs : List SerialWriteRequest) (r : SerialWriteRequest)
    → total_bytes (rs ++ r ∷ []) ≡ total_bytes rs + r.payload_bytes
total_bytes-append [] r = omega arith
total_bytes-append (x ∷ rs) r = omega (arith, total_bytes-append rs r)

pub request_ids-append :
    (rs : List SerialWriteRequest) (r : SerialWriteRequest)
    → request_ids (rs ++ r ∷ []) ≡ request_ids rs ++ r.id ∷ []
request_ids-append [] r = refl
request_ids-append (x ∷ rs) r = ap (◌∷◌ x.id) (request_ids-append rs r)

-- An admitted request stands behind all others, under the id that was reserved for it.
module _ (q : SerialWriteQueue) (r : SerialWriteRequest) (v : Inv q) (id : ℕ)
    (v' : Ascending 0 (live_ids q) id) (below : id < id_bound q.next_request_id) (same : r.id ≡ id)
    (made : IsQueued q.generation r)
    (count_fits : suc (length q.pending + active_count q.active) ≤ q.limits.request_capacity)
    (bytes_fit : q.pending_bytes + active_bytes q.active + r.payload_bytes
      ≤ q.limits.byte_capacity) where
  push-Ascending : Ascending 0 (live_ids (push_request q r)) (id_bound q.next_request_id)
  unfolding push_request
  push-Ascending =
      rw (request_ids-append, same, ← append_assoc) (Ascending-snoc 0 (live_ids q) id _ below v')

  push-marked : Inv (raise_high_water (push_request q r))
  unfolding push_request raise_high_water
  push-marked = record {
    capacity_word = v.capacity_word;
    byte_capacity_word = v.byte_capacity_word;
    next_word = v.next_word;
    pending_sum = ground (arith, total_bytes-append q.pending r);
    count_marked = ground (arith, length-append q.pending (r ∷ []));
    count_room = ground (arith, length-append q.pending (r ∷ []));
    bytes_marked = ground (arith);
    bytes_room = ground (arith);
    ascending = push-Ascending;
    queued = All-append (IsQueued q.generation) q.pending (r ∷ []) v.queued (made, tt);
    active_of = v.active_of;
  }

-- Whether the queue takes on a request's generation is settled by its having none yet.
module _ (q : SerialWriteQueue) (generation : ℕ) (v : Inv q)
    (same : (generation ≡ q.generation)
      ⊎ ((q.generation ≡ 0) × (q.pending ≡ []) × (q.active ≡ none))) where
  adopt_generation-Inv : Inv (adopt_generation q generation)
  unfolding adopt_generation
  adopt_generation-Inv = ground (arith, All-IsQueued_empty generation q.pending)

  adopt_generation-generation : (adopt_generation q generation).generation ≡ generation
  unfolding adopt_generation
  adopt_generation-generation = ground arith

-- Adoption touches the generation and the marks only.
adopt_generation-rest :
    (q : SerialWriteQueue) (generation : ℕ)
    → let q' = adopt_generation q generation in
      (q'.limits ≡ q.limits)
      × (q'.next_request_id ≡ q.next_request_id)
      × (q'.pending_bytes ≡ q.pending_bytes)
      × (q'.pending ≡ q.pending)
      × (q'.active ≡ q.active)
unfolding adopt_generation
adopt_generation-rest q generation = ground arith

-- A reserved id is the old bound of the live ids, and the new bound is above it.
pub reserve_request_id-rest :
    (q : SerialWriteQueue)
    → 0 < q.next_request_id
    → q.next_request_id < word
    → let q' = (reserve_request_id q).0 in
      (q'.limits ≡ q.limits)
      × (q'.generation ≡ q.generation)
      × (q'.pending_bytes ≡ q.pending_bytes)
      × (q'.pending ≡ q.pending)
      × (q'.active ≡ q.active)
      × (id_bound q.next_request_id ≡ q.next_request_id)
      × (q.next_request_id < id_bound q'.next_request_id)
unfolding reserve_request_id
reserve_request_id-rest q left h = ground arith

-- The queue that `enqueue` pushes a request onto: an id reserved and the generation settled.
abbrev pub prepared : SerialWriteQueue → ℕ → SerialWriteQueue
prepared q generation = adopt_generation (reserve_request_id q).0 generation

pub prepared-rest :
    (q : SerialWriteQueue) (generation : ℕ)
    → 0 < q.next_request_id
    → q.next_request_id < word
    → let q' = prepared q generation in
      (q'.limits ≡ q.limits)
      × (q'.pending_bytes ≡ q.pending_bytes)
      × (q'.pending ≡ q.pending)
      × (q'.active ≡ q.active)
      × (q.next_request_id < id_bound q'.next_request_id)
prepared-rest q generation left h =
    let r = reserve_request_id-rest q left h in
    let a = adopt_generation-rest (reserve_request_id q).0 generation in
    (a.0 ∙ r.0, a.2 ∙ r.2, a.3 ∙ r.3, a.4 ∙ r.4, rw a.1 r.6)

module _ (q : SerialWriteQueue) (payload : List ℕ) (timeout_ms : ℤ) (generation : ℕ)
    (d : SerialDeadline) (v : Inv q) (a : IsAdmissible q payload timeout_ms generation)
    (left : 0 < q.next_request_id) where
  prepared-same :
      let q' = (reserve_request_id q).0 in
      (generation ≡ q'.generation) ⊎ ((q'.generation ≡ 0) × (q'.pending ≡ []) × (q'.active ≡ none))
  prepared-same =
      let r = reserve_request_id-rest q left v.next_word in rw (r.1, r.3, r.4) a.same_generation

  pub admit-Inv :
      Inv (admit (reserve_request_id q).0 q.next_request_id payload timeout_ms generation d).0
  unfolding admit make_request
  admit-Inv =
      let q' = (reserve_request_id q).0 in
      let u = reserve_request_id-Inv q v in
      let r = prepared-rest q generation left v.next_word in
      let g = adopt_generation-generation q' generation u prepared-same in
      push-marked (prepared q generation)
        (make_request q.next_request_id generation payload timeout_ms d)
        (adopt_generation-Inv q' generation u prepared-same) q.next_request_id
        (rw (r.3, r.2) (rw (← (reserve_request_id-rest q left v.next_word).5) v.ascending)) r.4 refl
        (refl, a.has_bytes, sym g, refl, sym g, refl) (rw (r.0, r.2, r.3) a.count_fits)
        (rw (r.0, r.1, r.3) a.bytes_fit)
