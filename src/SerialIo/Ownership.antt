-- ===== src/SerialIo/Ownership.antt =====
-- The port has one owner at a time: what any calls on the state do is the history of a lock.
use serial_value_matcher_nat.Base.{
  ◌≡◌, refl, sym, ◌≢◌, ◌⊎◌, inl, inr, true, false, List, [], ◌∷◌, ◌++◌, arith, if◌then◌else◌,
}
use mathlib.Core.Path.{subst}
use serial_value_matcher_nat.Transport.WriteQueue.State.{SerialWriteQueueSnapshot}
use serial_value_matcher_nat.SerialIo.State.{
  NativeSerialIoOwner, eq_owner, NativeSerialIoState, new_io_state, has_pending_serial_writes,
  serial_write_queue_has_backpressure, allows_owner, can_acquire, try_acquire, release,
  force_release, update_write_queue_snapshot,
}

pub data Call : Type 0 where
  acquires releases : NativeSerialIoOwner → Call
  forces : Call
  updates : SerialWriteQueueSnapshot → Call

-- What changes of the owner: a lock's history.
pub data OwnerEvent : Type 0 where
  taken freed : NativeSerialIoOwner → OwnerEvent

abbrev pub freed_by : NativeSerialIoOwner → List OwnerEvent
freed_by NativeSerialIoOwner.none = []
freed_by NativeSerialIoOwner.manual_send = OwnerEvent.freed NativeSerialIoOwner.manual_send ∷ []
freed_by NativeSerialIoOwner.file_send = OwnerEvent.freed NativeSerialIoOwner.file_send ∷ []
freed_by NativeSerialIoOwner.modbus_scan = OwnerEvent.freed NativeSerialIoOwner.modbus_scan ∷ []

abbrev pub step : NativeSerialIoState → Call → NativeSerialIoState
step s (Call.acquires o) = (try_acquire s o).1
step s (Call.releases o) = (release s o).1
step s Call.forces = force_release s
step s (Call.updates q) = update_write_queue_snapshot s q

-- The events that a call's answer tells of: a granted acquire, a granted release.
abbrev pub step_events : NativeSerialIoState → Call → List OwnerEvent
step_events s (Call.acquires o) = if (try_acquire s o).0 then OwnerEvent.taken o ∷ [] else []
step_events s (Call.releases o) = if (release s o).0 then freed_by o else []
step_events s Call.forces = freed_by s.owner
step_events s (Call.updates q) = []

abbrev pub run : NativeSerialIoState → List Call → NativeSerialIoState
run s [] = s
run s (c ∷ cs) = run (step s c) cs

abbrev pub run_events : NativeSerialIoState → List Call → List OwnerEvent
run_events s [] = []
run_events s (c ∷ cs) = step_events s c ++ run_events (step s c) cs

-- A lock's history from one owner to another: it is taken only when free, and freed only by the
-- one that holds it.
abbrev pub IsLockHistory : NativeSerialIoOwner → List OwnerEvent → NativeSerialIoOwner → Type 0
IsLockHistory o [] o' = o ≡ o'
IsLockHistory o (OwnerEvent.taken p ∷ es) o' =
    (o ≡ NativeSerialIoOwner.none) × (p ≢ NativeSerialIoOwner.none) × IsLockHistory p es o'
IsLockHistory o (OwnerEvent.freed p ∷ es) o' =
    (o ≡ p) × (p ≢ NativeSerialIoOwner.none) × IsLockHistory NativeSerialIoOwner.none es o'

IsLockHistory-append :
    (o : NativeSerialIoOwner) (es fs : List OwnerEvent) (p q : NativeSerialIoOwner)
    → IsLockHistory o es p
    → IsLockHistory p fs q
    → IsLockHistory o (es ++ fs) q
IsLockHistory-append o [] fs p q h k = subst (λ o. IsLockHistory o fs q) (sym h) k
IsLockHistory-append o (OwnerEvent.taken r ∷ es) fs p q h k =
    (h.0, h.1, IsLockHistory-append r es fs p q h.2 k)
IsLockHistory-append o (OwnerEvent.freed r ∷ es) fs p q h k =
    (h.0, h.1, IsLockHistory-append NativeSerialIoOwner.none es fs p q h.2 k)

freed_by-IsLockHistory :
    (o : NativeSerialIoOwner) → IsLockHistory o (freed_by o) NativeSerialIoOwner.none
freed_by-IsLockHistory NativeSerialIoOwner.none = refl
freed_by-IsLockHistory NativeSerialIoOwner.manual_send = (refl, ground arith, refl)
freed_by-IsLockHistory NativeSerialIoOwner.file_send = (refl, ground arith, refl)
freed_by-IsLockHistory NativeSerialIoOwner.modbus_scan = (refl, ground arith, refl)

owner_from_eq : (o p : NativeSerialIoOwner) → eq_owner o p ≡ true → o ≡ p
owner_from_eq o p h = ground arith

-- The port is granted exactly when it is idle and the queue allows that owner: a manual send while
-- the queue is not full, a file send or a scan while it is empty. A grant changes only the owner, and
-- a refusal changes nothing.
pub try_acquire_lem :
    (s : NativeSerialIoState) (o : NativeSerialIoOwner)
    → (((try_acquire s o).0 ≡ true)
        × ((try_acquire s o).1 ≡ record s { owner = o })
        × (s.owner ≡ NativeSerialIoOwner.none)
        × (((o ≡ NativeSerialIoOwner.manual_send) × (serial_write_queue_has_backpressure s ≡ false))
            ⊎ (((o ≡ NativeSerialIoOwner.file_send) ⊎ (o ≡ NativeSerialIoOwner.modbus_scan))
                × (has_pending_serial_writes s ≡ false))))
      ⊎ (((try_acquire s o).0 ≡ false)
          × ((try_acquire s o).1 ≡ s)
          × ((s.owner ≢ NativeSerialIoOwner.none)
              ⊎ ((o ≡ NativeSerialIoOwner.none)
                  ⊎ (((o ≡ NativeSerialIoOwner.manual_send)
                        × (serial_write_queue_has_backpressure s ≡ true))
                      ⊎ (((o ≡ NativeSerialIoOwner.file_send)
                            ⊎ (o ≡ NativeSerialIoOwner.modbus_scan))
                          × (has_pending_serial_writes s ≡ true))))))
unfolding try_acquire can_acquire allows_owner
try_acquire_lem s o = ground arith

release_lem :
    (s : NativeSerialIoState) (o : NativeSerialIoOwner)
    → (((release s o).0 ≡ true)
        × ((release s o).1.owner ≡ NativeSerialIoOwner.none)
        × (s.owner ≡ o))
      ⊎ (((release s o).0 ≡ false) × ((release s o).1.owner ≡ s.owner))
unfolding release
release_lem s o = ground arith

step-IsLockHistory :
    (s : NativeSerialIoState) (c : Call) → IsLockHistory s.owner (step_events s c) (step s c).owner
unfolding force_release update_write_queue_snapshot
step-IsLockHistory s (Call.acquires o) = elim (try_acquire_lem s o) [
  | inl h ↦ rw (h.0, h.1) (h.2, ground arith, refl)
  | inr h ↦ rw (h.0, h.1) refl
]
step-IsLockHistory s (Call.releases o) = elim (release_lem s o) [
  | inl h ↦ rw (h.0, h.1, h.2) (freed_by-IsLockHistory o)
  | inr h ↦ rw (h.0, h.1) refl
]
step-IsLockHistory s Call.forces = freed_by-IsLockHistory s.owner
step-IsLockHistory s (Call.updates q) = refl

run_from-IsLockHistory :
    (s : NativeSerialIoState) (cs : List Call)
    → IsLockHistory s.owner (run_events s cs) (run s cs).owner
run_from-IsLockHistory s [] = refl
run_from-IsLockHistory s (c ∷ cs) =
    IsLockHistory-append s.owner (step_events s c) (run_events (step s c) cs) (step s c).owner
      (run (step s c) cs).owner (step-IsLockHistory s c) (run_from-IsLockHistory (step s c) cs)

-- Over any calls on a new state the granted takes and releases, with what a forced release frees,
-- are a lock's history from no owner to the present one: the port is taken only while nobody owns
-- it and freed only by its owner or by force, so it never has two owners at once.
pub run-IsLockHistory :
    (cs : List Call)
    → IsLockHistory NativeSerialIoOwner.none
        (run_events new_io_state cs)
        (run new_io_state cs).owner
run-IsLockHistory cs = run_from-IsLockHistory new_io_state cs
