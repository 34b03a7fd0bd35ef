-- ===== src/SerialIo/DecisionLaws.antt =====
-- Which completions the window takes for the write it waits for.
use serial_value_matcher_nat.Base.{ℕ, ◌≡◌, ◌≢◌, ◌↔◌, ◌⊎◌, true, arith}
use serial_value_matcher_nat.Transport.Types.{
  SerialSessionState, SerialOperationKind, SerialOperationStatus, SerialErrorCategory,
  SerialOperationResult, is_terminal, SerialSessionSnapshot,
}
use serial_value_matcher_nat.SerialIo.Decisions.{
  NativeSerialWriteKey, no_key, assigned, matches, native_serial_write_key_for_admission,
  NativeSerialWriteCompletionDecision, native_serial_write_completion_decision,
}

-- A completion that counts: of the awaited write, terminal, and of the session that is open now or
-- of the one that just faulted; then only a success, or the disconnection itself.
unfoldable pub IsPublishable :
    NativeSerialWriteKey → SerialOperationResult → SerialSessionSnapshot → ℕ → Type 0
IsPublishable pending result session fault_generation =
    (is_terminal result.status ≡ true)
    × (result.operation.kind ≡ SerialOperationKind.write)
    × (result.operation.generation ≢ 0)
    × (result.operation.request_id ≢ 0)
    × (pending.generation ≡ result.operation.generation)
    × (pending.request_id ≡ result.operation.request_id)
    × (((session.state ≡ SerialSessionState.opened)
          × (session.generation ≡ result.operation.generation))
        ⊎ ((session.state ≡ SerialSessionState.faulted)
            × (result.operation.generation ≡ fault_generation)
            × ((result.status ≡ SerialOperationStatus.succeeded)
                ⊎ ((result.status ≡ SerialOperationStatus.disconnected)
                    × (result.error.category ≡ SerialErrorCategory.disconnected)))))

-- A write completion is acted on exactly when it is terminal, names the awaited request by id and
-- generation, and is of the session that is open now, or of the one that just faulted and then a
-- success or the disconnection itself.
pub completion_decision_iff :
    (pending : NativeSerialWriteKey) (result : SerialOperationResult)
    (session : SerialSessionSnapshot) (fault_generation : ℕ)
    → (native_serial_write_completion_decision pending result session fault_generation
        ≢ NativeSerialWriteCompletionDecision.ignore)
      ↔ IsPublishable pending result session fault_generation
unfolding native_serial_write_completion_decision matches IsPublishable
completion_decision_iff pending result session fault_generation = ground arith

-- The key that an admission leaves is either the key of an accepted write of the expected session,
-- or no key; and with it every completion but one of that session and of that request is ignored.
pub admission-completion :
    (admission : SerialOperationResult) (generation : ℕ) (result : SerialOperationResult)
    (session : SerialSessionSnapshot) (fault_generation : ℕ)
    → let key = native_serial_write_key_for_admission admission generation in
      (((assigned key ≡ true)
          × (admission.status ≡ SerialOperationStatus.accepted)
          × (admission.operation.kind ≡ SerialOperationKind.write)
          × (key.generation ≡ generation)
          × (key.request_id ≡ admission.operation.request_id))
        ⊎ (key ≡ no_key))
      × ((native_serial_write_completion_decision key result session fault_generation
            ≡ NativeSerialWriteCompletionDecision.ignore)
          ⊎ ((result.operation.generation ≡ generation)
              × (result.operation.request_id ≡ admission.operation.request_id)))
unfolding native_serial_write_completion_decision matches native_serial_write_key_for_admission
admission-completion admission generation result session fault_generation = ground arith
