-- ===== src/Rtu/Write.antt =====
-- src/transport/serial_rtu_transport.cpp: an exchange up to the end of its write.
use serial_value_matcher_nat.Base.{
  ℕ, min, Bool, true, false, not, ◌&&◌, List, [], ◌==◌, if◌then◌else◌, length, take,
}
use serial_value_matcher_nat.Transport.Types.{
  SerialOperationKind, SerialOperationStatus, SerialErrorCategory, SerialOperationResult,
  is_succeeded,
}
use serial_value_matcher_nat.Rtu.State.{
  SerialRtuTransportOptions, RtuState, partial_write_message, is_cancelled, is_disconnected,
  is_rejected_closed, operation_failure_message, cancellation_requested, generation_current,
  result_matches_generation, report_evidence, mark_cancelled, mark_generation_changed,
  mark_transport_failure,
}

-- Has the exchange returned?
pub record Sent (World : Type 0) : Type 0 where
  pub returned : Bool
  pub state : RtuState World

module _ {World : Type 0} (options : SerialRtuTransportOptions World) where
  abbrev pub moved : World → RtuState World → RtuState World
  moved world s = record s { world = world }

  abbrev pub return_with : RtuState World → Sent World
  return_with s = record { returned = true; state = s }

  abbrev pub partial_write : SerialOperationResult → SerialOperationResult
  partial_write written = record written {
    status = SerialOperationStatus.failed;
    error = record written.error {
      category = SerialErrorCategory.io_failure;
      byte_count = written.byte_count;
    };
  }

  -- What a completed write of the whole request leaves, or how it ends the exchange.
  unfoldable pub after_success : List ℕ → SerialOperationResult → RtuState World → Sent World
  after_success request written s =
      let current = generation_current options s.world in
      let at = moved current.1 s in
      let transmitted = take (min written.byte_count (length request)) request in
      if not current.0
      then return_with (mark_generation_changed options at)
      else if not (written.byte_count == length request)
      then return_with (
          mark_transport_failure options (partial_write written) partial_write_message
            (report_evidence options transmitted (partial_write written) at))
      else record { returned = false; state = report_evidence options request written at }

  unfoldable pub after_write : List ℕ → SerialOperationResult → RtuState World → Sent World
  unfolding after_success
  after_write request written s =
      let asked = cancellation_requested options s.world in
      let current = generation_current options asked.1 in
      let at = moved current.1 s in
      let transmitted = take (min written.byte_count (length request)) request in
      if not (result_matches_generation options written SerialOperationKind.write)
      then return_with (mark_generation_changed options s)
      else if asked.0
      then return_with (
          mark_cancelled options (
            report_evidence options (if is_succeeded written.status then transmitted else [])
              written (moved asked.1 s)))
      else if not current.0
          && (not (is_cancelled written.status) && not (is_disconnected written.status))
      then return_with (mark_generation_changed options at)
      else if is_cancelled written.status
      then return_with (mark_cancelled options (report_evidence options [] written at))
      else if is_rejected_closed written.status
      then return_with (mark_generation_changed options (report_evidence options [] written at))
      else if not (is_succeeded written.status)
      then return_with (
          mark_transport_failure options written (operation_failure_message written true)
            (report_evidence options [] written at))
      else after_success request written at
