-- ===== src/Rtu/Complete.antt =====
-- A successful exchange has a whole response.
use mathlib.Core.Path.{subst}
use serial_value_matcher_nat.Base.{
  ℕ, ◌+◌, ◌≤◌, ◌≡◌, refl, sym, inl, inr, true, false, Option, none, some, List, arith, ltb,
  Bool-cases, Option-cases, length, is_empty, take, ℤ,
}
use serial_value_matcher_nat.Transport.Types.{SerialOperationResult}
use serial_value_matcher_nat.Rtu.State.{
  SerialRtuTransportOptions, Port, RtuState, cancellation_requested, generation_current, timestamp,
  mark_stopped,
}
use serial_value_matcher_nat.Rtu.Write.{moved, after_success, after_write}
use serial_value_matcher_nat.Rtu.Read.{Reading, read_loop}
use serial_value_matcher_nat.Rtu.Exchange.{
  exchange_succeeded, cut_to, check_generation, finish_reading, new_reading, timeout_ticks,
  read_fuel, send_and_read, exchange,
}
use serial_value_matcher_nat.Rtu.Frames.{IsResponse, take_all}
use serial_value_matcher_nat.Rtu.Rounds.{IsCollecting, IsCollected, read_loop-IsCollected}

module _ {World : Type 0} (options : SerialRtuTransportOptions World) (port : Port World) where
  -- The cut response is the frame.
  cut_to-take :
      (n : ℕ) (response : List ℕ) → n ≤ length response → cut_to (some n) response ≡ take n response
  cut_to-take n response within = elim (Bool-cases (ltb n (length response))) [
    | inl shorter ↦ rw (shorter) refl
    | inr same ↦
        let e : n ≡ length response = ground (arith, within, same) in
        rw (same) (rw (e) (sym (take_all response)))
  ]

  -- Success comes from the loop, and with it the response.
  finish_reading-success :
      (r : Reading World)
      → exchange_succeeded (finish_reading options port r).exchange.status ≡ true
      → (exchange_succeeded r.io.exchange.status ≡ true)
        × (r.discard_response ≡ false
            → (finish_reading options port r).exchange.response_frame
              ≡ cut_to r.complete_frame_bytes r.response)
  unfolding finish_reading check_generation mark_stopped
  finish_reading-success r success = ground (arith, success)

  finish_reading-IsResponse :
      (r : Reading World)
      → IsCollected options r
      → exchange_succeeded (finish_reading options port r).exchange.status ≡ true
      → IsResponse (finish_reading options port r).exchange.response_frame
  finish_reading-IsResponse r (inl failed) success =
      cc (failed, (finish_reading-success r success).0)
  finish_reading-IsResponse r (inr (n, kept, complete, within, whole)) success =
      let frame = (finish_reading-success r success).1 kept in
      rw (frame) (rw (complete) (rw (cut_to-take n r.response within) whole))

  after_write-unfinished :
      (request : List ℕ) (written : SerialOperationResult) (s : RtuState World)
      → (after_write options request written s).returned ≡ true
      → exchange_succeeded (after_write options request written s).state.exchange.status ≡ false
  unfolding after_write after_success mark_stopped
  after_write-unfinished request written s returned = ground (arith, returned)

  pub new_reading-IsCollecting :
      (s : RtuState World) → IsCollecting options (new_reading options port s)
  new_reading-IsCollecting s = record { waiting = refl; room = omega arith; kept = refl }

  -- The same of the end of an exchange.
  abbrev HasResponse : Option (RtuState World) → Type 0
  HasResponse none = Unit
  HasResponse (some ended) =
      exchange_succeeded ended.exchange.status ≡ true → IsResponse ended.exchange.response_frame

  send_and_read-HasResponse :
      (request : List ℕ) (response_timeout_ms : ℤ) (s : RtuState World)
      → HasResponse (send_and_read options port request response_timeout_ms s)
  unfolding send_and_read
  send_and_read-HasResponse request response_timeout_ms s =
      let now = port.steady_now s.world in
      let deadline_at = now.0 + timeout_ticks options port response_timeout_ms in
      let written = port.write_bytes request (record { expires_at = some deadline_at }) now.1 in
      let sent = after_write options request written.0 (moved options written.1 s) in
      let first = new_reading options port sent.state in
      let read =
        read_loop options port (read_fuel options port response_timeout_ms) deadline_at first in
      elim (Bool-cases sent.returned) [
        | inl returned ↦
            rw (returned, HasResponse)
              (λ success. cc (
                after_write-unfinished request written.0 (moved options written.1 s) returned,
                success,
              ))
        | inr goes_on ↦
            rw (goes_on, HasResponse)
              (elim (Option-cases read) [
                | inl e ↦ rw (e, HasResponse) tt
                | inr (r, e) ↦
                    rw (e, HasResponse)
                      (finish_reading-IsResponse r (
                        read_loop-IsCollected options port
                          (read_fuel options port response_timeout_ms) deadline_at first r
                          (new_reading-IsCollecting sent.state) e))
              ])
      ]

  exchange-HasResponse :
      (request : List ℕ) (response_timeout_ms : ℤ) (s : RtuState World)
      → HasResponse (exchange options port request response_timeout_ms s)
  unfolding exchange mark_stopped
  exchange-HasResponse request response_timeout_ms s =
      let asked = cancellation_requested options (timestamp options s.world).1 in
      let current = generation_current options asked.1 in
      elim (Bool-cases asked.0) [
        | inl stop ↦ rw (stop, HasResponse) (λ success. cc success)
        | inr free ↦ elim (Bool-cases current.0) [
          | inr changed ↦ rw (free, changed, HasResponse) (λ success. cc success)
          | inl same ↦ elim (Bool-cases (is_empty request)) [
            | inl empty ↦ rw (free, same, empty, HasResponse) (λ success. cc success)
            | inr filled ↦
                rw (free, same, filled, HasResponse)
                  (send_and_read-HasResponse request response_timeout_ms _)
          ]
        ]
      ]

  -- The response of an exchange that ends in success is whole: at most 260 bytes, and either as long as
  -- its function says, or a frame with a valid checksum, or of 260 bytes.
  pub exchange-IsResponse :
      (request : List ℕ) (response_timeout_ms : ℤ) (s ended : RtuState World)
      → exchange options port request response_timeout_ms s ≡ some ended
      → exchange_succeeded ended.exchange.status ≡ true
      → IsResponse ended.exchange.response_frame
  exchange-IsResponse request response_timeout_ms s ended e success =
      subst (λ o. HasResponse o) e (exchange-HasResponse request response_timeout_ms s) success
