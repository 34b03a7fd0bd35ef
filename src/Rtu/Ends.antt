-- ===== src/Rtu/Ends.antt =====
-- An exchange ends: its loop has fuel for all its rounds.
use serial_value_matcher_nat.Base.{
  ℕ, zero, suc, ◌+◌, ◌-◌, ◌≤◌, ◌<◌, min, ◌≡◌, refl, ◌⊎◌, inl, inr, true, false, some, List, [], ◌∷◌,
  arith, ltb, Bool-cases, length, is_empty, take, length-append, ℤ,
}
use serial_value_matcher_nat.Transport.Types.{
  SerialDeadline, SerialOperationResult, SerialReadResult,
}
use serial_value_matcher_nat.Rtu.State.{
  SerialRtuTransportOptions, Port, RtuState, max_rtu_frame_bytes, cancellation_requested,
  generation_current, timestamp, report_evidence,
}
use serial_value_matcher_nat.Rtu.Write.{moved, after_success, after_write}
use serial_value_matcher_nat.Rtu.Read.{
  Reading, Round, accept_bytes, after_read_success, after_read, read_round, read_loop,
}
use serial_value_matcher_nat.Rtu.Exchange.{
  finish_reading, new_reading, timeout_ticks, read_fuel, send_and_read, exchange,
}
use serial_value_matcher_nat.Rtu.Frames.{length-take}
use serial_value_matcher_nat.Rtu.Rounds.{IsCollecting, moved-IsCollecting, read_round-IsSoundRound}
use serial_value_matcher_nat.Rtu.Complete.{new_reading-IsCollecting}

-- A steady clock behind the world: it is what `steady_now` reads, no call sets it back, and a sleep
-- of a millisecond moves it.
pub record IsSteady {World : Type 0} (options : SerialRtuTransportOptions World) (port : Port World)
    (clock : World → ℕ) : Type 0 where
  pub reads : (world : World) → (port.steady_now world).0 ≡ clock world
  pub after_now : (world : World) → clock world ≤ clock (port.steady_now world).1
  pub after_sleep : (world : World) → clock world < clock (port.sleep_one_ms world)
  pub after_cancel : (world : World) → clock world ≤ clock (cancellation_requested options world).1
  pub after_generation : (world : World) → clock world ≤ clock (generation_current options world).1
  pub after_evidence :
      (bytes : List ℕ) (result : SerialOperationResult) (s : RtuState World)
      → clock s.world ≤ clock (report_evidence options bytes result s).world
  pub after_write :
      (bytes : List ℕ) (deadline : SerialDeadline) (world : World)
      → clock world ≤ clock (port.write_bytes bytes deadline world).1
  pub after_read :
      (bytes : ℕ) (deadline : SerialDeadline) (world : World)
      → clock world ≤ clock (port.read_available bytes deadline world).1

length_positive : (xs : List ℕ) → is_empty xs ≡ false → 0 < length xs
length_positive [] h = cc h
length_positive (x ∷ xs) h = omega arith

module _ {World : Type 0} (options : SerialRtuTransportOptions World) (port : Port World)
    (clock : World → ℕ) (is_steady : IsSteady options port clock) where
  -- A round that goes on has let time pass, or taken bytes.
  abbrev Advances : Reading World → Round World → Type 0
  Advances r round =
      (round.stopped ≡ true)
      ⊎ (((clock r.io.world < clock round.reading.io.world)
            × (length round.reading.response ≡ length r.response))
          ⊎ ((clock r.io.world ≤ clock round.reading.io.world)
              × (length r.response < length round.reading.response)))

  accept_bytes-Advances :
      (read : SerialReadResult) (r : Reading World)
      → length r.response < max_rtu_frame_bytes
      → is_empty read.bytes ≡ false
      → Advances r (accept_bytes options port (max_rtu_frame_bytes - length r.response) read r)
  unfolding accept_bytes
  accept_bytes-Advances read r room filled =
      let n = min (length read.bytes) (max_rtu_frame_bytes - length r.response) in
      ground (
        arith,
        is_steady.after_evidence read.bytes read.operation r.io,
        length-append {0} r.response (take n read.bytes),
        length-take n read.bytes,
        length_positive read.bytes filled,
      )

  after_read_success-Advances :
      (read : SerialReadResult) (r : Reading World)
      → length r.response < max_rtu_frame_bytes
      → Advances r
          (after_read_success options port (max_rtu_frame_bytes - length r.response) read r)
  unfolding after_read_success
  after_read_success-Advances read r room =
      let current = generation_current options r.io.world in
      ground (
        arith,
        is_steady.after_generation r.io.world,
        is_steady.after_sleep current.1,
        accept_bytes-Advances read (record r { io = moved options current.1 r.io }) room,
      )

  after_read-Advances :
      (read : SerialReadResult) (r : Reading World)
      → length r.response < max_rtu_frame_bytes
      → Advances r (after_read options port (max_rtu_frame_bytes - length r.response) read r)
  unfolding after_read
  after_read-Advances read r room =
      let asked = cancellation_requested options r.io.world in
      let current = generation_current options asked.1 in
      ground (
        arith,
        is_steady.after_cancel r.io.world,
        is_steady.after_generation asked.1,
        after_read_success-Advances read (record r { io = moved options current.1 r.io }) room,
      )

  read_round-Advances :
      (deadline : SerialDeadline) (r : Reading World)
      → length r.response < max_rtu_frame_bytes
      → Advances r (read_round options port deadline r)
  unfolding read_round
  read_round-Advances deadline r room =
      let asked = cancellation_requested options r.io.world in
      let current = generation_current options asked.1 in
      let n = max_rtu_frame_bytes - length r.response in
      let read = port.read_available n deadline current.1 in
      ground (
        arith,
        is_steady.after_cancel r.io.world,
        is_steady.after_generation asked.1,
        is_steady.after_read n deadline current.1,
        after_read-Advances read.0 (record r { io = moved options read.1 r.io }) room,
      )

  read_loop-ends :
      (fuel deadline_at : ℕ) (r : Reading World)
      → IsCollecting options r
      → (deadline_at - clock r.io.world) + (max_rtu_frame_bytes - length r.response) < fuel
      → (ended : Reading World) × (read_loop options port fuel deadline_at r ≡ some ended)
  unfolding read_loop
  read_loop-ends zero deadline_at r collecting enough = absurd (omega (arith, enough))
  read_loop-ends (suc fuel) deadline_at r collecting enough =
      let now = port.steady_now r.io.world in
      let at : Reading World = record r { io = moved options now.1 r.io } in
      let deadline : SerialDeadline = record { expires_at = some deadline_at } in
      let round = read_round options port deadline at in
      let advances = read_round-Advances deadline at collecting.room in
      let sound =
        read_round-IsSoundRound options port deadline at
          (moved-IsCollecting options port now.1 r collecting) in
      elim (Bool-cases (ltb now.0 deadline_at)) [
        | inr late ↦ rw (late, read_loop) (at, refl)
        | inl early ↦ elim (Bool-cases round.stopped) [
          | inl stopped ↦ rw (early, stopped, read_loop) (round.reading, refl)
          | inr goes_on ↦
              let going : IsCollecting options round.reading = elim sound [
                | inl stopped ↦ cc (goes_on, stopped.0)
                | inr going ↦ going.1
              ] in
              let less : (deadline_at - clock round.reading.io.world)
                    + (max_rtu_frame_bytes - length round.reading.response)
                  < fuel =
                ground (
                  arith,
                  advances,
                  goes_on,
                  early,
                  enough,
                  is_steady.reads r.io.world,
                  is_steady.after_now r.io.world,
                  collecting.room,
                ) in
              rw (early, goes_on, read_loop)
                (read_loop-ends fuel deadline_at round.reading going less)
        ]
      ]

  after_write-clock :
      (request : List ℕ) (written : SerialOperationResult) (s : RtuState World)
      → ((after_write options request written s).returned ≡ true)
        ⊎ (clock s.world ≤ clock (after_write options request written s).state.world)
  unfolding after_write after_success
  after_write-clock request written s =
      let asked = cancellation_requested options s.world in
      let current = generation_current options asked.1 in
      let again = generation_current options current.1 in
      ground (
        arith,
        is_steady.after_cancel s.world,
        is_steady.after_generation asked.1,
        is_steady.after_generation current.1,
        is_steady.after_evidence request written (record s { world = again.1 }),
      )

  send_and_read-ends :
      (request : List ℕ) (response_timeout_ms : ℤ) (s : RtuState World)
      → (ended : RtuState World) × (send_and_read options port request response_timeout_ms s
          ≡ some ended)
  unfolding send_and_read
  send_and_read-ends request response_timeout_ms s =
      let now = port.steady_now s.world in
      let deadline_at = now.0 + timeout_ticks options port response_timeout_ms in
      let deadline : SerialDeadline = record { expires_at = some deadline_at } in
      let written = port.write_bytes request deadline now.1 in
      let sent = after_write options request written.0 (moved options written.1 s) in
      elim (after_write-clock request written.0 (moved options written.1 s)) [
        | inl returned ↦ rw (returned, send_and_read) (sent.state, refl)
        | inr later ↦ elim (Bool-cases sent.returned) [
          | inl returned ↦ rw (returned, send_and_read) (sent.state, refl)
          | inr goes_on ↦
              let first = new_reading options port sent.state in
              let enough : (deadline_at - clock sent.state.world) + max_rtu_frame_bytes
                  < read_fuel options port response_timeout_ms =
                omega (
                  arith,
                  later,
                  is_steady.reads s.world,
                  is_steady.after_now s.world,
                  is_steady.after_write request deadline now.1,
                ) in
              let read =
                read_loop-ends (read_fuel options port response_timeout_ms) deadline_at first
                  (new_reading-IsCollecting options port sent.state) (omega (arith, enough)) in
              rw (goes_on, send_and_read)
                (rw (read.1, send_and_read) (finish_reading options port read.0, refl))
        ]
      ]

  -- Every exchange ends, with any answers of the port and of the callbacks, when no call sets the
  -- steady clock back and a sleep moves it.
  pub exchange-ends :
      (request : List ℕ) (response_timeout_ms : ℤ) (s : RtuState World)
      → (ended : RtuState World) × (exchange options port request response_timeout_ms s
          ≡ some ended)
  unfolding exchange
  exchange-ends request response_timeout_ms s =
      let asked = cancellation_requested options (timestamp options s.world).1 in
      let current = generation_current options asked.1 in
      elim (Bool-cases asked.0) [
        | inl stop ↦ rw (stop, exchange) (_, refl)
        | inr free ↦ elim (Bool-cases current.0) [
          | inr changed ↦ rw (free, changed, exchange) (_, refl)
          | inl same ↦ elim (Bool-cases (is_empty request)) [
            | inl empty ↦ rw (free, same, empty, exchange) (_, refl)
            | inr filled ↦
                rw (free, same, filled, exchange) (send_and_read-ends request response_timeout_ms _)
          ]
        ]
      ]
