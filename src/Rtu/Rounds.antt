-- ===== src/Rtu/Rounds.antt =====
-- Each round of the read loop collects a response of at most 260 bytes, or ends it soundly.
use serial_value_matcher_nat.Base.{
  ℕ, zero, suc, ◌-◌, ◌≤◌, ◌<◌, min, ◌≡◌, refl, ap, ◌∙◌, ◌⊎◌, inl, inr, true, false, some, List, [],
  ◌++◌, arith, ◌==◌, ==_iff, Bool-cases, Option-cases, length, take, length-append,
}
use serial_value_matcher_nat.Transport.Types.{
  SerialDeadline, SerialOperationResult, SerialReadResult,
}
use serial_value_matcher_nat.Scan.Types.{RtuTransportExchangeStatus, RtuTransportExchange}
use serial_value_matcher_nat.Rtu.State.{
  SerialRtuTransportOptions, Port, RtuState, max_rtu_frame_bytes, response_frame_length,
  cancellation_requested, generation_current, report_evidence, mark_stopped,
}
use serial_value_matcher_nat.Rtu.Write.{moved}
use serial_value_matcher_nat.Rtu.Read.{
  Reading, Round, reaches, accept_bytes, after_read_success, after_read, read_round, read_loop,
}
use serial_value_matcher_nat.Rtu.Exchange.{exchange_succeeded}
use serial_value_matcher_nat.Rtu.Frames.{
  IsResponse, length-take, take_all, response_frame_length-IsResponse,
}

module _ {World : Type 0} (options : SerialRtuTransportOptions World) where
  -- A loop that goes on: no status yet, and room for more bytes.
  pub record IsCollecting (r : Reading World) : Type 0 where
    pub waiting : r.io.exchange.status ≡ RtuTransportExchangeStatus.timeout
    pub room : length r.response < max_rtu_frame_bytes
    pub kept : r.discard_response ≡ false

  -- A loop that has ended: without success, or with a whole response in front.
  abbrev pub IsCollected : Reading World → Type 0
  IsCollected r =
      (exchange_succeeded r.io.exchange.status ≡ false)
      ⊎ ((n : ℕ) × (r.discard_response ≡ false)
          × (r.complete_frame_bytes ≡ some n)
          × (n ≤ length r.response)
          × IsResponse (take n r.response))

  abbrev pub IsSoundRound : Round World → Type 0
  IsSoundRound round =
      ((round.stopped ≡ true) × IsCollected round.reading)
      ⊎ ((round.stopped ≡ false) × IsCollecting round.reading)

  evidence-exchange :
      (bytes : List ℕ) (result : SerialOperationResult) (s : RtuState World)
      → (report_evidence options bytes result s).exchange ≡ s.exchange
  unfolding report_evidence
  evidence-exchange bytes result s = ground arith

module _ {World : Type 0} (options : SerialRtuTransportOptions World) (port : Port World) where
  accept_bytes-IsSoundRound :
      (read : SerialReadResult) (r : Reading World)
      → IsCollecting options r
      → IsSoundRound options
          (accept_bytes options port (max_rtu_frame_bytes - length r.response) read r)
  unfolding accept_bytes
  accept_bytes-IsSoundRound read r collecting =
      let accepted =
        take (min (length read.bytes) (max_rtu_frame_bytes - length r.response)) read.bytes in
      let response = r.response ++ accepted in
      let frame = response_frame_length response r.next_candidate_bytes in
      let same = evidence-exchange options read.bytes read.operation r.io in
      let whole : length response ≤ max_rtu_frame_bytes = omega (
        arith,
        collecting.room,
        length-append {0} r.response accepted,
        length-take (min (length read.bytes) (max_rtu_frame_bytes - length r.response)) read.bytes,
      ) in
      elim (Bool-cases (reaches options port frame.0 (length response))) [
        | inl reached ↦ elim (Option-cases frame.0) [
          | inl e ↦ cc (rw (e, reaches) at reached)
          | inr (n, e) ↦
              let within : n ≤ length response = ground (arith, rw (e, reaches) at reached) in
              rw (reached, IsSoundRound)
                (inl (
                  refl,
                  inr (
                    n,
                    collecting.kept,
                    e,
                    within,
                    response_frame_length-IsResponse response r.next_candidate_bytes n whole within
                        e,
                  ),
                ))
        ]
        | inr short ↦ elim (Bool-cases (length response == max_rtu_frame_bytes)) [
          | inl full ↦
              rw (short, full, IsSoundRound)
                (inl (
                  refl,
                  inr (
                    length response,
                    collecting.kept,
                    refl,
                    omega arith,
                    rw (take_all response) (
                      whole,
                      inr (inr (inr ((==_iff (length response) max_rtu_frame_bytes).0 full))),
                    ),
                  ),
                ))
          | inr room ↦
              rw (short, room, IsSoundRound)
                (inr (
                  refl,
                  record {
                    waiting = ap (λ (e : RtuTransportExchange). e.status) same ∙ collecting.waiting;
                    room = ground (arith, whole, room);
                    kept = collecting.kept;
                  },
                ))
        ]
      ]

  -- Moving the world keeps what is collected.
  pub moved-IsCollecting :
      (world : World) (r : Reading World)
      → IsCollecting options r
      → IsCollecting options (record r { io = moved options world r.io })
  moved-IsCollecting world r collecting = record {
    waiting = collecting.waiting;
    room = collecting.room;
    kept = collecting.kept;
  }

  after_read_success-IsSoundRound :
      (read : SerialReadResult) (r : Reading World)
      → IsCollecting options r
      → IsSoundRound options
          (after_read_success options port (max_rtu_frame_bytes - length r.response) read r)
  unfolding after_read_success mark_stopped
  after_read_success-IsSoundRound read r collecting =
      let current = generation_current options r.io.world in
      let slept = port.sleep_one_ms current.1 in
      let accepting =
        accept_bytes-IsSoundRound read (record r { io = moved options current.1 r.io })
          (moved-IsCollecting current.1 r collecting) in
      ground (arith, accepting, moved-IsCollecting slept r collecting)

  after_read-IsSoundRound :
      (read : SerialReadResult) (r : Reading World)
      → IsCollecting options r
      → IsSoundRound options
          (after_read options port (max_rtu_frame_bytes - length r.response) read r)
  unfolding after_read mark_stopped
  after_read-IsSoundRound read r collecting =
      let asked = cancellation_requested options r.io.world in
      let current = generation_current options asked.1 in
      let at = moved options current.1 r.io in
      let accepting =
        after_read_success-IsSoundRound read (record r { io = at })
          (moved-IsCollecting current.1 r collecting) in
      let kept = evidence-exchange options [] read.operation at in
      ground (arith, accepting, kept, collecting.waiting)

  pub read_round-IsSoundRound :
      (deadline : SerialDeadline) (r : Reading World)
      → IsCollecting options r
      → IsSoundRound options (read_round options port deadline r)
  unfolding read_round mark_stopped
  read_round-IsSoundRound deadline r collecting =
      let asked = cancellation_requested options r.io.world in
      let current = generation_current options asked.1 in
      let read = port.read_available (max_rtu_frame_bytes - length r.response) deadline current.1 in
      ground (
        arith,
        after_read-IsSoundRound read.0 (record r { io = moved options read.1 r.io })
            (moved-IsCollecting read.1 r collecting),
      )

  pub read_loop-IsCollected :
      (fuel deadline_at : ℕ) (r ended : Reading World)
      → IsCollecting options r
      → read_loop options port fuel deadline_at r ≡ some ended
      → IsCollected options ended
  unfolding read_loop
  read_loop-IsCollected zero deadline_at r ended collecting e = cc e
  read_loop-IsCollected (suc fuel) deadline_at r ended collecting e =
      let now = port.steady_now r.io.world in
      let at : Reading World = record r { io = moved options now.1 r.io } in
      let deadline : SerialDeadline = record { expires_at = some deadline_at } in
      let collecting_at = moved-IsCollecting now.1 r collecting in
      let sound = read_round-IsSoundRound deadline at collecting_at in
      let round = read_round options port deadline at in
      ground (
        arith,
        sound,
        collecting_at.waiting,
        read_loop-IsCollected fuel deadline_at round.reading ended,
        e,
      )
