-- ===== src/Scan/AttemptCases.antt =====
-- What one attempt comes to: the judged response, and where the loop goes on after it.
use serial_value_matcher_nat.Base.{ℕ, ◌≡◌, inl, inr, Bool, true, false, arith, Bool-cases}
use serial_value_matcher_nat.Modbus.Plan.{ScanBlock, ScanPlan}
use serial_value_matcher_nat.Scan.Types.{
  RtuTransportExchange, ScanAttemptStatus, ScanBlockResult, ScanExecutionOptions, Surroundings,
  is_success,
}
use serial_value_matcher_nat.Scan.Attempt.{
  attempt_from_exchange, attempt_from_parsed, describe_failure, parsed_response, judged_attempt,
  AfterAttempt, is_cancellation_requested, after_attempt,
}

pub judged-index :
    (plan : ScanPlan) (block : ScanBlock) (i : ℕ) (exchange : RtuTransportExchange)
    → (judged_attempt plan block i exchange).attempt_index ≡ i
unfolding judged_attempt describe_failure attempt_from_parsed attempt_from_exchange
judged-index plan block i exchange = ground arith

-- Only a response that the parser takes makes an attempt succeed.
pub judged-success :
    (plan : ScanPlan) (block : ScanBlock) (i : ℕ) (exchange : RtuTransportExchange)
    → is_success (judged_attempt plan block i exchange).status ≡ true
    → (parsed_response plan block (judged_attempt plan block i exchange).response_frame).ok ≡ true
unfolding judged_attempt describe_failure attempt_from_parsed attempt_from_exchange
judged-success plan block i exchange h = ground arith

module _ {World : Type 0} (surroundings : Surroundings World)
    (options : ScanExecutionOptions World) where
  pub after_attempt_cases {ℓ} :
      (P : AfterAttempt World → Type ℓ) (status : ScanAttemptStatus) (retry : Bool)
      (result : ScanBlockResult) (world : World)
      → (is_success status ≡ true → P (AfterAttempt.stop result false world))
      → (is_success status ≡ false → (w : World) → P (AfterAttempt.stop result true w))
      → (is_success status ≡ false
          → retry ≡ false
          → (w : World) → P (AfterAttempt.stop result false w))
      → (is_success status ≡ false → retry ≡ true → (w : World) → P (AfterAttempt.again result w))
      → P (after_attempt surroundings options status retry result world)
  unfolding after_attempt
  after_attempt_cases P status retry result world good stopped spent more =
      let asked = is_cancellation_requested surroundings options world in
      elim (Bool-cases (is_success status)) [
        | inl e ↦ rw e (good e)
        | inr e ↦ rw e (elim (Bool-cases asked.0) [
          | inl c ↦ rw c (stopped e asked.1)
          | inr c ↦ rw c (elim (Bool-cases retry) [
            | inl r ↦ rw r (more e r asked.1)
            | inr r ↦ rw r (spent e r asked.1)
          ])
        ])
      ]
