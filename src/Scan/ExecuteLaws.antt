-- ===== src/Scan/ExecuteLaws.antt =====
-- How the loop over the blocks ends.
use serial_value_matcher_nat.Base.{
  ℕ, ◌+◌, ◌<◌, ◌≡◌, refl, ◌⊎◌, inl, inr, Bool, true, false, not, ◌&&◌, List, [], ◌∷◌, arith,
  Bool-cases, length, is_empty, length-append,
}
use Prim.{tt}
use serial_value_matcher_nat.Modbus.Plan.{ScanBlock, ScanPlan}
use serial_value_matcher_nat.Scan.Types.{
  ScanAttemptResult, ScanBlockResult, ScanExecutionOptions, ScanExecutionResult, Surroundings,
}
use serial_value_matcher_nat.Scan.Attempt.{is_cancellation_requested}
use serial_value_matcher_nat.Scan.Execute.{
  new_block_result, mark_cancelled, add_block, max_attempts, AfterBlock, after_block, block_once,
  block_loop,
}
use serial_value_matcher_nat.Scan.AttemptLaws.{IsSettled, attempt_loop-Settles}
use serial_value_matcher_nat.Scan.Report.{
  IsScanning, mark_cancelled-IsScanning, add_block-parts, add_block-IsScanning,
}

module _ {World : Type 0} (surroundings : Surroundings World) (options : ScanExecutionOptions World)
    (plan : ScanPlan) where
  -- Why the loop left the blocks, `rest` of them not done.
  abbrev pub Ended : List ScanBlock → ScanExecutionResult → Bool → Type 0
  Ended rest r cancelled =
      (cancelled ≡ true)
      ⊎ ((cancelled ≡ false)
          × ((rest ≡ [])
              ⊎ ((0 < r.failed_block_count) × (options.continue_on_block_error ≡ false))))

  abbrev pub AfterGoes : List ScanBlock → AfterBlock World → Type 0
  AfterGoes rest (AfterBlock.stop r cancelled w) =
      (left : List ScanBlock) × IsScanning surroundings options plan left r × Ended left r cancelled
  AfterGoes rest (AfterBlock.next r w) = IsScanning surroundings options plan rest r

  add_block-failed :
      (r : ScanExecutionResult) (b : ScanBlockResult)
      → b.ok ≡ false
      → 0 < (add_block r b).failed_block_count
  add_block-failed r b e = rw ((add_block-parts surroundings options plan r b).2, e) (omega arith)

  settled_tried :
      (b : ScanBlockResult) (cancelled : Bool)
      → IsSettled surroundings options plan (max_attempts plan) b cancelled
      → (cancelled ≡ true) ⊎ (0 < length b.attempts)
  settled_tried b cancelled (inl early) = inl early.0
  settled_tried b cancelled (inr done) =
      inr (rw (done.2, length-append done.0 (done.1 ∷ [])) (omega arith))

  not_empty : (xs : List ScanAttemptResult) → is_empty xs ≡ false → 0 < length xs
  not_empty [] e = ground arith
  not_empty (x ∷ xs) e = omega arith

  after_block-AfterGoes :
      (position : ℕ) (block : ScanBlock) (rest : List ScanBlock) (r : ScanExecutionResult)
      (b : ScanBlockResult) (cancelled : Bool) (w : World)
      → IsScanning surroundings options plan (block ∷ rest) r
      → b.block ≡ block
      → IsSettled surroundings options plan (max_attempts plan) b cancelled
      → AfterGoes rest (after_block surroundings options plan position r b cancelled w)
  unfolding after_block
  after_block-AfterGoes position block rest r b true w s same settled =
      let marked = mark_cancelled-IsScanning surroundings options plan (block ∷ rest) true r s in
      elim (Bool-cases (is_empty b.attempts)) [
        | inl e ↦ rw e (block ∷ rest, marked, inl refl)
        | inr e ↦ rw e (
          rest,
          add_block-IsScanning surroundings options plan block rest (mark_cancelled true r) b marked
              same (not_empty b.attempts e, (true, settled)),
          inl refl,
        )
      ]
  after_block-AfterGoes position block rest r b false w s same settled =
      let marked = mark_cancelled-IsScanning surroundings options plan (block ∷ rest) false r s in
      let tried : 0 < length b.attempts = ground (arith, settled_tried b false settled) in
      let added =
        add_block-IsScanning surroundings options plan block rest (mark_cancelled false r) b marked
          same (tried, (false, settled)) in
      elim (Bool-cases (not b.ok && not options.continue_on_block_error)) [
        | inl e ↦ rw e (
          rest,
          added,
          inr (
            refl,
            inr (add_block-failed (mark_cancelled false r) b (ground arith), ground arith),
          ),
        )
        | inr e ↦ rw e added
      ]

  block_once-AfterGoes :
      (position : ℕ) (block : ScanBlock) (rest : List ScanBlock) (r : ScanExecutionResult)
      (w : World)
      → IsScanning surroundings options plan (block ∷ rest) r
      → AfterGoes rest (block_once surroundings options plan position block r w)
  unfolding block_once new_block_result
  block_once-AfterGoes position block rest r w s =
      let asked = is_cancellation_requested surroundings options w in
      let settles =
        attempt_loop-Settles surroundings options plan (max_attempts plan) (max_attempts plan) 0
          (new_block_result block) asked.1 (omega arith) (omega arith)
          (record { attempted = refl; retryable = tt; not_ok = refl; unobserved = refl }) in
      elim (Bool-cases asked.0) [
        | inl e ↦ rw e (
          block ∷ rest,
          mark_cancelled-IsScanning surroundings options plan (block ∷ rest) true r s,
          inl refl,
        )
        | inr e ↦ rw e (after_block-AfterGoes position block rest r _ _ _ s settles.0 settles.1)
      ]

  -- What the loop over the blocks comes to.
  abbrev pub Scanned : ScanExecutionResult × Bool × World → Type 0
  Scanned x =
      (left : List ScanBlock) × IsScanning surroundings options plan left x.0 × Ended left x.0 x.1

  blocks_after :
      (rest : List ScanBlock) (x : AfterBlock World)
      (round : ScanExecutionResult → World → ScanExecutionResult × Bool × World)
      → AfterGoes rest x
      → ((r : ScanExecutionResult) (w : World)
          → IsScanning surroundings options plan rest r
          → Scanned (round r w))
      → Scanned (elim x [
        | AfterBlock.stop r cancelled w ↦ (r, cancelled, w)
        | AfterBlock.next r w ↦ round r w
      ])
  blocks_after rest (AfterBlock.stop r cancelled w) round goes more = goes
  blocks_after rest (AfterBlock.next r w) round goes more = more r w goes

  pub block_loop-Scanned :
      (position : ℕ) (rest : List ScanBlock) (r : ScanExecutionResult) (w : World)
      → IsScanning surroundings options plan rest r
      → Scanned (block_loop surroundings options plan position rest r w)
  unfolding block_loop
  block_loop-Scanned position [] r w s = ([], s, inr (refl, inl refl))
  block_loop-Scanned position (block ∷ rest) r w s =
      blocks_after rest (block_once surroundings options plan position block r w)
        (block_loop surroundings options plan (position + 1) rest)
        (block_once-AfterGoes position block rest r w s) (block_loop-Scanned (position + 1) rest)
