-- ===== src/Scan/Report.antt =====
-- What a scan's result says while it runs: its counts, its observations and the order of its
-- blocks.
use serial_value_matcher_nat.Base.{
  ℕ, ◌+◌, ◌<◌, ◌≡◌, refl, sym, ap, ◌∙◌, inl, inr, Bool, true, false, List, [], ◌∷◌, ◌++◌, arith,
  if◌then◌else◌, Bool-cases, length, All, All-append,
}
use mathlib.Core.Path.{subst}
use Prim.{tt}
use mathlib.Core.List.{append_assoc, append-nil}
use serial_value_matcher_nat.Modbus.Plan.{ScanBlock, ScanPlan}
use serial_value_matcher_nat.Scan.Types.{
  ScanObservation, ScanBlockResult, ScanExecutionOptions, ScanExecutionResult, Surroundings,
}
use serial_value_matcher_nat.Scan.Execute.{mark_cancelled, add_block, max_attempts}
use serial_value_matcher_nat.Scan.AttemptLaws.{IsSettled}

abbrev pub good_count : List ScanBlockResult → ℕ
good_count [] = 0
good_count (b ∷ bs) = (if b.ok then 1 else 0) + good_count bs

abbrev pub bad_count : List ScanBlockResult → ℕ
bad_count [] = 0
bad_count (b ∷ bs) = (if b.ok then 0 else 1) + bad_count bs

abbrev pub blocks_of : List ScanBlockResult → List ScanBlock
blocks_of [] = []
blocks_of (b ∷ bs) = b.block ∷ blocks_of bs

abbrev pub good_observations : List ScanBlockResult → List ScanObservation
good_observations [] = []
good_observations (b ∷ bs) = (if b.ok then b.observations else []) ++ good_observations bs

good_count-append :
    (bs : List ScanBlockResult) (b : ScanBlockResult)
    → good_count (bs ++ (b ∷ [])) ≡ good_count bs + (if b.ok then 1 else 0)
good_count-append [] b = omega arith
good_count-append (c ∷ bs) b = omega (arith, good_count-append bs b)

bad_count-append :
    (bs : List ScanBlockResult) (b : ScanBlockResult)
    → bad_count (bs ++ (b ∷ [])) ≡ bad_count bs + (if b.ok then 0 else 1)
bad_count-append [] b = omega arith
bad_count-append (c ∷ bs) b = omega (arith, bad_count-append bs b)

blocks_of-append :
    (bs : List ScanBlockResult) (b : ScanBlockResult)
    → blocks_of (bs ++ (b ∷ [])) ≡ blocks_of bs ++ (b.block ∷ [])
blocks_of-append [] b = refl
blocks_of-append (c ∷ bs) b = ap (◌∷◌ c.block) (blocks_of-append bs b)

good_observations-append :
    (bs : List ScanBlockResult) (b : ScanBlockResult)
    → good_observations (bs ++ (b ∷ []))
      ≡ good_observations bs ++ (if b.ok then b.observations else [])
good_observations-append [] b = append-nil _
good_observations-append (c ∷ bs) b =
    ap (λ os. (if c.ok then c.observations else []) ++ os) (good_observations-append bs b)
    ∙ sym (
        append_assoc (if c.ok then c.observations else []) (good_observations bs)
          (if b.ok then b.observations else []))

module _ {World : Type 0} (surroundings : Surroundings World) (options : ScanExecutionOptions World)
    (plan : ScanPlan) where
  -- A block in a result: settled, and tried at least once.
  abbrev pub IsReported : ScanBlockResult → Type 0
  IsReported b =
      (0 < length b.attempts)
      × ((cancelled : Bool) × IsSettled surroundings options plan (max_attempts plan) b cancelled)

  -- The result so far, with `rest` of the plan's blocks to come.
  pub record IsScanning (rest : List ScanBlock) (r : ScanExecutionResult) : Type 0 where
    pub in_order : blocks_of r.blocks ++ rest ≡ plan.blocks
    pub good : r.success_block_count ≡ good_count r.blocks
    pub bad : r.failed_block_count ≡ bad_count r.blocks
    pub observed : r.observations ≡ good_observations r.blocks
    pub reported : All IsReported r.blocks
    pub same_plan : r.plan ≡ plan

  pub mark_cancelled-IsScanning :
      (rest : List ScanBlock) (cancelled : Bool) (r : ScanExecutionResult)
      → IsScanning rest r
      → IsScanning rest (mark_cancelled cancelled r)
  unfolding mark_cancelled
  mark_cancelled-IsScanning rest true r s = record {
    in_order = s.in_order;
    good = s.good;
    bad = s.bad;
    observed = s.observed;
    reported = s.reported;
    same_plan = s.same_plan;
  }
  mark_cancelled-IsScanning rest false r s = s

  -- What `add_block` does to each part of a result.
  pub add_block-parts :
      (r : ScanExecutionResult) (b : ScanBlockResult)
      → ((add_block r b).blocks ≡ r.blocks ++ (b ∷ []))
        × ((add_block r b).success_block_count ≡ r.success_block_count + (if b.ok then 1 else 0))
        × ((add_block r b).failed_block_count ≡ r.failed_block_count + (if b.ok then 0 else 1))
        × ((add_block r b).observations ≡ r.observations ++ (if b.ok then b.observations else []))
        × ((add_block r b).plan ≡ r.plan)
  unfolding add_block
  add_block-parts r b = elim (Bool-cases b.ok) [
    | inl e ↦ rw e (refl, refl, omega arith, refl, refl)
    | inr e ↦ rw e (refl, omega arith, refl, sym (append-nil _), refl)
  ]

  pub add_block-IsScanning :
      (block : ScanBlock) (rest : List ScanBlock) (r : ScanExecutionResult) (b : ScanBlockResult)
      → IsScanning (block ∷ rest) r
      → b.block ≡ block
      → IsReported b
      → IsScanning rest (add_block r b)
  add_block-IsScanning block rest r b s same ended =
      let parts = add_block-parts r b in
      record {
        in_order =
            ap (λ bs. blocks_of bs ++ rest) parts.0
            ∙ (ap (◌++ rest) (blocks_of-append r.blocks b)
                ∙ (append_assoc (blocks_of r.blocks) (b.block ∷ []) rest
                    ∙ (ap (λ c. blocks_of r.blocks ++ (c ∷ rest)) same ∙ s.in_order)));
        good =
            parts.1
            ∙ (ap (◌+ (if b.ok then 1 else 0)) s.good
                ∙ sym (ap good_count parts.0 ∙ good_count-append r.blocks b));
        bad =
            parts.2
            ∙ (ap (◌+ (if b.ok then 0 else 1)) s.bad
                ∙ sym (ap bad_count parts.0 ∙ bad_count-append r.blocks b));
        observed =
            parts.3
            ∙ (ap (◌++ (if b.ok then b.observations else [])) s.observed
                ∙ sym (ap good_observations parts.0 ∙ good_observations-append r.blocks b));
        reported =
            subst (All IsReported) (sym parts.0)
              (All-append IsReported r.blocks (b ∷ []) s.reported (ended, tt));
        same_plan = parts.4 ∙ s.same_plan;
      }
