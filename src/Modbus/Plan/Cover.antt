-- ===== src/Modbus/Plan/Cover.antt =====
-- The loop of `buildScanPlan` ends, and its blocks lie end to end over the range.
use serial_value_matcher_nat.Base.{
  ℕ, zero, suc, ◌+◌, ◌-◌, ◌^◌, ◌≤◌, ◌<◌, ◌≡◌, refl, sym, ap, ◌∙◌, ◌⊎◌, inl, inr, true, List, [],
  ◌∷◌, ◌++◌, arith, ltb, if◌then◌else◌, Bool-cases, ◌+ℤ◌, ◌-ℤ◌, ◌≤ℤ◌, leb_ℤ, pos-add, pos-sub, pos,
}
use serial_value_matcher_nat.Modbus.Request.{build_read_request}
use serial_value_matcher_nat.Modbus.RequestLaws.{build_read_request_iff}
use serial_value_matcher_nat.Modbus.Plan.{
  built, ScanPlanOptions, ScanBlock, block_quantity, plan_blocks,
}
use serial_value_matcher_nat.Modbus.Plan.Tiling.{IsPlannable}
use mathlib.Core.Path.{ap₂, subst}
use mathlib.Core.List.{append-nil, append_assoc}

-- One block: `q` registers from `c` on, no more than a block holds and none beyond `end`; less
-- than a block only at the end of the range. Its frame is the read request for them.
pub record IsBlock (o : ScanPlanOptions) (end c i q : ℕ) (x : ScanBlock) : Type 0 where
  pub some_registers : 1 ≤ q
  pub fits_block : pos q ≤ℤ o.block_size
  pub fits_range : c + q ≤ end + 1
  pub full_or_last : (pos q ≡ o.block_size) ⊎ (c + q ≡ end + 1)
  pub numbered : x.index ≡ pos i
  pub starts : x.start_address ≡ pos c
  pub ends : x.end_address ≡ pos (c + q - 1)
  pub counts : x.quantity ≡ pos q
  pub requested : (build_read_request o.slave_id o.function_code (pos c) (pos q)).ok ≡ true
  pub framed :
      x.request_frame ≡ (build_read_request o.slave_id o.function_code (pos c) (pos q)).frame

-- Blocks end to end from register `c`, the first with number `i`, up to `end`.
abbrev pub Tiles : ScanPlanOptions → ℕ → ℕ → ℕ → List ScanBlock → Type 0
Tiles o end c i [] = c ≡ end + 1
Tiles o end c i (x ∷ xs) = (q : ℕ) × IsBlock o end c i q x × Tiles o end (c + q) (i + 1) xs

module _ (o : ScanPlanOptions) (p : IsPlannable o) (end size : ℕ)
    (ends : o.range.end_address ≡ pos end) (sized : o.block_size ≡ pos size) where
  -- The registers that the next block takes.
  taken : ℕ → ℕ
  taken c = if ltb (end + 1 - c) size then end + 1 - c else size

  bounds : (end < 2 ^ 16) × (1 ≤ size) × (size ≤ 64)
  bounds = (
    omega (arith, rw ends at p.end_high),
    omega (arith, rw sized at p.block_low),
    omega (arith, rw sized at p.block_high),
  )

  block_quantity-taken : (c : ℕ) → c ≤ end → block_quantity o (pos c) ≡ pos (taken c)
  unfolding block_quantity taken
  block_quantity-taken c h = rw (ends, sized, pos-sub end c h, pos-add (end - c) 1) (ground arith)

  taken_bounds : (c : ℕ) → c ≤ end → (1 ≤ taken c) × (taken c ≤ size) × (c + taken c ≤ end + 1)
  unfolding taken
  taken_bounds c h = ground (arith, bounds)

  full_or_end : (c : ℕ) → c ≤ end → (pos (taken c) ≡ pos size) ⊎ (c + taken c ≡ end + 1)
  unfolding taken
  full_or_end c h = ground arith

  readable :
      (c q : ℕ)
      → 1 ≤ q
      → q ≤ size
      → c + q ≤ end + 1
      → (build_read_request o.slave_id o.function_code (pos c) (pos q)).ok ≡ true
  readable c q h k l =
      (build_read_request_iff o.slave_id o.function_code (pos c) (pos q)).1 (record {
        slave_low = p.slave_low;
        slave_high = p.slave_high;
        function_read = p.function_read;
        start_low = omega arith;
        quantity_low = omega arith;
        quantity_high = omega (arith, bounds);
        range_high = rw pos-add (omega (arith, bounds));
      })

  within : (c : ℕ) → leb_ℤ (pos c) o.range.end_address ≡ true → c ≤ end
  within c h = ground (arith, ends)

  abbrev block_at : ℕ → ℕ → ScanBlock
  block_at c i = record {
    index = pos i;
    start_address = pos c;
    end_address = pos c +ℤ pos (taken c) -ℤ pos 1;
    quantity = pos (taken c);
    request_frame = (build_read_request o.slave_id o.function_code (pos c) (pos (taken c))).frame;
  }

  block_at-IsBlock : (c i : ℕ) → c ≤ end → IsBlock o end c i (taken c) (block_at c i)
  block_at-IsBlock c i h =
      let t = taken_bounds c h in
      record {
        some_registers = t.0;
        fits_block = subst (λ x. pos (taken c) ≤ℤ x) (sym sized) (omega (arith, t.1));
        fits_range = t.2;
        full_or_last =
            subst (λ x. (pos (taken c) ≡ x) ⊎ (c + taken c ≡ end + 1)) (sym sized)
              (full_or_end c h);
        numbered = refl;
        starts = refl;
        ends = rw (pos-add, pos-sub (c + taken c) 1 (omega (arith, t.0))) refl;
        counts = refl;
        requested = readable c (taken c) t.0 t.1 t.2;
        framed = refl;
      }

  -- With more fuel than registers left the loop ends, and adds blocks that tile what is left.
  pub plan_blocks-Tiles :
      (fuel c i : ℕ) (blocks : List ScanBlock)
      → c ≤ end + 1
      → end + 1 - c < fuel
      → (xs : List ScanBlock) × (plan_blocks fuel o (pos c) (pos i) blocks ≡ built (blocks ++ xs))
        × Tiles o end c i xs
  unfolding plan_blocks
  plan_blocks-Tiles zero c i blocks h f = absurd (omega arith)
  plan_blocks-Tiles (suc fuel) c i blocks h f =
      elim (Bool-cases (leb_ℤ (pos c) o.range.end_address)) [
        | inr done ↦ ([], rw done (ap built (sym (append-nil blocks))), ground arith)
        | inl more ↦
            let le : c ≤ end = within c more in
            let t = taken_bounds c le in
            let (xs, e, tiles) =
              plan_blocks-Tiles fuel (c + taken c) (i + 1) (blocks ++ block_at c i ∷ []) t.2
                (omega (arith, t.0, t.2)) in
            (
              block_at c i ∷ xs,
              rw (more, block_quantity-taken c le, readable c (taken c) t.0 t.1 t.2)
                  (ap₂ (λ a b. plan_blocks fuel o a b (blocks ++ block_at c i ∷ []))
                      (pos-add c (taken c)) (pos-add i 1)
                    ∙ e
                    ∙ ap built (append_assoc blocks (block_at c i ∷ []) xs)),
              (taken c, block_at-IsBlock c i le, tiles),
            )
      ]
