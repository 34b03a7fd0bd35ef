-- ===== src/Protocol/Examples.antt =====
-- Checksums of concrete bytes.
use serial_value_matcher_nat.Base.{◌%◌, ◌^◌, ◌<◌, ◌≡◌, refl, ◌↔◌, [], ◌∷◌, ◌++◌, arith}
use serial_value_matcher_nat.Protocol.Checks.{sum8, xor8, lrc8}
use serial_value_matcher_nat.Protocol.CheckLaws.{total, lrc8-checks}

xor8-bytes : xor8 (1 ∷ 3 ∷ 255 ∷ []) ≡ 253
unfolding xor8
xor8-bytes = refl

lrc8-checks_example :
    (sum8 (200 ∷ 100 ∷ []) ≡ total (200 ∷ 100 ∷ []) % 2 ^ 8)
    × (lrc8 (200 ∷ 100 ∷ []) < 2 ^ 8)
    × ((sum8 ((200 ∷ 100 ∷ []) ++ 212 ∷ []) ≡ 0) ↔ (212 ≡ lrc8 (200 ∷ 100 ∷ [])))
lrc8-checks_example = lrc8-checks (200 ∷ 100 ∷ []) 212 (omega arith)
