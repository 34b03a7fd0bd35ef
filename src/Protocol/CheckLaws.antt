-- ===== src/Protocol/CheckLaws.antt =====
-- The checksums detect: a message with its checksum behind it sums to nothing, and the sum does not
-- depend on the order of the bytes.
use serial_value_matcher_nat.Base.{ℕ, ◌+◌, ◌%◌, ◌^◌, ◌<◌, ◌≡◌, ◌↔◌, List, [], ◌∷◌, ◌++◌, arith}
use serial_value_matcher_nat.Protocol.Checks.{sum8_from, sum8, lrc8}

-- The sum without the cast of each round.
abbrev pub total : List ℕ → ℕ
total [] = 0
total (byte ∷ bytes) = byte + total bytes

sum8_from-total :
    (sum : ℕ) (bytes : List ℕ) → sum < 2 ^ 8 → sum8_from sum bytes ≡ (sum + total bytes) % 2 ^ 8
unfolding sum8_from
sum8_from-total sum [] h = omega (arith, h)
sum8_from-total sum (byte ∷ bytes) h =
    omega (arith, sum8_from-total ((sum + byte) % 2 ^ 8) bytes (omega arith))

total-append : (front back : List ℕ) → total (front ++ back) ≡ total front + total back
total-append [] back = omega arith
total-append (byte ∷ front) back = omega (arith, total-append front back)

-- The sum is the residue of the bytes' sum, the longitudinal check is a byte, and a message with it
-- behind has the sum 0: no other byte has that.
pub lrc8-checks :
    (bytes : List ℕ) (check : ℕ)
    → check < 2 ^ 8
    → (sum8 bytes ≡ total bytes % 2 ^ 8)
      × (lrc8 bytes < 2 ^ 8)
      × ((sum8 (bytes ++ check ∷ []) ≡ 0) ↔ (check ≡ lrc8 bytes))
unfolding sum8 lrc8
lrc8-checks bytes check h =
    let sum = sum8_from-total 0 bytes (omega arith) in
    let whole = sum8_from-total 0 (bytes ++ check ∷ []) (omega arith) in
    let parts = total-append bytes (check ∷ []) in
    (
      omega (arith, sum),
      omega arith,
      (λ e. omega (arith, e, sum, whole, parts, h), λ e. omega (arith, e, sum, whole, parts, h)),
    )
