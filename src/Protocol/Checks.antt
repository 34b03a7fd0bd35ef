-- ===== src/Protocol/Checks.antt =====
-- src/core/protocol_core.cpp: the checksums of one byte. A byte is a number below 256.
use serial_value_matcher_nat.Base.{ℕ, ◌+◌, ◌-◌, ◌%◌, ◌^◌, List, [], ◌∷◌}
use Prim.Native.Nat.{bit_xor}

unfoldable pub sum8_from : ℕ → List ℕ → ℕ
sum8_from sum [] = sum
sum8_from sum (byte ∷ bytes) = sum8_from ((sum + byte) % 2 ^ 8) bytes

unfoldable pub sum8 : List ℕ → ℕ
unfolding sum8_from
sum8 bytes = sum8_from 0 bytes

unfoldable pub xor8_from : ℕ → List ℕ → ℕ
xor8_from result [] = result
xor8_from result (byte ∷ bytes) = xor8_from (bit_xor result byte % 2 ^ 8) bytes

unfoldable pub xor8 : List ℕ → ℕ
unfolding xor8_from
xor8 bytes = xor8_from 0 bytes

-- `0u - sum8(data)` is a 32-bit word, cut to a byte.
unfoldable pub lrc8 : List ℕ → ℕ
unfolding sum8
lrc8 bytes = (2 ^ 32 - sum8 bytes) % 2 ^ 32 % 2 ^ 8
