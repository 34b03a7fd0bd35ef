-- ===== src/Rtu/Frames.antt =====
-- What a complete response is, and that the transport finds one.
use serial_value_matcher_nat.Base.{
  ℕ, zero, suc, ◌+◌, ◌-◌, ◌≤◌, ◌<◌, min, ◌≡◌, refl, ap, ◌≢◌, ◌⊎◌, inl, inr, true, some, List, [],
  ◌∷◌, arith, Bool-cases, length, get_or, take,
}
use serial_value_matcher_nat.Modbus.Frame.{validate_rtu_frame}
use serial_value_matcher_nat.Rtu.State.{max_rtu_frame_bytes, find_frame, response_frame_length}
use Prim.Native.Nat.{bit_and}

-- A whole response: an exception of five bytes, a read response as long as it says, another frame
-- with a valid checksum, or the longest one.
abbrev pub IsResponse : List ℕ → Type 0
IsResponse response =
    (length response ≤ max_rtu_frame_bytes)
    × (((bit_and (get_or response 1 0) 0x80 ≢ 0) × (length response ≡ 5))
        ⊎ ((((get_or response 1 0 ≡ 3) ⊎ (get_or response 1 0 ≡ 4))
              × (length response ≡ 5 + get_or response 2 0))
            ⊎ (((validate_rtu_frame response).ok ≡ true)
                ⊎ (length response ≡ max_rtu_frame_bytes))))

pub length-take : (n : ℕ) (xs : List ℕ) → length (take n xs) ≡ min n (length xs)
length-take zero xs = omega arith
length-take (suc n) [] = omega arith
length-take (suc n) (x ∷ xs) = omega (arith, length-take n xs)

get_or-take : (n : ℕ) (xs : List ℕ) (i d : ℕ) → i < n → get_or (take n xs) i d ≡ get_or xs i d
get_or-take zero xs i d h = absurd (omega (arith, h))
get_or-take (suc n) [] i d h = refl
get_or-take (suc n) (x ∷ xs) zero d h = refl
get_or-take (suc n) (x ∷ xs) (suc i) d h = get_or-take n xs i d (omega (arith, h))

pub take_all : (xs : List ℕ) → take (length xs) xs ≡ xs
take_all [] = refl
take_all (x ∷ xs) = ap (◌∷◌ x) (take_all xs)

-- A candidate that is found has a valid checksum.
find_frame-valid :
    (left : ℕ) (response : List ℕ) (next n : ℕ)
    → (find_frame left response next).0 ≡ some n
    → (validate_rtu_frame (take n response)).ok ≡ true
unfolding find_frame
find_frame-valid zero response next n h = cc h
find_frame-valid (suc left) response next n h =
    elim (Bool-cases (validate_rtu_frame (take next response)).ok) [
      | inl good ↦ cc (rw (good, find_frame) at h, good)
      | inr bad ↦ find_frame-valid left response (next + 1) n (rw (bad, find_frame) at h)
    ]

-- The bytes that the length counts are a whole response.
pub response_frame_length-IsResponse :
    (response : List ℕ) (next n : ℕ)
    → length response ≤ max_rtu_frame_bytes
    → n ≤ length response
    → (response_frame_length response next).0 ≡ some n
    → IsResponse (take n response)
unfolding response_frame_length
response_frame_length-IsResponse response next n whole within found = ground (
  arith,
  length-take n response,
  get_or-take n response 1 0,
  get_or-take n response 2 0,
  find_frame-valid (length response + 1 - next) response next n,
)
