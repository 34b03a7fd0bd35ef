-- ===== src/Transport/WriteQueue/Ids.antt =====
-- Ascending lists of request ids: what FIFO admission under growing ids keeps.
use serial_value_matcher_nat.Base.{
  ℕ, ◌+◌, ◌≤◌, ◌<◌, ◌≡◌, ◌==◌, List, [], ◌∷◌, ◌++◌, Bool, if◌then◌else◌, Option, none, some, All,
  length, length, arith, count,
}
use serial_value_matcher_nat.Transport.WriteQueue.State.{
  SerialWriteRequest, ActiveReservation, SerialWriteQueue, word,
}
use serial_value_matcher_nat.Transport.WriteQueue.Settle.{find_request, erase_request}

abbrev pub request_ids : List SerialWriteRequest → List ℕ
request_ids [] = []
request_ids (r ∷ rs) = r.id ∷ request_ids rs

abbrev pub total_bytes : List SerialWriteRequest → ℕ
total_bytes [] = 0
total_bytes (r ∷ rs) = r.payload_bytes + total_bytes rs

abbrev pub active_ids : Option ActiveReservation → List ℕ
active_ids none = []
active_ids (some a) = a.request_id ∷ []

-- The requests that count against the limits, oldest first.
abbrev pub live_ids : SerialWriteQueue → List ℕ
live_ids q = active_ids q.active ++ request_ids q.pending

abbrev pub Ascending : ℕ → List ℕ → ℕ → Type 0
Ascending lo [] hi = lo < hi
Ascending lo (x ∷ xs) hi = (lo < x) × Ascending x xs hi

-- The id counter stops at 0 when the last id is given out.
abbrev pub id_bound : ℕ → ℕ
id_bound n = if n == 0 then word else n

pub Ascending-lower :
    (lo lo' : ℕ) (xs : List ℕ) (hi : ℕ) → lo' ≤ lo → Ascending lo xs hi → Ascending lo' xs hi
Ascending-lower lo lo' [] hi h a = omega arith
Ascending-lower lo lo' (x ∷ xs) hi h a = (omega arith, a.1)

pub Ascending-snoc :
    (lo : ℕ) (xs : List ℕ) (hi hi' : ℕ)
    → hi < hi'
    → Ascending lo xs hi
    → Ascending lo (xs ++ hi ∷ []) hi'
Ascending-snoc lo [] hi hi' h a = (a, h)
Ascending-snoc lo (x ∷ xs) hi hi' h a = (a.0, Ascending-snoc x xs hi hi' h a.1)

pub Ascending-lt : (lo : ℕ) (xs : List ℕ) (hi : ℕ) → Ascending lo xs hi → lo < hi
Ascending-lt lo [] hi a = a
Ascending-lt lo (x ∷ xs) hi a = omega (arith, Ascending-lt x xs hi a.1)

pub Ascending-skip :
    (lo x : ℕ) (xs : List ℕ) (hi : ℕ) → Ascending lo (x ∷ xs) hi → Ascending lo xs hi
Ascending-skip lo x xs hi a = Ascending-lower x lo xs hi (omega arith) a.1

pub Ascending-raise :
    (lo : ℕ) (xs : List ℕ) (hi hi' : ℕ) → hi ≤ hi' → Ascending lo xs hi → Ascending lo xs hi'
Ascending-raise lo [] hi hi' h a = omega arith
Ascending-raise lo (x ∷ xs) hi hi' h a = (a.0, Ascending-raise x xs hi hi' h a.1)

-- An ascending list holds no number at or below its start, at or above its end, or twice.
pub count-Ascending_low :
    (a lo : ℕ) (xs : List ℕ) (hi : ℕ) → a ≤ lo → Ascending lo xs hi → count a xs ≡ 0
count-Ascending_low a lo [] hi h s = omega arith
count-Ascending_low a lo (x ∷ xs) hi h s = ground (arith, count-Ascending_low a x xs hi)

pub count-Ascending_high :
    (a lo : ℕ) (xs : List ℕ) (hi : ℕ) → hi ≤ a → Ascending lo xs hi → count a xs ≡ 0
count-Ascending_high a lo [] hi h s = omega arith
count-Ascending_high a lo (x ∷ xs) hi h s =
    ground (arith, count-Ascending_high a x xs hi h s.1, Ascending-lt x xs hi s.1)

pub count-Ascending_le_one : (a lo : ℕ) (xs : List ℕ) (hi : ℕ) → Ascending lo xs hi → count a xs ≤ 1
count-Ascending_le_one a lo [] hi s = omega arith
count-Ascending_le_one a lo (x ∷ xs) hi s =
    ground (arith, count-Ascending_low a x xs hi, count-Ascending_le_one a x xs hi s.1)

module _ (p : SerialWriteRequest → Bool) where
  pub erase_request-Ascending :
      (lo : ℕ) (rs : List SerialWriteRequest) (hi : ℕ)
      → Ascending lo (request_ids rs) hi
      → Ascending lo (request_ids (erase_request p rs)) hi
  unfolding erase_request
  erase_request-Ascending lo [] hi a = a
  erase_request-Ascending lo (r ∷ rs) hi a =
      ground (
        arith,
        Ascending-skip lo r.id (request_ids rs) hi a,
        erase_request-Ascending r.id rs hi a.1,
      )

  pub total_bytes-erase :
      (rs : List SerialWriteRequest) (r : SerialWriteRequest)
      → find_request p rs ≡ some r
      → total_bytes rs ≡ r.payload_bytes + total_bytes (erase_request p rs)
  unfolding find_request erase_request
  total_bytes-erase [] r h = ground arith
  total_bytes-erase (x ∷ rs) r h = ground (arith, total_bytes-erase rs r)

  pub count-erase :
      (a : ℕ) (rs : List SerialWriteRequest) (r : SerialWriteRequest)
      → find_request p rs ≡ some r
      → count a (request_ids rs)
        ≡ (if r.id == a then 1 else 0) + count a (request_ids (erase_request p rs))
  unfolding find_request erase_request
  count-erase a [] r h = ground arith
  count-erase a (x ∷ rs) r h = ground (arith, count-erase a rs r)

  pub erase_request-All {κ} :
      (P : SerialWriteRequest → Type κ) (rs : List SerialWriteRequest)
      → All P rs
      → All P (erase_request p rs)
  unfolding erase_request
  erase_request-All P [] h = h
  erase_request-All P (r ∷ rs) h = ground (arith, erase_request-All P rs h.1)

  pub find_request-All {κ} :
      (P : SerialWriteRequest → Type κ) (rs : List SerialWriteRequest) (r : SerialWriteRequest)
      → All P rs
      → find_request p rs ≡ some r
      → P r
  unfolding find_request
  find_request-All P [] r h e = ground arith
  find_request-All P (x ∷ rs) r h e = ground (arith, find_request-All P rs r h.1)

  -- The same with the active request in front.
  pub erase_live-Ascending :
      (lo : ℕ) (xs : List ℕ) (rs : List SerialWriteRequest) (hi : ℕ)
      → Ascending lo (xs ++ request_ids rs) hi
      → Ascending lo (xs ++ request_ids (erase_request p rs)) hi
  erase_live-Ascending lo [] rs hi a = erase_request-Ascending lo rs hi a
  erase_live-Ascending lo (x ∷ xs) rs hi a = (a.0, erase_live-Ascending x xs rs hi a.1)

  pub length-erase-le : (rs : List SerialWriteRequest) → length (erase_request p rs) ≤ length rs
  unfolding erase_request
  length-erase-le [] = omega arith
  length-erase-le (r ∷ rs) = ground (arith, length-erase-le rs)

pub Ascending-prefix :
    (lo : ℕ) (xs ys : List ℕ) (hi : ℕ) → Ascending lo (xs ++ ys) hi → Ascending lo (xs ++ []) hi
Ascending-prefix lo [] ys hi a = Ascending-lt lo ys hi a
Ascending-prefix lo (x ∷ xs) ys hi a = (a.0, Ascending-prefix x xs ys hi a.1)

pub Ascending-suffix :
    (lo : ℕ) (xs ys : List ℕ) (hi : ℕ) → Ascending lo (xs ++ ys) hi → Ascending lo ys hi
Ascending-suffix lo [] ys hi a = a
Ascending-suffix lo (x ∷ xs) ys hi a =
    Ascending-suffix lo xs ys hi (Ascending-skip lo x (xs ++ ys) hi a)
