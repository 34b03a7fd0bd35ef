-- ===== src/Sequence/Search.antt =====
-- The search for expected bytes in a response finds exactly what stands in it.
use serial_value_matcher_nat.Base.{
  ℕ, ◌≡◌, refl, ap, ◌↔◌, inl, inr, true, List, [], ◌∷◌, ◌++◌, arith, ==_refl, Bool-cases, length,
  length-append,
}
use serial_value_matcher_nat.Sequence.Types.{starts_with, search_bytes, contains_subsequence}

starts_with_sound :
    (needle haystack : List ℕ)
    → starts_with needle haystack ≡ true
    → (back : List ℕ) × (haystack ≡ needle ++ back)
unfolding starts_with
starts_with_sound [] haystack h = (haystack, refl)
starts_with_sound (n ∷ needle) [] h = cc
starts_with_sound (n ∷ needle) (x ∷ haystack) h =
    let tail = starts_with_sound needle haystack (ground arith) in
    let same : x ≡ n = ground arith in (tail.0, cc (same, tail.1))

starts_with-append : (needle back : List ℕ) → starts_with needle (needle ++ back) ≡ true
unfolding starts_with
starts_with-append [] back = refl
starts_with-append (n ∷ needle) back = rw (==_refl n) (starts_with-append needle back)

-- The needle stands in the bytes.
abbrev pub StandsIn : List ℕ → List ℕ → Type 0
StandsIn needle haystack =
    (front : List ℕ) × (back : List ℕ) × (haystack ≡ front ++ (needle ++ back))

search_sound :
    (haystack needle : List ℕ) → search_bytes haystack needle ≡ true → StandsIn needle haystack
unfolding search_bytes
search_sound [] needle h = let s = starts_with_sound needle [] h in ([], s.0, s.1)
search_sound (x ∷ haystack) needle h = elim (Bool-cases (starts_with needle (x ∷ haystack))) [
  | inl e ↦ let s = starts_with_sound needle (x ∷ haystack) e in ([], s.0, s.1)
  | inr e ↦
      let s = search_sound haystack needle (ground (arith, h, e)) in (x ∷ s.0, s.1, ap (◌∷◌ x) s.2)
]

search_complete :
    (front needle back : List ℕ) → search_bytes (front ++ (needle ++ back)) needle ≡ true
unfolding search_bytes
search_complete [] [] [] = refl
search_complete [] [] (b ∷ back) = rw (starts_with-append [] (b ∷ back)) refl
search_complete [] (n ∷ needle) back = rw (starts_with-append (n ∷ needle) back) refl
search_complete (x ∷ front) needle back = ground (arith, search_complete front needle back)

-- A response is found to contain the expected bytes exactly when they stand in it, in order and side
-- by side.
pub contains_subsequence_iff :
    (haystack needle : List ℕ)
    → (contains_subsequence haystack needle ≡ true) ↔ StandsIn needle haystack
unfolding contains_subsequence
contains_subsequence_iff haystack needle = (sound needle, complete needle)
  where
    sound :
        (needle : List ℕ) → contains_subsequence haystack needle ≡ true → StandsIn needle haystack
    sound [] h = ([], haystack, refl)
    sound (n ∷ needle) h = search_sound haystack (n ∷ needle) (ground (arith, h))

    complete :
        (needle : List ℕ) → StandsIn needle haystack → contains_subsequence haystack needle ≡ true
    complete [] h = refl
    complete (n ∷ needle) (front, back, e) =
        let found = rw (← e) at (search_complete front (n ∷ needle) back) in
        let size = ap length e in
        ground (
          arith,
          found,
          size,
          length-append {0} front ((n ∷ needle) ++ back),
          length-append {0} (n ∷ needle) back,
        )
