-- ===== src/Base/Decimal.antt =====
-- The standard library's decimal texts and text maps, as src/core/dangerous_operation_policy.cpp and
-- src/command_sequence/command_sequence.cpp use them.
use serial_value_matcher_nat.Base.{
  ℕ, zero, suc, ◌/◌, ◌%◌, String, Bool, true, false, List, [], ◌∷◌, map, ◌==◌, if◌then◌else◌, ℤ,
  pos, negsuc, text_append,
}
use Prim.Native.String.{compare}
use Prim.Native.Nat.{Ordering}

abbrev pub text_eq : String → String → Bool
text_eq s t = elim (compare s t) [ Ordering.eq ↦ true | _ ↦ false ]

unfoldable pub digit_text : ℕ → String
digit_text d =
    if d == 0
    then "0"
    else if d == 1
    then "1"
    else if d == 2
    then "2"
    else if d == 3
    then "3"
    else if d == 4
    then "4"
    else if d == 5
    then "5"
    else if d == 6
    then "6"
    else if d == 7
    then "7"
    else if d == 8
    then "8"
    else "9"

-- `places` digits at most; a 64-bit number has no more than twenty.
unfoldable pub decimal : ℕ → ℕ → String → String
unfolding digit_text
decimal zero n later = later
decimal (suc places) n later =
    let text = text_append (digit_text (n % 10)) later in
    let rest = decimal places (n / 10) text in if n / 10 == 0 then text else rest

-- `std::to_string` of a `std::size_t` and of an `int`.
unfoldable pub size_text : ℕ → String
size_text n = decimal 20 n ""

unfoldable pub int_text : ℤ → String
unfolding size_text
int_text (pos n) = size_text n
int_text (negsuc n) = text_append "-" (size_text (suc n))

unfoldable pub bool_text : Bool → String
bool_text true = "true"
bool_text false = "false"

-- A `std::map` of texts; `set_value` is the assignment to `map[key]`.
unfoldable pub set_value : String → String → List (String × String) → List (String × String)
set_value key value [] = (key, value) ∷ []
set_value key value (entry ∷ map) =
    let rest = set_value key value map in
    if text_eq entry.0 key then (key, value) ∷ map else entry ∷ rest
