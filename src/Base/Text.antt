-- ===== src/Base/Text.antt =====
-- The source's `Text`: `std::string` as the native string.
use Prim.Native.String.{String}
use mathlib.Core.Bool.{Bool, true, false}

abbrev pub empty_text : String → Bool
empty_text String.[] = true
empty_text (String.◌∷◌ c s) = false

-- `operator+` of texts.
abbrev pub text_append : String → String → String
text_append String.[] t = t
text_append (String.◌∷◌ c s) t = String.◌∷◌ c (text_append s t)
