-- ===== src/Prelude/Text.antt =====
-- Package strings of Go over ASCII texts: a byte is the code of a character.
use Prim.Native.Char.{Char, code}
use Prim.Native.Nat.{ℕ}
use Prim.Native.String.{String}
use mathlib.Core.Bool.{Bool, true, false, ◌&&◌, ◌||◌}
use mathlib.Core.List.{List, [], ◌∷◌}
use mathlib.Core.Option.{Option, none, some}
use smart_buster.Prelude.Tests.{leb, ◌==◌, if◌then◌else◌}

abbrev pub extend : Char → List String → List String
extend c [] = String.◌∷◌ c "" ∷ []
extend c (p ∷ ps) = String.◌∷◌ c p ∷ ps

-- s + t
unfoldable pub append : String → String → String
append String.[] t = t
append (String.◌∷◌ c s) t = String.◌∷◌ c (append s t)

-- strings.Join
unfoldable pub join : String → List String → String
unfolding append
join sep [] = ""
join sep (s ∷ []) = s
join sep (s ∷ t ∷ rest) = append s (append sep (join sep (t ∷ rest)))

-- strings.Split at a byte: one part more than there are such bytes
unfoldable pub split : ℕ → String → List String
split sep String.[] = "" ∷ []
split sep (String.◌∷◌ c s) =
    let parts = split sep s in if code c == sep then "" ∷ parts else extend c parts

-- strings.Trim with a cutset of one byte
unfoldable pub trim_left : ℕ → String → String
trim_left cut String.[] = ""
trim_left cut (String.◌∷◌ c s) =
    let rest = trim_left cut s in if code c == cut then rest else String.◌∷◌ c s

abbrev pub keep_right : ℕ → Char → String → String
keep_right cut c String.[] = if code c == cut then "" else String.◌∷◌ c ""
keep_right cut c (String.◌∷◌ d s) = String.◌∷◌ c (String.◌∷◌ d s)

unfoldable pub trim_right : ℕ → String → String
trim_right cut String.[] = ""
trim_right cut (String.◌∷◌ c s) = keep_right cut c (trim_right cut s)

unfoldable pub trim : ℕ → String → String
unfolding trim_left trim_right
trim cut s = trim_right cut (trim_left cut s)

unfoldable pub has_prefix : String → String → Bool
has_prefix s String.[] = true
has_prefix String.[] (String.◌∷◌ d p) = false
has_prefix (String.◌∷◌ c s) (String.◌∷◌ d p) = code c == code d && has_prefix s p

-- strings.Contains
unfoldable pub has_substring : String → String → Bool
unfolding has_prefix
has_substring String.[] p = has_prefix "" p
has_substring (String.◌∷◌ c s) p = has_prefix (String.◌∷◌ c s) p || has_substring s p

-- The rest behind a prefix
unfoldable pub cut_prefix : String → String → Option String
cut_prefix s String.[] = some s
cut_prefix String.[] (String.◌∷◌ d p) = none
cut_prefix (String.◌∷◌ c s) (String.◌∷◌ d p) =
    let rest = cut_prefix s p in if code c == code d then rest else none

unfoldable pub trim_prefix : String → String → String
unfolding cut_prefix
trim_prefix s p = elim (cut_prefix s p) [ none ↦ s | some rest ↦ rest ]

abbrev pub is_space : ℕ → Bool
is_space b = b == 32 || (leb 9 b && leb b 13)

-- strings.TrimSpace over ASCII
unfoldable pub skip_space : String → String
skip_space String.[] = ""
skip_space (String.◌∷◌ c s) =
    let rest = skip_space s in if is_space (code c) then rest else String.◌∷◌ c s

abbrev pub keep_space : Char → String → String
keep_space c String.[] = if is_space (code c) then "" else String.◌∷◌ c ""
keep_space c (String.◌∷◌ d s) = String.◌∷◌ c (String.◌∷◌ d s)

unfoldable pub drop_space : String → String
drop_space String.[] = ""
drop_space (String.◌∷◌ c s) = keep_space c (drop_space s)

unfoldable pub trim_space : String → String
unfolding skip_space drop_space
trim_space s = drop_space (skip_space s)
