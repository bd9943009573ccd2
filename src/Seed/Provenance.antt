-- ===== src/Seed/Provenance.antt =====
-- UnionProvenance of internal/seed/normalize.go.
pub mod Union
use smart_buster.Prelude.{
  Bool, true, false, not, ◌||◌, List, [], ◌∷◌, ◌++◌, String, str_eq, if◌then◌else◌,
}
use smart_buster.Prelude.Text.{split, join, append}

unfoldable pub is_member : String → List String → Bool
is_member k [] = false
is_member k (s ∷ ss) = str_eq s k || is_member k ss

-- The loop over the parts, with those that it has kept
unfoldable pub keep_parts : List String → List String → List String
unfolding is_member
keep_parts [] out = out
keep_parts (part ∷ parts) out =
    keep_parts parts (if str_eq part "" || is_member part out then out else out ++ part ∷ [])

unfoldable pub union_provenance : String → String → String
unfolding keep_parts split join append
union_provenance a b =
    if str_eq a ""
    then b
    else if str_eq b ""
    then a
    else join "+" (keep_parts (split b'+' (append a (append "+" b))) [])
