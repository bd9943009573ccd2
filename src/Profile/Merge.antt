-- ===== src/Profile/Merge.antt =====
-- mergeByID, filterOut and normalizeCategory of internal/profile/ruleset.go, for rules of any type.
-- A Go map is a function here; a text is its bytes where letters are folded.
pub mod Places
pub mod Merged
use Prim.Native.Char.{Char, code}
use smart_buster.Prelude.{
  ℕ, zero, suc, ◌+◌, Bool, true, false, ◌&&◌, Option, none, some, List, [], ◌∷◌, ◌++◌, map, String,
  str_eq, leb, if◌then◌else◌, length, set, any_of,
}
use smart_buster.Scope.{equal}

abbrev pub bytes : String → List ℕ
bytes String.[] = []
bytes (String.◌∷◌ c s) = code c ∷ bytes s

abbrev pub to_small : ℕ → ℕ
to_small ch = if leb b'A' ch && leb ch b'Z' then ch + 32 else ch

unfoldable pub normalize_category : String → List ℕ
normalize_category c = map to_small (bytes c)

abbrev pub put : String → ℕ → (String → Option ℕ) → String → Option ℕ
put k i index j = if str_eq k j then some i else index j

-- The slice that is grown, and the place of each name in it
pub record Merging (R : Type 0) : Type 0 where
  pub rules : List R
  pub index : String → Option ℕ

module _ {R : Type 0} where
  unfoldable pub index_from : (R → String) → ℕ → List R → (String → Option ℕ) → String → Option ℕ
  index_from id i [] index = index
  index_from id i (r ∷ rs) index =
      index_from id (suc i) rs (if str_eq (id r) "" then index else put (id r) i index)

  abbrev pub append_rule : (R → String) → R → Merging R → Merging R
  append_rule id r m = record {
    rules = m.rules ++ r ∷ [];
    index = put (id r) (length m.rules) m.index;
  }

  abbrev pub place_rule : (R → String) → R → Merging R → Option ℕ → Merging R
  place_rule id r m none = append_rule id r m
  place_rule id r m (some i) = record m { rules = set m.rules i r }

  -- A rule without a name is always added.
  unfoldable pub merge_rule : (R → String) → R → Merging R → Merging R
  merge_rule id r m =
      if str_eq (id r) "" then append_rule id r m else place_rule id r m (m.index (id r))

  unfoldable pub merge_overlay : (R → String) → List R → Merging R → Merging R
  unfolding merge_rule
  merge_overlay id [] m = m
  merge_overlay id (r ∷ rs) m = merge_overlay id rs (merge_rule id r m)

  unfoldable pub merge_by_id : (R → String) → List R → List R → List R
  unfolding merge_overlay index_from
  merge_by_id id base overlay =
      (merge_overlay id overlay
        (record { rules = base; index = index_from id 0 base (λ k. none) })).rules

  unfoldable pub filter_out : (R → String) → List (List ℕ) → List R → List R
  unfolding normalize_category
  filter_out cat off [] = []
  filter_out cat off (r ∷ rs) =
      let rest = filter_out cat off rs in
      if any_of (equal (normalize_category (cat r))) off then rest else r ∷ rest
