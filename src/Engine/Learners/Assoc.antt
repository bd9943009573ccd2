-- ===== src/Engine/Learners/Assoc.antt =====
-- internal/engine/assoc.go: the companions of a term and the hits of a scan. The groups are those of
-- companions.yaml. A map of sets is a function into lists without repeats; the table that could be
-- mined from data is never loaded, and siblingsFor, a regular expression, is not modelled.
pub mod Companions
use smart_buster.Prelude.{
  ℕ, Bool, true, false, not, ◌&&◌, ◌||◌, List, [], ◌∷◌, ◌++◌, String, str_eq, any_of, if◌then◌else◌,
}
use smart_buster.Prelude.Float.{Float}
use smart_buster.Prelude.Text.{append}
use smart_buster.Seed.Provenance.{is_member}
use smart_buster.Seed.Normalize.{terminal_segment, ext_of}
use smart_buster.Engine.Types.{Candidate, type_file}

abbrev pub set_companion : String → String → (String → String → Bool) → String → String → Bool
set_companion term other out a b = (str_eq term a && str_eq other b) || out a b

unfoldable pub add_others : String → List String → (String → String → Bool) → String → String → Bool
add_others term [] out = out
add_others term (other ∷ g) out =
    add_others term g (if str_eq other term then out else set_companion term other out)

-- The loop over the terms of a group, which is passed whole
unfoldable pub add_terms :
    List String → List String → (String → String → Bool) → String → String → Bool
unfolding add_others
add_terms [] group out = out
add_terms (term ∷ terms) group out = add_terms terms group (add_others term group out)

unfoldable pub add_groups : List (List String) → (String → String → Bool) → String → String → Bool
unfolding add_terms
add_groups [] out = out
add_groups (g ∷ gs) out = add_groups gs (add_terms g g out)

unfoldable pub expand_companion_groups : List (List String) → String → String → Bool
unfolding add_groups
expand_companion_groups groups = add_groups groups (λ a b. false)

pub record AssocEngine : Type 0 where
  pub companions : String → String → Bool
  pub hit_terms : String → List String
  pub hit_exts : String → List String

unfoldable pub new_assoc_engine : List (List String) → AssocEngine
unfolding expand_companion_groups
new_assoc_engine groups = record {
  companions = expand_companion_groups groups;
  hit_terms = λ dir. [];
  hit_exts = λ dir. [];
}

-- `m[dir][s] = true`
abbrev pub add_to_set : String → String → (String → List String) → String → List String
add_to_set dir s m d =
    if str_eq dir d then (if is_member s (m d) then m d else m d ++ s ∷ []) else m d

unfoldable pub record_hit : String → String → AssocEngine → AssocEngine
unfolding is_member terminal_segment ext_of
record_hit dir path a =
    let ext = ext_of path in
    record a {
      hit_terms = add_to_set dir (terminal_segment path) a.hit_terms;
      hit_exts = if str_eq ext "" then a.hit_exts else add_to_set dir ext a.hit_exts;
    }

abbrev pub backup_suffixes : List String
backup_suffixes = ".bak" ∷ ".old" ∷ ".zip" ∷ ".tar.gz" ∷ ".swp" ∷ "~" ∷ []

module _ {F : Type 0} ⦃f : Float F⦄ where
  unfoldable pub assoc_signal : AssocEngine → Candidate F → F
  unfolding is_member terminal_segment ext_of
  assoc_signal a c =
      let ext = ext_of c.path in
      if any_of (λ (term : String). a.companions term (terminal_segment c.path))
        (a.hit_terms c.parent_dir)
      then f.lit 1 1
      else if not (str_eq ext "") && is_member ext (a.hit_exts c.parent_dir)
      then f.lit 6 10
      else f.lit 0 1

  unfoldable pub backups_from : List String → Candidate F → List (Candidate F)
  unfolding append
  backups_from [] cand = []
  backups_from (suf ∷ sufs) cand =
      record cand {
        path = append cand.path suf;
        kind = type_file;
        score = f.lit 0 1;
        provenance = append "generated:backup:" cand.path;
      }
      ∷ backups_from sufs cand

  unfoldable pub backups_for : Candidate F → List (Candidate F)
  unfolding backups_from
  backups_for cand = backups_from backup_suffixes cand
