-- ===== src/Corpus/Dedup.antt =====
-- dedup and sortedKeys of internal/corpus/expand.go. The four maps of the code have one key, the
-- path, and `order` lists it: an entry of this list is what they hold for a path.
pub mod Deduped
use Prim.Native.String as Text
use Prim.Native.Nat.{Ordering}
use smart_buster.Prelude.{
  Bool, true, false, not, ◌&&◌, ◌||◌, List, [], ◌∷◌, ◌++◌, map, String, str_eq, if◌then◌else◌,
}
use smart_buster.Prelude.Float.{Float}
use smart_buster.Prelude.Sort.{sort_by}
use smart_buster.Prelude.Text.{join, append}
use smart_buster.Seed.Provenance.{is_member}

pub data TermType : Type 0 where
  term_dir term_file term_stem term_full_path : TermType

pub record CorpusCandidate (F : Type 0) : Type 0 where
  pub path : String
  pub kind : TermType
  pub base_prio : F
  pub score : F
  pub tags : List String
  pub provenance : String

-- best, anyDir, tagSet and provSet at one path
pub record Group (F : Type 0) : Type 0 where
  pub best : CorpusCandidate F
  pub any_dir : Bool
  pub tag_set : List String
  pub prov_set : List String

abbrev pub is_dir : TermType → Bool
is_dir term_dir = true
is_dir _ = false

-- `m[s] = true`
abbrev pub add_key : String → List String → List String
add_key s keys = if is_member s keys then keys else keys ++ s ∷ []

unfoldable pub add_keys : List String → List String → List String
unfolding is_member
add_keys [] keys = keys
add_keys (s ∷ ss) keys = add_keys ss (add_key s keys)

abbrev pub add_prov : String → List String → List String
add_prov s keys = if str_eq s "" then keys else add_key s keys

abbrev pub is_before : Ordering → Bool
is_before Ordering.lt = true
is_before _ = false

abbrev pub text_lt : String → String → Bool
text_lt a b = is_before (Text.compare a b)

unfoldable pub sorted_keys : List String → List String
unfolding sort_by
sorted_keys keys = sort_by text_lt keys

module _ {F : Type 0} ⦃f : Float F⦄ where
  unfoldable pub new_group : CorpusCandidate F → Group F
  unfolding add_keys is_member
  new_group c = record {
    best = c;
    any_dir = is_dir c.kind;
    tag_set = add_keys c.tags [];
    prov_set = add_prov c.provenance [];
  }

  abbrev pub better : CorpusCandidate F → CorpusCandidate F → CorpusCandidate F
  better c cur =
      if f.lt cur.score c.score
      then record cur { score = c.score; base_prio = c.base_prio; kind = c.kind }
      else cur

  unfoldable pub join_group : CorpusCandidate F → Group F → Group F
  unfolding add_keys is_member
  join_group c g = record {
    best = better c g.best;
    any_dir = g.any_dir || is_dir c.kind;
    tag_set = add_keys c.tags g.tag_set;
    prov_set = add_prov c.provenance g.prov_set;
  }

  unfoldable pub note_candidate : CorpusCandidate F → List (Group F) → List (Group F)
  unfolding new_group join_group
  note_candidate c [] = new_group c ∷ []
  note_candidate c (g ∷ gs) =
      let rest = note_candidate c gs in
      if str_eq g.best.path c.path then join_group c g ∷ gs else g ∷ rest

  unfoldable pub group_all : List (CorpusCandidate F) → List (Group F) → List (Group F)
  unfolding note_candidate
  group_all [] gs = gs
  group_all (c ∷ cs) gs = group_all cs (note_candidate c gs)

  unfoldable pub survivor : Group F → CorpusCandidate F
  unfolding sorted_keys join append
  survivor g = record g.best {
    kind = if g.any_dir then term_dir else g.best.kind;
    tags = sorted_keys g.tag_set;
    provenance = join ", " (sorted_keys g.prov_set);
  }

  unfoldable pub dedup : List (CorpusCandidate F) → List (CorpusCandidate F)
  unfolding group_all survivor
  dedup cands = map survivor (group_all cands [])
