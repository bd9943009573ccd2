-- ===== src/Engine/Coordinator/Template.antt =====
-- The candidates of a directory whose baseline is known: pushCandidates and pushWordlistCandidates
-- of internal/engine/coordinator.go, pushCorpusCandidates of internal/engine/corpus_select.go, which
-- has the same body over another template, and mergeSeedCandidate of internal/engine/seed.go.
use smart_buster.Prelude.{
  ◌+◌, Bool, Option, none, some, List, [], ◌∷◌, ◌++◌, map, String, str_eq, str_append, ltb, ◌==◌,
  if◌then◌else◌, length,
}
use smart_buster.Prelude.Float.{Float}
use smart_buster.Corpus.Dedup.{
  CorpusCandidate, TermType, term_dir, term_file, term_stem, term_full_path,
}
use smart_buster.Engine.Types.{
  Candidate, CandidateType, type_dir, type_file, type_stem, type_full_path,
}
use smart_buster.Engine.Frontier
use smart_buster.Engine.Frontier.{Frontier}
use smart_buster.Engine.Coordinator.{dir_done, DirState, lookup, store, delete, Policy, Scan}

-- wordlist.Entry
pub record Entry (F : Type 0) : Type 0 where
  pub word : String
  pub is_file : Bool
  pub base_prio : F

-- profile.NmapSeed
pub record NmapSeed : Type 0 where
  pub path : String
  pub provenance : String

pub record Words (F : Type 0) : Type 0 where
  pub wordlist : List (Entry F)
  -- none is a nil corpusTemplate
  pub corpus : Option (List (CorpusCandidate F))
  pub nmap_seeds : List NmapSeed

-- CandidateType(tc.Type), of the same encoding
abbrev pub kind_of : TermType → CandidateType
kind_of term_dir = type_dir
kind_of term_file = type_file
kind_of term_stem = type_stem
kind_of term_full_path = type_full_path

module _ {F : Type 0} ⦃f : Float F⦄ where
  abbrev pub nmap_seed_score : F
  nmap_seed_score = f.lit 2 1

  -- mergeSeedCandidate: a seed at the candidate's path leaves the map and raises the candidate.
  unfoldable pub merge_seed_candidate :
      Policy F
      → List (String × Candidate F)
      → Candidate F
      → Option (Candidate F)
      → List (String × Candidate F) × Candidate F
  unfolding delete
  merge_seed_candidate policy pending c none = (pending, c)
  merge_seed_candidate policy pending c (some seed) = (
    delete c.path pending,
    record c {
      base_prio = if f.lt c.base_prio seed.base_prio then seed.base_prio else c.base_prio;
      provenance = policy.union_provenance c.provenance seed.provenance;
    },
  )

  abbrev pub with_score : Policy F → Candidate F → Candidate F
  with_score policy c = record c { score = policy.score c }

  abbrev pub template : String → DirState F → Entry F → Candidate F
  template dir ds e = record {
    path = e.word;
    kind = if e.is_file then type_file else type_dir;
    base_prio = e.base_prio;
    score = f.lit 0 1;
    depth = ds.depth + 1;
    parent_dir = dir;
    provenance = if str_eq dir "" then "wordlist" else str_append "recursion:" dir;
    tags = "generic" ∷ [];
  }

  abbrev pub corpus_template : String → DirState F → CorpusCandidate F → Candidate F
  corpus_template dir ds tc = record {
    path = tc.path;
    kind = kind_of tc.kind;
    base_prio = tc.base_prio;
    score = f.lit 0 1;
    depth = ds.depth + 1;
    parent_dir = dir;
    provenance = tc.provenance;
    tags = tc.tags;
  }

  unfoldable pub templates_from :
      String → DirState F → List (Entry F) → Option (List (CorpusCandidate F)) → List (Candidate F)
  templates_from dir ds wordlist none = map (template dir ds) wordlist
  templates_from dir ds wordlist (some corpus) = map (corpus_template dir ds) corpus

  -- The corpus, or without one the wordlist
  unfoldable pub templates : Words F → String → DirState F → List (Candidate F)
  unfolding templates_from
  templates words dir ds = templates_from dir ds words.wordlist words.corpus

  -- The loop over the template: the seeds left over, and the frontier
  unfoldable pub push_entries :
      Policy F
      → List (Candidate F)
      → List (String × Candidate F)
      → Frontier F
      → List (String × Candidate F) × Frontier F
  unfolding merge_seed_candidate lookup
  push_entries policy [] pending items = (pending, items)
  push_entries policy (c ∷ cs) pending items =
      let (left, merged) = merge_seed_candidate policy pending c (lookup c.path pending) in
      push_entries policy cs left (Frontier.push (with_score policy merged) items)

  unfoldable pub push_seeds : Policy F → List (String × Candidate F) → Frontier F → Frontier F
  push_seeds policy [] items = items
  push_seeds policy (e ∷ es) items =
      push_seeds policy es (Frontier.push (with_score policy e.1) items)

  abbrev pub nmap_candidate : String → DirState F → NmapSeed → Candidate F
  nmap_candidate dir ds n = record {
    path = n.path;
    kind = type_full_path;
    base_prio = f.lit 1 1;
    score = nmap_seed_score;
    depth = ds.depth + 1;
    parent_dir = dir;
    provenance = n.provenance;
    tags = [];
  }

  unfoldable pub push_nmap : String → DirState F → List NmapSeed → Frontier F → Frontier F
  push_nmap dir ds [] items = items
  push_nmap dir ds (n ∷ ns) items =
      push_nmap dir ds ns (Frontier.push (nmap_candidate dir ds n) items)

  -- The seeds of nmap belong to the root.
  abbrev pub nmap_of : String → Words F → List NmapSeed
  nmap_of dir words = if str_eq dir "" then words.nmap_seeds else []

  unfoldable pub push_candidates : Policy F → Words F → String → DirState F → Scan F → Scan F
  unfolding push_entries push_seeds push_nmap templates store
  push_candidates policy words dir ds s =
      let cs = templates words dir ds in
      let (left, items) = push_entries policy cs ds.pending_seeds s.frontier in
      let seeded = push_seeds policy left items in
      let nmap = nmap_of dir words in
      let total = length cs + length left + length nmap in
      let base = record ds {
        pending_seeds = [];
        known_paths =
            map (λ (n : NmapSeed). n.path) nmap
            ++ map (λ (e : String × Candidate F). e.0) left
            ++ map (λ (c : Candidate F). c.path) cs;
        candidates_total = total;
      } in
      if total == 0
      then record s {
        dirs = store dir (record base { state = dir_done }) s.dirs;
        frontier = seeded;
      }
      else record s {
        dirs =
            store dir
              (record base {
                budget =
                    if ltb 0 policy.per_dir_budget
                    then policy.per_dir_budget + length left + length nmap
                    else total;
              })
              s.dirs;
        frontier = push_nmap dir ds nmap seeded;
      }
