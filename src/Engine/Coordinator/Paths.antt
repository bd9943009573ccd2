-- ===== src/Engine/Coordinator/Paths.antt =====
-- Seeds as paths in internal/engine/seed.go: enqueueSeed, seedAncestorDirs, ensureDirChain,
-- isHarvestProvenance, applySeedBatch and capBatch. The warnings are not modelled.
use smart_buster.Prelude.{
  ℕ, ◌+◌, Bool, true, false, ◌||◌, none, some, List, [], ◌∷◌, String, str_append, str_eq, ltb,
  if◌then◌else◌, length,
}
use smart_buster.Prelude.Float.{Float}
use smart_buster.Prelude.Sort.{sort_by}
use smart_buster.Prelude.Text.{split, trim, has_substring, trim_prefix}
use smart_buster.Seed.{Seed}
use smart_buster.Engine.Types.{Candidate, type_dir, type_file}
use smart_buster.Engine.Coordinator.{Dirs, lookup, contains, Policy, Scan}
use smart_buster.Engine.Coordinator.Seeds.{stage_dir_candidate}
use smart_buster.Engine.Coordinator.Template.{Words}
use smart_buster.Engine.Coordinator.Results.{enqueue_child_directory}

-- The loop over all segments but the last
unfoldable pub ancestors_from : String → List String → List String
ancestors_from dir [] = []
ancestors_from dir (segment ∷ []) = []
ancestors_from dir (segment ∷ next ∷ rest) =
    let child = str_append (str_append dir "/") segment in
    child ∷ ancestors_from child (next ∷ rest)

unfoldable pub seed_ancestor_dirs : String → List String
unfolding ancestors_from split
seed_ancestor_dirs path = ancestors_from "" (split b'/' path)

unfoldable pub is_harvest_provenance : String → Bool
unfolding has_substring
is_harvest_provenance provenance =
    has_substring provenance "crawl:" || has_substring provenance "headless"

abbrev pub last_or : String → List String → String
last_or d [] = d
last_or d (s ∷ ss) = last_or s ss

-- harvest.MaxNewDirsPerBatch
abbrev pub max_new_dirs_per_batch : ℕ
max_new_dirs_per_batch = 500

module _ {F : Type 0} ⦃f : Float F⦄ where
  unfoldable pub ensure_dir_chain :
      Policy F
      → Words F
      → ℕ
      → (String → List String)
      → List String
      → ℕ
      → String
      → F
      → String
      → Scan F
      → Scan F
  unfolding enqueue_child_directory stage_dir_candidate trim_prefix
  ensure_dir_chain policy words now tokens [] i parent prio provenance s = s
  ensure_dir_chain policy words now tokens (d ∷ ds) i parent prio provenance s =
      let opened = enqueue_child_directory policy words d (i + 1) parent now (tokens d) s in
      let staged =
        stage_dir_candidate policy parent
          (record {
            path = trim_prefix d (str_append parent "/");
            kind = type_dir;
            base_prio = prio;
            score = f.lit 0 1;
            depth = i + 1;
            parent_dir = parent;
            provenance = provenance;
            tags = "generic" ∷ [];
          })
          opened in
      ensure_dir_chain policy words now tokens ds (i + 1) d prio provenance staged

  abbrev pub seed_candidate : Seed F → List String → String → Candidate F
  seed_candidate sd segments dir = record {
    path = last_or "" segments;
    kind = if sd.is_dir_hint then type_dir else type_file;
    base_prio = sd.base_prio;
    score = f.lit 0 1;
    depth = length segments;
    parent_dir = dir;
    provenance = sd.provenance;
    tags = "generic" ∷ [];
  }

  -- The caps on the depth are policy.max_depth and, for harvested seeds, `crawl_depth`.
  unfoldable pub enqueue_seed :
      Policy F → Words F → ℕ → ℕ → (String → List String) → Seed F → Scan F → Scan F
  unfolding trim split is_harvest_provenance seed_ancestor_dirs ensure_dir_chain stage_dir_candidate
  enqueue_seed policy words crawl_depth now tokens sd s =
      let path = trim b'/' sd.path in
      let segments = split b'/' path in
      let max_depth =
        if is_harvest_provenance sd.provenance then crawl_depth else policy.max_depth in
      let ancestors = seed_ancestor_dirs path in
      let dir = last_or "" ancestors in
      if str_eq path ""
      then s
      else if ltb max_depth (length segments)
      then s
      else if policy.in_scope (str_append (str_append policy.target "/") path)
      then stage_dir_candidate policy dir (seed_candidate sd segments dir)
          (ensure_dir_chain policy words now tokens ancestors 0 "" sd.base_prio sd.provenance s)
      else s

  abbrev pub is_new : Dirs F → List String → String → Bool
  is_new dirs new_dirs d =
      if contains d new_dirs then false else elim (lookup d dirs) [ none ↦ true | some ds ↦ false ]

  -- The set of the directories that a seed asks for and that do not exist yet
  unfoldable pub add_new : Dirs F → List String → List String → List String
  unfolding lookup contains
  add_new dirs [] new_dirs = new_dirs
  add_new dirs (d ∷ ds) new_dirs =
      add_new dirs ds (if is_new dirs new_dirs d then d ∷ new_dirs else new_dirs)

  abbrev pub new_dirs_of : Dirs F → Seed F → List String → List String
  new_dirs_of dirs sd new_dirs = add_new dirs (seed_ancestor_dirs (trim b'/' sd.path)) new_dirs

  unfoldable pub cap_from : Dirs F → List String → List (Seed F) → List (Seed F)
  unfolding add_new seed_ancestor_dirs trim
  cap_from dirs new_dirs [] = []
  cap_from dirs new_dirs (sd ∷ sds) =
      let grown = new_dirs_of dirs sd new_dirs in
      let rest = cap_from dirs grown sds in
      if ltb max_new_dirs_per_batch (length grown) then [] else sd ∷ rest

  abbrev pub by_prio : Seed F → Seed F → Bool
  by_prio a b = f.lt b.base_prio a.base_prio

  unfoldable pub cap_batch : Dirs F → List (Seed F) → List (Seed F)
  unfolding cap_from sort_by
  cap_batch dirs seeds = cap_from dirs [] (sort_by by_prio seeds)

  unfoldable pub enqueue_seeds :
      Policy F → Words F → ℕ → ℕ → (String → List String) → List (Seed F) → Scan F → Scan F
  unfolding enqueue_seed
  enqueue_seeds policy words crawl_depth now tokens [] s = s
  enqueue_seeds policy words crawl_depth now tokens (sd ∷ sds) s =
      enqueue_seeds policy words crawl_depth now tokens sds
        (enqueue_seed policy words crawl_depth now tokens sd s)

  unfoldable pub apply_seed_batch :
      Policy F → Words F → ℕ → ℕ → (String → List String) → List (Seed F) → Scan F → Scan F
  unfolding enqueue_seeds cap_batch
  apply_seed_batch policy words crawl_depth now tokens seeds s =
      enqueue_seeds policy words crawl_depth now tokens (cap_batch s.dirs seeds) s
