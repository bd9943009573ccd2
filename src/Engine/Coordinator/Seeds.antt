-- ===== src/Engine/Coordinator/Seeds.antt =====
-- How a candidate that turns up during the scan reaches its directory: enqueueGenerated of
-- internal/engine/dynamic.go, stageDirCandidate and mergeOrEnqueueGenerated of
-- internal/engine/seed.go, applyExclude of internal/engine/control.go.
use smart_buster.Prelude.{
  ◌+◌, Bool, true, false, ◌||◌, Option, none, some, List, [], ◌∷◌, ◌++◌, String, if◌then◌else◌,
}
use smart_buster.Prelude.Float.{Float}
use smart_buster.Engine.Types.{Candidate}
use smart_buster.Engine.Frontier
use smart_buster.Engine.Frontier.{Frontier}
use smart_buster.Engine.Coordinator.{
  DirLifecycle, dir_calibrating, dir_scanning, dir_done, DirState, Dirs, lookup, store, contains,
  Policy, Scan, ov_exclude, account,
}

abbrev pub is_done : DirLifecycle → Bool
is_done dir_done = true
is_done _ = false

module _ {F : Type 0} ⦃f : Float F⦄ where
  -- The directory with one more candidate
  unfoldable pub grow : String → DirState F → DirState F
  grow path ds = record ds {
    known_paths = path ∷ ds.known_paths;
    candidates_total = ds.candidates_total + 1;
    budget = ds.budget + 1;
  }

  -- The candidate as it is pushed
  unfoldable pub scored : Policy F → DirState F → Candidate F → Candidate F
  scored policy ds c =
      let deeper : Candidate F = record c { depth = ds.depth + 1 } in
      record deeper { score = policy.score deeper }

  unfoldable pub enqueue_in :
      Policy F → String → Candidate F → Scan F → Option (DirState F) → Bool × Scan F
  unfolding grow scored store
  enqueue_in policy dir c s none = (false, s)
  enqueue_in policy dir c s (some ds) =
      if is_done ds.state || contains c.path ds.known_paths then (false, s) else (
        true,
        record s {
          dirs = store dir (grow c.path ds) s.dirs;
          frontier = Frontier.push (scored policy ds c) s.frontier;
        },
      )

  unfoldable pub enqueue_generated : Policy F → String → Candidate F → Scan F → Bool × Scan F
  unfolding enqueue_in lookup
  enqueue_generated policy dir c s = enqueue_in policy dir c s (lookup dir s.dirs)

  -- The greater priority, the union of the provenances, and the score that they give
  unfoldable pub merge_into : Policy F → Candidate F → Candidate F → Candidate F
  merge_into policy c existing =
      let merged : Candidate F = record existing {
        base_prio = if f.lt existing.base_prio c.base_prio then c.base_prio else existing.base_prio;
        provenance = policy.union_provenance existing.provenance c.provenance;
      } in
      record merged { score = policy.score merged }

  unfoldable pub merge_in :
      Policy F → String → Candidate F → Scan F → Option (DirState F) → Bool × Scan F
  unfolding enqueue_in merge_into
  merge_in policy dir c s none = enqueue_in policy dir c s none
  merge_in policy dir c s (some ds) =
      if contains c.path ds.known_paths
      then (
        false,
        record s {
          frontier = (Frontier.update_matching dir c.path (merge_into policy c) s.frontier).1;
        },
      )
      else enqueue_in policy dir c s (some ds)

  unfoldable pub merge_or_enqueue_generated :
      Policy F → String → Candidate F → Scan F → Bool × Scan F
  unfolding merge_in lookup
  merge_or_enqueue_generated policy dir c s = merge_in policy dir c s (lookup dir s.dirs)

  -- A seed that waits for its directory's baseline
  unfoldable pub pend : Policy F → Candidate F → DirState F → DirState F
  unfolding lookup store
  pend policy c ds = record ds {
    pending_seeds = elim (lookup c.path ds.pending_seeds) [
      | none ↦ store c.path c ds.pending_seeds
      | some existing ↦
          store c.path
            (record existing {
              base_prio =
                  if f.lt existing.base_prio c.base_prio then c.base_prio else existing.base_prio;
              provenance = policy.union_provenance existing.provenance c.provenance;
            })
            ds.pending_seeds
    ];
  }

  -- The tentative reopening of a finished directory: closed again if nothing was added
  unfoldable pub reopen : Policy F → String → Candidate F → Scan F → DirState F → Scan F
  unfolding merge_in store
  reopen policy dir c s ds =
      let opened : DirState F = record ds { state = dir_scanning } in
      let (added, t) =
        merge_in policy dir c (record s { dirs = store dir opened s.dirs }) (some opened) in
      if added then t else record t { dirs = store dir ds t.dirs }

  unfoldable pub stage_at :
      Policy F → String → Candidate F → Scan F → DirState F → DirLifecycle → Scan F
  unfolding reopen merge_in pend store
  stage_at policy dir c s ds dir_done = reopen policy dir c s ds
  stage_at policy dir c s ds dir_scanning = (merge_in policy dir c s (some ds)).1
  stage_at policy dir c s ds dir_calibrating = record s {
    dirs = store dir (pend policy c ds) s.dirs;
  }

  unfoldable pub stage_in : Policy F → String → Candidate F → Scan F → Option (DirState F) → Scan F
  unfolding stage_at
  stage_in policy dir c s none = s
  stage_in policy dir c s (some ds) = stage_at policy dir c s ds ds.state

  unfoldable pub stage_dir_candidate : Policy F → String → Candidate F → Scan F → Scan F
  unfolding stage_in lookup
  stage_dir_candidate policy dir c s = stage_in policy dir c s (lookup dir s.dirs)

  -- `ds.candidatesAccountedFor++` and maybeFinishDir, if the directory exists
  unfoldable pub account_in : String → Dirs F → Option (DirState F) → Dirs F
  unfolding account store
  account_in dir dirs none = dirs
  account_in dir dirs (some ds) = store dir (account ds) dirs

  unfoldable pub account_all : List (Candidate F) → Dirs F → Dirs F
  unfolding account_in lookup
  account_all [] dirs = dirs
  account_all (c ∷ cs) dirs =
      account_all cs (account_in c.parent_dir dirs (lookup c.parent_dir dirs))

  unfoldable pub apply_exclude : Policy F → String → Scan F → Scan F
  unfolding account_all
  apply_exclude policy pattern s =
      let (removed, rest) =
        Frontier.remove_matching (λ c. policy.matches pattern c.parent_dir c.path) s.frontier in
      record s {
        overrides =
            s.overrides ++ record { pattern = pattern; kind = ov_exclude; factor = f.lit 0 1 } ∷ [];
        frontier = rest;
        dirs = account_all removed s.dirs;
      }
