-- ===== src/Engine/Coordinator/Calibrating.antt =====
-- The calibration of a directory in internal/engine/coordinator.go: startCalibration, collectProbe
-- and finishCalibration. What refines the root's profile, and the pivot for
-- single-page applications, are not modelled; the random tokens of the probes are arguments.
use smart_buster.Prelude.{
  ℕ, ◌+◌, ◌/◌, true, false, Option, none, some, List, [], ◌∷◌, ◌++◌, map, String, str_eq, ltb, leb,
  ◌==◌, if◌then◌else◌, length,
}
use smart_buster.Prelude.Float.{Float}
use smart_buster.Prelude.Sort.{sort_by}
use smart_buster.Heap.{get_or}
use smart_buster.Signature.{ResponseSignature}
use smart_buster.Engine.Types.{type_dir}
use smart_buster.Engine.Coordinator.{
  WorkItem, dir_calibrating, dir_scanning, DirState, lookup, store, Policy, Scan, url_of,
}
use smart_buster.Engine.Coordinator.Template.{Words, push_candidates}

-- medianDuration: the upper median of the sorted values, 0 for none
unfoldable pub median_duration : List ℕ → ℕ
unfolding sort_by
median_duration vals = get_or (sort_by ltb vals) (length vals / 2) 0

unfoldable pub remove_dir : String → List String → List String
remove_dir dir [] = []
remove_dir dir (d ∷ ds) = let rest = remove_dir dir ds in if str_eq d dir then ds else d ∷ rest

module _ {F : Type 0} ⦃f : Float F⦄ where
  -- The directory with its baseline
  unfoldable pub calibrated : DirState F → DirState F
  unfolding median_duration
  calibrated ds = record ds {
    state = dir_scanning;
    baseline_elapsed_median =
        median_duration (map (λ (p : ResponseSignature). p.elapsed) ds.probe_results);
  }

  unfoldable pub finish_calibration : Policy F → Words F → String → DirState F → Scan F → Scan F
  unfolding push_candidates calibrated remove_dir
  finish_calibration policy words dir ds s =
      push_candidates policy words dir (calibrated ds)
        (record s { calibrating_order = remove_dir dir s.calibrating_order })

  -- The probes of a directory: those of its tokens whose address is in scope
  unfoldable pub probes : Policy F → String → ℕ → List String → List (WorkItem F)
  probes policy dir depth [] = []
  probes policy dir depth (token ∷ tokens) =
      let rest = probes policy dir depth tokens in
      if policy.in_scope (url_of policy dir token)
      then record {
        candidate = record {
          path = token;
          kind = type_dir;
          base_prio = f.lit 0 1;
          score = f.lit 0 1;
          depth = depth;
          parent_dir = dir;
          provenance = "probe";
          tags = [];
        };
        url = url_of policy dir token;
        is_probe = true;
        probe_tag = dir;
        is_harvest_fetch = false;
      }
        ∷ rest
      else rest

  abbrev pub new_dir : String → ℕ → ℕ → List (WorkItem F) → DirState F
  new_dir dir depth branch_start queue = record {
    path = dir;
    depth = depth;
    state = dir_calibrating;
    branch_start = branch_start;
    probe_queue = queue;
    probes_done = 0;
    probes_total = length queue;
    probe_results = [];
    candidates_total = 0;
    candidates_accounted_for = 0;
    requests_dispatched = 0;
    budget = 0;
    wildcard_suspect = false;
    capped = false;
    budget_pruned = false;
    recent_hits = [];
    recent_elapsed = [];
    baseline_elapsed_median = 0;
    known_paths = [];
    pending_seeds = [];
  }

  -- The tokens come with their extensions, N_PROBES for each.
  unfoldable pub start_calibration :
      Policy F → Words F → String → ℕ → ℕ → List String → Scan F → Scan F
  unfolding probes finish_calibration store
  start_calibration policy words dir depth branch_start tokens s =
      let ds = new_dir dir depth branch_start (probes policy dir depth tokens) in
      let t = record s {
        dirs = store dir ds s.dirs;
        calibrating_order = s.calibrating_order ++ dir ∷ [];
      } in
      if ds.probes_total == 0 then finish_calibration policy words dir ds t else t

  -- finishCalibration of the root where the refined profile asks for more extensions: the
  -- calibration is started anew, and the seeds that waited for it are gone.
  unfoldable pub restart_calibration :
      Policy F → Words F → String → List String → Scan F → DirState F → Scan F
  unfolding start_calibration remove_dir
  restart_calibration policy words dir tokens s ds =
      start_calibration policy words dir ds.depth ds.branch_start tokens
        (record s { calibrating_order = remove_dir dir s.calibrating_order })

  abbrev pub count_probe : Option ResponseSignature → DirState F → DirState F
  count_probe signature ds = record ds {
    probes_done = ds.probes_done + 1;
    probe_results = elim signature [
      | none ↦ ds.probe_results
      | some p ↦ ds.probe_results ++ p ∷ []
    ];
  }

  unfoldable pub collect_in :
      Policy F → Words F → String → Option ResponseSignature → Scan F → DirState F → Scan F
  unfolding finish_calibration store
  collect_in policy words dir signature s ds =
      let counted = count_probe signature ds in
      if leb counted.probes_total counted.probes_done
      then finish_calibration policy words dir counted s
      else record s { dirs = store dir counted s.dirs }

  unfoldable pub collect_probe :
      Policy F → Words F → String → Option ResponseSignature → Scan F → Scan F
  unfolding collect_in lookup
  collect_probe policy words dir signature s = elim (lookup dir s.dirs) [
    | none ↦ s
    | some ds ↦ collect_in policy words dir signature s ds
  ]
