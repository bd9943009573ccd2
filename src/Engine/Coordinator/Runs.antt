-- ===== src/Engine/Coordinator/Runs.antt =====
-- The events that dispatchLoop of internal/engine/coordinator.go handles, as steps of a run. The
-- run keeps, beside the coordinator's state, the frontier's candidates that are in flight. The
-- events that touch neither (statistics, snapshots, the recovery timer, the result of a fetch) are
-- no steps. A pause and the limit of workers only hold back ticks, which a run need not take. The
-- score of the policy is any function of a candidate, one for the whole run.
use smart_buster.Prelude.{
  ℕ, ◌+◌, Bool, not, ◌&&◌, inl, inr, ◌≡◌, Option, none, some, List, [], ◌∷◌, ◌++◌, String, arith,
  if◌then◌else◌, count_if, count_if-append,
}
use smart_buster.Prelude.Float.{Float, IsOrdered}
use smart_buster.Signature.{ResponseSignature}
use smart_buster.Engine.Types.{Candidate, WorkItem}
use smart_buster.Engine.Coordinator.{dir_calibrating, DirState, lookup, Override, Policy, Scan}
use smart_buster.Engine.Coordinator.Dispatch.{Draw, Outcome, next_dispatchable}
use smart_buster.Engine.Coordinator.Seeds.{stage_dir_candidate}
use smart_buster.Engine.Coordinator.Calibrating.{collect_in, start_calibration, restart_calibration}
use smart_buster.Engine.Coordinator.Template.{Words}
use smart_buster.Engine.Coordinator.Results.{Response, handle_real, settle_result}
use smart_buster.Engine.Coordinator.Novelty.{Found}
use smart_buster.Engine.Coordinator.Conserved.{IsConserved-same, in_dir}
use smart_buster.Engine.Coordinator.Dispatched.{IsKept}
use smart_buster.Engine.Coordinator.Handed.{
  none_left, probe_waits, IsHanded, next_dispatchable-IsHanded,
}
use smart_buster.Engine.Coordinator.Staged.{
  waiting, IsBooked, stage_dir_candidate-IsBooked, accounted-IsConserved,
}
use smart_buster.Engine.Coordinator.Calibrated.{
  AllIn, collect_probe-IsBooked, start_calibration-IsBooked, restart_calibration-IsBooked,
}
use smart_buster.Seed.{Seed}
use smart_buster.Engine.Coordinator.Control.{ControlCmd, Controlled, apply_control}
use smart_buster.Engine.Coordinator.Control.Kept.{apply_control-IsBooked}
use smart_buster.Engine.Coordinator.Paths.{apply_seed_batch}
use smart_buster.Engine.Coordinator.Planted.{apply_seed_batch-IsBooked}
use smart_buster.Engine.Coordinator.Accounted.{AllUnder, handle_real-IsBooked}

pub record Run (F : Type 0) : Type 0 where
  pub scan : Scan F
  pub found : Found F
  pub flying : List (Candidate F)

-- The state before the root is calibrated
abbrev pub blank : (F : Type 0) → Run F
blank F = record {
  scan = record {
    frontier = [];
    dirs = [];
    overrides = [];
    calibrating_order = [];
    harvest_fetch_queue = [];
    last_dispatch_dir = "";
    dispatch_streak = 0;
  };
  found = record { seen_content = []; findings = [] };
  flying = [];
}

module _ {F : Type 0} ⦃f : Float F⦄ where
  abbrev pub in_flight : List (Candidate F) → String → ℕ
  in_flight flying d = count_if (in_dir d) flying

  abbrev pub launch : Option (WorkItem F) → List (Candidate F) → List (Candidate F)
  launch none flying = flying
  launch (some item) flying = item.candidate ∷ flying

  -- Whether nextDispatchable comes to the frontier: what it hands out before is no candidate.
  abbrev pub is_frontier_turn : Scan F → Bool
  is_frontier_turn s = not (probe_waits s) && none_left s.harvest_fetch_queue

  -- nextDispatchable and the hand-over to a worker
  unfoldable pub dispatched : Policy F → (ℕ → Draw F) → Run F → Run F
  unfolding next_dispatchable
  dispatched policy draws r =
      let (item, t, events) = next_dispatchable policy draws r.scan in
      record r {
        scan = t;
        flying = if is_frontier_turn r.scan then launch item r.flying else r.flying;
      }

module _ {F : Type 0} ⦃f : Float F⦄ ⦃o : IsOrdered F⦄ where
  pub data Step (policy : Policy F) (words : Words F) : Run F → Run F → Type 0 where
    -- the pacer's tick
    tick : (draws : ℕ → Draw F) (r : Run F) → Step policy words r (dispatched policy draws r)
    -- the response to one of the candidates in flight
    respond :
        (s : Scan F) (found : Found F) (early late : List (Candidate F)) (a : Response F)
        → AllUnder a.item.candidate.parent_dir a.generated
        → Step policy words
            (record { scan = s; found = found; flying = early ++ a.item.candidate ∷ late })
            (record {
              scan = (handle_real policy words a s found).0;
              found = (handle_real policy words a s found).1;
              flying = early ++ late;
            })
    -- the error of one of the candidates in flight
    fail :
        (s : Scan F) (found : Found F) (early late : List (Candidate F)) (c : Candidate F)
        → Step policy words
            (record { scan = s; found = found; flying = early ++ c ∷ late })
            (record { scan = settle_result c.parent_dir s; found = found; flying = early ++ late })
    -- the result of a probe of a directory that is calibrated, whose seeds stand under it
    probed :
        (r : Run F) (dir : String) (signature : Option ResponseSignature) (ds : DirState F)
        → lookup dir r.scan.dirs ≡ some ds
        → ds.state ≡ dir_calibrating
        → AllIn dir ds.pending_seeds
        → Step policy words r (record r { scan = collect_in policy words dir signature r.scan ds })
    -- a seed's candidate
    seeded :
        (r : Run F) (c : Candidate F)
        → Step policy words r (record r { scan = stage_dir_candidate policy c.parent_dir c r.scan })
    -- a directory that is new
    opened :
        (r : Run F) (dir : String) (depth branch_start : ℕ) (tokens : List String)
        → lookup dir r.scan.dirs ≡ none
        → Step policy words r (record r {
          scan = start_calibration policy words dir depth branch_start tokens r.scan;
        })
    -- a batch of seeds from a harvest
    injected :
        (r : Run F) (crawl_depth now : ℕ) (tokens : String → List String) (seeds : List (Seed F))
        → Step policy words r
            (record r { scan = apply_seed_batch policy words crawl_depth now tokens seeds r.scan })
    -- the end of a calibration that is started anew
    recalibrated :
        (r : Run F) (dir : String) (tokens : List String) (ds : DirState F)
        → lookup dir r.scan.dirs ≡ some ds
        → ds.state ≡ dir_calibrating
        → Step policy words r
            (record r { scan = restart_calibration policy words dir tokens r.scan ds })
    -- a command of the user
    controlled :
        (rescore : List (Override F) → Candidate F → F) (crawl_depth now : ℕ)
        (tokens : String → List String) (cmd : ControlCmd F) (c : Controlled F) (found : Found F)
        (flying : List (Candidate F))
        → Step policy words
            (record { scan = c.scan; found = found; flying = flying })
            (record {
              scan = (apply_control rescore policy words crawl_depth now tokens cmd c).scan;
              found = found;
              flying = flying;
            })

  pub data Steps (policy : Policy F) (words : Words F) : Run F → Run F → Type 0 where
    done : (r : Run F) → Steps policy words r r
    next : (r s t : Run F) → Step policy words r s → Steps policy words s t → Steps policy words r t

  abbrev pub IsBookedRun : Run F → Type 0
  IsBookedRun r = IsBooked (in_flight r.flying) r.scan

  -- The books with candidates beside those in flight that no result will ever account for, as a
  -- resumed scan has them (Session)
  abbrev pub IsBookedWith : (String → ℕ) → Run F → Type 0
  IsBookedWith lost r = IsBooked (λ d. in_flight r.flying d + lost d) r.scan

  launched :
      (policy : Policy F) (r : Run F) (lost : String → ℕ) (out : Outcome F)
      → IsKept policy r.scan (λ d. in_flight r.flying d + lost d) out
      → IsBooked (λ d. in_flight (launch out.0 r.flying) d + lost d) out.1
  launched policy r lost (none, t, events) h = IsConserved-same t _ _ (λ d. omega arith) h.0
  launched policy r lost (some item, t, events) h = IsConserved-same t _ _ (λ d. omega arith) h.0

  lands :
      (early late : List (Candidate F)) (c : Candidate F) (d : String)
      → in_flight (early ++ c ∷ late) d
        ≡ in_flight (early ++ late) d + (if in_dir d c then 1 else 0)
  lands early late c d =
      omega
        (arith, count_if-append (in_dir d) early (c ∷ late), count_if-append (in_dir d) early late)

  handed :
      (policy : Policy F) (r : Run F) (lost : String → ℕ) (out : Outcome F)
      → IsBooked (λ d. in_flight r.flying d + lost d) r.scan
      → IsHanded policy r.scan (λ d. in_flight r.flying d + lost d) out
      → IsBooked
          (λ d.
            in_flight (if is_frontier_turn r.scan then launch out.0 r.flying else r.flying) d
            + lost d)
          out.1
  handed policy r lost out h (inl (waits, item, e, first, same, kept)) =
      rw waits (IsConserved-same out.1 _ _ (λ d. omega arith) kept)
  handed policy r lost out h (inr (inl (quiet, item, rest, queue, e, left))) =
      rw (left, queue, quiet) h
  handed policy r lost out h (inr (inr (quiet, idle, kept))) =
      rw (quiet, idle) (launched policy r lost out kept)

  Step-IsBookedWith :
      (policy : Policy F) (words : Words F) (lost : String → ℕ) (r s : Run F)
      → Step policy words r s
      → IsBookedWith lost r
      → IsBookedWith lost s
  unfolding dispatched settle_result
  Step-IsBookedWith policy words lost _ _ (tick draws r) h =
      handed policy r lost (next_dispatchable policy draws r.scan) h (
        next_dispatchable-IsHanded policy draws r.scan (λ d. in_flight r.flying d + lost d)
          (IsConserved-same r.scan _ _ (λ d. omega arith) h))
  Step-IsBookedWith policy words lost _ _ (respond s found early late a under) h =
      handle_real-IsBooked policy words a s found
        (λ d. in_flight (early ++ a.item.candidate ∷ late) d + lost d)
        (λ d. in_flight (early ++ late) d + lost d) h
        (λ d. omega (arith, lands early late a.item.candidate d)) under
  Step-IsBookedWith policy words lost _ _ (fail s found early late c) h =
      accounted-IsConserved c s.dirs
        (waiting s.frontier (λ d. in_flight (early ++ c ∷ late) d + lost d))
        (waiting s.frontier (λ d. in_flight (early ++ late) d + lost d)) h
        (λ d. omega (arith, lands early late c d))
  Step-IsBookedWith policy words lost _ _ (probed r dir signature ds at e inside) h =
      collect_probe-IsBooked policy words dir signature r.scan ds _ h at e inside
  Step-IsBookedWith policy words lost _ _ (seeded r c) h =
      stage_dir_candidate-IsBooked policy c r.scan _ h
  Step-IsBookedWith policy words lost _ _ (opened r dir depth branch_start tokens missing) h =
      start_calibration-IsBooked policy words dir depth branch_start tokens r.scan _ h missing
  Step-IsBookedWith policy words lost _ _ (injected r crawl_depth now tokens seeds) h =
      apply_seed_batch-IsBooked policy words crawl_depth now tokens seeds r.scan _ h
  Step-IsBookedWith policy words lost _ _ (recalibrated r dir tokens ds at e) h =
      restart_calibration-IsBooked policy words dir tokens r.scan ds _ h at e
  Step-IsBookedWith policy words lost _ _
        (controlled rescore crawl_depth now tokens cmd c found flying) h =
      apply_control-IsBooked rescore policy words crawl_depth now tokens cmd c _ h

  pub steps-IsBookedWith :
      (policy : Policy F) (words : Words F) (lost : String → ℕ) (r s : Run F)
      → Steps policy words r s
      → IsBookedWith lost r
      → IsBookedWith lost s
  steps-IsBookedWith policy words lost _ _ (done r) h = h
  steps-IsBookedWith policy words lost _ _ (next r s t first rest) h =
      steps-IsBookedWith policy words lost s t rest
        (Step-IsBookedWith policy words lost r s first h)

  -- In every run from a state whose books are in order they stay in order: a directory that is
  -- scanned or done counts the candidates that are accounted for, that wait and that are in
  -- flight; there are some of the latter two while it is scanned, and none before and after.
  pub steps-IsBookedRun :
      (policy : Policy F) (words : Words F) (r s : Run F)
      → Steps policy words r s
      → IsBookedRun r
      → IsBookedRun s
  steps-IsBookedRun policy words r s steps h =
      IsConserved-same s.scan _ _ (λ d. omega arith)
        (steps-IsBookedWith policy words (λ d. 0) r s steps
          (IsConserved-same r.scan _ _ (λ d. omega arith) h))
