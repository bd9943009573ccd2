-- ===== src/Engine/Session.antt =====
-- Save and resume of internal/engine/session.go: buildSnapshot, restoreSnapshot and
-- NewCoordinatorFromSnapshot, for the state that the scheduling, the findings and the backoff
-- use. The learners have their own snapshots. A JSON file gives back what it was written from.
-- The coordinator that NewCoordinator makes of the saved configuration is an argument.
mod Restored
mod Resumed
mod Stalls
mod Tests
use smart_buster.Prelude.{
  ℕ, Bool, true, false, Option, none, some, List, [], ◌∷◌, map, String, str_eq, ◌==◌, if◌then◌else◌,
}
use smart_buster.Prelude.Float.{Float}
use smart_buster.HttpClient.Limiter.{Limiter, aimd_state, set_aimd_state}
use smart_buster.Engine.Types.{Candidate}
use smart_buster.Engine.Backoff.{WafSample}
use smart_buster.Engine.Frontier
use smart_buster.Engine.Frontier.{Frontier}
use smart_buster.Engine.Coordinator.{
  DirLifecycle, dir_calibrating, dir_scanning, dir_done, DirState, Dirs, store, Policy, Scan,
}
use smart_buster.Engine.Coordinator.Calibrating.{new_dir, start_calibration}
use smart_buster.Engine.Coordinator.Template.{Words}
use smart_buster.Engine.Coordinator.Novelty.{Found}

abbrev pub session_version : ℕ
session_version = 1

pub record DirSnapshot : Type 0 where
  pub path : String
  pub depth : ℕ
  pub state : String
  pub branch_start : ℕ
  pub candidates_total : ℕ
  pub candidates_accounted_for : ℕ
  pub requests_dispatched : ℕ
  pub budget : ℕ
  pub wildcard_suspect : Bool
  pub capped : Bool
  pub budget_pruned : Bool
  pub known_paths : List String

pub record SessionState (F : Type 0) : Type 0 where
  pub version : ℕ
  pub frontier : List (Candidate F)
  pub dirs : List DirSnapshot
  pub found : Found F
  pub waf_ring : List WafSample
  pub aimd : F × ℕ × Bool

-- The part of the coordinator that a session keeps
pub record Engine (F : Type 0) : Type 0 where
  pub scan : Scan F
  pub found : Found F
  pub waf_ring : List WafSample
  pub limiter : Limiter F

abbrev pub state_name : DirLifecycle → String
state_name dir_calibrating = "calibrating"
state_name dir_scanning = "scanning"
state_name dir_done = "done"

abbrev pub is_calibrating : DirSnapshot → Bool
is_calibrating d = str_eq d.state "calibrating"

module _ {F : Type 0} where
  abbrev pub snapshot_dir : String × DirState F → DirSnapshot
  snapshot_dir e =
      let ds = e.1 in
      record {
        path = e.0;
        depth = ds.depth;
        state = state_name ds.state;
        branch_start = ds.branch_start;
        candidates_total = ds.candidates_total;
        candidates_accounted_for = ds.candidates_accounted_for;
        requests_dispatched = ds.requests_dispatched;
        budget = ds.budget;
        wildcard_suspect = ds.wildcard_suspect;
        capped = ds.capped;
        budget_pruned = ds.budget_pruned;
        known_paths = ds.known_paths;
      }

module _ {F : Type 0} ⦃f : Float F⦄ where
  unfoldable pub build_snapshot : Engine F → SessionState F
  unfolding aimd_state
  build_snapshot c = record {
    version = session_version;
    frontier = c.scan.frontier;
    dirs = map snapshot_dir c.scan.dirs;
    found = c.found;
    waf_ring = c.waf_ring;
    aimd = aimd_state c.limiter;
  }

  -- What a snapshot does not name has Go's zero value.
  unfoldable pub restored : DirSnapshot → DirState F
  restored d = record (new_dir d.path d.depth d.branch_start []) {
    state = if str_eq d.state "done" then dir_done else dir_scanning;
    candidates_total = d.candidates_total;
    candidates_accounted_for = d.candidates_accounted_for;
    requests_dispatched = d.requests_dispatched;
    budget = d.budget;
    wildcard_suspect = d.wildcard_suspect;
    capped = d.capped;
    budget_pruned = d.budget_pruned;
    known_paths = d.known_paths;
  }

  unfoldable pub restore_dirs : List DirSnapshot → Dirs F → Dirs F
  unfolding restored store
  restore_dirs [] dirs = dirs
  restore_dirs (d ∷ ds) dirs =
      restore_dirs ds (if is_calibrating d then dirs else store d.path (restored d) dirs)

  unfoldable pub push_all : List (Candidate F) → Frontier F → Frontier F
  push_all [] items = items
  push_all (c ∷ cs) items = push_all cs (Frontier.push c items)

  -- The directories that were calibrated when the session was saved start anew. The random
  -- tokens of a directory are a function of the seed and of the directory (dirRand).
  unfoldable pub recalibrate :
      Policy F → Words F → (String → List String) → List DirSnapshot → Scan F → Scan F
  unfolding start_calibration
  recalibrate policy words tokens [] s = s
  recalibrate policy words tokens (d ∷ ds) s = recalibrate policy words tokens ds (
      if is_calibrating d
      then start_calibration policy words d.path d.depth d.branch_start (tokens d.path) s
      else s)

  unfoldable pub restore_snapshot :
      Policy F → Words F → (String → List String) → Engine F → SessionState F → Engine F
  unfolding restore_dirs push_all recalibrate set_aimd_state
  restore_snapshot policy words tokens c state =
      let loaded : Scan F = record c.scan {
        frontier = push_all state.frontier Frontier.new_frontier;
        dirs = restore_dirs state.dirs [];
      } in
      record {
        scan = recalibrate policy words tokens state.dirs loaded;
        found = state.found;
        waf_ring = state.waf_ring;
        limiter = set_aimd_state state.aimd c.limiter;
      }

  -- `fresh` is the coordinator that NewCoordinator makes, or none for its error.
  unfoldable pub new_coordinator_from_snapshot :
      Policy F
      → Words F
      → (String → List String)
      → Option (Engine F)
      → SessionState F
      → Option (Engine F)
  unfolding restore_snapshot
  new_coordinator_from_snapshot policy words tokens fresh state =
      if state.version == session_version
      then elim fresh [ none ↦ none | some c ↦ some (restore_snapshot policy words tokens c state) ]
      else none
