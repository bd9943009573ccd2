-- ===== src/Engine/Coordinator.antt =====
-- The state of internal/engine/coordinator.go that its scheduling reads and writes, and the
-- policy that it asks: scope, overrides, scores and budgets. The scores (scoreCandidate) are an
-- argument, since the scheduling gives the same guarantees for all of them.
pub mod Dispatch
pub mod Conserved
pub mod Popped
pub mod Template
pub mod Calibrating
pub mod Novelty
pub mod Traps
pub mod Seeds
pub mod Staged
pub mod Calibrated
pub mod Results
pub mod Accounted
pub mod Paths
pub mod Planted
pub mod Capped
pub mod Runs
pub mod Finish
pub mod Control
mod Tests
pub mod Dispatched
pub mod Handed
use smart_buster.Prelude.{
  ℕ, zero, suc, ◌+◌, Bool, true, false, not, ◌&&◌, ◌||◌, Option, none, some, List, [], ◌∷◌, ◌++◌,
  String, str_eq, str_append, ltb, leb, ◌==◌, if◌then◌else◌, length, count_if,
}
use smart_buster.Signature.{ResponseSignature}
use smart_buster.Engine.Types.{Candidate, WorkItem}
use smart_buster.Engine.Frontier.{Frontier}
use smart_buster.Engine.Events.{EventType}

pub data DirLifecycle : Type 0 where
  dir_calibrating dir_scanning dir_done : DirLifecycle

pub record DirState (F : Type 0) : Type 0 where
  pub path : String
  pub depth : ℕ
  pub state : DirLifecycle
  pub branch_start : ℕ
  pub probe_queue : List (WorkItem F)
  pub probes_done : ℕ
  pub probes_total : ℕ
  pub probe_results : List ResponseSignature
  pub candidates_total : ℕ
  pub candidates_accounted_for : ℕ
  pub requests_dispatched : ℕ
  pub budget : ℕ
  pub wildcard_suspect : Bool
  pub capped : Bool
  pub budget_pruned : Bool
  pub recent_hits : List Bool
  pub recent_elapsed : List ℕ
  pub baseline_elapsed_median : ℕ
  -- nil and the empty map read alike
  pub known_paths : List String
  pub pending_seeds : List (String × Candidate F)

-- A map of Go with string keys: the first entry of a key is its value.
abbrev pub Dirs : Type 0 → Type 0
Dirs F = List (String × DirState F)

module _ {ℓ} {V : Type ℓ} where
  unfoldable pub lookup : String → List (String × V) → Option V
  lookup k [] = none
  lookup k (e ∷ es) = let rest = lookup k es in if str_eq e.0 k then some e.1 else rest

  -- `m[k] = v`
  unfoldable pub store : String → V → List (String × V) → List (String × V)
  store k v [] = (k, v) ∷ []
  store k v (e ∷ es) = let rest = store k v es in if str_eq e.0 k then (k, v) ∷ es else e ∷ rest

  -- `delete(m, k)`, for a map without a second entry of the key
  unfoldable pub delete : String → List (String × V) → List (String × V)
  delete k [] = []
  delete k (e ∷ es) = let rest = delete k es in if str_eq e.0 k then es else e ∷ rest

unfoldable pub contains : String → List String → Bool
contains k [] = false
contains k (s ∷ ss) = str_eq s k || contains k ss

pub data OverrideKind : Type 0 where
  ov_boost ov_demote ov_exclude : OverrideKind

pub record Override (F : Type 0) : Type 0 where
  pub pattern : String
  pub kind : OverrideKind
  pub factor : F

-- What the scheduling asks: the scope, the match of an override's pattern with a directory and
-- a path, the score of a candidate, the union of two provenances, and the knobs of the
-- configuration.
pub record Policy (F : Type 0) : Type 0 where
  pub target : String
  pub in_scope : String → Bool
  pub matches : String → String → String → Bool
  pub score : Candidate F → F
  pub union_provenance : String → String → String
  pub subtree_burst : ℕ
  pub epsilon : F
  pub order_jitter : Bool
  pub max_depth : ℕ
  -- 0 stands for the default, the number of the directory's candidates
  pub per_dir_budget : ℕ
  -- nanoseconds; 0 switches the limit per branch off
  pub request_timeout : ℕ
  pub time_per_branch : ℕ
  pub learn_min_conf : F

pub record Scan (F : Type 0) : Type 0 where
  pub frontier : Frontier F
  pub dirs : Dirs F
  pub overrides : List (Override F)
  pub calibrating_order : List String
  pub harvest_fetch_queue : List (WorkItem F)
  pub last_dispatch_dir : String
  pub dispatch_streak : ℕ

module _ {F : Type 0} where
  unfoldable pub is_excluded : Policy F → List (Override F) → String → String → Bool
  is_excluded policy [] dir path = false
  is_excluded policy (ov ∷ ovs) dir path =
      elim ov.kind [ ov_exclude ↦ policy.matches ov.pattern dir path | _ ↦ false ]
      || is_excluded policy ovs dir path

  -- `c.target + dir + "/" + path`
  abbrev pub url_of : Policy F → String → String → String
  url_of policy dir path = str_append (str_append (str_append policy.target dir) "/") path

  unfoldable pub maybe_finish_dir : DirState F → DirState F
  maybe_finish_dir ds =
      if leb ds.candidates_total ds.candidates_accounted_for
      then record ds { state = dir_done }
      else ds

  -- `ds.candidatesAccountedFor++` and maybeFinishDir
  unfoldable pub account : DirState F → DirState F
  unfolding maybe_finish_dir
  account ds =
      maybe_finish_dir (record ds { candidates_accounted_for = ds.candidates_accounted_for + 1 })

  unfoldable pub record_dispatch : String → Scan F → Scan F
  record_dispatch dir s =
      if str_eq dir s.last_dispatch_dir
      then record s { dispatch_streak = s.dispatch_streak + 1 }
      else record s { last_dispatch_dir = dir; dispatch_streak = 1 }
