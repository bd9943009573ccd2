-- ===== src/Engine/Coordinator/Results.antt =====
-- The result of a candidate in internal/engine/coordinator.go (handleReal, handleHit,
-- enqueueChildDirectory). What the learners generate (assoc.go) is an argument. The audit log, the WAF
-- ring (Engine.Backoff) and the harvest of links have no part in the scheduling.
use smart_buster.Prelude.{
  ℕ, Bool, ◌&&◌, Option, none, some, List, [], ◌∷◌, String, str_append, if◌then◌else◌,
}
use smart_buster.Prelude.Float.{Float}
use smart_buster.Signature.{ResponseSignature}
use smart_buster.Engine.Types.{Candidate, WorkItem}
use smart_buster.Engine.Coordinator.{DirState, lookup, store, Policy, Scan}
use smart_buster.Engine.Coordinator.Seeds.{enqueue_generated, account_in}
use smart_buster.Engine.Coordinator.Calibrating.{start_calibration}
use smart_buster.Engine.Coordinator.Template.{Words}
use smart_buster.Engine.Coordinator.Traps.{
  wildcard_window, tarpit_window, append_capped, is_directory, recurse_min_conf,
  check_wildcard_hit_rate, check_tarpit, within_limits, learnable_hit,
}
use smart_buster.Engine.Coordinator.Novelty.{Found, record_hit}

-- A response with what the classifier (Calibration), the clock, the random source and the
-- learners say of it
pub record Response (F : Type 0) : Type 0 where
  pub item : WorkItem F
  pub signature : ResponseSignature
  pub is_hit : Bool
  pub confidence : F
  pub is_spa : Bool
  pub now : ℕ
  pub tokens : List String
  pub generated : List (Candidate F)

module _ {F : Type 0} ⦃f : Float F⦄ where
  abbrev pub branch_start_of : ℕ → Option (DirState F) → ℕ
  branch_start_of now none = now
  branch_start_of now (some ds) = ds.branch_start

  unfoldable pub enqueue_child :
      Policy F → Words F → String → ℕ → ℕ → List String → Scan F → Option (DirState F) → Scan F
  unfolding start_calibration
  enqueue_child policy words child depth branch_start tokens s (some ds) = s
  enqueue_child policy words child depth branch_start tokens s none =
      start_calibration policy words child depth branch_start tokens s

  unfoldable pub enqueue_child_directory :
      Policy F → Words F → String → ℕ → String → ℕ → List String → Scan F → Scan F
  unfolding enqueue_child lookup
  enqueue_child_directory policy words child depth parent_dir now tokens s =
      enqueue_child policy words child depth (branch_start_of now (lookup parent_dir s.dirs)) tokens
        s (lookup child s.dirs)

  unfoldable pub enqueue_all : Policy F → String → List (Candidate F) → Scan F → Scan F
  unfolding enqueue_generated
  enqueue_all policy dir [] s = s
  enqueue_all policy dir (c ∷ cs) s = enqueue_all policy dir cs (enqueue_generated policy dir c s).1

  -- What a new finding leads to: learned candidates, and a directory of its own
  unfoldable pub follow_hit : Policy F → Words F → Response F → Scan F → Scan F
  unfolding learnable_hit enqueue_all is_directory within_limits enqueue_child_directory lookup
  follow_hit policy words r s =
      let c = r.item.candidate in
      let dir = c.parent_dir in
      let learned =
        if learnable_hit policy r.confidence (lookup dir s.dirs) r.is_spa
        then enqueue_all policy dir r.generated s
        else s in
      if is_directory c.kind r.signature
        && f.le recurse_min_conf r.confidence
        && within_limits policy r.now c (lookup dir learned.dirs)
      then enqueue_child_directory policy words (str_append (str_append dir "/") c.path) c.depth dir
          r.now r.tokens learned
      else learned

  unfoldable pub handle_hit : Policy F → Words F → Response F → Scan F → Found F → Scan F × Found F
  unfolding record_hit follow_hit
  handle_hit policy words r s found =
      let (novel, noted) =
        record_hit r.item.url r.item.candidate.provenance r.signature r.confidence found in
      (if novel then follow_hit policy words r s else s, noted)

  -- A change of the directory's state, if it exists
  unfoldable pub touch_in :
      (DirState F → DirState F) → String → Scan F → Option (DirState F) → Scan F
  unfolding store
  touch_in fn dir s none = s
  touch_in fn dir s (some ds) = record s { dirs = store dir (fn ds) s.dirs }

  abbrev pub note_elapsed : Policy F → ℕ → DirState F → DirState F
  note_elapsed policy elapsed ds =
      check_tarpit policy
        (record ds { recent_elapsed = append_capped ds.recent_elapsed elapsed tarpit_window })

  abbrev pub note_hit : Bool → DirState F → DirState F
  note_hit hit ds =
      check_wildcard_hit_rate
        (record ds { recent_hits = append_capped ds.recent_hits hit wildcard_window })

  -- `ds.candidatesAccountedFor++` at the end, with or without an error
  unfoldable pub settle_result : String → Scan F → Scan F
  unfolding account_in lookup
  settle_result dir s = record s { dirs = account_in dir s.dirs (lookup dir s.dirs) }

  unfoldable pub handle_real : Policy F → Words F → Response F → Scan F → Found F → Scan F × Found F
  unfolding touch_in handle_hit settle_result lookup check_tarpit check_wildcard_hit_rate
      append_capped
  handle_real policy words r s found =
      let dir = r.item.candidate.parent_dir in
      let timed = touch_in (note_elapsed policy r.signature.elapsed) dir s (lookup dir s.dirs) in
      let hit = if r.is_hit then handle_hit policy words r timed found else (timed, found) in
      let watched = touch_in (note_hit r.is_hit) dir hit.0 (lookup dir hit.0.dirs) in
      (settle_result dir watched, hit.1)
