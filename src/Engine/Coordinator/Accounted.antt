-- ===== src/Engine/Coordinator/Accounted.antt =====
-- The result of a candidate, and the book-keeping of the directories.
use mathlib.Core.Path.{subst}
use smart_buster.Prelude.{
  ℕ, ◌+◌, ◌<◌, Bool, true, ◌&&◌, ◌≡◌, refl, sym, Option, some, Option-cases, List, [], ◌∷◌, String,
  eq_iff, arith, if◌then◌else◌, all_of, if-elim, inl, inr,
}
use smart_buster.Prelude.Float.{Float, IsOrdered}
use smart_buster.Engine.Types.{Candidate}
use smart_buster.Engine.Coordinator.{DirState, lookup, Policy, Scan}
use smart_buster.Engine.Coordinator.Seeds.{enqueue_in, enqueue_generated}
use smart_buster.Engine.Coordinator.Template.{Words}
use smart_buster.Engine.Coordinator.Results.{
  Response, enqueue_all, enqueue_child, enqueue_child_directory, branch_start_of, follow_hit,
  handle_hit, note_elapsed, note_hit, touch_in, settle_result, handle_real,
}
use smart_buster.Engine.Coordinator.Traps.{
  learnable_hit, is_directory, recurse_min_conf, within_limits, check_tarpit,
  check_wildcard_hit_rate, append_capped, is_tarpit, is_wildcard_rate, wildcard_window,
  tarpit_window,
}
use smart_buster.Engine.Coordinator.Novelty.{Found, record_hit}
use smart_buster.Engine.Coordinator.Conserved.{
  Fits, in_dir, str_eq_self, loaded-IsScanning, store-IsConserved,
}
use smart_buster.Engine.Coordinator.Staged.{
  waiting, IsBooked, enqueue_in-Merged, merge_in-IsBooked, accounted-IsConserved,
}
use smart_buster.Engine.Coordinator.Calibrated.{start_calibration-IsBooked}

module _ {F : Type 0} ⦃f : Float F⦄ ⦃o : IsOrdered F⦄ where
  -- A change that the book-keeping does not see
  abbrev KeepsBooks : (DirState F → DirState F) → Type 0
  KeepsBooks fn = (ds : DirState F) (size : ℕ) → Fits (some ds) size → Fits (some (fn ds)) size

  note_elapsed-KeepsBooks :
      (policy : Policy F) (elapsed : ℕ) → KeepsBooks (note_elapsed policy elapsed)
  unfolding check_tarpit
  note_elapsed-KeepsBooks policy elapsed ds size h =
      let noted : DirState F = record ds {
        recent_elapsed = append_capped ds.recent_elapsed elapsed tarpit_window;
      } in
      if-elim (λ (x : DirState F). Fits (some x) size) (is_tarpit policy noted)
        {x = record noted { capped = true }} {y = noted} (λ u. h) (λ u. h)

  note_hit-KeepsBooks : (hit : Bool) → KeepsBooks (note_hit hit)
  unfolding check_wildcard_hit_rate
  note_hit-KeepsBooks hit ds size h =
      let noted : DirState F = record ds {
        recent_hits = append_capped ds.recent_hits hit wildcard_window;
      } in
      if-elim (λ (x : DirState F). Fits (some x) size) (is_wildcard_rate noted)
        {x = record noted { wildcard_suspect = true }} {y = noted} (λ u. h) (λ u. h)

  touch_in-IsBooked :
      (fn : DirState F → DirState F) (dir : String) (s : Scan F) (flight : String → ℕ)
      → KeepsBooks fn
      → IsBooked flight s
      → IsBooked flight (touch_in fn dir s (lookup dir s.dirs))
  unfolding touch_in
  touch_in-IsBooked fn dir s flight keeps h = elim (Option-cases (lookup dir s.dirs)) [
    | inl e ↦ subst (λ (x : Option (DirState F)). IsBooked flight (touch_in fn dir s x)) (sym e) h
    | inr (ds, e) ↦
        let fit =
          subst (λ (x : Option (DirState F)). Fits x (waiting s.frontier flight dir)) e (h dir) in
        subst (λ (x : Option (DirState F)). IsBooked flight (touch_in fn dir s x)) (sym e)
          (store-IsConserved s.dirs (waiting s.frontier flight) (waiting s.frontier flight) dir
            (fn ds) h (keeps ds (waiting s.frontier flight dir) fit) (λ d ne. refl))
  ]

  -- A candidate under the directory of one that is in flight
  enqueue_generated-IsBooked :
      (policy : Policy F) (dir : String) (c : Candidate F) (s : Scan F) (flight : String → ℕ)
      → c.parent_dir ≡ dir
      → 0 < flight dir
      → IsBooked flight s
      → IsBooked flight (enqueue_generated policy dir c s).1
  unfolding enqueue_generated
  enqueue_generated-IsBooked policy dir c s flight own n h =
      let (ds, at, scanning) =
        loaded-IsScanning (lookup dir s.dirs) (waiting s.frontier flight dir) (h dir)
          (omega arith) in
      subst (λ (x : Option (DirState F)). IsBooked flight (enqueue_in policy dir c s x).1) (sym at)
        (merge_in-IsBooked dir c s ds flight _ at scanning h
          (enqueue_in-Merged policy dir c s ds own))

  abbrev pub AllUnder : String → List (Candidate F) → Type 0
  AllUnder dir cs = all_of (in_dir dir) cs ≡ true

  enqueue_all-IsBooked :
      (policy : Policy F) (dir : String) (cs : List (Candidate F)) (s : Scan F)
      (flight : String → ℕ)
      → AllUnder dir cs
      → 0 < flight dir
      → IsBooked flight s
      → IsBooked flight (enqueue_all policy dir cs s)
  unfolding enqueue_all
  enqueue_all-IsBooked policy dir [] s flight under n h = h
  enqueue_all-IsBooked policy dir (c ∷ cs) s flight under n h =
      enqueue_all-IsBooked policy dir cs (enqueue_generated policy dir c s).1 flight
        (ground (arith, under)) n
        (enqueue_generated-IsBooked policy dir c s flight
          ((eq_iff c.parent_dir dir).0 (ground (arith, under))) n h)

  pub enqueue_child_directory-IsBooked :
      (policy : Policy F) (words : Words F) (child : String) (depth : ℕ) (dir : String) (now : ℕ)
      (tokens : List String) (s : Scan F) (flight : String → ℕ)
      → IsBooked flight s
      → IsBooked flight (enqueue_child_directory policy words child depth dir now tokens s)
  unfolding enqueue_child_directory enqueue_child
  enqueue_child_directory-IsBooked policy words child depth dir now tokens s flight h =
      let start = branch_start_of now (lookup dir s.dirs) in
      elim (Option-cases (lookup child s.dirs)) [
        | inl e ↦
            subst
              (λ (x : Option (DirState F)).
                IsBooked flight (enqueue_child policy words child depth start tokens s x))
              (sym e)
              (start_calibration-IsBooked policy words child depth start tokens s flight h e)
        | inr (ds, e) ↦
            subst
              (λ (x : Option (DirState F)).
                IsBooked flight (enqueue_child policy words child depth start tokens s x))
              (sym e) h
      ]

  follow_hit-IsBooked :
      (policy : Policy F) (words : Words F) (r : Response F) (s : Scan F) (flight : String → ℕ)
      → AllUnder r.item.candidate.parent_dir r.generated
      → 0 < flight r.item.candidate.parent_dir
      → IsBooked flight s
      → IsBooked flight (follow_hit policy words r s)
  unfolding follow_hit
  follow_hit-IsBooked policy words r s flight under n h =
      let dir = r.item.candidate.parent_dir in
      let learned : Scan F =
        if learnable_hit policy r.confidence (lookup dir s.dirs) r.is_spa
        then enqueue_all policy dir r.generated s
        else s in
      let kept : IsBooked flight learned =
        if-elim (IsBooked flight) (learnable_hit policy r.confidence (lookup dir s.dirs) r.is_spa)
          (λ u. enqueue_all-IsBooked policy dir r.generated s flight under n h) (λ u. h) in
      if-elim (IsBooked flight)
        (is_directory r.item.candidate.kind r.signature
          && f.le recurse_min_conf r.confidence
          && within_limits policy r.now r.item.candidate (lookup dir learned.dirs))
        (λ u.
          enqueue_child_directory-IsBooked policy words _ _ dir r.now r.tokens learned flight kept)
        (λ u. kept)

  -- The result of a candidate in flight keeps the book-keeping: the candidate is accounted for,
  -- whatever the response leads to. What the learners generate stands under the hit's directory.
  pub handle_real-IsBooked :
      (policy : Policy F) (words : Words F) (r : Response F) (s : Scan F) (found : Found F)
      (before after : String → ℕ)
      → IsBooked before s
      → ((d : String) → before d ≡ after d + (if in_dir d r.item.candidate then 1 else 0))
      → AllUnder r.item.candidate.parent_dir r.generated
      → IsBooked after (handle_real policy words r s found).0
  unfolding handle_real handle_hit settle_result
  handle_real-IsBooked policy words r s found before after h leaves under =
      let dir = r.item.candidate.parent_dir in
      let self = str_eq_self dir in
      let n : 0 < before dir = ground (arith, leaves dir, self) in
      let timed = touch_in (note_elapsed policy r.signature.elapsed) dir s (lookup dir s.dirs) in
      let k1 =
        touch_in-IsBooked (note_elapsed policy r.signature.elapsed) dir s before
          (note_elapsed-KeepsBooks policy r.signature.elapsed) h in
      let hit : Scan F × Found F =
        if r.is_hit then handle_hit policy words r timed found else (timed, found) in
      let k2 : IsBooked before hit.0 =
        if-elim (λ (x : Scan F × Found F). IsBooked before x.0) r.is_hit
          (λ u.
            if-elim (IsBooked before)
              (record_hit r.item.url r.item.candidate.provenance r.signature r.confidence found).0
              (λ v. follow_hit-IsBooked policy words r timed before under n k1) (λ v. k1))
          (λ u. k1) in
      let watched = touch_in (note_hit r.is_hit) dir hit.0 (lookup dir hit.0.dirs) in
      let k3 =
        touch_in-IsBooked (note_hit r.is_hit) dir hit.0 before (note_hit-KeepsBooks r.is_hit) k2 in
      accounted-IsConserved r.item.candidate watched.dirs (waiting watched.frontier before)
        (waiting watched.frontier after) k3 (λ d. omega (arith, leaves d))
