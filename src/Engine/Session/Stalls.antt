-- ===== src/Engine/Session/Stalls.antt =====
-- A session that is saved while candidates are in flight, and the end test of the resumed scan.
use smart_buster.Prelude.{ℕ, ◌+◌, ◌<◌, false, ◌≡◌, List, [], String, arith}
use smart_buster.Prelude.Float.{Float, IsOrdered}
use smart_buster.Engine.Types.{Candidate}
use smart_buster.Engine.Coordinator.{lookup, Policy}
use smart_buster.Engine.Coordinator.Conserved.{loaded-IsScanning, IsConserved-same}
use smart_buster.Engine.Coordinator.Staged.{waiting, IsBooked}
use smart_buster.Engine.Coordinator.Template.{Words}
use smart_buster.Engine.Coordinator.Runs.{Run, Steps, in_flight, steps-IsBookedWith}
use smart_buster.Engine.Coordinator.Finish.{is_finished, is_finished-undone}
use smart_buster.Engine.Session.{Engine, build_snapshot, restore_snapshot}
use smart_buster.Engine.Session.Restored.{Unique, restore_snapshot-IsBooked}

module _ {F : Type 0} ⦃f : Float F⦄ ⦃o : IsOrdered F⦄ where
  -- The run that a resumed coordinator starts from: nothing is in flight.
  abbrev pub resumed_run : Engine F → Run F
  resumed_run r = record { scan = r.scan; found = r.found; flying = [] }

  -- If a candidate of a directory was in flight when the session was saved, no run of the
  -- resumed scan meets the test that ends its loop: that candidate is counted and lost.
  pub resume_stalls :
      (policy : Policy F) (words : Words F) (tokens : String → List String) (fresh c : Engine F)
      (flying : List (Candidate F)) (dir : String) (harvests : ℕ) (r : Run F)
      → Unique c.scan.dirs
      → IsBooked (in_flight flying) c.scan
      → 0 < in_flight flying dir
      → Steps policy words
          (resumed_run (restore_snapshot policy words tokens fresh (build_snapshot c)))
          r
      → is_finished harvests r ≡ false
  resume_stalls policy words tokens fresh c flying dir harvests r u h n steps =
      let resumed = restore_snapshot policy words tokens fresh (build_snapshot c) in
      let booked = restore_snapshot-IsBooked policy words tokens fresh c (in_flight flying) u h in
      let after =
        steps-IsBookedWith policy words (in_flight flying) (resumed_run resumed) r steps
          (IsConserved-same resumed.scan _ _ (λ d. omega arith) booked) in
      let (ds, at, scanning) =
        loaded-IsScanning (lookup dir r.scan.dirs)
          (waiting r.scan.frontier (λ d. in_flight r.flying d + in_flight flying d) dir) (after dir)
          (omega arith) in
      is_finished-undone harvests r dir ds at scanning
