-- ===== src/Engine/Coordinator/Finish.antt =====
-- The test that ends dispatchLoop of internal/engine/coordinator.go.
use smart_buster.Prelude.{
  ℕ, Bool, true, false, ◌&&◌, ◌≡◌, some, [], ◌∷◌, String, str_eq, arith, length, ◌==◌, Bool-cases,
  inl, inr,
}
use smart_buster.Engine.Coordinator.{dir_scanning, DirState, Dirs, lookup}
use smart_buster.Engine.Coordinator.Seeds.{is_done}
use smart_buster.Engine.Coordinator.Runs.{Run}

module _ {F : Type 0} where
  unfoldable pub all_dirs_done : Dirs F → Bool
  all_dirs_done [] = true
  all_dirs_done (e ∷ es) = is_done e.1.state && all_dirs_done es

  -- `harvests` counts the harvests that are still at work; a probe in flight keeps its directory
  -- from being done.
  unfoldable pub is_finished : ℕ → Run F → Bool
  unfolding all_dirs_done
  is_finished harvests r =
      length r.scan.frontier == 0
      && length r.flying == 0
      && length r.scan.harvest_fetch_queue == 0
      && harvests == 0
      && all_dirs_done r.scan.dirs

  undone :
      (k : String) (dirs : Dirs F) (ds : DirState F)
      → lookup k dirs ≡ some ds
      → ds.state ≡ dir_scanning
      → all_dirs_done dirs ≡ false
  unfolding all_dirs_done lookup
  undone k [] ds at e = cc
  undone k (x ∷ dirs) ds at e = elim (Bool-cases (str_eq x.0 k)) [
    | inl t ↦
        let same : some x.1 ≡ some ds = rw t at at in
        let st : x.1.state ≡ dir_scanning = cc in ground arith
    | inr t ↦ let rest = undone k dirs ds (rw t at at) e in ground arith
  ]

  -- A loop with a directory that is scanned does not end.
  pub is_finished-undone :
      (harvests : ℕ) (r : Run F) (k : String) (ds : DirState F)
      → lookup k r.scan.dirs ≡ some ds
      → ds.state ≡ dir_scanning
      → is_finished harvests r ≡ false
  unfolding is_finished
  is_finished-undone harvests r k ds at e = let u = undone k r.scan.dirs ds at e in ground arith
