-- ===== src/Engine/Session/Restored.antt =====
-- What a resumed scan has of the one that was saved.
use mathlib.Core.Path.{subst}
use smart_buster.Prelude.{
  ℕ, ◌+◌, Bool, true, false, ◌≡◌, refl, sym, ◌∙◌, Option, none, some, List, [], ◌∷◌, ◌++◌, ◌==◌,
  length, map, String, str_eq, eq_iff, arith, if◌then◌else◌, if-elim, Bool-cases, inl, inr,
  count_if,
}
use smart_buster.Prelude.Float.{Float, IsOrdered}
use smart_buster.Engine.Types.{Candidate}
use smart_buster.Engine.Frontier
use smart_buster.Engine.Frontier.{Frontier}
use smart_buster.Engine.Coordinator.{
  DirLifecycle, dir_calibrating, dir_scanning, dir_done, DirState, Dirs, lookup, store, Policy,
  Scan,
}
use smart_buster.Engine.Coordinator.Calibrating.{
  new_dir, start_calibration, probes, finish_calibration, calibrated, remove_dir,
}
use smart_buster.Engine.Coordinator.Template.{
  Words, push_entries, templates, nmap_of, push_candidates,
}
use smart_buster.Engine.Coordinator.Conserved.{
  Fits, in_dir, str_eq_self, lookup-store, lookup-store_ne,
}
use smart_buster.Engine.Coordinator.Staged.{waiting, IsBooked, count_if-push}
use smart_buster.Engine.Coordinator.Calibrated.{start_calibration-IsBooked}
use smart_buster.Engine.Session.{
  Engine, is_calibrating, state_name, snapshot_dir, build_snapshot, restored, restore_dirs,
  push_all, recalibrate, restore_snapshot,
}

-- A map has one entry for each key.
module _ {V : Type 0} where
  abbrev pub Unique : List (String × V) → Type 0
  Unique [] = Unit
  Unique (e ∷ es) = (lookup e.0 es ≡ none) × Unique es

abbrev pub was_calibrating : DirLifecycle → Bool
was_calibrating dir_calibrating = true
was_calibrating _ = false

pub calibrating_name :
    (st : DirLifecycle) → str_eq (state_name st) "calibrating" ≡ was_calibrating st
calibrating_name dir_calibrating = refl
calibrating_name dir_scanning = refl
calibrating_name dir_done = refl

module _ {F : Type 0} ⦃f : Float F⦄ where
  -- A directory that was scanned or done comes back; one that was calibrated does not.
  abbrev pub came_back : String → Option (DirState F) → Option (DirState F) → Option (DirState F)
  came_back k none before = before
  came_back k (some ds) before =
      if was_calibrating ds.state then before else some (restored (snapshot_dir (k, ds)))

  restore_one : String × DirState F → Dirs F → Dirs F
  restore_one e dirs =
      if is_calibrating (snapshot_dir e) then dirs else store e.0 (restored (snapshot_dir e)) dirs

  lookup-restore_one :
      (k : String) (e : String × DirState F) (dirs : Dirs F)
      → lookup k (restore_one e dirs)
        ≡ (if str_eq e.0 k then came_back k (some e.1) (lookup k dirs) else lookup k dirs)
  unfolding restore_one
  lookup-restore_one k e dirs =
      let name = calibrating_name e.1.state in
      elim (Bool-cases (was_calibrating e.1.state)) [
        | inl c ↦
            rw (name, c)
              (elim (Bool-cases (str_eq e.0 k)) [ inl t ↦ rw t refl | inr t ↦ rw t refl ])
        | inr c ↦
            rw (name, c)
              (elim (Bool-cases (str_eq e.0 k)) [
                | inl t ↦
                    lookup-store k e.0 (restored (snapshot_dir e)) dirs
                    ∙ rw (t, (eq_iff e.0 k).0 t) refl
                | inr t ↦ lookup-store_ne k e.0 (restored (snapshot_dir e)) dirs t ∙ rw t refl
              ])
      ]

  pub lookup-restore_dirs :
      (k : String) (es : List (String × DirState F)) (dirs : Dirs F)
      → Unique es
      → lookup k (restore_dirs (map snapshot_dir es) dirs)
        ≡ came_back k (lookup k es) (lookup k dirs)
  unfolding lookup restore_dirs restore_one
  lookup-restore_dirs k [] dirs u = refl
  lookup-restore_dirs k (e ∷ es) dirs u =
      let rest = lookup-restore_dirs k es (restore_one e dirs) u.1 in
      elim (Bool-cases (str_eq e.0 k)) [
        | inl t ↦
            let gone : lookup k es ≡ none =
              subst (λ (x : String). lookup x es ≡ none) ((eq_iff e.0 k).0 t) u.0 in
            rest ∙ rw (gone, lookup-restore_one k e dirs, t) refl
        | inr t ↦ rest ∙ rw (lookup-restore_one k e dirs, t) refl
      ]

  lookup-push_candidates :
      (policy : Policy F) (words : Words F) (dir : String) (ds : DirState F) (s : Scan F)
      (k : String)
      → str_eq dir k ≡ false
      → lookup k (push_candidates policy words dir ds s).dirs ≡ lookup k s.dirs
  unfolding push_candidates
  lookup-push_candidates policy words dir ds s k ne =
      let left = (push_entries policy (templates words dir ds) ds.pending_seeds s.frontier).0 in
      let total = length (templates words dir ds) + length left + length (nmap_of dir words) in
      if-elim (λ (t : Scan F). lookup k t.dirs ≡ lookup k s.dirs) (total == 0)
        (λ u. lookup-store_ne k dir _ s.dirs ne) (λ u. lookup-store_ne k dir _ s.dirs ne)

  pub lookup-start_calibration :
      (policy : Policy F) (words : Words F) (dir : String) (depth branch_start : ℕ)
      (tokens : List String) (s : Scan F) (k : String)
      → str_eq dir k ≡ false
      → lookup k (start_calibration policy words dir depth branch_start tokens s).dirs
        ≡ lookup k s.dirs
  unfolding start_calibration finish_calibration
  lookup-start_calibration policy words dir depth branch_start tokens s k ne =
      let ds = new_dir dir depth branch_start (probes policy dir depth tokens) in
      let t : Scan F = record s {
        dirs = store dir ds s.dirs;
        calibrating_order = s.calibrating_order ++ dir ∷ [];
      } in
      let once = lookup-store_ne k dir ds s.dirs ne in
      if-elim (λ (t : Scan F). lookup k t.dirs ≡ lookup k s.dirs) (ds.probes_total == 0)
        (λ u.
          lookup-push_candidates policy words dir (calibrated ds)
            (record t { calibrating_order = remove_dir dir t.calibrating_order }) k ne
          ∙ once)
        (λ u. once)

module _ {F : Type 0} ⦃f : Float F⦄ ⦃o : IsOrdered F⦄ where
  count_if-push_all :
      (p : Candidate F → Bool) (cs : List (Candidate F)) (items : Frontier F)
      → count_if p (push_all cs items) ≡ count_if p cs + count_if p items
  unfolding push_all
  count_if-push_all p [] items = omega arith
  count_if-push_all p (c ∷ cs) items =
      omega (arith, count_if-push_all p cs (Frontier.push c items), count_if-push p c items)

  came_back-Fits :
      (k : String) (o : Option (DirState F)) (load : ℕ)
      → Fits o load
      → Fits (came_back k o none) load
  unfolding restored
  came_back-Fits k none load h = h
  came_back-Fits k (some ds) load h = by_state ds.state refl
    where
      by_state : (st : DirLifecycle) → ds.state ≡ st → Fits (came_back k (some ds) none) load
      by_state dir_calibrating e = rw e ((rw e at h).0)
      by_state dir_scanning e = rw e (rw e at h)
      by_state dir_done e = rw e (rw e at h)

  -- The calibrated directories of `es` are missing.
  abbrev Missing : List (String × DirState F) → Dirs F → Type 0
  Missing es dirs =
      (k : String) (ds : DirState F)
      → lookup k es ≡ some ds
      → was_calibrating ds.state ≡ true
      → lookup k dirs ≡ none

  recalibrate-IsBooked :
      (policy : Policy F) (words : Words F) (tokens : String → List String)
      (es : List (String × DirState F)) (s : Scan F) (flight : String → ℕ)
      → Unique es
      → Missing es s.dirs
      → IsBooked flight s
      → IsBooked flight (recalibrate policy words tokens (map snapshot_dir es) s)
  unfolding recalibrate lookup
  recalibrate-IsBooked policy words tokens [] s flight u miss h = h
  recalibrate-IsBooked policy words tokens (e ∷ es) s flight u miss h =
      let calibrates = is_calibrating (snapshot_dir e) in
      let started = start_calibration policy words e.0 e.1.depth e.1.branch_start (tokens e.0) s in
      recalibrate-IsBooked policy words tokens es (if calibrates then started else s) flight u.1
        (λ k ds at c. elim (Bool-cases (str_eq e.0 k)) [
          | inl t ↦
              let gone = subst (λ (x : String). lookup x es ≡ none) ((eq_iff e.0 k).0 t) u.0 in cc
          | inr t ↦
              let before : lookup k s.dirs ≡ none = miss k ds (rw t at) c in
              if-elim (λ (x : Scan F). lookup k x.dirs ≡ none) calibrates
                (λ w.
                  lookup-start_calibration policy words e.0 e.1.depth e.1.branch_start (tokens e.0)
                    s k t
                  ∙ before)
                (λ w. before)
        ])
        (if-elim (IsBooked flight) calibrates
          (λ w.
            start_calibration-IsBooked policy words e.0 e.1.depth e.1.branch_start (tokens e.0) s
              flight h (miss e.0 e.1 (rw (str_eq_self e.0)) (sym (calibrating_name e.1.state) ∙ w)))
          (λ w. h))

  loaded : Engine F → Frontier F → Engine F → Scan F
  loaded fresh items c = record fresh.scan {
    frontier = push_all c.scan.frontier items;
    dirs = restore_dirs (map snapshot_dir c.scan.dirs) [];
  }

  loaded-IsBooked :
      (fresh c : Engine F) (flight : String → ℕ)
      → Unique c.scan.dirs
      → IsBooked flight c.scan
      → IsBooked flight (loaded fresh [] c)
  unfolding loaded lookup
  loaded-IsBooked fresh c flight u h d =
      let size = waiting c.scan.frontier flight d in
      let fit = came_back-Fits d (lookup d c.scan.dirs) size (h d) in
      let same : lookup d (restore_dirs (map snapshot_dir c.scan.dirs) [])
          ≡ came_back d (lookup d c.scan.dirs) none =
        lookup-restore_dirs d c.scan.dirs [] u in
      let count : size ≡ waiting (push_all c.scan.frontier []) flight d =
        omega (arith, count_if-push_all (in_dir d) c.scan.frontier []) in
      subst (Fits (lookup d (restore_dirs (map snapshot_dir c.scan.dirs) []))) count
        (subst (λ (x : Option (DirState F)). Fits x size) (sym same) fit)

  -- A session keeps the books: the resumed scan counts what the saved one counted, also what was
  -- in flight when it was saved, though nothing is in flight after the resume.
  pub restore_snapshot-IsBooked :
      (policy : Policy F) (words : Words F) (tokens : String → List String) (fresh c : Engine F)
      (flight : String → ℕ)
      → Unique c.scan.dirs
      → IsBooked flight c.scan
      → IsBooked flight (restore_snapshot policy words tokens fresh (build_snapshot c)).scan
  unfolding restore_snapshot build_snapshot loaded lookup
  restore_snapshot-IsBooked policy words tokens fresh c flight u h =
      recalibrate-IsBooked policy words tokens c.scan.dirs (loaded fresh [] c) flight u
        (λ k ds at cal. lookup-restore_dirs k c.scan.dirs [] u ∙ rw (at, cal) refl)
        (loaded-IsBooked fresh c flight u h)
