-- ===== src/Engine/Session/Resumed.antt =====
-- What a resumed scan has of the one that was saved, beside the book-keeping.
use smart_buster.Prelude.{
  ℕ, ◌+◌, false, ◌≡◌, ◌≢◌, refl, sym, ap, ◌∙◌, Option, none, some, List, [], ◌∷◌, map, String,
  str_eq, eq_iff, arith, if◌then◌else◌, if-elim, Bool-cases, inl, inr, length, ◌==◌,
}
use mathlib.Core.Path.{subst}
use smart_buster.Prelude.Float.{Float}
use smart_buster.HttpClient.Limiter.{aimd_state, set_aimd_state}
use smart_buster.Engine.Coordinator.{
  DirLifecycle, dir_calibrating, dir_scanning, dir_done, DirState, lookup, Policy, Scan,
}
use smart_buster.Engine.Coordinator.Calibrating.{
  new_dir, start_calibration, probes, finish_calibration, calibrated,
}
use smart_buster.Engine.Coordinator.Template.{
  Words, push_entries, templates, nmap_of, push_candidates,
}
use smart_buster.Engine.Session.{
  DirSnapshot, SessionState, session_version, Engine, is_calibrating, state_name, snapshot_dir,
  build_snapshot, restored, recalibrate, restore_snapshot, new_coordinator_from_snapshot,
}
use smart_buster.Engine.Session.Restored.{
  Unique, was_calibrating, calibrating_name, lookup-start_calibration, lookup-restore_dirs,
}

-- The directory `k` as a resumed scan has it: no probes, no recent responses, no pending seeds
module _ {F : Type 0} where
  abbrev pub resumed : String → DirState F → DirState F
  resumed k ds = record ds {
    path = k;
    probe_queue = [];
    probes_done = 0;
    probes_total = 0;
    probe_results = [];
    recent_hits = [];
    recent_elapsed = [];
    baseline_elapsed_median = 0;
    pending_seeds = [];
  }

done_name :
    (st : DirLifecycle)
    → was_calibrating st ≡ false
    → (if str_eq (state_name st) "done" then dir_done else dir_scanning) ≡ st
done_name dir_calibrating h = cc
done_name dir_scanning h = refl
done_name dir_done h = refl

module _ {F : Type 0} ⦃f : Float F⦄ where
  restored-resumed :
      (k : String) (ds : DirState F)
      → was_calibrating ds.state ≡ false
      → restored (snapshot_dir (k, ds)) ≡ resumed k ds
  unfolding restored
  restored-resumed k ds h =
      ap (λ (st : DirLifecycle). record (resumed k ds) { state = st }) (done_name ds.state h)

  lookup-recalibrate :
      (policy : Policy F) (words : Words F) (tokens : String → List String) (k : String)
      (es : List (String × DirState F)) (s : Scan F)
      → Unique es
      → ((ds : DirState F) → lookup k es ≡ some ds → was_calibrating ds.state ≡ false)
      → lookup k (recalibrate policy words tokens (map snapshot_dir es) s).dirs ≡ lookup k s.dirs
  unfolding recalibrate lookup
  lookup-recalibrate policy words tokens k [] s u keep = refl
  lookup-recalibrate policy words tokens k (e ∷ es) s u keep =
      let calibrates = is_calibrating (snapshot_dir e) in
      let started = start_calibration policy words e.0 e.1.depth e.1.branch_start (tokens e.0) s in
      let one : lookup k (if calibrates then started else s).dirs ≡ lookup k s.dirs =
        elim (Bool-cases (str_eq e.0 k)) [
          | inl t ↦ rw (calibrating_name e.1.state, keep e.1 (rw t refl)) refl
          | inr t ↦
              if-elim (λ (x : Scan F). lookup k x.dirs ≡ lookup k s.dirs) calibrates
                (λ w.
                  lookup-start_calibration policy words e.0 e.1.depth e.1.branch_start (tokens e.0)
                    s k t)
                (λ w. refl)
        ] in
      lookup-recalibrate policy words tokens k es (if calibrates then started else s) u.1 (λ ds at.
        elim (Bool-cases (str_eq e.0 k)) [
          | inl t ↦
              let gone = subst (λ (x : String). lookup x es ≡ none) ((eq_iff e.0 k).0 t) u.0 in cc
          | inr t ↦ keep ds (rw t at)
        ])
      ∙ one

  overrides-start_calibration :
      (policy : Policy F) (words : Words F) (dir : String) (depth branch_start : ℕ)
      (tokens : List String) (s : Scan F)
      → (start_calibration policy words dir depth branch_start tokens s).overrides ≡ s.overrides
  unfolding start_calibration finish_calibration push_candidates
  overrides-start_calibration policy words dir depth branch_start tokens s =
      let ds = new_dir dir depth branch_start (probes policy dir depth tokens) in
      let pushed = push_entries policy (templates words dir (calibrated ds)) [] s.frontier in
      let total =
        length (templates words dir (calibrated ds))
        + length pushed.0
        + length (nmap_of dir words) in
      if-elim (λ (t : Scan F). t.overrides ≡ s.overrides) (ds.probes_total == 0)
        (λ u.
          if-elim (λ (t : Scan F). t.overrides ≡ s.overrides) (total == 0) (λ w. refl) (λ w. refl))
        (λ u. refl)

  overrides-recalibrate :
      (policy : Policy F) (words : Words F) (tokens : String → List String) (es : List DirSnapshot)
      (s : Scan F)
      → (recalibrate policy words tokens es s).overrides ≡ s.overrides
  unfolding recalibrate
  overrides-recalibrate policy words tokens [] s = refl
  overrides-recalibrate policy words tokens (d ∷ ds) s =
      let started =
        start_calibration policy words d.path d.depth d.branch_start (tokens d.path) s in
      overrides-recalibrate policy words tokens ds (if is_calibrating d then started else s)
      ∙ if-elim (λ (t : Scan F). t.overrides ≡ s.overrides) (is_calibrating d)
          (λ w.
            overrides-start_calibration policy words d.path d.depth d.branch_start (tokens d.path)
              s)
          (λ w. refl)

  -- A resumed scan has the findings, the ring of the WAF detection and the state of the backoff
  -- of the saved one, and each directory that was scanned or done, without its recent responses.
  -- Its overrides are those of the fresh coordinator, whatever the user excluded.
  pub resume-build_snapshot :
      (policy : Policy F) (words : Words F) (tokens : String → List String) (fresh c : Engine F)
      (k : String) (ds : DirState F)
      → Unique c.scan.dirs
      → lookup k c.scan.dirs ≡ some ds
      → was_calibrating ds.state ≡ false
      → (r : Engine F) × (new_coordinator_from_snapshot policy words tokens
            (some fresh)
            (build_snapshot c)
          ≡ some r)
        × (r.found ≡ c.found)
        × (r.waf_ring ≡ c.waf_ring)
        × (aimd_state r.limiter ≡ aimd_state c.limiter)
        × (lookup k r.scan.dirs ≡ some (resumed k ds))
        × (r.scan.overrides ≡ fresh.scan.overrides)
  unfolding new_coordinator_from_snapshot restore_snapshot build_snapshot aimd_state set_aimd_state
      lookup
  resume-build_snapshot policy words tokens fresh c k ds u at h =
      let state = build_snapshot c in
      (
        restore_snapshot policy words tokens fresh state,
        refl,
        refl,
        refl,
        refl,
        lookup-recalibrate policy words tokens k c.scan.dirs _ u
              (λ other found. let same = sym at ∙ found in cc)
            ∙ lookup-restore_dirs k c.scan.dirs [] u
            ∙ rw (at, h) (ap some (restored-resumed k ds h)),
        overrides-recalibrate policy words tokens state.dirs _,
      )

  -- A session of another version is refused.
  pub resume_version :
      (policy : Policy F) (words : Words F) (tokens : String → List String)
      (fresh : Option (Engine F)) (state : SessionState F)
      → (state.version ≢ session_version)
      → new_coordinator_from_snapshot policy words tokens fresh state ≡ none
  unfolding new_coordinator_from_snapshot
  resume_version policy words tokens fresh state h = ground arith
