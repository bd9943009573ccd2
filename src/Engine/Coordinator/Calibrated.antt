-- ===== src/Engine/Coordinator/Calibrated.antt =====
-- The candidates that a directory gets at the end of its calibration, and its book-keeping.
use mathlib.Core.Path.{subst}
use smart_buster.Prelude.{
  ℕ, ◌+◌, true, ◌≡◌, refl, sym, ap, ◌∙◌, map, Option, none, some, List, [], ◌∷◌, ◌++◌, String,
  str_eq, eq_iff, arith, leb, ◌==◌, if◌then◌else◌, length, count_if, all_of, if-elim,
}
use smart_buster.Prelude.Float.{Float, IsOrdered}
use smart_buster.Signature.{ResponseSignature}
use smart_buster.Corpus.Dedup.{CorpusCandidate}
use smart_buster.Engine.Types.{Candidate}
use smart_buster.Engine.Frontier
use smart_buster.Engine.Frontier.{Frontier}
use smart_buster.Engine.Coordinator.{
  DirLifecycle, dir_calibrating, dir_scanning, DirState, lookup, store, delete, Policy, Scan,
}
use smart_buster.Engine.Coordinator.Calibrating.{
  calibrated, finish_calibration, probes, new_dir, start_calibration, restart_calibration,
  count_probe, collect_in, remove_dir,
}
use smart_buster.Engine.Coordinator.Template.{
  Entry, NmapSeed, Words, merge_seed_candidate, template, corpus_template, templates_from,
  templates, with_score, nmap_candidate, push_entries, push_seeds, push_nmap, nmap_of,
  push_candidates,
}
use smart_buster.Engine.Coordinator.Conserved.{
  FitsState, Fits, IsConserved, in_dir, str_eq_self, store_rest-IsConserved, store-IsConserved,
}
use smart_buster.Engine.Coordinator.Staged.{waiting, IsBooked, count_if-push}

module _ {F : Type 0} ⦃f : Float F⦄ ⦃o : IsOrdered F⦄ where
  -- The seeds that wait for a baseline stand under the directory that they wait in.
  abbrev pub AllIn : String → List (String × Candidate F) → Type 0
  AllIn dir pending =
      all_of (λ (e : String × Candidate F). str_eq e.1.parent_dir dir) pending ≡ true

  delete-AllIn :
      (dir k : String) (pending : List (String × Candidate F))
      → AllIn dir pending
      → AllIn dir (delete k pending)
  unfolding delete
  delete-AllIn dir k [] h = refl
  delete-AllIn dir k (e ∷ es) h =
      let rest = delete-AllIn dir k es (ground (arith, h)) in
      if-elim (AllIn dir) (str_eq e.0 k) (λ u. ground (arith, h)) (λ u. ground (arith, h, rest))

  merged-Kept :
      (policy : Policy F) (dir : String) (pending : List (String × Candidate F)) (c : Candidate F)
      → AllIn dir pending
      → (x : Option (Candidate F))
      → AllIn dir (merge_seed_candidate policy pending c x).0
        × ((merge_seed_candidate policy pending c x).1.parent_dir ≡ c.parent_dir)
  unfolding merge_seed_candidate
  merged-Kept policy dir pending c h none = (h, refl)
  merged-Kept policy dir pending c h (some seed) = (delete-AllIn dir c.path pending h, refl)

  -- The candidates stand under the directory.
  abbrev AllOf : String → List (Candidate F) → Type 0
  AllOf dir cs = all_of (λ (c : Candidate F). str_eq c.parent_dir dir) cs ≡ true

  count_if-push_entries :
      (policy : Policy F) (dir : String) (cs : List (Candidate F))
      (pending : List (String × Candidate F)) (items : Frontier F) (d : String)
      → AllOf dir cs
      → AllIn dir pending
      → AllIn dir (push_entries policy cs pending items).0
        × (count_if (in_dir d) (push_entries policy cs pending items).1
            ≡ count_if (in_dir d) items + (if str_eq dir d then length cs else 0))
  unfolding push_entries
  count_if-push_entries policy dir [] pending items d own h = (h, ground arith)
  count_if-push_entries policy dir (c ∷ cs) pending items d own h =
      let x = lookup c.path pending in
      let kept = merged-Kept policy dir pending c h x in
      let m = merge_seed_candidate policy pending c x in
      let pushed : Candidate F = with_score policy m.1 in
      let rest =
        count_if-push_entries policy dir cs m.0 (Frontier.push pushed items) d (ground (arith, own))
          kept.0 in
      let stands : c.parent_dir ≡ dir = (eq_iff c.parent_dir dir).0 (ground (arith, own)) in
      let same : str_eq pushed.parent_dir d ≡ str_eq dir d =
        ap (λ (k : String). str_eq k d) (kept.1 ∙ stands) in
      (rest.0, ground (arith, rest.1, count_if-push (in_dir d) pushed items, same))

  map-AllOf :
      {X : Type 0}
      → (dir : String) (build : X → Candidate F) (xs : List X)
      → ((x : X) → (build x).parent_dir ≡ dir)
      → AllOf dir (map build xs)
  map-AllOf dir build [] h = refl
  map-AllOf dir build (x ∷ xs) h =
      let here = (eq_iff (build x).parent_dir dir).1 (h x) in
      ground (arith, here, map-AllOf dir build xs h)

  templates_from-AllOf :
      (dir : String) (ds : DirState F) (wordlist : List (Entry F))
      (corpus : Option (List (CorpusCandidate F)))
      → AllOf dir (templates_from dir ds wordlist corpus)
  unfolding templates_from
  templates_from-AllOf dir ds wordlist none = map-AllOf dir (template dir ds) wordlist (λ e. refl)
  templates_from-AllOf dir ds wordlist (some corpus) =
      map-AllOf dir (corpus_template dir ds) corpus (λ c. refl)

  templates-AllOf :
      (words : Words F) (dir : String) (ds : DirState F) → AllOf dir (templates words dir ds)
  unfolding templates
  templates-AllOf words dir ds = templates_from-AllOf dir ds words.wordlist words.corpus

  count_if-push_seeds :
      (policy : Policy F) (dir : String) (es : List (String × Candidate F)) (items : Frontier F)
      (d : String)
      → AllIn dir es
      → count_if (in_dir d) (push_seeds policy es items)
        ≡ count_if (in_dir d) items + (if str_eq dir d then length es else 0)
  unfolding push_seeds
  count_if-push_seeds policy dir [] items d h = ground arith
  count_if-push_seeds policy dir (e ∷ es) items d h =
      let c : Candidate F = with_score policy e.1 in
      let rest = count_if-push_seeds policy dir es (Frontier.push c items) d (ground (arith, h)) in
      let own : e.1.parent_dir ≡ dir = (eq_iff e.1.parent_dir dir).0 (ground (arith, h)) in
      let same : str_eq c.parent_dir d ≡ str_eq dir d = ap (λ (k : String). str_eq k d) own in
      ground (arith, rest, count_if-push (in_dir d) c items, same)

  count_if-push_nmap :
      (dir : String) (ds : DirState F) (ns : List NmapSeed) (items : Frontier F) (d : String)
      → count_if (in_dir d) (push_nmap dir ds ns items)
        ≡ count_if (in_dir d) items + (if str_eq dir d then length ns else 0)
  unfolding push_nmap
  count_if-push_nmap dir ds [] items d = ground arith
  count_if-push_nmap dir ds (n ∷ ns) items d =
      let c : Candidate F = nmap_candidate dir ds n in
      let rest = count_if-push_nmap dir ds ns (Frontier.push c items) d in
      ground (arith, rest, count_if-push (in_dir d) c items)

  -- A directory with nothing in its load, and the candidates of its template
  pub push_candidates-IsBooked :
      (policy : Policy F) (words : Words F) (dir : String) (ds : DirState F) (s : Scan F)
      (flight : String → ℕ)
      → IsBooked flight s
      → waiting s.frontier flight dir ≡ 0
      → ds.state ≡ dir_scanning
      → ds.candidates_accounted_for ≡ 0
      → AllIn dir ds.pending_seeds
      → IsBooked flight (push_candidates policy words dir ds s)
  unfolding push_candidates
  push_candidates-IsBooked policy words dir ds s flight h n e a inside =
      let cs = templates words dir ds in
      let left = (push_entries policy cs ds.pending_seeds s.frontier).0 in
      let items = (push_entries policy cs ds.pending_seeds s.frontier).1 in
      let seeded = push_seeds policy left items in
      let nmap = nmap_of dir words in
      let total = length cs + length left + length nmap in
      let first = λ (d : String).
        count_if-push_entries policy dir cs ds.pending_seeds s.frontier d
          (templates-AllOf words dir ds) inside in
      let second = λ (d : String). count_if-push_seeds policy dir left items d (first d).0 in
      let third = λ (d : String). count_if-push_nmap dir ds nmap seeded d in
      let self = str_eq_self dir in
      if-elim (IsBooked flight) (total == 0)
        (λ u.
          store_rest-IsConserved s.dirs (waiting seeded flight) dir _
            (ground (arith, u, a), ground (arith, u, n, (first dir).1, second dir, self))
            (λ d ne.
              subst (Fits (lookup d s.dirs)) (ground (arith, ne, (first d).1, second d)) (h d)))
        (λ u.
          store_rest-IsConserved s.dirs (waiting (push_nmap dir ds nmap seeded) flight) dir _
            (subst
              (λ (st : DirLifecycle).
                FitsState st total ds.candidates_accounted_for
                  (waiting (push_nmap dir ds nmap seeded) flight dir))
              (sym e)
              (
                ground (arith, a, n, (first dir).1, second dir, third dir, self),
                ground (arith, u, n, (first dir).1, second dir, third dir, self),
              ))
            (λ d ne.
              subst (Fits (lookup d s.dirs)) (ground (arith, ne, (first d).1, second d, third d))
                (h d)))

  finish_calibration-IsBooked :
      (policy : Policy F) (words : Words F) (dir : String) (ds : DirState F) (s : Scan F)
      (flight : String → ℕ)
      → IsBooked flight s
      → waiting s.frontier flight dir ≡ 0
      → ds.candidates_accounted_for ≡ 0
      → AllIn dir ds.pending_seeds
      → IsBooked flight (finish_calibration policy words dir ds s)
  unfolding finish_calibration calibrated
  finish_calibration-IsBooked policy words dir ds s flight h n a inside =
      push_candidates-IsBooked policy words dir (calibrated ds)
        (record s { calibrating_order = remove_dir dir s.calibrating_order }) flight h n refl a
        inside

  -- A directory without a load starts its calibration under the same book-keeping, also where no
  -- probe is in scope and the calibration ends at once.
  start_calibration-IsBooked_empty :
      (policy : Policy F) (words : Words F) (dir : String) (depth branch_start : ℕ)
      (tokens : List String) (s : Scan F) (flight : String → ℕ)
      → IsBooked flight s
      → waiting s.frontier flight dir ≡ 0
      → IsBooked flight (start_calibration policy words dir depth branch_start tokens s)
  unfolding start_calibration
  start_calibration-IsBooked_empty policy words dir depth branch_start tokens s flight h n =
      let ds = new_dir dir depth branch_start (probes policy dir depth tokens) in
      let kept : IsConserved (store dir ds s.dirs) (waiting s.frontier flight) =
        store-IsConserved s.dirs _ _ dir ds h (n, refl) (λ d ne. refl) in
      if-elim (IsBooked flight) (ds.probes_total == 0)
        (λ u.
          finish_calibration-IsBooked policy words dir ds
            (record s {
              dirs = store dir ds s.dirs;
              calibrating_order = s.calibrating_order ++ dir ∷ [];
            })
            flight kept n refl refl)
        (λ u. kept)

  pub start_calibration-IsBooked :
      (policy : Policy F) (words : Words F) (dir : String) (depth branch_start : ℕ)
      (tokens : List String) (s : Scan F) (flight : String → ℕ)
      → IsBooked flight s
      → lookup dir s.dirs ≡ none
      → IsBooked flight (start_calibration policy words dir depth branch_start tokens s)
  start_calibration-IsBooked policy words dir depth branch_start tokens s flight h missing =
      start_calibration-IsBooked_empty policy words dir depth branch_start tokens s flight h (
        subst (λ (x : Option (DirState F)). Fits x (waiting s.frontier flight dir)) missing (h dir))

  -- The same for a directory that is calibrated anew
  pub restart_calibration-IsBooked :
      (policy : Policy F) (words : Words F) (dir : String) (tokens : List String) (s : Scan F)
      (ds : DirState F) (flight : String → ℕ)
      → IsBooked flight s
      → lookup dir s.dirs ≡ some ds
      → ds.state ≡ dir_calibrating
      → IsBooked flight (restart_calibration policy words dir tokens s ds)
  unfolding restart_calibration
  restart_calibration-IsBooked policy words dir tokens s ds flight h at e =
      let size = waiting s.frontier flight dir in
      let fit = subst (λ (x : Option (DirState F)). Fits x size) at (h dir) in
      let k =
        subst
          (λ (st : DirLifecycle). FitsState st ds.candidates_total ds.candidates_accounted_for size)
          e fit in
      start_calibration-IsBooked_empty policy words dir ds.depth ds.branch_start tokens
        (record s { calibrating_order = remove_dir dir s.calibrating_order }) flight h k.0

  -- The result of a probe keeps the book-keeping, also where it is the last one and the directory
  -- gets its candidates. The directory is calibrated, and its pending seeds stand under it.
  pub collect_probe-IsBooked :
      (policy : Policy F) (words : Words F) (dir : String) (signature : Option ResponseSignature)
      (s : Scan F) (ds : DirState F) (flight : String → ℕ)
      → IsBooked flight s
      → lookup dir s.dirs ≡ some ds
      → ds.state ≡ dir_calibrating
      → AllIn dir ds.pending_seeds
      → IsBooked flight (collect_in policy words dir signature s ds)
  unfolding collect_in
  collect_probe-IsBooked policy words dir signature s ds flight h at e inside =
      let fit =
        subst (λ (x : Option (DirState F)). Fits x (waiting s.frontier flight dir)) at (h dir) in
      let k =
        subst
          (λ (st : DirLifecycle).
            FitsState st ds.candidates_total ds.candidates_accounted_for
              (waiting s.frontier flight dir))
          e fit in
      if-elim (IsBooked flight) (leb ds.probes_total (ds.probes_done + 1))
        (λ u.
          finish_calibration-IsBooked policy words dir (count_probe signature ds) s flight h k.0 k.1
            inside)
        (λ u.
          store-IsConserved s.dirs (waiting s.frontier flight) (waiting s.frontier flight) dir
            (count_probe signature ds) h fit (λ d ne. refl))
