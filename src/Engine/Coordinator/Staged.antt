-- ===== src/Engine/Coordinator/Staged.antt =====
-- Candidates that turn up during the scan, and exclusions, and the book-keeping of the
-- directories.
use mathlib.Core.Path.{subst}
use smart_buster.Prelude.{
  ℕ, suc, ◌+◌, Bool, true, false, ◌||◌, ◌≡◌, refl, sym, ap, ◌∙◌, Option, some, Option-cases, List,
  [], ◌∷◌, String, str_eq, arith, if◌then◌else◌, count_if, count_if-append, if-elim, inl, inr,
}
use smart_buster.Prelude.Float.{Float, IsOrdered}
use smart_buster.Heap.Contents.{push-Permutes}
use smart_buster.Engine.Types.{Candidate, zero_candidate}
use smart_buster.Engine.Frontier
use smart_buster.Engine.Frontier.{Frontier, less}
use smart_buster.Engine.Frontier.Order.{remove_matching-IsValid}
use smart_buster.Engine.Frontier.Update.{count_if-update_matching}
use smart_buster.Engine.Coordinator.{
  DirLifecycle, dir_calibrating, dir_scanning, dir_done, DirState, Dirs, lookup, store, contains,
  Policy, Scan, account,
}
use smart_buster.Engine.Coordinator.Seeds.{
  is_done, grow, scored, enqueue_in, merge_into, merge_in, pend, reopen, stage_at, stage_in,
  stage_dir_candidate, account_in, account_all, apply_exclude,
}
use smart_buster.Engine.Coordinator.Conserved.{
  FitsState, Fits, IsConserved, in_dir, str_eq_self, lookup-store_ne, store_rest-IsConserved,
  store-IsConserved, loaded-IsScanning, account-Fits,
}

module _ {F : Type 0} ⦃f : Float F⦄ ⦃o : IsOrdered F⦄ where
  -- The candidates of each directory that wait or are in flight
  abbrev pub waiting : Frontier F → (String → ℕ) → String → ℕ
  waiting items flight d = count_if (in_dir d) items + flight d

  abbrev pub IsBooked : (String → ℕ) → Scan F → Type 0
  IsBooked flight s = IsConserved s.dirs (waiting s.frontier flight)

  -- A directory that grows by a candidate which now waits, while it is scanned
  grow-Fits :
      (path : String) (ds : DirState F) (size : ℕ)
      → ds.state ≡ dir_scanning
      → ds.candidates_total ≡ ds.candidates_accounted_for + size
      → Fits (some (grow path ds)) (suc size)
  unfolding grow
  grow-Fits path ds size e h =
      subst
        (λ (st : DirLifecycle).
          FitsState st (ds.candidates_total + 1) ds.candidates_accounted_for (suc size))
        (sym e) (omega (arith, h), omega arith)

  pub count_if-push :
      (p : Candidate F → Bool) (c : Candidate F) (items : Frontier F)
      → count_if p (Frontier.push c items) ≡ count_if p items + (if p c then 1 else 0)
  unfolding Frontier.push
  count_if-push p c items = omega (
    arith,
    (push-Permutes less zero_candidate c items).same_count p,
    count_if-append p items (c ∷ []),
  )

  -- What merging or enqueueing leaves: the directory grows with the frontier, or neither does.
  abbrev pub Merged : String → Candidate F → Scan F → DirState F → Bool × Scan F → Type 0
  Merged dir c s ds (true, t) =
      (t.dirs ≡ store dir (grow c.path ds) s.dirs)
      × ((d : String)
          → count_if (in_dir d) t.frontier
            ≡ count_if (in_dir d) s.frontier + (if str_eq dir d then 1 else 0))
  Merged dir c s ds (false, t) =
      (t.dirs ≡ s.dirs)
      × ((d : String) → count_if (in_dir d) t.frontier ≡ count_if (in_dir d) s.frontier)

  pub enqueue_in-Merged :
      (policy : Policy F) (dir : String) (c : Candidate F) (s : Scan F) (ds : DirState F)
      → c.parent_dir ≡ dir
      → Merged dir c s ds (enqueue_in policy dir c s (some ds))
  unfolding enqueue_in scored
  enqueue_in-Merged policy dir c s ds own =
      if-elim (Merged dir c s ds) (is_done ds.state || contains c.path ds.known_paths)
        (λ e. (refl, λ d. refl))
        (λ e. (
          refl,
          λ d.
              count_if-push (in_dir d) (scored policy ds c) s.frontier
              ∙ ap (λ (k : String). count_if (in_dir d) s.frontier + (if str_eq k d then 1 else 0))
                  own,
        ))

  merge_in-Merged :
      (policy : Policy F) (dir : String) (c : Candidate F) (s : Scan F) (ds : DirState F)
      → c.parent_dir ≡ dir
      → Merged dir c s ds (merge_in policy dir c s (some ds))
  unfolding merge_in merge_into
  merge_in-Merged policy dir c s ds own =
      if-elim (Merged dir c s ds) (contains c.path ds.known_paths)
        (λ e. (
          refl,
          λ d.
              count_if-update_matching (in_dir d) dir c.path (merge_into policy c) s.frontier
                (λ x. refl),
        ))
        (λ e. enqueue_in-Merged policy dir c s ds own)

  -- The directory's new state, or the old one, under the new load
  pub merge_in-IsBooked :
      (dir : String) (c : Candidate F) (s : Scan F) (ds : DirState F) (flight : String → ℕ)
      (r : Bool × Scan F)
      → lookup dir s.dirs ≡ some ds
      → ds.state ≡ dir_scanning
      → IsBooked flight s
      → Merged dir c s ds r
      → IsBooked flight r.1
  merge_in-IsBooked dir c s ds flight (true, t) at e h m =
      let size = waiting s.frontier flight dir in
      let fit = subst (λ (x : Option (DirState F)). Fits x size) at (h dir) in
      let k =
        subst
          (λ (st : DirLifecycle). FitsState st ds.candidates_total ds.candidates_accounted_for size)
          e fit in
      let self = str_eq_self dir in
      let more : suc size ≡ waiting t.frontier flight dir = ground (arith, m.1 dir, self) in
      subst (λ (ds' : Dirs F). IsConserved ds' (waiting t.frontier flight)) (sym m.0)
        (store-IsConserved s.dirs (waiting s.frontier flight) (waiting t.frontier flight) dir
          (grow c.path ds) h
          (subst (Fits (some (grow c.path ds))) more (grow-Fits c.path ds size e k.0))
          (λ d ne. ground (arith, m.1 d, ne)))
  merge_in-IsBooked dir c s ds flight (false, t) at e h m =
      subst (λ (ds' : Dirs F). IsConserved ds' (waiting t.frontier flight)) (sym m.0)
        (λ d. subst (Fits (lookup d s.dirs)) (omega (arith, m.1 d)) (h d))

  -- A finished directory that was opened, with the candidate or closed again
  reopen-IsBooked :
      (dir : String) (c : Candidate F) (s : Scan F) (ds : DirState F) (flight : String → ℕ)
      (r : Bool × Scan F)
      → lookup dir s.dirs ≡ some ds
      → ds.state ≡ dir_done
      → IsBooked flight s
      → (let opened : DirState F = record ds { state = dir_scanning } in
          Merged dir c (record s { dirs = store dir opened s.dirs }) opened r)
      → IsBooked flight (if r.0 then r.1 else record r.1 { dirs = store dir ds r.1.dirs })
  reopen-IsBooked dir c s ds flight (true, t) at e h m =
      let opened : DirState F = record ds { state = dir_scanning } in
      let size = waiting s.frontier flight dir in
      let fit = subst (λ (x : Option (DirState F)). Fits x size) at (h dir) in
      let k =
        subst
          (λ (st : DirLifecycle). FitsState st ds.candidates_total ds.candidates_accounted_for size)
          e fit in
      let self = str_eq_self dir in
      let more : suc size ≡ waiting t.frontier flight dir = ground (arith, m.1 dir, self) in
      subst (λ (ds' : Dirs F). IsConserved ds' (waiting t.frontier flight)) (sym m.0)
        (store_rest-IsConserved (store dir opened s.dirs) (waiting t.frontier flight) dir
          (grow c.path opened)
          (subst (Fits (some (grow c.path opened))) more
            (grow-Fits c.path opened size refl (omega (arith, k))))
          (λ d ne.
            subst (λ (x : Option (DirState F)). Fits x (waiting t.frontier flight d))
              (sym (lookup-store_ne d dir opened s.dirs ne))
              (subst (Fits (lookup d s.dirs)) (ground (arith, m.1 d, ne)) (h d))))
  reopen-IsBooked dir c s ds flight (false, t) at e h m =
      let opened : DirState F = record ds { state = dir_scanning } in
      let size = waiting s.frontier flight dir in
      let fit = subst (λ (x : Option (DirState F)). Fits x size) at (h dir) in
      subst (λ (ds' : Dirs F). IsConserved (store dir ds ds') (waiting t.frontier flight)) (sym m.0)
        (store_rest-IsConserved (store dir opened s.dirs) (waiting t.frontier flight) dir ds
          (subst (Fits (some ds)) (omega (arith, m.1 dir)) fit)
          (λ d ne.
            subst (λ (x : Option (DirState F)). Fits x (waiting t.frontier flight d))
              (sym (lookup-store_ne d dir opened s.dirs ne))
              (subst (Fits (lookup d s.dirs)) (omega (arith, m.1 d)) (h d))))

  stage_at-IsBooked :
      (policy : Policy F) (dir : String) (c : Candidate F) (s : Scan F) (ds : DirState F)
      (flight : String → ℕ)
      → c.parent_dir ≡ dir
      → lookup dir s.dirs ≡ some ds
      → IsBooked flight s
      → (st : DirLifecycle) → ds.state ≡ st
      → IsBooked flight (stage_at policy dir c s ds st)
  unfolding stage_at reopen pend
  stage_at-IsBooked policy dir c s ds flight own at h dir_done e =
      let opened : DirState F = record ds { state = dir_scanning } in
      reopen-IsBooked dir c s ds flight _ at e h
        (merge_in-Merged policy dir c (record s { dirs = store dir opened s.dirs }) opened own)
  stage_at-IsBooked policy dir c s ds flight own at h dir_scanning e =
      merge_in-IsBooked dir c s ds flight _ at e h (merge_in-Merged policy dir c s ds own)
  stage_at-IsBooked policy dir c s ds flight own at h dir_calibrating e =
      store-IsConserved s.dirs _ _ dir (pend policy c ds) h
        (subst (λ (x : Option (DirState F)). Fits x (waiting s.frontier flight dir)) at (h dir))
        (λ d ne. refl)

  -- A candidate that is staged under its directory keeps the book-keeping, whether the directory
  -- is missing, calibrated, scanned or done.
  pub stage_dir_candidate-IsBooked :
      (policy : Policy F) (c : Candidate F) (s : Scan F) (flight : String → ℕ)
      → IsBooked flight s
      → IsBooked flight (stage_dir_candidate policy c.parent_dir c s)
  unfolding stage_dir_candidate stage_in
  stage_dir_candidate-IsBooked policy c s flight h =
      elim (Option-cases (lookup c.parent_dir s.dirs)) [
        | inl e ↦
            subst
              (λ (x : Option (DirState F)). IsBooked flight (stage_in policy c.parent_dir c s x))
              (sym e) h
        | inr (ds, e) ↦
            subst
              (λ (x : Option (DirState F)). IsBooked flight (stage_in policy c.parent_dir c s x))
              (sym e) (stage_at-IsBooked policy c.parent_dir c s ds flight refl e h ds.state refl)
      ]

  -- A candidate that leaves the load is accounted for.
  pub accounted-IsConserved :
      (c : Candidate F) (dirs : Dirs F) (before after : String → ℕ)
      → IsConserved dirs before
      → ((d : String) → before d ≡ after d + (if in_dir d c then 1 else 0))
      → IsConserved (account_in c.parent_dir dirs (lookup c.parent_dir dirs)) after
  unfolding account_in
  accounted-IsConserved c dirs before after h e =
      let self = str_eq_self c.parent_dir in
      let one : before c.parent_dir ≡ suc (after c.parent_dir) =
        ground (arith, e c.parent_dir, self) in
      let (ds, at, scanning) =
        loaded-IsScanning (lookup c.parent_dir dirs) (before c.parent_dir) (h c.parent_dir)
          (omega (arith, one)) in
      let fit =
        subst (λ (x : Option (DirState F)). Fits x (before c.parent_dir)) at (h c.parent_dir) in
      subst (λ (x : Option (DirState F)). IsConserved (account_in c.parent_dir dirs x) after)
        (sym at)
        (store-IsConserved dirs before after c.parent_dir (account ds) h
          (account-Fits ds (after c.parent_dir) scanning (subst (Fits (some ds)) one fit))
          (λ d ne. ground (arith, e d, ne)))

  account_all-IsConserved :
      (cs : List (Candidate F)) (dirs : Dirs F) (before after : String → ℕ)
      → IsConserved dirs before
      → ((d : String) → before d ≡ after d + count_if (in_dir d) cs)
      → IsConserved (account_all cs dirs) after
  unfolding account_all account_in
  account_all-IsConserved [] dirs before after h e =
      λ d. subst (Fits (lookup d dirs)) (omega (arith, e d)) (h d)
  account_all-IsConserved (c ∷ cs) dirs before after h e =
      let mid = λ (d : String). after d + count_if (in_dir d) cs in
      account_all-IsConserved cs (account_in c.parent_dir dirs (lookup c.parent_dir dirs)) mid after
        (accounted-IsConserved c dirs before mid h (λ d. omega (arith, e d))) (λ d. refl)

  -- Excluding a pattern keeps the book-keeping: what the sweep removes is accounted for.
  pub apply_exclude-IsBooked :
      (policy : Policy F) (pattern : String) (s : Scan F) (flight : String → ℕ)
      → IsBooked flight s
      → IsBooked flight (apply_exclude policy pattern s)
  unfolding apply_exclude
  apply_exclude-IsBooked policy pattern s flight h =
      let split =
        remove_matching-IsValid (λ c. policy.matches pattern c.parent_dir c.path) s.frontier in
      let swept =
        Frontier.remove_matching (λ c. policy.matches pattern c.parent_dir c.path) s.frontier in
      account_all-IsConserved swept.0 s.dirs (waiting s.frontier flight) (waiting swept.1 flight) h
        (λ d. omega (arith, split.1 (in_dir d)))
