-- ===== src/Engine/Coordinator/Dispatched.antt =====
-- The loop of nextDispatchable of internal/engine/coordinator.go over the frontier: the candidate
-- that it hands out, and the book-keeping of the directories.
use mathlib.Core.Path.{subst}
use smart_buster.Prelude.{
  ℕ, zero, suc, ◌+◌, ◌≤◌, ◌<◌, Bool, true, false, not, ◌&&◌, ◌≡◌, refl, sym, ap, Option, none, some,
  List, [], ◌∷◌, ◌++◌, String, arith, leb, if◌then◌else◌, length, count_if, count_if-append,
  if-elim,
}
use smart_buster.Prelude.Float.{Float, IsOrdered}
use smart_buster.Heap.Contents.{push-Permutes}
use smart_buster.Engine.Types.{Candidate, WorkItem, zero_candidate}
use smart_buster.Engine.Frontier
use smart_buster.Engine.Frontier.{Frontier, less}
use smart_buster.Engine.Events.{EventType}
use smart_buster.Engine.Coordinator.{
  dir_scanning, DirState, Dirs, lookup, Policy, Scan, url_of, account,
}
use smart_buster.Engine.Coordinator.Dispatch.{
  Draw, Verdict, discard, Outcome, is_scanning, over_budget, refused, throttled, judge, prune,
  discard_from, push_all, hand_out, serve, serve_held, on_verdict, on_pop, dispatch_loop,
  next_candidate,
}
use smart_buster.Engine.Coordinator.Conserved.{
  Fits, IsConserved, in_dir, str_eq_self, store-IsConserved, loaded-IsScanning, account-Fits,
}
use smart_buster.Engine.Coordinator.Popped.{Popped, pop_next-Popped}

module _ {F : Type 0} ⦃f : Float F⦄ ⦃o : IsOrdered F⦄ where
  -- The candidates of each directory that wait, that the loop holds, or that are in flight
  abbrev pub load : Frontier F → List (Candidate F) → (String → ℕ) → String → ℕ
  load items held flight d = count_if (in_dir d) items + (count_if (in_dir d) held + flight d)

  -- The flight with the item that was handed out
  abbrev pub with_item : Option (WorkItem F) → (String → ℕ) → String → ℕ
  with_item none flight d = flight d
  with_item (some item) flight d = (if in_dir d item.candidate then 1 else 0) + flight d

  -- An item has the address of its candidate, which is in scope and not excluded. Without an item
  -- nothing waits.
  abbrev pub IsAllowed : Policy F → Scan F → Option (WorkItem F) → Scan F → Type 0
  IsAllowed policy s none t = length t.frontier ≡ 0
  IsAllowed policy s (some item) t =
      (item.url ≡ url_of policy item.candidate.parent_dir item.candidate.path)
      × (refused policy s item.candidate ≡ false)

  abbrev pub IsKept : Policy F → Scan F → (String → ℕ) → Outcome F → Type 0
  IsKept policy s flight r =
      IsConserved r.1.dirs (load r.1.frontier [] (with_item r.0 flight))
      × IsAllowed policy s r.0 r.1

  count_if-push_all :
      (p : Candidate F → Bool) (cs : List (Candidate F)) (items : Frontier F)
      → count_if p (push_all cs items) ≡ count_if p items + count_if p cs
  unfolding push_all Frontier.push
  count_if-push_all p [] items = omega arith
  count_if-push_all p (c ∷ cs) items = omega (
    arith,
    count_if-push_all p cs (Frontier.push c items),
    (push-Permutes less zero_candidate c items).same_count p,
    count_if-append p items (c ∷ []),
  )

  hand_out-IsKept :
      (policy : Policy F) (c : Candidate F) (ds : DirState F) (held : List (Candidate F))
      (s : Scan F) (flight : String → ℕ)
      → lookup c.parent_dir s.dirs ≡ some ds
      → refused policy s c ≡ false
      → IsConserved s.dirs (load s.frontier (c ∷ held) flight)
      → let r = hand_out policy c ds held s in IsKept policy s flight (some r.0, r.1, [])
  unfolding hand_out
  hand_out-IsKept policy c ds held s flight at fine h = (
    store-IsConserved s.dirs (load s.frontier (c ∷ held) flight) _ c.parent_dir _ h
        (subst (Fits (some ds)) same (
          subst
            (λ (x : Option (DirState F)). Fits x (load s.frontier (c ∷ held) flight c.parent_dir))
            at (h c.parent_dir)))
        (λ e ne. omega (arith, count_if-push_all (in_dir e) held s.frontier, ne)),
    (refl, fine),
  )
    where
      same :
          load s.frontier (c ∷ held) flight c.parent_dir
          ≡ count_if (in_dir c.parent_dir) (push_all held s.frontier)
            + (0 + ((if in_dir c.parent_dir c then 1 else 0) + flight c.parent_dir))
      same = omega (arith, count_if-push_all (in_dir c.parent_dir) held s.frontier)

  abbrev AllFine : Policy F → Scan F → List (Candidate F) → Type 0
  AllFine policy s held = count_if (λ (c : Candidate F). refused policy s c) held ≡ 0

  -- A candidate that counts towards the load has a directory that is being scanned.
  owner :
      (c : Candidate F) (dirs : Dirs F) (size : String → ℕ)
      → IsConserved dirs size
      → 0 < size c.parent_dir
      → (ds : DirState F) × (lookup c.parent_dir dirs ≡ some ds) × (ds.state ≡ dir_scanning)
  owner c dirs size h n =
      loaded-IsScanning (lookup c.parent_dir dirs) (size c.parent_dir) (h c.parent_dir) n

  serve_held-IsKept :
      (policy : Policy F) (held : List (Candidate F)) (s : Scan F) (flight : String → ℕ)
      → length s.frontier ≡ 0
      → AllFine policy s held
      → IsConserved s.dirs (load s.frontier held flight)
      → IsKept policy s flight (serve_held policy held s)
  unfolding serve_held serve
  serve_held-IsKept policy [] s flight n fine h = (h, n)
  serve_held-IsKept policy (c ∷ held) s flight n fine h =
      let self = str_eq_self c.parent_dir in
      let own = owner c s.dirs (load s.frontier (c ∷ held) flight) h (ground (arith, self)) in
      subst (λ (x : Option (DirState F)). IsKept policy s flight (serve policy c held s x))
        (sym own.1) (hand_out-IsKept policy c own.0 held s flight own.1 (ground (arith, fine)) h)

  prune-Fits :
      (ds : DirState F) (size : ℕ)
      → ds.state ≡ dir_scanning
      → Fits (some ds) size
      → ((prune ds).0.state ≡ dir_scanning) × Fits (some (prune ds).0) size
  unfolding prune
  prune-Fits ds size e h =
      if-elim
        (λ (r : DirState F × List EventType). (r.0.state ≡ dir_scanning) × Fits (some r.0) size)
        (leb ds.budget ds.requests_dispatched && not ds.budget_pruned) (λ u. (e, h)) (λ u. (e, h))

  -- What the rest of the loop does with any state
  abbrev LoopKeeps :
      Policy F → (String → ℕ) → ℕ → (List (Candidate F) → Scan F → Outcome F) → Type 0
  LoopKeeps policy flight n loop =
      (held : List (Candidate F)) (s : Scan F)
      → length s.frontier ≤ n
      → AllFine policy s held
      → IsConserved s.dirs (load s.frontier held flight)
      → IsKept policy s flight (loop held s)

  discard-IsKept :
      (policy : Policy F) (flight : String → ℕ) (n : ℕ)
      (loop : List (Candidate F) → Scan F → Outcome F) (held : List (Candidate F)) (c : Candidate F)
      (s : Scan F) (ds : DirState F)
      → LoopKeeps policy flight n loop
      → length s.frontier ≤ n
      → AllFine policy s held
      → Fits (some ds) (load s.frontier (c ∷ held) flight c.parent_dir)
      → ds.state ≡ dir_scanning
      → IsConserved s.dirs (load s.frontier (c ∷ held) flight)
      → IsKept policy s flight (on_verdict policy loop held c s (some ds) discard)
  unfolding on_verdict discard_from
  discard-IsKept policy flight n loop held c s ds keeps small fine fit e h =
      let self = str_eq_self c.parent_dir in
      let one : load s.frontier (c ∷ held) flight c.parent_dir
          ≡ suc (load s.frontier held flight c.parent_dir) =
        ground (arith, self) in
      let marked = prune-Fits ds _ e (subst (Fits (some ds)) one fit) in
      keeps held (discard_from ds s c).0 small fine (
        store-IsConserved s.dirs (load s.frontier (c ∷ held) flight) (load s.frontier held flight)
          c.parent_dir (account (prune ds).0) h
          (account-Fits (prune ds).0 (load s.frontier held flight c.parent_dir) marked.0 marked.1)
          (λ d ne. ground (arith, ne)))

  on_verdict-IsKept :
      (policy : Policy F) (flight : String → ℕ) (n : ℕ)
      (loop : List (Candidate F) → Scan F → Outcome F) (held : List (Candidate F)) (c : Candidate F)
      (s : Scan F) (ds : DirState F)
      → LoopKeeps policy flight n loop
      → length s.frontier ≤ n
      → AllFine policy s held
      → lookup c.parent_dir s.dirs ≡ some ds
      → ds.state ≡ dir_scanning
      → IsConserved s.dirs (load s.frontier (c ∷ held) flight)
      → IsKept policy s flight
          (on_verdict policy loop held c s (some ds) (judge policy s c (some ds)))
  unfolding judge on_verdict
  on_verdict-IsKept policy flight n loop held c s ds keeps small fine at e h =
      let P =
        λ (v : Verdict). IsKept policy s flight (on_verdict policy loop held c s (some ds) v) in
      let fit =
        subst (λ (x : Option (DirState F)). Fits x (load s.frontier (c ∷ held) flight c.parent_dir))
          at (h c.parent_dir) in
      let thrown = discard-IsKept policy flight n loop held c s ds keeps small fine fit e h in
      let scanning : is_scanning ds.state ≡ true = ap is_scanning e in
      if-elim P (not (is_scanning ds.state)) (λ u. absurd (ground (arith, u, scanning)))
        (λ u.
          if-elim P (over_budget ds) (λ v. thrown)
            (λ v.
              if-elim P (refused policy s c) (λ w. thrown)
                (λ w.
                  if-elim P (throttled policy s c)
                    (λ x.
                      keeps (held ++ c ∷ []) s small
                        (ground (
                          arith,
                          fine,
                          w,
                          count_if-append (λ (k : Candidate F). refused policy s k) held (c ∷ []),
                        ))
                        (λ d.
                          subst (Fits (lookup d s.dirs))
                            (ground (arith, count_if-append (in_dir d) held (c ∷ []))) (h d)))
                    (λ x. hand_out-IsKept policy c ds held s flight at w h))))

  on_pop-IsKept :
      (policy : Policy F) (flight : String → ℕ) (n : ℕ)
      (loop : List (Candidate F) → Scan F → Outcome F) (held : List (Candidate F)) (s : Scan F)
      (r : Option (Candidate F) × Frontier F)
      → LoopKeeps policy flight n loop
      → length s.frontier ≤ suc n
      → AllFine policy s held
      → Popped s.frontier r
      → IsConserved s.dirs (load s.frontier held flight)
      → IsKept policy s flight (on_pop policy loop held s r)
  unfolding on_pop
  on_pop-IsKept policy flight n loop held s (none, rest) keeps small fine popped h =
      serve_held-IsKept policy held s flight popped.0 fine h
  on_pop-IsKept policy flight n loop held s (some c, rest) keeps small fine popped h =
      let t : Scan F = record s { frontier = rest } in
      let self = str_eq_self c.parent_dir in
      let moved : IsConserved s.dirs (load rest (c ∷ held) flight) =
        λ d. subst (Fits (lookup d s.dirs)) (omega (arith, popped.1 (in_dir d))) (h d) in
      let own = owner c s.dirs (load rest (c ∷ held) flight) moved (ground (arith, self)) in
      subst
        (λ (x : Option (DirState F)).
          IsKept policy s flight (on_verdict policy loop held c t x (judge policy t c x)))
        (sym own.1)
        (on_verdict-IsKept policy flight n loop held c t own.0 keeps (omega (arith, popped.0)) fine
          own.1 own.2 moved)

  dispatch_loop-IsKept :
      (policy : Policy F) (draws : ℕ → Draw F) (flight : String → ℕ) (n : ℕ)
      → LoopKeeps policy flight n (dispatch_loop policy draws n)
  unfolding dispatch_loop
  dispatch_loop-IsKept policy draws flight zero held s small fine h =
      serve_held-IsKept policy held s flight (omega arith) fine h
  dispatch_loop-IsKept policy draws flight (suc n) held s small fine h =
      on_pop-IsKept policy flight n (dispatch_loop policy draws n) held s _
        (dispatch_loop-IsKept policy draws flight n) small fine
        (pop_next-Popped policy (draws n) s.frontier) h

  pub next_candidate-IsKept :
      (policy : Policy F) (draws : ℕ → Draw F) (s : Scan F) (flight : String → ℕ)
      → IsConserved s.dirs (load s.frontier [] flight)
      → IsKept policy s flight (next_candidate policy draws s)
  unfolding next_candidate
  next_candidate-IsKept policy draws s flight h =
      dispatch_loop-IsKept policy draws flight (length s.frontier) [] s (omega arith) refl h
