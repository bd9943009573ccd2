-- ===== src/Engine/Coordinator/Handed.antt =====
-- What nextDispatchable of internal/engine/coordinator.go hands out, and what that does to the books.
-- Its tests of the scope and of the overrides are those of the frontier's candidates; probes and
-- fetches pass without them.
use mathlib.Core.List.{Memᴰ}
use mathlib.Core.Path.{subst}
use smart_buster.Prelude.{
  ℕ, Bool, true, false, not, ◌≡◌, refl, sym, ap, ◌∙◌, ◌⊎◌, inl, inr, Option, none, some, List, [],
  ◌∷◌, String, arith, any_of,
}
use smart_buster.Prelude.Float.{Float, IsOrdered}
use smart_buster.Engine.Types.{WorkItem}
use smart_buster.Engine.Coordinator.{DirState, Dirs, lookup, store, Policy, Scan}
use smart_buster.Engine.Coordinator.Dispatch.{
  Draw, Outcome, take_probe, probe_of, next_probe, next_fetch, on_probe, next_dispatchable,
}
use smart_buster.Engine.Coordinator.Conserved.{Fits, IsConserved, store-IsConserved}
use smart_buster.Engine.Coordinator.Dispatched.{load, IsKept, next_candidate-IsKept}

module _ {F : Type 0} where
  abbrev pub none_left : List (WorkItem F) → Bool
  none_left [] = true
  none_left (item ∷ items) = false

  -- A directory with a probe to send
  abbrev pub is_probing : Option (DirState F) → Bool
  is_probing none = false
  is_probing (some ds) = not (none_left ds.probe_queue)

  abbrev pub any_probing : List String → Dirs F → Bool
  any_probing order dirs = any_of (λ d. is_probing (lookup d dirs)) order

  abbrev pub probe_waits : Scan F → Bool
  probe_waits s = any_probing s.calibrating_order s.dirs

  -- The item is the first probe of a directory in the order, and only leaves that one's queue.
  abbrev pub IsFirstProbe : List String → Dirs F → WorkItem F → Dirs F → Type 0
  IsFirstProbe order dirs item left =
      (d : String) × (ds : DirState F) × (rest : List (WorkItem F)) × (Memᴰ d order)
      × (lookup d dirs ≡ some ds)
      × (ds.probe_queue ≡ item ∷ rest)
      × (left ≡ store d (record ds { probe_queue = rest }) dirs)

  abbrev pub IsProbe : List String → Dirs F → Option (WorkItem F × Dirs F) → Type 0
  IsProbe order dirs none = any_probing order dirs ≡ false
  IsProbe order dirs (some p) = (any_probing order dirs ≡ true) × IsFirstProbe order dirs p.0 p.1

  later-IsProbe :
      (d : String) (order : List String) (dirs : Dirs F) (later : Option (WorkItem F × Dirs F))
      → is_probing (lookup d dirs) ≡ false
      → IsProbe order dirs later
      → IsProbe (d ∷ order) dirs later
  later-IsProbe d order dirs none e h = ground (arith, e, h)
  later-IsProbe d order dirs (some p) e h =
      let (any, (c, ds, rest, k, at, queue, left)) = h in
      (ground (arith, any), (c, ds, rest, Memᴰ.tail k, at, queue, left))

  take_probe-IsProbe :
      (d : String) (order : List String) (dirs : Dirs F) (ds : DirState F)
      (later : Option (WorkItem F × Dirs F)) (queue : List (WorkItem F))
      → lookup d dirs ≡ some ds
      → ds.probe_queue ≡ queue
      → IsProbe order dirs later
      → IsProbe (d ∷ order) dirs (take_probe d dirs ds later queue)
  take_probe-IsProbe d order dirs ds later [] at e h =
      later-IsProbe d order dirs later
        (ap is_probing at ∙ ap (λ (q : List (WorkItem F)). not (none_left q)) e) h
  take_probe-IsProbe d order dirs ds later (item ∷ items) at e h =
      let here : is_probing (lookup d dirs) ≡ true =
        ap is_probing at ∙ ap (λ (q : List (WorkItem F)). not (none_left q)) e in
      (ground (arith, here), (d, ds, items, Memᴰ.head refl, at, e, refl))

  probe_of-IsProbe :
      (d : String) (order : List String) (dirs : Dirs F) (later : Option (WorkItem F × Dirs F))
      (found : Option (DirState F))
      → lookup d dirs ≡ found
      → IsProbe order dirs later
      → IsProbe (d ∷ order) dirs (probe_of d dirs later found)
  unfolding probe_of
  probe_of-IsProbe d order dirs later none at h =
      later-IsProbe d order dirs later (ap is_probing at) h
  probe_of-IsProbe d order dirs later (some ds) at h =
      take_probe-IsProbe d order dirs ds later ds.probe_queue at refl h

  next_probe-IsProbe :
      (order : List String) (dirs : Dirs F) → IsProbe order dirs (next_probe order dirs)
  unfolding next_probe
  next_probe-IsProbe [] dirs = refl
  next_probe-IsProbe (d ∷ order) dirs =
      probe_of-IsProbe d order dirs (next_probe order dirs) (lookup d dirs) refl
        (next_probe-IsProbe order dirs)

module _ {F : Type 0} ⦃f : Float F⦄ ⦃o : IsOrdered F⦄ where
  -- A probe is handed out: the frontier and the books stay.
  abbrev pub IsProbeSent : Scan F → (String → ℕ) → Outcome F → Type 0
  IsProbeSent s flight r =
      (probe_waits s ≡ true)
      × (item : WorkItem F) × (r.0 ≡ some item)
      × IsFirstProbe s.calibrating_order s.dirs item r.1.dirs
      × (r.1.frontier ≡ s.frontier)
      × IsConserved r.1.dirs (load r.1.frontier [] flight)

  -- No probe waits, and the first fetch of the harvest is handed out. All else stays.
  abbrev pub IsFetchSent : Scan F → Outcome F → Type 0
  IsFetchSent s r =
      (probe_waits s ≡ false)
      × (item : WorkItem F) × (rest : List (WorkItem F)) × (s.harvest_fetch_queue ≡ item ∷ rest)
      × (r.0 ≡ some item)
      × (r.1 ≡ record s { harvest_fetch_queue = rest })

  abbrev pub IsHanded : Policy F → Scan F → (String → ℕ) → Outcome F → Type 0
  IsHanded policy s flight r =
      IsProbeSent s flight r
      ⊎ IsFetchSent s r
      ⊎ ((probe_waits s ≡ false)
          × (none_left s.harvest_fetch_queue ≡ true)
          × IsKept policy s flight r)

  sent-IsConserved :
      (dirs : Dirs F) (order : List String) (item : WorkItem F) (left : Dirs F) (size : String → ℕ)
      → IsFirstProbe order dirs item left
      → IsConserved dirs size
      → IsConserved left size
  sent-IsConserved dirs order item left size (d, ds, rest, k, at, queue, stored) h =
      subst (λ (x : Dirs F). IsConserved x size) (sym stored)
        (store-IsConserved dirs size size d (record ds { probe_queue = rest }) h
          (subst (λ (x : Option (DirState F)). Fits x (size d)) at (h d)) (λ e u. refl))

  next_fetch-IsHanded :
      (policy : Policy F) (draws : ℕ → Draw F) (s : Scan F) (flight : String → ℕ)
      (queue : List (WorkItem F))
      → s.harvest_fetch_queue ≡ queue
      → probe_waits s ≡ false
      → IsConserved s.dirs (load s.frontier [] flight)
      → IsHanded policy s flight (next_fetch policy draws s queue)
  unfolding next_fetch
  next_fetch-IsHanded policy draws s flight [] e quiet h =
      inr (inr (quiet, ap none_left e, next_candidate-IsKept policy draws s flight h))
  next_fetch-IsHanded policy draws s flight (item ∷ items) e quiet h =
      inr (inl (quiet, item, items, e, refl, refl))

  on_probe-IsHanded :
      (policy : Policy F) (draws : ℕ → Draw F) (s : Scan F) (flight : String → ℕ)
      (probe : Option (WorkItem F × Dirs F))
      → IsProbe s.calibrating_order s.dirs probe
      → IsConserved s.dirs (load s.frontier [] flight)
      → IsHanded policy s flight (on_probe policy draws s probe)
  unfolding on_probe
  on_probe-IsHanded policy draws s flight none waits h =
      next_fetch-IsHanded policy draws s flight s.harvest_fetch_queue refl waits h
  on_probe-IsHanded policy draws s flight (some (item, left)) first h = inl (
    first.0,
    item,
    refl,
    first.1,
    refl,
    sent-IsConserved s.dirs s.calibrating_order item left (load s.frontier [] flight) first.1 h,
  )

  -- nextDispatchable, whatever it draws: while a directory in calibration has probes to send, it
  -- hands out the first of one of them, which leaves the queue; else the first fetch of the
  -- harvest, if there is one. Neither is tested against the scope or the overrides. Else it hands
  -- out a candidate that is in scope and not excluded, under the candidate's address, and it hands
  -- out nothing only if nothing waits any more. In each case, if each candidate that a directory
  -- counts was accounted for, waiting or in flight before, so it is behind the call.
  pub next_dispatchable-IsHanded :
      (policy : Policy F) (draws : ℕ → Draw F) (s : Scan F) (flight : String → ℕ)
      → IsConserved s.dirs (load s.frontier [] flight)
      → IsHanded policy s flight (next_dispatchable policy draws s)
  unfolding next_dispatchable
  next_dispatchable-IsHanded policy draws s flight h =
      on_probe-IsHanded policy draws s flight (next_probe s.calibrating_order s.dirs)
        (next_probe-IsProbe s.calibrating_order s.dirs) h
