-- ===== src/Engine/Coordinator/Dispatch.antt =====
-- nextDispatchable of internal/engine/coordinator.go, and popNext of internal/engine/dynamic.go.
-- The probes and the fetches of the harvest come before the frontier, past its tests.
use smart_buster.Prelude.{
  ℕ, zero, suc, ◌+◌, Bool, true, false, not, ◌&&◌, ◌||◌, Option, none, some, List, [], ◌∷◌, ◌++◌,
  String, str_eq, ltb, leb, if◌then◌else◌, length,
}
use smart_buster.Prelude.Float.{Float}
use smart_buster.Engine.Types.{Candidate, WorkItem}
use smart_buster.Engine.Frontier
use smart_buster.Engine.Frontier.{Frontier, order_jitter_band}
use smart_buster.Engine.Events.{EventType, branch_pruned}
use smart_buster.Engine.Coordinator.{
  DirLifecycle, dir_scanning, DirState, Dirs, lookup, store, Policy, Scan, is_excluded, url_of,
  account, record_dispatch,
}

-- What one call of popNext draws from the random sources
pub record Draw (F : Type 0) : Type 0 where
  pub chance : F
  pub mid : ℕ
  pub near : ℕ

abbrev pub is_scanning : DirLifecycle → Bool
is_scanning dir_scanning = true
is_scanning _ = false

-- What the loop does with a candidate
pub data Verdict : Type 0 where
  skip discard hold send : Verdict

-- The item to dispatch, the new state, and the events
abbrev pub Outcome : Type 0 → Type 0
Outcome F = Option (WorkItem F) × Scan F × List EventType

module _ {F : Type 0} where
  -- The head of the queue of the directory ds, or else what the later directories give
  abbrev pub take_probe :
      String
      → Dirs F
      → DirState F
      → Option (WorkItem F × Dirs F)
      → List (WorkItem F)
      → Option (WorkItem F × Dirs F)
  take_probe d dirs ds later [] = later
  take_probe d dirs ds later (item ∷ items) =
      some (item, store d (record ds { probe_queue = items }) dirs)

  unfoldable pub probe_of :
      String
      → Dirs F
      → Option (WorkItem F × Dirs F)
      → Option (DirState F)
      → Option (WorkItem F × Dirs F)
  unfolding store
  probe_of d dirs later none = later
  probe_of d dirs later (some ds) = take_probe d dirs ds later ds.probe_queue

  -- The loop over calibratingOrder
  unfoldable pub next_probe : List String → Dirs F → Option (WorkItem F × Dirs F)
  unfolding probe_of lookup
  next_probe [] dirs = none
  next_probe (d ∷ ds) dirs = probe_of d dirs (next_probe ds dirs) (lookup d dirs)

module _ {F : Type 0} ⦃f : Float F⦄ where
  unfoldable pub pop_greedy : Policy F → Draw F → Frontier F → Option (Candidate F) × Frontier F
  pop_greedy policy draw [] = (none, [])
  pop_greedy policy draw (c ∷ cs) =
      let (best, rest) =
        if policy.order_jitter
        then Frontier.pop_band draw.near order_jitter_band (c ∷ cs)
        else Frontier.pop (c ∷ cs) in
      (some best, rest)

  -- The sample is never empty where popNext takes one, since the frontier is not.
  unfoldable pub pop_next : Policy F → Draw F → Frontier F → Option (Candidate F) × Frontier F
  unfolding pop_greedy
  pop_next policy draw items =
      if f.lt (f.lit 0 1) policy.epsilon && ltb 2 (length items) && f.lt draw.chance policy.epsilon
      then Frontier.sample_mid_tier draw.mid items
      else pop_greedy policy draw items

  -- `ds.capped || ds.requestsDispatched >= ds.budget`
  abbrev pub over_budget : DirState F → Bool
  over_budget ds = ds.capped || leb ds.budget ds.requests_dispatched

  abbrev pub refused : Policy F → Scan F → Candidate F → Bool
  refused policy s c =
      not (policy.in_scope (url_of policy c.parent_dir c.path))
      || is_excluded policy s.overrides c.parent_dir c.path

  abbrev pub throttled : Policy F → Scan F → Candidate F → Bool
  throttled policy s c =
      ltb 0 policy.subtree_burst
      && str_eq c.parent_dir s.last_dispatch_dir
      && leb policy.subtree_burst s.dispatch_streak

  unfoldable pub judge : Policy F → Scan F → Candidate F → Option (DirState F) → Verdict
  unfolding is_excluded
  judge policy s c none = skip
  judge policy s c (some ds) =
      if not (is_scanning ds.state)
      then skip
      else if over_budget ds
      then discard
      else if refused policy s c
      then discard
      else if throttled policy s c
      then hold
      else send

  -- The flag and the event of the first discard over the budget
  unfoldable pub prune : DirState F → DirState F × List EventType
  prune ds =
      if leb ds.budget ds.requests_dispatched && not ds.budget_pruned
      then (record ds { budget_pruned = true }, branch_pruned ∷ [])
      else (ds, [])

  unfoldable pub discard_from : DirState F → Scan F → Candidate F → Scan F × List EventType
  unfolding prune account store
  discard_from ds s c =
      let (marked, events) = prune ds in
      (record s { dirs = store c.parent_dir (account marked) s.dirs }, events)

  unfoldable pub push_all : List (Candidate F) → Frontier F → Frontier F
  push_all [] items = items
  push_all (c ∷ cs) items = push_all cs (Frontier.push c items)

  -- Hand out a candidate of the directory ds, and put back the others that were held.
  unfoldable pub hand_out :
      Policy F → Candidate F → DirState F → List (Candidate F) → Scan F → WorkItem F × Scan F
  unfolding record_dispatch push_all store
  hand_out policy c ds held s =
      let t = record_dispatch c.parent_dir s in
      (
        record {
          candidate = c;
          url = url_of policy c.parent_dir c.path;
          is_probe = false;
          probe_tag = "";
          is_harvest_fetch = false;
        },
        record t {
          frontier = push_all held s.frontier;
          dirs =
              store c.parent_dir (record ds { requests_dispatched = ds.requests_dispatched + 1 })
                s.dirs;
        },
      )

  -- After the loop: the frontier is empty, and a candidate that was held is served. A directory
  -- that is missing would be a nil dereference in Go; none is held without its directory.
  unfoldable pub serve :
      Policy F → Candidate F → List (Candidate F) → Scan F → Option (DirState F) → Outcome F
  unfolding hand_out
  serve policy c held s none = (none, s, [])
  serve policy c held s (some ds) =
      let (item, t) = hand_out policy c ds held s in (some item, t, [])

  unfoldable pub serve_held : Policy F → List (Candidate F) → Scan F → Outcome F
  unfolding serve lookup
  serve_held policy [] s = (none, s, [])
  serve_held policy (c ∷ held) s = serve policy c held s (lookup c.parent_dir s.dirs)

  -- The body of the loop, given the rest of the loop
  unfoldable pub on_verdict :
      Policy F
      → (List (Candidate F) → Scan F → Outcome F)
      → List (Candidate F)
      → Candidate F
      → Scan F
      → Option (DirState F)
      → Verdict
      → Outcome F
  unfolding discard_from hand_out
  on_verdict policy loop held c s none verdict = loop held s
  on_verdict policy loop held c s (some ds) skip = loop held s
  on_verdict policy loop held c s (some ds) discard =
      let (t, events) = discard_from ds s c in
      let (item, u, more) = loop held t in (item, u, events ++ more)
  on_verdict policy loop held c s (some ds) hold = loop (held ++ c ∷ []) s
  on_verdict policy loop held c s (some ds) send =
      let (item, t) = hand_out policy c ds held s in (some item, t, [])

  unfoldable pub on_pop :
      Policy F
      → (List (Candidate F) → Scan F → Outcome F)
      → List (Candidate F)
      → Scan F
      → Option (Candidate F) × Frontier F
      → Outcome F
  unfolding serve_held on_verdict judge lookup
  on_pop policy loop held s (none, rest) = serve_held policy held s
  on_pop policy loop held s (some c, rest) =
      let t = record s { frontier = rest } in
      let ds = lookup c.parent_dir s.dirs in
      on_verdict policy loop held c t ds (judge policy t c ds)

  -- Every round takes a candidate out of the frontier, so rounds run out only at an empty one.
  unfoldable pub dispatch_loop :
      Policy F → (ℕ → Draw F) → ℕ → List (Candidate F) → Scan F → Outcome F
  unfolding serve_held on_pop pop_next
  dispatch_loop policy draws zero held s = serve_held policy held s
  dispatch_loop policy draws (suc n) held s =
      on_pop policy (dispatch_loop policy draws n) held s (pop_next policy (draws n) s.frontier)

  -- The part of nextDispatchable behind its two queues
  unfoldable pub next_candidate : Policy F → (ℕ → Draw F) → Scan F → Outcome F
  unfolding dispatch_loop
  next_candidate policy draws s = dispatch_loop policy draws (length s.frontier) [] s

  unfoldable pub next_fetch : Policy F → (ℕ → Draw F) → Scan F → List (WorkItem F) → Outcome F
  unfolding next_candidate
  next_fetch policy draws s [] = next_candidate policy draws s
  next_fetch policy draws s (item ∷ items) =
      (some item, record s { harvest_fetch_queue = items }, [])

  unfoldable pub on_probe :
      Policy F → (ℕ → Draw F) → Scan F → Option (WorkItem F × Dirs F) → Outcome F
  unfolding next_fetch
  on_probe policy draws s none = next_fetch policy draws s s.harvest_fetch_queue
  on_probe policy draws s (some (item, dirs)) = (some item, record s { dirs = dirs }, [])

  unfoldable pub next_dispatchable : Policy F → (ℕ → Draw F) → Scan F → Outcome F
  unfolding on_probe next_probe
  next_dispatchable policy draws s = on_probe policy draws s (next_probe s.calibrating_order s.dirs)
