-- ===== src/Engine/Session/Tests.antt =====
-- A session that was saved while its one candidate was in flight.
use smart_buster.Prelude.{
  ℕ, true, false, ◌≡◌, refl, some, none, List, [], ◌∷◌, String, str_eq, str_append, arith,
}
use smart_buster.Prelude.Float.{hundredths, hundredths-IsOrdered}
use smart_buster.HttpClient.Limiter.{Limiter, aimd_state}
use smart_buster.Engine.Types.{Candidate, type_dir}
use smart_buster.Engine.Coordinator.{dir_scanning, DirState, lookup, store, Policy}
use smart_buster.Engine.Coordinator.Calibrating.{new_dir}
use smart_buster.Engine.Coordinator.Conserved.{store-IsConserved}
use smart_buster.Engine.Coordinator.Staged.{IsBooked}
use smart_buster.Engine.Coordinator.Template.{Words}
use smart_buster.Engine.Coordinator.Runs.{blank, done, in_flight}
use smart_buster.Engine.Coordinator.Finish.{is_finished}
use smart_buster.Engine.Session.{
  Engine, SessionState, build_snapshot, restore_snapshot, new_coordinator_from_snapshot,
}
use smart_buster.Engine.Session.Restored.{restore_snapshot-IsBooked}
use smart_buster.Engine.Session.Resumed.{resumed, resume-build_snapshot}
use smart_buster.Engine.Session.Stalls.{resumed_run, resume_stalls}

abbrev policy : Policy ℕ
policy = record {
  target = "http://h";
  in_scope = λ url. true;
  matches = λ pattern dir path. str_eq pattern path;
  score = λ c. c.base_prio;
  union_provenance = str_append;
  subtree_burst = 1;
  epsilon = 0;
  order_jitter = false;
  max_depth = 4;
  per_dir_budget = 0;
  request_timeout = 10_000_000_000;
  time_per_branch = 0;
  learn_min_conf = 80;
}

abbrev words : Words ℕ
words = record { wordlist = []; corpus = none; nmap_seeds = [] }

abbrev tokens : String → List String
tokens dir = "zq81" ∷ []

abbrev limiter : Limiter ℕ
limiter = record {
  rate = 500;
  rate_cap = 500;
  jitter = record { kind = "none"; param1 = 0; param2 = 0 };
  last_trigger = 0;
  triggered = false;
  burst_remaining = 0;
}

abbrev word : Candidate ℕ
word = record {
  path = "admin";
  kind = type_dir;
  base_prio = 100;
  score = 100;
  depth = 1;
  parent_dir = "";
  provenance = "wordlist";
  tags = [];
}

abbrev root : DirState ℕ
root = record (new_dir "" 0 0 []) {
  state = dir_scanning;
  known_paths = "admin" ∷ [];
  candidates_total = 1;
  requests_dispatched = 1;
  budget = 1;
}

abbrev fresh : Engine ℕ
fresh = record { scan = (blank ℕ).scan; found = (blank ℕ).found; waf_ring = []; limiter = limiter }

abbrev saved : Engine ℕ
saved = record fresh { scan = record (blank ℕ).scan { dirs = store "" root [] } }

saved-IsBooked : IsBooked (in_flight (word ∷ [])) saved.scan
unfolding lookup
saved-IsBooked =
    store-IsConserved [] (λ d. 0) _ "" root (λ d. refl) (refl, omega arith) (λ e ne. ground arith)

abbrev resumed_engine : Engine ℕ
resumed_engine = restore_snapshot policy words tokens fresh (build_snapshot saved)

restore_snapshot-IsBooked_example : IsBooked (in_flight (word ∷ [])) resumed_engine.scan
unfolding store lookup
restore_snapshot-IsBooked_example =
    restore_snapshot-IsBooked policy words tokens fresh saved (in_flight (word ∷ [])) (refl, tt)
      saved-IsBooked

resume_stalls_example : is_finished 0 (resumed_run resumed_engine) ≡ false
unfolding store lookup
resume_stalls_example =
    resume_stalls policy words tokens fresh saved (word ∷ []) "" 0 (resumed_run resumed_engine)
      (refl, tt) saved-IsBooked (omega arith) (done (resumed_run resumed_engine))

resume-build_snapshot_example :
    (r : Engine ℕ) × (new_coordinator_from_snapshot policy words tokens
        (some fresh)
        (build_snapshot saved)
      ≡ some r)
    × (r.found ≡ saved.found)
    × (r.waf_ring ≡ saved.waf_ring)
    × (aimd_state r.limiter ≡ aimd_state saved.limiter)
    × (lookup "" r.scan.dirs ≡ some (resumed "" root))
    × (r.scan.overrides ≡ fresh.scan.overrides)
unfolding store lookup
resume-build_snapshot_example =
    resume-build_snapshot policy words tokens fresh saved "" root (refl, tt) refl refl

abbrev old : SessionState ℕ
old = record (build_snapshot saved) { version = 2 }
