-- ===== src/Engine/Coordinator/Tests.antt =====
-- A concrete scan of the coordinator: a root with one word, whose probes are all out of scope.
use smart_buster.Prelude.{
  ℕ, true, false, none, ◌≡◌, refl, some, List, [], ◌∷◌, str_eq, str_append, arith, length,
  if◌then◌else◌,
}
use smart_buster.Prelude.Float.{hundredths, hundredths-IsOrdered}
use smart_buster.Heap
use smart_buster.Signature.{empty_signature}
use smart_buster.Engine.Types.{Candidate, type_dir}
use smart_buster.Engine.Frontier
use smart_buster.Engine.Coordinator.{dir_done, DirState, Override, lookup, store, Policy, Scan}
use smart_buster.Engine.Coordinator.Dispatch.{Draw, next_candidate, next_probe, next_dispatchable}
use smart_buster.Engine.Coordinator.Seeds.{stage_dir_candidate}
use smart_buster.Engine.Coordinator.Calibrating.{
  new_dir, start_calibration, probes, finish_calibration, calibrated,
}
use smart_buster.Engine.Coordinator.Template.{
  Words, templates_from, templates, push_candidates, push_entries, push_seeds, push_nmap,
  merge_seed_candidate,
}
use smart_buster.Seed.{Seed}
use smart_buster.Engine.Coordinator.Paths.{cap_batch, apply_seed_batch, seed_ancestor_dirs}
use smart_buster.Engine.Coordinator.Planted.{apply_seed_batch-IsBooked}
use smart_buster.Engine.Coordinator.Capped.{IsCut, cap_batch-IsCut}
use smart_buster.Engine.Coordinator.Results.{Response, handle_real, settle_result}
use smart_buster.Engine.Coordinator.Handed.{IsHanded, next_dispatchable-IsHanded}
use smart_buster.Engine.Coordinator.Staged.{IsBooked, stage_dir_candidate-IsBooked}
use smart_buster.Engine.Coordinator.Calibrated.{start_calibration-IsBooked}
use smart_buster.Engine.Coordinator.Accounted.{handle_real-IsBooked}
use smart_buster.HttpClient.Limiter.{new_limiter_spec}
use smart_buster.Engine.Preset.{gentle_backoff}
use smart_buster.Engine.Coordinator.Control.{
  Controlled, pin, override_multiplier, match_override_pattern, apply_adjust, apply_control,
}
use smart_buster.Engine.Coordinator.Control.Kept.{apply_control-IsBooked}
use smart_buster.Engine.Coordinator.Conserved.{IsConserved-same}
use smart_buster.Engine.Coordinator.Runs.{
  Run, blank, Steps, tick, opened, fail, done, next, dispatched, IsBookedRun, steps-IsBookedRun,
}

abbrev policy : Policy ℕ
policy = record {
  target = "http://h";
  in_scope = str_eq "http://h/admin";
  matches = λ pattern dir path. str_eq pattern path;
  score = λ c. c.base_prio;
  union_provenance = str_append;
  subtree_burst = 1;
  epsilon = 0;
  order_jitter = false;
  max_depth = 4;
  per_dir_budget = 0;
  request_timeout = 10_000_000_000;
  time_per_branch = 0;
  learn_min_conf = 80;
}

abbrev words : Words ℕ
words = record {
  wordlist = record { word = "admin"; is_file = false; base_prio = 100 } ∷ [];
  corpus = none;
  nmap_seeds = [];
}

abbrev draws : ℕ → Draw ℕ
draws n = record { chance = 50; mid = 0; near = 0 }

abbrev started : Run ℕ
started = record (blank ℕ) {
  scan = start_calibration policy words "" 0 0 ("zq81" ∷ []) (blank ℕ).scan;
}

started_lem : length started.scan.frontier ≡ 1
unfolding start_calibration probes finish_calibration calibrated push_candidates templates_from
    templates push_entries push_seeds push_nmap merge_seed_candidate lookup store Frontier.push
    Heap.push Heap.up Heap.up_loop Heap.swap
started_lem = refl

abbrev sent : Run ℕ
sent = dispatched policy draws started

sent_lem : length sent.flying ≡ 1
unfolding start_calibration probes finish_calibration calibrated push_candidates templates_from
    templates push_entries push_seeds push_nmap merge_seed_candidate lookup store Frontier.push
    Heap.push Heap.up Heap.up_loop Heap.swap dispatched next_dispatchable next_candidate next_probe
    Frontier.pop Heap.pop
sent_lem = refl

abbrev word : Candidate ℕ
word = record {
  path = "admin";
  kind = type_dir;
  base_prio = 100;
  score = 100;
  depth = 1;
  parent_dir = "";
  provenance = "wordlist";
  tags = "generic" ∷ [];
}

sent-flying : sent.flying ≡ word ∷ []
unfolding start_calibration probes finish_calibration calibrated push_candidates templates_from
    templates push_entries push_seeds push_nmap merge_seed_candidate lookup store Frontier.push
    Heap.push Heap.up Heap.up_loop Heap.swap dispatched next_dispatchable next_candidate next_probe
    Frontier.pop Heap.pop
sent-flying = refl

abbrev ended : Run ℕ
ended = record sent { scan = settle_result "" sent.scan; flying = [] }

-- The root's state once its word has failed
abbrev root : DirState ℕ
root = record (new_dir "" 0 0 []) {
  state = dir_done;
  known_paths = "admin" ∷ [];
  candidates_total = 1;
  candidates_accounted_for = 1;
  requests_dispatched = 1;
  budget = 1;
}

run : Steps policy words (blank ℕ) ended
unfolding start_calibration probes finish_calibration calibrated push_candidates templates_from
    templates push_entries push_seeds push_nmap merge_seed_candidate lookup store Frontier.push
    Heap.push Heap.up Heap.up_loop Heap.swap dispatched next_dispatchable next_candidate next_probe
    Frontier.pop Heap.pop settle_result
run = next (blank ℕ) started ended (opened (blank ℕ) "" 0 0 ("zq81" ∷ []) refl) (
    next started sent ended (tick draws started)
      (next sent ended ended (fail sent.scan sent.found [] [] word) (done ended)))

blank-IsBookedRun : IsBookedRun (blank ℕ)
unfolding lookup
blank-IsBookedRun d = refl

steps-IsBookedRun_example : IsBookedRun ended
steps-IsBookedRun_example = steps-IsBookedRun policy words (blank ℕ) ended run blank-IsBookedRun

started-IsBooked : IsBooked (λ d. 0) started.scan
unfolding lookup
started-IsBooked =
    start_calibration-IsBooked policy words "" 0 0 ("zq81" ∷ []) (blank ℕ).scan (λ d. 0)
      blank-IsBookedRun refl

next_dispatchable-IsHanded_example :
    IsHanded policy started.scan (λ d. 0) (next_dispatchable policy draws started.scan)
next_dispatchable-IsHanded_example =
    next_dispatchable-IsHanded policy draws started.scan (λ d. 0)
      (IsConserved-same started.scan _ _ (λ d. omega arith) started-IsBooked)

abbrev seed : Candidate ℕ
seed = record word { path = "secret"; provenance = "robots:disallow" }

stage_dir_candidate-IsBooked_example :
    IsBooked (λ d. 0) (stage_dir_candidate policy "" seed started.scan)
stage_dir_candidate-IsBooked_example =
    stage_dir_candidate-IsBooked policy seed started.scan (λ d. 0) started-IsBooked

-- A root whose one probe is in scope and still out
abbrev probing : Scan ℕ
probing = start_calibration policy words "" 0 0 ("admin" ∷ []) (blank ℕ).scan

abbrev probed_root : DirState ℕ
probed_root = new_dir "" 0 0 (probes policy "" 0 ("admin" ∷ []))

probing-IsBooked : IsBooked (λ d. 0) probing
unfolding lookup
probing-IsBooked =
    start_calibration-IsBooked policy words "" 0 0 ("admin" ∷ []) (blank ℕ).scan (λ d. 0)
      blank-IsBookedRun refl

abbrev answer : Response ℕ
answer = record {
  item = record {
    candidate = word;
    url = "http://h/admin";
    is_probe = false;
    probe_tag = "";
    is_harvest_fetch = false;
  };
  signature = record empty_signature { status = 301 };
  is_hit = true;
  confidence = 85;
  is_spa = false;
  now = 5;
  tokens = "zq82" ∷ [];
  generated = seed ∷ [];
}

sent-IsBooked : IsBookedRun sent
sent-IsBooked =
    steps-IsBookedRun policy words started sent
      (next started sent sent (tick draws started) (done sent)) started-IsBooked

handle_real-IsBooked_example :
    IsBooked (λ d. 0) (handle_real policy words answer sent.scan (blank ℕ).found).0
unfolding start_calibration probes finish_calibration calibrated push_candidates templates_from
    templates push_entries push_seeds push_nmap merge_seed_candidate lookup store Frontier.push
    Heap.push Heap.up Heap.up_loop Heap.swap dispatched next_dispatchable next_candidate next_probe
    Frontier.pop Heap.pop
handle_real-IsBooked_example =
    handle_real-IsBooked policy words answer sent.scan (blank ℕ).found
      (λ d. if str_eq "" d then 1 else 0) (λ d. 0)
      (IsConserved-same sent.scan _ _ (λ d. omega arith) sent-IsBooked) (λ d. omega arith) refl

-- Two seeds, whose directories are new
abbrev batch : List (Seed ℕ)
batch =
    record { path = "/a/b/c"; is_dir_hint = true; base_prio = 90; provenance = "sitemap" }
    ∷ record { path = "/admin"; is_dir_hint = true; base_prio = 95; provenance = "robots:disallow" }
    ∷ []

apply_seed_batch-IsBooked_example :
    IsBooked (λ d. 0) (apply_seed_batch policy words 4 0 (λ d. "zq83" ∷ []) batch started.scan)
apply_seed_batch-IsBooked_example =
    apply_seed_batch-IsBooked policy words 4 0 (λ d. "zq83" ∷ []) batch started.scan (λ d. 0)
      started-IsBooked

cap_batch-IsCut_example : IsCut [] batch (cap_batch [] batch)
cap_batch-IsCut_example = cap_batch-IsCut [] batch

ancestors_of_a_seed : seed_ancestor_dirs "a/b/c" ≡ "/a" ∷ "/a/b" ∷ []
unfolding seed_ancestor_dirs
ancestors_of_a_seed = refl

abbrev controlled : Controlled ℕ
controlled = record {
  scan = started.scan;
  paused = false;
  cancelled = false;
  limiter = new_limiter_spec 0 (record { kind = "none"; param1 = 0; param2 = 0 });
  mode = "normal";
  header_profile = "chrome";
  order_jitter = false;
  referer_enabled = false;
  backoff_spec = gentle_backoff;
  epsilon = 0;
  concurrency_cap = 20;
  worker_count = 20;
}

abbrev rescore : List (Override ℕ) → Candidate ℕ → ℕ
rescore ovs c = override_multiplier policy c ovs c.base_prio

apply_control-IsBooked_example :
    IsBooked
      (λ d. 0)
      (apply_control rescore policy words 4 0
        (λ d. "zq83" ∷ [])
        (pin "admin/secret")
        controlled).scan
apply_control-IsBooked_example =
    apply_control-IsBooked rescore policy words 4 0 (λ d. "zq83" ∷ []) (pin "admin/secret")
      controlled (λ d. 0) started-IsBooked

prefix_crosses_slash : match_override_pattern (λ p s. none) "admin/*" "/admin/sub" "x" ≡ true
unfolding match_override_pattern
prefix_crosses_slash = refl

raised_to_fast : (apply_adjust none (some 40) (some "fast") controlled).worker_count ≡ 40
unfolding apply_adjust
raised_to_fast = refl
