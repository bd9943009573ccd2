-- ===== src/Engine/Coordinator/Control.antt =====
-- The manual overrides of internal/engine/control.go: applyControl and what it calls, and
-- overrideMultiplier. `path_match` is path.Match, none for a malformed pattern; `rescore` is
-- scoreCandidate under the overrides that are given. SubmitControl is a send over a channel, and
-- the snapshot of a session is Engine.Session's. Workers that are spawned are counted.
pub mod Kept
use Prim.Native.Char.{Char, code}
use smart_buster.Prelude.{
  ℕ, ◌+◌, Bool, true, false, not, ◌&&◌, ◌||◌, Option, none, some, List, [], ◌∷◌, ◌++◌, String,
  str_eq, ltb, ◌==◌, ◌%◌, if◌then◌else◌,
}
use smart_buster.Prelude.Float.{Float}
use smart_buster.Prelude.Text.{append, has_prefix, trim_prefix}
use smart_buster.HttpClient.Limiter.{Limiter, set_rate_cap, set_jitter_spec}
use smart_buster.Seed.{Seed}
use smart_buster.Seed.Normalize.{has_byte}
use smart_buster.Engine.Types.{Candidate}
use smart_buster.Engine.Backoff.{BackoffSpec}
use smart_buster.Engine.Preset.{Preset, preset_for}
use smart_buster.Engine.Frontier
use smart_buster.Engine.Coordinator.{
  OverrideKind, ov_boost, ov_demote, ov_exclude, Override, Policy, Scan,
}
use smart_buster.Engine.Coordinator.Seeds.{apply_exclude}
use smart_buster.Engine.Coordinator.Template.{Words}
use smart_buster.Engine.Coordinator.Paths.{enqueue_seed}

pub data ControlCmd (F : Type 0) : Type 0 where
  pause resume stop snapshot : ControlCmd F
  adjust : Option F → Option ℕ → Option String → ControlCmd F
  pin exclude : String → ControlCmd F
  boost demote : String → F → ControlCmd F
  inject : List String → ControlCmd F

-- The coordinator's state that control commands change
pub record Controlled (F : Type 0) : Type 0 where
  pub scan : Scan F
  pub paused : Bool
  pub cancelled : Bool
  pub limiter : Limiter F
  pub mode : String
  pub header_profile : String
  pub order_jitter : Bool
  pub referer_enabled : Bool
  pub backoff_spec : BackoffSpec F
  pub epsilon : F
  pub concurrency_cap : ℕ
  pub worker_count : ℕ

-- strings.CutSuffix at "*"
unfoldable pub cut_star : String → Option String
cut_star String.[] = none
cut_star (String.◌∷◌ c String.[]) = if code c == b'*' then some "" else none
cut_star (String.◌∷◌ c (String.◌∷◌ d s)) = elim (cut_star (String.◌∷◌ d s)) [
  | none ↦ none
  | some rest ↦ some (String.◌∷◌ c rest)
]

abbrev pub is_match : Option Bool → Bool
is_match none = false
is_match (some m) = m

unfoldable pub match_override_pattern :
    (String → String → Option Bool) → String → String → String → Bool
unfolding trim_prefix cut_star has_prefix append
match_override_pattern path_match pattern dir p =
    let full = trim_prefix (append (append dir "/") p) "/" in
    str_eq pattern full
    || str_eq pattern p
    || elim (cut_star pattern) [ none ↦ false | some prefix ↦ has_prefix full prefix ]
    || is_match (path_match pattern full)
    || is_match (path_match pattern p)

unfoldable pub is_glob_pattern : String → Bool
unfolding has_byte
is_glob_pattern pattern = has_byte b'*' pattern || has_byte b'?' pattern || has_byte b'[' pattern

-- int32(n), where a negative number is 0: both let nothing start.
abbrev pub as_int32 : ℕ → ℕ
as_int32 n = let low = n % 4_294_967_296 in if ltb low 2_147_483_648 then low else 0

module _ {F : Type 0} ⦃f : Float F⦄ where
  abbrev pub apply_factor : OverrideKind → F → F → F
  apply_factor ov_boost factor m = f.mul m factor
  apply_factor ov_demote factor m = f.div m factor
  apply_factor ov_exclude factor m = m

  unfoldable pub override_multiplier : Policy F → Candidate F → List (Override F) → F → F
  override_multiplier policy c [] m = m
  override_multiplier policy c (ov ∷ ovs) m = override_multiplier policy c ovs (
      if policy.matches ov.pattern c.parent_dir c.path then apply_factor ov.kind ov.factor m else m)

  abbrev pub pin_score : F
  pin_score = f.lit 1000 1

  -- `c.overrides = append(c.overrides, ov)`, and the new scores
  unfoldable pub add_override : (List (Override F) → Candidate F → F) → Override F → Scan F → Scan F
  add_override rescore ov s =
      let overrides = s.overrides ++ ov ∷ [] in
      record s {
        overrides = overrides;
        frontier =
            Frontier.reprioritize (λ (c : Candidate F). record c { score = rescore overrides c })
              s.frontier;
      }

  unfoldable pub apply_override :
      (List (Override F) → Candidate F → F) → String → F → OverrideKind → Scan F → Scan F
  unfolding add_override
  apply_override rescore pattern factor kind s =
      add_override rescore
        (record {
          pattern = pattern;
          kind = kind;
          factor = if f.le factor (f.lit 0 1) then f.lit 1 1 else factor;
        })
        s

  abbrev pub user_seed : String → String → Seed F
  user_seed path provenance = record {
    path = path;
    is_dir_hint = false;
    base_prio = f.lit 1 1;
    provenance = provenance;
  }

  -- The policy that scores under the overrides of the scan
  abbrev pub scoring_under : (List (Override F) → Candidate F → F) → Scan F → Policy F → Policy F
  scoring_under rescore s policy = record policy { score = rescore s.overrides }

  -- A pattern without wildcards is a path that is tried, scored under its own override.
  unfoldable pub apply_pin :
      (List (Override F) → Candidate F → F)
      → Policy F
      → Words F
      → ℕ
      → ℕ
      → (String → List String)
      → String
      → Scan F
      → Scan F
  unfolding add_override enqueue_seed is_glob_pattern
  apply_pin rescore policy words crawl_depth now tokens pattern s =
      let pinned =
        add_override rescore (record { pattern = pattern; kind = ov_boost; factor = pin_score })
          s in
      if is_glob_pattern pattern
      then pinned
      else enqueue_seed (scoring_under rescore pinned policy) words crawl_depth now tokens
          (user_seed pattern "user:pin") pinned

  unfoldable pub inject_terms :
      Policy F → Words F → ℕ → ℕ → (String → List String) → List String → Scan F → Scan F
  unfolding enqueue_seed
  inject_terms policy words crawl_depth now tokens [] s = s
  inject_terms policy words crawl_depth now tokens (term ∷ terms) s =
      inject_terms policy words crawl_depth now tokens terms (
        if str_eq term ""
        then s
        else enqueue_seed policy words crawl_depth now tokens (user_seed term "user") s)

  unfoldable pub apply_preset : Preset F → Controlled F → Controlled F
  unfolding set_rate_cap set_jitter_spec
  apply_preset p c = record c {
    limiter = set_jitter_spec p.jitter (set_rate_cap p.rate_cap c.limiter);
    header_profile = p.header_profile;
    order_jitter = p.order_jitter;
    referer_enabled = p.referer;
    backoff_spec = p.backoff;
    epsilon = p.epsilon;
  }

  abbrev pub set_mode : Option String → Controlled F → Controlled F
  set_mode none c = c
  set_mode (some mode) c = apply_preset (preset_for mode) (record c { mode = mode })

  abbrev pub set_rate_of : Option F → Controlled F → Controlled F
  set_rate_of none c = c
  set_rate_of (some rate) c = record c { limiter = set_rate_cap rate c.limiter }

  -- Workers are added up to the new number, and never taken away.
  abbrev pub set_concurrency : Option ℕ → Controlled F → Controlled F
  set_concurrency none c = c
  set_concurrency (some n) c =
      if ltb 0 n
      then record c {
        concurrency_cap = as_int32 n;
        worker_count = if ltb c.worker_count n then n else c.worker_count;
      }
      else c

  -- The mode first, so that a rate or a concurrency of the same command wins.
  unfoldable pub apply_adjust : Option F → Option ℕ → Option String → Controlled F → Controlled F
  unfolding apply_preset preset_for set_rate_cap
  apply_adjust rate concurrency mode c =
      set_concurrency concurrency (set_rate_of rate (set_mode mode c))

  abbrev pub on_scan : (Scan F → Scan F) → Controlled F → Controlled F
  on_scan fn c = record c { scan = fn c.scan }

  unfoldable pub apply_control :
      (List (Override F) → Candidate F → F)
      → Policy F
      → Words F
      → ℕ
      → ℕ
      → (String → List String)
      → ControlCmd F
      → Controlled F
      → Controlled F
  unfolding apply_adjust apply_pin apply_exclude apply_override inject_terms
  apply_control rescore policy words crawl_depth now tokens pause c = record c { paused = true }
  apply_control rescore policy words crawl_depth now tokens resume c = record c { paused = false }
  apply_control rescore policy words crawl_depth now tokens stop c = record c { cancelled = true }
  apply_control rescore policy words crawl_depth now tokens snapshot c = c
  apply_control rescore policy words crawl_depth now tokens (adjust rate concurrency mode) c =
      apply_adjust rate concurrency mode c
  apply_control rescore policy words crawl_depth now tokens (pin pattern) c =
      on_scan (apply_pin rescore policy words crawl_depth now tokens pattern) c
  apply_control rescore policy words crawl_depth now tokens (exclude pattern) c =
      on_scan (apply_exclude policy pattern) c
  apply_control rescore policy words crawl_depth now tokens (boost pattern factor) c =
      on_scan (apply_override rescore pattern factor ov_boost) c
  apply_control rescore policy words crawl_depth now tokens (demote pattern factor) c =
      on_scan (apply_override rescore pattern factor ov_demote) c
  apply_control rescore policy words crawl_depth now tokens (inject terms) c =
      on_scan
        (inject_terms (scoring_under rescore c.scan policy) words crawl_depth now tokens terms) c
