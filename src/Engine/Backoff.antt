-- ===== src/Engine/Backoff.antt =====
-- The adaptive backoff of internal/engine/coordinator.go (detectWAFOnset, checkLatencySpike,
-- triggerBackoff, maybeRecoverBackoff, updateBudgetPacing) and BackoffSpec of preset.go.
-- Each function takes the part of the coordinator that it reads or writes, and returns what it
-- writes with the events that it emits.
pub mod Rate
pub mod Ring
mod Tests
use smart_buster.Prelude.{
  ℕ, zero, suc, ◌+◌, ◌*◌, ◌-◌, ◌≤◌, Bool, true, false, not, ◌&&◌, ◌||◌, List, [], ◌∷◌, ◌++◌, ltb,
  leb, ◌==◌, if◌then◌else◌, length, drop, count_if,
}
use smart_buster.Prelude.Float.{Float}
use smart_buster.HttpClient.Limiter
use smart_buster.HttpClient.Limiter.{Limiter, zero_rate}
use smart_buster.Engine.Events.{EventType, throttle, warning}

pub record BackoffSpec (F : Type 0) : Type 0 where
  pub enabled : Bool
  pub decrease : F
  pub step : F
  pub recovery_window : ℕ

pub record WafSample : Type 0 where
  pub status : ℕ
  pub novel : Bool

abbrev pub waf_ring_size : ℕ
waf_ring_size = 20

abbrev pub waf_spike_threshold : ℕ
waf_spike_threshold = 5

abbrev pub waf_novel_run_length : ℕ
waf_novel_run_length = 8

-- Append, and drop the oldest sample past the size of the ring.
unfoldable pub push_sample : WafSample → List WafSample → List WafSample
push_sample s ring =
    let grown = ring ++ s ∷ [] in if ltb waf_ring_size (length grown) then drop 1 grown else grown

abbrev pub is_refusal : WafSample → Bool
is_refusal s = s.status == 429 || s.status == 403

-- The `for` loop over the ring that counts the 429s and 403s.
unfoldable pub spike : List WafSample → ℕ
spike ring = count_if is_refusal ring

-- The loop from the end of the ring, over the ring read forwards: a sample that is not novel
-- starts the run anew.
unfoldable pub novel_run_from : ℕ → List WafSample → ℕ
novel_run_from run [] = run
novel_run_from run (s ∷ ring) = novel_run_from (if s.novel then run + 1 else 0) ring

unfoldable pub is_onset : List WafSample → Bool
unfolding spike novel_run_from
is_onset ring =
    leb waf_spike_threshold (spike ring) || leb waf_novel_run_length (novel_run_from 0 ring)

abbrev pub min_latency_baseline : ℕ
min_latency_baseline = 50_000_000

module _ {F : Type 0} ⦃f : Float F⦄ where
  unfoldable pub trigger_backoff : BackoffSpec F → ℕ → Limiter F → Limiter F × List EventType
  unfolding Limiter.in_backoff Limiter.trigger_backoff
  trigger_backoff spec now l =
      if not spec.enabled
      then (l, [])
      else if Limiter.in_backoff now spec.recovery_window l
      then (l, [])
      else (Limiter.trigger_backoff spec.decrease now l, throttle ∷ [])

  -- detectWAFOnset, given whether the response is novel
  unfoldable pub detect_waf_onset :
      BackoffSpec F
      → ℕ
      → WafSample
      → List WafSample
      → Limiter F
      → List WafSample × (Limiter F × List EventType)
  unfolding push_sample is_onset trigger_backoff
  detect_waf_onset spec now s ring l =
      let ring' = push_sample s ring in
      (ring', if is_onset ring' then trigger_backoff spec now l else (l, []))

  -- checkLatencySpike. `time.Duration(3.0 * float64(median))` is 3 * median for every median
  -- below 2 ^ 51 nanoseconds, which is 26 days.
  unfoldable pub check_latency_spike :
      BackoffSpec F → ℕ → ℕ → ℕ → Limiter F → Limiter F × List EventType
  unfolding trigger_backoff
  check_latency_spike spec now median elapsed l =
      if ltb median min_latency_baseline
      then (l, [])
      else if ltb (3 * median) elapsed
      then trigger_backoff spec now l
      else (l, [])

  unfoldable pub maybe_recover_backoff : BackoffSpec F → ℕ → Limiter F → Limiter F × List EventType
  unfolding Limiter.maybe_recover
  maybe_recover_backoff spec now l =
      if not spec.enabled
      then (l, [])
      else let (l', recovered) = Limiter.maybe_recover spec.step spec.recovery_window now l in
        (l', if recovered then warning ∷ [] else [])

  -- updateBudgetPacing. `remaining` is the time to the deadline in nanoseconds, 0 when it has
  -- passed, and the new cap is `float64(frontierLen) / remaining.Seconds()`.
  unfoldable pub update_budget_pacing : ℕ → ℕ → ℕ → Limiter F → Limiter F
  unfolding Limiter.set_rate_cap
  update_budget_pacing budget remaining frontier_len l =
      if budget == 0
      then l
      else if remaining == 0
      then Limiter.set_rate_cap zero_rate l
      else if frontier_len == 0
      then l
      else Limiter.set_rate_cap
          (f.div (f.lit frontier_len 1) (f.div (f.lit remaining 1) (f.lit 1_000_000_000 1))) l
