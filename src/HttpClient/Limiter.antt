-- ===== src/HttpClient/Limiter.antt =====
-- internal/httpclient/ratelimit.go: the limiter that computes pacing intervals and holds the
-- AIMD backoff. Times and durations are nanoseconds; what a call draws from its `*rand.Rand`
-- is a record of the values drawn, in the order of the calls.
pub mod Recovery
mod Tests
use smart_buster.Prelude.{
  ℕ, zero, suc, ◌+◌, ◌-◌, String, Bool, true, false, ◌&&◌, ◌||◌, not, ltb, if◌then◌else◌, str_eq,
}
use smart_buster.Prelude.Int.{ℤ, pos, negsuc}
use smart_buster.Prelude.Float.{Float}

pub record JitterSpec (F : Type 0) : Type 0 where
  pub kind : String
  pub param1 : F
  pub param2 : F

pub record Limiter (F : Type 0) : Type 0 where
  pub rate : F
  pub rate_cap : F
  pub jitter : JitterSpec F
  pub last_trigger : ℕ
  pub triggered : Bool
  pub burst_remaining : ℕ

-- The next values of rng.Float64() (two of them) and of rng.NormFloat64().
pub record Draws (F : Type 0) : Type 0 where
  pub first : F
  pub second : F
  pub normal : F

-- `if size < 1 { size = 1 }`
unfoldable pub at_least_one : ℤ → ℕ
at_least_one (pos n) = if ltb n 1 then 1 else n
at_least_one (negsuc n) = 1

module _ {F : Type 0} ⦃f : Float F⦄ where
  abbrev pub zero_rate : F
  zero_rate = f.lit 0 1

  abbrev pub default_jitter : F
  default_jitter = f.lit 30 100

  abbrev pub backoff_fallback_rate : F
  backoff_fallback_rate = f.lit 2 1

  -- The zero value of time.Time, before any trigger, is 0.
  unfoldable pub new_limiter_spec : F → JitterSpec F → Limiter F
  new_limiter_spec rate spec = record {
    rate = rate;
    rate_cap = rate;
    jitter = spec;
    last_trigger = 0;
    triggered = false;
    burst_remaining = 0;
  }

  unfoldable pub new_limiter : F → F → Limiter F
  unfolding new_limiter_spec
  new_limiter rate jitter = new_limiter_spec rate (record {
    kind = "uniform";
    param1 = if f.le jitter zero_rate then default_jitter else jitter;
    param2 = zero_rate;
  })

  unfoldable pub unbounded : Limiter F → Bool
  unbounded l = f.le l.rate zero_rate

  unfoldable pub set_rate : F → Limiter F → Limiter F
  set_rate rate l = record l { rate = rate }

  unfoldable pub set_rate_cap : F → Limiter F → Limiter F
  set_rate_cap cap_rate l = record l { rate_cap = cap_rate; rate = cap_rate }

  unfoldable pub set_jitter_spec : JitterSpec F → Limiter F → Limiter F
  set_jitter_spec spec l = record l { jitter = spec; burst_remaining = 0 }

  -- burstyInterval
  unfoldable pub bursty_interval : Draws F → F → Limiter F → ℤ × Limiter F
  unfolding at_least_one
  bursty_interval rng base l =
      let burst_mean = if f.le l.jitter.param1 zero_rate then f.lit 3 1 else l.jitter.param1 in
      let pause_mult = if f.le l.jitter.param2 zero_rate then f.lit 5 1 else l.jitter.param2 in
      let size =
        at_least_one (
          f.to_int (f.round (f.add burst_mean (f.mul (f.sub rng.first (f.lit 1 2)) burst_mean)))) in
      if ltb 0 l.burst_remaining
      then (
        f.to_int (f.mul (f.mul base (f.lit 15 100)) (f.add (f.lit 1 2) rng.first)),
        record l { burst_remaining = l.burst_remaining - 1 },
      )
      else (
        f.to_int (f.mul (f.mul base pause_mult) (f.add (f.lit 3 4) (f.mul (f.lit 1 2) rng.second))),
        record l { burst_remaining = size - 1 },
      )

  -- the "gaussian" case, with `v < 0` clamped
  gaussian_interval : Draws F → F → JitterSpec F → ℤ
  gaussian_interval rng base spec =
      let sigma = if f.le spec.param1 zero_rate then f.lit 3 10 else spec.param1 in
      let v = f.add base (f.mul (f.mul rng.normal sigma) base) in
      f.to_int (if f.lt v zero_rate then zero_rate else v)

  uniform_interval : Draws F → F → JitterSpec F → ℤ
  uniform_interval rng base spec =
      let j = if f.le spec.param1 zero_rate then default_jitter else spec.param1 in
      let factor = f.add (f.sub (f.lit 1 1) j) (f.mul rng.first (f.mul (f.lit 2 1) j)) in
      f.to_int (f.mul base factor)

  unfoldable pub jittered_interval : Draws F → F → Limiter F → ℤ × Limiter F
  unfolding bursty_interval gaussian_interval uniform_interval
  jittered_interval rng base l =
      if str_eq l.jitter.kind "none"
      then (f.to_int base, l)
      else if str_eq l.jitter.kind "gaussian"
      then (gaussian_interval rng base l.jitter, l)
      else if str_eq l.jitter.kind "bursty"
      then bursty_interval rng base l
      else (uniform_interval rng base l.jitter, l)

  unfoldable pub next_interval : Draws F → Limiter F → ℤ × Limiter F
  unfolding unbounded jittered_interval
  next_interval rng l =
      if unbounded l
      then (pos 0, l)
      else jittered_interval rng (f.div (f.lit 1_000_000_000 1) l.rate) l

  unfoldable pub trigger_backoff : F → ℕ → Limiter F → Limiter F
  trigger_backoff decrease now l =
      let base = if f.le l.rate zero_rate then backoff_fallback_rate else l.rate in
      record l { rate = f.mul base decrease; last_trigger = now; triggered = true }

  -- `now.Sub(l.lastTrigger) < settle`, with the negative difference of an earlier `now` kept
  -- by moving `lastTrigger` to the other side.
  unfoldable pub in_backoff : ℕ → ℕ → Limiter F → Bool
  in_backoff now settle l = l.triggered && ltb now (l.last_trigger + settle)

  unfoldable pub maybe_recover : F → ℕ → ℕ → Limiter F → Limiter F × Bool
  maybe_recover step window now l =
      if not l.triggered || ltb now (l.last_trigger + window)
      then (l, false)
      else if f.le l.rate_cap zero_rate
      then (record l { last_trigger = now; rate = zero_rate; triggered = false }, true)
      else if f.le l.rate_cap (f.add l.rate step)
      then (record l { last_trigger = now; rate = l.rate_cap; triggered = false }, true)
      else (record l { last_trigger = now; rate = f.add l.rate step }, false)

  -- AIMDState and SetAIMDState, the saved part of a session
  unfoldable pub aimd_state : Limiter F → F × ℕ × Bool
  aimd_state l = (l.rate, l.last_trigger, l.triggered)

  unfoldable pub set_aimd_state : F × ℕ × Bool → Limiter F → Limiter F
  set_aimd_state (rate, last_trigger, triggered) l = record l {
    rate = rate;
    last_trigger = last_trigger;
    triggered = triggered;
  }
