-- ===== src/Engine/Backoff/Rate.antt =====
-- The rate under the backoff of internal/engine/coordinator.go, over any sequence of calls.
use smart_buster.Prelude.{ℕ, ◌+◌, ◌<◌, true, false, ◌≡◌, ◌⊎◌, inr, List, [], ◌∷◌, arith}
use smart_buster.Prelude.Float.{Float, IsOrdered}
use smart_buster.HttpClient.Limiter
use smart_buster.HttpClient.Limiter.{
  Limiter, JitterSpec, zero_rate, backoff_fallback_rate, new_limiter_spec,
}
use smart_buster.Engine.Events.{throttle}
use smart_buster.Engine.Backoff.{
  BackoffSpec, trigger_backoff, maybe_recover_backoff, update_budget_pacing,
}

-- The calls that reach the limiter's rate: an onset, a tick of the recovery timer, and a new cap
-- from a PATCH, a mode switch or budget pacing.
pub data Call (F : Type 0) : Type 0 where
  onset : ℕ → Call F
  tick : ℕ → Call F
  retarget : F → Call F

module _ {F : Type 0} ⦃f : Float F⦄ where
  unfoldable pub call : BackoffSpec F → Call F → Limiter F → Limiter F
  unfolding trigger_backoff maybe_recover_backoff Limiter.set_rate_cap
  call spec (onset now) l = (trigger_backoff spec now l).0
  call spec (tick now) l = (maybe_recover_backoff spec now l).0
  call spec (retarget c) l = Limiter.set_rate_cap c l

  unfoldable pub calls : BackoffSpec F → List (Call F) → Limiter F → Limiter F
  unfolding call
  calls spec [] l = l
  calls spec (c ∷ cs) l = calls spec cs (call spec c l)

  -- A decrease factor lowers every positive rate, and the fallback rate to at most the cap.
  pub record IsFactor (d : F) : Type 0 where
    pub shrinks : (x : F) → f.le x zero_rate ≡ false → f.lt x (f.mul x d) ≡ false

  abbrev pub Fits : F → F → Type 0
  Fits d c = (f.le c zero_rate ≡ true) ⊎ (f.lt c (f.mul backoff_fallback_rate d) ≡ false)

  abbrev pub CallFits : F → Call F → Type 0
  CallFits d (onset _) = Unit
  CallFits d (tick _) = Unit
  CallFits d (retarget c) = Fits d c

  abbrev pub CallsFit : F → List (Call F) → Type 0
  CallsFit d [] = Unit
  CallsFit d (c ∷ cs) = CallFits d c × CallsFit d cs

  -- The rate is at most a positive cap, and is the cap, or 0 for an unbounded cap, when no
  -- backoff is active.
  pub record IsPaced (d : F) (l : Limiter F) : Type 0 where
    pub capped : (f.le l.rate_cap zero_rate ≡ true) ⊎ (f.lt l.rate_cap l.rate ≡ false)
    pub settled :
        (l.triggered ≡ true)
        ⊎ (l.rate ≡ l.rate_cap)
        ⊎ ((f.le l.rate_cap zero_rate ≡ true) × (l.rate ≡ zero_rate))
    pub fits : Fits d l.rate_cap

  module _ ⦃o : IsOrdered F⦄ (spec : BackoffSpec F) (factor : IsFactor spec.decrease) where
    onset-IsPaced :
        (now : ℕ) (l : Limiter F)
        → IsPaced spec.decrease l
        → IsPaced spec.decrease (call spec (onset now) l)
    unfolding call
    onset-IsPaced now l h =
        ground (
          arith,
          factor.shrinks l.rate,
          o.lt_cotrans (f.mul l.rate spec.decrease) l.rate l.rate_cap,
        )

    tick-IsPaced :
        (now : ℕ) (l : Limiter F)
        → IsPaced spec.decrease l
        → IsPaced spec.decrease (call spec (tick now) l)
    unfolding call
    tick-IsPaced now l h = ground (
      arith,
      o.lt_irrefl l.rate_cap,
      o.le-eq-not-lt l.rate_cap (f.add l.rate spec.step),
      o.lt_asymm l.rate_cap (f.add l.rate spec.step),
    )

    call-IsPaced :
        (c : Call F) (l : Limiter F)
        → CallFits spec.decrease c
        → IsPaced spec.decrease l
        → IsPaced spec.decrease (call spec c l)
    unfolding call
    call-IsPaced (onset now) l k h = onset-IsPaced now l h
    call-IsPaced (tick now) l k h = tick-IsPaced now l h
    call-IsPaced (retarget c) l k h = record {
      capped = inr (o.lt_irrefl c);
      settled = ground arith;
      fits = k;
    }

    -- If the decrease factor lowers every positive rate, and the first cap and every new one is
    -- unbounded (0 or less) or at least the fallback rate of 2 per second times that factor, then
    -- whatever onsets, recovery ticks and such new caps follow, a limiter whose rate is at most its
    -- positive cap, and is the cap (or 0 for an unbounded one) where no backoff is active, keeps
    -- both. A positive cap below that bound is not covered.
    pub calls-IsPaced :
        (cs : List (Call F)) (l : Limiter F)
        → CallsFit spec.decrease cs
        → IsPaced spec.decrease l
        → IsPaced spec.decrease (calls spec cs l)
    unfolding calls
    calls-IsPaced [] l k h = h
    calls-IsPaced (c ∷ cs) l k h = calls-IsPaced cs (call spec c l) k.1 (call-IsPaced c l k.0 h)

  pub new_limiter-IsPaced :
      ⦃o : IsOrdered F⦄ (d c : F) (j : JitterSpec F) → Fits d c → IsPaced d (new_limiter_spec c j)
  unfolding new_limiter_spec
  new_limiter-IsPaced ⦃o⦄ d c j k = record {
    capped = inr (o.lt_irrefl c);
    settled = ground arith;
    fits = k;
  }

  -- One decrease for an onset: after an onset at `now` that lowers the rate, every further onset
  -- within the recovery window leaves the limiter as it is and emits nothing. With the backoff
  -- of the preset off, no onset changes anything.
  pub trigger_backoff-once :
      (spec : BackoffSpec F) (now later : ℕ) (l : Limiter F)
      → let r = trigger_backoff spec now l in
        (r.1 ≡ throttle ∷ []
          → later < now + spec.recovery_window
          → trigger_backoff spec later r.0 ≡ (r.0, []))
        × (spec.enabled ≡ false → r ≡ (l, []))
        × (spec.enabled ≡ true → r.1 ≡ [] → r.0 ≡ l)
  unfolding trigger_backoff
  trigger_backoff-once spec now later l =
      (λ e k. ground arith, λ e. ground arith, λ e k. ground arith)

  -- A budget undoes a backoff: while there is time left and something queued, the next tick of
  -- budget pacing gives the limiter the same rate and cap with an onset just before it as
  -- without, and past the deadline it lifts all pacing.
  pub update_budget_pacing-undoes :
      (spec : BackoffSpec F) (now budget remaining frontier_len : ℕ) (l : Limiter F)
      → 0 < budget
      → let slowed = (trigger_backoff spec now l).0 in
        let paced = update_budget_pacing {F = F} budget remaining frontier_len in
        (0 < remaining → 0 < frontier_len → (paced slowed).rate ≡ (paced l).rate)
        × (remaining ≡ 0 → (paced slowed).rate ≡ zero_rate)
        × ((paced slowed).triggered ≡ slowed.triggered)
  unfolding trigger_backoff update_budget_pacing
  update_budget_pacing-undoes spec now budget remaining frontier_len l h =
      (λ e k. ground arith, λ e. ground arith, ground arith)
