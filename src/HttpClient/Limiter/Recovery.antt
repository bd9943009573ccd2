-- ===== src/HttpClient/Limiter/Recovery.antt =====
-- The AIMD controller of internal/httpclient/ratelimit.go: decrease, recovery and its bounds.
use smart_buster.Prelude.{
  ℕ, zero, suc, ◌+◌, Bool, true, false, ◌≡◌, refl, ◌↔◌, ap, ◌∙◌, ◌⊎◌, inl, inr, arith,
}
use smart_buster.Prelude.Float.{Float}
use smart_buster.HttpClient.Limiter.{Limiter, zero_rate, in_backoff, maybe_recover}

module _ {F : Type 0} ⦃f : Float F⦄ where
  -- What recovery restores: the cap, or 0 where the cap asks for no pacing.
  abbrev pub target : Limiter F → F
  target l = elim (f.le l.rate_cap zero_rate) [ true ↦ zero_rate | false ↦ l.rate_cap ]

  -- MaybeRecover returns true exactly when the call ends an active backoff whose window has
  -- passed; the rate is then the cap, or 0 for an unbounded cap. It changes neither the cap nor
  -- the jitter, and a call outside an active backoff or before the window has passed changes
  -- nothing at all.
  pub maybe_recover_exact :
      (step : F) (window now : ℕ) (l : Limiter F)
      → let r = maybe_recover step window now l in
        ((r.1 ≡ true) ↔ ((l.triggered ≡ true) × (r.0.triggered ≡ false)))
        × (r.1 ≡ true → r.0.rate ≡ target l)
        × (r.0.rate_cap ≡ l.rate_cap)
        × (r.0.jitter ≡ l.jitter)
        × (in_backoff now window l ≡ true → r ≡ (l, false))
        × (l.triggered ≡ false → r ≡ (l, false))
  unfolding maybe_recover in_backoff
  maybe_recover_exact step window now l = (
    (λ e. ground arith, λ e. ground arith),
    λ e. ground arith,
    ground arith,
    ground arith,
    λ e. ground arith,
    λ e. ground arith,
  )

  -- The rate after k recovery steps that none of them ends.
  abbrev pub stepped : ℕ → F → F → F
  stepped zero rate step = rate
  stepped (suc k) rate step = stepped k (f.add rate step) step

  -- k polls, each one clean window after the trigger or recovery step before it.
  unfoldable pub clean_windows : ℕ → F → ℕ → Limiter F → Limiter F
  clean_windows zero step window l = l
  clean_windows (suc k) step window l =
      clean_windows k step window (maybe_recover step window (l.last_trigger + window) l).0

  maybe_recover-idle :
      (step : F) (window now : ℕ) (l : Limiter F)
      → l.triggered ≡ false
      → maybe_recover step window now l ≡ (l, false)
  unfolding maybe_recover
  maybe_recover-idle step window now l h = ground arith

  clean_windows-idle :
      (k : ℕ) (step : F) (window : ℕ) (l : Limiter F)
      → l.triggered ≡ false
      → clean_windows k step window l ≡ l
  unfolding clean_windows
  clean_windows-idle zero step window l h = refl
  clean_windows-idle (suc k) step window l h =
      ap (λ (r : Limiter F × Bool). clean_windows k step window r.0)
        (maybe_recover-idle step window (l.last_trigger + window) l h)
      ∙ clean_windows-idle k step window l h

  abbrev after_window : F → ℕ → Limiter F → Limiter F
  after_window step window l = (maybe_recover step window (l.last_trigger + window) l).0

  -- One clean window either ends the backoff or raises the rate by a step.
  recover_step :
      (step : F) (window : ℕ) (l : Limiter F)
      → l.triggered ≡ true
      → let l' = after_window step window l in
        (l'.rate_cap ≡ l.rate_cap)
        × (((l'.triggered ≡ false) × (l'.rate ≡ target l))
            ⊎ ((l'.triggered ≡ true) × (l'.rate ≡ f.add l.rate step)))
  unfolding maybe_recover
  recover_step step window l h = ground arith

  recover_last :
      (step : F) (window : ℕ) (l : Limiter F)
      → l.triggered ≡ true
      → f.le l.rate_cap (f.add l.rate step) ≡ true
      → let l' = after_window step window l in (l'.triggered ≡ false) × (l'.rate ≡ target l)
  unfolding maybe_recover
  recover_last step window l h e = ground arith

  abbrev pub HasRecovered : Limiter F → Limiter F → Type 0
  HasRecovered l l' = (l'.triggered ≡ false) × (l'.rate ≡ target l)

  -- An active backoff ends: if k + 1 steps from the current rate reach the cap, then k + 1 clean
  -- windows bring the rate to its target and clear the trigger.
  pub clean_windows-HasRecovered :
      (k : ℕ) (step : F) (window : ℕ) (l : Limiter F)
      → l.triggered ≡ true
      → f.le l.rate_cap (stepped (suc k) l.rate step) ≡ true
      → HasRecovered l (clean_windows (suc k) step window l)
  unfolding clean_windows
  clean_windows-HasRecovered zero step window l h e = recover_last step window l h e
  clean_windows-HasRecovered (suc k) step window l h e =
      let l' = after_window step window l in
      let (same, next) = recover_step step window l h in
      elim next [
        | inl done ↦ rw (clean_windows-idle (suc k) step window l' done.0) done
        | inr more ↦
            let ih = clean_windows-HasRecovered k step window l' more.0 (rw (same, more.1) e) in
            (ih.0, ih.1 ∙ ap target_of same)
      ]
    where
      target_of : F → F
      target_of c = elim (f.le c zero_rate) [ true ↦ zero_rate | false ↦ c ]
