-- ===== src/Engine/Backoff/Tests.antt =====
-- Concrete runs of the backoff of internal/engine/coordinator.go.
use smart_buster.Prelude.{ℕ, refl, true, false, inl, inr, List, [], ◌∷◌, arith}
use smart_buster.Prelude.Float.{hundredths, hundredths-IsOrdered}
use smart_buster.HttpClient.Limiter.{JitterSpec, Limiter}
use smart_buster.Engine.Backoff.{BackoffSpec, WafSample}
use smart_buster.Engine.Backoff.Rate.{
  Call, onset, tick, retarget, calls, IsFactor, IsPaced, calls-IsPaced,
}

abbrev plain : JitterSpec ℕ
plain = record { kind = "none"; param1 = 0; param2 = 0 }

-- quiet's spec: half the rate on an onset, half a request a second more every ten seconds
abbrev quiet_spec : BackoffSpec ℕ
quiet_spec = record { enabled = true; decrease = 50; step = 50; recovery_window = 10_000_000_000 }

half-IsFactor : IsFactor {F = ℕ} 50
half-IsFactor = record { shrinks = λ x h. ground arith }

abbrev quiet : Limiter ℕ
quiet = record {
  rate = 500;
  rate_cap = 500;
  jitter = plain;
  last_trigger = 0;
  triggered = false;
  burst_remaining = 0;
}

abbrev history : List (Call ℕ)
history = onset 1_000 ∷ tick 2_000 ∷ onset 20_000_000_000 ∷ retarget 300 ∷ []

quiet-IsPaced : IsPaced 50 quiet
quiet-IsPaced = record { capped = inr refl; settled = inr (inl refl); fits = inr refl }

calls-IsPaced_example : IsPaced 50 (calls quiet_spec history quiet)
calls-IsPaced_example =
    calls-IsPaced quiet_spec half-IsFactor history quiet (tt, (tt, (tt, (inr refl, tt))))
      quiet-IsPaced

abbrev plain_miss : WafSample
plain_miss = record { status = 404; novel = false }

abbrev challenge : WafSample
challenge = record { status = 429; novel = true }

abbrev five : List WafSample
five = challenge ∷ challenge ∷ challenge ∷ challenge ∷ challenge ∷ []
