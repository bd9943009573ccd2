-- ===== src/HttpClient/Limiter/Tests.antt =====
-- Concrete runs of internal/httpclient/ratelimit.go.
use smart_buster.Prelude.{ℕ, suc, ◌≡◌, refl, true}
use smart_buster.Prelude.Int.{pos}
use smart_buster.Prelude.Float.{hundredths}
use smart_buster.HttpClient.Limiter.{
  JitterSpec, Limiter, new_limiter_spec, next_interval, trigger_backoff,
}
use smart_buster.HttpClient.Limiter.Recovery.{
  clean_windows, clean_windows-HasRecovered, HasRecovered,
}

abbrev plain : JitterSpec ℕ
plain = record { kind = "none"; param1 = 0; param2 = 0 }

-- One request a second, cut to a half by a backoff at time 1000.
abbrev slowed : Limiter ℕ
slowed = record {
  rate = 50;
  rate_cap = 100;
  jitter = plain;
  last_trigger = 1000;
  triggered = true;
  burst_remaining = 0;
}

slowed_lem : trigger_backoff 50 1000 (new_limiter_spec 100 plain) ≡ slowed
unfolding trigger_backoff new_limiter_spec
slowed_lem = refl

slowed_interval :
    next_interval (record { first = 0; second = 0; normal = 0 }) slowed
    ≡ (pos 2_000_000_000, slowed)
unfolding next_interval
slowed_interval = refl

clean_windows-HasRecovered_example : HasRecovered slowed (clean_windows (suc 1) 25 500 slowed)
clean_windows-HasRecovered_example = clean_windows-HasRecovered 1 25 500 slowed refl refl
