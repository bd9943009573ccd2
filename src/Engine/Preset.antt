-- ===== src/Engine/Preset.antt =====
-- The modes of internal/engine/preset.go. A concurrency of 0 or less is 0 here: both stand for
-- "not set".
use smart_buster.Prelude.{ℕ, Bool, true, false, not, ◌&&◌, String, str_eq, ltb, if◌then◌else◌}
use smart_buster.Prelude.Float.{Float}
use smart_buster.HttpClient.Limiter.{JitterSpec}
use smart_buster.Engine.Backoff.{BackoffSpec}

pub record Preset (F : Type 0) : Type 0 where
  pub rate_cap : F
  pub jitter : JitterSpec F
  pub concurrency : ℕ
  pub header_profile : String
  pub order_jitter : Bool
  pub referer : Bool
  pub backoff : BackoffSpec F
  pub epsilon : F
  pub tls_profile : String

-- The fields of Config that ResolvePreset reads
pub record Config (F : Type 0) : Type 0 where
  pub rate : F
  pub jitter : F
  pub jitter_kind : String
  pub concurrency : ℕ
  pub header_profile : String
  pub epsilon : F
  pub fingerprint : String

abbrev pub or_text : String → String → String
or_text own default = if str_eq own "" then default else own

module _ {F : Type 0} ⦃f : Float F⦄ where
  abbrev pub gentle_backoff : BackoffSpec F
  gentle_backoff = record {
    enabled = true;
    decrease = f.lit 1 2;
    step = f.lit 1 2;
    recovery_window = 10_000_000_000;
  }

  abbrev pub normal_preset : Preset F
  normal_preset = record {
    rate_cap = f.lit 0 1;
    jitter = record { kind = "uniform"; param1 = f.lit 15 100; param2 = f.lit 0 1 };
    concurrency = 20;
    header_profile = "chrome";
    order_jitter = false;
    referer = false;
    backoff = gentle_backoff;
    epsilon = f.lit 0 1;
    tls_profile = "";
  }

  -- An unknown name is the normal mode.
  unfoldable pub preset_for : String → Preset F
  preset_for mode =
      if str_eq mode "fast"
      then record normal_preset {
        jitter = record { kind = "none"; param1 = f.lit 0 1; param2 = f.lit 0 1 };
        concurrency = 40;
        header_profile = "minimal";
        backoff = record {
          enabled = false;
          decrease = f.lit 0 1;
          step = f.lit 0 1;
          recovery_window = 0;
        };
      }
      else if str_eq mode "quiet"
      then record normal_preset {
        rate_cap = f.lit 5 1;
        jitter = record { kind = "gaussian"; param1 = f.lit 4 10; param2 = f.lit 0 1 };
        concurrency = 5;
        order_jitter = true;
        referer = true;
      }
      else if str_eq mode "stealth"
      then record normal_preset {
        rate_cap = f.lit 1 1;
        jitter = record { kind = "bursty"; param1 = f.lit 3 1; param2 = f.lit 5 1 };
        concurrency = 2;
        order_jitter = true;
        referer = true;
        backoff = record {
          enabled = true;
          decrease = f.lit 3 10;
          step = f.lit 1 4;
          recovery_window = 15_000_000_000;
        };
        tls_profile = "chrome";
      }
      else normal_preset

  -- `x != 0`
  abbrev pub is_set : F → Bool
  is_set x = not (f.le x (f.lit 0 1) && f.le (f.lit 0 1) x)

  unfoldable pub resolve_preset : String → Config F → Preset F
  unfolding preset_for
  resolve_preset mode cfg =
      let p : Preset F = preset_for mode in
      let jitter : JitterSpec F =
        if is_set cfg.jitter
        then record { kind = "uniform"; param1 = cfg.jitter; param2 = f.lit 0 1 }
        else p.jitter in
      record p {
        rate_cap = if is_set cfg.rate then cfg.rate else p.rate_cap;
        jitter = record jitter { kind = or_text cfg.jitter_kind jitter.kind };
        concurrency = if ltb 0 cfg.concurrency then cfg.concurrency else p.concurrency;
        header_profile = or_text cfg.header_profile p.header_profile;
        epsilon = if is_set cfg.epsilon then cfg.epsilon else p.epsilon;
        tls_profile = or_text cfg.fingerprint p.tls_profile;
      }
