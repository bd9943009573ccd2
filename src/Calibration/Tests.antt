-- ===== src/Calibration/Tests.antt =====
-- Concrete runs of internal/calibration/calibration.go.
use mathlib.Core.List.{Memᴰ}
use smart_buster.Prelude.{ℕ, ◌≤◌, ◌<◌, ◌≡◌, ◌≢◌, refl, true, false, ◌↔◌, ◌⊎◌, List, [], ◌∷◌}
use smart_buster.Prelude.Float.{hundredths}
use smart_buster.Simhash.{hamming}
use smart_buster.Signature.{ResponseSignature, Baseline, empty_signature}
use smart_buster.Calibration.{
  min_hamming, noise_floor_from_probes, medoid, classify, distance, calibrate, ext_set, all_status,
  looks_like_standard404,
}
use smart_buster.Calibration.Medoid.{total, medoid_least}
use smart_buster.Calibration.Verdict.{classify_exact, classify-calibrate}

abbrev page : ℕ → ℕ → ResponseSignature
page status hash = record empty_signature {
  status = status;
  simhash = hash;
  content_type = "text/html";
}

abbrev probes : List ResponseSignature
probes = page 404 1 ∷ page 404 3 ∷ page 404 7 ∷ []

abbrev base : Baseline ℕ
base = calibrate "" ext_set probes

base_floor : base.noise_floor ≡ 3
unfolding calibrate noise_floor_from_probes hamming
base_floor = refl

hit_run : (classify (page 200 0xffff) base).is_hit ≡ true
unfolding classify calibrate noise_floor_from_probes min_hamming hamming medoid all_status
    looks_like_standard404
hit_run = refl

medoid_least_example :
    Memᴰ (medoid probes) probes
    × ((q : ResponseSignature)
        → Memᴰ q probes
        → total (medoid probes).simhash probes ≤ total q.simhash probes)
medoid_least_example = medoid_least (page 404 1) (page 404 3 ∷ page 404 7 ∷ [])

classify_exact_example : ((classify (page 200 0xffff) base).is_hit ≡ true) ↔ (
    (((page 200 0xffff).redirect_to ≡ "") ⊎ ((page 200 0xffff).redirect_to ≢ base.rep_redirect))
    × (base.noise_floor < distance (page 200 0xffff) base))
classify_exact_example = classify_exact (page 200 0xffff) base

classify-calibrate_example :
    (classify {F = ℕ} (page 200 3) (calibrate "" ext_set probes)).is_hit ≡ false
classify-calibrate_example =
    classify-calibrate ℕ (page 200 3) (page 404 3) "" ext_set probes (Memᴰ.tail (Memᴰ.head refl))
      refl
