-- ===== src/Calibration/Verdict.antt =====
-- What Classify and Calibrate of internal/calibration/calibration.go decide.
use mathlib.Core.List.{Memᴰ}
use smart_buster.Prelude.{
  ℕ, ◌≤◌, ◌<◌, Bool, true, false, ◌≡◌, ◌≢◌, refl, ap, ◌↔◌, ◌⊎◌, inl, inr, List, [], ◌∷◌, String,
  arith, eq_iff, Bool-cases, sym,
}
use smart_buster.Prelude.Float.{Float}
use smart_buster.Simhash.{hamming}
use smart_buster.Simhash.Distance.{hamming_distance}
use smart_buster.Signature.{ResponseSignature, Baseline}
use smart_buster.Calibration.{
  hit_confidence, conf_half, conf_85, conf_99, classify, calibrate, distance, all_status, all_html,
  medoid, looks_like_standard404,
}
use smart_buster.Calibration.Spread.{min_hamming-IsLeast, PairsWithin, max_pairwise_hamming_exact}

-- The confidence of a hit lies between 0.5 and 0.99, and is at least 0.85 for a 401 or a 403.
pub hit_confidence_bounds :
    (other_class far odd_length : Bool) (status : ℕ)
    → let c = hit_confidence other_class far odd_length status in
      (conf_half ≤ c) × (c ≤ conf_99) × ((status ≡ 401) ⊎ (status ≡ 403) → conf_85 ≤ c)
unfolding hit_confidence
hit_confidence_bounds other_class far odd_length status = ground arith

-- A different status class and an odd length together give less than 0.8, which is what the
-- learners ask for by default (57646075230342352 units): the float64 sum 0.5 + 0.2 + 0.1 is
-- 0.7999999999999999. A different status class alone gives exactly 0.7, the threshold of
-- recursion (50440315826549552 units).
pub hit_confidence_rounds :
    (status : ℕ)
    → status ≢ 401
    → status ≢ 403
    → (hit_confidence true false true status < 57646075230342352)
      × (hit_confidence true false false status ≡ 50440315826549552)
      × (57646075230342352 ≤ hit_confidence true true false status)
unfolding hit_confidence
hit_confidence_rounds status h k = ground arith

abbrev pub AllStatus : ℕ → List ResponseSignature → Type 0
AllStatus n [] = Unit
AllStatus n (p ∷ probes) = (p.status ≡ n) × AllStatus n probes

abbrev pub AllHtml : List ResponseSignature → Type 0
AllHtml [] = Unit
AllHtml (p ∷ probes) = (p.content_type ≡ "text/html") × AllHtml probes

all_status_exact :
    (n : ℕ) (probes : List ResponseSignature) → (all_status n probes ≡ true) ↔ AllStatus n probes
unfolding all_status
all_status_exact n [] = (λ h. tt, λ h. refl)
all_status_exact n (p ∷ probes) =
    let ih = all_status_exact n probes in
    (λ h. (ground arith, ih.0 (ground arith)), λ h. ground (arith, ih.1 h.1))

all_html_exact : (probes : List ResponseSignature) → (all_html probes ≡ true) ↔ AllHtml probes
unfolding all_html
all_html_exact [] = (λ h. tt, λ h. refl)
all_html_exact (p ∷ probes) =
    let ih = all_html_exact probes in
    (
      λ h. (ground (arith, eq_iff p.content_type "text/html"), ih.0 (ground arith)),
      λ h. ground (arith, ih.1 h.1, eq_iff p.content_type "text/html"),
    )

module _ {F : Type 0} ⦃f : Float F⦄ where
  -- A response is a hit exactly when its redirect is not the baseline's (or there is none) and
  -- its distance to the samples is above the noise floor.
  pub classify_exact :
      (sig : ResponseSignature) (b : Baseline F)
      → ((classify sig b).is_hit ≡ true) ↔ (
          ((sig.redirect_to ≡ "") ⊎ (sig.redirect_to ≢ b.rep_redirect))
          × (b.noise_floor < distance sig b))
  unfolding classify distance
  classify_exact sig b = (
    λ h. ground (arith, eq_iff sig.redirect_to "", eq_iff sig.redirect_to b.rep_redirect),
    λ h. ground (arith, eq_iff sig.redirect_to "", eq_iff sig.redirect_to b.rep_redirect),
  )

  not_hit_of_near :
      (sig : ResponseSignature) (b : Baseline F)
      → distance sig b ≤ b.noise_floor
      → (classify sig b).is_hit ≡ false
  not_hit_of_near sig b h = elim (Bool-cases (classify sig b).is_hit) [
    | inl e ↦ absurd (omega (arith, ((classify_exact sig b).0 e).1))
    | inr e ↦ e
  ]

module _ (F : Type 0) ⦃f : Float F⦄ where
  -- A response with the fingerprint of a calibration probe is never a hit in its directory.
  pub classify-calibrate :
      (sig p : ResponseSignature) (dir : String) (exts : List String)
      (probes : List ResponseSignature)
      → Memᴰ p probes
      → sig.simhash ≡ p.simhash
      → (classify {F = F} sig (calibrate dir exts probes)).is_hit ≡ false
  unfolding calibrate distance
  classify-calibrate sig p dir exts [] k e = elim k [ ]
  classify-calibrate sig p dir exts (q ∷ probes) k e =
      not_hit_of_near {F = F} sig (calibrate dir exts (q ∷ probes)) (
        omega (
          arith,
          (min_hamming-IsLeast sig.simhash q probes).0.0 p k,
          ap (hamming sig.simhash) (sym e),
          (hamming_distance sig.simhash sig.simhash 0).2,
        ))

  -- A baseline is an SPA's exactly when every probe got a 200 of type text/html and any two
  -- probes are within 2 bits; it is a wildcard's exactly when it is no SPA's, the medoid's status
  -- is neither 404 nor 410, and any two probes are within 4 bits.
  pub calibrate_flags :
      (dir : String) (exts : List String) (probes : List ResponseSignature)
      → let b : Baseline F = calibrate dir exts probes in
        ((b.is_spa ≡ true) ↔ (AllStatus 200 probes × (AllHtml probes × PairsWithin 2 probes)))
        × ((b.is_wildcard ≡ true) ↔ (
            (b.is_spa ≡ false)
            × ((medoid probes).status ≢ 404)
            × ((medoid probes).status ≢ 410)
            × PairsWithin 4 probes))
  unfolding calibrate looks_like_standard404
  calibrate_flags dir exts probes =
      let status = all_status_exact 200 probes in
      let html = all_html_exact probes in
      let two = max_pairwise_hamming_exact 2 probes in
      let four = max_pairwise_hamming_exact 4 probes in
      (
        (
          λ h. (status.0 (ground arith), (html.0 (ground arith), two.0 (ground arith))),
          λ h. ground (arith, status.1 h.0, html.1 h.1.0, two.1 h.1.1),
        ),
        (
          λ h. (ground arith, ground arith, ground arith, four.0 (ground arith)),
          λ h. ground (arith, four.1 h.3),
        ),
      )
