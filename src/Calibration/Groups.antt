-- ===== src/Calibration/Groups.antt =====
-- The groups of probesByExt of internal/calibration/calibration.go.
use mathlib.Core.List.{flatten, append-nil}
use native.Mathlib.Nat.{div-eq_of_eq-mul_right}
use smart_buster.Prelude.{
  ℕ, zero, suc, ◌*◌, ◌/◌, ◌≤◌, ◌<◌, ◌≡◌, refl, ◌∙◌, ap, List, [], ◌∷◌, ◌++◌, arith, String, length,
  take, drop, length-drop, length-take, take-append-drop, ◌==◌, if◌then◌else◌, Bool-cases, inl, inr,
  true, false, ◌||◌,
}
use smart_buster.Signature.{ResponseSignature}
use smart_buster.Calibration.{chunks, probes_by_ext}

-- Enough rounds give back every probe.
flatten-chunks :
    (fuel chunk : ℕ) (probes : List ResponseSignature)
    → 0 < chunk
    → length probes ≤ fuel
    → flatten (chunks fuel chunk probes) ≡ probes
unfolding chunks flatten
flatten-chunks zero chunk [] c h = refl
flatten-chunks zero chunk (p ∷ probes) c h = absurd (omega arith)
flatten-chunks (suc fuel) chunk [] c h = refl
flatten-chunks (suc fuel) chunk (p ∷ probes) c h =
    ap (λ (rest : List ResponseSignature). take chunk (p ∷ probes) ++ rest)
      (flatten-chunks fuel chunk (drop chunk (p ∷ probes)) c
        (omega (arith, length-drop chunk (p ∷ probes))))
    ∙ take-append-drop chunk (p ∷ probes)

abbrev pub Sizes : ℕ → List (List ResponseSignature) → Type 0
Sizes n [] = Unit
Sizes n (group ∷ groups) = (length group ≡ n) × Sizes n groups

-- A whole number of chunks is cut into that many groups of one size.
chunks-Sizes :
    (fuel chunk k : ℕ) (probes : List ResponseSignature)
    → 0 < chunk
    → length probes ≡ k * chunk
    → length probes ≤ fuel
    → Sizes chunk (chunks fuel chunk probes) × (length (chunks fuel chunk probes) ≡ k)
unfolding chunks
chunks-Sizes zero chunk zero [] c e h = (tt, refl)
chunks-Sizes zero chunk (suc k) [] c e h = absurd (grind arith)
chunks-Sizes zero chunk k (p ∷ probes) c e h = absurd (omega arith)
chunks-Sizes (suc fuel) chunk zero [] c e h = (tt, refl)
chunks-Sizes (suc fuel) chunk (suc k) [] c e h = absurd (grind arith)
chunks-Sizes (suc fuel) chunk zero (p ∷ probes) c e h = absurd (omega arith)
chunks-Sizes (suc fuel) chunk (suc k) (p ∷ probes) c e h =
    let ih =
      chunks-Sizes fuel chunk k (drop chunk (p ∷ probes)) c
        (omega (arith, length-drop chunk (p ∷ probes)))
        (omega (arith, length-drop chunk (p ∷ probes))) in
    ((omega (arith, length-take chunk (p ∷ probes)), ih.0), ap suc ih.1)

flatten-chunked :
    (chunk : ℕ) (probes : List ResponseSignature)
    → flatten (if chunk == 0 then probes ∷ [] else chunks (length probes) chunk probes) ≡ probes
unfolding flatten
flatten-chunked chunk probes = elim (Bool-cases (chunk == 0)) [
  | inl e ↦ rw e (append-nil probes)
  | inr e ↦ rw e (flatten-chunks (length probes) chunk probes (ground arith) (omega arith))
]

-- The groups are the probes in their order, none left out or repeated, whenever there is an
-- extension to group by.
pub flatten-probes_by_ext :
    (exts : List String) (probes : List ResponseSignature)
    → 0 < length exts
    → flatten (probes_by_ext exts probes) ≡ probes
unfolding probes_by_ext
flatten-probes_by_ext exts [] h = rw grouped (unfold flatten in refl)
  where
    grouped : (length exts == 0 || length {A = ResponseSignature} [] == 0) ≡ true
    grouped = ground arith
flatten-probes_by_ext exts (p ∷ probes) h =
    rw grouped (flatten-chunked (length (p ∷ probes) / length exts) (p ∷ probes))
  where
    grouped : (length exts == 0 || length (p ∷ probes) == 0) ≡ false
    grouped = ground arith

-- With the full number of samples for every extension, 5 or any k > 0, there is one group of k
-- for each extension.
pub probes_by_ext_complete :
    (k : ℕ) (exts : List String) (probes : List ResponseSignature)
    → 0 < k
    → 0 < length exts
    → length probes ≡ length exts * k
    → Sizes k (probes_by_ext exts probes) × (length (probes_by_ext exts probes) ≡ length exts)
unfolding probes_by_ext
probes_by_ext_complete k exts probes c h e =
    rw (grouped, chunk, filled)
      (chunks-Sizes (length probes) k (length exts) probes c e (omega arith))
  where
    grouped : (length exts == 0 || length probes == 0) ≡ false
    grouped = grind arith

    chunk : length probes / length exts ≡ k
    chunk = div-eq_of_eq-mul_right h e

    filled : (k == 0) ≡ false
    filled = ground arith
