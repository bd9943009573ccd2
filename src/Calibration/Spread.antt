-- ===== src/Calibration/Spread.antt =====
-- The distances that internal/calibration/calibration.go takes between signatures: minHamming,
-- maxPairwiseHamming and the noise floor.
use mathlib.Core.List.{Memᴰ}
use smart_buster.Prelude.{
  ℕ, ◌+◌, ◌≤◌, some, ◌≡◌, refl, ◌∙◌, ◌↔◌, ◌⊎◌, inl, inr, List, [], ◌∷◌, arith, ltb, if◌then◌else◌,
  Bool-cases, String,
}
use smart_buster.Simhash.{hamming}
use smart_buster.Signature.{ResponseSignature}
use smart_buster.Calibration.{
  min_hamming_from, min_hamming, max_hamming_to, max_pairwise_from, max_pairwise_hamming,
  max_in_groups, probes_by_ext, noise_floor_from_probes, hamming_margin,
}

-- `m` is the least distance from `h` to the samples.
abbrev pub IsLeast : ℕ → List ResponseSignature → ℕ → Type 0
IsLeast h samples m =
    ((s : ResponseSignature) → Memᴰ s samples → m ≤ hamming h s.simhash)
    × (s : ResponseSignature) × Memᴰ s samples
    × (m ≡ hamming h s.simhash)

-- The loop from a minimum so far ends at a number that is no larger, is at most every distance,
-- and is one of them or the minimum it began with.
min_hamming_from-some :
    (h m : ℕ) (samples : List ResponseSignature)
    → (r : ℕ) × (min_hamming_from (some m) h samples ≡ some r)
      × (r ≤ m)
      × ((s : ResponseSignature) → Memᴰ s samples → r ≤ hamming h s.simhash)
      × ((r ≡ m) ⊎ ((s : ResponseSignature) × Memᴰ s samples × (r ≡ hamming h s.simhash)))
unfolding min_hamming_from
min_hamming_from-some h m [] = (m, refl, omega arith, λ s k. elim k [ ], inl refl)
min_hamming_from-some h m (p ∷ samples) =
    let d = hamming h p.simhash in
    let (r, e, small, least, found) = min_hamming_from-some h (if ltb d m then d else m) samples in
    (
      r,
      e,
      ground (arith, small),
      below d (ground (arith, small)) least,
      elim (Bool-cases (ltb d m)) [
        | inl t ↦ elim found [
          | inl q ↦ inr (p, Memᴰ.head refl, q ∙ rw t refl)
          | inr (s, k, q) ↦ inr (s, Memᴰ.tail k, q)
        ]
        | inr t ↦ elim found [
          | inl q ↦ inl (q ∙ rw t refl)
          | inr (s, k, q) ↦ inr (s, Memᴰ.tail k, q)
        ]
      ],
    )
  where
    below :
        {r : ℕ} (d : ℕ)
        → r ≤ hamming h p.simhash
        → ((s : ResponseSignature) → Memᴰ s samples → r ≤ hamming h s.simhash)
        → (s : ResponseSignature) → Memᴰ s (p ∷ samples)
        → r ≤ hamming h s.simhash
    below d q rest s (Memᴰ.head e) = rw e q
    below d q rest s (Memᴰ.tail k) = rest s k

-- minHamming is the least distance from `h` to a sample: at most every one, and one of them. For
-- no samples it is 0.
pub min_hamming-IsLeast :
    (h : ℕ) (s : ResponseSignature) (samples : List ResponseSignature)
    → IsLeast h (s ∷ samples) (min_hamming h (s ∷ samples)) × (min_hamming h [] ≡ 0)
unfolding min_hamming
min_hamming-IsLeast h s samples =
    let (r, e, small, least, found) = min_hamming_from-some h (hamming h s.simhash) samples in
    let nearest = reached found in
    rw e ((at_most small least, nearest.0, nearest.1, nearest.2), refl)
  where
    reached :
        {r : ℕ}
        → ((r ≡ hamming h s.simhash)
            ⊎ ((t : ResponseSignature) × Memᴰ t samples × (r ≡ hamming h t.simhash)))
        → (t : ResponseSignature) × Memᴰ t (s ∷ samples) × (r ≡ hamming h t.simhash)
    reached (inl q) = (s, Memᴰ.head refl, q)
    reached (inr (t, k, q)) = (t, Memᴰ.tail k, q)

    at_most :
        {r : ℕ}
        → r ≤ hamming h s.simhash
        → ((t : ResponseSignature) → Memᴰ t samples → r ≤ hamming h t.simhash)
        → (t : ResponseSignature) → Memᴰ t (s ∷ samples)
        → r ≤ hamming h t.simhash
    at_most q rest t (Memᴰ.head e) = rw e q
    at_most q rest t (Memᴰ.tail k) = rest t k

-- Every probe of the list is within `k` of `p`.
abbrev pub AllWithin : ℕ → ResponseSignature → List ResponseSignature → Type 0
AllWithin k p [] = Unit
AllWithin k p (q ∷ probes) = (hamming p.simhash q.simhash ≤ k) × AllWithin k p probes

-- Any two probes of the list are within `k` of each other.
abbrev pub PairsWithin : ℕ → List ResponseSignature → Type 0
PairsWithin k [] = Unit
PairsWithin k (p ∷ probes) = AllWithin k p probes × PairsWithin k probes

max_hamming_to_exact :
    (k most : ℕ) (p : ResponseSignature) (probes : List ResponseSignature)
    → (max_hamming_to most p probes ≤ k) ↔ ((most ≤ k) × AllWithin k p probes)
unfolding max_hamming_to
max_hamming_to_exact k most p [] = (λ h. (h, tt), λ h. h.0)
max_hamming_to_exact k most p (q ∷ probes) =
    let d = hamming p.simhash q.simhash in
    let ih = max_hamming_to_exact k (if ltb most d then d else most) p probes in
    (
      λ h. let (small, rest) = ih.0 h in (ground (arith, small), (ground (arith, small), rest)),
      λ (small, (close, rest)). ih.1 (ground (arith, small, close), rest),
    )

max_pairwise_from_exact :
    (k most : ℕ) (probes : List ResponseSignature)
    → (max_pairwise_from most probes ≤ k) ↔ ((most ≤ k) × PairsWithin k probes)
unfolding max_pairwise_from
max_pairwise_from_exact k most [] = (λ h. (h, tt), λ h. h.0)
max_pairwise_from_exact k most (p ∷ probes) =
    let ih = max_pairwise_from_exact k (max_hamming_to most p probes) probes in
    let to = max_hamming_to_exact k most p probes in
    (
      λ h. let (small, rest) = ih.0 h in let (least, close) = to.0 small in (least, (close, rest)),
      λ (least, (close, rest)). ih.1 (to.1 (least, close), rest),
    )

-- maxPairwiseHamming is the least bound on the distance of any two probes.
pub max_pairwise_hamming_exact :
    (k : ℕ) (probes : List ResponseSignature)
    → (max_pairwise_hamming probes ≤ k) ↔ PairsWithin k probes
unfolding max_pairwise_hamming
max_pairwise_hamming_exact k probes =
    let e = max_pairwise_from_exact k 0 probes in (λ h. (e.0 h).1, λ h. e.1 (omega arith, h))

abbrev pub GroupsWithin : ℕ → List (List ResponseSignature) → Type 0
GroupsWithin k [] = Unit
GroupsWithin k (group ∷ groups) = PairsWithin k group × GroupsWithin k groups

max_in_groups_exact :
    (k most : ℕ) (groups : List (List ResponseSignature))
    → (max_in_groups most groups ≤ k) ↔ ((most ≤ k) × GroupsWithin k groups)
unfolding max_in_groups
max_in_groups_exact k most [] = (λ h. (h, tt), λ h. h.0)
max_in_groups_exact k most (group ∷ groups) =
    let ih = max_in_groups_exact k (max_pairwise_from most group) groups in
    let one = max_pairwise_from_exact k most group in
    (
      λ h. let (small, rest) = ih.0 h in let (least, close) = one.0 small in (least, (close, rest)),
      λ (least, (close, rest)). ih.1 (one.1 (least, close), rest),
    )

-- The noise floor is the least bound on the distances inside the extension groups, plus the
-- margin of 3: a number k + 3 is at least the floor exactly when any two probes of one group are
-- within k.
pub noise_floor_exact :
    (k : ℕ) (exts : List String) (probes : List ResponseSignature)
    → (noise_floor_from_probes exts probes ≤ k + hamming_margin)
      ↔ GroupsWithin k (probes_by_ext exts probes)
unfolding noise_floor_from_probes
noise_floor_exact k exts probes =
    let e = max_in_groups_exact k 0 (probes_by_ext exts probes) in
    (λ h. (e.0 (omega arith)).1, λ h. omega (arith, e.1 (omega arith, h)))
