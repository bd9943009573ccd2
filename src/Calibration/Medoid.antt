-- ===== src/Calibration/Medoid.antt =====
-- medoid of internal/calibration/calibration.go: the probe nearest to all the others.
use mathlib.Core.List.{Memᴰ}
use mathlib.Core.Path.{subst}
use smart_buster.Prelude.{
  ℕ, suc, ◌+◌, ◌≤◌, some, ◌≡◌, refl, sym, ◌∙◌, ap, ◌⊎◌, inl, inr, List, [], ◌∷◌, arith, ltb, ◌==◌,
  if◌then◌else◌, Bool-cases, get_elem?, true, false, Bool,
}
use smart_buster.Simhash.{hamming}
use smart_buster.Simhash.Distance.{hamming_distance}
use smart_buster.Signature.{ResponseSignature}
use smart_buster.Calibration.{distance_sum, medoid_from, medoid}

-- The total distance of a fingerprint to every probe.
abbrev pub total : ℕ → List ResponseSignature → ℕ
total h [] = 0
total h (q ∷ probes) = hamming h q.simhash + total h probes

-- The inner loop is the total, where the probe that it leaves out is at distance 0.
distance_sum-total :
    (sum i j h : ℕ) (probes : List ResponseSignature)
    → ((k : ℕ) (q : ResponseSignature)
        → j + k ≡ i
        → get_elem? probes k ≡ some q
        → hamming h q.simhash ≡ 0)
    → distance_sum sum i j h probes ≡ sum + total h probes
unfolding distance_sum
distance_sum-total sum i j h [] skip = omega arith
distance_sum-total sum i j h (q ∷ probes) skip =
    distance_sum-total (if i == j then sum else sum + hamming h q.simhash) i (suc j) h probes
      (λ k t e g. skip (suc k) t (omega arith) g)
    ∙ elim (Bool-cases (i == j)) [
      | inl e ↦ rw e (omega (arith, skip 0 q (ground arith) refl))
      | inr e ↦ rw e (omega arith)
    ]

module _ (all : List ResponseSignature) where
  -- `rest` is the part of the probes from index i.
  abbrev IsRest : ℕ → List ResponseSignature → Type 0
  IsRest i rest = (k : ℕ) → get_elem? all (i + k) ≡ get_elem? rest k

  own_sum :
      (i : ℕ) (p : ResponseSignature) (rest : List ResponseSignature)
      → IsRest i (p ∷ rest)
      → distance_sum 0 i 0 p.simhash all ≡ total p.simhash all
  own_sum i p rest at =
      distance_sum-total 0 i 0 p.simhash all (λ k q e g.
        let there : some q ≡ some p = sym g ∙ at_index k (i + 0) (omega arith) ∙ at 0 in
        let same : q ≡ p = cc in rw same (hamming_distance p.simhash p.simhash 0).2)
      ∙ omega arith
    where
      at_index : (k m : ℕ) → k ≡ m → get_elem? all k ≡ get_elem? all m
      at_index k m e = ap (λ (n : ℕ). get_elem? all n) e

  IsRest-suc :
      (i : ℕ) (p : ResponseSignature) (rest : List ResponseSignature)
      → IsRest i (p ∷ rest)
      → IsRest (suc i) rest
  IsRest-suc i p rest at k =
      let e : suc i + k ≡ i + suc k = omega arith in ap (λ (n : ℕ). get_elem? all n) e ∙ at (suc k)

  -- What the outer loop returns: one of the probes seen, with the least total.
  abbrev Chosen : ResponseSignature → List ResponseSignature → ResponseSignature → Type 0
  Chosen best rest r =
      (total r.simhash all ≤ total best.simhash all)
      × ((q : ResponseSignature) → Memᴰ q rest → total r.simhash all ≤ total q.simhash all)
      × ((r ≡ best) ⊎ Memᴰ r rest)

  choose : ResponseSignature → ResponseSignature → ResponseSignature
  choose best p = if ltb (total p.simhash all) (total best.simhash all) then p else best

  medoid_from_step :
      (best p : ResponseSignature) (i : ℕ) (rest : List ResponseSignature)
      → IsRest i (p ∷ rest)
      → medoid_from all (some (total best.simhash all)) best i (p ∷ rest)
        ≡ medoid_from all (some (total (choose best p).simhash all)) (choose best p) (suc i) rest
  unfolding medoid_from choose
  medoid_from_step best p i rest at =
      ap
        (λ (sum : ℕ).
          medoid_from all
            (some (if ltb sum (total best.simhash all) then sum else total best.simhash all))
            (if ltb sum (total best.simhash all) then p else best) (suc i) rest)
        (own_sum i p rest at)
      ∙ by_test (ltb (total p.simhash all) (total best.simhash all))
    where
      by_test :
          (b : Bool)
          → medoid_from all
              (some (if b then total p.simhash all else total best.simhash all))
              (if b then p else best)
              (suc i)
              rest
            ≡ medoid_from all
                (some (total (if b then p else best).simhash all))
                (if b then p else best)
                (suc i)
                rest
      by_test true = refl
      by_test false = refl

  choose_lem :
      (best p : ResponseSignature)
      → (total (choose best p).simhash all ≤ total best.simhash all)
        × (total (choose best p).simhash all ≤ total p.simhash all)
        × ((choose best p ≡ best) ⊎ (choose best p ≡ p))
  unfolding choose
  choose_lem best p = elim (Bool-cases (ltb (total p.simhash all) (total best.simhash all))) [
    | inl t ↦ rw t (ground (arith, t), omega arith, inr refl)
    | inr t ↦ rw t (omega arith, ground (arith, t), inl refl)
  ]

  Chosen-cons :
      (best p r : ResponseSignature) (rest : List ResponseSignature)
      → Chosen (choose best p) rest r
      → Chosen best (p ∷ rest) r
  Chosen-cons best p r rest (small, least, found) =
      let (low, low', which) = choose_lem best p in
      (omega arith, member (omega arith), seen which found)
    where
      member :
          total r.simhash all ≤ total p.simhash all
          → (q : ResponseSignature) → Memᴰ q (p ∷ rest)
          → total r.simhash all ≤ total q.simhash all
      member small' q (Memᴰ.head e) =
          subst (λ (t : ResponseSignature). total r.simhash all ≤ total t.simhash all) (sym e)
            small'
      member small' q (Memᴰ.tail k) = least q k

      seen :
          (choose best p ≡ best) ⊎ (choose best p ≡ p)
          → (r ≡ choose best p) ⊎ Memᴰ r rest
          → (r ≡ best) ⊎ Memᴰ r (p ∷ rest)
      seen (inl a) (inl e) = inl (e ∙ a)
      seen (inr a) (inl e) = inr (Memᴰ.head (e ∙ a))
      seen _ (inr k) = inr (Memᴰ.tail k)

  medoid_from-Chosen :
      (best : ResponseSignature) (i : ℕ) (rest : List ResponseSignature)
      → IsRest i rest
      → Chosen best rest (medoid_from all (some (total best.simhash all)) best i rest)
  medoid_from-Chosen best i [] at = unfold medoid_from in (omega arith, λ q k. elim k [ ], inl refl)
  medoid_from-Chosen best i (p ∷ rest) at =
      subst (Chosen best (p ∷ rest)) (sym (medoid_from_step best p i rest at)) (
        Chosen-cons best p
          (medoid_from all (some (total (choose best p).simhash all)) (choose best p) (suc i) rest)
          rest (medoid_from-Chosen (choose best p) (suc i) rest (IsRest-suc i p rest at)))

-- The medoid of at least one probe is one of the probes, and its total distance to all the
-- probes is at most that of every probe.
pub medoid_least :
    (p : ResponseSignature) (probes : List ResponseSignature)
    → Memᴰ (medoid (p ∷ probes)) (p ∷ probes)
      × ((q : ResponseSignature)
          → Memᴰ q (p ∷ probes)
          → total (medoid (p ∷ probes)).simhash (p ∷ probes) ≤ total q.simhash (p ∷ probes))
medoid_least p probes = finish (medoid (p ∷ probes)) (
    subst (Chosen (p ∷ probes) p probes) (sym first)
      (medoid_from-Chosen (p ∷ probes) p 1 probes (IsRest-suc (p ∷ probes) 0 p probes at)))
  where
    at : IsRest (p ∷ probes) 0 (p ∷ probes)
    at k = let e : 0 + k ≡ k = omega arith in ap (λ (n : ℕ). get_elem? (p ∷ probes) n) e

    first :
        medoid (p ∷ probes)
        ≡ medoid_from (p ∷ probes) (some (total p.simhash (p ∷ probes))) p 1 probes
    first =
        unfold medoid medoid_from in
        ap (λ (sum : ℕ). medoid_from (p ∷ probes) (some sum) p 1 probes)
          (own_sum (p ∷ probes) 0 p probes at)

    least_of :
        (r : ResponseSignature)
        → Chosen (p ∷ probes) p probes r
        → (q : ResponseSignature) → Memᴰ q (p ∷ probes)
        → total r.simhash (p ∷ probes) ≤ total q.simhash (p ∷ probes)
    least_of r (small, least, found) q (Memᴰ.head e) =
        subst
          (λ (t : ResponseSignature). total r.simhash (p ∷ probes) ≤ total t.simhash (p ∷ probes))
          (sym e) small
    least_of r (small, least, found) q (Memᴰ.tail k) = least q k

    in_all : (r : ResponseSignature) → (r ≡ p) ⊎ Memᴰ r probes → Memᴰ r (p ∷ probes)
    in_all r (inl e) = Memᴰ.head e
    in_all r (inr k) = Memᴰ.tail k

    finish :
        (r : ResponseSignature)
        → Chosen (p ∷ probes) p probes r
        → Memᴰ r (p ∷ probes)
          × ((q : ResponseSignature)
              → Memᴰ q (p ∷ probes)
              → total r.simhash (p ∷ probes) ≤ total q.simhash (p ∷ probes))
    finish r c = (in_all r c.2, least_of r c)
