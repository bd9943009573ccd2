-- ===== src/Engine/Frontier/Sampling.antt =====
-- PopBand and SampleMidTier of internal/engine/frontier.go, which take a candidate other than the
-- best one.
use mathlib.Core.Path.{subst}
use native.Mathlib.Nat.{mod-lt}
use smart_buster.Prelude.{
  ℕ, ◌+◌, ◌*◌, ◌-◌, ◌/◌, ◌%◌, ◌≤◌, ◌<◌, Bool, true, false, not, ◌≡◌, ◌⊎◌, inl, inr, sym, ◌∙◌, ap,
  arith, ltb, leb, length, count_if, if-elim,
}
use smart_buster.Prelude.Float.{Float, IsOrdered}
use smart_buster.Prelude.Sort.{
  IsStrictWeak, sort_by, sorted_rank, is_sorted-sort_by, length-sort_by, count_if-sort_by,
}
use smart_buster.Heap
use smart_buster.Heap.{get_or}
use smart_buster.Heap.Count.{get_elem?-get_or}
use smart_buster.Heap.Contents.{remove-Takes}
use smart_buster.Heap.Removed.{remove-IsHeap}
use smart_buster.Engine.Types.{Candidate, zero_candidate}
use smart_buster.Engine.Frontier.{
  less, Frontier, pop, item, indices_from, ranking, mid_tier, band, pop_band,
}
use smart_buster.Engine.Frontier.Order.{less-IsStrictWeak, IsValid, IsBest, TakesOut, pop-IsBest}
use smart_buster.Engine.Frontier.Indices.{
  count_if-zero, indices_from-AllHit, length-indices_from, count_if-true, count_if-false,
  count_if-first, count_if-indices_from,
}

pub mid_tier-bounds : (n : ℕ) → 0 < n → ((mid_tier n).0 < (mid_tier n).1) × ((mid_tier n).1 ≤ n)
unfolding mid_tier
mid_tier-bounds n h =
    if-elim (λ (r : ℕ × ℕ). (r.0 < r.1) × (r.1 ≤ n)) (leb (2 * n / 3) (n / 3))
      (λ e. (h, omega arith)) (λ e. (ground arith, omega arith))

module _ {F : Type 0} ⦃f : Float F⦄ ⦃o : IsOrdered F⦄ where
  -- An index that is drawn from the band
  draw_index :
      (draw : ℕ) (band_frac : F) (items : Frontier F)
      → 0 < length items
      → (let best = (item items 0).score in
          f.le (f.mul best (f.sub (f.lit 1 1) band_frac)) best ≡ true)
      → let near = band band_frac items in
        let idx = get_or near (draw % length near) 0 in
        let thresh = f.mul (item items 0).score (f.sub (f.lit 1 1) band_frac) in
        (idx < length items) × (f.le thresh (item items idx).score ≡ true)
  unfolding band
  draw_index draw band_frac items n below =
      let thresh = f.mul (item items 0).score (f.sub (f.lit 1 1) band_frac) in
      let near = band band_frac items in
      let some_near : 0 < length near = omega (
        arith,
        length-indices_from zero_candidate 0 (λ (c : Candidate F). f.le thresh c.score) items,
        count_if-first zero_candidate (λ (c : Candidate F). f.le thresh c.score) items n below,
      ) in
      let at =
        indices_from-AllHit zero_candidate 0 (λ (c : Candidate F). f.le thresh c.score) items
          (draw % length near) (mod-lt draw some_near) in
      let idx = get_or near (draw % length near) 0 in
      let shift : idx - 0 ≡ idx = omega arith in
      (omega (arith, at), ap (λ (m : ℕ). f.le thresh (item items m).score) (sym shift) ∙ at.2)

  taken :
      (items : Frontier F)
      → IsValid items
      → (idx : ℕ) → idx < length items
      → let r : Candidate F × Frontier F =
          (item items idx, (Heap.remove less zero_candidate idx items).1) in
        TakesOut r items × IsValid r.1
  taken items h idx hi =
      let r = remove-IsHeap less zero_candidate less-IsStrictWeak idx items hi h in
      let t = remove-Takes less zero_candidate idx items hi in
      (
        subst
            (λ (c : Candidate F). TakesOut (c, (Heap.remove less zero_candidate idx items).1) items)
            r.0 t,
        r.1,
      )

  -- PopBand takes out one candidate and leaves a valid frontier. The candidate is the best one,
  -- or its score is within the band below that of the best one. The hypothesis is on the
  -- arithmetic: the lower end of the band is not above its upper end.
  pub pop_band-IsBest :
      (draw : ℕ) (band_frac : F) (items : Frontier F)
      → IsValid items
      → 0 < length items
      → (let best = (item items 0).score in
          f.le (f.mul best (f.sub (f.lit 1 1) band_frac)) best ≡ true)
      → let r = pop_band draw band_frac items in
        let best = (item items 0).score in
        TakesOut r items
        × IsValid r.1
        × (IsBest r.0 items ⊎ (f.le (f.mul best (f.sub (f.lit 1 1) band_frac)) r.0.score ≡ true))
  unfolding pop_band
  pop_band-IsBest draw band_frac items h n below =
      if-elim Result (leb (length items) 1) (λ e. popped)
        (λ e. if-elim Result (f.le (item items 0).score (f.lit 0 1)) (λ u. popped) (λ u. drawn))
    where
      Result : Candidate F × Frontier F → Type 0
      Result r =
          let best = (item items 0).score in
          TakesOut r items
          × IsValid r.1
          × (IsBest r.0 items ⊎ (f.le (f.mul best (f.sub (f.lit 1 1) band_frac)) r.0.score ≡ true))

      popped : Result (pop items)
      popped = let r = pop-IsBest items h n in (r.1, r.2, inl r.0)

      drawn :
          let near = band band_frac items in
          let idx = get_or near (draw % length near) 0 in
          Result (item items idx, (Heap.remove less zero_candidate idx items).1)
      drawn =
          let at = draw_index draw band_frac items n below in
          let t = taken items h _ at.0 in (t.0, t.1, inr at.1)

  -- The rank of a candidate lies in the middle third: fewer than 2n/3 candidates have a higher
  -- score, and more than n/3 have the same score or a higher one. A frontier of one has no
  -- middle third, and the bounds are those of the whole.
  abbrev pub IsMidTier : Candidate F → Frontier F → Type 0
  IsMidTier c items =
      (count_if (λ (e : Candidate F). f.lt c.score e.score) items < (mid_tier (length items)).1)
      × ((mid_tier (length items)).0
          < count_if (λ (e : Candidate F). not (f.lt e.score c.score)) items)

  -- The index at a place of the ranking, and the rank of its candidate
  pub ranked :
      (items : Frontier F) (k : ℕ)
      → k < length items
      → let idx = get_or (ranking items) k 0 in
        (idx < length items)
        × (count_if (λ (e : Candidate F). f.lt (item items idx).score e.score) items ≤ k)
        × (k < count_if (λ (e : Candidate F). not (f.lt e.score (item items idx).score)) items)
  unfolding ranking
  ranked items k h =
      let z : Candidate F = zero_candidate in
      let before = λ (i j : ℕ). less (item items i) (item items j) in
      let w : IsStrictWeak before = record {
        asymmetric = λ i j. less-IsStrictWeak.asymmetric (item items i) (item items j);
        negated_trans =
            λ i j m. less-IsStrictWeak.negated_trans (item items i) (item items j) (item items m);
      } in
      let all = indices_from 0 (λ (c : Candidate F). true) items in
      let size : length (sort_by before all) ≡ length items =
        length-sort_by before all
        ∙ length-indices_from z 0 (λ c. true) items
        ∙ count_if-true z items in
      let idx = get_or (sort_by before all) k 0 in
      let rank =
        sorted_rank before w (sort_by before all) k idx (is_sorted-sort_by before w all)
          (get_elem?-get_or (sort_by before all) k 0 (omega (arith, size))) in
      let over = λ (q : Candidate F → Bool).
        count_if-sort_by before (λ (i : ℕ). q (item items i)) all
        ∙ count_if-indices_from z 0 q (λ (i : ℕ). q (item items i)) items
            (λ c hc. let e : 0 + c ≡ c = omega arith in ap (λ (m : ℕ). q (item items m)) e) in
      let inside =
        count_if-sort_by before (λ i. not (ltb i (length items))) all
        ∙ count_if-indices_from z 0 (λ c. false) (λ i. not (ltb i (length items))) items
            (λ c hc. ground arith)
        ∙ count_if-false z items in
      let below = count_if-zero 0 _ (sort_by before all) k inside (omega (arith, size)) in
      (
        ground (arith, below),
        omega (arith, rank.0, over (λ c. less c (item items idx))),
        omega (arith, rank.1, over (λ c. not (less (item items idx) c))),
      )
