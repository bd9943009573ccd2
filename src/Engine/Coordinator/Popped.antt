-- ===== src/Engine/Coordinator/Popped.antt =====
-- What popNext of internal/engine/dynamic.go takes out of the frontier.
use native.Mathlib.Nat.{mod-lt}
use mathlib.Core.Path.{subst}
use smart_buster.Prelude.{
  ℕ, suc, ◌+◌, ◌-◌, ◌%◌, ◌<◌, Bool, ◌&&◌, ◌≡◌, refl, Option, none, some, List, [], ◌∷◌, arith, ltb,
  leb, ◌==◌, if◌then◌else◌, length, count_if, if-elim, inl, inr,
}
use smart_buster.Prelude.Float.{Float, IsOrdered}
use smart_buster.Heap
use smart_buster.Heap.{get_or}
use smart_buster.Heap.Order.{eq_cases}
use smart_buster.Heap.Contents.{pop-Takes, remove-Takes}
use smart_buster.Heap.Removed.{remove_entry}
use smart_buster.Engine.Types.{Candidate, zero_candidate}
use smart_buster.Engine.Frontier.{
  Frontier, less, pop, item, band, pop_band, mid_tier, sample_mid_tier, order_jitter_band,
}
use smart_buster.Engine.Frontier.Order.{less-IsStrictWeak}
use smart_buster.Engine.Frontier.Indices.{indices_from-AllHit}
use smart_buster.Engine.Frontier.Sampling.{ranked, mid_tier-bounds}
use smart_buster.Engine.Coordinator.{Policy}
use smart_buster.Engine.Coordinator.Dispatch.{Draw, pop_greedy, pop_next}

get_or_past : (js : List ℕ) (k d : ℕ) → length js ≡ 0 → get_or js k d ≡ d
get_or_past [] k d h = refl
get_or_past (j ∷ js) k d h = omega arith

module _ {F : Type 0} ⦃f : Float F⦄ ⦃o : IsOrdered F⦄ where
  abbrev pub Popped : Frontier F → Option (Candidate F) × Frontier F → Type 0
  Popped items (none, rest) = (length items ≡ 0) × (length rest ≡ 0)
  Popped items (some c, rest) =
      (suc (length rest) ≡ length items)
      × ((p : Candidate F → Bool) → (if p c then 1 else 0) + count_if p rest ≡ count_if p items)

  removed :
      (idx : ℕ) (items : Frontier F)
      → idx < length items
      → Popped items (some (item items idx), (Heap.remove less zero_candidate idx items).1)
  removed idx items h =
      let t = remove-Takes less zero_candidate idx items h in
      let same = remove_entry less zero_candidate less-IsStrictWeak idx items h in
      subst
        (λ (c : Candidate F). Popped items (some c, (Heap.remove less zero_candidate idx items).1))
        same t

  band_index :
      (draw : ℕ) (band_frac : F) (items : Frontier F)
      → 0 < length items
      → get_or (band band_frac items) (draw % length (band band_frac items)) 0 < length items
  unfolding band
  band_index draw band_frac items n =
      let near = band band_frac items in
      elim (eq_cases (length near) 0) [
        | inl u ↦ let z = get_or_past near (draw % length near) 0 u in omega (arith, z)
        | inr u ↦
            let at =
              indices_from-AllHit zero_candidate 0 _ items (draw % length near)
                (mod-lt draw (omega arith)) in
            omega (arith, at)
      ]

  pop_band-Popped :
      (draw : ℕ) (band_frac : F) (items : Frontier F)
      → 0 < length items
      → let r = pop_band draw band_frac items in Popped items (some r.0, r.1)
  unfolding pop_band pop
  pop_band-Popped draw band_frac items n =
      let P = λ (r : Candidate F × Frontier F). Popped items (some r.0, r.1) in
      let taken = pop-Takes less zero_candidate items n in
      if-elim P (leb (length items) 1) (λ e. taken)
        (λ e.
          if-elim P (f.le (item items 0).score (f.lit 0 1)) (λ u. taken)
            (λ u. removed _ items (band_index draw band_frac items n)))

  sample_mid_tier-Popped :
      (draw : ℕ) (items : Frontier F) → 0 < length items → Popped items (sample_mid_tier draw items)
  unfolding sample_mid_tier
  sample_mid_tier-Popped draw items n =
      let b = mid_tier-bounds (length items) n in
      let lo = (mid_tier (length items)).0 in
      let hi = (mid_tier (length items)).1 in
      let drawn = mod-lt draw {m = hi - lo} (omega (arith, b)) in
      if-elim (Popped items) (length items == 0) (λ e. absurd (ground arith))
        (λ e. removed _ items (ranked items (lo + draw % (hi - lo)) (omega (arith, b, drawn))).0)

  pop_greedy-Popped :
      (policy : Policy F) (draw : Draw F) (items : Frontier F)
      → Popped items (pop_greedy policy draw items)
  unfolding pop_greedy pop
  pop_greedy-Popped policy draw [] = (refl, refl)
  pop_greedy-Popped policy draw (c ∷ cs) =
      if-elim (λ (r : Candidate F × Frontier F). Popped (c ∷ cs) (some r.0, r.1))
        policy.order_jitter
        (λ e. pop_band-Popped draw.near order_jitter_band (c ∷ cs) (omega arith))
        (λ e. pop-Takes less zero_candidate (c ∷ cs) (omega arith))

  pub pop_next-Popped :
      (policy : Policy F) (draw : Draw F) (items : Frontier F)
      → Popped items (pop_next policy draw items)
  unfolding pop_next
  pop_next-Popped policy draw items =
      if-elim (Popped items)
        (f.lt (f.lit 0 1) policy.epsilon && ltb 2 (length items) && f.lt draw.chance policy.epsilon)
        (λ e. sample_mid_tier-Popped draw.mid items (ground (arith, e)))
        (λ e. pop_greedy-Popped policy draw items)
