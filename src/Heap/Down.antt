-- ===== src/Heap/Down.antt =====
-- The order of the heap under `down`, which sinks an entry.
use mathlib.Core.Path.{subst}
use smart_buster.Prelude.{
  ℕ, zero, suc, ◌+◌, ◌*◌, ◌≤◌, ◌<◌, Bool, true, false, not, ◌&&◌, ltb, leb, ◌≡◌, ◌≢◌, ◌⊎◌, inl, inr,
  refl, sym, ◌∙◌, ap, List, arith, length, if-elim, leb→le,
}
use smart_buster.Prelude.Sort.{IsStrictWeak, irreflexive}
use smart_buster.Heap.{get_or, parent, less_at, swap, child, down_loop}
use smart_buster.Heap.Count.{length-swap, swap_at_first, swap_at_second, swap_elsewhere}
use smart_buster.Heap.Contents.{child-bounds}
use smart_buster.Heap.Order.{IsHeapFrom, IsHeapBut, OrdersChildren, whole, eq_cases}

module _ {ℓ} {A : Type ℓ} (less : A → A → Bool) (d : A) (w : IsStrictWeak less) where
  child-parent : (xs : List A) (n i : ℕ) → parent (child less d xs n i) ≡ i
  unfolding child
  child-parent xs n i = ground arith

  -- The child that is taken does not come after its sibling.
  child-IsFirst :
      (xs : List A) (n i c : ℕ)
      → 0 < c
      → c < n
      → parent c ≡ i
      → less_at less d xs c (child less d xs n i) ≡ false
  unfolding child
  child-IsFirst xs n i c c0 cn e =
      let right = 2 * i + 2 in
      let left = 2 * i + 1 in
      let self = irreflexive less w (get_or xs c d) in
      if-elim (λ (j : ℕ). less_at less d xs c j ≡ false)
        (ltb right n && less_at less d xs right left) {x = right} {y = left}
        (λ h. elim (eq_cases c right) [
          | inl u ↦ cc
          | inr u ↦
              let l : c ≡ left = omega arith in
              let r = w.asymmetric (get_or xs right d) (get_or xs left d) (ground (arith, h)) in cc
        ])
        (λ h. elim (eq_cases c left) [
          | inl u ↦ cc
          | inr u ↦
              let l : c ≡ right = omega arith in
              let t : ltb right n ≡ true = ground arith in
              let r : less_at less d xs right left ≡ false = ground (arith, h, t) in cc
        ])

  -- A child that comes before i rises, and i goes on from its place.
  sunk-IsHeapBut :
      (k n i : ℕ) (xs : List A)
      → n ≤ length xs
      → 2 * i + 1 < n
      → less_at less d xs (child less d xs n i) i ≡ true
      → IsHeapBut less d k n i xs
      → IsHeapBut less d k n (child less d xs n i) (swap d xs i (child less d xs n i))
        × (k ≤ i
            → less_at less d (swap d xs i (child less d xs n i)) (child less d xs n i) i ≡ false)
  sunk-IsHeapBut k n i xs hn hi lt h =
      let j = child less d xs n i in
      let b = child-bounds less d xs n i hi in
      let up : parent j ≡ i = child-parent xs n i in
      let il : i < length xs = omega (arith, b) in
      let jl : j < length xs = omega (arith, b) in
      let at_j = swap_at_second d xs i j il jl in
      let at_i = swap_at_first d xs i j il jl in
      let off = λ (c : ℕ) (p : c ≢ i) (q : c ≢ j). swap_elsewhere d xs i j c il jl p q in
      let turned = w.asymmetric (get_or xs j d) (get_or xs i d) lt in
      (
        record {
          others = λ c c0 cn kc p q. elim (eq_cases (parent c) i) [
            | inl u ↦ let r = child-IsFirst xs n i c c0 cn u in let s = off c (omega arith) p in cc
            | inr u ↦
                let s = off (parent c) u q in
                elim (eq_cases c i) [
                  | inl v ↦
                      let i0 : 0 < i = omega arith in
                      let ki : k ≤ parent i = omega arith in
                      let j0 : 0 < j = omega (arith, b) in
                      let jn : j < n = omega (arith, b) in let r = h.across j j0 jn up i0 ki in cc
                  | inr v ↦ let r = h.others c c0 cn kc v u in let t = off c v p in cc
                ]
          ];
          across = λ c c0 cn e j0 kj.
              let ci : c ≢ i = omega (arith, b) in
              let cj : c ≢ j = omega (arith, b) in
              let pci : parent c ≢ i = omega (arith, b) in
              let kc : k ≤ parent c = omega (arith, b) in
              let r = h.others c c0 cn kc ci pci in let s = off c ci cj in cc;
        },
        λ ki. cc,
      )

  -- The entry stays where it is, or sinks and leaves a heap.
  abbrev pub Outcome : ℕ → ℕ → ℕ → List A → List A × ℕ → Type ℓ
  Outcome k n i xs r =
      ((r ≡ (xs, i)) × OrdersChildren less d n i xs) ⊎ ((i < r.1) × IsHeapFrom less d k n r.0)

  pub down_loop-Outcome :
      (k fuel n i : ℕ) (xs : List A)
      → n ≤ length xs
      → n ≤ fuel + i
      → IsHeapBut less d k n i xs
      → Outcome k n i xs (down_loop less d fuel n i xs)
  unfolding down_loop
  down_loop-Outcome k zero n i xs hn hf h = inl (refl, λ c c0 cn e. absurd (omega arith))
  down_loop-Outcome k (suc fuel) n i xs hn hf h =
      let j = child less d xs n i in
      if-elim (Outcome k n i xs) (leb n (2 * i + 1))
        (λ e. inl (refl, λ c c0 cn u. absurd (omega (arith, leb→le n (2 * i + 1) e))))
        (λ e.
          if-elim (Outcome k n i xs) (not (less_at less d xs j i))
            (λ u.
              let stays : less_at less d xs j i ≡ false = ground arith in
              inl (
                refl,
                λ c c0 cn v.
                    w.negated_trans (get_or xs c d) (get_or xs j d) (get_or xs i d)
                      (child-IsFirst xs n i c c0 cn v) stays,
              ))
            (λ u.
              let lt : less_at less d xs j i ≡ true = ground arith in
              let hi : 2 * i + 1 < n = ground arith in
              let b = child-bounds less d xs n i hi in
              let up : parent j ≡ i = child-parent xs n i in
              let sunk = sunk-IsHeapBut k n i xs hn hi lt h in
              let ys = swap d xs i j in
              let hy : n ≤ length ys = omega (arith, length-swap d xs i j) in
              elim (down_loop-Outcome k fuel n j ys hy (omega (arith, b)) sunk.0) [
                | inl (same, below) ↦ inr (
                  omega (arith, b, ap (λ (r : List A × ℕ). r.1) same),
                  subst (λ (r : List A × ℕ). IsHeapFrom less d k n r.0) (sym same)
                      (whole less d k n j ys sunk.0 below
                        (λ j0 kj. let r = sunk.1 (omega (arith, up, kj)) in cc)),
                )
                | inr (lower, heap) ↦ inr (omega (arith, b, lower), heap)
              ]))

  -- An entry from n on is left alone.
  pub down_loop_above :
      (fuel n i m : ℕ) (xs : List A)
      → n ≤ length xs
      → n ≤ m
      → get_or (down_loop less d fuel n i xs).0 m d ≡ get_or xs m d
  unfolding down_loop
  down_loop_above zero n i m xs hn hm = refl
  down_loop_above (suc fuel) n i m xs hn hm =
      let j = child less d xs n i in
      let P = λ (r : List A × ℕ). get_or r.0 m d ≡ get_or xs m d in
      if-elim P (leb n (2 * i + 1)) (λ e. refl)
        (λ e.
          if-elim P (not (less_at less d xs j i)) (λ u. refl)
            (λ u.
              let b = child-bounds less d xs n i (ground arith) in
              down_loop_above fuel n j m (swap d xs i j) (omega (arith, length-swap d xs i j)) hm
              ∙ swap_elsewhere d xs i j m (omega (arith, b)) (omega (arith, b)) (omega (arith, b))
                  (omega (arith, b))))
