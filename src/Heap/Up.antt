-- ===== src/Heap/Up.antt =====
-- The order of the heap under `up`, which raises an entry.
use smart_buster.Prelude.{
  ℕ, zero, suc, ◌≤◌, ◌<◌, Bool, true, false, not, ◌||◌, ◌==◌, ◌≡◌, ◌≢◌, inl, inr, refl, ◌∙◌, ap,
  List, arith, length, if-elim,
}
use smart_buster.Prelude.Sort.{IsStrictWeak}
use smart_buster.Heap.{get_or, parent, less_at, swap, up_loop}
use smart_buster.Heap.Count.{length-swap, swap_at_first, swap_at_second, swap_elsewhere}
use smart_buster.Heap.Order.{IsHeapFrom, eq_cases}

module _ {ℓ} {A : Type ℓ} (less : A → A → Bool) (d : A) (w : IsStrictWeak less) where
  -- A heap but for the entry j, which may come before its parent.
  pub record IsRising (n j : ℕ) (xs : List A) : Type 0 where
    pub others : (c : ℕ) → 0 < c → c < n → c ≢ j → less_at less d xs c (parent c) ≡ false
    pub across :
        (c : ℕ) → 0 < c → c < n → parent c ≡ j → 0 < j → less_at less d xs c (parent j) ≡ false

  risen-IsRising :
      (n j : ℕ) (xs : List A)
      → n ≤ length xs
      → 0 < j
      → j < n
      → less_at less d xs j (parent j) ≡ true
      → IsRising n j xs
      → IsRising n (parent j) (swap d xs (parent j) j)
  risen-IsRising n j xs hn j0 jn lt h =
      let i = parent j in
      let ij : i < j = omega arith in
      let at_j = swap_at_second d xs i j (omega arith) (omega arith) in
      let at_i = swap_at_first d xs i j (omega arith) (omega arith) in
      let off = λ (c : ℕ) (p : c ≢ i) (q : c ≢ j).
        swap_elsewhere d xs i j c (omega arith) (omega arith) p q in
      let turned = w.asymmetric (get_or xs j d) (get_or xs i d) lt in
      record {
        others = λ c c0 cn p. elim (eq_cases c j) [
          | inl u ↦ let e : parent c ≡ i = ap parent u in cc
          | inr u ↦
              let s = off c p u in
              let r = h.others c c0 cn u in
              elim (eq_cases (parent c) j) [
                | inl v ↦ let t = h.across c c0 cn v j0 in cc
                | inr v ↦ elim (eq_cases (parent c) i) [
                  | inl x ↦
                      let y : less (get_or xs (parent c) d) (get_or xs j d) ≡ false = cc in
                      let t =
                        w.negated_trans (get_or xs c d) (get_or xs (parent c) d) (get_or xs j d) r
                          y in
                      cc
                  | inr x ↦ let t = off (parent c) x v in cc
                ]
              ]
        ];
        across = λ c c0 cn e i0.
            let near : i ≢ j = omega arith in
            let s = off (parent i) (omega arith) (omega arith) in
            let r = h.others i i0 (omega arith) near in
            elim (eq_cases c j) [
              | inl u ↦ cc
              | inr u ↦
                  let t = off c (omega arith) u in
                  let q = h.others c c0 cn u in
                  let y : less (get_or xs c d) (get_or xs i d) ≡ false = cc in
                  let v =
                    w.negated_trans (get_or xs c d) (get_or xs i d) (get_or xs (parent i) d) y r in
                  cc
            ];
      }

  pub up_loop-IsHeapFrom :
      (fuel n j : ℕ) (xs : List A)
      → n ≤ length xs
      → j < n
      → j < fuel
      → IsRising n j xs
      → IsHeapFrom less d 0 n (up_loop less d fuel j xs)
  unfolding up_loop
  up_loop-IsHeapFrom zero n j xs hn jn hf h = elim hf [ ]
  up_loop-IsHeapFrom (suc fuel) n j xs hn jn hf h =
      let i = parent j in
      if-elim (IsHeapFrom less d 0 n) (i == j || not (less_at less d xs j i))
        (λ e c c0 cn kc. elim (eq_cases c j) [
          | inl u ↦ let k : less_at less d xs j i ≡ false = ground arith in cc
          | inr u ↦ h.others c c0 cn u
        ])
        (λ e.
          let j0 : 0 < j = ground arith in
          let lt : less_at less d xs j i ≡ true = ground arith in
          up_loop-IsHeapFrom fuel n i (swap d xs i j) (omega (arith, length-swap d xs i j))
            (omega arith) (omega arith) (risen-IsRising n j xs hn j0 jn lt h))

  -- An entry past j is left alone.
  pub up_loop_above :
      (fuel j m : ℕ) (xs : List A)
      → j < m
      → j < length xs
      → get_or (up_loop less d fuel j xs) m d ≡ get_or xs m d
  unfolding up_loop
  up_loop_above zero j m xs h hj = refl
  up_loop_above (suc fuel) j m xs h hj =
      let i = parent j in
      if-elim (λ (ys : List A). get_or ys m d ≡ get_or xs m d)
        (i == j || not (less_at less d xs j i)) (λ e. refl)
        (λ e.
          up_loop_above fuel i m (swap d xs i j) (omega arith) (omega (arith, length-swap d xs i j))
          ∙ swap_elsewhere d xs i j m (omega arith) hj (omega arith) (omega arith))
