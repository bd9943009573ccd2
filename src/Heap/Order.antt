-- ===== src/Heap/Order.antt =====
-- The order of a heap, and of a slice that is a heap but for one entry.
use smart_buster.Prelude.{
  ℕ, zero, suc, ◌≤◌, ◌<◌, Bool, false, ◌≡◌, ◌≢◌, ◌⊎◌, inl, inr, List, arith, length,
}
use smart_buster.Prelude.Sort.{IsStrictWeak, irreflexive}
use smart_buster.Heap.{get_or, parent, less_at}

pub eq_cases : (i j : ℕ) → (i ≡ j) ⊎ (i ≢ j)
eq_cases i j = ground arith

module _ {ℓ} {A : Type ℓ} (less : A → A → Bool) (d : A) where
  -- Of the first n entries, those whose parent is k or later do not come before it.
  abbrev pub IsHeapFrom : ℕ → ℕ → List A → Type 0
  IsHeapFrom k n xs =
      (c : ℕ) → 0 < c → c < n → k ≤ parent c → less_at less d xs c (parent c) ≡ false

  abbrev pub IsHeap : List A → Type 0
  IsHeap xs = IsHeapFrom 0 (length xs) xs

  -- The same but for the entry i, whose children do not come before its parent.
  pub record IsHeapBut (k n i : ℕ) (xs : List A) : Type 0 where
    pub others :
        (c : ℕ)
        → 0 < c
        → c < n
        → k ≤ parent c
        → c ≢ i
        → parent c ≢ i
        → less_at less d xs c (parent c) ≡ false
    pub across :
        (c : ℕ)
        → 0 < c
        → c < n
        → parent c ≡ i
        → 0 < i
        → k ≤ parent i
        → less_at less d xs c (parent i) ≡ false

  abbrev pub OrdersChildren : ℕ → ℕ → List A → Type 0
  OrdersChildren n i xs = (c : ℕ) → 0 < c → c < n → parent c ≡ i → less_at less d xs c i ≡ false

  pub whole :
      (k n i : ℕ) (xs : List A)
      → IsHeapBut k n i xs
      → OrdersChildren n i xs
      → (0 < i → k ≤ parent i → less_at less d xs i (parent i) ≡ false)
      → IsHeapFrom k n xs
  whole k n i xs h below above c c0 cn kc = elim (eq_cases c i) [
    | inl e ↦
        let f : 0 < i = omega arith in let g : k ≤ parent i = omega arith in let r = above f g in cc
    | inr e ↦ elim (eq_cases (parent c) i) [
      | inl u ↦ let r = below c c0 cn u in cc
      | inr u ↦ h.others c c0 cn kc e u
    ]
  ]

  -- The root comes first.
  pub root_first :
      IsStrictWeak less
      → (xs : List A) → IsHeap xs
      → (fuel c : ℕ) → c ≤ fuel
      → c < length xs
      → less_at less d xs c 0 ≡ false
  root_first w xs h fuel zero p q = irreflexive less w (get_or xs 0 d)
  root_first w xs h zero (suc c) p q = elim p [ ]
  root_first w xs h (suc fuel) (suc c) p q =
      w.negated_trans (get_or xs (suc c) d) (get_or xs (parent (suc c)) d) (get_or xs 0 d)
        (h (suc c) (omega arith) q (omega arith))
        (root_first w xs h fuel (parent (suc c)) (omega arith) (omega arith))
