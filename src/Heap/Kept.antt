-- ===== src/Heap/Kept.antt =====
-- The heap order under the operations of container/heap, and the entry that Pop gives.
use mathlib.Core.Path.{subst}
use smart_buster.Prelude.{
  ℕ, zero, suc, ◌-◌, ◌/◌, ◌≤◌, ◌<◌, Bool, false, ◌==◌, ltb, ◌≡◌, ◌≢◌, inl, inr, refl, sym, ◌∙◌, ap,
  List, [], ◌∷◌, ◌++◌, if◌then◌else◌, arith, length, take, set, length-set, length-append,
  length-take, if-elim,
}
use smart_buster.Prelude.Sort.{IsStrictWeak}
use smart_buster.Heap.{
  get_or, parent, less_at, swap, down_loop, down, up, up_loop, heapify, init, push, settle, fix,
  pop_last, pop,
}
use smart_buster.Heap.Count.{length-swap, swap_at_second, swap_elsewhere, get_or-set}
use smart_buster.Heap.Contents.{down-Permutes, down_loop-Permutes, up_loop-Permutes}
use smart_buster.Heap.Order.{IsHeapFrom, IsHeap, IsHeapBut, OrdersChildren, whole, eq_cases}
use smart_buster.Heap.Down.{down_loop-Outcome, down_loop_above}
use smart_buster.Heap.Up.{IsRising, up_loop-IsHeapFrom}

module _ {ℓ} {A : Type ℓ} (less : A → A → Bool) (d : A) (w : IsStrictWeak less) where
  get_or-take : (n c : ℕ) (xs : List A) → c < n → get_or (take n xs) c d ≡ get_or xs c d
  get_or-take zero c xs h = elim h [ ]
  get_or-take (suc n) c [] h = refl
  get_or-take (suc n) zero (x ∷ xs) h = refl
  get_or-take (suc n) (suc c) (x ∷ xs) h = get_or-take n c xs (omega arith)

  get_or_append : (xs ys : List A) (c : ℕ) → c < length xs → get_or (xs ++ ys) c d ≡ get_or xs c d
  get_or_append [] ys c h = elim h [ ]
  get_or_append (x ∷ xs) ys zero h = refl
  get_or_append (x ∷ xs) ys (suc c) h = get_or_append xs ys c (omega arith)

  pub take-IsHeap :
      (n : ℕ) (xs : List A) → n ≤ length xs → IsHeapFrom less d 0 n xs → IsHeap less d (take n xs)
  take-IsHeap n xs hn h c c0 cn kc =
      let small : c < n = omega (arith, length-take n xs) in
      let s = get_or-take n c xs small in
      let t = get_or-take n (parent c) xs (omega arith) in let r = h c c0 small kc in cc

  sink-IsHeapFrom :
      (k n i : ℕ) (xs : List A)
      → n ≤ length xs
      → IsHeapBut less d k n i xs
      → (0 < i → k ≤ parent i → less_at less d xs i (parent i) ≡ false)
      → IsHeapFrom less d k n (down less d i n xs).0
  unfolding down
  sink-IsHeapFrom k n i xs hn h above =
      elim (down_loop-Outcome less d w k (suc n) n i xs hn (omega arith) h) [
        | inl (same, below) ↦
            subst (λ (r : List A × ℕ). IsHeapFrom less d k n r.0) (sym same)
              (whole less d k n i xs h below above)
        | inr (lower, heap) ↦ heap
      ]

  pub settle-IsHeapFrom :
      (n i : ℕ) (xs : List A)
      → n ≤ length xs
      → i < n
      → IsHeapBut less d 0 n i xs
      → IsHeapFrom less d 0 n (settle less d i n xs)
  unfolding settle down up
  settle-IsHeapFrom n i xs hn hi h =
      elim (down_loop-Outcome less d w 0 (suc n) n i xs hn (omega arith) h) [
        | inl (same, below) ↦
            subst
              (λ (r : List A × ℕ).
                IsHeapFrom less d 0 n (if ltb i r.1 then r.0 else up_loop less d (suc i) i r.0))
              (sym same)
              (if-elim (IsHeapFrom less d 0 n) (ltb i i) (λ e. absurd (ground arith))
                (λ e.
                  up_loop-IsHeapFrom less d w (suc i) n i xs hn hi (omega arith) (rising below)))
        | inr (lower, heap) ↦
            if-elim (IsHeapFrom less d 0 n) (ltb i (down_loop less d (suc n) n i xs).1) (λ e. heap)
              (λ e. absurd (ground arith))
      ]
    where
      rising : OrdersChildren less d n i xs → IsRising less d w n i xs
      rising below = record {
        others = λ c c0 cn e. elim (eq_cases (parent c) i) [
          | inl u ↦ let r = below c c0 cn u in cc
          | inr u ↦ h.others c c0 cn (omega arith) e u
        ];
        across = λ c c0 cn e i0. h.across c c0 cn e i0 (omega arith);
      }

  -- A heap but for the entry that stands at i now
  pub replaced-IsHeapBut :
      (n i : ℕ) (xs ys : List A)
      → IsHeapFrom less d 0 n xs
      → i < n
      → ((c : ℕ) → c < n → c ≢ i → get_or ys c d ≡ get_or xs c d)
      → IsHeapBut less d 0 n i ys
  replaced-IsHeapBut n i xs ys h hi same = record {
    others = λ c c0 cn kc ni np.
        let s = same c cn ni in
        let t = same (parent c) (omega arith) np in let r = h c c0 cn kc in cc;
    across = λ c c0 cn e i0 ki.
        let s = same c cn (omega arith) in
        let t = same (parent i) (omega arith) (omega arith) in
        let r = h c c0 cn (omega arith) in
        let q = h i i0 hi ki in
        let y : less (get_or xs c d) (get_or xs i d) ≡ false = cc in
        let v = w.negated_trans (get_or xs c d) (get_or xs i d) (get_or xs (parent i) d) y q in cc;
  }

  pub fix-IsHeap :
      (i : ℕ) (v : A) (xs : List A)
      → i < length xs
      → IsHeap less d xs
      → IsHeapFrom less d 0 (length xs) (fix less d i (set xs i v))
  unfolding fix
  fix-IsHeap i v xs hi h =
      let n = length-set xs i v in
      subst (λ (m : ℕ). IsHeapFrom less d 0 (length xs) (settle less d i m (set xs i v))) (sym n)
        (settle-IsHeapFrom (length xs) i (set xs i v) (omega (arith, n)) hi (
          replaced-IsHeapBut (length xs) i xs (set xs i v) h hi (λ c cn ne.
            let e : (c == i) ≡ false = ground arith in
            let r = get_or-set xs i c v d hi in rw (r, e))))

  heapify-IsHeap :
      (i : ℕ) (xs : List A)
      → i ≤ length xs
      → IsHeapFrom less d i (length xs) xs
      → IsHeap less d (heapify less d i xs)
  unfolding heapify
  heapify-IsHeap zero xs hi h = h
  heapify-IsHeap (suc i) xs hi h =
      let n = (down-Permutes less d i (length xs) xs (omega arith) (omega arith)).same_length in
      let but : IsHeapBut less d i (length xs) i xs = record {
        others = λ c c0 cn kc ni np. h c c0 cn (omega arith);
        across = λ c c0 cn e i0 ki. absurd (omega arith);
      } in
      let sunk =
        sink-IsHeapFrom i (length xs) i xs (omega arith) but (λ i0 ki. absurd (omega arith)) in
      heapify-IsHeap i _ (omega (arith, n))
        (subst (λ (m : ℕ). IsHeapFrom less d i m (down less d i (length xs) xs).0) (sym n) sunk)

  pub init-IsHeap : (xs : List A) → IsHeap less d (init less d xs)
  unfolding init
  init-IsHeap xs =
      heapify-IsHeap (length xs / 2) xs (omega arith) (λ c c0 cn kc. absurd (omega arith))

  pub push-IsHeap : (x : A) (xs : List A) → IsHeap less d xs → IsHeap less d (push less d x xs)
  unfolding push up
  push-IsHeap x xs h =
      let n = length xs in
      let ys = xs ++ x ∷ [] in
      let grown = length-append xs (x ∷ []) in
      let size = (up_loop-Permutes less d (suc n) n ys (omega (arith, grown))).same_length in
      subst (λ (m : ℕ). IsHeapFrom less d 0 m (up_loop less d (suc n) n ys)) (sym size)
        (up_loop-IsHeapFrom less d w (suc n) (length ys) n ys (omega arith) (omega (arith, grown))
          (omega arith)
          (record {
            others = λ c c0 cn e.
                let s = get_or_append xs (x ∷ []) c (omega (arith, grown)) in
                let t = get_or_append xs (x ∷ []) (parent c) (omega (arith, grown)) in
                let r = h c c0 (omega (arith, grown)) (omega arith) in cc;
            across = λ c c0 cn e j0. absurd (omega (arith, grown));
          }))

  -- Pop returns the root and leaves a heap.
  pub pop-IsHeap :
      (xs : List A)
      → 0 < length xs
      → IsHeap less d xs
      → ((pop less d xs).0 ≡ get_or xs 0 d) × IsHeap less d (pop less d xs).1
  unfolding pop pop_last down
  pop-IsHeap xs h0 h =
      let n = length xs - 1 in
      let ys = swap d xs 0 n in
      let same = length-swap d xs 0 n in
      let r = down_loop less d (suc n) n 0 ys in
      let size =
        (down_loop-Permutes less d (suc n) n 0 ys (omega (arith, same))
          (omega (arith, same))).same_length in
      let last : length r.0 - 1 ≡ n = omega (arith, size, same) in
      let but : IsHeapBut less d 0 n 0 ys = record {
        others = λ c c0 cn kc ni np.
            let s = swap_elsewhere d xs 0 n c h0 (omega arith) ni (omega arith) in
            let t = swap_elsewhere d xs 0 n (parent c) h0 (omega arith) np (omega arith) in
            let q = h c c0 (omega arith) kc in cc;
        across = λ c c0 cn e i0 ki. absurd (omega arith);
      } in
      let sunk : IsHeapFrom less d 0 n r.0 = sink 0 n 0 ys (omega (arith, same)) but in
      (
        ap (λ (m : ℕ). get_or r.0 m d) last
            ∙ down_loop_above less d w (suc n) n 0 n ys (omega (arith, same)) (omega arith)
            ∙ swap_at_second d xs 0 n h0 (omega arith),
        subst (λ (m : ℕ). IsHeap less d (take m r.0)) (sym last)
            (take-IsHeap n r.0 (omega (arith, size, same)) sunk),
      )
    where
      sink :
          (k n i : ℕ) (ys : List A)
          → n ≤ length ys
          → IsHeapBut less d k n 0 ys
          → IsHeapFrom less d k n (down_loop less d (suc n) n 0 ys).0
      sink k n i ys hn but = sink-IsHeapFrom k n 0 ys hn but (λ i0 ki. absurd (omega arith))
