-- ===== src/Heap/Removed.antt =====
-- heap.Remove: the entry that it gives, and the heap order behind it.
use mathlib.Core.Path.{subst}
use smart_buster.Prelude.{
  ℕ, suc, ◌-◌, ◌≤◌, ◌<◌, Bool, not, ◌==◌, ltb, ◌≡◌, ◌≢◌, sym, ◌∙◌, ap, List, arith, length, take,
  if-elim,
}
use smart_buster.Prelude.Sort.{IsStrictWeak}
use smart_buster.Heap.{get_or, swap, down_loop, down, up, settle, pop_last, remove}
use smart_buster.Heap.Count.{length-swap, swap_at_second, swap_elsewhere}
use smart_buster.Heap.Contents.{down_loop-Permutes, settle-Permutes}
use smart_buster.Heap.Order.{IsHeap}
use smart_buster.Heap.Down.{down_loop_above}
use smart_buster.Heap.Up.{up_loop_above}
use smart_buster.Heap.Kept.{take-IsHeap, settle-IsHeapFrom, replaced-IsHeapBut}

module _ {ℓ} {A : Type ℓ} (less : A → A → Bool) (d : A) (w : IsStrictWeak less) where
  settle_above :
      (n i m : ℕ) (xs : List A)
      → n ≤ length xs
      → i < n
      → n ≤ m
      → get_or (settle less d i n xs) m d ≡ get_or xs m d
  unfolding settle down up
  settle_above n i m xs hn hi hm =
      let r = down_loop less d (suc n) n i xs in
      let size = (down_loop-Permutes less d (suc n) n i xs hn (omega arith)).same_length in
      let sunk = down_loop_above less d w (suc n) n i m xs hn hm in
      if-elim (λ (ys : List A). get_or ys m d ≡ get_or xs m d) (ltb i r.1) (λ e. sunk)
        (λ e. up_loop_above less d w (suc i) i m r.0 (omega arith) (omega (arith, size)) ∙ sunk)

  pub remove_entry : (i : ℕ) (xs : List A) → i < length xs → (remove less d i xs).0 ≡ get_or xs i d
  unfolding remove pop_last
  remove_entry i xs hi =
      let n = length xs - 1 in
      let ys = swap d xs i n in
      if-elim (λ (zs : List A). get_or zs (length zs - 1) d ≡ get_or xs i d) (not (n == i))
        (λ e.
          let ne : n ≢ i = ground arith in
          let same = length-swap d xs i n in
          let size =
            (settle-Permutes less d i n ys (omega (arith, same))
              (omega (arith, same))).same_length in
          let last : length (settle less d i n ys) - 1 ≡ n = omega (arith, size, same) in
          ap (λ (m : ℕ). get_or (settle less d i n ys) m d) last
          ∙ settle_above n i n ys (omega (arith, same)) (omega arith) (omega arith)
          ∙ swap_at_second d xs i n hi (omega arith))
        (λ e. let last : n ≡ i = ground arith in ap (λ (m : ℕ). get_or xs m d) last)

  -- Remove returns the entry at i and leaves a heap.
  pub remove-IsHeap :
      (i : ℕ) (xs : List A)
      → i < length xs
      → IsHeap less d xs
      → ((remove less d i xs).0 ≡ get_or xs i d) × IsHeap less d (remove less d i xs).1
  unfolding remove pop_last
  remove-IsHeap i xs hi h =
      let n = length xs - 1 in
      let ys = swap d xs i n in
      (
        remove_entry i xs hi,
        if-elim (λ (zs : List A). IsHeap less d (take (length zs - 1) zs)) (not (n == i))
            (λ e.
              let ne : n ≢ i = ground arith in
              let same = length-swap d xs i n in
              let size =
                (settle-Permutes less d i n ys (omega (arith, same))
                  (omega (arith, same))).same_length in
              let last : length (settle less d i n ys) - 1 ≡ n = omega (arith, size, same) in
              let heap = settle-IsHeapFrom less d w n i ys (omega (arith, same)) (omega arith) (
                replaced-IsHeapBut less d w n i xs ys (λ c c0 cn kc. h c c0 (omega arith) kc)
                  (omega arith)
                  (λ c cn ci. swap_elsewhere d xs i n c hi (omega arith) ci (omega arith))) in
              subst (λ (m : ℕ). IsHeap less d (take m (settle less d i n ys))) (sym last)
                (take-IsHeap less d w n _ (omega (arith, size, same)) heap))
            (λ e. take-IsHeap less d w n xs (omega arith) (λ c c0 cn kc. h c c0 (omega arith) kc)),
      )
