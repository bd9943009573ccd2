-- ===== src/Heap/Contents.antt =====
-- The entries of the slice under the operations of container/heap, as a permutation.
use smart_buster.Prelude.{
  ℕ, zero, suc, ◌+◌, ◌*◌, ◌-◌, ◌/◌, ◌≤◌, ◌<◌, Bool, not, ◌||◌, ◌≡◌, ◌∙◌, List, [], ◌∷◌, ◌++◌, arith,
  leb, ◌==◌, if◌then◌else◌, length, take, count_if, if-elim, length-append, length-take,
}
use smart_buster.Heap.{
  get_or, parent, swap, less_at, child, down_loop, down, up_loop, up, heapify, init, push, settle,
  fix, pop_last, pop, remove,
}
use smart_buster.Heap.Count.{
  Permutes, refl-Permutes, trans-Permutes, if-Permutes, swap-Permutes, length-swap,
}

module _ {ℓ} {A : Type ℓ} (less : A → A → Bool) (d : A) where
  pub child-bounds :
      (xs : List A) (n i : ℕ)
      → 2 * i + 1 < n
      → (i < child less d xs n i) × (child less d xs n i < n)
  unfolding child
  child-bounds xs n i h = (ground arith, ground arith)

  pub down_loop-Permutes :
      (fuel n i : ℕ) (xs : List A)
      → n ≤ length xs
      → i < length xs
      → Permutes (down_loop less d fuel n i xs).0 xs
  unfolding down_loop
  down_loop-Permutes zero n i xs hn hi = refl-Permutes xs
  down_loop-Permutes (suc fuel) n i xs hn hi =
      let j = child less d xs n i in
      if-elim (λ (r : List A × ℕ). Permutes r.0 xs) (leb n (2 * i + 1)) (λ e. refl-Permutes xs)
        (λ e.
          if-elim (λ (r : List A × ℕ). Permutes r.0 xs) (not (less_at less d xs j i))
            (λ u. refl-Permutes xs)
            (λ u.
              let b = child-bounds xs n i (ground arith) in
              let same = length-swap d xs i j in
              trans-Permutes
                (down_loop-Permutes fuel n j (swap d xs i j) (omega (arith, b, same))
                  (omega (arith, b, same)))
                (swap-Permutes d xs i j hi (omega (arith, b)))))

  pub up_loop-Permutes :
      (fuel j : ℕ) (xs : List A) → j < length xs → Permutes (up_loop less d fuel j xs) xs
  unfolding up_loop
  up_loop-Permutes zero j xs h = refl-Permutes xs
  up_loop-Permutes (suc fuel) j xs h =
      if-Permutes (parent j == j || not (less_at less d xs j (parent j))) (λ e. refl-Permutes xs)
        (λ e.
          trans-Permutes
            (up_loop-Permutes fuel (parent j) (swap d xs (parent j) j)
              (omega (arith, length-swap d xs (parent j) j)))
            (swap-Permutes d xs (parent j) j (omega arith) h))

  pub down-Permutes :
      (i n : ℕ) (xs : List A) → n ≤ length xs → i < length xs → Permutes (down less d i n xs).0 xs
  unfolding down
  down-Permutes i n xs = down_loop-Permutes (suc n) n i xs

  up-Permutes : (j : ℕ) (xs : List A) → j < length xs → Permutes (up less d j xs) xs
  unfolding up
  up-Permutes j xs = up_loop-Permutes (suc j) j xs

  heapify-Permutes : (i : ℕ) (xs : List A) → i ≤ length xs → Permutes (heapify less d i xs) xs
  unfolding heapify
  heapify-Permutes zero xs h = refl-Permutes xs
  heapify-Permutes (suc i) xs h =
      let first = down-Permutes i (length xs) xs (omega arith) (omega arith) in
      trans-Permutes (heapify-Permutes i _ (omega (arith, first.same_length))) first

  pub init-Permutes : (xs : List A) → Permutes (init less d xs) xs
  unfolding init
  init-Permutes xs = heapify-Permutes (length xs / 2) xs (omega arith)

  pub push-Permutes : (x : A) (xs : List A) → Permutes (push less d x xs) (xs ++ x ∷ [])
  unfolding push
  push-Permutes x xs =
      up-Permutes (length xs) (xs ++ x ∷ []) (omega (arith, length-append xs (x ∷ [])))

  pub settle-Permutes :
      (i n : ℕ) (xs : List A) → n ≤ length xs → i < length xs → Permutes (settle less d i n xs) xs
  unfolding settle
  settle-Permutes i n xs hn hi =
      let sunk = down-Permutes i n xs hn hi in
      if-Permutes (down less d i n xs).1 (λ e. sunk)
        (λ e. trans-Permutes (up-Permutes i _ (omega (arith, sunk.same_length))) sunk)

  pub fix-Permutes : (i : ℕ) (xs : List A) → i < length xs → Permutes (fix less d i xs) xs
  unfolding fix
  fix-Permutes i xs = settle-Permutes i (length xs) xs (omega arith)

  count_if-take_last :
      (p : A → Bool) (n : ℕ) (xs : List A)
      → length xs ≡ suc n
      → (if p (get_or xs n d) then 1 else 0) + count_if p (take n xs) ≡ count_if p xs
  count_if-take_last p n [] h = omega arith
  count_if-take_last p zero (x ∷ []) h = ground arith
  count_if-take_last p zero (x ∷ y ∷ xs) h = omega arith
  count_if-take_last p (suc n) (x ∷ xs) h = omega (arith, count_if-take_last p n xs (omega arith))

  -- An entry is taken out: the others are those that were there.
  abbrev pub Takes : A × List A → List A → Type ℓ
  Takes r xs =
      (suc (length r.1) ≡ length xs)
      × ((p : A → Bool) → (if p r.0 then 1 else 0) + count_if p r.1 ≡ count_if p xs)

  pop_last-Takes : (xs ys : List A) → 0 < length ys → Permutes xs ys → Takes (pop_last d xs) ys
  unfolding pop_last
  pop_last-Takes xs ys h perm =
      let n = perm.same_length in
      (
        omega (arith, length-take (length xs - 1) xs, n),
        λ p. count_if-take_last p (length xs - 1) xs (omega (arith, n)) ∙ perm.same_count p,
      )

  pub pop-Takes : (xs : List A) → 0 < length xs → Takes (pop less d xs) xs
  unfolding pop
  pop-Takes xs h =
      let n = length xs - 1 in
      let s = swap-Permutes d xs 0 n h (omega arith) in
      let same = length-swap d xs 0 n in
      pop_last-Takes _ xs h (
        trans-Permutes
          (down-Permutes 0 n (swap d xs 0 n) (omega (arith, same)) (omega (arith, same))) s)

  pub remove-Takes : (i : ℕ) (xs : List A) → i < length xs → Takes (remove less d i xs) xs
  unfolding remove
  remove-Takes i xs h =
      let n = length xs - 1 in
      let same = length-swap d xs i n in
      pop_last-Takes _ xs (omega arith) (
        if-Permutes (not (n == i))
          (λ e.
            trans-Permutes
              (settle-Permutes i n (swap d xs i n) (omega (arith, same)) (omega (arith, same)))
              (swap-Permutes d xs i n h (omega arith)))
          (λ e. refl-Permutes xs))
