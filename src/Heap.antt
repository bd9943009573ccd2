-- ===== src/Heap.antt =====
-- Go's container/heap over a slice, as internal/engine/frontier.go uses it. A read out of range
-- would panic in Go; here it gives the type's zero value, and no caller makes one.
pub mod Count
pub mod Contents
pub mod Order
pub mod Down
pub mod Up
pub mod Kept
pub mod Removed
use smart_buster.Prelude.{
  ℕ, zero, suc, ◌+◌, ◌*◌, ◌-◌, ◌/◌, Bool, true, false, not, ◌&&◌, ◌||◌, List, [], ◌∷◌, ◌++◌, ltb,
  leb, ◌==◌, if◌then◌else◌, length, set, take,
}

module _ {ℓ} {A : Type ℓ} where
  -- `xs[i]`
  abbrev pub get_or : List A → ℕ → A → A
  get_or [] i d = d
  get_or (x ∷ xs) zero d = x
  get_or (x ∷ xs) (suc i) d = get_or xs i d

abbrev pub parent : ℕ → ℕ
parent c = (c - 1) / 2

module _ {ℓ} {A : Type ℓ} (d : A) where
  unfoldable pub swap : List A → ℕ → ℕ → List A
  swap xs i j = set (set xs i (get_or xs j d)) j (get_or xs i d)

  -- The interface's own Pop: the last entry, and the slice without it.
  unfoldable pub pop_last : List A → A × List A
  pop_last xs = (get_or xs (length xs - 1) d, take (length xs - 1) xs)

module _ {ℓ} {A : Type ℓ} (less : A → A → Bool) (d : A) where
  abbrev pub less_at : List A → ℕ → ℕ → Bool
  less_at xs i j = less (get_or xs i d) (get_or xs j d)

  -- The smaller child of i below n; the left one exists.
  unfoldable pub child : List A → ℕ → ℕ → ℕ
  child xs n i =
      if ltb (2 * i + 2) n && less_at xs (2 * i + 2) (2 * i + 1) then 2 * i + 2 else 2 * i + 1

  -- The loop of `down`, with the index where the entry comes to rest. Each round at least
  -- doubles the index, so n rounds are enough.
  unfoldable pub down_loop : ℕ → ℕ → ℕ → List A → List A × ℕ
  unfolding child swap
  down_loop zero n i xs = (xs, i)
  down_loop (suc fuel) n i xs =
      let j = child xs n i in
      let sunk = down_loop fuel n j (swap d xs i j) in
      if leb n (2 * i + 1) then (xs, i) else if not (less_at xs j i) then (xs, i) else sunk

  -- `down(h, i, n)`, with the result that it returns: whether the entry moved.
  unfoldable pub down : ℕ → ℕ → List A → List A × Bool
  unfolding down_loop
  down i n xs = let (ys, k) = down_loop (suc n) n i xs in (ys, ltb i k)

  -- The loop of `up`. The index falls in every round.
  unfoldable pub up_loop : ℕ → ℕ → List A → List A
  unfolding swap
  up_loop zero j xs = xs
  up_loop (suc fuel) j xs =
      let risen = up_loop fuel (parent j) (swap d xs (parent j) j) in
      if parent j == j || not (less_at xs j (parent j)) then xs else risen

  unfoldable pub up : ℕ → List A → List A
  unfolding up_loop
  up j xs = up_loop (suc j) j xs

  -- heap.Init: `for i := n/2 - 1; i >= 0; i--`
  unfoldable pub heapify : ℕ → List A → List A
  unfolding down
  heapify zero xs = xs
  heapify (suc i) xs = heapify i (down i (length xs) xs).0

  unfoldable pub init : List A → List A
  unfolding heapify
  init xs = heapify (length xs / 2) xs

  unfoldable pub push : A → List A → List A
  unfolding up
  push x xs = up (length xs) (xs ++ x ∷ [])

  -- `if !down(h, i, n) { up(h, i) }`
  unfoldable pub settle : ℕ → ℕ → List A → List A
  unfolding down up
  settle i n xs = let (ys, moved) = down i n xs in if moved then ys else up i ys

  unfoldable pub fix : ℕ → List A → List A
  unfolding settle
  fix i xs = settle i (length xs) xs

  -- heap.Pop; the slice is not empty.
  unfoldable pub pop : List A → A × List A
  unfolding down pop_last swap
  pop xs = pop_last d (down 0 (length xs - 1) (swap d xs 0 (length xs - 1))).0

  -- heap.Remove
  unfoldable pub remove : ℕ → List A → A × List A
  unfolding settle pop_last swap
  remove i xs =
      let n = length xs - 1 in pop_last d (if not (n == i) then settle i n (swap d xs i n) else xs)
