-- ===== src/Engine/Frontier.antt =====
-- internal/engine/frontier.go: the candidates that wait to be dispatched, as a heap whose first
-- entry has the highest score. Where the code draws from a random source, the number drawn is an
-- argument, and Intn reduces it.
pub mod Order
pub mod Indices
pub mod Sampling
pub mod Update
mod Tests
use smart_buster.Prelude.{
  ℕ, zero, suc, ◌+◌, ◌*◌, ◌-◌, ◌/◌, ◌%◌, Bool, true, false, not, ◌&&◌, Option, none, some, List, [],
  ◌∷◌, ◌++◌, map, String, str_eq, ltb, leb, ◌==◌, if◌then◌else◌, length, set, take,
}
use smart_buster.Prelude.Float.{Float}
use smart_buster.Prelude.Sort.{sort_by}
use smart_buster.Heap
use smart_buster.Heap.{get_or}
use smart_buster.Engine.Types.{Candidate, zero_candidate}

module _ {ℓ} {A : Type ℓ} where
  -- The indices, counted from i, of the entries that pass a test
  unfoldable pub indices_from : ℕ → (A → Bool) → List A → List ℕ
  indices_from i p [] = []
  indices_from i p (x ∷ xs) = let rest = indices_from (suc i) p xs in if p x then i ∷ rest else rest

  -- The first index from i that passes a test
  unfoldable pub find_from : ℕ → (A → Bool) → List A → Option ℕ
  find_from i p [] = none
  find_from i p (x ∷ xs) = let rest = find_from (suc i) p xs in if p x then some i else rest

  -- The entries that pass a test, in order
  unfoldable pub filter : (A → Bool) → List A → List A
  filter p [] = []
  filter p (x ∷ xs) = let rest = filter p xs in if p x then x ∷ rest else rest

-- The bounds of the middle third
unfoldable pub mid_tier : ℕ → ℕ × ℕ
mid_tier n = if leb (2 * n / 3) (n / 3) then (0, n) else (n / 3, 2 * n / 3)

abbrev pub Frontier : Type 0 → Type 0
Frontier F = List (Candidate F)

module _ {F : Type 0} ⦃f : Float F⦄ where
  -- candidateHeap.Less
  abbrev pub less : Candidate F → Candidate F → Bool
  less a b = f.lt b.score a.score

  abbrev pub new_frontier : Frontier F
  new_frontier = []

  unfoldable pub push : Candidate F → Frontier F → Frontier F
  push c items = Heap.push less zero_candidate c items

  -- The frontier is not empty.
  unfoldable pub pop : Frontier F → Candidate F × Frontier F
  pop items = Heap.pop less zero_candidate items

  unfoldable pub reprioritize : (Candidate F → Candidate F) → Frontier F → Frontier F
  reprioritize fn items = Heap.init less zero_candidate (map fn items)

  abbrev pub item : Frontier F → ℕ → Candidate F
  item items i = get_or items i zero_candidate

  -- The indices of the entries, best first
  unfoldable pub ranking : Frontier F → List ℕ
  unfolding indices_from sort_by
  ranking items =
      sort_by (λ (i j : ℕ). less (item items i) (item items j)) (indices_from 0 (λ c. true) items)

  unfoldable pub sample_mid_tier : ℕ → Frontier F → Option (Candidate F) × Frontier F
  unfolding ranking mid_tier
  sample_mid_tier draw items =
      let (lo, hi) = mid_tier (length items) in
      let idx = get_or (ranking items) (lo + draw % (hi - lo)) 0 in
      if length items == 0
      then (none, items)
      else (some (item items idx), (Heap.remove less zero_candidate idx items).1)

  abbrev pub order_jitter_band : F
  order_jitter_band = f.lit 5 100

  -- The indices of the entries within the band
  unfoldable pub band : F → Frontier F → List ℕ
  unfolding indices_from
  band band_frac items =
      let thresh = f.mul (item items 0).score (f.sub (f.lit 1 1) band_frac) in
      indices_from 0 (λ (c : Candidate F). f.le thresh c.score) items

  unfoldable pub pop_band : ℕ → F → Frontier F → Candidate F × Frontier F
  unfolding pop band
  pop_band draw band_frac items =
      let near = band band_frac items in
      let idx = get_or near (draw % length near) 0 in
      if leb (length items) 1
      then pop items
      else if f.le (item items 0).score (f.lit 0 1)
      then pop items
      else (item items idx, (Heap.remove less zero_candidate idx items).1)

  abbrev pub is_at : String → String → Candidate F → Bool
  is_at dir path c = str_eq c.parent_dir dir && str_eq c.path path

  -- The body of the loop at the candidate found, or the end of the loop
  unfoldable pub update_at : (Candidate F → Candidate F) → Frontier F → Option ℕ → Bool × Frontier F
  update_at fn items none = (false, items)
  update_at fn items (some i) =
      (true, Heap.fix less zero_candidate i (set items i (fn (item items i))))

  -- Whether a candidate was found, and the frontier with it changed
  unfoldable pub update_matching :
      String → String → (Candidate F → Candidate F) → Frontier F → Bool × Frontier F
  unfolding find_from update_at
  update_matching dir path fn items = update_at fn items (find_from 0 (is_at dir path) items)

  -- The candidates removed, and the frontier without them
  unfoldable pub remove_matching :
      (Candidate F → Bool) → Frontier F → List (Candidate F) × Frontier F
  unfolding filter
  remove_matching pred items =
      (filter pred items, Heap.init less zero_candidate (filter (λ c. not (pred c)) items))

  unfoldable pub top_k : ℕ → Frontier F → List (Candidate F)
  unfolding sort_by
  top_k k items = take k (sort_by less items)
