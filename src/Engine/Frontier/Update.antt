-- ===== src/Engine/Frontier/Update.antt =====
-- UpdateMatching and TopK of internal/engine/frontier.go.
use mathlib.Core.Path.{subst}
use smart_buster.Prelude.{
  ℕ, suc, ◌+◌, ◌-◌, ◌≤◌, ◌<◌, Bool, true, false, not, ◌≡◌, ◌↔◌, refl, sym, ◌∙◌, ap, Option, none,
  some, [], ◌∷◌, String, arith, if◌then◌else◌, length, set, length-set, length-take, count_if,
  count_if-set, if-elim, get_elem?, min,
}
use smart_buster.Prelude.Float.{Float, IsOrdered}
use smart_buster.Prelude.Sort.{
  sort_by, sorted_rank, is_sorted-sort_by, length-sort_by, count_if-sort_by,
}
use smart_buster.Heap.Count.{get_elem?-get_or}
use smart_buster.Heap.Order.{IsHeapFrom}
use smart_buster.Heap.Contents.{fix-Permutes}
use smart_buster.Heap.Kept.{fix-IsHeap}
use smart_buster.Engine.Types.{Candidate, zero_candidate}
use smart_buster.Engine.Frontier.{
  less, Frontier, item, find_from, is_at, update_at, update_matching, top_k,
}
use smart_buster.Engine.Frontier.Order.{less-IsStrictWeak, IsValid}
use smart_buster.Engine.Frontier.Indices.{count_if-zero, Hits, shift-Hits, get_elem?-take}

module _ {F : Type 0} ⦃f : Float F⦄ ⦃o : IsOrdered F⦄ where
  -- What the first index that passes a test says
  abbrev IsFirst : ℕ → (Candidate F → Bool) → Frontier F → Option ℕ → Type 0
  IsFirst i p xs r =
      ((r ≡ none) ↔ (count_if p xs ≡ 0)) × ((j : ℕ) → r ≡ some j → Hits zero_candidate i p xs j)

  find_from-IsFirst :
      (i : ℕ) (p : Candidate F → Bool) (xs : Frontier F) → IsFirst i p xs (find_from i p xs)
  unfolding find_from
  find_from-IsFirst i p [] = (((λ u. refl), (λ u. refl)), λ j u. cc)
  find_from-IsFirst i p (x ∷ xs) =
      let rest = find_from-IsFirst (suc i) p xs in
      if-elim (IsFirst i p (x ∷ xs)) (p x) {x = some i} {y = find_from (suc i) p xs}
        (λ e. (
          ((λ u. cc), (λ u. absurd (ground (arith, e, u)))),
          λ j u.
              let same : i ≡ j = cc in
              let z : j - i ≡ 0 = omega arith in
              (omega arith, omega arith, ap (λ (m : ℕ). p (item (x ∷ xs) m)) z ∙ e),
        ))
        (λ e. (
          (
            (λ u. let r = rest.0.0 u in ground (arith, e, r)),
            (λ u. rest.0.1 (ground (arith, e, u))),
          ),
          λ j u. shift-Hits zero_candidate i p x xs j (rest.1 j u),
        ))

  -- UpdateMatching reports whether a queued candidate has the directory and the path. If none
  -- has, the frontier is as it was. Otherwise one such candidate is exchanged for its image under
  -- the function. The frontier stays valid and as long as it was.
  pub update_matching-IsValid :
      (dir path : String) (fn : Candidate F → Candidate F) (items : Frontier F)
      → IsValid items
      → let r = update_matching dir path fn items in
        ((r.0 ≡ false) ↔ (count_if (is_at dir path) items ≡ 0))
        × (r.0 ≡ false → r.1 ≡ items)
        × (r.0 ≡ true
            → (c : Candidate F) × (is_at dir path c ≡ true)
              × ((p : Candidate F → Bool)
                  → count_if p r.1 + (if p c then 1 else 0)
                    ≡ count_if p items + (if p (fn c) then 1 else 0)))
        × IsValid r.1
        × (length r.1 ≡ length items)
  unfolding update_matching update_at
  update_matching-IsValid dir path fn items h =
      at (find_from 0 (is_at dir path) items) (find_from-IsFirst 0 (is_at dir path) items)
    where
      Result : Bool × Frontier F → Type 0
      Result r =
          ((r.0 ≡ false) ↔ (count_if (is_at dir path) items ≡ 0))
          × (r.0 ≡ false → r.1 ≡ items)
          × (r.0 ≡ true
              → (c : Candidate F) × (is_at dir path c ≡ true)
                × ((p : Candidate F → Bool)
                    → count_if p r.1 + (if p c then 1 else 0)
                      ≡ count_if p items + (if p (fn c) then 1 else 0)))
          × IsValid r.1
          × (length r.1 ≡ length items)

      at : (o : Option ℕ) → IsFirst 0 (is_at dir path) items o → Result (update_at fn items o)
      at none first = (((λ u. first.0.0 refl), (λ u. refl)), (λ u. refl), (λ u. cc), h, refl)
      at (some i) first =
          let hit = first.1 i refl in
          let hi : i < length items = omega (arith, hit) in
          let z : i - 0 ≡ i = omega arith in
          let v = fn (item items i) in
          let same = length-set items i v in
          let perm = fix-Permutes less zero_candidate i (set items i v) (omega (arith, same)) in
          let heap = fix-IsHeap less zero_candidate less-IsStrictWeak i v items hi h in
          let size = perm.same_length ∙ same in
          let found : is_at dir path (item items i) ≡ true =
            ap (λ (m : ℕ). is_at dir path (item items m)) (sym z) ∙ hit.2 in
          (
            (
              (λ u. cc),
              (λ u. let r = count_if-zero zero_candidate (is_at dir path) items i u hi in cc),
            ),
            (λ u. cc),
            (λ u. (
              item items i,
              found,
              λ p. omega (
                arith,
                perm.same_count p,
                count_if-set p items i v (item items i)
                    (get_elem?-get_or items i zero_candidate hi),
              ),
            )),
            subst (λ (m : ℕ). IsHeapFrom less zero_candidate 0 m (update_at fn items (some i)).1)
                (sym size) heap,
            size,
          )

  -- TopK gives at most k candidates, best first: each candidate that it gives stands at the place
  -- of its rank.
  pub top_k_lem :
      (k : ℕ) (items : Frontier F)
      → (length (top_k k items) ≡ min k (length items))
        × ((i : ℕ) (c : Candidate F)
            → get_elem? (top_k k items) i ≡ some c
            → (count_if (λ (e : Candidate F). f.lt c.score e.score) items ≤ i)
              × (i < count_if (λ (e : Candidate F). not (f.lt e.score c.score)) items))
  unfolding top_k
  top_k_lem k items =
      let sorted = sort_by less items in
      (
        length-take k sorted ∙ ap (min k) (length-sort_by less items),
        λ i c h.
            let r =
              sorted_rank less less-IsStrictWeak sorted i c
                (is_sorted-sort_by less less-IsStrictWeak items)
                (get_elem?-take zero_candidate k i c sorted h) in
            (
              omega (arith, r.0, count_if-sort_by less (λ e. less e c) items),
              omega (arith, r.1, count_if-sort_by less (λ e. not (less c e)) items),
            ),
      )

  -- A change that a count does not see leaves the count, on any frontier.
  pub count_if-update_matching :
      (p : Candidate F → Bool) (dir path : String) (fn : Candidate F → Candidate F)
      (items : Frontier F)
      → ((c : Candidate F) → p (fn c) ≡ p c)
      → count_if p (update_matching dir path fn items).1 ≡ count_if p items
  unfolding update_matching update_at
  count_if-update_matching p dir path fn items keeps =
      at (find_from 0 (is_at dir path) items) (find_from-IsFirst 0 (is_at dir path) items)
    where
      at :
          (o : Option ℕ)
          → IsFirst 0 (is_at dir path) items o
          → count_if p (update_at fn items o).1 ≡ count_if p items
      at none first = refl
      at (some i) first =
          let hit = first.1 i refl in
          let hi : i < length items = omega (arith, hit) in
          let v = fn (item items i) in
          let perm =
            fix-Permutes less zero_candidate i (set items i v)
              (omega (arith, length-set items i v)) in
          let weight : ℕ = if p v then 1 else 0 in
          let same : weight ≡ (if p (item items i) then 1 else 0) =
            ap (λ (b : Bool). if b then 1 else 0) (keeps (item items i)) in
          omega (
            arith,
            perm.same_count p,
            count_if-set p items i v (item items i) (get_elem?-get_or items i zero_candidate hi),
            same,
          )
