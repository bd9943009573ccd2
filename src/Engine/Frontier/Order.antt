-- ===== src/Engine/Frontier/Order.antt =====
-- The frontier of internal/engine/frontier.go as a heap: its validity, and what each operation
-- gives and keeps.
use mathlib.Core.Path.{subst}
use smart_buster.Prelude.{
  ℕ, suc, ◌+◌, ◌<◌, Bool, false, not, ◌≡◌, refl, sym, ◌∙◌, List, [], ◌∷◌, map, arith, if◌then◌else◌,
  length, count_if, count_if-append, length-append,
}
use smart_buster.Prelude.Float.{Float, IsOrdered}
use smart_buster.Prelude.Sort.{IsStrictWeak}
use smart_buster.Heap.{get_or}
use smart_buster.Heap.Order.{IsHeap, root_first}
use smart_buster.Heap.Contents.{Takes, pop-Takes, push-Permutes, init-Permutes}
use smart_buster.Heap.Kept.{pop-IsHeap, push-IsHeap, init-IsHeap}
use smart_buster.Engine.Types.{Candidate, zero_candidate}
use smart_buster.Engine.Frontier.{
  less, Frontier, push, pop, reprioritize, item, filter, remove_matching,
}

module _ {ℓ} {A : Type ℓ} (d : A) where
  count_if-none :
      (p : A → Bool) (xs : List A)
      → ((c : ℕ) → c < length xs → p (get_or xs c d) ≡ false)
      → count_if p xs ≡ 0
  count_if-none p [] h = refl
  count_if-none p (x ∷ xs) h =
      let first : p x ≡ false = h 0 (omega arith) in
      let rest = count_if-none p xs (λ c hc. h (suc c) (omega arith)) in ground (arith, first, rest)

module _ {F : Type 0} ⦃f : Float F⦄ ⦃o : IsOrdered F⦄ where
  pub less-IsStrictWeak : IsStrictWeak (less {F = F})
  less-IsStrictWeak = record {
    asymmetric = λ a b h. o.lt_asymm b.score a.score h;
    negated_trans = λ a b c h k. o.lt_cotrans a.score b.score c.score h k;
  }

  abbrev pub IsValid : Frontier F → Type 0
  IsValid items = IsHeap less zero_candidate items

  -- No candidate of the frontier has a higher score.
  abbrev pub IsBest : Candidate F → Frontier F → Type 0
  IsBest c items = count_if (λ (e : Candidate F). f.lt c.score e.score) items ≡ 0

  -- One candidate comes out, and the others stay.
  abbrev pub TakesOut : Candidate F × Frontier F → Frontier F → Type 0
  TakesOut r items = Takes less zero_candidate r items

  root-IsBest : (items : Frontier F) → IsValid items → IsBest (item items 0) items
  root-IsBest items h =
      count_if-none zero_candidate _ items
        (λ c hc. root_first less zero_candidate less-IsStrictWeak items h c c (omega arith) hc)

  -- Pop takes out a candidate that no other one beats, and leaves a valid frontier.
  pub pop-IsBest :
      (items : Frontier F)
      → IsValid items
      → 0 < length items
      → IsBest (pop items).0 items × TakesOut (pop items) items × IsValid (pop items).1
  unfolding pop
  pop-IsBest items h n =
      let r = pop-IsHeap less zero_candidate less-IsStrictWeak items n h in
      let best = root-IsBest items h in
      (
        subst (λ (c : Candidate F). IsBest c items) (sym r.0) best,
        pop-Takes less zero_candidate items n,
        r.1,
      )

  -- Push adds the candidate, and the frontier stays valid.
  pub push-IsValid :
      (c : Candidate F) (items : Frontier F)
      → IsValid items
      → IsValid (push c items)
        × (length (push c items) ≡ suc (length items))
        × ((p : Candidate F → Bool)
            → count_if p (push c items) ≡ count_if p items + (if p c then 1 else 0))
  unfolding push
  push-IsValid c items h =
      let same = push-Permutes less zero_candidate c items in
      (
        push-IsHeap less zero_candidate less-IsStrictWeak c items h,
        omega (arith, same.same_length, length-append items (c ∷ [])),
        λ p. omega (arith, same.same_count p, count_if-append p items (c ∷ [])),
      )

  filter_split :
      (p pred : Candidate F → Bool) (xs : List (Candidate F))
      → count_if p (filter pred xs) + count_if p (filter (λ c. not (pred c)) xs) ≡ count_if p xs
  unfolding filter
  filter_split p pred [] = refl
  filter_split p pred (x ∷ xs) = ground (arith, filter_split p pred xs)

  filter_none :
      (pred : Candidate F → Bool) (xs : List (Candidate F))
      → count_if pred (filter (λ c. not (pred c)) xs) ≡ 0
  unfolding filter
  filter_none pred [] = refl
  filter_none pred (x ∷ xs) = ground (arith, filter_none pred xs)

  filter_all :
      (pred : Candidate F → Bool) (xs : List (Candidate F))
      → count_if pred (filter pred xs) ≡ length (filter pred xs)
  unfolding filter
  filter_all pred [] = refl
  filter_all pred (x ∷ xs) = ground (arith, filter_all pred xs)

  -- RemoveMatching splits the frontier: the candidates that match come out, all of them and no
  -- other, none of them stays, and what stays is a valid frontier.
  pub remove_matching-IsValid :
      (pred : Candidate F → Bool) (items : Frontier F)
      → let r = remove_matching pred items in
        IsValid r.1
        × ((p : Candidate F → Bool) → count_if p r.0 + count_if p r.1 ≡ count_if p items)
        × (count_if pred r.0 ≡ length r.0)
        × (count_if pred r.1 ≡ 0)
  unfolding remove_matching
  remove_matching-IsValid pred items =
      let kept = filter (λ (c : Candidate F). not (pred c)) items in
      let same = init-Permutes less zero_candidate kept in
      (
        init-IsHeap less zero_candidate less-IsStrictWeak kept,
        (λ p. omega (arith, same.same_count p, filter_split p pred items)),
        filter_all pred items,
        same.same_count pred ∙ filter_none pred items,
      )

  count_if-map :
      (p : Candidate F → Bool) (fn : Candidate F → Candidate F) (xs : List (Candidate F))
      → count_if p (map fn xs) ≡ count_if (λ c. p (fn c)) xs
  count_if-map p fn [] = refl
  count_if-map p fn (x ∷ xs) = omega (arith, count_if-map p fn xs)

  -- Reprioritize replaces each candidate by its image, and leaves a valid frontier whatever the
  -- new scores are.
  pub reprioritize-IsValid :
      (fn : Candidate F → Candidate F) (items : Frontier F)
      → IsValid (reprioritize fn items)
        × ((p : Candidate F → Bool)
            → count_if p (reprioritize fn items) ≡ count_if (λ c. p (fn c)) items)
  unfolding reprioritize
  reprioritize-IsValid fn items = (
    init-IsHeap less zero_candidate less-IsStrictWeak (map fn items),
    λ p. (init-Permutes less zero_candidate (map fn items)).same_count p ∙ count_if-map p fn items,
  )
