-- ===== src/Prelude/Sort.antt =====
-- sort.Slice over a comparison. Go leaves the order of equal entries open; this is one such order.
use smart_buster.Prelude.Tests.{if◌then◌else◌, if-elim, Bool-cases}
use smart_buster.Prelude.Lists.{length, count_if, all_of, get_elem?}
use Prim.Native.Nat.{ℕ, zero, suc, ◌+◌, ◌≤◌, ◌<◌}
use mathlib.Core.Path.{◌≡◌, refl, ◌∙◌, ap}
use mathlib.Core.Bool.{Bool, true, false, not, ◌&&◌}
use mathlib.Core.Logic.{inl, inr}
use mathlib.Core.Option.{some}
use mathlib.Core.List.{List, [], ◌∷◌}
use native.Mathlib.Omega.{arith}

-- What a comparison satisfies for the entries to be sorted by it
pub record IsStrictWeak {ℓ} {A : Type ℓ} (less : A → A → Bool) : Type ℓ where
  pub asymmetric : (a b : A) → less a b ≡ true → less b a ≡ false
  pub negated_trans : (a b c : A) → less a b ≡ false → less b c ≡ false → less a c ≡ false

module _ {ℓ} {A : Type ℓ} (less : A → A → Bool) where
  unfoldable pub insert : A → List A → List A
  insert x [] = x ∷ []
  insert x (y ∷ ys) = let rest = insert x ys in if less y x then y ∷ rest else x ∷ y ∷ ys

  unfoldable pub sort_by : List A → List A
  unfolding insert
  sort_by [] = []
  sort_by (x ∷ xs) = insert x (sort_by xs)

  -- No entry comes before one that stands to its left.
  abbrev pub is_sorted : List A → Bool
  is_sorted [] = true
  is_sorted (x ∷ xs) = all_of (λ y. not (less y x)) xs && is_sorted xs

  pub count_if-insert :
      (p : A → Bool) (x : A) (xs : List A)
      → count_if p (insert x xs) ≡ (if p x then 1 else 0) + count_if p xs
  unfolding insert
  count_if-insert p x [] = omega arith
  count_if-insert p x (y ∷ ys) = ground (arith, count_if-insert p x ys)

  pub count_if-sort_by : (p : A → Bool) (xs : List A) → count_if p (sort_by xs) ≡ count_if p xs
  unfolding sort_by
  count_if-sort_by p [] = refl
  count_if-sort_by p (x ∷ xs) =
      omega (arith, count_if-insert p x (sort_by xs), count_if-sort_by p xs)

  length-insert : (x : A) (xs : List A) → length (insert x xs) ≡ suc (length xs)
  unfolding insert
  length-insert x [] = refl
  length-insert x (y ∷ ys) = ground (arith, length-insert x ys)

  pub length-sort_by : (xs : List A) → length (sort_by xs) ≡ length xs
  unfolding sort_by
  length-sort_by [] = refl
  length-sort_by (x ∷ xs) = length-insert x (sort_by xs) ∙ ap suc (length-sort_by xs)

module _ {ℓ} {A : Type ℓ} where
  pub irreflexive : (less : A → A → Bool) → IsStrictWeak less → (a : A) → less a a ≡ false
  irreflexive less w a = elim (Bool-cases (less a a)) [ inl e ↦ w.asymmetric a a e | inr e ↦ e ]

  all_of-weaken :
      (p q : A → Bool) (xs : List A)
      → ((x : A) → p x ≡ true → q x ≡ true)
      → all_of p xs ≡ true
      → all_of q xs ≡ true
  all_of-weaken p q [] h e = refl
  all_of-weaken p q (x ∷ xs) h e =
      let head = h x (ground (arith, e)) in
      let rest = all_of-weaken p q xs h (ground (arith, e)) in ground (arith, head, rest)

  all_of-insert :
      (less : A → A → Bool) (p : A → Bool) (x : A) (xs : List A)
      → p x ≡ true
      → all_of p xs ≡ true
      → all_of p (insert less x xs) ≡ true
  unfolding insert
  all_of-insert less p x [] h e = ground (arith, h)
  all_of-insert less p x (y ∷ ys) h e = ground (arith, h, e, all_of-insert less p x ys h)

  is_sorted-insert :
      (less : A → A → Bool)
      → IsStrictWeak less
      → (x : A) (xs : List A) → is_sorted less xs ≡ true
      → is_sorted less (insert less x xs) ≡ true
  unfolding insert
  is_sorted-insert less w x [] h = refl
  is_sorted-insert less w x (y ∷ ys) h =
      let after = λ (z : A). not (less z y) in
      let head : all_of after ys ≡ true = ground (arith, h) in
      let tail : is_sorted less ys ≡ true = ground (arith, h) in
      if-elim (λ (zs : List A). is_sorted less zs ≡ true) (less y x)
        (λ e.
          let back : after x ≡ true = ground (arith, w.asymmetric y x e) in
          let all = all_of-insert less after x ys back head in
          let rest = is_sorted-insert less w x ys tail in ground (arith, all, rest))
        (λ e.
          let all =
            all_of-weaken after (λ z. not (less z x)) ys
              (λ z u. ground (arith, w.negated_trans z y x (ground (arith, u)) e)) head in
          ground (arith, all, e, h))

  pub is_sorted-sort_by :
      (less : A → A → Bool)
      → IsStrictWeak less
      → (xs : List A) → is_sorted less (sort_by less xs) ≡ true
  unfolding sort_by
  is_sorted-sort_by less w [] = refl
  is_sorted-sort_by less w (x ∷ xs) =
      is_sorted-insert less w x (sort_by less xs) (is_sorted-sort_by less w xs)

  all_of-none :
      (p q : A → Bool) (xs : List A)
      → ((x : A) → p x ≡ true → q x ≡ false)
      → all_of p xs ≡ true
      → count_if q xs ≡ 0
  all_of-none p q [] h e = refl
  all_of-none p q (x ∷ xs) h e =
      let head = h x (ground (arith, e)) in
      let rest = all_of-none p q xs h (ground (arith, e)) in ground (arith, head, rest)

  all_of-get_elem? :
      (p : A → Bool) (xs : List A) (k : ℕ) (x : A)
      → all_of p xs ≡ true
      → get_elem? xs k ≡ some x
      → p x ≡ true
  all_of-get_elem? p [] k x e h = ground (arith, e, h)
  all_of-get_elem? p (y ∷ xs) zero x e h =
      let same : y ≡ x = cc in let head : p y ≡ true = ground (arith, e) in cc
  all_of-get_elem? p (y ∷ xs) (suc k) x e h = all_of-get_elem? p xs k x (ground (arith, e)) h

  -- In a sorted list, at most k entries come before the one at k, and the k + 1 entries up to it
  -- do not come after it.
  pub sorted_rank :
      (less : A → A → Bool)
      → IsStrictWeak less
      → (xs : List A) (k : ℕ) (x : A) → is_sorted less xs ≡ true
      → get_elem? xs k ≡ some x
      → (count_if (λ y. less y x) xs ≤ k) × (k < count_if (λ y. not (less x y)) xs)
  sorted_rank less w [] k x s h = ground (arith, h)
  sorted_rank less w (y ∷ xs) zero x s h =
      let same : x ≡ y = cc in
      let self = irreflexive less w x in
      let none =
        all_of-none (λ z. not (less z x)) (λ z. less z x) xs (λ z u. ground (arith, u))
          (ground (arith, s, same)) in
      (ground (arith, none, self, same), ground (arith, self, same))
  sorted_rank less w (y ∷ xs) (suc k) x s h =
      let rank = sorted_rank less w xs k x (ground (arith, s)) h in
      let later : not (less x y) ≡ true =
        all_of-get_elem? (λ z. not (less z y)) xs k x (ground (arith, s)) h in
      (ground (arith, rank), ground (arith, rank, later))
