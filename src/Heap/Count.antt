-- ===== src/Heap/Count.antt =====
-- The entries of the slice under the operations of container/heap, counted.
use smart_buster.Prelude.{
  ℕ, zero, suc, ◌<◌, Bool, true, false, ◌≡◌, ◌≢◌, refl, ◌∙◌, ap, some, List, [], ◌∷◌, arith, ◌==◌,
  if◌then◌else◌, length, set, get_elem?, count_if, count_if-set, if-elim, length-set,
}
use smart_buster.Heap.{get_or, swap}

module _ {ℓ} {A : Type ℓ} where
  pub get_elem?-get_or :
      (xs : List A) (i : ℕ) (d : A) → i < length xs → get_elem? xs i ≡ some (get_or xs i d)
  get_elem?-get_or [] i d h = elim h [ ]
  get_elem?-get_or (x ∷ xs) zero d h = refl
  get_elem?-get_or (x ∷ xs) (suc i) d h = get_elem?-get_or xs i d (omega arith)

  pub get_or-set :
      (xs : List A) (i k : ℕ) (v d : A)
      → i < length xs
      → get_or (set xs i v) k d ≡ (if k == i then v else get_or xs k d)
  get_or-set [] i k v d h = elim h [ ]
  get_or-set (x ∷ xs) zero zero v d h = refl
  get_or-set (x ∷ xs) zero (suc k) v d h = ground arith
  get_or-set (x ∷ xs) (suc i) zero v d h = ground arith
  get_or-set (x ∷ xs) (suc i) (suc k) v d h = ground (arith, get_or-set xs i k v d)

module _ {ℓ} {A : Type ℓ} (d : A) where
  pub length-swap : (xs : List A) (i j : ℕ) → length (swap d xs i j) ≡ length xs
  unfolding swap
  length-swap xs i j = length-set (set xs i (get_or xs j d)) j _ ∙ length-set xs i _

  pub get_or-swap :
      (xs : List A) (i j k : ℕ)
      → i < length xs
      → j < length xs
      → get_or (swap d xs i j) k d
        ≡ (if k == j then get_or xs i d else if k == i then get_or xs j d else get_or xs k d)
  unfolding swap
  get_or-swap xs i j k p q =
      get_or-set (set xs i (get_or xs j d)) j k (get_or xs i d) d
        (omega (arith, length-set xs i (get_or xs j d)))
      ∙ ap (λ (t : A). if k == j then get_or xs i d else t) (get_or-set xs i k (get_or xs j d) d p)

  -- What a swap leaves at its two places and at the others
  pub swap_at_second :
      (xs : List A) (i j : ℕ)
      → i < length xs
      → j < length xs
      → get_or (swap d xs i j) j d ≡ get_or xs i d
  swap_at_second xs i j p q =
      let e : (j == j) ≡ true = ground arith in rw (get_or-swap xs i j j p q, e)

  pub swap_at_first :
      (xs : List A) (i j : ℕ)
      → i < length xs
      → j < length xs
      → get_or (swap d xs i j) i d ≡ get_or xs j d
  swap_at_first xs i j p q =
      let e : (i == i) ≡ true = ground arith in
      let r : get_or (swap d xs i j) i d ≡ (if i == j then get_or xs i d else get_or xs j d) =
        rw (get_or-swap xs i j i p q, e) in
      r
      ∙ if-elim (λ (x : A). x ≡ get_or xs j d) (i == j)
          (λ h. let same : i ≡ j = ground arith in ap (λ (k : ℕ). get_or xs k d) same) (λ h. refl)

  pub swap_elsewhere :
      (xs : List A) (i j k : ℕ)
      → i < length xs
      → j < length xs
      → k ≢ i
      → k ≢ j
      → get_or (swap d xs i j) k d ≡ get_or xs k d
  swap_elsewhere xs i j k p q ni nj =
      let ei : (k == i) ≡ false = ground arith in
      let ej : (k == j) ≡ false = ground arith in rw (get_or-swap xs i j k p q, ei, ej)

  pub count_if-swap :
      (p : A → Bool) (xs : List A) (i j : ℕ)
      → i < length xs
      → j < length xs
      → count_if p (swap d xs i j) ≡ count_if p xs
  unfolding swap
  count_if-swap p xs i j hi hj =
      let first =
        count_if-set p xs i (get_or xs j d) (get_or xs i d) (get_elem?-get_or xs i d hi) in
      let mid = set xs i (get_or xs j d) in
      let second =
        count_if-set p mid j (get_or xs i d) (get_or mid j d)
          (get_elem?-get_or mid j d (omega (arith, length-set xs i (get_or xs j d)))) in
      let same : get_or mid j d ≡ get_or xs j d =
        get_or-set xs i j (get_or xs j d) d hi ∙ by_test (j == i) in
      let weight : ℕ = if p (get_or mid j d) then 1 else 0 in
      let same_weight : weight ≡ (if p (get_or xs j d) then 1 else 0) =
        ap (λ (x : A). if p x then 1 else 0) same in
      omega (arith, first, second, same_weight)
    where
      by_test : (b : Bool) → (if b then get_or xs j d else get_or xs j d) ≡ get_or xs j d
      by_test true = refl
      by_test false = refl

-- What an operation keeps: the number of entries, and of those that pass any test.
module _ {ℓ} {A : Type ℓ} where
  pub record Permutes (xs ys : List A) : Type ℓ where
    pub same_length : length xs ≡ length ys
    pub same_count : (p : A → Bool) → count_if p xs ≡ count_if p ys

  pub refl-Permutes : (xs : List A) → Permutes xs xs
  refl-Permutes xs = record { same_length = refl; same_count = λ p. refl }

  pub trans-Permutes : {xs ys zs : List A} → Permutes xs ys → Permutes ys zs → Permutes xs zs
  trans-Permutes h k = record {
    same_length = h.same_length ∙ k.same_length;
    same_count = λ p. h.same_count p ∙ k.same_count p;
  }

  pub if-Permutes :
      (b : Bool) {xs ys zs : List A}
      → (b ≡ true → Permutes xs zs)
      → (b ≡ false → Permutes ys zs)
      → Permutes (if b then xs else ys) zs
  if-Permutes true h k = h refl
  if-Permutes false h k = k refl

module _ {ℓ} {A : Type ℓ} (d : A) where
  pub swap-Permutes :
      (xs : List A) (i j : ℕ) → i < length xs → j < length xs → Permutes (swap d xs i j) xs
  swap-Permutes xs i j hi hj = record {
    same_length = length-swap d xs i j;
    same_count = λ p. count_if-swap d p xs i j hi hj;
  }
