-- ===== src/Profile/Merge/Places.antt =====
-- The last place of a name in a list, and what a write there does.
use smart_buster.Prelude.{
  ℕ, zero, suc, ◌+◌, ◌≤◌, ◌≡◌, refl, sym, Option, none, some, List, [], ◌∷◌, ◌++◌, map, String,
  str_eq, eq_iff, arith, if◌then◌else◌, Bool-cases, Option-cases, inl, inr, length, set, count_if,
  count_if-append,
}

abbrev pub or_else {ℓ} : {A : Type ℓ} → Option A → Option A → Option A
or_else none y = y
or_else (some x) y = some x

pub or_else-none {ℓ} : {A : Type ℓ} (x : Option A) → x ≡ or_else x none
or_else-none none = refl
or_else-none (some x) = refl

abbrev shift : Option ℕ → Option ℕ
shift none = none
shift (some i) = some (suc i)

abbrev pub times : String → List String → ℕ
times k names = count_if (λ n. str_eq n k) names

-- The place of the last of the names that are k
unfoldable pub last_index : String → List String → Option ℕ
last_index k [] = none
last_index k (n ∷ ns) = or_else (shift (last_index k ns)) (if str_eq n k then some 0 else none)

last_index-zero :
    (k n : String) (ns : List String)
    → last_index k (n ∷ ns) ≡ some 0
    → (last_index k ns ≡ none) × (n ≡ k)
unfolding last_index
last_index-zero k n ns h = elim (Option-cases (last_index k ns)) [
  | inl e ↦ (e, ground (arith, eq_iff n k))
  | inr (j, e) ↦ ground arith
]

last_index-suc :
    (k n : String) (ns : List String) (i : ℕ)
    → last_index k (n ∷ ns) ≡ some (suc i)
    → last_index k ns ≡ some i
unfolding last_index
last_index-suc k n ns i h = elim (Option-cases (last_index k ns)) [
  | inl e ↦ ground arith
  | inr (j, e) ↦ ground arith
]

pub last_index-append :
    (k : String) (ns : List String) (n : String)
    → last_index k (ns ++ n ∷ []) ≡ (if str_eq n k then some (length ns) else last_index k ns)
unfolding last_index
last_index-append k [] n = refl
last_index-append k (m ∷ ns) n = ground (arith, last_index-append k ns n)

pub times-append :
    (k : String) (ns : List String) (n : String)
    → times k (ns ++ n ∷ []) ≡ times k ns + (if str_eq n k then 1 else 0)
times-append k ns n = omega (arith, count_if-append (λ (m : String). str_eq m k) ns (n ∷ []))

pub times-none : (k : String) (ns : List String) → last_index k ns ≡ none → times k ns ≡ 0
unfolding last_index
times-none k [] h = refl
times-none k (n ∷ ns) h = ground (arith, times-none k ns)

pub times-some : (k : String) (ns : List String) (i : ℕ) → last_index k ns ≡ some i → 1 ≤ times k ns
unfolding last_index
times-some k [] i h = ground arith
times-some k (n ∷ ns) i h = elim (Option-cases (last_index k ns)) [
  | inl e ↦ ground arith
  | inr (j, e) ↦ ground (arith, times-some k ns j e)
]

module _ {R : Type 0} where
  -- The last rule of a name
  unfoldable pub last_rule : (R → String) → String → List R → Option R
  last_rule id k [] = none
  last_rule id k (r ∷ rs) = or_else (last_rule id k rs) (if str_eq (id r) k then some r else none)

  pub map-append : (id : R → String) (xs ys : List R) → map id (xs ++ ys) ≡ map id xs ++ map id ys
  map-append id [] ys = refl
  map-append id (x ∷ xs) ys = rw (map-append id xs ys)

  pub last_rule-append :
      (id : R → String) (k : String) (xs ys : List R)
      → last_rule id k (xs ++ ys) ≡ or_else (last_rule id k ys) (last_rule id k xs)
  unfolding last_rule
  last_rule-append id k [] ys = or_else-none (last_rule id k ys)
  last_rule-append id k (x ∷ xs) ys = ground (arith, last_rule-append id k xs ys)

  last_rule-none :
      (id : R → String) (k : String) (xs : List R)
      → last_index k (map id xs) ≡ none
      → last_rule id k xs ≡ none
  unfolding last_rule last_index
  last_rule-none id k [] h = refl
  last_rule-none id k (x ∷ xs) h = ground (arith, last_rule-none id k xs)

  pub map-set :
      (id : R → String) (r : R) (xs : List R) (i : ℕ)
      → last_index (id r) (map id xs) ≡ some i
      → map id (set xs i r) ≡ map id xs
  unfolding last_index
  map-set id r [] i h = refl
  map-set id r (x ∷ xs) zero h =
      let (rest, e) = last_index-zero (id r) (id x) (map id xs) h in rw (sym e) refl
  map-set id r (x ∷ xs) (suc i) h =
      rw (map-set id r xs i (last_index-suc (id r) (id x) (map id xs) i h)) refl

  pub last_rule-set :
      (id : R → String) (k : String) (r : R) (xs : List R) (i : ℕ)
      → last_index (id r) (map id xs) ≡ some i
      → last_rule id k (set xs i r) ≡ (if str_eq (id r) k then some r else last_rule id k xs)
  unfolding last_rule last_index
  last_rule-set id k r [] i h = ground arith
  last_rule-set id k r (x ∷ xs) zero h =
      let (none_left, e) = last_index-zero (id r) (id x) (map id xs) h in
      elim (Bool-cases (str_eq (id r) k)) [
        | inl u ↦
            let here : last_rule id (id r) xs ≡ none = last_rule-none id (id r) xs none_left in
            let at_k = (eq_iff (id r) k).0 u in ground (arith, here, at_k)
        | inr u ↦ rw (e, u) refl
      ]
  last_rule-set id k r (x ∷ xs) (suc i) h =
      ground (arith, last_rule-set id k r xs i (last_index-suc (id r) (id x) (map id xs) i h))
