-- ===== src/Engine/Frontier/Indices.antt =====
-- The indices of the entries that pass a test, and how often an entry occurs.
use smart_buster.Prelude.{
  ℕ, zero, suc, ◌+◌, ◌-◌, ◌≤◌, ◌<◌, Bool, true, false, ◌≡◌, refl, sym, ◌∙◌, ap, some, List, [], ◌∷◌,
  arith, length, take, count_if, if-elim, get_elem?,
}
use smart_buster.Heap.{get_or}
use smart_buster.Engine.Frontier.{indices_from}

module _ {ℓ} {A : Type ℓ} (d : A) where
  pub count_if-zero :
      (p : A → Bool) (xs : List A) (k : ℕ)
      → count_if p xs ≡ 0
      → k < length xs
      → p (get_or xs k d) ≡ false
  count_if-zero p [] k e h = elim h [ ]
  count_if-zero p (x ∷ xs) zero e h = ground (arith, e)
  count_if-zero p (x ∷ xs) (suc k) e h = count_if-zero p xs k (ground (arith, e)) (omega arith)

  -- The index j, counted from i, is that of an entry that passes.
  abbrev pub Hits : ℕ → (A → Bool) → List A → ℕ → Type 0
  Hits i p xs j = (i ≤ j) × (j < i + length xs) × (p (get_or xs (j - i) d) ≡ true)

  abbrev pub AllHit : ℕ → (A → Bool) → List A → List ℕ → Type 0
  AllHit i p xs js = (k : ℕ) → k < length js → Hits i p xs (get_or js k 0)

  pub shift-Hits :
      (i : ℕ) (p : A → Bool) (x : A) (xs : List A) (j : ℕ)
      → Hits (suc i) p xs j
      → Hits i p (x ∷ xs) j
  shift-Hits i p x xs j h =
      let e : suc (j - suc i) ≡ j - i = omega arith in
      (omega arith, omega arith, ap (λ (m : ℕ). p (get_or (x ∷ xs) m d)) (sym e) ∙ h.2)

  cons-AllHit :
      (i : ℕ) (p : A → Bool) (x : A) (xs : List A) (js : List ℕ)
      → AllHit (suc i) p xs js
      → p x ≡ true
      → AllHit i p (x ∷ xs) (i ∷ js)
  cons-AllHit i p x xs js rest e zero h =
      let z : 0 ≡ i - i = omega arith in
      (omega arith, omega arith, ap (λ (m : ℕ). p (get_or (x ∷ xs) m d)) (sym z) ∙ e)
  cons-AllHit i p x xs js rest e (suc k) h =
      shift-Hits i p x xs (get_or js k 0) (rest k (omega arith))

  pub indices_from-AllHit :
      (i : ℕ) (p : A → Bool) (xs : List A) → AllHit i p xs (indices_from i p xs)
  unfolding indices_from
  indices_from-AllHit i p [] = λ k h. elim h [ ]
  indices_from-AllHit i p (x ∷ xs) =
      let js = indices_from (suc i) p xs in
      let rest = indices_from-AllHit (suc i) p xs in
      if-elim (AllHit i p (x ∷ xs)) (p x) {x = i ∷ js} {y = js} (cons-AllHit i p x xs js rest)
        (λ e k h. shift-Hits i p x xs (get_or js k 0) (rest k h))

  pub length-indices_from :
      (i : ℕ) (p : A → Bool) (xs : List A) → length (indices_from i p xs) ≡ count_if p xs
  unfolding indices_from
  length-indices_from i p [] = refl
  length-indices_from i p (x ∷ xs) = ground (arith, length-indices_from (suc i) p xs)

  pub count_if-true : (xs : List A) → count_if (λ x. true) xs ≡ length xs
  count_if-true [] = refl
  count_if-true (x ∷ xs) = omega (arith, count_if-true xs)

  pub count_if-false : (xs : List A) → count_if (λ x. false) xs ≡ 0
  count_if-false [] = refl
  count_if-false (x ∷ xs) = omega (arith, count_if-false xs)

  pub get_elem?-take :
      (k i : ℕ) (x : A) (xs : List A) → get_elem? (take k xs) i ≡ some x → get_elem? xs i ≡ some x
  get_elem?-take zero i x xs h = cc
  get_elem?-take (suc k) i x [] h = h
  get_elem?-take (suc k) zero x (y ∷ xs) h = h
  get_elem?-take (suc k) (suc i) x (y ∷ xs) h = get_elem?-take k i x xs h

  pub count_if-first :
      (p : A → Bool) (xs : List A) → 0 < length xs → p (get_or xs 0 d) ≡ true → 0 < count_if p xs
  count_if-first p [] h e = elim h [ ]
  count_if-first p (x ∷ xs) h e = ground (arith, e)

  -- Counting over the indices is counting over the entries.
  pub count_if-indices_from :
      (i : ℕ) (q : A → Bool) (r : ℕ → Bool) (xs : List A)
      → ((c : ℕ) → c < length xs → r (i + c) ≡ q (get_or xs c d))
      → count_if r (indices_from i (λ x. true) xs) ≡ count_if q xs
  unfolding indices_from
  count_if-indices_from i q r [] h = refl
  count_if-indices_from i q r (x ∷ xs) h =
      let shift : i + 0 ≡ i = omega arith in
      let head : r i ≡ q x = ap r (sym shift) ∙ h 0 (omega arith) in
      let rest =
        count_if-indices_from (suc i) q r xs (λ c hc.
          let e : suc i + c ≡ i + suc c = omega arith in ap r e ∙ h (suc c) (omega arith)) in
      ground (arith, head, rest)
