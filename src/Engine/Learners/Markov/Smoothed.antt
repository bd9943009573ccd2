-- ===== src/Engine/Learners/Markov/Smoothed.antt =====
-- The estimates of internal/engine/markov.go, and the counts that they are made of.
use smart_buster.Prelude.{
  ℕ, zero, suc, ◌+◌, Bool, true, ◌&&◌, ◌≡◌, refl, sym, ap, ◌∙◌, some, List, [], ◌∷◌, ◌++◌, arith,
  ltb, ◌==◌, if◌then◌else◌, Option-cases, inl, inr, all_of, get_elem?, take,
}
use smart_buster.Prelude.Float.{Float}
use smart_buster.Scope.{equal}
use smart_buster.Engine.Learners.Markov.{
  MarkovModel, markov_alphabet_size, new_markov_model, repeat_byte, pad, count_gram, train_from,
  train, estimate,
}

-- The sum of a function over the numbers below n
pub sum_below : ℕ → (ℕ → ℕ) → ℕ
sum_below zero g = 0
sum_below (suc n) g = g n + sum_below n g

sum_below-one_more : (n : ℕ) (g : ℕ → ℕ) → sum_below n (λ b. g b + 1) ≡ sum_below n g + n
unfolding sum_below
sum_below-one_more zero g = omega arith
sum_below-one_more (suc n) g = omega (arith, sum_below-one_more n g)

sum_below-zero : (n : ℕ) → sum_below n (λ b. 0) ≡ 0
unfolding sum_below
sum_below-zero zero = refl
sum_below-zero (suc n) = omega (arith, sum_below-zero n)

sum_below-bump :
    (n : ℕ) (g : ℕ → ℕ) (k : ℕ) (test : Bool)
    → sum_below n (λ b. (if test && b == k then g b + 1 else g b))
      ≡ sum_below n g + (if test && ltb k n then 1 else 0)
unfolding sum_below
sum_below-bump zero g k test = ground arith
sum_below-bump (suc n) g k test = ground (arith, sum_below-bump n g k test)

-- The counts of each context add up to its total.
IsSummed : MarkovModel → Type 0
IsSummed m = (ctx : List ℕ) → sum_below markov_alphabet_size (m.counts ctx) ≡ m.totals ctx

abbrev is_byte : ℕ → Bool
is_byte b = ltb b markov_alphabet_size

count_gram-IsSummed :
    (ctx : List ℕ) (next : ℕ) (m : MarkovModel)
    → is_byte next ≡ true
    → IsSummed m
    → IsSummed (count_gram ctx next m)
unfolding count_gram IsSummed
count_gram-IsSummed ctx next m h inv c =
    ground (arith, sum_below-bump markov_alphabet_size (m.counts c) next (equal c ctx), inv c, h)

byte_at :
    (s : List ℕ) (i b : ℕ) → all_of is_byte s ≡ true → get_elem? s i ≡ some b → is_byte b ≡ true
byte_at [] i b h e = cc e
byte_at (x ∷ s) zero b h e = let same : x ≡ b = cc e in ground (arith, h, same)
byte_at (x ∷ s) (suc i) b h e = byte_at s i b (ground (arith, h)) e

train_from-IsSummed :
    (s : List ℕ) (m : MarkovModel)
    → all_of is_byte s ≡ true
    → IsSummed m
    → IsSummed (train_from s m)
unfolding train_from
train_from-IsSummed [] m h inv = inv
train_from-IsSummed (b ∷ s) m h inv = elim (Option-cases (get_elem? (b ∷ s) m.order)) [
  | inl e ↦ rw (train_from, e) inv
  | inr (next, e) ↦
      rw (train_from, e)
        (train_from-IsSummed s (count_gram (take m.order (b ∷ s)) next m) (ground (arith, h)) (
          count_gram-IsSummed (take m.order (b ∷ s)) next m (byte_at (b ∷ s) m.order next h e) inv))
]

all_of-append :
    (test : ℕ → Bool) (xs ys : List ℕ)
    → all_of test xs ≡ true
    → all_of test ys ≡ true
    → all_of test (xs ++ ys) ≡ true
all_of-append test [] ys h k = k
all_of-append test (x ∷ xs) ys h k =
    ground (arith, h, all_of-append test xs ys (ground (arith, h)) k)

repeat_byte-bytes : (n b : ℕ) → is_byte b ≡ true → all_of is_byte (repeat_byte b n) ≡ true
unfolding repeat_byte
repeat_byte-bytes zero b h = refl
repeat_byte-bytes (suc n) b h = ground (arith, h, repeat_byte-bytes n b h)

pad-bytes :
    (order : ℕ) (segment : List ℕ)
    → all_of is_byte segment ≡ true
    → all_of is_byte (pad order segment) ≡ true
unfolding pad
pad-bytes order segment h =
    all_of-append is_byte (repeat_byte b'^' order ++ segment) (b'$' ∷ [])
      (all_of-append is_byte (repeat_byte b'^' order) segment (repeat_byte-bytes order b'^' refl) h)
      refl

train-IsSummed :
    (segment : List ℕ) (m : MarkovModel)
    → all_of is_byte segment ≡ true
    → IsSummed m
    → IsSummed (train segment m)
unfolding train IsSummed
train-IsSummed [] m h inv = inv
train-IsSummed (b ∷ segment) m h inv =
    train_from-IsSummed (pad m.order (b ∷ segment)) m (pad-bytes m.order (b ∷ segment) h) inv

unfoldable pub train_all : List (List ℕ) → MarkovModel → MarkovModel
unfolding train
train_all [] m = m
train_all (segment ∷ segments) m = train_all segments (train segment m)

train_all-IsSummed :
    (segments : List (List ℕ)) (m : MarkovModel)
    → all_of (all_of is_byte) segments ≡ true
    → IsSummed m
    → IsSummed (train_all segments m)
unfolding train_all
train_all-IsSummed [] m h inv = inv
train_all-IsSummed (segment ∷ segments) m h inv =
    train_all-IsSummed segments (train segment m) (ground (arith, h))
      (train-IsSummed segment m (ground (arith, h)) inv)

module _ {F : Type 0} ⦃f : Float F⦄ where
  -- After any training on texts of bytes, the estimate of a byte behind a context is its count and
  -- one, over the sum of the counts and one of all 256 bytes.
  pub estimates_lem :
      (order min_samples : ℕ) (segments : List (List ℕ)) (ctx : List ℕ) (next : ℕ)
      → all_of (all_of is_byte) segments ≡ true
      → let m = train_all segments (new_markov_model order min_samples) in
        estimate m ctx next
        ≡ f.div
            (f.lit (m.counts ctx next + 1) 1)
            (f.lit (sum_below 256 (λ b. m.counts ctx b + 1)) 1)
  unfolding IsSummed new_markov_model estimate
  estimates_lem order min_samples segments ctx next h =
      let m = train_all segments (new_markov_model order min_samples) in
      let summed =
        train_all-IsSummed segments (new_markov_model order min_samples) h (λ c. sum_below-zero 256)
          ctx in
      ap (λ n. f.div (f.lit (m.counts ctx next + 1) 1) (f.lit n 1))
        (sym (
          sum_below-one_more markov_alphabet_size (m.counts ctx)
          ∙ ap (λ n. n + markov_alphabet_size) summed))
