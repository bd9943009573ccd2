-- ===== src/Engine/Learners/Markov.antt =====
-- internal/engine/markov.go, the n-gram model of the names that were found. A text is its bytes and
-- a map with its missing entries a function; math.Log and math.Exp are arguments. An order or a
-- number of samples of 0 or less is 0 here: both stand for "not set".
pub mod Smoothed
use smart_buster.Prelude.{
  ℕ, zero, suc, ◌+◌, Bool, true, false, ◌&&◌, ◌||◌, Option, none, some, List, [], ◌∷◌, ◌++◌, ltb,
  ◌==◌, if◌then◌else◌, get_elem?, take,
}
use smart_buster.Prelude.Float.{Float}
use smart_buster.Scope.{equal}

abbrev pub markov_alphabet_size : ℕ
markov_alphabet_size = 256

abbrev pub default_markov_order : ℕ
default_markov_order = 3

abbrev pub default_markov_min_samples : ℕ
default_markov_min_samples = 8

pub record MarkovModel : Type 0 where
  pub order : ℕ
  pub min_samples : ℕ
  pub counts : List ℕ → ℕ → ℕ
  pub totals : List ℕ → ℕ
  pub trained : ℕ

unfoldable pub new_markov_model : ℕ → ℕ → MarkovModel
new_markov_model order min_samples = record {
  order = if order == 0 then default_markov_order else order;
  min_samples = if min_samples == 0 then default_markov_min_samples else min_samples;
  counts = λ ctx b. 0;
  totals = λ ctx. 0;
  trained = 0;
}

unfoldable pub repeat_byte : ℕ → ℕ → List ℕ
repeat_byte b zero = []
repeat_byte b (suc n) = b ∷ repeat_byte b n

unfoldable pub pad : ℕ → List ℕ → List ℕ
unfolding repeat_byte
pad order segment = repeat_byte b'^' order ++ segment ++ b'$' ∷ []

-- One round of the loop of Train
unfoldable pub count_gram : List ℕ → ℕ → MarkovModel → MarkovModel
count_gram ctx next m = record m {
  counts = λ c b. (if equal c ctx && b == next then m.counts c b + 1 else m.counts c b);
  totals = λ c. (if equal c ctx then m.totals c + 1 else m.totals c);
}

-- The rounds from one index on: the text from there on holds a context and its next byte, or the
-- loop ends.
unfoldable pub train_from : List ℕ → MarkovModel → MarkovModel
unfolding count_gram
train_from [] m = m
train_from (b ∷ s) m = elim (get_elem? (b ∷ s) m.order) [
  | none ↦ m
  | some next ↦ train_from s (count_gram (take m.order (b ∷ s)) next m)
]

unfoldable pub train : List ℕ → MarkovModel → MarkovModel
unfolding train_from pad
train [] m = m
train (b ∷ segment) m =
    let counted = train_from (pad m.order (b ∷ segment)) m in
    record counted { trained = counted.trained + 1 }

pub record MarkovState : Type 0 where
  pub order : ℕ
  pub min_samples : ℕ
  pub counts : List ℕ → ℕ → ℕ
  pub totals : List ℕ → ℕ
  pub trained : ℕ

unfoldable pub marshal_state : MarkovModel → MarkovState
marshal_state m = record {
  order = m.order;
  min_samples = m.min_samples;
  counts = m.counts;
  totals = m.totals;
  trained = m.trained;
}

-- The order and the number of samples are those of the model.
unfoldable pub load_state : MarkovState → MarkovModel → MarkovModel
load_state s m = record m { counts = s.counts; totals = s.totals; trained = s.trained }

module _ {F : Type 0} ⦃f : Float F⦄ where
  -- Laplace smoothing
  unfoldable pub estimate : MarkovModel → List ℕ → ℕ → F
  estimate m ctx next =
      f.div (f.lit (m.counts ctx next + 1) 1) (f.lit (m.totals ctx + markov_alphabet_size) 1)

  -- The sum of the logarithms, and the number of the rounds
  unfoldable pub conv_from : (F → F) → MarkovModel → List ℕ → F → ℕ → F × ℕ
  unfolding estimate
  conv_from log m [] sum n = (sum, n)
  conv_from log m (b ∷ s) sum n = elim (get_elem? (b ∷ s) m.order) [
    | none ↦ (sum, n)
    | some next ↦
        conv_from log m s (f.add sum (log (estimate m (take m.order (b ∷ s)) next))) (n + 1)
  ]

  unfoldable pub conv_signal : (F → F) → (F → F) → MarkovModel → List ℕ → F
  unfolding conv_from pad
  conv_signal log exp m [] = f.lit 0 1
  conv_signal log exp m (b ∷ segment) =
      let sums = conv_from log m (pad m.order (b ∷ segment)) (f.lit 0 1) 0 in
      if ltb m.trained m.min_samples
      then f.lit 0 1
      else if sums.1 == 0
      then f.lit 0 1
      else exp (f.div sums.0 (f.lit sums.1 1))
