-- ===== src/Simhash/Distance.antt =====
-- Hamming of internal/simhash/simhash.go as a distance on 64-bit fingerprints.
use Prim.Native.Nat.{bit_xor, bit_xor-bitwise, digits, differ}
use smart_buster.Prelude.{
  ℕ, zero, suc, ◌+◌, ◌*◌, ◌/◌, ◌%◌, ◌^◌, ◌≤◌, ◌<◌, ◌≡◌, refl, ◌↔◌, ◌⊎◌, inl, inr, ap, ◌∙◌, arith,
}
use native.Mathlib.Nat.{pow-suc}
use smart_buster.Simhash.{ones_count, hamming}

abbrev xor_digits : ℕ → ℕ → ℕ → ℕ
xor_digits n a b = digits (λ b. b) differ n a b

-- Any count of rounds that is at least the first number gives the same digits.
xor_digits-fuel : (n m a b : ℕ) → a ≤ n → a ≤ m → xor_digits n a b ≡ xor_digits m a b
xor_digits-fuel zero zero a b p q = refl
xor_digits-fuel zero (suc m) zero b p q = refl
xor_digits-fuel zero (suc m) (suc a) b p q = absurd (omega arith)
xor_digits-fuel (suc n) zero zero b p q = refl
xor_digits-fuel (suc n) zero (suc a) b p q = absurd (omega arith)
xor_digits-fuel (suc n) (suc m) zero b p q = refl
xor_digits-fuel (suc n) (suc m) (suc a) b p q =
    omega (arith, xor_digits-fuel n m (suc a / 2) (b / 2) (omega arith) (omega arith))

-- Exclusive or, one digit at a time.
bit_xor_step : (a b : ℕ) → bit_xor a b ≡ bit_xor (a / 2) (b / 2) * 2 + differ (a % 2) (b % 2)
bit_xor_step zero b = omega (arith, bit_xor-bitwise 0 b, bit_xor-bitwise 0 (b / 2))
bit_xor_step (suc a) b = omega (
  arith,
  bit_xor-bitwise (suc a) b,
  bit_xor-bitwise (suc a / 2) (b / 2),
  xor_digits-fuel a (suc a / 2) (suc a / 2) (b / 2) (omega arith) (omega arith),
)

digit_cases : (x : ℕ) → x < 2 → (x ≡ 0) ⊎ (x ≡ 1)
digit_cases zero h = inl refl
digit_cases (suc zero) h = inr refl
digit_cases (suc (suc x)) h = absurd (omega arith)

differ_digits :
    (x y z : ℕ)
    → x < 2
    → y < 2
    → z < 2
    → (differ x y ≡ differ y x)
      × (differ x z ≤ differ x y + differ y z)
      × (differ x y < 2)
      × ((differ x y ≡ 0) ↔ (x ≡ y))
differ_digits x y z p q r = grind (arith, digit_cases x p, digit_cases y q, digit_cases z r)

mod_two : (a : ℕ) → a % 2 < 2
mod_two a = omega arith

ones_count-double : (n y d : ℕ) → d < 2 → ones_count (suc n) (y * 2 + d) ≡ d + ones_count n y
unfolding ones_count
ones_count-double n y d h =
    ap (λ (t : ℕ). t + ones_count n ((y * 2 + d) / 2)) low ∙ ap (λ (t : ℕ). d + ones_count n t) high
  where
    low : (y * 2 + d) % 2 ≡ d
    low = omega arith

    high : (y * 2 + d) / 2 ≡ y
    high = omega arith

-- The distance of the lowest digits, and of the others.
ones_count-xor :
    (n a b : ℕ)
    → ones_count (suc n) (bit_xor a b)
      ≡ differ (a % 2) (b % 2) + ones_count n (bit_xor (a / 2) (b / 2))
ones_count-xor n a b =
    ap (ones_count (suc n)) (bit_xor_step a b)
    ∙ ones_count-double n (bit_xor (a / 2) (b / 2)) (differ (a % 2) (b % 2))
        (differ_digits (a % 2) (b % 2) 0 (mod_two a) (mod_two b) (omega arith)).2

xor_symm : (n a b : ℕ) → ones_count n (bit_xor a b) ≡ ones_count n (bit_xor b a)
xor_symm zero a b = unfold ones_count in refl
xor_symm (suc n) a b = omega (
  arith,
  ones_count-xor n a b,
  ones_count-xor n b a,
  xor_symm n (a / 2) (b / 2),
  (differ_digits (a % 2) (b % 2) 0 (mod_two a) (mod_two b) (omega arith)).0,
)

xor_triangle :
    (n a b c : ℕ)
    → ones_count n (bit_xor a c) ≤ ones_count n (bit_xor a b) + ones_count n (bit_xor b c)
xor_triangle zero a b c = unfold ones_count in omega arith
xor_triangle (suc n) a b c = omega (
  arith,
  ones_count-xor n a b,
  ones_count-xor n b c,
  ones_count-xor n a c,
  xor_triangle n (a / 2) (b / 2) (c / 2),
  (differ_digits (a % 2) (b % 2) (c % 2) (mod_two a) (mod_two b) (mod_two c)).1,
)

xor_self : (n a : ℕ) → ones_count n (bit_xor a a) ≡ 0
xor_self zero a = unfold ones_count in refl
xor_self (suc n) a = omega (
  arith,
  ones_count-xor n a a,
  xor_self n (a / 2),
  (differ_digits (a % 2) (a % 2) 0 (mod_two a) (mod_two a) (omega arith)).3.1 refl,
)

-- Only equal numbers of n digits are at distance 0.
xor_zero : (n a b : ℕ) → a < 2 ^ n → b < 2 ^ n → ones_count n (bit_xor a b) ≡ 0 → a ≡ b
xor_zero zero a b p q h = omega arith
xor_zero (suc n) a b p q h =
    let step = ones_count-xor n a b in
    let same =
      (differ_digits (a % 2) (b % 2) 0 (mod_two a) (mod_two b) (omega arith)).3.0 (omega arith) in
    let ih =
      xor_zero n (a / 2) (b / 2) (omega (arith, pow-suc 2 n)) (omega (arith, pow-suc 2 n))
        (omega arith) in
    omega arith

ones_count-le : (n x : ℕ) → ones_count n x ≤ n
unfolding ones_count
ones_count-le zero x = omega arith
ones_count-le (suc n) x = omega (arith, ones_count-le n (x / 2))

-- Hamming is a distance between 64-bit fingerprints, of at most 64: it is symmetric, satisfies
-- the triangle inequality, is 0 from a fingerprint to itself, and 0 only between equal ones.
pub hamming_distance :
    (a b c : ℕ)
    → (hamming a b ≡ hamming b a)
      × (hamming a c ≤ hamming a b + hamming b c)
      × (hamming a a ≡ 0)
      × (hamming a b ≤ 64)
      × (a < 2 ^ 64 → b < 2 ^ 64 → hamming a b ≡ 0 → a ≡ b)
unfolding hamming
hamming_distance a b c =
    (xor_symm 64 a b, xor_triangle 64 a b c, xor_self 64 a, ones_count-le 64 _, xor_zero 64 a b)
