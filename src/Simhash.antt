-- ===== src/Simhash.antt =====
-- internal/simhash/simhash.go: the 64-bit SimHash of a list of shingles, and Hamming distance.
pub mod Distance
mod Tests
use Prim.Native.Nat.{bit_xor}
use smart_buster.Prelude.{
  ℕ, zero, suc, ◌+◌, ◌*◌, ◌-◌, ◌/◌, ◌%◌, ◌^◌, String, Bool, true, false, List, [], ◌∷◌, ltb, ◌==◌,
  if◌then◌else◌,
}
use smart_buster.Prelude.Int.{ℤ, pos, negsuc}

-- bits.OnesCount64: the ones among the lowest `n` bits.
unfoldable pub ones_count : ℕ → ℕ → ℕ
ones_count zero x = 0
ones_count (suc n) x = x % 2 + ones_count n (x / 2)

unfoldable pub hamming : ℕ → ℕ → ℕ
unfolding ones_count
hamming a b = ones_count 64 (bit_xor a b)

-- votes[i]++ and votes[i]--
unfoldable pub increment : ℤ → ℤ
increment (pos n) = pos (n + 1)
increment (negsuc zero) = pos 0
increment (negsuc (suc n)) = negsuc n

unfoldable pub decrement : ℤ → ℤ
decrement (pos zero) = negsuc 0
decrement (pos (suc n)) = pos n
decrement (negsuc n) = negsuc (n + 1)

-- h&(1<<i) != 0
unfoldable pub has_bit : ℕ → ℕ → Bool
has_bit h i = h / 2 ^ i % 2 == 1

-- The vote of the hashes on bit i; the loops over shingles and bits are exchanged, since each
-- bit has a counter of its own.
unfoldable pub vote_from : ℕ → ℤ → List ℕ → ℤ
unfolding increment decrement has_bit
vote_from i v [] = v
vote_from i v (h ∷ hs) = vote_from i (if has_bit h i then increment v else decrement v) hs

unfoldable pub is_positive : ℤ → Bool
is_positive (pos n) = ltb 0 n
is_positive (negsuc n) = false

-- The second loop of SimHash, for the `n` bits from bit i up. Bit i of the result is not set
-- before its round, so `fp |= 1 << i` adds 2 ^ i.
unfoldable pub fingerprint_from : ℕ → ℕ → List ℕ → ℕ
unfolding vote_from is_positive
fingerprint_from zero i hs = 0
fingerprint_from (suc n) i hs =
    (if is_positive (vote_from i (pos 0) hs) then 2 ^ i else 0) + fingerprint_from n (suc i) hs

-- SimHash. The hash of a shingle, xxhash.Sum64String, is a parameter.
unfoldable pub hashes : (String → ℕ) → List String → List ℕ
hashes sum64 [] = []
hashes sum64 (s ∷ ss) = sum64 s ∷ hashes sum64 ss

unfoldable pub sim_hash : (String → ℕ) → List String → ℕ
unfolding fingerprint_from hashes
sim_hash sum64 shingles = fingerprint_from 64 0 (hashes sum64 shingles)
