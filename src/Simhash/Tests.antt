-- ===== src/Simhash/Tests.antt =====
-- Concrete runs of internal/simhash/simhash.go.
use smart_buster.Prelude.{ℕ, ◌+◌, ◌^◌, ◌≤◌, ◌<◌, ◌≡◌, refl, [], ◌∷◌}
use smart_buster.Simhash.{hamming, sim_hash}
use smart_buster.Simhash.Distance.{hamming_distance}

hamming_run : hamming 0xff 0x0f ≡ 4
unfolding hamming
hamming_run = refl

-- Two votes against one for each of the two lowest bits, and a tie for none.
sim_hash_run : sim_hash (λ _. 3) ("a b" ∷ "b c" ∷ []) ≡ 3
unfolding sim_hash
sim_hash_run = refl

hamming_distance_example :
    (hamming 5 3 ≡ hamming 3 5)
    × (hamming 5 8 ≤ hamming 5 3 + hamming 3 8)
    × (hamming 5 5 ≡ 0)
    × (hamming 5 3 ≤ 64)
    × (5 < 2 ^ 64 → 3 < 2 ^ 64 → hamming 5 3 ≡ 0 → ◌≡◌ {A = ℕ} 5 3)
hamming_distance_example = hamming_distance 5 3 8
