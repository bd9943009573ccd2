-- ===== src/Engine/Learners/Tests.antt =====
-- Learners that were told of a few hits.
use smart_buster.Prelude.{
  ℕ, ◌+◌, ◌&&◌, ◌||◌, ◌≡◌, refl, List, [], ◌∷◌, String, any_of, if◌then◌else◌,
}
use smart_buster.Prelude.Float.{hundredths}
use smart_buster.Prelude.Text.{trim_prefix}
use smart_buster.Seed.Provenance.{is_member}
use smart_buster.Seed.Normalize.{terminal_segment, ext_of, from_last}
use smart_buster.Profile.Merge.{bytes}
use smart_buster.Engine.Types.{Candidate, type_file}
use smart_buster.Engine.Learners.Markov.{
  new_markov_model, estimate, train, train_from, pad, repeat_byte, count_gram,
}
use smart_buster.Engine.Learners.Markov.Smoothed.{sum_below, train_all, estimates_lem}
use smart_buster.Engine.Learners.Assoc.{
  expand_companion_groups, new_assoc_engine, record_hit, assoc_signal,
}
use smart_buster.Engine.Learners.Assoc.Companions.{is_pair, expand_companion_groups_exact}
use smart_buster.Engine.Learners.Scorer.{
  ScoreWeights, new_dynamic_scorer, is_sensitive_candidate, sem_signal,
}
use smart_buster.Engine.Learners.Scorer.Observed.{
  Observation, saw_protected_in, hit_in, protects, indexes, observe_all, sem_signal_exact,
}

abbrev segments : List (List ℕ)
segments = bytes "api" ∷ bytes "app" ∷ []

estimates_lem_example :
    estimate {F = ℕ} (train_all segments (new_markov_model 1 1)) (bytes "a") b'p'
    ≡ hundredths.div
        (hundredths.lit ((train_all segments (new_markov_model 1 1)).counts (bytes "a") b'p' + 1) 1)
        (hundredths.lit
          (sum_below 256
            (λ b. (train_all segments (new_markov_model 1 1)).counts (bytes "a") b + 1))
          1)
estimates_lem_example = estimates_lem 1 1 segments (bytes "a") b'p' refl

p_follows_a : (train_all segments (new_markov_model 1 1)).counts (bytes "a") b'p' ≡ 2
unfolding train_all train train_from pad repeat_byte count_gram new_markov_model
p_follows_a = refl

abbrev groups : List (List String)
groups = ("admin" ∷ "login" ∷ []) ∷ ("login" ∷ "logout" ∷ []) ∷ []

expand_companion_groups_exact_example :
    (expand_companion_groups groups "login" "admin" ≡ any_of (is_pair "login" "admin") groups)
    × (expand_companion_groups groups "login" "admin"
        ≡ expand_companion_groups groups "admin" "login")
expand_companion_groups_exact_example = expand_companion_groups_exact groups "login" "admin"

abbrev weights : ScoreWeights ℕ
weights = record { w_sem = 100; w_assoc = 100; w_conv = 100 }

abbrev backup : Candidate ℕ
backup = record {
  path = "config.php";
  kind = type_file;
  base_prio = 50;
  score = 50;
  depth = 1;
  parent_dir = "/admin";
  provenance = "wordlist";
  tags = [];
}

abbrev same : String → String
same s = s

abbrev seen : List Observation
seen = hit_in "/admin" ∷ saw_protected_in "/admin" ∷ []

sem_signal_exact_example :
    sem_signal same (observe_all seen (new_dynamic_scorer weights 1 1 groups)) backup ≡ (
      if any_of (indexes "/admin") seen
        || (any_of (protects "/admin") seen && is_sensitive_candidate same backup)
      then 100
      else 0)
sem_signal_exact_example = sem_signal_exact same weights 1 1 groups seen backup

extension_pivot :
    assoc_signal (record_hit "/admin" "index.php" (new_assoc_engine groups)) backup ≡ 60
unfolding assoc_signal record_hit new_assoc_engine is_member terminal_segment ext_of from_last
    trim_prefix expand_companion_groups
extension_pivot = refl
