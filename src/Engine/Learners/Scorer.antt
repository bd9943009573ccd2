-- ===== src/Engine/Learners/Scorer.antt =====
-- internal/engine/scorer.go and scoreCandidate of internal/engine/corpus_select.go. The map of the
-- directories' contexts is a function with the zero context for a missing entry, which has no
-- signal either; strings.ToLower, math.Log and math.Exp are arguments.
pub mod Observed
use smart_buster.Prelude.{
  ℕ, ◌+◌, Bool, true, false, not, ◌&&◌, ◌||◌, Option, none, some, List, [], ◌∷◌, String, str_eq,
  any_of, if◌then◌else◌,
}
use smart_buster.Prelude.Float.{Float}
use smart_buster.Prelude.Text.{has_substring, has_prefix}
use smart_buster.Seed.Provenance.{is_member}
use smart_buster.Seed.Normalize.{terminal_segment}
use smart_buster.Profile.Merge.{bytes}
use smart_buster.Profile.Target.{TargetProfile, match_score}
use smart_buster.Engine.Types.{Candidate}
use smart_buster.Engine.Coordinator.{Override, Policy}
use smart_buster.Engine.Coordinator.Control.{override_multiplier}
use smart_buster.Engine.Coordinator.Paths.{is_harvest_provenance}
use smart_buster.Engine.Learners.Markov.{MarkovModel, new_markov_model, conv_signal}
use smart_buster.Engine.Learners.Assoc.{AssocEngine, new_assoc_engine, assoc_signal}

pub record DirContext : Type 0 where
  pub saw_protected : Bool
  pub saw_index_of : Bool
  pub hit_count : ℕ

abbrev pub sensitive_terms : List String
sensitive_terms =
    "admin" ∷ "private" ∷ "internal" ∷ "config" ∷ "backup" ∷ "secret" ∷ ".git" ∷ ".env" ∷ "api" ∷ []

pub record ScoreWeights (F : Type 0) : Type 0 where
  pub w_sem : F
  pub w_assoc : F
  pub w_conv : F

pub record DynamicScorer (F : Type 0) : Type 0 where
  pub markov : MarkovModel
  pub assoc : AssocEngine
  pub dir_ctx : String → DirContext
  pub cfg : ScoreWeights F

abbrev pub no_context : DirContext
no_context = record { saw_protected = false; saw_index_of = false; hit_count = 0 }

-- `s.dirContext(dir)`, changed in place
abbrev pub change_context :
    String → (DirContext → DirContext) → (String → DirContext) → String → DirContext
change_context dir change ctx d = if str_eq dir d then change (ctx d) else ctx d

-- The profile is not kept here: scoreCandidate is given it.
module _ {F : Type 0} where
  unfoldable pub new_dynamic_scorer : ScoreWeights F → ℕ → ℕ → List (List String) → DynamicScorer F
  unfolding new_markov_model new_assoc_engine
  new_dynamic_scorer cfg order min_samples groups = record {
    markov = new_markov_model order min_samples;
    assoc = new_assoc_engine groups;
    dir_ctx = λ dir. no_context;
    cfg = cfg;
  }

  unfoldable pub is_sensitive_candidate : (String → String) → Candidate F → Bool
  unfolding is_member has_substring has_prefix terminal_segment
  is_sensitive_candidate to_lower c =
      any_of (λ (t : String). is_member (to_lower t) sensitive_terms) c.tags
      || any_of (has_substring (to_lower (terminal_segment c.path))) sensitive_terms

  unfoldable pub observe_protected : String → DynamicScorer F → DynamicScorer F
  observe_protected dir s = record s {
    dir_ctx = change_context dir (λ (c : DirContext). record c { saw_protected = true }) s.dir_ctx;
  }

  unfoldable pub observe_index_of : String → DynamicScorer F → DynamicScorer F
  observe_index_of dir s = record s {
    dir_ctx = change_context dir (λ (c : DirContext). record c { saw_index_of = true }) s.dir_ctx;
  }

  unfoldable pub record_dir_hit : String → DynamicScorer F → DynamicScorer F
  record_dir_hit dir s = record s {
    dir_ctx =
        change_context dir (λ (c : DirContext). record c { hit_count = c.hit_count + 1 }) s.dir_ctx;
  }

module _ {F : Type 0} ⦃f : Float F⦄ where
  unfoldable pub sem_signal : (String → String) → DynamicScorer F → Candidate F → F
  unfolding is_sensitive_candidate
  sem_signal to_lower s c =
      let dc = s.dir_ctx c.parent_dir in
      if dc.saw_index_of
      then f.lit 1 1
      else if dc.saw_protected && is_sensitive_candidate to_lower c
      then f.lit 1 1
      else f.lit 0 1

  unfoldable pub boost_of :
      (F → F) → (F → F) → (String → String) → DynamicScorer F → Candidate F → F
  unfolding sem_signal assoc_signal conv_signal terminal_segment
  boost_of log exp to_lower s c =
      let factor : F → F → F = λ weight signal. f.add (f.lit 1 1) (f.mul weight signal) in
      f.mul
        (f.mul (f.mul (f.lit 1 1) (factor s.cfg.w_sem (sem_signal to_lower s c)))
          (factor s.cfg.w_assoc (assoc_signal s.assoc c)))
        (factor s.cfg.w_conv (conv_signal log exp s.markov (bytes (terminal_segment c.path))))

  -- corpus.Score: `matched` is the profile's MatchScore of the tags.
  unfoldable pub static_score : F → F → F → F
  static_score base_prio matched tech_boost_w =
      f.mul base_prio (f.add (f.lit 1 1) (f.mul tech_boost_w matched))

  abbrev pub boost_or_none :
      (F → F) → (F → F) → (String → String) → Option (DynamicScorer F) → Candidate F → F → F
  boost_or_none log exp to_lower none c score = score
  boost_or_none log exp to_lower (some s) c score = f.mul score (boost_of log exp to_lower s c)

  unfoldable pub score_candidate :
      (F → F)
      → (F → F)
      → (String → String)
      → Policy F
      → TargetProfile F
      → F
      → Option (DynamicScorer F)
      → Bool
      → List (Override F)
      → Candidate F
      → F
  unfolding static_score match_score boost_of is_harvest_provenance override_multiplier
  score_candidate log exp to_lower policy profile tech_boost_w scorer spa_mode overrides c =
      let prior = static_score c.base_prio (match_score to_lower c.tags profile) tech_boost_w in
      let boosted = boost_or_none log exp to_lower scorer c prior in
      let pivoted =
        if spa_mode && not (is_harvest_provenance c.provenance)
        then f.mul boosted (f.lit 1 10)
        else boosted in
      f.mul pivoted (override_multiplier policy c overrides (f.lit 1 1))
