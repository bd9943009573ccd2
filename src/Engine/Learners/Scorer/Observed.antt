-- ===== src/Engine/Learners/Scorer/Observed.antt =====
-- When a directory's responses raise the score of a candidate.
use smart_buster.Prelude.{
  ℕ, Bool, true, false, ◌&&◌, ◌||◌, ◌≡◌, refl, List, [], ◌∷◌, String, str_eq, arith, any_of,
  if◌then◌else◌,
}
use smart_buster.Prelude.Float.{Float}
use smart_buster.Engine.Types.{Candidate}
use smart_buster.Engine.Learners.Scorer.{
  ScoreWeights, DynamicScorer, new_dynamic_scorer, is_sensitive_candidate, observe_protected,
  observe_index_of, record_dir_hit, sem_signal,
}

-- What the coordinator tells the scorer
pub data Observation : Type 0 where
  saw_protected_in saw_index_in hit_in : String → Observation

abbrev pub protects : String → Observation → Bool
protects d (saw_protected_in dir) = str_eq dir d
protects d _ = false

abbrev pub indexes : String → Observation → Bool
indexes d (saw_index_in dir) = str_eq dir d
indexes d _ = false

module _ {F : Type 0} where
  unfoldable pub observe : Observation → DynamicScorer F → DynamicScorer F
  unfolding observe_protected observe_index_of record_dir_hit
  observe (saw_protected_in dir) s = observe_protected dir s
  observe (saw_index_in dir) s = observe_index_of dir s
  observe (hit_in dir) s = record_dir_hit dir s

  unfoldable pub observe_all : List Observation → DynamicScorer F → DynamicScorer F
  unfolding observe
  observe_all [] s = s
  observe_all (ob ∷ obs) s = observe_all obs (observe ob s)

  protected_lem :
      (obs : List Observation) (s : DynamicScorer F) (d : String)
      → ((observe_all obs s).dir_ctx d).saw_protected
        ≡ ((s.dir_ctx d).saw_protected || any_of (protects d) obs)
  unfolding observe_all observe observe_protected observe_index_of record_dir_hit
  protected_lem [] s d = ground arith
  protected_lem (saw_protected_in dir ∷ obs) s d =
      ground (arith, protected_lem obs (observe_protected dir s) d)
  protected_lem (saw_index_in dir ∷ obs) s d =
      ground (arith, protected_lem obs (observe_index_of dir s) d)
  protected_lem (hit_in dir ∷ obs) s d = ground (arith, protected_lem obs (record_dir_hit dir s) d)

  index_lem :
      (obs : List Observation) (s : DynamicScorer F) (d : String)
      → ((observe_all obs s).dir_ctx d).saw_index_of
        ≡ ((s.dir_ctx d).saw_index_of || any_of (indexes d) obs)
  unfolding observe_all observe observe_protected observe_index_of record_dir_hit
  index_lem [] s d = ground arith
  index_lem (saw_protected_in dir ∷ obs) s d =
      ground (arith, index_lem obs (observe_protected dir s) d)
  index_lem (saw_index_in dir ∷ obs) s d = ground (arith, index_lem obs (observe_index_of dir s) d)
  index_lem (hit_in dir ∷ obs) s d = ground (arith, index_lem obs (record_dir_hit dir s) d)

choose :
    {F : Type 0} (i p q : Bool) (x y : F)
    → (if i then x else if p && q then x else y) ≡ (if i || (p && q) then x else y)
choose true p q x y = refl
choose false p q x y = refl

module _ {F : Type 0} ⦃f : Float F⦄ where
  -- After any observations on a new scorer, a candidate has the semantic signal exactly if its
  -- directory was seen as an open listing, or was seen protected and the candidate is sensitive.
  pub sem_signal_exact :
      (to_lower : String → String) (cfg : ScoreWeights F) (order min_samples : ℕ)
      (groups : List (List String)) (obs : List Observation) (c : Candidate F)
      → sem_signal to_lower (observe_all obs (new_dynamic_scorer cfg order min_samples groups)) c
        ≡ (if any_of (indexes c.parent_dir) obs
              || (any_of (protects c.parent_dir) obs && is_sensitive_candidate to_lower c)
            then f.lit 1 1
            else f.lit 0 1)
  unfolding sem_signal new_dynamic_scorer
  sem_signal_exact to_lower cfg order min_samples groups obs c =
      let s = new_dynamic_scorer cfg order min_samples groups in
      rw (index_lem obs s c.parent_dir, protected_lem obs s c.parent_dir)
        (choose (any_of (indexes c.parent_dir) obs) (any_of (protects c.parent_dir) obs)
          (is_sensitive_candidate to_lower c) (f.lit 1 1) (f.lit 0 1))
