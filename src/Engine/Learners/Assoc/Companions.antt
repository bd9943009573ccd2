-- ===== src/Engine/Learners/Assoc/Companions.antt =====
-- Which terms are companions.
use smart_buster.Prelude.{
  Bool, false, not, ◌&&◌, ◌||◌, ◌≡◌, refl, sym, ◌∙◌, List, [], ◌∷◌, String, str_eq, eq_iff, arith,
  any_of, Bool-cases, inl, inr,
}
use smart_buster.Seed.Provenance.{is_member}
use smart_buster.Engine.Learners.Assoc.{
  set_companion, add_others, add_terms, add_groups, expand_companion_groups,
}

-- Two different terms of one group
abbrev pub is_pair : String → String → List String → Bool
is_pair a b g = (is_member a g && is_member b g) && not (str_eq b a)

add_others_lem :
    (term : String) (g : List String) (out : String → String → Bool) (a b : String)
    → add_others term g out a b ≡ (out a b || (str_eq term a && is_member b g && not (str_eq b a)))
unfolding add_others is_member
add_others_lem term [] out a b = ground arith
add_others_lem term (other ∷ g) out a b = elim (Bool-cases (str_eq other term)) [
  | inl u ↦ rw u (
      ground (
        arith,
        add_others_lem term g out a b,
        eq_iff other term,
        eq_iff term a,
        eq_iff other b,
        eq_iff b a,
        u,
      ))
  | inr u ↦ rw u (
      ground (
        arith,
        add_others_lem term g (set_companion term other out) a b,
        eq_iff other term,
        eq_iff term a,
        eq_iff other b,
        eq_iff b a,
        u,
      ))
]

add_terms_lem :
    (terms group : List String) (out : String → String → Bool) (a b : String)
    → add_terms terms group out a b
      ≡ (out a b || (is_member a terms && is_member b group && not (str_eq b a)))
unfolding add_terms is_member
add_terms_lem [] group out a b = ground arith
add_terms_lem (term ∷ terms) group out a b = ground (
  arith,
  add_terms_lem terms group (add_others term group out) a b,
  add_others_lem term group out a b,
)

add_groups_lem :
    (groups : List (List String)) (out : String → String → Bool) (a b : String)
    → add_groups groups out a b ≡ (out a b || any_of (is_pair a b) groups)
unfolding add_groups
add_groups_lem [] out a b = ground arith
add_groups_lem (g ∷ gs) out a b =
    ground (arith, add_groups_lem gs (add_terms g g out) a b, add_terms_lem g g out a b)

is_pair-sym : (a b : String) (g : List String) → is_pair a b g ≡ is_pair b a g
is_pair-sym a b g = ground (arith, eq_iff a b, eq_iff b a)

any_of-sym :
    (a b : String) (groups : List (List String))
    → any_of (is_pair a b) groups ≡ any_of (is_pair b a) groups
any_of-sym a b [] = refl
any_of-sym a b (g ∷ gs) = ground (arith, is_pair-sym a b g, any_of-sym a b gs)

-- Two terms are companions exactly if they differ and stand in one group, so the relation is
-- symmetric.
pub expand_companion_groups_exact :
    (groups : List (List String)) (a b : String)
    → (expand_companion_groups groups a b ≡ any_of (is_pair a b) groups)
      × (expand_companion_groups groups a b ≡ expand_companion_groups groups b a)
unfolding expand_companion_groups
expand_companion_groups_exact groups a b =
    let ab = add_groups_lem groups (λ x y. false) a b in
    let ba = add_groups_lem groups (λ x y. false) b a in (ab, ab ∙ any_of-sym a b groups ∙ sym ba)
