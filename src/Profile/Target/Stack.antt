-- ===== src/Profile/Target/Stack.antt =====
-- Which extensions a profile asks for.
use smart_buster.Prelude.{
  Bool, true, false, not, ◌&&◌, ◌||◌, ◌≡◌, refl, ap, ◌∙◌, List, [], ◌∷◌, ◌++◌, String, eq_iff,
  arith, if-elim, Bool-cases, inl, inr,
}
use smart_buster.Prelude.Text.{has_substring}
use smart_buster.Seed.Provenance.{is_member}
use smart_buster.Seed.Provenance.Union.{is_nodup, is_nodup-concat, is_member-append}
use smart_buster.Profile.Target.{
  Tech, TargetProfile, add_exts, add_stack, is_edge, add_techs, extensions_for_stack,
  stack_extensions, generic_extensions, backup_extensions,
}

-- Whether a keyword of the table stands in a name and implies the extension
pub implied : String → String → List (String × List String) → Bool
implied e name [] = false
implied e name (se ∷ rest) = (has_substring name se.0 && is_member e se.1) || implied e name rest

module _ {F : Type 0} where
  -- Whether a technology that is not of the edge implies the extension
  pub wanted : (String → String) → String → List (Tech F) → Bool
  unfolding implied
  wanted to_lower e [] = false
  wanted to_lower e (t ∷ ts) =
      (not (is_edge t.layer) && implied e (to_lower t.name) stack_extensions)
      || wanted to_lower e ts

add_exts-nodup : (es exts : List String) → is_nodup exts ≡ true → is_nodup (add_exts es exts) ≡ true
unfolding add_exts
add_exts-nodup [] exts h = h
add_exts-nodup (e ∷ es) exts h = add_exts-nodup es _ (
    if-elim (λ (x : List String). is_nodup x ≡ true) (is_member e exts) (λ u. h)
      (λ u. is_nodup-concat exts e h u))

is_member-add_exts :
    (k : String) (es exts : List String)
    → is_member k (add_exts es exts) ≡ (is_member k exts || is_member k es)
unfolding add_exts is_member
is_member-add_exts k [] exts = ground arith
is_member-add_exts k (e ∷ es) exts = elim (Bool-cases (is_member e exts)) [
  | inl u ↦ rw u (ground (arith, u, is_member-add_exts k es exts, eq_iff e k))
  | inr u ↦
      rw u
        (ground (arith, is_member-add_exts k es (exts ++ e ∷ []), is_member-append k exts (e ∷ [])))
]

add_stack-nodup :
    (name : String) (table : List (String × List String)) (exts : List String)
    → is_nodup exts ≡ true
    → is_nodup (add_stack name table exts) ≡ true
unfolding add_stack
add_stack-nodup name [] exts h = h
add_stack-nodup name (se ∷ rest) exts h = add_stack-nodup name rest _ (
    if-elim (λ (x : List String). is_nodup x ≡ true) (has_substring name se.0)
      (λ u. add_exts-nodup se.1 exts h) (λ u. h))

is_member-add_stack :
    (k name : String) (table : List (String × List String)) (exts : List String)
    → is_member k (add_stack name table exts) ≡ (is_member k exts || implied k name table)
unfolding add_stack implied
is_member-add_stack k name [] exts = ground arith
is_member-add_stack k name (se ∷ rest) exts = elim (Bool-cases (has_substring name se.0)) [
  | inl u ↦ rw u (
      ground (
        arith,
        u,
        is_member-add_stack k name rest (add_exts se.1 exts),
        is_member-add_exts k se.1 exts,
      ))
  | inr u ↦ rw u (ground (arith, u, is_member-add_stack k name rest exts))
]

module _ {F : Type 0} where
  add_techs-nodup :
      (to_lower : String → String) (ts : List (Tech F)) (exts : List String)
      → is_nodup exts ≡ true
      → is_nodup (add_techs to_lower ts exts) ≡ true
  unfolding add_techs
  add_techs-nodup to_lower [] exts h = h
  add_techs-nodup to_lower (t ∷ ts) exts h = add_techs-nodup to_lower ts _ (
      if-elim (λ (x : List String). is_nodup x ≡ true) (is_edge t.layer) (λ u. h)
        (λ u. add_stack-nodup (to_lower t.name) stack_extensions exts h))

  is_member-add_techs :
      (k : String) (to_lower : String → String) (ts : List (Tech F)) (exts : List String)
      → is_member k (add_techs to_lower ts exts) ≡ (is_member k exts || wanted to_lower k ts)
  unfolding add_techs wanted
  is_member-add_techs k to_lower [] exts = ground arith
  is_member-add_techs k to_lower (t ∷ ts) exts = elim (Bool-cases (is_edge t.layer)) [
    | inl u ↦ rw u (ground (arith, u, is_member-add_techs k to_lower ts exts))
    | inr u ↦
        let grown = add_stack (to_lower t.name) stack_extensions exts in
        rw u (
          ground (
            arith,
            u,
            is_member-add_techs k to_lower ts grown,
            is_member-add_stack k (to_lower t.name) stack_extensions exts,
          ))
  ]

  -- The extensions of a profile are each given once: the generic ones, those of backups, and those
  -- that the table gives for a keyword in the name of a technology that is not of the edge.
  pub extensions_for_stack_exact :
      (to_lower : String → String) (p : TargetProfile F) (e : String)
      → (is_nodup (extensions_for_stack to_lower p) ≡ true)
        × (is_member e (extensions_for_stack to_lower p) ≡ (
            (wanted to_lower e p.tech || is_member e generic_extensions)
            || is_member e backup_extensions))
  unfolding extensions_for_stack is_nodup
  extensions_for_stack_exact to_lower p e =
      let stack = add_techs to_lower p.tech [] in
      let generic = add_exts generic_extensions stack in
      (
        add_exts-nodup backup_extensions generic
            (add_exts-nodup generic_extensions stack (add_techs-nodup to_lower p.tech [] refl)),
        is_member-add_exts e backup_extensions generic
            ∙ ap (λ b. b || is_member e backup_extensions)
                (is_member-add_exts e generic_extensions stack
                  ∙ ap (λ b. b || is_member e generic_extensions)
                      (is_member-add_techs e to_lower p.tech [])),
      )
