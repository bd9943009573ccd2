-- ===== src/Profile/Merge/Merged.antt =====
-- What a merge of two layers of rules holds.
use mathlib.Core.List.{append-nil, append_assoc}
use mathlib.Core.Path.{subst}
use smart_buster.Prelude.{
  ℕ, suc, ◌+◌, min, max, ◌≡◌, ◌≢◌, refl, sym, ap, ◌∙◌, Option, none, some, List, [], ◌∷◌, ◌++◌, map,
  String, str_eq, eq_iff, arith, if◌then◌else◌, if-elim, Bool-cases, Option-cases, inl, inr, length,
  set,
}
use smart_buster.Profile.Merge.{
  put, Merging, index_from, append_rule, merge_rule, merge_overlay, merge_by_id,
}
use smart_buster.Profile.Merge.Places.{
  or_else, times, last_index, last_index-append, times-append, times-none, times-some, last_rule,
  map-append, last_rule-append, map-set, last_rule-set,
}

abbrev from : ℕ → Option ℕ → Option ℕ
from i none = none
from i (some j) = some (i + j)

from_zero : (x : Option ℕ) → or_else (from 0 x) none ≡ x
from_zero none = refl
from_zero (some j) = ap some (omega arith)

module _ {R : Type 0} where
  index_from_lem :
      (id : R → String) (k : String) (i : ℕ) (rs : List R) (index : String → Option ℕ)
      → k ≢ ""
      → index_from id i rs index k ≡ or_else (from i (last_index k (map id rs))) (index k)
  unfolding index_from last_index
  index_from_lem id k i [] index h = refl
  index_from_lem id k i (r ∷ rs) index h = ground (
    arith,
    index_from_lem id k (suc i) rs (if str_eq (id r) "" then index else put (id r) i index) h,
    eq_iff (id r) k,
    eq_iff (id r) "",
  )

  length-names : (id : R → String) (xs : List R) → length (map id xs) ≡ length xs
  length-names id [] = refl
  length-names id (x ∷ xs) = ap suc (length-names id xs)

  -- The index names the last rule of each name.
  IsIndexed : (R → String) → Merging R → Type 0
  IsIndexed id m = (k : String) → k ≢ "" → m.index k ≡ last_index k (map id m.rules)

  -- A rule takes the place of the last of its name, or is added.
  merge_rule-elim :
      (id : R → String) (r : R) (m : Merging R) (P : Merging R → Type 0)
      → IsIndexed id m
      → ((id r ≢ "" → last_index (id r) (map id m.rules) ≡ none) → P (append_rule id r m))
      → ((i : ℕ)
          → id r ≢ ""
          → last_index (id r) (map id m.rules) ≡ some i
          → P (record m { rules = set m.rules i r }))
      → P (merge_rule id r m)
  unfolding merge_rule IsIndexed
  merge_rule-elim id r m P inv added placed =
      if-elim P (str_eq (id r) "") (λ u. added (λ h. absurd (h ((eq_iff (id r) "").0 u))))
        (λ u.
          let named : id r ≢ "" = λ h. (ground (arith, eq_iff (id r) "")) in
          elim (Option-cases (m.index (id r))) [
            | inl e ↦ rw e (added (λ h. sym (inv (id r) named) ∙ e))
            | inr (i, e) ↦ rw e (placed i named (sym (inv (id r) named) ∙ e))
          ])

  merge_rule-IsIndexed :
      (id : R → String) (r : R) (m : Merging R) → IsIndexed id m → IsIndexed id (merge_rule id r m)
  unfolding IsIndexed
  merge_rule-IsIndexed id r m inv =
      merge_rule-elim id r m (IsIndexed id) inv
        (λ fresh k h.
          rw (map-append id m.rules (r ∷ []), last_index-append k (map id m.rules) (id r))
            (ground (arith, inv k h, length-names id m.rules)))
        (λ i named e k h. rw (map-set id r m.rules i e) (inv k h))

  last_rule-merge_rule :
      (id : R → String) (k : String) (r : R) (m : Merging R)
      → IsIndexed id m
      → last_rule id k (merge_rule id r m).rules
        ≡ (if str_eq (id r) k then some r else last_rule id k m.rules)
  unfolding last_rule
  last_rule-merge_rule id k r m inv =
      merge_rule-elim id r m
        (λ (out : Merging R).
          last_rule id k out.rules ≡ (if str_eq (id r) k then some r else last_rule id k m.rules))
        inv (λ fresh. rw (last_rule-append id k m.rules (r ∷ [])) (ground arith))
        (λ i named e. last_rule-set id k r m.rules i e)

  times-merge_rule :
      (id : R → String) (k : String) (r : R) (m : Merging R)
      → IsIndexed id m
      → k ≢ ""
      → times k (map id (merge_rule id r m).rules)
        ≡ max (times k (map id m.rules)) (if str_eq (id r) k then 1 else 0)
  times-merge_rule id k r m inv h =
      merge_rule-elim id r m
        (λ (out : Merging R).
          times k (map id out.rules)
          ≡ max (times k (map id m.rules)) (if str_eq (id r) k then 1 else 0))
        inv
        (λ fresh.
          rw (map-append id m.rules (r ∷ []), times-append k (map id m.rules) (id r))
            (elim (Bool-cases (str_eq (id r) k)) [
              | inl u ↦
                  let at_k = (eq_iff (id r) k).0 u in
                  let none_yet : last_index k (map id m.rules) ≡ none =
                    subst (λ (x : String). last_index x (map id m.rules) ≡ none) at_k
                      (fresh (λ z. h (sym at_k ∙ z))) in
                  rw u (omega (arith, times-none k (map id m.rules) none_yet))
              | inr u ↦ rw u (omega arith)
            ]))
        (λ i named e. rw (map-set id r m.rules i e) (elim (Bool-cases (str_eq (id r) k)) [
          | inl u ↦
              let at_k = (eq_iff (id r) k).0 u in
              let there : last_index k (map id m.rules) ≡ some i =
                subst (λ (x : String). last_index x (map id m.rules) ≡ some i) at_k e in
              rw u (omega (arith, times-some k (map id m.rules) i there))
          | inr u ↦ rw u (omega arith)
        ]))

  -- The names that were there keep their places.
  names-merge_rule :
      (id : R → String) (r : R) (m : Merging R)
      → IsIndexed id m
      → (extra : List String) × (map id (merge_rule id r m).rules ≡ map id m.rules ++ extra)
  names-merge_rule id r m inv =
      merge_rule-elim id r m
        (λ (out : Merging R). (extra : List String) × (map id out.rules ≡ map id m.rules ++ extra))
        inv (λ fresh. (id r ∷ [], map-append id m.rules (r ∷ [])))
        (λ i named e. ([], map-set id r m.rules i e ∙ sym (append-nil (map id m.rules))))

  merge_overlay-IsMerged :
      (id : R → String) (k : String) (overlay : List R) (m : Merging R)
      → IsIndexed id m
      → k ≢ ""
      → (last_rule id k (merge_overlay id overlay m).rules
          ≡ or_else (last_rule id k overlay) (last_rule id k m.rules))
        × (times k (map id (merge_overlay id overlay m).rules)
            ≡ max (times k (map id m.rules)) (min 1 (times k (map id overlay))))
        × ((extra : List String) × (map id (merge_overlay id overlay m).rules
              ≡ map id m.rules ++ extra))
  unfolding merge_overlay last_rule
  merge_overlay-IsMerged id k [] m inv h =
      (refl, omega arith, ([], sym (append-nil (map id m.rules))))
  merge_overlay-IsMerged id k (r ∷ rs) m inv h =
      let next = merge_rule id r m in
      let (last, count, (extra, names)) =
        merge_overlay-IsMerged id k rs next (merge_rule-IsIndexed id r m inv) h in
      let (more, there) = names-merge_rule id r m inv in
      (
        ground (arith, last, last_rule-merge_rule id k r m inv),
        ground (arith, count, times-merge_rule id k r m inv h),
        (
          more ++ extra,
          names ∙ ap (λ x. x ++ extra) there ∙ append_assoc (map id m.rules) more extra,
        ),
      )

  -- After a merge the last rule of a name is that of the overlay, or else that of the base. A name
  -- has no more rules than it had in the base, or one where it had none and the overlay names it.
  -- The rules of the base keep their places: their names are the first ones of the result, in
  -- their order. The name k is not the empty one.
  pub merge_by_id-IsMerged :
      (id : R → String) (base overlay : List R) (k : String)
      → k ≢ ""
      → (last_rule id k (merge_by_id id base overlay)
          ≡ or_else (last_rule id k overlay) (last_rule id k base))
        × (times k (map id (merge_by_id id base overlay))
            ≡ max (times k (map id base)) (min 1 (times k (map id overlay))))
        × ((extra : List String) × (map id (merge_by_id id base overlay) ≡ map id base ++ extra))
  unfolding merge_by_id IsIndexed
  merge_by_id-IsMerged id base overlay k h =
      merge_overlay-IsMerged id k overlay
        (record { rules = base; index = index_from id 0 base (λ k. none) })
        (λ j named.
          index_from_lem id j 0 base (λ k. none) named ∙ from_zero (last_index j (map id base)))
        h
