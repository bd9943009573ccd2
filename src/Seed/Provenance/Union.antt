-- ===== src/Seed/Provenance/Union.antt =====
-- The tags of UnionProvenance of internal/seed/normalize.go.
use Prim.Native.Char.{Char, code}
use Prim.Native.Nat.{ℕ}
use mathlib.Core.Path.{subst}
use smart_buster.Prelude.{
  Bool, true, false, not, ◌&&◌, ◌||◌, ◌≡◌, refl, sym, ap, ◌∙◌, ◌⊎◌, List, [], ◌∷◌, ◌++◌, String,
  str_eq, eq_iff, arith, ◌==◌, all_of, Bool-cases, inl, inr, if-elim,
}
use smart_buster.Prelude.Text.{split, join, append, extend}
use smart_buster.Seed.Provenance.{is_member, keep_parts, union_provenance}

-- No character of the text is the byte.
unfoldable pub lacks : ℕ → String → Bool
lacks sep String.[] = true
lacks sep (String.◌∷◌ c s) = not (code c == sep) && lacks sep s

split-cons : (sep : ℕ) (s : String) → (p : String) × (ps : List String) × (split sep s ≡ p ∷ ps)
unfolding split
split-cons sep String.[] = ("", [], refl)
split-cons sep (String.◌∷◌ c s) =
    let (p, ps, e) = split-cons sep s in
    elim (Bool-cases (code c == sep)) [
      | inl u ↦ ("", split sep s, rw u refl)
      | inr u ↦ (String.◌∷◌ c p, ps, rw (u, e) refl)
    ]

extend-Lacks :
    (sep : ℕ) (c : Char) (ps : List String)
    → (code c == sep) ≡ false
    → all_of (lacks sep) ps ≡ true
    → all_of (lacks sep) (extend c ps) ≡ true
unfolding lacks
extend-Lacks sep c [] u h = ground arith
extend-Lacks sep c (p ∷ ps) u h = ground arith

split-Lacks : (sep : ℕ) (s : String) → all_of (lacks sep) (split sep s) ≡ true
unfolding split lacks
split-Lacks sep String.[] = refl
split-Lacks sep (String.◌∷◌ c s) = elim (Bool-cases (code c == sep)) [
  | inl u ↦ rw u (split-Lacks sep s)
  | inr u ↦ rw u (extend-Lacks sep c (split sep s) u (split-Lacks sep s))
]

-- A text without the byte is one part.
split-lacks : (sep : ℕ) (s : String) → lacks sep s ≡ true → split sep s ≡ s ∷ []
unfolding split lacks
split-lacks sep String.[] h = refl
split-lacks sep (String.◌∷◌ c s) h =
    let rest = split-lacks sep s (ground (arith, h)) in
    let u : (code c == sep) ≡ false = ground (arith, h) in rw (u, rest) refl

-- A byte between two texts separates the parts of one from those of the other.
split-append : (s t : String) → split b'+' (append s (append "+" t)) ≡ split b'+' s ++ split b'+' t
unfolding split append
split-append String.[] t = refl
split-append (String.◌∷◌ c s) t =
    let (p, ps, e) = split-cons b'+' s in
    elim (Bool-cases (code c == b'+')) [
      | inl u ↦ rw (u, split-append s t) refl
      | inr u ↦ rw (u, split-append s t, e) refl
    ]

split-join :
    (p : String) (ps : List String)
    → all_of (lacks b'+') (p ∷ ps) ≡ true
    → split b'+' (join "+" (p ∷ ps)) ≡ p ∷ ps
unfolding join
split-join p [] h = split-lacks b'+' p (ground (arith, h))
split-join p (q ∷ ps) h =
    split-append p (join "+" (q ∷ ps))
    ∙ rw (split-lacks b'+' p (ground (arith, h)), split-join q ps (ground (arith, h))) refl

pub is_member-append :
    (k : String) (xs ys : List String) → is_member k (xs ++ ys) ≡ (is_member k xs || is_member k ys)
unfolding is_member
is_member-append k [] ys = refl
is_member-append k (x ∷ xs) ys = ground (arith, is_member-append k xs ys)

unfoldable pub is_nodup : List String → Bool
unfolding is_member
is_nodup [] = true
is_nodup (s ∷ ss) = not (is_member s ss) && is_nodup ss

pub is_nodup-concat :
    (xs : List String) (k : String)
    → is_nodup xs ≡ true
    → is_member k xs ≡ false
    → is_nodup (xs ++ k ∷ []) ≡ true
unfolding is_nodup is_member
is_nodup-concat [] k h m = refl
is_nodup-concat (x ∷ xs) k h m =
    let rest = is_nodup-concat xs k (ground (arith, h)) (ground (arith, m)) in
    ground (arith, rest, is_member-append x xs (k ∷ []), eq_iff x k, eq_iff k x)

all_of-concat :
    (test : String → Bool) (xs : List String) (k : String)
    → all_of test xs ≡ true
    → test k ≡ true
    → all_of test (xs ++ k ∷ []) ≡ true
all_of-concat test [] k h t = ground arith
all_of-concat test (x ∷ xs) k h t =
    let rest = all_of-concat test xs k (ground (arith, h)) t in ground (arith, rest)

keep_parts-Lacks :
    (parts out : List String)
    → all_of (lacks b'+') parts ≡ true
    → all_of (lacks b'+') out ≡ true
    → all_of (lacks b'+') (keep_parts parts out) ≡ true
unfolding keep_parts
keep_parts-Lacks [] out h k = k
keep_parts-Lacks (p ∷ parts) out h k = keep_parts-Lacks parts _ (ground (arith, h)) (
    if-elim (λ (x : List String). all_of (lacks b'+') x ≡ true) (str_eq p "" || is_member p out)
      (λ u. k) (λ u. all_of-concat (lacks b'+') out p k (ground (arith, h))))

keep_parts-nodup :
    (parts out : List String) → is_nodup out ≡ true → is_nodup (keep_parts parts out) ≡ true
unfolding keep_parts
keep_parts-nodup [] out h = h
keep_parts-nodup (p ∷ parts) out h = keep_parts-nodup parts _ (
    if-elim (λ (x : List String). is_nodup x ≡ true) (str_eq p "" || is_member p out) (λ u. h)
      (λ u. is_nodup-concat out p h (ground (arith, u))))

is_member-keep_parts :
    (k : String) (parts out : List String)
    → str_eq k "" ≡ false
    → is_member k (keep_parts parts out) ≡ (is_member k out || is_member k parts)
unfolding keep_parts is_member
is_member-keep_parts k [] out n = ground arith
is_member-keep_parts k (p ∷ parts) out n = elim (Bool-cases (str_eq p "" || is_member p out)) [
  | inl u ↦
      let rest = is_member-keep_parts k parts out n in
      rw u (ground (arith, rest, eq_iff p k, eq_iff p "", eq_iff k ""))
  | inr u ↦
      let rest = is_member-keep_parts k parts (out ++ p ∷ []) n in
      rw u (ground (arith, rest, is_member-append k out (p ∷ [])))
]

split-join_kept :
    (k : String) (parts : List String)
    → all_of (lacks b'+') parts ≡ true
    → str_eq k "" ≡ false
    → is_member k (split b'+' (join "+" parts)) ≡ is_member k parts
unfolding is_member join split
split-join_kept k [] h n = ground (arith, eq_iff k "", eq_iff "" k)
split-join_kept k (p ∷ parts) h n = ap (is_member k) (split-join p parts h)

nodup-join :
    (parts : List String)
    → all_of (lacks b'+') parts ≡ true
    → is_nodup parts ≡ true
    → is_nodup (split b'+' (join "+" parts)) ≡ true
unfolding is_nodup is_member join split
nodup-join [] h d = refl
nodup-join (p ∷ parts) h d = ap is_nodup (split-join p parts h) ∙ d

abbrev kept : String → String → List String
kept a b = keep_parts (split b'+' (append a (append "+" b))) []

kept-Lacks : (a b : String) → all_of (lacks b'+') (kept a b) ≡ true
kept-Lacks a b = keep_parts-Lacks _ [] (split-Lacks b'+' _) refl

empty_tags :
    (a k : String) → str_eq a "" ≡ true → str_eq k "" ≡ false → is_member k (split b'+' a) ≡ false
unfolding is_member split
empty_tags a k u n =
    subst (λ (x : String). is_member k (split b'+' x) ≡ false) (sym ((eq_iff a "").0 u))
      (ground (arith, n, eq_iff k "", eq_iff "" k))

-- The tags of the union of two provenances are those of one and those of the other, and each
-- stands there once unless one of the two is empty.
pub union_provenance_tags :
    (a b k : String)
    → str_eq k "" ≡ false
    → (is_member k (split b'+' (union_provenance a b))
        ≡ (is_member k (split b'+' a) || is_member k (split b'+' b)))
      × ((str_eq a "" ≡ true)
          ⊎ (str_eq b "" ≡ true)
          ⊎ (is_nodup (split b'+' (union_provenance a b)) ≡ true))
unfolding union_provenance is_member split is_nodup
union_provenance_tags a b k n = elim (Bool-cases (str_eq a "")) [
  | inl u ↦ (rw u (ground (arith, empty_tags a k u n)), inl u)
  | inr u ↦ elim (Bool-cases (str_eq b "")) [
    | inl w ↦ (rw (u, w) (ground (arith, empty_tags b k w n)), inr (inl w))
    | inr w ↦ (
      rw (u, w)
          (split-join_kept k (kept a b) (kept-Lacks a b) n
            ∙ is_member-keep_parts k (split b'+' (append a (append "+" b))) [] n
            ∙ ap (is_member k) (split-append a b)
            ∙ is_member-append k (split b'+' a) (split b'+' b)),
      inr (
          inr (
            rw (u, w)
              (nodup-join (kept a b) (kept-Lacks a b)
                (keep_parts-nodup (split b'+' (append a (append "+" b))) [] refl)))),
    )
  ]
]
