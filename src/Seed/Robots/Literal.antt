-- ===== src/Seed/Robots/Literal.antt =====
-- The paths that parseRobots of internal/seed/robots.go gives.
use Prim.Native.Char.{code}
use smart_buster.Prelude.{
  Bool, true, false, not, ◌&&◌, ◌||◌, ◌≡◌, refl, ap, none, some, List, [], ◌∷◌, ◌++◌, String,
  str_eq, eq_iff, arith, if-elim, ◌==◌, all_of, inl, inr, Bool-cases,
}
use smart_buster.Prelude.Text.{has_prefix}
use smart_buster.Seed.{RawSeed}
use smart_buster.Seed.Provenance.Union.{lacks}
use smart_buster.Seed.Robots.{
  literal_part, robots_path, RobotsResult, add_path, apply_directive, without_comment,
  split_directive, parse_line, parse_lines, parse_robots,
}

-- An absolute path other than the root, without the wildcards of robots.txt
abbrev pub is_literal : String → Bool
is_literal p = has_prefix p "/" && not (str_eq p "/") && lacks b'*' p && lacks b'$' p

literal_part-lacks :
    (s : String) → (lacks b'*' (literal_part s) && lacks b'$' (literal_part s)) ≡ true
unfolding literal_part lacks
literal_part-lacks String.[] = refl
literal_part-lacks (String.◌∷◌ c s) = elim (Bool-cases (code c == b'*' || code c == b'$')) [
  | inl u ↦ rw u refl
  | inr u ↦ rw u (ground (arith, u, literal_part-lacks s))
]

abbrev tail_of : String → String
tail_of String.[] = ""
tail_of (String.◌∷◌ c s) = s

slash-ne : (p : String) → str_eq p "" ≡ false → str_eq (String.◌∷◌ "/" p) "/" ≡ false
slash-ne p h = elim (Bool-cases (str_eq (String.◌∷◌ "/" p) "/")) [
  | inl e ↦
      let q : p ≡ "" = ap tail_of ((eq_iff (String.◌∷◌ "/" p) "/").0 e) in
      let t = (eq_iff p "").1 q in cc
  | inr e ↦ e
]

robots_path-literal :
    (val : String) → str_eq (robots_path val) "" ≡ false → is_literal (robots_path val) ≡ true
unfolding robots_path has_prefix lacks
robots_path-literal val h =
    let p = literal_part val in
    let lit = literal_part-lacks val in
    elim (Bool-cases (str_eq p "" || str_eq p "/")) [
      | inl u ↦ let empty : str_eq "" "" ≡ false = rw u at h in cc
      | inr u ↦ elim (Bool-cases (has_prefix p "/")) [
        | inl w ↦ rw (u, w) (ground (arith, u, w, lit))
        | inr w ↦ rw (u, w) (ground (arith, u, lit, slash-ne p))
      ]
    ]

abbrev is_robots_seed : RawSeed → Bool
is_robots_seed s =
    is_literal s.path && (str_eq s.source "robots:disallow" || str_eq s.source "robots:allow")

abbrev AllLiteral : RobotsResult → Type 0
AllLiteral res = all_of is_robots_seed res.seeds ≡ true

all_of-concat :
    (test : RawSeed → Bool) (xs : List RawSeed) (x : RawSeed)
    → all_of test xs ≡ true
    → test x ≡ true
    → all_of test (xs ++ x ∷ []) ≡ true
all_of-concat test [] x h t = ground arith
all_of-concat test (y ∷ xs) x h t =
    let rest = all_of-concat test xs x (ground (arith, h)) t in ground (arith, rest)

add_path-AllLiteral :
    (val source : String) (res : RobotsResult)
    → (str_eq source "robots:disallow" || str_eq source "robots:allow") ≡ true
    → AllLiteral res
    → AllLiteral (add_path val source res)
unfolding add_path
add_path-AllLiteral val source res own h =
    if-elim AllLiteral (str_eq (robots_path val) "") (λ u. h)
      (λ u.
        let lit = robots_path-literal val u in
        all_of-concat is_robots_seed res.seeds _ h (ground (arith, own, lit)))

apply_directive-AllLiteral :
    (key val : String) (res : RobotsResult)
    → AllLiteral res
    → AllLiteral (apply_directive key val res)
unfolding apply_directive
apply_directive-AllLiteral key val res h =
    if-elim AllLiteral (str_eq key "disallow") (λ u. add_path-AllLiteral val _ res refl h)
      (λ u.
        if-elim AllLiteral (str_eq key "allow") (λ v. add_path-AllLiteral val _ res refl h)
          (λ v.
            if-elim AllLiteral (str_eq key "sitemap")
              (λ w. if-elim AllLiteral (str_eq val "") (λ x. h) (λ x. h)) (λ w. h)))

parse_lines-AllLiteral :
    (to_lower : String → String) (lines : List String) (res : RobotsResult)
    → AllLiteral res
    → AllLiteral (parse_lines to_lower lines res)
unfolding parse_lines parse_line
parse_lines-AllLiteral to_lower [] res h = h
parse_lines-AllLiteral to_lower (line ∷ lines) res h =
    parse_lines-AllLiteral to_lower lines _
      (elim (split_directive (without_comment line))
        as (λ d.
          AllLiteral
            (elim d [ none ↦ res | some (key, val) ↦ apply_directive (to_lower key) val res ])) [
              | none ↦ h
              | some (key, val) ↦ apply_directive-AllLiteral (to_lower key) val res h
            ])

-- Every seed of a robots.txt, whatever the file holds, is an absolute path other than the root and
-- has no wildcard in it; its source is one of the two directives.
pub parse_robots-literal :
    (to_lower : String → String) (lines : List String)
    → all_of
        (λ (s : RawSeed).
          is_literal s.path
          && (str_eq s.source "robots:disallow" || str_eq s.source "robots:allow"))
        (parse_robots to_lower lines).seeds
      ≡ true
unfolding parse_robots
parse_robots-literal to_lower lines = parse_lines-AllLiteral to_lower lines _ refl
