-- ===== src/Scope/Rules.antt =====
-- What Scope.InScope of internal/scope/scope.go allows.
use mathlib.Core.List.{Memᴰ}
use smart_buster.Prelude.{
  ℕ, zero, suc, ◌-◌, Bool, true, false, ◌&&◌, if◌then◌else◌, ◌↔◌, ◌≡◌, refl, sym, ap, ◌∙◌, ◌⊎◌, inl,
  inr, Option-cases, Bool-cases, none, some, List, [], ◌∷◌, map, arith, length, drop, any_of,
}
use smart_buster.Scope.{
  Net, lower, to_lower, equal, equal_fold, has_prefix, has_suffix, Config, Scope, star_dot,
  compile_host, compile_hosts, compile_patterns, new, matches, in_scope_at, in_scope,
}

lower-lower : (b : ℕ) → lower (lower b) ≡ lower b
lower-lower b = ground arith

drop-IsLower : (n : ℕ) (s : List ℕ) → to_lower (drop n (to_lower s)) ≡ drop n (to_lower s)
drop-IsLower zero [] = refl
drop-IsLower zero (b ∷ s) = rw (lower-lower b, drop-IsLower zero s)
drop-IsLower (suc n) [] = refl
drop-IsLower (suc n) (b ∷ s) = drop-IsLower n s

equal→eq : (a b : List ℕ) → equal a b ≡ true → a ≡ b
equal→eq [] [] h = refl
equal→eq [] (y ∷ b) h = ground arith
equal→eq (x ∷ a) [] h = ground arith
equal→eq (x ∷ a) (y ∷ b) h =
    let tl = equal→eq a b (ground arith) in let hd : x ≡ y = ground arith in rw (hd, tl) refl

eq→equal : (a : List ℕ) → equal a a ≡ true
eq→equal [] = refl
eq→equal (x ∷ a) = ground (arith, eq→equal a)

&&-second : (a b : Bool) → (a && b) ≡ true → b ≡ true
&&-second a b h = ground arith

any_of-map :
    {A B : Type 0} (test : B → Bool) (g : A → B) {x : A} {xs : List A}
    → Memᴰ x xs
    → test (g x) ≡ true
    → any_of test (map g xs) ≡ true
any_of-map test g (Memᴰ.head e) h = rw (sym e, h) refl
any_of-map test g (Memᴰ.tail k) h = ground (arith, any_of-map test g k h)

abbrev pub NoneOf : {A : Type 0} → (A → Bool) → List A → Type 0
NoneOf test [] = Unit
NoneOf test (x ∷ xs) = (test x ≡ false) × NoneOf test xs

abbrev pub SomeOf : {A : Type 0} → (A → Bool) → List A → Type 0
SomeOf {A = A} test xs = (x : A) × Memᴰ x xs × (test x ≡ true)

any_of-NoneOf :
    {A : Type 0} (test : A → Bool) (xs : List A) → (any_of test xs ≡ false) ↔ NoneOf test xs
any_of-NoneOf test [] = (λ h. tt, λ h. refl)
any_of-NoneOf test (x ∷ xs) =
    let ih = any_of-NoneOf test xs in
    (λ h. (ground arith, ih.0 (ground arith)), λ h. ground (arith, ih.1 h.1))

any_of-SomeOf :
    {A : Type 0} (test : A → Bool) (xs : List A) → any_of test xs ≡ true → SomeOf test xs
any_of-SomeOf test [] h = ground arith
any_of-SomeOf test (x ∷ xs) h = elim (Bool-cases (test x)) [
  | inl e ↦ (x, Memᴰ.head refl, e)
  | inr e ↦ let (y, k, t) = any_of-SomeOf test xs (ground arith) in (y, Memᴰ.tail k, t)
]

any_of-Mem :
    {A : Type 0} (test : A → Bool) {x : A} {xs : List A}
    → Memᴰ x xs
    → test x ≡ true
    → any_of test xs ≡ true
any_of-Mem test (Memᴰ.head e) h = rw (sym e, h) refl
any_of-Mem test (Memᴰ.tail k) h = ground (arith, any_of-Mem test k h)

module _ {N R : Type 0} where
  compile_host-by_name :
      (net : Net N R) (h : List ℕ)
      → net.parse_cidr h ≡ none
      → compile_host net h ≡ (
          if has_prefix h star_dot
          then record { exact = []; wildcard = drop 1 h; cidr = none }
          else record { exact = to_lower h; wildcard = []; cidr = none })
  unfolding compile_host
  compile_host-by_name net h c = rw (compile_host, c) refl

  compile_host-wildcard :
      (net : Net N R) (a b : ℕ) (h host : List ℕ)
      → net.parse_cidr (a ∷ b ∷ h) ≡ none
      → has_prefix (a ∷ b ∷ h) star_dot ≡ true
      → matches net host (compile_host net (a ∷ b ∷ h)) ≡ has_suffix (to_lower host) (b ∷ h)
  unfolding matches
  compile_host-wildcard net a b h host c p = rw (compile_host-by_name net (a ∷ b ∷ h) c, p) refl

  compile_host-exact :
      (net : Net N R) (h host : List ℕ)
      → net.parse_cidr h ≡ none
      → has_prefix h star_dot ≡ false
      → matches net host (compile_host net h) ≡ equal_fold host (to_lower h)
  unfolding matches
  compile_host-exact net h host c p =
      rw
        (compile_host-by_name net h c
          ∙ ap
              (λ b.
                if b
                then record { exact = []; wildcard = drop 1 h; cidr = none }
                else record { exact = to_lower h; wildcard = []; cidr = none })
              p)
        refl

  -- A host pattern that starts with "*." and is no block matches a host only if what follows its
  -- star is in lower case, whatever the case of the host.
  pub wildcard-IsLower :
      (net : Net N R) (h host : List ℕ)
      → net.parse_cidr h ≡ none
      → has_prefix h star_dot ≡ true
      → matches net host (compile_host net h) ≡ true
      → to_lower (drop 1 h) ≡ drop 1 h
  unfolding matches compile_host
  wildcard-IsLower net [] host c p m = ground arith
  wildcard-IsLower net (a ∷ []) host c p m = ground arith
  wildcard-IsLower net (a ∷ b ∷ h) host c p m =
      let n = length (to_lower host) - length (b ∷ h) in
      let suffix = sym (compile_host-wildcard net a b h host c p) ∙ m in
      let q = equal→eq (drop n (to_lower host)) (b ∷ h) (&&-second _ _ suffix) in
      sym (ap to_lower q) ∙ drop-IsLower n host ∙ q

  new-exclude_hosts :
      (net : Net N R) (cfg : Config) (s : Scope N R)
      → new net cfg ≡ some s
      → s.exclude_hosts ≡ compile_hosts net cfg.exclude_hosts
  unfolding new
  new-exclude_hosts net cfg s h = elim (Option-cases (compile_patterns net cfg.exclude_patterns)) [
    | inl e ↦ ground arith
    | inr (res, e) ↦ ground arith
  ]

  -- A host that the configuration excludes by its name is out of scope under every URL, in
  -- whatever case, and whatever the allowlist says.
  pub excluded-out :
      (net : Net N R) (cfg : Config) (s : Scope N R) (h host path url : List ℕ)
      → new net cfg ≡ some s
      → Memᴰ h cfg.exclude_hosts
      → net.parse_cidr h ≡ none
      → has_prefix h star_dot ≡ false
      → net.parse_url url ≡ some (host, path)
      → to_lower host ≡ to_lower h
      → in_scope net s url ≡ false
  unfolding new in_scope in_scope_at
  excluded-out net cfg s h host path url made k c p u e =
      let same : equal_fold host (to_lower h) ≡ true =
        rw (drop-IsLower zero h, e) (eq→equal (to_lower h)) in
      let named : matches net host (compile_host net h) ≡ true =
        compile_host-exact net h host c p ∙ same in
      let any = any_of-map (matches net host) (compile_host net) k named in
      rw (in_scope, u, new-exclude_hosts net cfg s made, any) refl

  abbrev pub Allows : Net N R → Scope N R → List ℕ → List ℕ → Type 0
  Allows net s host path =
      NoneOf (matches net host) s.exclude_hosts
      × NoneOf (λ re. net.match_string re path) s.exclude_re
      × ((length s.allow_hosts ≡ 0) ⊎ SomeOf (matches net host) s.allow_hosts)

  in_scope_at→Allows :
      (net : Net N R) (s : Scope N R) (host path : List ℕ)
      → in_scope_at net s host path ≡ true
      → Allows net s host path
  unfolding in_scope_at
  in_scope_at→Allows net s host path h = (
    (any_of-NoneOf (matches net host) s.exclude_hosts).0 (ground arith),
    (any_of-NoneOf (λ re. net.match_string re path) s.exclude_re).0 (ground arith),
    elim (Bool-cases (any_of (matches net host) s.allow_hosts)) [
      | inl e ↦ inr (any_of-SomeOf (matches net host) s.allow_hosts e)
      | inr e ↦ inl (ground arith)
    ],
  )

  Allows→in_scope_at :
      (net : Net N R) (s : Scope N R) (host path : List ℕ)
      → Allows net s host path
      → in_scope_at net s host path ≡ true
  unfolding in_scope_at
  Allows→in_scope_at net s host path (a, b, c) =
      let hosts = (any_of-NoneOf (matches net host) s.exclude_hosts).1 a in
      let paths = (any_of-NoneOf (λ re. net.match_string re path) s.exclude_re).1 b in
      elim c [
        | inl e ↦ ground arith
        | inr (m, k, t) ↦ let found = any_of-Mem (matches net host) k t in ground arith
      ]

  -- What may be requested: a URL that parses, with no match among the exclusions, by host or by
  -- path, and a match in the allowlist unless that is empty.
  pub in_scope_exact :
      (net : Net N R) (s : Scope N R) (url : List ℕ)
      → (in_scope net s url ≡ true) ↔ (
          (target : List ℕ × List ℕ) × (net.parse_url url ≡ some target)
          × Allows net s target.0 target.1)
  unfolding in_scope
  in_scope_exact net s url = (
    λ h. elim (Option-cases (net.parse_url url)) [
      | inl e ↦ let out : in_scope net s url ≡ false = rw (in_scope, e) refl in ground arith
      | inr (target, e) ↦
          (target, e, in_scope_at→Allows net s target.0 target.1 (sym (rw (in_scope, e) refl) ∙ h))
    ],
    λ (target, e, a). rw (in_scope, e) (Allows→in_scope_at net s target.0 target.1 a),
  )
