-- ===== src/Scope.antt =====
-- internal/scope/scope.go: the hosts and the paths that a scan may request.
-- A host is a list of its bytes in ASCII, where strings.ToLower and strings.EqualFold read nothing
-- else. The parse of URLs, addresses and blocks, and the regular expressions, are arguments.
mod Rules
mod Tests
use smart_buster.Prelude.{
  ℕ, ◌+◌, ◌-◌, Bool, true, false, not, ◌&&◌, Option, none, some, List, [], ◌∷◌, map, leb, ◌==◌,
  if◌then◌else◌, length, take, drop, any_of,
}

-- `contains` is false where net.ParseIP refuses the host; `parse_url` gives the host name and the
-- path.
pub record Net (N R : Type 0) : Type 0 where
  pub parse_cidr : List ℕ → Option N
  pub contains : N → List ℕ → Bool
  pub compile : List ℕ → Option R
  pub match_string : R → List ℕ → Bool
  pub parse_url : List ℕ → Option (List ℕ × List ℕ)

abbrev pub lower : ℕ → ℕ
lower b = if leb 65 b && leb b 90 then b + 32 else b

abbrev pub to_lower : List ℕ → List ℕ
to_lower s = map lower s

abbrev pub equal : List ℕ → List ℕ → Bool
equal [] [] = true
equal [] (b ∷ ys) = false
equal (a ∷ xs) [] = false
equal (a ∷ xs) (b ∷ ys) = (a == b) && equal xs ys

abbrev pub equal_fold : List ℕ → List ℕ → Bool
equal_fold a b = equal (to_lower a) (to_lower b)

abbrev pub has_prefix : List ℕ → List ℕ → Bool
has_prefix s prefix = equal (take (length prefix) s) prefix

abbrev pub has_suffix : List ℕ → List ℕ → Bool
has_suffix s suffix =
    leb (length suffix) (length s) && equal (drop (length s - length suffix) s) suffix

abbrev pub is_empty : List ℕ → Bool
is_empty [] = true
is_empty (b ∷ ys) = false

pub record Config : Type 0 where
  pub allow_hosts : List (List ℕ)
  pub exclude_hosts : List (List ℕ)
  pub exclude_patterns : List (List ℕ)

pub record HostMatcher (N : Type 0) : Type 0 where
  pub exact : List ℕ
  pub wildcard : List ℕ
  pub cidr : Option N

pub record Scope (N R : Type 0) : Type 0 where
  pub allow_hosts : List (HostMatcher N)
  pub exclude_hosts : List (HostMatcher N)
  pub exclude_re : List R

-- "*."
abbrev pub star_dot : List ℕ
star_dot = 42 ∷ 46 ∷ []

module _ {N R : Type 0} where
  unfoldable pub compile_host : Net N R → List ℕ → HostMatcher N
  compile_host net h = elim (net.parse_cidr h) [
    | some n ↦ record { exact = []; wildcard = []; cidr = some n }
    | none ↦
        if has_prefix h star_dot
        then record { exact = []; wildcard = drop 1 h; cidr = none }
        else record { exact = to_lower h; wildcard = []; cidr = none }
  ]

  abbrev pub compile_hosts : Net N R → List (List ℕ) → List (HostMatcher N)
  compile_hosts net hosts = map (compile_host net) hosts

  unfoldable pub compile_patterns : Net N R → List (List ℕ) → Option (List R)
  compile_patterns net [] = some []
  compile_patterns net (p ∷ patterns) =
      let rest = compile_patterns net patterns in
      elim (net.compile p) [
        | none ↦ none
        | some re ↦ elim rest [ none ↦ none | some res ↦ some (re ∷ res) ]
      ]

  unfoldable pub new : Net N R → Config → Option (Scope N R)
  new net cfg = elim (compile_patterns net cfg.exclude_patterns) [
    | none ↦ none
    | some res ↦ some (record {
      allow_hosts = compile_hosts net cfg.allow_hosts;
      exclude_hosts = compile_hosts net cfg.exclude_hosts;
      exclude_re = res;
    })
  ]

  unfoldable pub matches : Net N R → List ℕ → HostMatcher N → Bool
  matches net host m = elim m.cidr [
    | some n ↦ net.contains n host
    | none ↦
        if not (is_empty m.wildcard)
        then has_suffix (to_lower host) m.wildcard
        else equal_fold host m.exact
  ]

  unfoldable pub in_scope_at : Net N R → Scope N R → List ℕ → List ℕ → Bool
  in_scope_at net s host path =
      if any_of (matches net host) s.exclude_hosts
      then false
      else if any_of (λ re. net.match_string re path) s.exclude_re
      then false
      else if length s.allow_hosts == 0
      then true
      else any_of (matches net host) s.allow_hosts

  unfoldable pub in_scope : Net N R → Scope N R → List ℕ → Bool
  unfolding in_scope_at
  in_scope net s url = elim (net.parse_url url) [
    | none ↦ false
    | some (host, path) ↦ in_scope_at net s host path
  ]
