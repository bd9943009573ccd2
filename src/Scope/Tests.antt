-- ===== src/Scope/Tests.antt =====
-- Runs of internal/scope/scope.go at concrete inputs: a library of hosts without blocks, where a
-- path pattern matches the path that it spells.
use smart_buster.Prelude.{ℕ, true, false, none, some, List, [], ◌∷◌, ◌≡◌, refl, ◌↔◌}
use smart_buster.Scope.{
  Net, equal, Config, Scope, compile_patterns, compile_host, matches, new, in_scope,
}
use smart_buster.Scope.Rules.{in_scope_exact, Allows}

abbrev net : Net ℕ (List ℕ)
net = record {
  parse_cidr = λ h. none;
  contains = λ n host. false;
  compile = λ p. some p;
  match_string = λ re path. equal re path;
  parse_url = λ url. some (url, 47 ∷ []);
}

-- "x.a", and the pattern "*.a"
abbrev host : List ℕ
host = 120 ∷ 46 ∷ 97 ∷ []

abbrev wild : List ℕ
wild = 42 ∷ 46 ∷ 97 ∷ []

wild-host : matches net host (compile_host net wild) ≡ true
unfolding matches compile_host
wild-host = refl

-- "X.A"
abbrev loud : List ℕ
loud = 88 ∷ 46 ∷ 65 ∷ []

abbrev config : Config
config = record { allow_hosts = wild ∷ []; exclude_hosts = loud ∷ []; exclude_patterns = [] }

abbrev scope : Scope ℕ (List ℕ)
scope = record {
  allow_hosts = record { exact = []; wildcard = 46 ∷ 97 ∷ []; cidr = none } ∷ [];
  exclude_hosts = record { exact = host; wildcard = []; cidr = none } ∷ [];
  exclude_re = [];
}

new-config : new net config ≡ some scope
unfolding new compile_patterns compile_host
new-config = refl

-- "y.a" is allowed.
in_scope_exact_example : (in_scope net scope (121 ∷ 46 ∷ 97 ∷ []) ≡ true) ↔ (
    (target : List ℕ × List ℕ) × (net.parse_url (121 ∷ 46 ∷ 97 ∷ []) ≡ some target)
    × Allows net scope target.0 target.1)
in_scope_exact_example = in_scope_exact net scope (121 ∷ 46 ∷ 97 ∷ [])
