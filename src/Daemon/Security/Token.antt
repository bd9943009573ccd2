-- ===== src/Daemon/Security/Token.antt =====
-- Which requests carry the token.
use Prim.Native.Char.{code}
use text.Mathlib.TextEquality.{Char-path}
use smart_buster.Prelude.{
  Bool, true, false, ◌≡◌, ◌↔◌, refl, sym, ap, ◌∙◌, Option, none, some, String, str_eq, eq_iff,
  arith, Bool-cases, inl, inr, Option-cases, ◌==◌, ==_iff,
}
use smart_buster.Prelude.Text.{append, has_prefix, cut_prefix, trim_prefix}
use smart_buster.Daemon.Security.{Security, Headers, check_token}

abbrev is_some : Option String → Bool
is_some none = false
is_some (some s) = true

has_prefix_cut : (s p : String) → has_prefix s p ≡ is_some (cut_prefix s p)
unfolding has_prefix cut_prefix
has_prefix_cut String.[] String.[] = refl
has_prefix_cut (String.◌∷◌ c s) String.[] = refl
has_prefix_cut String.[] (String.◌∷◌ d p) = refl
has_prefix_cut (String.◌∷◌ c s) (String.◌∷◌ d p) = ground (arith, has_prefix_cut s p)

cut_prefix-append : (p r : String) → cut_prefix (append p r) p ≡ some r
unfolding cut_prefix append
cut_prefix-append String.[] r = refl
cut_prefix-append (String.◌∷◌ c p) r =
    rw ((==_iff (code c) (code c)).1 refl) (cut_prefix-append p r)

append-cut_prefix : (s p r : String) → cut_prefix s p ≡ some r → s ≡ append p r
unfolding cut_prefix append
append-cut_prefix String.[] String.[] r h = cc h
append-cut_prefix (String.◌∷◌ c s) String.[] r h = cc h
append-cut_prefix String.[] (String.◌∷◌ d p) r h = cc h
append-cut_prefix (String.◌∷◌ c s) (String.◌∷◌ d p) r h = elim (Bool-cases (code c == code d)) [
  | inl u ↦
      let rest : cut_prefix s p ≡ some r = rw u at h in
      rw (Char-path c d ((==_iff (code c) (code d)).0 u), sym (append-cut_prefix s p r rest)) refl
  | inr u ↦ let no : none ≡ some r = rw u at h in cc no
]

abbrev accepts : Option String → String → Bool
accepts none token = false
accepts (some got) token = str_eq got token

trim_prefix-cut : (s p got : String) → cut_prefix s p ≡ some got → trim_prefix s p ≡ got
unfolding trim_prefix
trim_prefix-cut s p got e = rw (trim_prefix, e) refl

check_token-accepts :
    (sec : Security) (r : Headers)
    → check_token sec r ≡ accepts (cut_prefix r.authorization "Bearer ") sec.token
unfolding check_token
check_token-accepts sec r =
    rw (has_prefix_cut r.authorization "Bearer ")
      (elim (Option-cases (cut_prefix r.authorization "Bearer ")) [
        | inl e ↦ rw e refl
        | inr (got, e) ↦ rw (e, trim_prefix-cut r.authorization "Bearer " got e) refl
      ])

-- A request passes the bearer check exactly if its Authorization header is "Bearer " and the token.
pub check_token_exact :
    (sec : Security) (r : Headers)
    → (check_token sec r ≡ true) ↔ (r.authorization ≡ append "Bearer " sec.token)
check_token_exact sec r = (
  λ h. elim (Option-cases (cut_prefix r.authorization "Bearer ")) [
    | inl e ↦ let no : false ≡ true = rw e at (sym (check_token-accepts sec r) ∙ h) in cc no
    | inr (got, e) ↦
        let same : str_eq got sec.token ≡ true = rw e at (sym (check_token-accepts sec r) ∙ h) in
        append-cut_prefix r.authorization "Bearer " got e
        ∙ ap (append "Bearer ") ((eq_iff got sec.token).0 same)
  ],
  λ h.
      check_token-accepts sec r
      ∙ ap (λ a. accepts (cut_prefix a "Bearer ") sec.token) h
      ∙ ap (λ o. accepts o sec.token) (cut_prefix-append "Bearer " sec.token)
      ∙ (eq_iff sec.token sec.token).1 refl,
)
