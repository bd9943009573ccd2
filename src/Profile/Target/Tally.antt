-- ===== src/Profile/Target/Tally.antt =====
-- The votes for a name, and the list of technologies as a map.
use smart_buster.Prelude.{
  ℕ, ◌+◌, Bool, true, false, ◌&&◌, ◌≡◌, ◌≢◌, refl, sym, ap, ◌∙◌, some, List, [], ◌∷◌, String,
  str_eq, eq_iff, arith, if◌then◌else◌, Bool-cases, inl, inr, count_if, apart,
}
use smart_buster.Profile.Target.{
  TechLayer, layer_backend, layer_edge, layer_unknown, Tech, LayerVotes, Vote, no_votes,
  count_layer, tech_of, store_tech,
}

pub total_count_layer :
    (l : TechLayer) (v : LayerVotes)
    → (count_layer l v).backend + (count_layer l v).edge + (count_layer l v).unknown
      ≡ v.backend + v.edge + v.unknown + 1
total_count_layer layer_backend v = omega arith
total_count_layer layer_edge v = omega arith
total_count_layer layer_unknown v = omega arith

abbrev pub plus : LayerVotes → LayerVotes → LayerVotes
plus a b = record {
  backend = a.backend + b.backend;
  edge = a.edge + b.edge;
  unknown = a.unknown + b.unknown;
}

abbrev pub votes_of : ℕ → ℕ → ℕ → LayerVotes
votes_of backend edge unknown = record { backend = backend; edge = edge; unknown = unknown }

pub votes_path :
    {b b' e e' u u' : ℕ} → b ≡ b' → e ≡ e' → u ≡ u' → votes_of b e u ≡ votes_of b' e' u'
votes_path h k l = rw (h, k, l) refl

pub refl_plus : (v : LayerVotes) → v ≡ plus v no_votes
refl_plus v = votes_path (omega arith) (omega arith) (omega arith)

pub unnamed : (a b : String) → str_eq a "" ≡ true → b ≢ "" → str_eq a b ≡ false
unnamed a b h k = elim (Bool-cases (str_eq a b)) [
  | inl u ↦ absurd (k (sym ((eq_iff a b).0 u) ∙ (eq_iff a "").0 h))
  | inr u ↦ u
]

abbrev pub is_layer : TechLayer → TechLayer → Bool
is_layer layer_backend layer_backend = true
is_layer layer_edge layer_edge = true
is_layer layer_unknown layer_unknown = true
is_layer _ _ = false

-- The votes of a tally with one more in front
abbrev pub one_more : TechLayer → LayerVotes → LayerVotes
one_more l v = record {
  backend = (if is_layer layer_backend l then 1 else 0) + v.backend;
  edge = (if is_layer layer_edge l then 1 else 0) + v.edge;
  unknown = (if is_layer layer_unknown l then 1 else 0) + v.unknown;
}

pub bump : (l : TechLayer) (a b : LayerVotes) → plus (count_layer l a) b ≡ plus a (one_more l b)
bump layer_backend a b = votes_path (omega arith) (omega arith) (omega arith)
bump layer_edge a b = votes_path (omega arith) (omega arith) (omega arith)
bump layer_unknown a b = votes_path (omega arith) (omega arith) (omega arith)

module _ {F : Type 0} where
  -- The votes for a name, by layer
  abbrev pub tally : String → List (Vote F) → LayerVotes
  tally name votes = record {
    backend = count_if (λ (v : Vote F). str_eq v.name name && is_layer layer_backend v.layer) votes;
    edge = count_if (λ (v : Vote F). str_eq v.name name && is_layer layer_edge v.layer) votes;
    unknown = count_if (λ (v : Vote F). str_eq v.name name && is_layer layer_unknown v.layer) votes;
  }

  pub tech_of-name :
      (name : String) (ts : List (Tech F)) (t : Tech F) → tech_of name ts ≡ some t → t.name ≡ name
  unfolding tech_of
  tech_of-name name [] t h = cc h
  tech_of-name name (x ∷ xs) t h = elim (Bool-cases (str_eq x.name name)) [
    | inl u ↦
        let here : some x ≡ some t = rw u at h in
        let same : x ≡ t = cc here in
        ap (λ (y : Tech F). y.name) (sym same) ∙ (eq_iff x.name name).0 u
    | inr u ↦ let there : tech_of name xs ≡ some t = rw u at h in tech_of-name name xs t there
  ]

  pub tech_of-store_tech :
      (name : String) (new : Tech F) (ts : List (Tech F))
      → tech_of name (store_tech new ts)
        ≡ (if str_eq new.name name then some new else tech_of name ts)
  unfolding tech_of store_tech
  tech_of-store_tech name new [] = refl
  tech_of-store_tech name new (t ∷ ts) = elim (Bool-cases (str_eq t.name new.name)) [
    | inl u ↦ rw (u, (eq_iff t.name new.name).0 u) (ground arith)
    | inr u ↦
        rw (u, tech_of-store_tech name new ts)
          (apart t.name new.name name (some t) (some new) (tech_of name ts) u)
  ]
