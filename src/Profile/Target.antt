-- ===== src/Profile/Target.antt =====
-- internal/profile/types.go: the profile of a target, its votes and what is read from them. The map
-- Tech is a list of its entries in the order in which Go goes through it, and strings.ToLower is an
-- argument; strings.EqualFold of ASCII texts is equality under it. The services, the virtual hosts,
-- the WAF and the SPA flag play no part in a vote and are left out.
pub mod Tally
pub mod Voted
pub mod Stack
use smart_buster.Prelude.{
  ℕ, ◌+◌, Bool, true, false, ◌||◌, Option, none, some, List, [], ◌∷◌, ◌++◌, String, str_eq, ltb,
  if◌then◌else◌,
}
use smart_buster.Prelude.Float.{Float}
use smart_buster.Prelude.Text.{has_substring, has_prefix}
use smart_buster.Seed.Provenance.{is_member}

pub data TechLayer : Type 0 where
  layer_backend layer_edge layer_unknown : TechLayer

pub data Source : Type 0 where
  src_header src_cookie src_html src_favicon src_error_page src_wappalyzer : Source
  src_active_probe src_nmap : Source

pub record Tech (F : Type 0) : Type 0 where
  pub name : String
  pub category : String
  pub version : String
  pub confidence : F
  pub layer : TechLayer
  pub sources : List Source
  pub rule_ids : List String

-- The [3]int of layerVotes
pub record LayerVotes : Type 0 where
  pub backend : ℕ
  pub edge : ℕ
  pub unknown : ℕ

pub record TargetProfile (F : Type 0) : Type 0 where
  pub host : String
  pub tech : List (Tech F)
  pub layer_votes : String → LayerVotes

-- The arguments of one call of vote
pub record Vote (F : Type 0) : Type 0 where
  pub name : String
  pub category : String
  pub layer : TechLayer
  pub source : Source
  pub confidence : F
  pub version : String
  pub rule_id : String

abbrev pub no_votes : LayerVotes
no_votes = record { backend = 0; edge = 0; unknown = 0 }

-- votes[layer]++
abbrev pub count_layer : TechLayer → LayerVotes → LayerVotes
count_layer layer_backend v = record v { backend = v.backend + 1 }
count_layer layer_edge v = record v { edge = v.edge + 1 }
count_layer layer_unknown v = record v { unknown = v.unknown + 1 }

unfoldable pub majority_layer : LayerVotes → TechLayer
majority_layer v =
    if ltb v.edge v.backend
    then layer_backend
    else if ltb v.backend v.edge
    then layer_edge
    else layer_unknown

module _ {F : Type 0} where
  unfoldable pub new_target_profile : String → TargetProfile F
  new_target_profile host = record { host = host; tech = []; layer_votes = λ name. no_votes }

  unfoldable pub tech_of : String → List (Tech F) → Option (Tech F)
  tech_of name [] = none
  tech_of name (t ∷ ts) = let rest = tech_of name ts in if str_eq t.name name then some t else rest

  -- `p.Tech[name] = t`
  unfoldable pub store_tech : Tech F → List (Tech F) → List (Tech F)
  store_tech new [] = new ∷ []
  store_tech new (t ∷ ts) =
      let rest = store_tech new ts in if str_eq t.name new.name then new ∷ ts else t ∷ rest

module _ {F : Type 0} ⦃f : Float F⦄ where
  abbrev pub fresh_tech : Vote F → Tech F
  fresh_tech v = record {
    name = v.name;
    category = v.category;
    version = "";
    confidence = f.lit 0 1;
    layer = layer_unknown;
    sources = [];
    rule_ids = [];
  }

  abbrev pub tech_or_fresh : Option (Tech F) → Vote F → Tech F
  tech_or_fresh none v = fresh_tech v
  tech_or_fresh (some t) v = t

  -- Noisy-OR, and at most 0.99
  abbrev pub fuse : F → F → F
  fuse old new =
      let fused = f.sub (f.lit 1 1) (f.mul (f.sub (f.lit 1 1) old) (f.sub (f.lit 1 1) new)) in
      if f.lt (f.lit 99 100) fused then f.lit 99 100 else fused

  unfoldable pub voted_tech : Vote F → LayerVotes → Tech F → Tech F
  unfolding majority_layer
  voted_tech v votes t = record t {
    category = if str_eq t.category "" then v.category else t.category;
    version =
        if str_eq v.version ""
        then t.version
        else if str_eq t.version ""
        then v.version
        else t.version;
    confidence = fuse t.confidence v.confidence;
    sources = t.sources ++ v.source ∷ [];
    rule_ids = if str_eq v.rule_id "" then t.rule_ids else t.rule_ids ++ v.rule_id ∷ [];
    layer = majority_layer votes;
  }

  unfoldable pub vote : Vote F → TargetProfile F → TargetProfile F
  unfolding voted_tech tech_of store_tech
  vote v p =
      let votes = count_layer v.layer (p.layer_votes v.name) in
      let t = tech_or_fresh (tech_of v.name p.tech) v in
      if str_eq v.name "" then p else record p {
        tech = store_tech (voted_tech v votes t) p.tech;
        layer_votes = λ name. (if str_eq v.name name then votes else p.layer_votes name);
      }

  abbrev pub best_of : F → F → F
  best_of best confidence = if f.lt best confidence then confidence else best

  unfoldable pub best_match : (String → String) → String → List (Tech F) → F → F
  best_match to_lower tag [] best = best
  best_match to_lower tag (t ∷ ts) best = best_match to_lower tag ts (
      if str_eq (to_lower t.name) (to_lower tag) || str_eq (to_lower t.category) (to_lower tag)
      then best_of best t.confidence
      else best)

  unfoldable pub match_score_from : (String → String) → List String → List (Tech F) → F → F
  unfolding best_match
  match_score_from to_lower [] ts best = best
  match_score_from to_lower (tag ∷ tags) ts best =
      match_score_from to_lower tags ts (best_match to_lower tag ts best)

  unfoldable pub match_score : (String → String) → List String → TargetProfile F → F
  unfolding match_score_from
  match_score to_lower tags p = match_score_from to_lower tags p.tech (f.lit 0 1)

-- A keyword and the extensions that it implies
abbrev pub stack_extensions : List (String × List String)
stack_extensions =
    ("php", ".php" ∷ ".phtml" ∷ ".php5" ∷ [])
    ∷ ("asp.net", ".aspx" ∷ ".asmx" ∷ ".ashx" ∷ ".asp" ∷ [])
    ∷ ("iis", ".aspx" ∷ ".asmx" ∷ ".ashx" ∷ ".asp" ∷ [])
    ∷ ("java", ".jsp" ∷ ".do" ∷ ".action" ∷ [])
    ∷ ("tomcat", ".jsp" ∷ ".do" ∷ ".action" ∷ [])
    ∷ []

abbrev pub generic_extensions : List String
generic_extensions = "" ∷ ".html" ∷ ".txt" ∷ ".json" ∷ []

abbrev pub backup_extensions : List String
backup_extensions = ".bak" ∷ ".old" ∷ ".zip" ∷ ".tar.gz" ∷ ".swp" ∷ ".~" ∷ []

-- The closure `add`, whose `seen` is the list that it grows
unfoldable pub add_exts : List String → List String → List String
unfolding is_member
add_exts [] exts = exts
add_exts (e ∷ es) exts = add_exts es (if is_member e exts then exts else exts ++ e ∷ [])

unfoldable pub add_stack : String → List (String × List String) → List String → List String
unfolding add_exts has_substring has_prefix
add_stack name [] exts = exts
add_stack name (se ∷ rest) exts =
    add_stack name rest (if has_substring name se.0 then add_exts se.1 exts else exts)

abbrev pub is_edge : TechLayer → Bool
is_edge layer_edge = true
is_edge _ = false

module _ {F : Type 0} where
  unfoldable pub add_techs : (String → String) → List (Tech F) → List String → List String
  unfolding add_stack
  add_techs to_lower [] exts = exts
  add_techs to_lower (t ∷ ts) exts =
      add_techs to_lower ts
        (if is_edge t.layer then exts else add_stack (to_lower t.name) stack_extensions exts)

  unfoldable pub extensions_for_stack : (String → String) → TargetProfile F → List String
  unfolding add_techs add_exts
  extensions_for_stack to_lower p =
      add_exts backup_extensions (add_exts generic_extensions (add_techs to_lower p.tech []))
