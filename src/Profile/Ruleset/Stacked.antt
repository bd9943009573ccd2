-- ===== src/Profile/Ruleset/Stacked.antt =====
-- What a load of three layers in internal/profile/ruleset.go holds.
use smart_buster.Prelude.{
  Bool, true, false, ◌≡◌, ◌≢◌, refl, sym, ap, ◌∙◌, Option, none, some, List, [], String, arith,
}
use smart_buster.Profile.Merge.{merge_by_id}
use smart_buster.Profile.Merge.Places.{or_else, last_rule}
use smart_buster.Profile.Merge.Merged.{merge_by_id-IsMerged}
use smart_buster.Profile.Ruleset.{
  FileError, File, absent, unreadable, malformed, holds, Layer, Ruleset, Result, failed, loaded,
  and_then, wrap, try_decode, load_layer, load_layer_dir, apply_rules_off, empty_ruleset, load,
  HeaderRule, CookieRule, HtmlRule, FaviconRule, ErrorPageRule, ActiveProbeRule, WafRule,
}
use smart_buster.Profile.Ruleset.Layered.{rules_of}

module _ {E A : Type 0} where
  loaded_inj : {a b : A} → ◌≡◌ {A = Result E A} (loaded a) (loaded b) → a ≡ b
  loaded_inj h = cc h

module _ {R A : Type 0} where
  decoded_value :
      (required : Bool) (name : String) (file : File R) (g : List R → Result FileError A) {out : A}
      → and_then (try_decode required name file) g ≡ loaded out
      → g (rules_of file) ≡ loaded out
  unfolding try_decode rules_of
  decoded_value true name absent g h = cc h
  decoded_value false name absent g h = h
  decoded_value true name unreadable g h = cc h
  decoded_value false name unreadable g h = h
  decoded_value required name malformed g h = cc h
  decoded_value required name (holds rules) g h = h

module _ {F : Type 0} where
  -- The ruleset after a layer all of whose files are fine
  abbrev pub merged_layer : Layer F → Ruleset F → Ruleset F
  merged_layer layer rs = record {
    headers = merge_by_id (λ (r : HeaderRule F). r.id) rs.headers (rules_of layer.headers);
    cookies = merge_by_id (λ (r : CookieRule F). r.id) rs.cookies (rules_of layer.cookies);
    html = merge_by_id (λ (r : HtmlRule F). r.id) rs.html (rules_of layer.html);
    favicons = merge_by_id (λ (r : FaviconRule F). r.id) rs.favicons (rules_of layer.favicons);
    error_pages =
        merge_by_id (λ (r : ErrorPageRule F). r.id) rs.error_pages (rules_of layer.error_pages);
    active_probes =
        merge_by_id (λ (r : ActiveProbeRule F). r.id) rs.active_probes
          (rules_of layer.active_probes);
    waf = merge_by_id (λ (r : WafRule). r.id) rs.waf (rules_of layer.waf);
  }

  load_layer-merges :
      (required : Bool) (layer : Layer F) (rs out : Ruleset F)
      → load_layer required layer rs ≡ loaded out
      → merged_layer layer rs ≡ out
  unfolding load_layer
  load_layer-merges required layer rs out h = loaded_inj (
      decoded_value required _ layer.waf _ (
        decoded_value required _ layer.active_probes _ (
          decoded_value required _ layer.error_pages _ (
            decoded_value required _ layer.favicons _ (
              decoded_value required _ layer.html _ (
                decoded_value required _ layer.cookies _
                  (decoded_value required _ layer.headers _ h)))))))

-- One of the seven categories: its file, its rules, and that each layer is merged into it
pub record Category (F R : Type 0) : Type 1 where
  pub id : R → String
  pub file : Layer F → File R
  pub rules : Ruleset F → List R
  pub is_empty : rules empty_ruleset ≡ []
  pub is_merged :
      (layer : Layer F) (rs : Ruleset F)
      → rules (merged_layer layer rs) ≡ merge_by_id id (rules rs) (rules_of (file layer))

module _ {F : Type 0} where
  abbrev pub headers_category : Category F (HeaderRule F)
  headers_category = record {
    id = λ r. r.id;
    file = λ layer. layer.headers;
    rules = λ rs. rs.headers;
    is_empty = refl;
    is_merged = λ layer rs. refl;
  }

  abbrev pub cookies_category : Category F (CookieRule F)
  cookies_category = record {
    id = λ r. r.id;
    file = λ layer. layer.cookies;
    rules = λ rs. rs.cookies;
    is_empty = refl;
    is_merged = λ layer rs. refl;
  }

  abbrev pub html_category : Category F (HtmlRule F)
  html_category = record {
    id = λ r. r.id;
    file = λ layer. layer.html;
    rules = λ rs. rs.html;
    is_empty = refl;
    is_merged = λ layer rs. refl;
  }

  abbrev pub favicons_category : Category F (FaviconRule F)
  favicons_category = record {
    id = λ r. r.id;
    file = λ layer. layer.favicons;
    rules = λ rs. rs.favicons;
    is_empty = refl;
    is_merged = λ layer rs. refl;
  }

  abbrev pub error_pages_category : Category F (ErrorPageRule F)
  error_pages_category = record {
    id = λ r. r.id;
    file = λ layer. layer.error_pages;
    rules = λ rs. rs.error_pages;
    is_empty = refl;
    is_merged = λ layer rs. refl;
  }

  abbrev pub active_probes_category : Category F (ActiveProbeRule F)
  active_probes_category = record {
    id = λ r. r.id;
    file = λ layer. layer.active_probes;
    rules = λ rs. rs.active_probes;
    is_empty = refl;
    is_merged = λ layer rs. refl;
  }

  abbrev pub waf_category : Category F WafRule
  waf_category = record {
    id = λ r. r.id;
    file = λ layer. layer.waf;
    rules = λ rs. rs.waf;
    is_empty = refl;
    is_merged = λ layer rs. refl;
  }

module _ {E E' A B : Type 0} where
  chained_value :
      (w : E → E') (x : Result E A) (g : A → Result E' B) {out : B}
      → and_then (wrap w x) g ≡ loaded out
      → (a : A) × (x ≡ loaded a) × (g a ≡ loaded out)
  chained_value w (failed e) g h = cc h
  chained_value w (loaded a) g h = (a, refl, h)

module _ {F R : Type 0} (c : Category F R) where
  abbrev pub dir_rules : Option (Layer F) → List R
  dir_rules none = []
  dir_rules (some layer) = rules_of (c.file layer)

  load_layer-last :
      (required : Bool) (layer : Layer F) (rs out : Ruleset F) (k : String)
      → k ≢ ""
      → load_layer required layer rs ≡ loaded out
      → last_rule c.id k (c.rules out)
        ≡ or_else (last_rule c.id k (rules_of (c.file layer))) (last_rule c.id k (c.rules rs))
  load_layer-last required layer rs out k named h =
      ap (λ (x : Ruleset F). last_rule c.id k (c.rules x))
        (sym (load_layer-merges required layer rs out h))
      ∙ ap (last_rule c.id k) (c.is_merged layer rs)
      ∙ (merge_by_id-IsMerged c.id (c.rules rs) (rules_of (c.file layer)) k named).0

  load_layer_dir-last :
      (dir : Option (Layer F)) (rs out : Ruleset F) (k : String)
      → k ≢ ""
      → load_layer_dir dir rs ≡ loaded out
      → last_rule c.id k (c.rules out)
        ≡ or_else (last_rule c.id k (dir_rules dir)) (last_rule c.id k (c.rules rs))
  unfolding last_rule
  load_layer_dir-last none rs out k named h =
      ap (λ (x : Ruleset F). last_rule c.id k (c.rules x)) (sym (loaded_inj h))
  load_layer_dir-last (some layer) rs out k named h = load_layer-last false layer rs out k named h

  -- In each category, the rule that a load gives a name is that of the user's layer, or else that
  -- of the system's, or else that of the embedded one. The name is not empty, the load succeeds,
  -- and no category is turned off.
  pub load_layered :
      (embedded : Layer F) (system user : Option (Layer F)) (out : Ruleset F) (k : String)
      → k ≢ ""
      → load embedded system user [] ≡ loaded out
      → last_rule c.id k (c.rules out)
        ≡ or_else (last_rule c.id k (dir_rules user)) (
            or_else
              (last_rule c.id k (dir_rules system))
              (last_rule c.id k (rules_of (c.file embedded))))
  unfolding load apply_rules_off last_rule
  load_layered embedded system user out k named h =
      let (base, hb, h1) = chained_value _ _ _ h in
      let (with_system, hs, h2) = chained_value _ _ _ h1 in
      let (all, hu, h3) = chained_value _ _ _ h2 in
      let at_user = load_layer_dir-last user with_system all k named hu in
      let at_system = load_layer_dir-last system base with_system k named hs in
      let at_base = load_layer-last true embedded empty_ruleset base k named hb in
      let nothing : last_rule c.id k (c.rules empty_ruleset) ≡ none = rw c.is_empty refl in
      ap (λ (x : Ruleset F). last_rule c.id k (c.rules x)) (sym (loaded_inj h3))
      ∙ ground (arith, at_user, at_system, at_base, nothing)
