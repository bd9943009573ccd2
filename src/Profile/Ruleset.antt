-- ===== src/Profile/Ruleset.antt =====
-- The layered load of internal/profile/ruleset.go. What a read and json.Unmarshal give for a file is
-- data here; `ruleset update`, which runs git, is not modelled.
pub mod Layered
pub mod Stacked
use smart_buster.Prelude.{
  ℕ, Bool, true, false, Option, none, some, List, [], ◌∷◌, map, String, if◌then◌else◌,
}
use smart_buster.Profile.Merge.{merge_by_id, filter_out, normalize_category}

pub record HeaderRule (F : Type 0) : Type 0 where
  pub id : String
  pub header : String
  pub pattern : String
  pub tech : String
  pub category : String
  pub layer : String
  pub confidence : F

pub record CookieRule (F : Type 0) : Type 0 where
  pub id : String
  pub cookie : String
  pub tech : String
  pub category : String
  pub layer : String
  pub confidence : F

pub record HtmlRule (F : Type 0) : Type 0 where
  pub id : String
  pub pattern : String
  pub tech : String
  pub category : String
  pub layer : String
  pub confidence : F

pub record FaviconRule (F : Type 0) : Type 0 where
  pub id : String
  pub hash : String
  pub tech : String
  pub category : String
  pub confidence : F

pub record ErrorPageRule (F : Type 0) : Type 0 where
  pub id : String
  pub pattern : String
  pub status : ℕ
  pub tech : String
  pub category : String
  pub layer : String
  pub confidence : F

pub record ActiveProbeRule (F : Type 0) : Type 0 where
  pub id : String
  pub tech : String
  pub path : String
  pub confidence : F

pub record WafRule : Type 0 where
  pub id : String
  pub vendor : String
  pub header : String
  pub pattern : String
  pub cookie : String
  pub body_only : Bool

pub record Ruleset (F : Type 0) : Type 0 where
  pub headers : List (HeaderRule F)
  pub cookies : List (CookieRule F)
  pub html : List (HtmlRule F)
  pub favicons : List (FaviconRule F)
  pub error_pages : List (ErrorPageRule F)
  pub active_probes : List (ActiveProbeRule F)
  pub waf : List WafRule

-- A rule file: it is not there, cannot be read, cannot be decoded, or holds rules.
pub data File (R : Type 0) : Type 0 where
  absent unreadable malformed : File R
  holds : List R → File R

-- The files of one layer
pub record Layer (F : Type 0) : Type 0 where
  pub headers : File (HeaderRule F)
  pub cookies : File (CookieRule F)
  pub html : File (HtmlRule F)
  pub favicons : File (FaviconRule F)
  pub error_pages : File (ErrorPageRule F)
  pub active_probes : File (ActiveProbeRule F)
  pub waf : File WafRule

pub data FileError : Type 0 where
  read_error parse_error : String → FileError

pub data LoadError : Type 0 where
  embedded_ruleset system_ruleset user_overlay : FileError → LoadError

pub data Result (E A : Type 0) : Type 0 where
  failed : E → Result E A
  loaded : A → Result E A

module _ {E A B : Type 0} where
  abbrev pub and_then : Result E A → (A → Result E B) → Result E B
  and_then (failed e) g = failed e
  and_then (loaded a) g = g a

  abbrev pub wrap : (E → B) → Result E A → Result B A
  wrap w (failed e) = failed (w e)
  wrap w (loaded a) = loaded a

module _ {R : Type 0} where
  -- A layer that is not required may lack files, whatever the read's error is.
  unfoldable pub try_decode : Bool → String → File R → Result FileError (List R)
  try_decode required name absent = if required then failed (read_error name) else loaded []
  try_decode required name unreadable = if required then failed (read_error name) else loaded []
  try_decode required name malformed = failed (parse_error name)
  try_decode required name (holds rules) = loaded rules

module _ {F : Type 0} where
  unfoldable pub load_layer : Bool → Layer F → Ruleset F → Result FileError (Ruleset F)
  unfolding try_decode merge_by_id
  load_layer required layer rs =
      and_then (try_decode required "headers.json" layer.headers) (λ headers.
        and_then (try_decode required "cookies.json" layer.cookies) (λ cookies.
          and_then (try_decode required "html.json" layer.html) (λ html.
            and_then (try_decode required "favicons.json" layer.favicons) (λ favicons.
              and_then (try_decode required "errorpages.json" layer.error_pages) (λ error_pages.
                and_then (try_decode required "active_probes.json" layer.active_probes)
                  (λ active_probes. and_then (try_decode required "waf.json" layer.waf) (λ waf.
                    loaded (record {
                      headers = merge_by_id (λ (r : HeaderRule F). r.id) rs.headers headers;
                      cookies = merge_by_id (λ (r : CookieRule F). r.id) rs.cookies cookies;
                      html = merge_by_id (λ (r : HtmlRule F). r.id) rs.html html;
                      favicons = merge_by_id (λ (r : FaviconRule F). r.id) rs.favicons favicons;
                      error_pages =
                          merge_by_id (λ (r : ErrorPageRule F). r.id) rs.error_pages error_pages;
                      active_probes =
                          merge_by_id (λ (r : ActiveProbeRule F). r.id) rs.active_probes
                            active_probes;
                      waf = merge_by_id (λ (r : WafRule). r.id) rs.waf waf;
                    }))))))))

  -- `none` for a directory that is not set or does not exist
  abbrev pub load_layer_dir : Option (Layer F) → Ruleset F → Result FileError (Ruleset F)
  load_layer_dir none rs = loaded rs
  load_layer_dir (some layer) rs = load_layer false layer rs

  unfoldable pub apply_rules_off : Ruleset F → List String → Ruleset F
  unfolding filter_out normalize_category
  apply_rules_off rs [] = rs
  apply_rules_off rs (c ∷ cs) =
      let off = map normalize_category (c ∷ cs) in
      record rs {
        headers = filter_out (λ (r : HeaderRule F). r.category) off rs.headers;
        cookies = filter_out (λ (r : CookieRule F). r.category) off rs.cookies;
        html = filter_out (λ (r : HtmlRule F). r.category) off rs.html;
        favicons = filter_out (λ (r : FaviconRule F). r.category) off rs.favicons;
        error_pages = filter_out (λ (r : ErrorPageRule F). r.category) off rs.error_pages;
      }

  abbrev pub empty_ruleset : Ruleset F
  empty_ruleset = record {
    headers = [];
    cookies = [];
    html = [];
    favicons = [];
    error_pages = [];
    active_probes = [];
    waf = [];
  }

  unfoldable pub load :
      Layer F → Option (Layer F) → Option (Layer F) → List String → Result LoadError (Ruleset F)
  unfolding load_layer apply_rules_off
  load embedded system user rules_off =
      and_then (wrap embedded_ruleset (load_layer true embedded empty_ruleset)) (λ base.
        and_then (wrap system_ruleset (load_layer_dir system base)) (λ with_system.
          and_then (wrap user_overlay (load_layer_dir user with_system))
            (λ rs. loaded (apply_rules_off rs rules_off))))
