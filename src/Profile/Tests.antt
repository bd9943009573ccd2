-- ===== src/Profile/Tests.antt =====
-- Rules of a base and an overlay, and a load of three layers.
use smart_buster.Prelude.{
  ℕ, ◌+◌, ◌||◌, false, max, min, true, ◌≡◌, ◌≢◌, refl, none, some, List, [], ◌∷◌, ◌++◌, map, String,
  str_eq, eq_iff,
}
use smart_buster.Profile.Merge.{merge_by_id, merge_overlay, merge_rule, index_from, filter_out}
use smart_buster.Profile.Merge.Places.{or_else, times, last_rule}
use smart_buster.Profile.Merge.Merged.{merge_by_id-IsMerged}
use smart_buster.Profile.Ruleset.{
  CookieRule, Layer, Ruleset, absent, unreadable, holds, loaded, load, load_layer, try_decode,
  apply_rules_off, empty_ruleset,
}
use smart_buster.Prelude.Float.{hundredths, hundredths-IsOrdered}
use smart_buster.Prelude.Text.{has_substring, has_prefix}
use smart_buster.Seed.Provenance.{is_member}
use smart_buster.Seed.Provenance.Union.{is_nodup}
use smart_buster.Profile.Target.{
  layer_backend, src_header, src_cookie, Tech, TargetProfile, Vote, new_target_profile,
  majority_layer, tech_of, store_tech, voted_tech, vote, generic_extensions, backup_extensions,
  add_exts, add_stack, add_techs, extensions_for_stack,
}
use smart_buster.Profile.Target.Tally.{tally}
use smart_buster.Profile.Target.Voted.{IsMajority, cast, cast_exact}
use smart_buster.Profile.Target.Stack.{wanted, extensions_for_stack_exact}
use smart_buster.Profile.Ruleset.Layered.{is_fine, is_fine_layer, is_loaded, rules_of, load_loads}
use smart_buster.Profile.Ruleset.Stacked.{cookies_category, load_layered}

abbrev rule : String → String → CookieRule ℕ
rule id tech = record {
  id = id;
  cookie = id;
  tech = tech;
  category = "CMS";
  layer = "cms";
  confidence = 80;
}

abbrev base : List (CookieRule ℕ)
base = rule "wp" "wordpress" ∷ rule "dr" "drupal" ∷ []

abbrev overlay : List (CookieRule ℕ)
overlay = rule "php" "php" ∷ rule "wp" "wordpress 6" ∷ []

abbrev name : CookieRule ℕ → String
name r = r.id

wp_is_named : ◌≢◌ {A = String} "wp" ""
wp_is_named h = let equal : str_eq "wp" "" ≡ true = (eq_iff "wp" "").1 h in cc equal

merged_lem :
    merge_by_id name base overlay
    ≡ rule "wp" "wordpress 6" ∷ rule "dr" "drupal" ∷ rule "php" "php" ∷ []
unfolding merge_by_id merge_overlay merge_rule index_from
merged_lem = refl

merge_by_id-IsMerged_example :
    (last_rule name "wp" (merge_by_id name base overlay)
      ≡ or_else (last_rule name "wp" overlay) (last_rule name "wp" base))
    × (times "wp" (map name (merge_by_id name base overlay))
        ≡ max (times "wp" (map name base)) (min 1 (times "wp" (map name overlay))))
    × ((extra : List String) × (map name (merge_by_id name base overlay) ≡ map name base ++ extra))
merge_by_id-IsMerged_example = merge_by_id-IsMerged name base overlay "wp" wp_is_named

abbrev layer_of : List (CookieRule ℕ) → Layer ℕ
layer_of rules = record {
  headers = holds [];
  cookies = holds rules;
  html = holds [];
  favicons = holds [];
  error_pages = holds [];
  active_probes = holds [];
  waf = holds [];
}

-- An overlay one of whose files may not be read
abbrev locked : Layer ℕ
locked = record (layer_of overlay) { cookies = unreadable; html = absent }

load_loads_example :
    is_loaded (load (layer_of base) (some (layer_of overlay)) (some locked) []) ≡ true
unfolding is_fine is_fine_layer
load_loads_example = load_loads (layer_of base) (some (layer_of overlay)) (some locked) []

abbrev all : Ruleset ℕ
all = record empty_ruleset {
  cookies = rule "wp" "wordpress 6" ∷ rule "dr" "drupal" ∷ rule "php" "php" ∷ [];
}

load_lem : load (layer_of base) (some locked) (some (layer_of overlay)) [] ≡ loaded all
unfolding load load_layer try_decode merge_by_id merge_overlay merge_rule index_from apply_rules_off
load_lem = refl

load_layered_example :
    last_rule name "wp" all.cookies
    ≡ or_else (last_rule name "wp" overlay) (or_else none (last_rule name "wp" base))
unfolding rules_of last_rule
load_layered_example =
    load_layered cookies_category (layer_of base) (some locked) (some (layer_of overlay)) all "wp"
      wp_is_named load_lem

-- Letters are folded.
cms_off : filter_out (λ (r : CookieRule ℕ). r.category) ((b'c' ∷ b'm' ∷ b's' ∷ []) ∷ []) base ≡ []
unfolding filter_out
cms_off = refl

abbrev ballots : List (Vote ℕ)
ballots =
    record {
      name = "php";
      category = "language";
      layer = layer_backend;
      source = src_header;
      confidence = 80;
      version = "8.2";
      rule_id = "h1";
    }
    ∷ record {
      name = "php";
      category = "language";
      layer = layer_backend;
      source = src_cookie;
      confidence = 90;
      version = "";
      rule_id = "c1";
    }
    ∷ []

abbrev php : Tech ℕ
php = record {
  name = "php";
  category = "language";
  version = "8.2";
  confidence = 98;
  layer = layer_backend;
  sources = src_header ∷ src_cookie ∷ [];
  rule_ids = "h1" ∷ "c1" ∷ [];
}

php_lem : tech_of "php" (cast ballots (new_target_profile "h")).tech ≡ some php
unfolding cast vote new_target_profile tech_of store_tech voted_tech majority_layer
php_lem = refl

php_is_named : ◌≢◌ {A = String} "php" ""
php_is_named h = let equal : str_eq "php" "" ≡ true = (eq_iff "php" "").1 h in cc equal

cast_exact_example :
    IsMajority (tally "php" ballots) layer_backend
    × (hundredths.lt 99 98 ≡ false)
    × (2
        ≡ (tally "php" ballots).backend
          + (tally "php" ballots).edge
          + (tally "php" ballots).unknown)
cast_exact_example = cast_exact "h" ballots "php" php php_is_named php_lem

abbrev target : TargetProfile ℕ
target = cast ballots (new_target_profile "h")

abbrev same : String → String
same s = s

extensions_for_stack_exact_example :
    (is_nodup (extensions_for_stack same target) ≡ true)
    × (is_member ".php" (extensions_for_stack same target) ≡ (
        (wanted same ".php" target.tech || is_member ".php" generic_extensions)
        || is_member ".php" backup_extensions))
extensions_for_stack_exact_example = extensions_for_stack_exact same target ".php"

php_is_asked_for : is_member ".php" (extensions_for_stack same target) ≡ true
unfolding cast vote new_target_profile tech_of store_tech voted_tech majority_layer is_member
    extensions_for_stack add_techs add_stack add_exts has_substring has_prefix
php_is_asked_for = refl
