-- ===== src/Profile/Ruleset/Layered.antt =====
-- When a load succeeds, and what it then holds.
use smart_buster.Prelude.{
  Bool, true, false, not, ◌&&◌, ◌≡◌, refl, ap, ◌∙◌, Option, none, some, List, [], String, arith,
}
use smart_buster.Profile.Ruleset.{
  FileError, File, absent, unreadable, malformed, holds, Layer, Ruleset, Result, failed, loaded,
  and_then, wrap, try_decode, load_layer, load_layer_dir, empty_ruleset, load,
}

module _ {E A : Type 0} where
  abbrev pub is_loaded : Result E A → Bool
  is_loaded (failed e) = false
  is_loaded (loaded a) = true

module _ {R : Type 0} where
  -- A required file must be read; any file that is read must be rules.
  unfoldable pub is_fine : Bool → File R → Bool
  is_fine required absent = not required
  is_fine required unreadable = not required
  is_fine required malformed = false
  is_fine required (holds rules) = true

  unfoldable pub rules_of : File R → List R
  rules_of absent = []
  rules_of unreadable = []
  rules_of malformed = []
  rules_of (holds rules) = rules

module _ {R A : Type 0} where
  decoded :
      (required : Bool) (name : String) (file : File R) (g : List R → Result FileError A)
      → is_loaded (and_then (try_decode required name file) g)
        ≡ (is_fine required file && is_loaded (g (rules_of file)))
  unfolding try_decode is_fine rules_of
  decoded true name absent g = refl
  decoded false name absent g = refl
  decoded true name unreadable g = refl
  decoded false name unreadable g = refl
  decoded required name malformed g = refl
  decoded required name (holds rules) g = refl

and_true : (b : Bool) → (b && true) ≡ b
and_true b = ground arith

module _ {E E' A B : Type 0} where
  chained :
      (w : E → E') (x : Result E A) (g : A → Result E' B) {c b : Bool}
      → is_loaded x ≡ c
      → ((a : A) → is_loaded (g a) ≡ b)
      → is_loaded (and_then (wrap w x) g) ≡ (c && b)
  chained w (failed e) g {c = c} {b = b} e' h = ap (λ x. x && b) e'
  chained w (loaded a) g {c = c} {b = b} e' h = h a ∙ ap (λ x. x && b) e'

module _ {F : Type 0} where
  unfoldable pub is_fine_layer : Bool → Layer F → Bool
  unfolding is_fine
  is_fine_layer required layer =
      is_fine required layer.headers
      && (is_fine required layer.cookies
          && (is_fine required layer.html
              && (is_fine required layer.favicons
                  && (is_fine required layer.error_pages
                      && (is_fine required layer.active_probes
                          && (is_fine required layer.waf && true))))))

  abbrev pub is_fine_dir : Option (Layer F) → Bool
  is_fine_dir none = true
  is_fine_dir (some layer) = is_fine_layer false layer

  load_layer-loads :
      (required : Bool) (layer : Layer F) (rs : Ruleset F)
      → is_loaded (load_layer required layer rs) ≡ is_fine_layer required layer
  unfolding load_layer is_fine_layer
  load_layer-loads required layer rs =
      rw
        (
          decoded required "headers.json" layer.headers _,
          decoded required "cookies.json" layer.cookies _,
          decoded required "html.json" layer.html _,
          decoded required "favicons.json" layer.favicons _,
          decoded required "errorpages.json" layer.error_pages _,
          decoded required "active_probes.json" layer.active_probes _,
          decoded required "waf.json" layer.waf _,
        )
        refl

  load_layer_dir-loads :
      (dir : Option (Layer F)) (rs : Ruleset F)
      → is_loaded (load_layer_dir dir rs) ≡ is_fine_dir dir
  load_layer_dir-loads none rs = refl
  load_layer_dir-loads (some layer) rs = load_layer-loads false layer rs

  -- A load succeeds exactly if every file of the embedded layer is there and holds rules, and
  -- every file of the two overlays that can be read does. An overlay that cannot be read is as
  -- good as none, and a category that is turned off changes nothing here.
  pub load_loads :
      (embedded : Layer F) (system user : Option (Layer F)) (rules_off : List String)
      → is_loaded (load embedded system user rules_off)
        ≡ (is_fine_layer true embedded && (is_fine_dir system && is_fine_dir user))
  unfolding load
  load_loads embedded system user rules_off =
      chained _ _ _ (load_layer-loads true embedded empty_ruleset) (λ base.
        chained _ _ _ (load_layer_dir-loads system base) (λ with_system.
          chained _ _ _ (load_layer_dir-loads user with_system) (λ rs. refl)
          ∙ and_true (is_fine_dir user)))
