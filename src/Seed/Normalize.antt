-- ===== src/Seed/Normalize.antt =====
-- Normalize of internal/seed/normalize.go. The test for a recent capture, which parses a date and
-- compares it with the clock, is an argument.
pub mod Merged
use Prim.Native.Char.{Char, code}
use smart_buster.Prelude.{
  ℕ, Bool, true, false, not, ◌&&◌, ◌||◌, Option, none, some, List, [], ◌∷◌, ◌++◌, String, str_eq,
  ◌==◌, leb, if◌then◌else◌,
}
use smart_buster.Prelude.Float.{Float}
use smart_buster.Prelude.Text.{has_prefix, trim_prefix, has_substring}
use smart_buster.Seed.{RawSeed, Seed}
use smart_buster.Seed.Provenance.{is_member, union_provenance}

-- Up to the first such byte
unfoldable pub before_byte : ℕ → String → String
before_byte b String.[] = ""
before_byte b (String.◌∷◌ c s) =
    let rest = before_byte b s in if code c == b then "" else String.◌∷◌ c rest

unfoldable pub strip_query : String → String
unfolding before_byte
strip_query p = before_byte b'?' p

unfoldable pub has_byte : ℕ → String → Bool
has_byte b String.[] = false
has_byte b (String.◌∷◌ c s) = code c == b || has_byte b s

-- From the last such byte on, with it, if there is one
unfoldable pub from_last : ℕ → String → Option String
from_last b String.[] = none
from_last b (String.◌∷◌ c s) =
    let whole = some (String.◌∷◌ c s) in
    let here = if code c == b then whole else none in
    elim (from_last b s) [ none ↦ here | some rest ↦ some rest ]

unfoldable pub terminal_segment : String → String
unfolding from_last trim_prefix
terminal_segment p = elim (from_last b'/' p) [ none ↦ p | some rest ↦ trim_prefix rest "/" ]

unfoldable pub ext_of : String → String
unfolding terminal_segment from_last
ext_of p = elim (from_last b'.' (terminal_segment p)) [ none ↦ "" | some rest ↦ rest ]

unfoldable pub is_dir_hint : String → Bool
unfolding has_byte terminal_segment
is_dir_hint p = not (has_byte b'.' (terminal_segment p))

abbrev pub asset_noise_ext : List String
asset_noise_ext =
    ".png" ∷ ".jpg" ∷ ".jpeg" ∷ ".gif" ∷ ".svg" ∷ ".ico" ∷ ".css" ∷ ".js" ∷ ".woff" ∷ ".woff2"
    ∷ ".ttf" ∷ ".eot" ∷ ".mp4" ∷ ".mp3" ∷ ".webp" ∷ ".bmp" ∷ []

-- `to_lower` is strings.ToLower.
unfoldable pub is_noise : (String → String) → Bool → RawSeed → String → Bool
unfolding has_prefix is_member ext_of
is_noise to_lower seed_assets raw p =
    not seed_assets
    && has_prefix raw.source "wayback"
    && is_member (to_lower (ext_of p)) asset_noise_ext

unfoldable pub is_dropped : (String → String) → Bool → RawSeed → Bool
unfolding strip_query is_noise
is_dropped to_lower seed_assets raw =
    let p = strip_query raw.path in
    str_eq p "" || str_eq p "/" || is_noise to_lower seed_assets raw p

module _ {F : Type 0} ⦃f : Float F⦄ where
  unfoldable pub base_prio : (String → Bool) → String → F
  unfolding has_prefix trim_prefix
  base_prio is_recent_capture source =
      if str_eq source "robots:disallow"
      then f.lit 95 100
      else if str_eq source "sitemap"
      then f.lit 90 100
      else if str_eq source "robots:allow"
      then f.lit 85 100
      else if str_eq source "crawl:html"
      then f.lit 90 100
      else if str_eq source "crawl:js"
      then f.lit 85 100
      else if str_eq source "headless"
      then f.lit 90 100
      else if has_prefix source "wayback:"
      then if is_recent_capture (trim_prefix source "wayback:") then f.lit 85 100 else f.lit 70 100
      else f.lit 85 100

  -- A source that names a path again raises its priority and adds its tag.
  unfoldable pub again : F → String → Seed F → Seed F
  unfolding union_provenance
  again prio source s = record s {
    base_prio = if f.lt s.base_prio prio then prio else s.base_prio;
    provenance = union_provenance s.provenance source;
  }

  -- The map `byPath` and the slice `order` as one list
  unfoldable pub note_seed : String → F → String → List (Seed F) → List (Seed F)
  unfolding again is_dir_hint
  note_seed p prio source [] =
      record { path = p; is_dir_hint = is_dir_hint p; base_prio = prio; provenance = source } ∷ []
  note_seed p prio source (s ∷ ss) =
      let rest = note_seed p prio source ss in
      if str_eq s.path p then again prio source s ∷ ss else s ∷ rest

  unfoldable pub normalize_from :
      (String → String) → (String → Bool) → Bool → List RawSeed → List (Seed F) → List (Seed F)
  unfolding is_dropped strip_query note_seed base_prio
  normalize_from to_lower is_recent seed_assets [] out = out
  normalize_from to_lower is_recent seed_assets (raw ∷ raws) out =
      normalize_from to_lower is_recent seed_assets raws (
        if is_dropped to_lower seed_assets raw
        then out
        else note_seed (strip_query raw.path) (base_prio is_recent raw.source) raw.source out)

  unfoldable pub normalize :
      (String → String) → (String → Bool) → Bool → List RawSeed → List (Seed F)
  unfolding normalize_from
  normalize to_lower is_recent seed_assets raws =
      normalize_from to_lower is_recent seed_assets raws []
