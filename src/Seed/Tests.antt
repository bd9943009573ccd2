-- ===== src/Seed/Tests.antt =====
-- Runs of internal/seed at concrete inputs.
use smart_buster.Prelude.{
  ℕ, true, false, ◌&&◌, ◌||◌, ◌≡◌, refl, ◌⊎◌, List, [], ◌∷◌, String, str_eq, all_of,
}
use smart_buster.Prelude.Float.{hundredths, hundredths-IsOrdered}
use smart_buster.Prelude.Text.{split}
use smart_buster.Seed.{RawSeed, Seed}
use smart_buster.Seed.Provenance.{is_member, union_provenance}
use smart_buster.Seed.Provenance.Union.{is_nodup, union_provenance_tags}
use smart_buster.Seed.Normalize.{normalize, ext_of}
use smart_buster.Seed.Normalize.Merged.{paths, names, covers_all, normalize_merges}
use smart_buster.Seed.Robots.{parse_robots}
use smart_buster.Seed.Robots.Literal.{is_literal, parse_robots-literal}

union_provenance_tags_example :
    (is_member "sitemap" (split b'+' (union_provenance "robots:disallow" "sitemap+robots:disallow"))
      ≡ (is_member "sitemap" (split b'+' "robots:disallow")
          || is_member "sitemap" (split b'+' "sitemap+robots:disallow")))
    × ((str_eq "robots:disallow" "" ≡ true)
        ⊎ (str_eq "sitemap+robots:disallow" "" ≡ true)
        ⊎ (is_nodup (split b'+' (union_provenance "robots:disallow" "sitemap+robots:disallow"))
            ≡ true))
union_provenance_tags_example =
    union_provenance_tags "robots:disallow" "sitemap+robots:disallow" "sitemap" refl

union_of_two :
    union_provenance "robots:disallow" "sitemap+robots:disallow" ≡ "robots:disallow+sitemap"
unfolding union_provenance
union_of_two = refl

abbrev raws : List RawSeed
raws =
    record { path = "/admin?x=1"; source = "sitemap" }
    ∷ record { path = "/logo.png"; source = "wayback:20240101" }
    ∷ record { path = "/admin"; source = "robots:disallow" }
    ∷ []

abbrev seeds : List (Seed ℕ)
seeds =
    record {
      path = "/admin";
      is_dir_hint = true;
      base_prio = 95;
      provenance = "sitemap+robots:disallow";
    }
    ∷ []

seeds_lem : seeds ≡ normalize (λ s. s) (λ s. false) false raws
unfolding normalize
seeds_lem = refl

normalize_merges_example :
    (is_member "/admin" (paths seeds) ≡ names (λ s. s) false raws "/admin")
    × (is_nodup (paths seeds) ≡ true)
    × (covers_all (λ s. s) (λ s. false) false raws seeds ≡ true)
normalize_merges_example =
    normalize_merges (λ s. s) (λ s. false) false raws "/admin" seeds seeds_lem

abbrev robots : List String
robots = "User-agent: *" ∷ "disallow: /admin/*  # hidden" ∷ "allow: public$" ∷ []

parse_robots-literal_example :
    all_of
      (λ (s : RawSeed).
        is_literal s.path && (str_eq s.source "robots:disallow" || str_eq s.source "robots:allow"))
      (parse_robots (λ s. s) robots).seeds
    ≡ true
parse_robots-literal_example = parse_robots-literal (λ s. s) robots

robots_seeds :
    (parse_robots (λ s. s) robots).seeds
    ≡ record { path = "/admin/"; source = "robots:disallow" }
      ∷ record { path = "/public"; source = "robots:allow" }
      ∷ []
unfolding parse_robots
robots_seeds = refl

extension_of_a_path : ext_of "/a.b/config.php" ≡ ".php"
unfolding ext_of
extension_of_a_path = refl
