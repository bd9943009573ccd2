-- ===== src/Seed/Robots.antt =====
-- parseRobots, splitDirective and robotsPath of internal/seed/robots.go, over the lines that
-- bufio.Scanner gives. The fetch is not modelled.
pub mod Literal
use Prim.Native.Char.{Char, code}
use smart_buster.Prelude.{
  ℕ, Bool, true, false, ◌&&◌, ◌||◌, Option, none, some, List, [], ◌∷◌, ◌++◌, String, str_eq, ◌==◌,
  leb, if◌then◌else◌,
}
use smart_buster.Prelude.Text.{has_prefix, keep_right, trim_space}
use smart_buster.Seed.{RawSeed}
use smart_buster.Seed.Normalize.{before_byte}

-- The text behind the first such byte, if there is one
unfoldable pub after_byte : ℕ → String → Option String
after_byte b String.[] = none
after_byte b (String.◌∷◌ c s) = let rest = after_byte b s in if code c == b then some s else rest

unfoldable pub split_directive : String → Option (String × String)
unfolding after_byte before_byte trim_space
split_directive line = elim (after_byte b':' line) [
  | none ↦ none
  | some val ↦ some (trim_space (before_byte b':' line), trim_space val)
]

-- Up to the first `*` or `$`
unfoldable pub literal_part : String → String
literal_part String.[] = ""
literal_part (String.◌∷◌ c s) =
    let rest = literal_part s in if code c == b'*' || code c == b'$' then "" else String.◌∷◌ c rest

unfoldable pub robots_path : String → String
unfolding literal_part has_prefix
robots_path val =
    let p = literal_part val in
    if str_eq p "" || str_eq p "/" then "" else if has_prefix p "/" then p else String.◌∷◌ "/" p

pub record RobotsResult : Type 0 where
  pub seeds : List RawSeed
  pub sitemaps : List String

unfoldable pub add_path : String → String → RobotsResult → RobotsResult
unfolding robots_path
add_path val source res =
    let p = robots_path val in
    if str_eq p ""
    then res
    else record res { seeds = res.seeds ++ record { path = p; source = source } ∷ [] }

-- The directive's name is in lower case.
unfoldable pub apply_directive : String → String → RobotsResult → RobotsResult
unfolding add_path
apply_directive key val res =
    if str_eq key "disallow"
    then add_path val "robots:disallow" res
    else if str_eq key "allow"
    then add_path val "robots:allow" res
    else if str_eq key "sitemap"
    then if str_eq val "" then res else record res { sitemaps = res.sitemaps ++ val ∷ [] }
    else res

unfoldable pub without_comment : String → String
unfolding trim_space before_byte
without_comment line = trim_space (before_byte b'#' (trim_space line))

unfoldable pub parse_line : (String → String) → String → RobotsResult → RobotsResult
unfolding without_comment split_directive apply_directive
parse_line to_lower line res = elim (split_directive (without_comment line)) [
  | none ↦ res
  | some (key, val) ↦ apply_directive (to_lower key) val res
]

unfoldable pub parse_lines : (String → String) → List String → RobotsResult → RobotsResult
unfolding parse_line
parse_lines to_lower [] res = res
parse_lines to_lower (line ∷ lines) res = parse_lines to_lower lines (parse_line to_lower line res)

unfoldable pub parse_robots : (String → String) → List String → RobotsResult
unfolding parse_lines
parse_robots to_lower lines = parse_lines to_lower lines (record { seeds = []; sitemaps = [] })
