-- ===== src/Wordlist.antt =====
-- internal/wordlist/wordlist.go over ASCII texts. The file is its lines, none where it cannot be
-- opened; the scanner's error, of a line that is too long, is a Boolean. Hash is a library's.
pub mod Ranked
mod Tests
use Prim.Native.Char.{Char, code}
use smart_buster.Prelude.{
  ℕ, ◌+◌, Bool, true, false, not, ◌&&◌, ◌||◌, Option, none, some, List, [], ◌∷◌, String, str_eq,
  leb, ◌==◌, if◌then◌else◌, length,
}
use smart_buster.Prelude.Float.{Float}
use smart_buster.Prelude.Text.{has_prefix, trim_space}
use smart_buster.Seed.Normalize.{has_byte}
use smart_buster.Profile.Ruleset.{Result, failed, loaded}
use smart_buster.Engine.Coordinator.Template.{Entry}

pub data WordlistError : Type 0 where
  open_wordlist read_wordlist empty_wordlist : WordlistError

abbrev pub is_skipped : String → Bool
is_skipped line = str_eq line "" || has_prefix line "#"

unfoldable pub words_of : List String → List String
unfolding trim_space has_prefix
words_of [] = []
words_of (text ∷ lines) =
    let line = trim_space text in
    let rest = words_of lines in if is_skipped line then rest else line ∷ rest

module _ {F : Type 0} ⦃f : Float F⦄ where
  unfoldable pub entry_of : ℕ → ℕ → String → Entry F
  unfolding has_byte
  entry_of n i w = record {
    word = w;
    is_file = has_byte b'.' w;
    base_prio = f.sub (f.lit 1 1) (f.div (f.lit i 1) (f.lit n 1));
  }

  unfoldable pub entries_from : ℕ → ℕ → List String → List (Entry F)
  unfolding entry_of
  entries_from n i [] = []
  entries_from n i (w ∷ ws) = entry_of n i w ∷ entries_from n (i + 1) ws

  abbrev pub entries_of : List String → Result WordlistError (List (Entry F))
  entries_of [] = failed empty_wordlist
  entries_of (w ∷ ws) = loaded (entries_from (length (w ∷ ws)) 0 (w ∷ ws))

  unfoldable pub load_words : Option (List String) → Bool → Result WordlistError (List (Entry F))
  unfolding words_of entries_from
  load_words none scan_error = failed open_wordlist
  load_words (some lines) scan_error =
      if scan_error then failed read_wordlist else entries_of (words_of lines)
