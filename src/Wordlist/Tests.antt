-- ===== src/Wordlist/Tests.antt =====
-- A list with a comment and an empty line
use smart_buster.Prelude.{ℕ, true, false, ◌≡◌, refl, some, List, [], ◌∷◌, String}
use smart_buster.Prelude.Float.{hundredths}
use smart_buster.Prelude.Text.{has_prefix, skip_space, drop_space, trim_space}
use smart_buster.Seed.Normalize.{has_byte}
use smart_buster.Profile.Ruleset.{loaded}
use smart_buster.Wordlist.{words_of, entry_of, entries_from, load_words}
use smart_buster.Wordlist.Ranked.{IsLoad, load_words_exact}

abbrev lines : List String
lines = "# common" ∷ " admin " ∷ "" ∷ "config.php" ∷ []

load_words_exact_example : IsLoad {F = ℕ} (some lines) false (load_words {F = ℕ} (some lines) false)
load_words_exact_example = load_words_exact ℕ (some lines) false

two_words :
    load_words {F = ℕ} (some lines) false
    ≡ loaded (
        record { word = "admin"; is_file = false; base_prio = 100 }
        ∷ record { word = "config.php"; is_file = true; base_prio = 50 }
        ∷ [])
unfolding load_words words_of entries_from entry_of trim_space skip_space drop_space has_prefix
    has_byte
two_words = refl
