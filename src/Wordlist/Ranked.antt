-- ===== src/Wordlist/Ranked.antt =====
-- What Load of internal/wordlist/wordlist.go gives for a file, errors included.
use mathlib.Core.Path.{subst}
use smart_buster.Prelude.{
  ℕ, zero, suc, ◌+◌, Bool, true, false, not, ◌||◌, ◌≡◌, refl, sym, ap, ◌∙◌, ◌⊎◌, inl, inr, Option,
  none, some, List, [], ◌∷◌, map, String, str_eq, arith, if◌then◌else◌, Bool-cases, length,
  get_elem?,
}
use smart_buster.Prelude.Text.{has_prefix, trim_space}
use smart_buster.Prelude.Float.{Float}
use smart_buster.Seed.Normalize.{has_byte}
use smart_buster.Profile.Ruleset.{Result, failed, loaded}
use smart_buster.Engine.Coordinator.Template.{Entry}
use smart_buster.Wordlist.{
  WordlistError, open_wordlist, read_wordlist, empty_wordlist, is_skipped, words_of, entry_of,
  entries_from, entries_of, load_words,
}

-- A text that is neither empty nor a comment
abbrev pub is_word : String → Bool
is_word w = not (str_eq w "" || has_prefix w "#")

abbrev pub keep_if : (String → Bool) → List String → List String
keep_if p [] = []
keep_if p (w ∷ ws) = let rest = keep_if p ws in if p w then w ∷ rest else rest

-- The words of a file: its lines less their blanks, without the empty ones and the comments
abbrev pub words_in : List String → List String
words_in lines = keep_if is_word (map trim_space lines)

words_of_lem : (lines : List String) → words_of lines ≡ words_in lines
unfolding words_of
words_of_lem [] = refl
words_of_lem (text ∷ lines) = elim (Bool-cases (is_skipped (trim_space text))) [
  | inl u ↦ rw u (words_of_lem lines)
  | inr u ↦ rw u (ap (◌∷◌ (trim_space text)) (words_of_lem lines))
]

module _ {F : Type 0} ⦃f : Float F⦄ where
  -- The entry of the i-th of n words: a file if it has a dot, and of priority 1 - i / n
  abbrev pub ranked : ℕ → ℕ → Option String → Option (Entry F)
  ranked n i none = none
  ranked n i (some w) = some (record {
    word = w;
    is_file = has_byte b'.' w;
    base_prio = f.sub (f.lit 1 1) (f.div (f.lit i 1) (f.lit n 1));
  })

  -- Without a word the error of an empty list, and with words an entry for each of them
  abbrev pub IsLoaded : List String → Result WordlistError (List (Entry F)) → Type 0
  IsLoaded ws r =
      ((ws ≡ []) × (r ≡ failed empty_wordlist))
      ⊎ ((w : String) × (rest : List String) × (ws ≡ w ∷ rest)
          × (entries : List (Entry F)) × (r ≡ loaded entries)
          × ((i : ℕ) → get_elem? entries i ≡ ranked (length ws) i (get_elem? ws i)))

  abbrev pub IsLoad : Option (List String) → Bool → Result WordlistError (List (Entry F)) → Type 0
  IsLoad none scan_error r = r ≡ failed open_wordlist
  IsLoad (some lines) true r = r ≡ failed read_wordlist
  IsLoad (some lines) false r = IsLoaded (words_in lines) r

  get_elem?-entries_from :
      (n k : ℕ) (ws : List String) (i : ℕ)
      → get_elem? (entries_from n k ws) i ≡ ranked n (k + i) (get_elem? ws i)
  unfolding entries_from entry_of
  get_elem?-entries_from n k [] i = refl
  get_elem?-entries_from n k (w ∷ ws) zero = ap (λ j. ranked n j (some w)) (omega arith)
  get_elem?-entries_from n k (w ∷ ws) (suc i) =
      get_elem?-entries_from n (k + 1) ws i ∙ ap (λ j. ranked n j (get_elem? ws i)) (omega arith)

  entries_of-IsLoaded : (ws : List String) → IsLoaded ws (entries_of ws)
  entries_of-IsLoaded [] = inl (refl, refl)
  entries_of-IsLoaded (w ∷ ws) = inr (
    w,
    ws,
    refl,
    entries_from (length (w ∷ ws)) 0 (w ∷ ws),
    refl,
    λ i.
        get_elem?-entries_from (length (w ∷ ws)) 0 (w ∷ ws) i
        ∙ ap (λ j. ranked (length (w ∷ ws)) j (get_elem? (w ∷ ws) i)) (omega arith),
  )

module _ (F : Type 0) ⦃f : Float F⦄ where
  -- A file that is not opened or not read to its end gives the error of that. Else its words are
  -- its lines, less their blanks, that are neither empty nor begin with #: without any the list is
  -- refused as empty, and otherwise its i-th of n entries is the i-th word, a file exactly if it
  -- has a dot, with the priority 1 - i / n.
  pub load_words_exact :
      (lines : Option (List String)) (scan_error : Bool)
      → IsLoad {F = F} lines scan_error (load_words lines scan_error)
  unfolding load_words
  load_words_exact none scan_error = refl
  load_words_exact (some lines) true = refl
  load_words_exact (some lines) false =
      subst (λ (ws : List String). IsLoaded {F = F} (words_in lines) (entries_of ws))
        (sym (words_of_lem lines)) (entries_of-IsLoaded (words_in lines))
