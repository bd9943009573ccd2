-- ===== src/Corpus/Tests.antt =====
-- A path that is a directory and, with a higher score, a file.
use smart_buster.Prelude.{ℕ, true, ◌≡◌, refl, List, [], ◌∷◌}
use smart_buster.Prelude.Float.{hundredths, hundredths-IsOrdered}
use smart_buster.Prelude.Sort.{sort_by, insert}
use smart_buster.Prelude.Text.{join, append}
use smart_buster.Seed.Provenance.{is_member}
use smart_buster.Seed.Provenance.Union.{is_nodup}
use smart_buster.Corpus.Dedup.{
  term_dir, term_file, CorpusCandidate, add_keys, sorted_keys, new_group, join_group,
  note_candidate, group_all, survivor, dedup,
}
use smart_buster.Corpus.Dedup.Deduped.{paths, covers_all, dedup_exact}

abbrev config_dir : CorpusCandidate ℕ
config_dir = record {
  path = "config";
  kind = term_dir;
  base_prio = 40;
  score = 40;
  tags = "generic" ∷ [];
  provenance = "corpus:generic";
}

abbrev config_stem : CorpusCandidate ℕ
config_stem = record config_dir {
  kind = term_file;
  base_prio = 60;
  score = 90;
  tags = "php" ∷ "backup" ∷ [];
  provenance = "corpus:php:stem";
}

abbrev cands : List (CorpusCandidate ℕ)
cands = config_dir ∷ config_stem ∷ []

dedup_exact_example :
    (is_nodup (paths (dedup cands)) ≡ true)
    × (is_member "config" (paths (dedup cands)) ≡ is_member "config" (paths cands))
    × (covers_all cands (dedup cands) ≡ true)
dedup_exact_example = dedup_exact cands "config"

stays_a_directory :
    dedup cands
    ≡ record config_stem {
      kind = term_dir;
      tags = "backup" ∷ "generic" ∷ "php" ∷ [];
      provenance = "corpus:generic, corpus:php:stem";
    }
      ∷ []
unfolding dedup group_all note_candidate new_group join_group survivor add_keys is_member
    sorted_keys sort_by insert join append
stays_a_directory = refl
