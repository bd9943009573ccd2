-- ===== src/Corpus.antt =====
-- Package internal/corpus: the candidates that a selection from the corpus is expanded to.
pub mod Dedup
mod Tests
