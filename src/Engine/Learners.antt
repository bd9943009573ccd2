-- ===== src/Engine/Learners.antt =====
-- The dynamic score: internal/engine/markov.go, internal/engine/assoc.go and
-- internal/engine/scorer.go.
pub mod Markov
pub mod Assoc
pub mod Scorer
mod Tests
