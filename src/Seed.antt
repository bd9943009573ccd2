-- ===== src/Seed.antt =====
-- Package internal/seed: the records of types.go, and under it normalize.go and robots.go.
pub mod Provenance
pub mod Normalize
pub mod Robots
mod Tests
use smart_buster.Prelude.{String, Bool}

pub record RawSeed : Type 0 where
  pub path : String
  pub source : String

pub record Seed (F : Type 0) : Type 0 where
  pub path : String
  pub is_dir_hint : Bool
  pub base_prio : F
  pub provenance : String
