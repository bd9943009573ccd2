-- ===== src/Profile.antt =====
-- Package internal/profile: the layered rules of the fingerprinting.
pub mod Merge
pub mod Ruleset
pub mod Target
mod Tests
