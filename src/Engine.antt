-- ===== src/Engine.antt =====
-- Package internal/engine: the coordinator and the parts that it is built from.
pub mod Types
pub mod Events
pub mod Frontier
pub mod Coordinator
pub mod Backoff
pub mod Session
pub mod Preset
pub mod Learners
