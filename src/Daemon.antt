-- ===== src/Daemon.antt =====
-- Package internal/daemon: the event hub between the coordinator and its WebSocket clients, and
-- the REST control plane.
pub mod Hub
pub mod Security
pub mod Scan
pub mod Server
mod Tests
