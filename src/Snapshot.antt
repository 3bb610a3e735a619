-- ===== src/Snapshot.antt =====
-- internal/engine/session/session_snapshot.go: a session as the host's store persists it.
pub mod Base64
pub mod Types
pub mod Save
pub mod Restore
pub mod Fields
pub mod RoundTrip
pub mod Errors
mod Tests
