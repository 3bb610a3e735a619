-- ===== src/Core.antt =====
-- The data that the parts of the harness share (internal/core).
pub mod Message
pub mod Config
pub mod Text
