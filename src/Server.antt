-- ===== src/Server.antt =====
-- The server: server/dispatch.rs with engine.rs and stats.rs.
pub mod Stats
pub mod Engine
pub mod Dispatch
pub mod Compaction
