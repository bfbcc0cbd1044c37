-- ===== src/Connection.antt =====
-- A client's connection: server/connection.rs. The socket is the list of what its calls return, in
-- order; the time of the last activity and the statistics are left out.
pub mod Parser
pub mod Chunks
pub mod Frames
pub mod Writer
pub mod Writes
