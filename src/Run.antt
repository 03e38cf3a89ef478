-- ===== src/Run.antt =====
-- The plain operations on a session (main.c).
pub mod Defs
pub mod Locks
pub mod Chunks
pub mod Refused
