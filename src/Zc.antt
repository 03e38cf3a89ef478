-- ===== src/Zc.antt =====
-- zc.c and zc.h: the user's pages behind a buffer, held in a session's `pages` and `sg` arrays.
pub mod Defs
pub mod Cover
pub mod Arrays
pub mod Release
pub mod Balance
pub mod Buffers
pub mod Inputs
