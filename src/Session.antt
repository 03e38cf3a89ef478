-- ===== src/Session.antt =====
-- The sessions of an open file (ioctl.c): their list, how they are created, found, locked, removed.
pub mod Algorithms
pub mod Defs
pub mod Create
pub mod Finish
pub mod Objects
pub mod Key
pub mod Locks
