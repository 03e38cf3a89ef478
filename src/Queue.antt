-- ===== src/Queue.antt =====
-- The queue of asynchronous jobs of ioctl.c.
pub mod Defs
pub mod Poll
pub mod System
