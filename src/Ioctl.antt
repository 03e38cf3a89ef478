-- ===== src/Ioctl.antt =====
-- The requests of user space (ioctl.c): the conversion of arguments and the call CIOCCRYPT.
pub mod Compat
pub mod Crypt
pub mod Auth
pub mod Info
pub mod File
pub mod Dispatch
pub mod CompatDispatch
pub mod Table
pub mod CompatTable
pub mod Sequence
pub mod Steps
