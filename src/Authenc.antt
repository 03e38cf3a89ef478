-- ===== src/Authenc.antt =====
-- Authenticated encryption (authenc.c).
pub mod Buffer
pub mod Pad
pub mod Defs
pub mod RoundTrip
pub mod Srtp
pub mod Request
pub mod Pages
pub mod Run
pub mod Keeps
pub mod Locks
pub mod Length
pub mod Balance
pub mod Aead
