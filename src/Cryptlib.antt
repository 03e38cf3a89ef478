-- ===== src/Cryptlib.antt =====
-- cryptlib.c and cryptlib.h: ciphers, hashes and their asynchronous requests, over the kernel's
-- crypto API.
pub mod Api
pub mod Wait
pub mod Keys
pub mod Cipher
pub mod Hash
pub mod Keeps
