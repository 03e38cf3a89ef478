-- ===== src/Lib.antt =====
-- The cryptodev-linux driver: /dev/crypto, which lets programs use the kernel's crypto API.
--
-- The parts of the driver and the files that model them, by the paths of the repository:
--   util.c      Sg            scatterlists as lists of entries; what a table covers is `sg_addrs`
--   zc.c        Zc            `get_userbuf`, `release_user_pages`: the tables over a user's pages
--   cryptlib.c  Cryptlib      keys, transforms, requests and the wait for them
--   ioctl.c     Session       the sessions of an open file, with their locks and objects
--   ioctl.c     Queue         the asynchronous queue, its clients and its worker
--   main.c      Run           `crypto_run`, through a kernel page or on the user's pages
--   authenc.c   Authenc       `crypto_auth_run`: the TLS, SRTP and AEAD types, their pages and tags
--   ioctl.c     Ioctl         the requests on an open file, for 64-bit and 32-bit programs
--   lib/        Threshold     `hash_test`, `aead_test`: when the device is faster than a program
-- Prelude has what they share, User the memory of processes, and Tests concrete runs.
--
-- A request enters in Ioctl (`cryptodev_ioctl`, `cryptodev_compat_ioctl`), which finds the session
-- (Session), runs it (Run or Authenc) and writes back. These take the user's pages from Zc and call
-- the wrappers of Cryptlib. Queue calls `crypto_run` from a worker; it is a parameter there, with any
-- state of the sessions between two of its steps. Ioctl.Sequence has an open file as a whole: its
-- requests and the worker's rounds in any order, each one step.
--
-- Each function of the source is a function of the same name on the state it changes. A result is a
-- `Code`: a number, or the error it negates. `none` is a call that never returns, because it waits
-- for a lock that the caller holds or for a request that nobody completes, or undefined behaviour.
-- The kernel's crypto API is the record `CryptoApi`; allocations, random numbers and pinned pages are
-- arguments. The kernel objects of a session are counted.
--
-- Bounds: addresses have 64 bits and lengths 32, where the source computes with them (`pagecount`,
-- `double_until`), and `cryptodev_get_dst_len` wraps around as its `int` does; the lengths in a run of
-- authenc.c are taken to stay below 2 ^ 31. Fuel: the loop of
-- `__crypto_run_std` gets the number of bytes, of which each round handles one at least; the doubling
-- in `adjust_sg_array` gets the number of pages; the search for a session number gets an arbitrary
-- fuel, since random numbers may collide for ever.
--
-- The model is that of a kernel from 4.3 on, with CRYPTO_ALG_KERN_DRIVER_ONLY, and of a module that
-- is compiled with ENABLE_ASYNC.
--
-- Not modelled: the code for older kernels, the life cycle of the module (registration with the kernel
-- and the verbosity setting), two requests that overlap in time, a copy to or from the user that stops
-- in the middle, and the programs of examples and tests, which run outside the kernel. Of lib, the
-- arithmetic on doubles is a parameter, and the operations in OpenSSL are left out.
pub mod Prelude
pub mod Sg
pub mod Zc
pub mod Queue
pub mod User
pub mod Cryptlib
pub mod Session
pub mod Run
pub mod Authenc
pub mod Ioctl
pub mod Threshold
pub mod Tests
