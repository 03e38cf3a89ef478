-- ===== src/Tests/Streams.antt =====
-- Runs of authenc.c, and of whole calls on a file with two sessions.
use cryptodev_linux.Prelude.{
  ℕ, ◌+◌, ◌-◌, ◌%◌, ◌≤◌, ◌<◌, ◌≡◌, refl, true, some, List, [], ◌∷◌, value, success, arith, length,
  take, replicate, range, Always, fail, einval,
}
use cryptodev_linux.Session.Defs.{Session}
use cryptodev_linux.Session.Finish.{Unlocked}
use cryptodev_linux.Session.Locks.{Kept, here}
use cryptodev_linux.Run.Defs.{KernelCryptOp, Result, cop_decrypt, crypto_run}
use cryptodev_linux.Run.Locks.{crypto_run-Kept}
use cryptodev_linux.Run.Refused.{partial_block, crypto_run-Refused}
use cryptodev_linux.Cryptlib.Hash.{cryptodev_hash_reset}
use cryptodev_linux.Authenc.Buffer.{pad_record, verify_tls_record_pad}
use cryptodev_linux.Authenc.Pad.{verify_tls_record_pad-pad_record}
use cryptodev_linux.Authenc.Defs.{CryptAuthOp, Sealed, tls_auth_n_crypt, cryptodev_get_dst_len}
use cryptodev_linux.Authenc.Length.{cryptodev_get_dst_len_rounds}
use cryptodev_linux.Authenc.RoundTrip.{Ends, tls_auth_n_crypt_returns}
use cryptodev_linux.Ioctl.Compat.{
  CompatSessionOp, CompatCryptOp, compat_to_session_op, session_op_to_compat, compat_to_crypt_op,
  crypt_op_to_compat, compat_round_trip,
}
use cryptodev_linux.Ioctl.Crypt.{Answered, ioctl_crypt, ioctl_crypt-Answered}
use cryptodev_linux.Tests.Toy.{
  toy, toy-IsHashApi, toy-Deciphers, toy_session, hash_session, toy_space, toy_paging,
}

abbrev pub tls_op : CryptAuthOp
tls_op = record {
  ses = 7;
  op = 0;
  flags = 16;
  len = 5;
  auth_len = 2;
  auth_src = 100;
  src = 4000;
  dst = 4000;
  tag = 0;
  tag_len = 2;
  iv = 0;
  iv_len = 0;
}

abbrev buffer : List ℕ
buffer = range 65 20

abbrev tls_ends : Ends toy toy-IsHashApi tls_op toy_session toy_session [] (1 ∷ (2 ∷ [])) buffer
tls_ends = record {
  hashes = (refl, refl);
  states = (refl, refl);
  ciphers = (refl, refl);
  blocks = (omega arith, omega arith, refl);
  tag_fits = (omega arith, omega arith);
  room = omega arith;
  deciphers = toy-Deciphers;
}

tls_auth_n_crypt_example :
    (s s2 : Sealed toy) × (tls_auth_n_crypt toy
        (replicate 64 9)
        tls_op
        toy_session
        (some (1 ∷ (2 ∷ [])))
        buffer
      ≡ some s)
    × (s.ret ≡ success)
    × (s.len ≡ 5 + 2 + (4 - (5 + 2) % 4))
    × (tls_auth_n_crypt toy []
          (record tls_op { op = cop_decrypt; len = s.len })
          toy_session
          (some (1 ∷ (2 ∷ [])))
          s.buf
        ≡ some s2)
    × (s2.ret ≡ success)
    × (s2.len ≡ 5)
    × (take 5 s2.buf ≡ take 5 buffer)
tls_auth_n_crypt_example =
    tls_auth_n_crypt_returns toy toy-IsHashApi (replicate 64 9) [] tls_op toy_session toy_session []
      (1 ∷ (2 ∷ [])) buffer refl tls_ends

pad_record_example :
    (pad_size : ℕ) × (buf' : List ℕ) × (pad_record buffer 5 15 ≡ some (pad_size, buf'))
    × (verify_tls_record_pad buf' (5 + pad_size) ≡ some (value pad_size))
    × (0 < pad_size)
    × (pad_size ≤ 15)
    × ((5 + pad_size) % 15 ≡ 0)
    × (take 5 buf' ≡ take 5 buffer)
    × (length buf' ≡ length buffer)
pad_record_example =
    verify_tls_record_pad-pad_record buffer 5 15 (omega arith) (omega arith) (omega arith)

get_dst_len_example :
    (dst_len : ℕ) × (cryptodev_get_dst_len toy tls_op toy_session ≡ some dst_len)
    × (dst_len % 4 ≡ 0)
    × (5 + 2 < dst_len)
    × (dst_len ≤ 5 + 2 + 4)
get_dst_len_example =
    cryptodev_get_dst_len_rounds toy tls_op toy_session refl refl (omega arith) (omega arith)

abbrev pub two_sessions : List (Session toy)
two_sessions = toy_session ∷ (hash_session ∷ [])

abbrev pub two_sessions_Unlocked : Unlocked toy two_sessions
two_sessions_Unlocked = (refl, (refl, tt))

abbrev pub kernel_op : KernelCryptOp
kernel_op = record {
  cop = record { ses = 7; op = 0; flags = 0; len = 8; src = 4096; dst = 8192; mac = 100; iv = 0 };
  ivlen = 0;
  iv = replicate 16 0;
  digestsize = 0;
  hash_output = [];
}

crypto_run_example :
    Always
      (λ (r : Result toy). Kept toy two_sessions r.1)
      (crypto_run toy toy_paging true success two_sessions kernel_op toy_space)
crypto_run_example =
    crypto_run-Kept toy toy_paging true success two_sessions kernel_op toy_space
      two_sessions_Unlocked

abbrev partial_op : KernelCryptOp
partial_op = record kernel_op { cop = record (kernel_op.cop) { len = 6 } }

crypto_run-Refused_example :
    (fcr : List (Session toy)) × (crypto_run toy toy_paging true success two_sessions partial_op
        toy_space
      ≡ some (fail einval, fcr, partial_op, toy_space))
unfolding cryptodev_hash_reset
crypto_run-Refused_example =
    crypto_run-Refused toy toy_paging true success two_sessions partial_op toy_space
      (partial_block toy_session refl here refl refl refl (toy_session.hdata, refl))

ioctl_crypt_example : Always (Answered toy two_sessions) (
    ioctl_crypt toy toy_paging true success true two_sessions
      (some kernel_op.cop)
      kernel_op
      toy_space)
ioctl_crypt_example =
    ioctl_crypt-Answered toy toy_paging true success true two_sessions (some kernel_op.cop)
      kernel_op toy_space two_sessions_Unlocked

abbrev compat_sop : CompatSessionOp
compat_sop = record {
  cipher = 11;
  mac = 0;
  keylen = 16;
  key = 4294967295;
  mackeylen = 0;
  mackey = 0;
  ses = 7;
}

abbrev pub compat_cop : CompatCryptOp
compat_cop = record {
  ses = 7;
  op = 0;
  flags = 1;
  len = 8;
  src = 4096;
  dst = 8192;
  mac = 0;
  iv = 4294967295;
}

compat_example :
    (session_op_to_compat (compat_to_session_op compat_sop) ≡ compat_sop)
    × (crypt_op_to_compat (compat_to_crypt_op compat_cop) ≡ compat_cop)
compat_example =
    compat_round_trip compat_sop compat_cop (omega arith, omega arith)
      (omega arith, omega arith, omega arith, omega arith)
