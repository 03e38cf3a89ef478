-- ===== src/Tests/Auth.antt =====
-- Runs of authenc.c on pages and sessions.
use cryptodev_linux.Prelude.{
  ℕ, ◌+◌, ◌-◌, ◌/◌, ◌≡◌, refl, ap, ◌∙◌, true, false, none, some, List, [], ◌∷◌, ◌++◌, if◌then◌else◌,
  success, arith, length, take, replicate, range, Always, length-append, take-length_append,
}
use cryptodev_linux.Sg.{page_size}
use cryptodev_linux.Zc.Release.{puts}
use cryptodev_linux.Zc.Defs.{
  Paging, UserBuf, Userbuf, get_userbuf, get_separate, get_input, get_output, get_userbuf_pages,
  fill_table, fill_pages, pagecount, release_user_pages, release_each,
}
use cryptodev_linux.Zc.Cover.{length-frames}
use cryptodev_linux.Zc.Arrays.{HasRoom}
use cryptodev_linux.Zc.Buffers.{IsBuffer}
use cryptodev_linux.Zc.Balance.{AtMost, IsHeld, get_userbuf-IsHeld}
use cryptodev_linux.Cryptlib.Wait.{waitfor}
use cryptodev_linux.Cryptlib.Cipher.{cryptodev_cipher_encrypt, cryptodev_cipher_decrypt}
use cryptodev_linux.Session.Defs.{Session}
use cryptodev_linux.Session.Locks.{Kept}
use cryptodev_linux.Run.Defs.{cop_decrypt}
use cryptodev_linux.Authenc.Request.{KernelCryptAuthOp}
use cryptodev_linux.Authenc.Pages.{get_userbuf_srtp}
use cryptodev_linux.Authenc.Pages.Srtp.{SrtpMapping, get_userbuf_srtp-SrtpMapping}
use cryptodev_linux.Authenc.Run.{
  AuthCrypted, AuthResult, auth_n_crypt, crypto_auth_run_zc, crypto_auth_run,
}
use cryptodev_linux.Authenc.Locks.{crypto_auth_run-Kept}
use cryptodev_linux.Authenc.Balance.{IsBalanced, crypto_auth_run_zc-IsBalanced}
use cryptodev_linux.Authenc.Aead.{IsAead, Opens, prepared, auth_n_crypt_returns}
use cryptodev_linux.Ioctl.Auth.{AuthAnswered, ioctl_auth_crypt, ioctl_auth_crypt-AuthAnswered}
use cryptodev_linux.Tests.Streams.{tls_op, two_sessions, two_sessions_Unlocked}
use cryptodev_linux.Tests.Toy.{toy, toy_session, toy_space, toy_paging}

abbrev pub tls_kcaop : KernelCryptAuthOp
tls_kcaop = record { caop = tls_op; dst_len = 12; ivlen = 0; iv = replicate 16 0 }

-- SRTP: 200 bytes of authenticated data over a page's end, of which the last 188 are encrypted.
abbrev srtp_kcaop : KernelCryptAuthOp
srtp_kcaop = record tls_kcaop {
  caop = record tls_op {
    flags = 32;
    len = 188;
    auth_len = 200;
    auth_src = 4000;
    src = 4012;
    dst = 4012;
  };
  dst_len = 188;
}

abbrev toy_HasRoom : HasRoom toy_session.user
toy_HasRoom = record { some_room = omega arith; in_array = omega arith }

abbrev tls_IsBuffer : IsBuffer 4000 12
tls_IsBuffer = record {
  not_null = omega arith;
  not_empty = omega arith;
  word = omega arith;
  in_space = omega arith;
}

abbrev srtp_IsBuffer : IsBuffer 4000 200
srtp_IsBuffer = record {
  not_null = omega arith;
  not_empty = omega arith;
  word = omega arith;
  in_space = omega arith;
}

get_userbuf_srtp_example :
    (got : Userbuf) × (get_userbuf_srtp toy_paging srtp_kcaop toy_session.user ≡ some got)
    × SrtpMapping toy_space.frame 4000 200 12 got
get_userbuf_srtp_example =
    get_userbuf_srtp-SrtpMapping toy_paging toy_space.frame srtp_kcaop toy_session.user 12
      srtp_IsBuffer (omega arith) refl (omega arith) toy_HasRoom refl refl refl

toy_paging-AtMost : AtMost toy_paging.get_user_pages
toy_paging-AtMost addr pgcount write =
    omega (arith, length-frames toy_space.frame (addr / page_size) pgcount)

-- The kernel pins no page for writing.
abbrev readonly_paging : Paging
readonly_paging = record toy_paging {
  get_user_pages =
      λ addr pgcount write. if write then [] else toy_paging.get_user_pages addr pgcount write;
}

readonly_paging-AtMost : AtMost readonly_paging.get_user_pages
readonly_paging-AtMost addr pgcount true = omega arith
readonly_paging-AtMost addr pgcount false = toy_paging-AtMost addr pgcount false

abbrev two_buffers : UserBuf
two_buffers = record { src = 4096; src_len = 9; dst = 8192; dst_len = 9 }

-- The pages put for a destination that cannot be pinned: that of the source, and an old entry.
excess_test :
    (got : Userbuf) × (get_userbuf readonly_paging two_buffers toy_session.user ≡ some got)
    × (got.pinned ≡ 101 ∷ [])
    × (puts got.released ≡ 101 ∷ 0 ∷ [])
unfolding get_userbuf get_separate get_input get_output get_userbuf_pages fill_table fill_pages
    pagecount release_user_pages release_each
excess_test = (_, refl, refl, refl)

get_userbuf-IsHeld_example :
    Always
      (IsHeld readonly_paging.get_user_pages)
      (get_userbuf readonly_paging two_buffers toy_session.user)
get_userbuf-IsHeld_example =
    get_userbuf-IsHeld readonly_paging two_buffers toy_session.user readonly_paging-AtMost

crypto_auth_run_zc_example :
    Always
      (IsBalanced toy toy_paging.get_user_pages)
      (crypto_auth_run_zc toy toy_paging true (replicate 64 9) toy_session srtp_kcaop toy_space)
crypto_auth_run_zc_example =
    crypto_auth_run_zc-IsBalanced toy toy_paging true (replicate 64 9) toy_session srtp_kcaop
      toy_space toy_paging-AtMost (λ e. omega arith)

crypto_auth_run_example :
    Always
      (λ (r : AuthResult toy). Kept toy two_sessions r.1)
      (crypto_auth_run toy toy_paging true (replicate 64 9) two_sessions tls_kcaop toy_space)
crypto_auth_run_example =
    crypto_auth_run-Kept toy toy_paging true (replicate 64 9) two_sessions tls_kcaop toy_space
      two_sessions_Unlocked

ioctl_auth_crypt_example : Always (AuthAnswered toy two_sessions) (
    ioctl_auth_crypt toy toy_paging true
      (replicate 64 9)
      true
      two_sessions
      (some tls_op)
      tls_kcaop
      toy_space)
ioctl_auth_crypt_example =
    ioctl_auth_crypt-AuthAnswered toy toy_paging true (replicate 64 9) true two_sessions
      (some tls_op) tls_kcaop toy_space two_sessions_Unlocked

abbrev aead_session : Session toy
aead_session = record toy_session {
  cdata = record (toy_session.cdata) {
    aead = true;
    blocksize = 1;
    request = none;
    arequest = some 16;
  };
}

abbrev aead_kcaop : KernelCryptAuthOp
aead_kcaop = record tls_kcaop { caop = record tls_op { flags = 0; tag_len = 4 } }

abbrev open_kcaop : KernelCryptAuthOp
open_kcaop = record aead_kcaop { caop = record (aead_kcaop.caop) { op = cop_decrypt } }

aead_session-IsAead : IsAead toy aead_session 16 4
aead_session-IsAead = record {
  init = refl;
  aead = refl;
  transform = refl;
  some_tag = omega arith;
  tag_fits = omega arith;
}

untagged_lem :
    (input : List ℕ) → take (length (input ++ replicate 4 9) - 4) (input ++ replicate 4 9) ≡ input
untagged_lem input =
    ap (λ n. take n (input ++ replicate 4 9)) (omega (arith, length-append input (replicate 4 9)))
    ∙ take-length_append input (replicate 4 9)

toy-Opens :
    (input : List ℕ)
    → Opens toy
        (prepared toy aead_session.cdata 16 4 2)
        (prepared toy aead_session.cdata 16 4 2)
        4
        input
unfolding cryptodev_cipher_encrypt cryptodev_cipher_decrypt waitfor
toy-Opens input = record {
  out = input ++ replicate 4 9;
  after_seal = prepared toy aead_session.cdata 16 4 2;
  after_open = prepared toy aead_session.cdata 16 4 2;
  seals = refl;
  longer = length-append input (replicate 4 9);
  opens = ap (λ x. some (success, prepared toy aead_session.cdata 16 4 2, x)) (untagged_lem input);
}

auth_n_crypt_example :
    (r : AuthCrypted toy) × (auth_n_crypt toy aead_session aead_kcaop 2 (range 65 7) (range 65 12) 5
      ≡ some r)
    × (r.0 ≡ success)
    × (r.2.dst_len ≡ 5 + 4)
    × (r2 : AuthCrypted toy) × (auth_n_crypt toy aead_session open_kcaop 2 r.3 (range 0 7) (5 + 4)
        ≡ some r2)
    × (r2.0 ≡ success)
    × (r2.2.dst_len ≡ 5)
    × (take (2 + 5) r2.3 ≡ take (2 + 5) (range 65 7))
auth_n_crypt_example =
    auth_n_crypt_returns toy aead_session aead_session 16 16 aead_kcaop open_kcaop 2 5 (range 65 7)
      (range 65 12) (range 0 7) aead_session-IsAead aead_session-IsAead refl refl refl (omega arith)
      (omega arith) (omega arith) (omega arith) (λ input size. toy-Opens input)
