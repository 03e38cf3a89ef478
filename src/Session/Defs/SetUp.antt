-- ===== src/Session/Defs/SetUp.antt =====
-- A session, and the set-up of its transforms (cryptodev_int.h, ioctl.c).
use cryptodev_linux.Prelude.{
  ℕ, ◌+◌, ◌-◌, max, Bool, false, ◌&&◌, Option, none, some, List, [], Code, fail, einval, enomem,
  efault, success, is_nonzero, is_negative, ltb, ◌==◌, if◌then◌else◌, ◌>>=◌, replicate, take,
}
use Prim.Native.String.{String}
use cryptodev_linux.User.{UserSpace, copy_from_user}
use cryptodev_linux.Zc.Defs.{UserPages}
use cryptodev_linux.Cryptlib.Api.{CryptoApi}
use cryptodev_linux.Cryptlib.Keys.{
  SessionOp, hmac_max_key_len, cryptodev_get_cipher_keylen, cryptodev_get_cipher_key,
}
use cryptodev_linux.Cryptlib.Cipher.{
  Cipher, max_block_len, cryptodev_cipher_init, cryptodev_cipher_deinit,
}
use cryptodev_linux.Cryptlib.Hash.{
  Hashing, cryptodev_hash_init, cryptodev_hash_deinit, cryptodev_hash_reset,
}
use cryptodev_linux.Session.Algorithms.{CipherAlg, HashAlg}

-- `locked` is the state of the mutex `sem`.
pub record Session (api : CryptoApi) : Type 0 where
  pub sid : ℕ
  pub alignmask : ℕ
  pub cdata : Cipher api
  pub hdata : Hashing api
  pub user : UserPages
  pub locked : Bool

-- Which allocations of `crypto_create_session` succeed, and what the stack holds where the hash key
-- goes.
pub record Memory : Type 0 where
  pub ses_ok : Bool
  pub cipher_request_ok : Bool
  pub hash_request_ok : Bool
  pub pages_ok : Bool
  pub sg_ok : Bool
  pub stack : List ℕ

abbrev pub default_prealloc_pages : ℕ
default_prealloc_pages = 32

module _ (api : CryptoApi) where
  -- What `kzalloc` gives.
  abbrev pub zeroed_session : Session api
  zeroed_session = record {
    sid = 0;
    alignmask = 0;
    cdata = record {
      init = false;
      blocksize = 0;
      aead = false;
      stream = false;
      ivsize = 0;
      alignmask = 0;
      request = none;
      arequest = none;
      iv = replicate max_block_len 0;
    };
    hdata = record { init = false; digestsize = 0; alignmask = 0; request = none };
    user = record { array_size = 0; used_pages = 0; readonly_pages = 0; pages = [] };
    locked = false;
  }

  -- A step of the set-up: its result, the session, and the number of kernel objects allocated.
  abbrev pub Setup : Type 0
  Setup = Code × Session api × ℕ

  unfoldable pub load_cipher :
      Memory → UserSpace → SessionOp → CipherAlg → String → Session api → ℕ → Setup
  load_cipher mem u sop alg name ses live =
      let keylen = cryptodev_get_cipher_keylen sop alg.aead in
      let key = cryptodev_get_cipher_key u sop alg.aead in
      let made =
        cryptodev_cipher_init api mem.cipher_request_ok live name key.1 alg.stream alg.aead
          ses.cdata in
      if is_negative keylen.0
      then (keylen.0, ses, live)
      else if is_negative key.0
      then (key.0, ses, live)
      else if is_negative made.0
      then (fail einval, record ses { cdata = made.1 }, made.2)
      else (success, record ses { cdata = made.1 }, made.2)

  unfoldable pub set_up_cipher :
      Memory → UserSpace → SessionOp → CipherAlg → Session api → ℕ → Setup
  set_up_cipher mem u sop alg ses live = elim alg.name [
    | none ↦ (success, ses, live)
    | some name ↦ load_cipher mem u sop alg name ses live
  ]

  -- The hash key: nothing is copied if `mackey` is NULL.
  unfoldable pub get_mackey : Memory → UserSpace → SessionOp → Option (List ℕ)
  get_mackey mem u sop =
      if sop.mackey == 0
      then some (take sop.mackeylen mem.stack)
      else copy_from_user u sop.mackey sop.mackeylen

  unfoldable pub reset_new_hash : Code × Hashing api × ℕ → Session api → Option Setup
  reset_new_hash made ses =
      if is_nonzero made.0
      then some (fail einval, record ses { hdata = made.1 }, made.2)
      else cryptodev_hash_reset api made.1 >>= λ r. some (r.0, record ses { hdata = r.1 }, made.2)

  unfoldable pub load_hash :
      Memory → UserSpace → SessionOp → HashAlg → String → Session api → ℕ → Option Setup
  load_hash mem u sop alg name ses live =
      if ltb hmac_max_key_len sop.mackeylen
      then some (fail einval, ses, live)
      else elim (get_mackey mem u sop) [
        | none ↦ some (fail efault, ses, live)
        | some mackey ↦
            reset_new_hash
              (cryptodev_hash_init api mem.hash_request_ok live name alg.hmac_mode mackey ses.hdata)
              ses
      ]

  unfoldable pub set_up_hash :
      Memory → UserSpace → SessionOp → HashAlg → Session api → ℕ → Option Setup
  set_up_hash mem u sop alg ses live = elim alg.name [
    | none ↦ some (success, ses, live)
    | some name ↦ load_hash mem u sop alg name ses live
  ]

  abbrev pub count_true : Bool → Bool → ℕ
  count_true a b = (if a then 1 else 0) + (if b then 1 else 0)

  -- The label `session_error`; `arrays` is the number of the session's arrays that are allocated.
  unfoldable pub session_error : Session api → ℕ → ℕ → ℕ
  session_error ses arrays live =
      let h = cryptodev_hash_deinit api ses.hdata live in
      let c = cryptodev_cipher_deinit api ses.cdata h.1 in c.1 - arrays - 1

  -- The two arrays, after the cipher and the hash; or the jump to `session_error`.
  unfoldable pub set_up_arrays : Memory → Setup → Setup
  set_up_arrays mem made =
      let arrays = count_true mem.pages_ok mem.sg_ok in
      let ses : Session api = record (made.1) {
        alignmask = max made.1.cdata.alignmask made.1.hdata.alignmask;
        user = record {
          array_size = default_prealloc_pages;
          used_pages = 0;
          readonly_pages = 0;
          pages = replicate default_prealloc_pages 0;
        };
      } in
      if is_nonzero made.0
      then (made.0, made.1, session_error made.1 0 made.2)
      else if mem.pages_ok && mem.sg_ok
      then (success, ses, made.2 + arrays)
      else (fail enomem, ses, session_error ses arrays (made.2 + arrays))

  -- The part of `crypto_create_session` between the allocation of the session and the random number.
  unfoldable pub set_up : Memory → UserSpace → SessionOp → CipherAlg → HashAlg → ℕ → Option Setup
  set_up mem u sop calg halg live =
      let c = set_up_cipher mem u sop calg zeroed_session (live + 1) in
      if is_nonzero c.0
      then some (c.0, c.1, session_error c.1 0 c.2)
      else (if calg.aead then some c else set_up_hash mem u sop halg c.1 c.2) >>= λ h.
          some (set_up_arrays mem h)
