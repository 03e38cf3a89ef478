-- ===== src/Session/Defs.antt =====
-- `struct csession`, and the functions of ioctl.c on the list of sessions. `none` is a wait for a
-- lock that the waiting thread holds itself, or undefined behaviour.
mod SetUp
unfoldable pub use SetUp.*
use cryptodev_linux.Prelude.{
  ℕ, zero, suc, ◌+◌, ◌-◌, max, Bool, true, false, ◌&&◌, Option, none, some, List, [], ◌∷◌, Code,
  fail, einval, enomem, efault, enoent, success, is_nonzero, is_negative, ltb, ◌==◌, if◌then◌else◌,
  ◌>>=◌, replicate, take,
}
use Prim.Native.String.{String}
use cryptodev_linux.User.{UserSpace, copy_from_user}
use cryptodev_linux.Zc.Defs.{UserPages}
use cryptodev_linux.Cryptlib.Api.{CryptoApi}
use cryptodev_linux.Cryptlib.Keys.{
  SessionOp, hmac_max_key_len, cryptodev_get_cipher_keylen, cryptodev_get_cipher_key,
}
use cryptodev_linux.Cryptlib.Cipher.{
  Cipher, max_block_len, cryptodev_cipher_init, cryptodev_cipher_deinit,
}
use cryptodev_linux.Cryptlib.Hash.{
  Hashing, cryptodev_hash_init, cryptodev_hash_deinit, cryptodev_hash_reset, cryptodev_hash_copy,
}
use cryptodev_linux.Session.Algorithms.{CipherAlg, HashAlg, cipher_alg, hash_alg}

module _ (api : CryptoApi) where
  unfoldable pub has_sid : ℕ → List (Session api) → Bool
  has_sid sid [] = false
  has_sid sid (ses ∷ fcr) = if sid == ses.sid then true else has_sid sid fcr

  -- The numbers from `get_random_bytes`, until one is not in use (`restart`): at most `fuel` are
  -- drawn. The result is the number and the place of the next.
  unfoldable pub fresh_sid : ℕ → (ℕ → ℕ) → ℕ → List (Session api) → Option (ℕ × ℕ)
  fresh_sid zero random n fcr = none
  fresh_sid (suc fuel) random n fcr =
      let again = fresh_sid fuel random (suc n) fcr in
      if has_sid (random n) fcr then again else some (random n, suc n)

  -- What `crypto_create_session` leaves.
  pub record Created : Type 0 where
    pub code : Code
    pub fcr : List (Session api)
    pub sop : SessionOp
    pub live : ℕ
    pub drawn : ℕ

  unfoldable pub add_session :
      ℕ → (ℕ → ℕ) → ℕ → List (Session api) → SessionOp → Setup api → Option Created
  add_session fuel random drawn fcr sop made =
      if is_nonzero made.0
      then some (record { code = made.0; fcr = fcr; sop = sop; live = made.2; drawn = drawn })
      else fresh_sid fuel random drawn fcr >>= λ fresh. some (record {
        code = success;
        fcr = record (made.1) { sid = fresh.0; locked = false } ∷ fcr;
        sop = record sop { ses = fresh.0 };
        live = made.2;
        drawn = fresh.1;
      })

  -- `crypto_create_session` from the allocation of the session on.
  unfoldable pub start_session :
      Memory
      → UserSpace
      → ℕ
      → (ℕ → ℕ)
      → ℕ
      → ℕ
      → List (Session api)
      → SessionOp
      → CipherAlg
      → HashAlg
      → Option Created
  start_session mem u fuel random drawn live fcr sop calg halg =
      if mem.ses_ok
      then (set_up api mem u sop calg halg live >>= add_session fuel random drawn fcr sop)
      else some (record { code = fail enomem; fcr = fcr; sop = sop; live = live; drawn = drawn })

  unfoldable pub crypto_create_session :
      Memory → UserSpace → ℕ → (ℕ → ℕ) → ℕ → ℕ → List (Session api) → SessionOp → Option Created
  crypto_create_session mem u fuel random drawn live fcr sop =
      let bad : Created = record {
        code = fail einval;
        fcr = fcr;
        sop = sop;
        live = live;
        drawn = drawn;
      } in
      if sop.cipher == 0 && sop.mac == 0 then some bad else elim (cipher_alg sop.cipher) [
        | none ↦ some bad
        | some calg ↦ elim (hash_alg sop.mac) [
          | none ↦ some bad
          | some halg ↦ start_session mem u fuel random drawn live fcr sop calg halg
        ]
      ]

  -- `crypto_destroy_session`: the count of kernel objects afterwards.
  unfoldable pub crypto_destroy_session : Session api → ℕ → Option ℕ
  crypto_destroy_session ses live =
      let c = cryptodev_cipher_deinit api ses.cdata live in
      let h = cryptodev_hash_deinit api ses.hdata c.1 in
      if ses.locked then none else some (h.1 - 2 - 1)

  -- `crypto_finish_session`. After a loop that has found nothing, `ses_ptr` is not NULL but points
  -- before the list's head, so the test behind the loop never holds and the result is 0.
  unfoldable pub crypto_finish_session :
      List (Session api) → ℕ → ℕ → Option (Code × List (Session api) × ℕ)
  crypto_finish_session [] sid live = some (success, [], live)
  crypto_finish_session (ses ∷ fcr) sid live =
      let later = crypto_finish_session fcr sid live in
      if ses.sid == sid
      then (crypto_destroy_session ses live >>= λ live'. some (success, fcr, live'))
      else later >>= λ r. some (r.0, ses ∷ r.1, r.2)

  unfoldable pub crypto_finish_all_sessions : List (Session api) → ℕ → Option ℕ
  crypto_finish_all_sessions [] live = some live
  crypto_finish_all_sessions (ses ∷ fcr) live =
      crypto_destroy_session ses live >>= λ live'. crypto_finish_all_sessions fcr live'

  -- `crypto_get_session_by_sid`: the session found, if any, and the list with it locked.
  unfoldable pub crypto_get_session_by_sid :
      List (Session api) → ℕ → Option (Option (Session api) × List (Session api))
  crypto_get_session_by_sid [] sid = some (none, [])
  crypto_get_session_by_sid (ses ∷ fcr) sid =
      let later = crypto_get_session_by_sid fcr sid in
      let held : Session api = record ses { locked = true } in
      if ses.sid == sid
      then (if ses.locked then none else some (some held, held ∷ fcr))
      else later >>= λ r. some (r.0, ses ∷ r.1)

  -- `crypto_put_session`, with what the holder has made of the session.
  unfoldable pub crypto_put_session : List (Session api) → Session api → List (Session api)
  crypto_put_session [] held = []
  crypto_put_session (ses ∷ fcr) held =
      let later = crypto_put_session fcr held in
      if ses.sid == held.sid then record held { locked = false } ∷ fcr else ses ∷ later

  unfoldable pub crypto_copy_hash_state :
      Bool → List (Session api) → ℕ → ℕ → Option (Code × List (Session api))
  crypto_copy_hash_state kzalloc fcr dst_sid src_sid = do
    (found_src, fcr1) ← crypto_get_session_by_sid fcr src_sid
    elim found_src [
      | none ↦ some (fail enoent, fcr1)
      | some src ↦ do
        (found_dst, fcr2) ← crypto_get_session_by_sid fcr1 dst_sid
        elim found_dst [
          | none ↦ some (fail enoent, crypto_put_session fcr2 src)
          | some dst ↦ do
            (ret, hdata) ← cryptodev_hash_copy api kzalloc dst.hdata src.hdata
            some (
              ret,
              crypto_put_session (crypto_put_session fcr2 src) (record dst { hdata = hdata }),
            )
        ]
    ]
