-- ===== src/Session/Objects/Init.antt =====
-- The kernel objects that the set-up of a transform leaves (cryptlib.c).
use cryptodev_linux.Prelude.{
  ℕ, ◌+◌, ◌≡◌, refl, ◌⊎◌, inl, inr, Bool, true, false, List, [], ◌∷◌, Code, fail, einval, success,
  is_nonzero, is_negative, if◌then◌else◌, length, arith, Bool-cases, Option-cases,
}
use Prim.Native.String.{String}
use cryptodev_linux.Cryptlib.Api.{CryptoApi}
use cryptodev_linux.Cryptlib.Keys.{check_key_size}
use cryptodev_linux.Cryptlib.Cipher.{
  Cipher, cryptodev_cipher_init, finish_init, init_blkcipher, init_aead,
}
use cryptodev_linux.Cryptlib.Hash.{Hashing, cryptodev_hash_init, init_ahash}
use cryptodev_linux.Session.Defs.{Session}

module _ (api : CryptoApi) where
  abbrev pub pair_of : Bool → ℕ
  pair_of init = if init then 2 else 0

  -- The kernel objects that a session holds: itself, its two arrays, and what its cipher and hash
  -- have.
  abbrev pub objects_of : Session api → ℕ
  objects_of ses = 3 + pair_of ses.cdata.init + pair_of ses.hdata.init

  abbrev pub objects : List (Session api) → ℕ
  objects [] = 0
  objects (ses ∷ fcr) = objects_of ses + objects fcr

  -- What a step of the set-up leaves allocated: a transform and a request, or nothing.
  abbrev InitResult : Code → Bool → ℕ → ℕ → Type 0
  InitResult code init live live' =
      ((code ≡ success) × (init ≡ true) × (live' ≡ live + 2))
      ⊎ ((is_negative code ≡ true) × (is_nonzero code ≡ true) × (init ≡ false) × (live' ≡ live))

  finish_init_result :
      (ok : Bool) (live : ℕ) (stream aead : Bool) (out : Cipher api)
      → out.init ≡ false
      → let r = finish_init api ok (live + 1) stream aead out in InitResult r.0 r.1.init live r.2
  unfolding finish_init
  finish_init_result true live stream aead out h = inl (refl, refl, omega arith)
  finish_init_result false live stream aead out h = inr (refl, refl, h, omega arith)

  check_key_size_result :
      (k m n : ℕ) → (check_key_size k m n ≡ success) ⊎ (check_key_size k m n ≡ fail einval)
  unfolding check_key_size
  check_key_size_result k m n = ground arith

  init_blkcipher_result :
      (ok : Bool) (live : ℕ) (key : List ℕ) (stream : Bool) (out : Cipher api) (s : api.Blkcipher)
      → out.init ≡ false
      → let r = init_blkcipher api ok live key stream out s in InitResult r.0 r.1.init live r.2
  unfolding init_blkcipher
  init_blkcipher_result ok live key stream out s h =
      elim (check_key_size_result (length key) (api.blkcipher_min_keysize s)
        (api.blkcipher_max_keysize s)) [
          | inr e ↦ rw e (inr (refl, refl, h, omega arith))
          | inl e ↦ rw e (elim (Bool-cases (is_nonzero (api.blkcipher_setkey s key).0)) [
            | inl k ↦ rw k (inr (refl, refl, h, omega arith))
            | inr k ↦ rw k (finish_init_result ok live stream false _ h)
          ])
        ]

  init_aead_result :
      (ok : Bool) (live : ℕ) (key : List ℕ) (stream : Bool) (out : Cipher api) (s : api.Aead)
      → out.init ≡ false
      → let r = init_aead api ok live key stream out s in InitResult r.0 r.1.init live r.2
  unfolding init_aead
  init_aead_result ok live key stream out s h =
      elim (Bool-cases (is_nonzero (api.aead_setkey s key).0)) [
        | inl k ↦ rw k (inr (refl, refl, h, omega arith))
        | inr k ↦ rw k (finish_init_result ok live stream true _ h)
      ]

  -- `cryptodev_cipher_init` either succeeds, with a transform and a request, or fails with a negative
  -- code and holds neither.
  pub cryptodev_cipher_init_result :
      (ok : Bool) (live : ℕ) (name : String) (key : List ℕ) (stream aead : Bool) (out : Cipher api)
      → out.init ≡ false
      → let r = cryptodev_cipher_init api ok live name key stream aead out in
        InitResult r.0 r.1.init live r.2
  unfolding cryptodev_cipher_init
  cryptodev_cipher_init_result ok live name key stream false out h =
      elim (Option-cases (api.alloc_blkcipher name)) [
        | inl e ↦ rw (e, cryptodev_cipher_init) (inr (refl, refl, h, refl))
        | inr (s, e) ↦
            rw (e, cryptodev_cipher_init) (init_blkcipher_result ok live key stream out s h)
      ]
  cryptodev_cipher_init_result ok live name key stream true out h =
      elim (Option-cases (api.alloc_aead name)) [
        | inl e ↦ rw (e, cryptodev_cipher_init) (inr (refl, refl, h, refl))
        | inr (s, e) ↦ rw (e, cryptodev_cipher_init) (init_aead_result ok live key stream out s h)
      ]

  init_ahash_result :
      (ok : Bool) (live : ℕ) (hmac_mode : Bool) (mackey : List ℕ) (hdata : Hashing api)
      (s : api.Hash)
      → hdata.init ≡ false
      → let r = init_ahash api ok live hmac_mode mackey hdata s in InitResult r.0 r.1.init live r.2
  unfolding init_ahash
  init_ahash_result ok live hmac_mode mackey hdata s h =
      elim (Bool-cases
        (is_nonzero (if hmac_mode then api.ahash_setkey s mackey else (success, s)).0)) [
          | inl k ↦ rw k (inr (refl, refl, h, omega arith))
          | inr k ↦ elim (Bool-cases ok) [
            | inl o ↦ rw (k, o) (inl (refl, refl, omega arith))
            | inr o ↦ rw (k, o) (inr (refl, refl, h, omega arith))
          ]
        ]

  pub cryptodev_hash_init_result :
      (ok : Bool) (live : ℕ) (name : String) (hmac_mode : Bool) (mackey : List ℕ)
      (hdata : Hashing api)
      → hdata.init ≡ false
      → let r = cryptodev_hash_init api ok live name hmac_mode mackey hdata in
        InitResult r.0 r.1.init live r.2
  unfolding cryptodev_hash_init
  cryptodev_hash_init_result ok live name hmac_mode mackey hdata h =
      elim (Option-cases (api.alloc_ahash name)) [
        | inl e ↦ rw (e, cryptodev_hash_init) (inr (refl, refl, h, refl))
        | inr (s, e) ↦
            rw (e, cryptodev_hash_init) (init_ahash_result ok live hmac_mode mackey hdata s h)
      ]
