-- ===== src/Cryptlib/Keeps.antt =====
-- The operations on a transform keep its `init`: only the functions that set it up or free it
-- change it.
use cryptodev_linux.Prelude.{
  ℕ, ◌≡◌, refl, Bool, ◌==◌, Code, some, List, is_negative, if◌then◌else◌, ◌>>=◌, Always,
  Always-bind, Always-if,
}
use cryptodev_linux.Cryptlib.Api.{CryptoApi, Submitted}
use cryptodev_linux.Cryptlib.Wait.{waitfor}
use cryptodev_linux.Cryptlib.Cipher.{
  Cipher, finish_blkcipher, finish_aead, cryptodev_cipher_encrypt, cryptodev_cipher_decrypt,
  cryptodev_cipher_auth, cryptodev_cipher_set_tag_size,
}
use cryptodev_linux.Cryptlib.Hash.{
  Hashing, cryptodev_hash_reset, cryptodev_hash_update, cryptodev_hash_final, cryptodev_hash_copy,
}

module _ (api : CryptoApi) where
  abbrev pub KeepsHash : Hashing api → Code × Hashing api → Type 0
  KeepsHash hdata r = r.1.init ≡ hdata.init

  abbrev pub KeepsFinal : Hashing api → Code × Hashing api × List ℕ → Type 0
  KeepsFinal hdata r = r.1.init ≡ hdata.init

  abbrev pub KeepsCipher : Cipher api → Code × Cipher api × List ℕ → Type 0
  KeepsCipher cdata r = r.1.init ≡ cdata.init

  abbrev pub KeepsSetup : Cipher api → Cipher api → Type 0
  KeepsSetup cdata c = c.init ≡ cdata.init

  pub reset_lem : (hdata : Hashing api) → Always (KeepsHash hdata) (cryptodev_hash_reset api hdata)
  unfolding cryptodev_hash_reset
  reset_lem hdata = Always-bind (KeepsHash hdata) hdata.request _ (λ q. refl)

  pub update_lem :
      (hdata : Hashing api) (sg : List ℕ)
      → Always (KeepsHash hdata) (cryptodev_hash_update api hdata sg)
  unfolding cryptodev_hash_update
  update_lem hdata sg = Always-bind (KeepsHash hdata) hdata.request _ (λ q.
      let sub = api.ahash_update q sg in
      Always-bind (KeepsHash hdata) (waitfor sub.ret sub.callbacks) _ (λ r. refl))

  pub final_lem : (hdata : Hashing api) → Always (KeepsFinal hdata) (cryptodev_hash_final api hdata)
  unfolding cryptodev_hash_final
  final_lem hdata = Always-bind (KeepsFinal hdata) hdata.request _ (λ q.
      let sub = api.ahash_final q in
      Always-bind (KeepsFinal hdata) (waitfor sub.ret sub.callbacks) _ (λ r. refl))

  import_lem :
      (dst : Hashing api) (exported : Code × List ℕ)
      → Always (KeepsHash dst) (
          if is_negative exported.0
          then some (exported.0, dst)
          else dst.request >>= λ to.
              let imported = api.ahash_import to exported.1 in
              some (imported.0, record dst { request = some imported.1 }))
  import_lem dst exported =
      Always-if (KeepsHash dst) (is_negative exported.0) _ _ refl
        (Always-bind (KeepsHash dst) dst.request _ (λ to. refl))

  pub copy_lem :
      (kzalloc : Bool) (dst src : Hashing api)
      → Always (KeepsHash dst) (cryptodev_hash_copy api kzalloc dst src)
  unfolding cryptodev_hash_copy
  copy_lem kzalloc dst src = Always-bind (KeepsHash dst) src.request _ (λ q.
      Always-if (KeepsHash dst) (api.ahash_statesize q == 0) _ _ refl
        (Always-if (KeepsHash dst) kzalloc _ _ (import_lem dst (api.ahash_export q)) refl))

  blkcipher_lem :
      (cdata : Cipher api) (sub : Submitted (api.Blkcipher × List ℕ × List ℕ))
      → Always (KeepsCipher cdata) (finish_blkcipher api cdata sub)
  blkcipher_lem cdata sub =
      Always-bind (KeepsCipher cdata) (waitfor sub.ret sub.callbacks) _ (λ r. refl)

  aead_lem :
      (cdata : Cipher api) (sub : Submitted (api.Aead × List ℕ × List ℕ))
      → Always (KeepsCipher cdata) (finish_aead api cdata sub)
  aead_lem cdata sub = Always-bind (KeepsCipher cdata) (waitfor sub.ret sub.callbacks) _ (λ r. refl)

  pub encrypt_lem :
      (cdata : Cipher api) (src : List ℕ)
      → Always (KeepsCipher cdata) (cryptodev_cipher_encrypt api cdata src)
  unfolding cryptodev_cipher_encrypt
  encrypt_lem cdata src =
      Always-if (KeepsCipher cdata) cdata.aead _ _
        (Always-bind (KeepsCipher cdata) cdata.arequest _
          (λ q. aead_lem cdata (api.aead_encrypt q cdata.iv src)))
        (Always-bind (KeepsCipher cdata) cdata.request _
          (λ q. blkcipher_lem cdata (api.blkcipher_encrypt q cdata.iv src)))

  pub decrypt_lem :
      (cdata : Cipher api) (src : List ℕ)
      → Always (KeepsCipher cdata) (cryptodev_cipher_decrypt api cdata src)
  unfolding cryptodev_cipher_decrypt
  decrypt_lem cdata src =
      Always-if (KeepsCipher cdata) cdata.aead _ _
        (Always-bind (KeepsCipher cdata) cdata.arequest _
          (λ q. aead_lem cdata (api.aead_decrypt q cdata.iv src)))
        (Always-bind (KeepsCipher cdata) cdata.request _
          (λ q. blkcipher_lem cdata (api.blkcipher_decrypt q cdata.iv src)))

  pub auth_lem :
      (cdata : Cipher api) (len : ℕ)
      → Always (KeepsSetup cdata) (cryptodev_cipher_auth api cdata len)
  unfolding cryptodev_cipher_auth
  auth_lem cdata len = Always-bind (KeepsSetup cdata) cdata.arequest _ (λ q. refl)

  pub set_tag_size_lem :
      (cdata : Cipher api) (size : ℕ)
      → Always (KeepsSetup cdata) (cryptodev_cipher_set_tag_size api cdata size)
  unfolding cryptodev_cipher_set_tag_size
  set_tag_size_lem cdata size =
      Always-if (KeepsSetup cdata) cdata.aead _ _
        (Always-bind (KeepsSetup cdata) cdata.arequest _ (λ q. refl)) refl
