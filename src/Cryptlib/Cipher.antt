-- ===== src/Cryptlib/Cipher.antt =====
-- `struct cipher_data` and its operations. `none` is a wait that nothing ends, or a NULL pointer that
-- is followed. `live` counts the transforms and requests that are allocated.
use cryptodev_linux.Prelude.{
  ℕ, ◌+◌, ◌-◌, Bool, true, false, ◌&&◌, Option, none, some, List, ◌++◌, Code, fail, einval, enomem,
  success, is_nonzero, if◌then◌else◌, ◌>>=◌, length, take, drop, min,
}
use Prim.Native.String.{String}
use cryptodev_linux.Cryptlib.Api.{CryptoApi, Submitted}
use cryptodev_linux.Cryptlib.Wait.{waitfor}
use cryptodev_linux.Cryptlib.Keys.{check_key_size}

pub record CipherData (B A : Type 0) : Type 0 where
  pub init : Bool
  pub blocksize : ℕ
  pub aead : Bool
  pub stream : Bool
  pub ivsize : ℕ
  pub alignmask : ℕ
  pub request : Option B
  pub arequest : Option A
  pub iv : List ℕ

-- EALG_MAX_BLOCK_LEN, the size of an `iv` buffer.
abbrev pub max_block_len : ℕ
max_block_len = 16

-- `memcpy(to, from, n)` on byte buffers.
abbrev pub memcpy : List ℕ → List ℕ → ℕ → List ℕ
memcpy to from n = take n from ++ drop n to

module _ (api : CryptoApi) where
  open api use {
    Blkcipher, Aead, alloc_blkcipher, blkcipher_min_keysize, blkcipher_max_keysize,
    blkcipher_blocksize, blkcipher_ivsize, blkcipher_alignmask, blkcipher_setkey, blkcipher_encrypt,
    blkcipher_decrypt, alloc_aead, aead_blocksize, aead_ivsize, aead_alignmask, aead_setkey,
    aead_authsize, aead_setauthsize, aead_set_ad, aead_encrypt, aead_decrypt,
  }

  abbrev pub Cipher : Type 0
  Cipher = CipherData Blkcipher Aead

  -- The end of `cryptodev_cipher_init`: the request, or the jump to `error` that frees the transform.
  unfoldable pub finish_init : Bool → ℕ → Bool → Bool → Cipher → Code × Cipher × ℕ
  finish_init request_ok live stream aead out =
      if request_ok
      then (success, record out { stream = stream; aead = aead; init = true }, live + 1)
      else (fail enomem, record out { stream = stream; aead = aead }, live - 1)

  unfoldable pub init_blkcipher : Bool → ℕ → List ℕ → Bool → Cipher → Blkcipher → Code × Cipher × ℕ
  init_blkcipher request_ok live key stream out s =
      let size = check_key_size (length key) (blkcipher_min_keysize s) (blkcipher_max_keysize s) in
      let keyed = blkcipher_setkey s key in
      let out' : Cipher = record out {
        blocksize = blkcipher_blocksize s;
        ivsize = blkcipher_ivsize s;
        alignmask = blkcipher_alignmask s;
        request = some keyed.1;
      } in
      if is_nonzero size
      then (size, record out { request = some s }, live + 1 - 1)
      else if is_nonzero keyed.0
      then (fail einval, out', live + 1 - 1)
      else finish_init request_ok (live + 1) stream false out'

  unfoldable pub init_aead : Bool → ℕ → List ℕ → Bool → Cipher → Aead → Code × Cipher × ℕ
  init_aead request_ok live key stream out as_ =
      let keyed = aead_setkey as_ key in
      let out' : Cipher = record out {
        blocksize = aead_blocksize as_;
        ivsize = aead_ivsize as_;
        alignmask = aead_alignmask as_;
        arequest = some keyed.1;
      } in
      if is_nonzero keyed.0
      then (fail einval, out', live + 1 - 1)
      else finish_init request_ok (live + 1) stream true out'

  -- `request_ok` says whether the request can be allocated.
  unfoldable pub cryptodev_cipher_init :
      Bool → ℕ → String → List ℕ → Bool → Bool → Cipher → Code × Cipher × ℕ
  cryptodev_cipher_init request_ok live alg_name key stream false out =
      elim (alloc_blkcipher alg_name) [
        | none ↦ (fail einval, out, live)
        | some s ↦ init_blkcipher request_ok live key stream out s
      ]
  cryptodev_cipher_init request_ok live alg_name key stream true out = elim (alloc_aead alg_name) [
    | none ↦ (fail einval, out, live)
    | some as_ ↦ init_aead request_ok live key stream out as_
  ]

  unfoldable pub cryptodev_cipher_deinit : Cipher → ℕ → Cipher × ℕ
  cryptodev_cipher_deinit cdata live =
      if cdata.init then (record cdata { init = false }, live - 2) else (cdata, live)

  -- A request that has been set up: the wait, and what it leaves.
  abbrev pub finish_blkcipher :
      Cipher → Submitted (Blkcipher × List ℕ × List ℕ) → Option (Code × Cipher × List ℕ)
  finish_blkcipher cdata sub = waitfor sub.ret sub.callbacks >>= λ ret.
      some (ret, record cdata { request = some sub.after.0; iv = sub.after.1 }, sub.after.2)

  abbrev pub finish_aead :
      Cipher → Submitted (Aead × List ℕ × List ℕ) → Option (Code × Cipher × List ℕ)
  finish_aead cdata sub = waitfor sub.ret sub.callbacks >>= λ ret.
      some (ret, record cdata { arequest = some sub.after.0; iv = sub.after.1 }, sub.after.2)

  unfoldable pub cryptodev_cipher_encrypt : Cipher → List ℕ → Option (Code × Cipher × List ℕ)
  cryptodev_cipher_encrypt cdata src =
      if cdata.aead
      then (cdata.arequest >>= λ arequest. finish_aead cdata (aead_encrypt arequest cdata.iv src))
      else cdata.request >>= λ request.
          finish_blkcipher cdata (blkcipher_encrypt request cdata.iv src)

  unfoldable pub cryptodev_cipher_decrypt : Cipher → List ℕ → Option (Code × Cipher × List ℕ)
  cryptodev_cipher_decrypt cdata src =
      if cdata.aead
      then (cdata.arequest >>= λ arequest. finish_aead cdata (aead_decrypt arequest cdata.iv src))
      else cdata.request >>= λ request.
          finish_blkcipher cdata (blkcipher_decrypt request cdata.iv src)

  unfoldable pub cryptodev_cipher_auth : Cipher → ℕ → Option Cipher
  cryptodev_cipher_auth cdata len = cdata.arequest >>= λ arequest.
      some (record cdata { arequest = some (aead_set_ad arequest len) })

  unfoldable pub cryptodev_cipher_set_tag_size : Cipher → ℕ → Option Cipher
  cryptodev_cipher_set_tag_size cdata size =
      if cdata.aead
      then (cdata.arequest >>= λ as_.
          some (record cdata { arequest = some (aead_setauthsize as_ size) }))
      else some cdata

  unfoldable pub cryptodev_cipher_get_tag_size : Cipher → Option ℕ
  cryptodev_cipher_get_tag_size cdata =
      if cdata.init && cdata.aead
      then (cdata.arequest >>= λ as_. some (aead_authsize as_))
      else some 0

  unfoldable pub cryptodev_cipher_set_iv : Cipher → List ℕ → ℕ → Cipher
  cryptodev_cipher_set_iv cdata iv iv_size = record cdata {
    iv = memcpy cdata.iv iv (min iv_size max_block_len);
  }

  unfoldable pub cryptodev_cipher_get_iv : Cipher → List ℕ → ℕ → List ℕ
  cryptodev_cipher_get_iv cdata iv iv_size = memcpy iv cdata.iv (min iv_size max_block_len)
