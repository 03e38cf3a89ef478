-- ===== src/Cryptlib/Api.antt =====
-- The kernel's crypto API, as the driver uses it: a parameter of the model.
use cryptodev_linux.Prelude.{ℕ, Option, List, Code}
use Prim.Native.String.{String}

-- A request: what the call returns, what the callback is called with afterwards, in order, and what
-- the request leaves once it is done.
pub record Submitted (A : Type 0) : Type 0 where
  pub ret : Code
  pub callbacks : List Code
  pub after : A

-- `Hash`, `Blkcipher` and `Aead` are a transform with its request. What a request reads and writes
-- are byte lists: an encryption takes the initialization vector and the data, and leaves the
-- transform, the vector and the output.
pub record CryptoApi : Type 1 where
  pub Hash : Type 0
  pub Blkcipher : Type 0
  pub Aead : Type 0
  pub alloc_ahash : String → Option Hash
  pub ahash_setkey : Hash → List ℕ → Code × Hash
  pub ahash_digestsize : Hash → ℕ
  pub ahash_alignmask : Hash → ℕ
  pub ahash_init : Hash → Code × Hash
  pub ahash_update : Hash → List ℕ → Submitted Hash
  pub ahash_final : Hash → Submitted (Hash × List ℕ)
  pub ahash_statesize : Hash → ℕ
  pub ahash_export : Hash → Code × List ℕ
  pub ahash_import : Hash → List ℕ → Code × Hash
  pub alloc_blkcipher : String → Option Blkcipher
  pub blkcipher_min_keysize : Blkcipher → ℕ
  pub blkcipher_max_keysize : Blkcipher → ℕ
  pub blkcipher_blocksize : Blkcipher → ℕ
  pub blkcipher_ivsize : Blkcipher → ℕ
  pub blkcipher_alignmask : Blkcipher → ℕ
  pub blkcipher_setkey : Blkcipher → List ℕ → Code × Blkcipher
  pub blkcipher_encrypt : Blkcipher → List ℕ → List ℕ → Submitted (Blkcipher × List ℕ × List ℕ)
  pub blkcipher_decrypt : Blkcipher → List ℕ → List ℕ → Submitted (Blkcipher × List ℕ × List ℕ)
  pub alloc_aead : String → Option Aead
  pub aead_blocksize : Aead → ℕ
  pub aead_ivsize : Aead → ℕ
  pub aead_alignmask : Aead → ℕ
  pub aead_setkey : Aead → List ℕ → Code × Aead
  pub aead_authsize : Aead → ℕ
  pub aead_setauthsize : Aead → ℕ → Aead
  pub aead_set_ad : Aead → ℕ → Aead
  pub aead_encrypt : Aead → List ℕ → List ℕ → Submitted (Aead × List ℕ × List ℕ)
  pub aead_decrypt : Aead → List ℕ → List ℕ → Submitted (Aead × List ℕ × List ℕ)
