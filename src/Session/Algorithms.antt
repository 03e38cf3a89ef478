-- ===== src/Session/Algorithms.antt =====
-- The two switches of `crypto_create_session`, over the numbers of `enum cryptodev_crypto_op_t`.
use cryptodev_linux.Prelude.{ℕ, Bool, true, false, Option, none, some, ◌==◌, if◌then◌else◌}
use Prim.Native.String.{String}

pub record CipherAlg : Type 0 where
  pub name : Option String
  pub stream : Bool
  pub aead : Bool

pub record HashAlg : Type 0 where
  pub name : Option String
  pub hmac_mode : Bool

abbrev block_cipher : String → Option CipherAlg
block_cipher name = some (record { name = some name; stream = false; aead = false })

abbrev stream_cipher : String → Bool → Option CipherAlg
stream_cipher name aead = some (record { name = some name; stream = true; aead = aead })

-- The switch on `sop->cipher`; `none` is the default case.
unfoldable pub cipher_alg : ℕ → Option CipherAlg
cipher_alg cipher =
    if cipher == 0
    then some (record { name = none; stream = false; aead = false })
    else if cipher == 1
    then block_cipher "cbc(des)"
    else if cipher == 2
    then block_cipher "cbc(des3_ede)"
    else if cipher == 3
    then block_cipher "cbc(blowfish)"
    else if cipher == 11
    then block_cipher "cbc(aes)"
    else if cipher == 23
    then block_cipher "ecb(aes)"
    else if cipher == 101
    then block_cipher "cbc(camellia)"
    else if cipher == 21
    then stream_cipher "ctr(aes)" false
    else if cipher == 50
    then stream_cipher "gcm(aes)" true
    else if cipher == 16
    then stream_cipher "ecb(cipher_null)" false
    else none

abbrev hmac : String → Option HashAlg
hmac name = some (record { name = some name; hmac_mode = true })

abbrev plain_hash : String → Option HashAlg
plain_hash name = some (record { name = some name; hmac_mode = false })

-- The switch on `sop->mac`.
unfoldable pub hash_alg : ℕ → Option HashAlg
hash_alg mac =
    if mac == 0
    then some (record { name = none; hmac_mode = true })
    else if mac == 6
    then hmac "hmac(md5)"
    else if mac == 8
    then hmac "hmac(rmd160)"
    else if mac == 7
    then hmac "hmac(sha1)"
    else if mac == 107
    then hmac "hmac(sha224)"
    else if mac == 18
    then hmac "hmac(sha256)"
    else if mac == 19
    then hmac "hmac(sha384)"
    else if mac == 20
    then hmac "hmac(sha512)"
    else if mac == 13
    then plain_hash "md5"
    else if mac == 102
    then plain_hash "rmd160"
    else if mac == 14
    then plain_hash "sha1"
    else if mac == 103
    then plain_hash "sha224"
    else if mac == 104
    then plain_hash "sha256"
    else if mac == 105
    then plain_hash "sha384"
    else if mac == 106
    then plain_hash "sha512"
    else none
