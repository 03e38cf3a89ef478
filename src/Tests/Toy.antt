-- ===== src/Tests/Toy.antt =====
-- A crypto API for the tests: the null cipher, an AEAD that only adds a tag, and a hash that keeps
-- what it has read.
use cryptodev_linux.Prelude.{
  ℕ, ◌+◌, ◌/◌, ◌%◌, ◌≡◌, refl, true, false, none, some, List, [], ◌∷◌, ◌++◌, append_assoc, success,
  ◌-◌, length, take, replicate,
}
use cryptodev_linux.Cryptlib.Api.{CryptoApi, Submitted}
use cryptodev_linux.Cryptlib.Wait.{waitfor}
use cryptodev_linux.Cryptlib.Cipher.{cryptodev_cipher_encrypt, cryptodev_cipher_decrypt}
use cryptodev_linux.Session.Defs.{Session}
use cryptodev_linux.User.{UserSpace}
use cryptodev_linux.Zc.Defs.{Paging}
use cryptodev_linux.Zc.Cover.{frames}
use cryptodev_linux.Sg.{page_size}
use cryptodev_linux.Run.Chunks.{IsIncremental}
use cryptodev_linux.Authenc.RoundTrip.Mac.{IsHashApi}
use cryptodev_linux.Authenc.RoundTrip.InPlace.{Deciphers}

abbrev pub sum : List ℕ → ℕ
sum [] = 0
sum (x ∷ xs) = x + sum xs

abbrev pub at_once : {A : Type 0} → A → Submitted A
at_once a = record { ret = success; callbacks = []; after = a }

abbrev pub toy : CryptoApi
toy = record {
  Hash = List ℕ;
  Blkcipher = ℕ;
  Aead = ℕ;
  alloc_ahash = λ name. some [];
  ahash_setkey = λ h key. (success, key);
  ahash_digestsize = λ h. 2;
  ahash_alignmask = λ h. 0;
  ahash_init = λ h. (success, h);
  ahash_update = λ h bytes. at_once (h ++ bytes);
  ahash_final = λ h. at_once (h, sum h % 256 ∷ (length h % 256 ∷ []));
  ahash_statesize = λ h. 64;
  ahash_export = λ h. (success, h);
  ahash_import = λ h state. (success, state);
  alloc_blkcipher = λ name. some 4;
  blkcipher_min_keysize = λ s. 0;
  blkcipher_max_keysize = λ s. 32;
  blkcipher_blocksize = λ s. s;
  blkcipher_ivsize = λ s. 0;
  blkcipher_alignmask = λ s. 0;
  blkcipher_setkey = λ s key. (success, s);
  blkcipher_encrypt = λ s iv src. at_once (s, iv, src);
  blkcipher_decrypt = λ s iv src. at_once (s, iv, src);
  alloc_aead = λ name. none;
  aead_blocksize = λ s. 1;
  aead_ivsize = λ s. 12;
  aead_alignmask = λ s. 0;
  aead_setkey = λ s key. (success, s);
  aead_authsize = λ s. s;
  aead_setauthsize = λ s n. n;
  aead_set_ad = λ s n. s;
  aead_encrypt = λ s iv src. at_once (s, iv, src ++ replicate s 9);
  aead_decrypt = λ s iv src. at_once (s, iv, take (length src - s) src);
}

pub toy-IsIncremental : IsIncremental toy
toy-IsIncremental = record { succeeds = λ h bytes. refl; chunked = λ h xs ys. append_assoc h xs ys }

pub toy-IsHashApi : IsHashApi toy
toy-IsHashApi = record { updates = λ h bytes. refl; finishes = λ h. refl }

-- A session with the null cipher and the hash, one without the hash, and one without the cipher.
abbrev pub toy_session : Session toy
toy_session = record {
  sid = 7;
  alignmask = 0;
  cdata = record {
    init = true;
    blocksize = 4;
    aead = false;
    stream = false;
    ivsize = 0;
    alignmask = 0;
    request = some 4;
    arequest = none;
    iv = replicate 16 0;
  };
  hdata = record { init = true; digestsize = 2; alignmask = 0; request = some [] };
  user = record { array_size = 32; used_pages = 0; readonly_pages = 0; pages = replicate 32 0 };
  locked = false;
}

abbrev pub hash_session : Session toy
hash_session = record toy_session { sid = 8; cdata = record (toy_session.cdata) { init = false } }

pub toy-Deciphers :
    (plain : List ℕ)
    → length plain % 4 ≡ 0
    → Deciphers toy toy_session.cdata toy_session.cdata plain
unfolding cryptodev_cipher_encrypt cryptodev_cipher_decrypt waitfor
toy-Deciphers plain blocks = record {
  out = plain;
  after_encrypt = toy_session.cdata;
  after_decrypt = toy_session.cdata;
  encrypts = refl;
  same_length = refl;
  decrypts = refl;
  same_blocks = refl;
}

-- A process in which everything can be read and written; the byte at `a` is `a` modulo 256.
abbrev pub toy_space : UserSpace
toy_space = record {
  ram = λ a. a % 256;
  frame = λ v. v + 100;
  readable = λ a n. true;
  writable = λ a n. true;
}

abbrev pub toy_paging : Paging
toy_paging = record {
  get_user_pages = λ addr pgcount write. frames toy_space.frame (addr / page_size) pgcount;
  reserved = λ page. false;
  pages_ok = true;
  sg_ok = true;
  stale = λ i. record { page = 0; offset = 0; length = 0 };
}
