-- ===== src/Authenc/Aead.antt =====
-- An AEAD in both directions (`auth_n_crypt` of authenc.c): what it encrypts, it decrypts.
use cryptodev_linux.Prelude.{
  ℕ, ◌+◌, ◌-◌, ◌%◌, ◌^◌, ◌≤◌, ◌<◌, ◌≡◌, refl, sym, ap, ◌∙◌, true, false, Bool, some, List, ◌++◌,
  success, ltb, leb, ◌==◌, if◌then◌else◌, take, drop, length, arith, length-take, length-append,
  take-length_append,
}
use cryptodev_linux.Cryptlib.Api.{CryptoApi}
use cryptodev_linux.Cryptlib.Cipher.{
  Cipher, cryptodev_cipher_encrypt, cryptodev_cipher_decrypt, cryptodev_cipher_get_tag_size,
  cryptodev_cipher_set_tag_size, cryptodev_cipher_auth,
}
use cryptodev_linux.Session.Defs.{Session}
use cryptodev_linux.Run.Defs.{cop_encrypt, cop_decrypt}
use cryptodev_linux.Authenc.Buffer.{sg_get, sg_put}
use cryptodev_linux.Authenc.Request.{KernelCryptAuthOp}
use cryptodev_linux.Authenc.Run.{AuthCrypted, aead_crypt, auth_n_crypt}

sg_get_lem : (buf : List ℕ) (n : ℕ) → n ≤ length buf → sg_get buf 0 n ≡ some (take n buf)
unfolding sg_get
sg_get_lem buf n h = let e : leb (0 + n) (length buf) ≡ true = ground arith in rw e refl

sg_put_lem :
    (buf bytes : List ℕ)
    → length bytes ≤ length buf
    → sg_put buf 0 bytes ≡ some (bytes ++ drop (length bytes) buf)
unfolding sg_put
sg_put_lem buf bytes h =
    let z : 0 + length bytes ≡ length bytes = omega arith in
    let e : leb (length bytes) (length buf) ≡ true = ground arith in rw (z, e) refl

taken_lem : (xs rest buf : List ℕ) (n : ℕ) → buf ≡ xs ++ rest → length xs ≡ n → take n buf ≡ xs
taken_lem xs rest buf n e size = rw (e, sym size) (take-length_append xs rest)

module _ (api : CryptoApi) where
  -- The cipher of a session, set up for a tag and for the authenticated data.
  abbrev pub prepared : Cipher api → api.Aead → ℕ → ℕ → Cipher api
  prepared cdata a tag_len auth_len = record cdata {
    arequest = some (api.aead_set_ad (api.aead_setauthsize a tag_len) auth_len);
  }

  -- A session with an AEAD that takes a tag of this length.
  pub record IsAead (ses : Session api) (a : api.Aead) (tag_len : ℕ) : Type 0 where
    pub init : ses.cdata.init ≡ true
    pub aead : ses.cdata.aead ≡ true
    pub transform : ses.cdata.arequest ≡ some a
    pub some_tag : 0 < tag_len
    pub tag_fits : tag_len ≤ api.aead_authsize a

  -- The second cipher opens what the first seals; a seal adds the tag.
  pub record Opens (first second : Cipher api) (tag_len : ℕ) (src : List ℕ) : Type 0 where
    pub out : List ℕ
    pub after_seal : Cipher api
    pub after_open : Cipher api
    pub seals : cryptodev_cipher_encrypt api first src ≡ some (success, after_seal, out)
    pub longer : length out ≡ length src + tag_len
    pub opens : cryptodev_cipher_decrypt api second out ≡ some (success, after_open, src)

  -- The set-up of `auth_n_crypt`.
  set_up_lem :
      (ses : Session api) (a : api.Aead) (kcaop : KernelCryptAuthOp) (auth_len : ℕ)
      (src dst : List ℕ) (len : ℕ)
      → IsAead ses a kcaop.caop.tag_len
      → auth_n_crypt api ses kcaop auth_len src dst len
        ≡ aead_crypt api kcaop auth_len len src dst
            (record ses { cdata = prepared ses.cdata a kcaop.caop.tag_len auth_len })
  unfolding auth_n_crypt cryptodev_cipher_get_tag_size cryptodev_cipher_set_tag_size
      cryptodev_cipher_auth
  set_up_lem ses a kcaop auth_len src dst len i =
      let tag : (kcaop.caop.tag_len == 0) ≡ false = ground (arith, i.some_tag) in
      let fits : ltb (api.aead_authsize a) kcaop.caop.tag_len ≡ false =
        ground (arith, i.tag_fits) in
      simp (i.init, i.aead, i.transform, tag, fits)

  dst_len_lem :
      (kcaop : KernelCryptAuthOp) (len : ℕ) (encrypt : Bool)
      → (if encrypt
          then record kcaop {
            caop = record (kcaop.caop) { tag = (kcaop.caop.dst + len) % 2 ^ 64 };
            dst_len = len + kcaop.caop.tag_len;
          }
          else record kcaop {
            caop = record (kcaop.caop) {
              tag = (kcaop.caop.dst + len + 2 ^ 64 - kcaop.caop.tag_len) % 2 ^ 64;
            };
            dst_len = (len + 2 ^ 32 - kcaop.caop.tag_len) % 2 ^ 32;
          }).dst_len
        ≡ (if encrypt
            then len + kcaop.caop.tag_len
            else (len + 2 ^ 32 - kcaop.caop.tag_len) % 2 ^ 32)
  dst_len_lem kcaop len true = refl
  dst_len_lem kcaop len false = refl

  -- Both directions of `aead_crypt`.
  crypted_lem :
      (kcaop : KernelCryptAuthOp) (auth_len len : ℕ) (src dst : List ℕ) (ses : Session api)
      (out : List ℕ) (after : Cipher api)
      → auth_len + len ≤ length src
      → length out ≤ length dst
      → (if kcaop.caop.op == cop_encrypt
          then cryptodev_cipher_encrypt api ses.cdata (take (auth_len + len) src)
          else cryptodev_cipher_decrypt api ses.cdata (take (auth_len + len) src))
        ≡ some (success, after, out)
      → (r : AuthCrypted api) × (aead_crypt api kcaop auth_len len src dst ses ≡ some r)
        × (r.0 ≡ success)
        × (r.2.dst_len ≡ (
            if kcaop.caop.op == cop_encrypt
            then len + kcaop.caop.tag_len
            else (len + 2 ^ 32 - kcaop.caop.tag_len) % 2 ^ 32))
        × (r.3 ≡ out ++ drop (length out) dst)
  unfolding aead_crypt
  crypted_lem kcaop auth_len len src dst ses out after h g e =
      rw (sg_get_lem src (auth_len + len) h, e, sg_put_lem dst out g)
        (_, refl, refl, dst_len_lem kcaop len (kcaop.caop.op == cop_encrypt), refl)

  seal_lem :
      (ses : Session api) (a : api.Aead) (kcaop : KernelCryptAuthOp) (auth_len len : ℕ)
      (src dst out : List ℕ) (after : Cipher api)
      → IsAead ses a kcaop.caop.tag_len
      → kcaop.caop.op ≡ cop_encrypt
      → auth_len + len ≤ length src
      → length out ≤ length dst
      → cryptodev_cipher_encrypt api
          (prepared ses.cdata a kcaop.caop.tag_len auth_len)
          (take (auth_len + len) src)
        ≡ some (success, after, out)
      → (r : AuthCrypted api) × (auth_n_crypt api ses kcaop auth_len src dst len ≡ some r)
        × (r.0 ≡ success)
        × (r.2.dst_len ≡ len + kcaop.caop.tag_len)
        × (r.3 ≡ out ++ drop (length out) dst)
  seal_lem ses a kcaop auth_len len src dst out after i e fits room seals =
      let enc : (kcaop.caop.op == cop_encrypt) ≡ true = ground (arith, e) in
      let done =
        crypted_lem kcaop auth_len len src dst
          (record ses { cdata = prepared ses.cdata a kcaop.caop.tag_len auth_len }) out after fits
          room (rw enc seals) in
      (
        done.0,
        set_up_lem ses a kcaop auth_len src dst len i ∙ done.1,
        done.2,
        done.3 ∙ rw enc refl,
        done.4,
      )

  open_lem :
      (ses : Session api) (a : api.Aead) (kcaop : KernelCryptAuthOp) (auth_len len : ℕ)
      (sealed rest out dst input : List ℕ) (after : Cipher api)
      → IsAead ses a kcaop.caop.tag_len
      → kcaop.caop.op ≡ cop_decrypt
      → len < 2 ^ 32
      → sealed ≡ out ++ rest
      → length out ≡ auth_len + len + kcaop.caop.tag_len
      → length input ≡ auth_len + len
      → auth_len + len ≤ length dst
      → cryptodev_cipher_decrypt api (prepared ses.cdata a kcaop.caop.tag_len auth_len) out
        ≡ some (success, after, input)
      → (r : AuthCrypted api) × (auth_n_crypt api ses kcaop auth_len sealed dst
            (len + kcaop.caop.tag_len)
          ≡ some r)
        × (r.0 ≡ success)
        × (r.2.dst_len ≡ len)
        × (take (auth_len + len) r.3 ≡ input)
  open_lem ses a kcaop auth_len len sealed rest out dst input after i d small e out_size size room
        opens =
      let n = len + kcaop.caop.tag_len in
      let dec : (kcaop.caop.op == cop_encrypt) ≡ false = ground (arith, d) in
      let whole = taken_lem out rest sealed (auth_len + n) e (omega (arith, out_size)) in
      let done =
        crypted_lem kcaop auth_len n sealed dst
          (record ses { cdata = prepared ses.cdata a kcaop.caop.tag_len auth_len }) input after
          (omega (arith, out_size, ap length e, length-append out rest)) (omega (arith, size))
          (rw (dec, whole) opens) in
      (
        done.0,
        set_up_lem ses a kcaop auth_len sealed dst n i ∙ done.1,
        done.2,
        done.3 ∙ rw dec (omega (arith, small)),
        taken_lem input (drop (length input) dst) done.0.3 (auth_len + len) done.4 size,
      )

  -- What `auth_n_crypt` encrypts, it decrypts: if the sessions have an AEAD each, whose ciphers,
  -- set up for the tag and the authenticated data, undo each other as documented, then an
  -- encryption into a buffer with room for the tag succeeds, with a `dst_len` that is longer by the
  -- tag; and the decryption of its result succeeds with the `dst_len` of the start, and leaves the
  -- authenticated data and the plain text.
  pub auth_n_crypt_returns :
      (ses ses2 : Session api) (a a2 : api.Aead) (kcaop kcaop2 : KernelCryptAuthOp)
      (auth_len len : ℕ) (src dst dst2 : List ℕ)
      → IsAead ses a kcaop.caop.tag_len
      → IsAead ses2 a2 kcaop2.caop.tag_len
      → kcaop.caop.op ≡ cop_encrypt
      → kcaop2.caop.op ≡ cop_decrypt
      → kcaop2.caop.tag_len ≡ kcaop.caop.tag_len
      → len < 2 ^ 32
      → auth_len + len ≤ length src
      → auth_len + len + kcaop.caop.tag_len ≤ length dst
      → auth_len + len ≤ length dst2
      → ((input : List ℕ)
          → length input ≡ auth_len + len
          → Opens
              (prepared ses.cdata a kcaop.caop.tag_len auth_len)
              (prepared ses2.cdata a2 kcaop2.caop.tag_len auth_len)
              kcaop.caop.tag_len
              input)
      → (r : AuthCrypted api) × (auth_n_crypt api ses kcaop auth_len src dst len ≡ some r)
        × (r.0 ≡ success)
        × (r.2.dst_len ≡ len + kcaop.caop.tag_len)
        × (r2 : AuthCrypted api) × (auth_n_crypt api ses2 kcaop2 auth_len r.3 dst2
              (len + kcaop.caop.tag_len)
            ≡ some r2)
        × (r2.0 ≡ success)
        × (r2.2.dst_len ≡ len)
        × (take (auth_len + len) r2.3 ≡ take (auth_len + len) src)
  auth_n_crypt_returns ses ses2 a a2 kcaop kcaop2 auth_len len src dst dst2 i i2 e d t small fits
        room room2 opens =
      let input = take (auth_len + len) src in
      let size : length input ≡ auth_len + len = omega (arith, length-take (auth_len + len) src) in
      let o = opens input size in
      let out_size : length o.out ≡ auth_len + len + kcaop.caop.tag_len =
        omega (arith, o.longer, size) in
      let sealed =
        seal_lem ses a kcaop auth_len len src dst o.out o.after_seal i e fits
          (omega (arith, out_size)) o.seals in
      let opened =
        open_lem ses2 a2 kcaop2 auth_len len sealed.0.3 (drop (length o.out) dst) o.out dst2 input
          o.after_open i2 d small sealed.4 (omega (arith, out_size, t)) size room2 o.opens in
      (
        sealed.0,
        sealed.1,
        sealed.2,
        sealed.3,
        opened.0,
        ap (λ n. auth_n_crypt api ses2 kcaop2 auth_len sealed.0.3 dst2 (len + n)) (sym t)
            ∙ opened.1,
        opened.2,
        opened.3,
        opened.4,
      )
