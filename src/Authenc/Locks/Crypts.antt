-- ===== src/Authenc/Locks/Crypts.antt =====
-- An authenticated operation leaves what a lock protects as it was (authenc.c).
use cryptodev_linux.Prelude.{
  ℕ, ◌+◌, refl, ap, ◌∙◌, not, Option, some, List, Code, ltb, ◌==◌, if◌then◌else◌, Always,
  Always-bind, Always-chain, Always-if, Always-imp,
}
use cryptodev_linux.Cryptlib.Api.{CryptoApi}
use cryptodev_linux.Cryptlib.Cipher.{
  Cipher, cryptodev_cipher_encrypt, cryptodev_cipher_decrypt, cryptodev_cipher_get_tag_size,
  cryptodev_cipher_set_tag_size, cryptodev_cipher_auth,
}
use cryptodev_linux.Cryptlib.Keeps.{
  KeepsCipher, KeepsSetup, encrypt_lem, decrypt_lem, auth_lem, set_tag_size_lem,
}
use cryptodev_linux.Session.Defs.{Session}
use cryptodev_linux.Session.Locks.{SameKey}
use cryptodev_linux.Run.Defs.{cop_encrypt}
use cryptodev_linux.Authenc.Buffer.{sg_get, sg_put}
use cryptodev_linux.Authenc.Request.{KernelCryptAuthOp}
use cryptodev_linux.Authenc.Run.{AuthCrypted, aead_crypt, auth_n_crypt, Authed}

module _ (api : CryptoApi) where
  abbrev pub crypted : AuthCrypted api → Session api
  crypted r = r.1

  abbrev pub authed : Authed api → Session api
  authed r = r.ses

  abbrev pub reset : Code × Session api → Session api
  reset r = r.1

  abbrev Crypts : Session api → AuthCrypted api → Type 0
  Crypts ses r = SameKey api ses (crypted r)

  abbrev pub Auths : Session api → Authed api → Type 0
  Auths ses r = SameKey api ses (authed r)

  aead_crypt-Same :
      (kcaop : KernelCryptAuthOp) (auth_len len : ℕ) (src dst : List ℕ) (ses : Session api)
      → Always (Crypts ses) (aead_crypt api kcaop auth_len len src dst ses)
  unfolding aead_crypt
  aead_crypt-Same kcaop auth_len len src dst ses =
      Always-bind (Crypts ses) (sg_get src 0 (auth_len + len)) _ (λ input.
        Always-chain (KeepsCipher api ses.cdata) (Crypts ses)
          (if kcaop.caop.op == cop_encrypt
            then cryptodev_cipher_encrypt api ses.cdata input
            else cryptodev_cipher_decrypt api ses.cdata input)
          _
          (Always-if (KeepsCipher api ses.cdata) (kcaop.caop.op == cop_encrypt) _ _
            (encrypt_lem api ses.cdata input) (decrypt_lem api ses.cdata input))
          (λ c e.
            Always-bind (Crypts ses) (sg_put dst 0 c.2) _
              (λ d. ap (λ i. (ses.sid, i, ses.hdata.init)) e)))

  -- A session whose cipher has been set up for the operation.
  set_lem :
      (ses : Session api) (cdata : Cipher api)
      → KeepsSetup api ses.cdata cdata
      → (B : Type 0) (at_b : B → Session api) (o : Option B)
      → Always (λ b. SameKey api (record ses { cdata = cdata }) (at_b b)) o
      → Always (λ b. SameKey api ses (at_b b)) o
  set_lem ses cdata e B at_b o h =
      Always-imp (λ b. SameKey api (record ses { cdata = cdata }) (at_b b))
        (λ b. SameKey api ses (at_b b)) o (λ b i. i ∙ ap (λ c. (ses.sid, c, ses.hdata.init)) e) h

  pub auth_n_crypt-Same :
      (ses : Session api) (kcaop : KernelCryptAuthOp) (auth_len : ℕ) (src dst : List ℕ) (len : ℕ)
      → Always (Crypts ses) (auth_n_crypt api ses kcaop auth_len src dst len)
  unfolding auth_n_crypt
  auth_n_crypt-Same ses kcaop auth_len src dst len =
      let given = not (kcaop.caop.tag_len == 0) in
      Always-bind (Crypts ses) (cryptodev_cipher_get_tag_size api ses.cdata) _ (λ max_tag_len.
        Always-if (Crypts ses) (ltb max_tag_len kcaop.caop.tag_len) _ _ refl (
          Always-chain (KeepsSetup api ses.cdata) (Crypts ses)
            (if given
              then cryptodev_cipher_set_tag_size api ses.cdata kcaop.caop.tag_len
              else some ses.cdata)
            _
            (Always-if (KeepsSetup api ses.cdata) given _ _
              (set_tag_size_lem api ses.cdata kcaop.caop.tag_len) refl)
            (λ sized e.
              Always-chain (KeepsSetup api sized) (Crypts ses)
                (cryptodev_cipher_auth api sized auth_len) _ (auth_lem api sized auth_len)
                (λ c i.
                  set_lem ses c (i ∙ e) (AuthCrypted api) crypted _
                    (aead_crypt-Same _ auth_len len src dst (record ses { cdata = c }))))))
