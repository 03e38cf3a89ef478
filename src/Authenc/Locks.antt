-- ===== src/Authenc/Locks.antt =====
-- `crypto_auth_run` (authenc.c) gives back the session that it takes, with the number and the
-- set-up it had, on every path.
mod Crypts
pub use Crypts.*
use cryptodev_linux.Prelude.{
  ℕ, ◌+◌, refl, ap, ◌∙◌, inl, inr, Bool, ◌&&◌, ◌||◌, not, min, Option, none, some, List, [], ◌++◌,
  Code, is_nonzero, ltb, ◌==◌, if◌then◌else◌, test_bit, Bool-cases, Always, Always-bind,
  Always-chain, Always-if, Always-imp, either_lem,
}
use cryptodev_linux.User.{UserSpace, copy_from_user, sg_read, sg_write}
use cryptodev_linux.Sg.{page_size}
use cryptodev_linux.Zc.Defs.{Paging, Userbuf, get_userbuf}
use cryptodev_linux.Cryptlib.Api.{CryptoApi}
use cryptodev_linux.Cryptlib.Cipher.{
  Cipher, cryptodev_cipher_encrypt, cryptodev_cipher_decrypt, cryptodev_cipher_get_tag_size,
  cryptodev_cipher_set_tag_size, cryptodev_cipher_auth, cryptodev_cipher_set_iv,
}
use cryptodev_linux.Cryptlib.Hash.{cryptodev_hash_reset}
use cryptodev_linux.Cryptlib.Keeps.{
  KeepsHash, KeepsCipher, KeepsSetup, reset_lem, encrypt_lem, decrypt_lem, auth_lem,
  set_tag_size_lem,
}
use cryptodev_linux.Session.Defs.{Session}
use cryptodev_linux.Session.Finish.{Unlocked}
use cryptodev_linux.Session.Locks.{Kept, SameKey, get_cases, once_Kept}
use cryptodev_linux.Run.Defs.{cop_encrypt, cop_decrypt, flag_tls, flag_srtp, sg_bytes}
use cryptodev_linux.Authenc.Buffer.{sg_get, sg_put}
use cryptodev_linux.Authenc.Defs.{tls_auth_n_crypt}
use cryptodev_linux.Authenc.Srtp.{srtp_auth_n_crypt}
use cryptodev_linux.Authenc.Keeps.{then-Same, sealed, tls_auth_n_crypt-Same}
use cryptodev_linux.Authenc.Keeps.Srtp.{sent, srtp_auth_n_crypt-Same}
use cryptodev_linux.Authenc.Request.{KernelCryptAuthOp}
use cryptodev_linux.Authenc.Pages.{get_userbuf_tls, get_userbuf_srtp}
use cryptodev_linux.Authenc.Run.{
  AuthCrypted, aead_crypt, auth_n_crypt, Authed, release, srtp_mapped, crypto_auth_zc_srtp,
  tls_mapped, has_auth, tls_with_auth, crypto_auth_zc_tls, aead_chained, aead_with_auth,
  aead_mapped, crypto_auth_zc_aead, crypto_auth_run_zc, auth_run_reset, auth_reset, auth_run_held,
  AuthResult, crypto_auth_run,
}

module _ (api : CryptoApi) where
  release-Same :
      (env : Paging) (got : Userbuf) (ret : Code) (ses : Session api) (kcaop : KernelCryptAuthOp)
      (u : UserSpace)
      → Auths api ses (release api env got ret ses kcaop u)
  unfolding release
  release-Same env got ret ses kcaop u = refl

  srtp_mapped-Same :
      (env : Paging) (stack : List ℕ) (ses : Session api) (kcaop : KernelCryptAuthOp)
      (u : UserSpace) (got : Userbuf)
      → Always (Auths api ses) (srtp_mapped api env stack ses kcaop u got)
  unfolding srtp_mapped
  srtp_mapped-Same env stack ses kcaop u got =
      Always-if (Auths api ses) (is_nonzero got.code) _ _ refl (
        then-Same api (sent api) (authed api) ses
          (srtp_auth_n_crypt api stack kcaop.caop
            (λ v. sg_bytes api v got.src_sg kcaop.caop.auth_len) (λ buf. sg_write u got.dst_sg buf)
            ses (sg_read u got.dst_sg))
          _ (srtp_auth_n_crypt-Same api stack kcaop.caop _ _ ses (sg_read u got.dst_sg))
          (λ r. release-Same env got r.0.ret r.0.ses _ r.1))

  zc_srtp-Same :
      (env : Paging) (stack : List ℕ) (ses : Session api) (kcaop : KernelCryptAuthOp)
      (u : UserSpace)
      → Always (Auths api ses) (crypto_auth_zc_srtp api env stack ses kcaop u)
  unfolding crypto_auth_zc_srtp
  zc_srtp-Same env stack ses kcaop u =
      Always-if (Auths api ses) (ses.cdata.init && (not ses.cdata.stream || ses.cdata.aead)) _ _
        refl
        (Always-bind (Auths api ses) (get_userbuf_srtp env kcaop ses.user) _
          (srtp_mapped-Same env stack ses kcaop u))

  tls_mapped-Same :
      (env : Paging) (stack : List ℕ) (ses : Session api) (kcaop : KernelCryptAuthOp)
      (u : UserSpace) (auth_sg : Option (List ℕ)) (got : Userbuf)
      → Always (Auths api ses) (tls_mapped api env stack ses kcaop u auth_sg got)
  unfolding tls_mapped
  tls_mapped-Same env stack ses kcaop u auth_sg got =
      Always-if (Auths api ses) (is_nonzero got.code) _ _ refl (
        then-Same api (sealed api) (authed api) ses
          (tls_auth_n_crypt api stack kcaop.caop ses auth_sg (sg_read u got.dst_sg)) _
          (tls_auth_n_crypt-Same api stack kcaop.caop ses auth_sg (sg_read u got.dst_sg))
          (λ s. release-Same env got s.ret s.ses _ _))

  tls_with_auth-Same :
      (env : Paging) (stack : List ℕ) (ses : Session api) (kcaop : KernelCryptAuthOp)
      (u : UserSpace) (auth_buf : Option (List ℕ))
      → Always (Auths api ses) (tls_with_auth api env stack ses kcaop u auth_buf)
  unfolding tls_with_auth
  tls_with_auth-Same env stack ses kcaop u none = refl
  tls_with_auth-Same env stack ses kcaop u (some auth_buf) =
      Always-bind (Auths api ses) (get_userbuf_tls env kcaop ses.user) _
        (tls_mapped-Same env stack ses kcaop u (some auth_buf))

  zc_tls-Same :
      (env : Paging) (page_ok : Bool) (stack : List ℕ) (ses : Session api)
      (kcaop : KernelCryptAuthOp) (u : UserSpace)
      → Always (Auths api ses) (crypto_auth_zc_tls api env page_ok stack ses kcaop u)
  unfolding crypto_auth_zc_tls
  zc_tls-Same env page_ok stack ses kcaop u =
      let caop = kcaop.caop in
      Always-if (Auths api ses) (ltb page_size caop.auth_len) _ _ refl (
        Always-if (Auths api ses) (not page_ok) _ _ refl (
          Always-if (Auths api ses) (has_auth api caop) _ _
            (tls_with_auth-Same env stack ses kcaop u
              (copy_from_user u caop.auth_src caop.auth_len))
            (Always-bind (Auths api ses) (get_userbuf_tls env kcaop ses.user) _
              (tls_mapped-Same env stack ses kcaop u none))))

  aead_chained-Same :
      (env : Paging) (ses : Session api) (kcaop : KernelCryptAuthOp) (u : UserSpace) (got : Userbuf)
      (auth_buf : List ℕ)
      → Always (Auths api ses) (aead_chained api env ses kcaop u got auth_buf)
  unfolding aead_chained
  aead_chained-Same env ses kcaop u got auth_buf =
      let src = auth_buf ++ sg_read u got.src_sg in
      let dst = auth_buf ++ sg_read u got.dst_sg in
      then-Same api (crypted api) (authed api) ses
        (auth_n_crypt api ses kcaop kcaop.caop.auth_len src dst kcaop.caop.len) _
        (auth_n_crypt-Same api ses kcaop kcaop.caop.auth_len src dst kcaop.caop.len)
        (λ r. release-Same env got r.0 r.1 r.2 _)

  aead_with_auth-Same :
      (env : Paging) (ses : Session api) (kcaop : KernelCryptAuthOp) (u : UserSpace) (got : Userbuf)
      (auth_buf : Option (List ℕ))
      → Always (Auths api ses) (aead_with_auth api env ses kcaop u got auth_buf)
  unfolding aead_with_auth
  aead_with_auth-Same env ses kcaop u got none = release-Same env got _ ses kcaop u
  aead_with_auth-Same env ses kcaop u got (some auth_buf) =
      aead_chained-Same env ses kcaop u got auth_buf

  aead_mapped-Same :
      (env : Paging) (ses : Session api) (kcaop : KernelCryptAuthOp) (u : UserSpace) (got : Userbuf)
      → Always (Auths api ses) (aead_mapped api env ses kcaop u got)
  unfolding aead_mapped
  aead_mapped-Same env ses kcaop u got =
      let caop = kcaop.caop in
      Always-if (Auths api ses) (is_nonzero got.code) _ _ refl (
        Always-if (Auths api ses) (has_auth api caop) _ _
          (aead_with_auth-Same env ses kcaop u got (copy_from_user u caop.auth_src caop.auth_len))
          (aead_chained-Same env ses kcaop u got []))

  zc_aead-Same :
      (env : Paging) (page_ok : Bool) (ses : Session api) (kcaop : KernelCryptAuthOp)
      (u : UserSpace)
      → Always (Auths api ses) (crypto_auth_zc_aead api env page_ok ses kcaop u)
  unfolding crypto_auth_zc_aead
  zc_aead-Same env page_ok ses kcaop u =
      let caop = kcaop.caop in
      Always-if (Auths api ses) (not ses.cdata.init || not ses.cdata.stream && not ses.cdata.aead) _
        _ refl
        (Always-if (Auths api ses) (ltb page_size caop.auth_len) _ _ refl (
          Always-if (Auths api ses) (not page_ok) _ _ refl (
            Always-bind (Auths api ses)
              (get_userbuf env
                (record {
                  src = caop.src;
                  src_len = caop.len;
                  dst = caop.dst;
                  dst_len = kcaop.dst_len;
                })
                ses.user)
              _ (aead_mapped-Same env ses kcaop u))))

  run_zc-Same :
      (env : Paging) (page_ok : Bool) (stack : List ℕ) (ses : Session api)
      (kcaop : KernelCryptAuthOp) (u : UserSpace)
      → Always (Auths api ses) (crypto_auth_run_zc api env page_ok stack ses kcaop u)
  unfolding crypto_auth_run_zc
  run_zc-Same env page_ok stack ses kcaop u =
      Always-if (Auths api ses) (test_bit flag_srtp kcaop.caop.flags) _ _
        (zc_srtp-Same env stack ses kcaop u)
        (Always-if (Auths api ses) (test_bit flag_tls kcaop.caop.flags && not ses.cdata.aead) _ _
          (zc_tls-Same env page_ok stack ses kcaop u)
          (Always-if (Auths api ses) ses.cdata.aead _ _ (zc_aead-Same env page_ok ses kcaop u)
            refl))

  run_reset-Same :
      (env : Paging) (page_ok : Bool) (stack : List ℕ) (kcaop : KernelCryptAuthOp) (u : UserSpace)
      (r : Code × Session api)
      → Always (Auths api r.1) (auth_run_reset api env page_ok stack kcaop u r)
  unfolding auth_run_reset cryptodev_cipher_set_iv
  run_reset-Same env page_ok stack kcaop u (ret, ses) =
      let started : Session api = record ses {
        cdata = cryptodev_cipher_set_iv api ses.cdata kcaop.iv (min ses.cdata.ivsize kcaop.ivlen);
      } in
      Always-if (Auths api ses) (is_nonzero ret) _ _ refl (
        then-Same api (authed api) (authed api) ses
          (crypto_auth_run_zc api env page_ok stack started kcaop u) _
          (run_zc-Same env page_ok stack started kcaop u)
          (λ r. either_lem (Auths api r.ses) (is_nonzero r.ret) _ _ refl refl))

  auth_reset-Same :
      (ses : Session api) → Always (λ r. SameKey api ses (reset api r)) (auth_reset api ses)
  unfolding auth_reset
  auth_reset-Same ses =
      Always-if (λ (r : Code × Session api). SameKey api ses (reset api r)) ses.hdata.init _ _
        (Always-chain (KeepsHash api ses.hdata)
          (λ (r : Code × Session api). SameKey api ses (reset api r))
          (cryptodev_hash_reset api ses.hdata) _ (reset_lem api ses.hdata)
          (λ r e. ap (λ i. (ses.sid, ses.cdata.init, i)) e))
        refl

  run_held-Same :
      (env : Paging) (page_ok : Bool) (stack : List ℕ) (ses : Session api)
      (kcaop : KernelCryptAuthOp) (u : UserSpace)
      → Always (Auths api ses) (auth_run_held api env page_ok stack ses kcaop u)
  unfolding auth_run_held
  run_held-Same env page_ok stack ses kcaop u =
      Always-if (Auths api ses) (not ses.cdata.init) _ _ refl (
        then-Same api (reset api) (authed api) ses (auth_reset api ses) _ (auth_reset-Same ses)
          (run_reset-Same env page_ok stack kcaop u))

  -- However `crypto_auth_run` returns, with an error from any of its steps or with success, and for
  -- each of the three types, no session of the file is locked afterwards if none was before, the
  -- numbers of the sessions are the same, and so are the sessions that have a cipher and those that
  -- have a hash.
  pub crypto_auth_run-Kept :
      (env : Paging) (page_ok : Bool) (stack : List ℕ) (fcr : List (Session api))
      (kcaop : KernelCryptAuthOp) (u : UserSpace)
      → Unlocked api fcr
      → Always
          (λ (r : AuthResult api). Kept api fcr r.1)
          (crypto_auth_run api env page_ok stack fcr kcaop u)
  unfolding crypto_auth_run
  crypto_auth_run-Kept env page_ok stack fcr kcaop u un =
      elim (Bool-cases (not (kcaop.caop.op == cop_encrypt) && not (kcaop.caop.op == cop_decrypt))) [
        | inl bad ↦ simp bad (un, refl)
        | inr good ↦ elim (get_cases api fcr kcaop.caop.ses) [
          | inl e ↦ simp (good, e) tt
          | inr (inl e) ↦ simp (good, e) (un, refl)
          | inr (inr (ses, e, i)) ↦
              simp (good, e)
                (Always-chain (Auths api ses) (λ (r : AuthResult api). Kept api fcr r.1)
                  (auth_run_held api env page_ok stack ses kcaop u) _
                  (run_held-Same env page_ok stack ses kcaop u)
                  (λ r h. once_Kept api fcr kcaop.caop.ses ses r.ses un i h))
        ]
      ]
