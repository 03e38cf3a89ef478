-- ===== src/Authenc/Run.antt =====
-- `crypto_auth_run` (authenc.c): the pages of the three types of authenticated encryption, the cipher
-- of an AEAD, and the session. `none` is a wait that nothing ends, or undefined behaviour.
mod Types
unfoldable pub use Types.*
use cryptodev_linux.Prelude.{
  ℕ, ◌+◌, ◌-◌, ◌%◌, ◌^◌, Bool, ◌&&◌, ◌||◌, not, min, Option, none, some, List, [], ◌++◌, drop, Code,
  fail, einval, enomem, efault, success, is_nonzero, ltb, ◌==◌, if◌then◌else◌, ◌>>=◌, test_bit,
  length,
}
use cryptodev_linux.User.{UserSpace, copy_from_user, sg_read, sg_write}
use cryptodev_linux.Sg.{page_size}
use cryptodev_linux.Zc.Defs.{PageOp, Paging, Userbuf, get_userbuf, release_user_pages}
use cryptodev_linux.Cryptlib.Api.{CryptoApi}
use cryptodev_linux.Cryptlib.Cipher.{
  cryptodev_cipher_encrypt, cryptodev_cipher_decrypt, cryptodev_cipher_get_tag_size,
  cryptodev_cipher_set_tag_size, cryptodev_cipher_auth, cryptodev_cipher_set_iv,
  cryptodev_cipher_get_iv,
}
use cryptodev_linux.Cryptlib.Hash.{cryptodev_hash_reset}
use cryptodev_linux.Session.Defs.{Session, crypto_get_session_by_sid, crypto_put_session}
use cryptodev_linux.Run.Defs.{cop_encrypt, cop_decrypt, flag_tls, flag_srtp, sg_bytes}
use cryptodev_linux.Authenc.Buffer.{sg_get, sg_put}
use cryptodev_linux.Authenc.Defs.{CryptAuthOp, Sealed, tls_auth_n_crypt}
use cryptodev_linux.Authenc.Srtp.{srtp_auth_n_crypt}
use cryptodev_linux.Authenc.Request.{KernelCryptAuthOp}
use cryptodev_linux.Authenc.Pages.{get_userbuf_tls, get_userbuf_srtp}

module _ (api : CryptoApi) where
  -- The tables `auth1` and `auth2`: the authenticated data in front of the source and of the
  -- destination. It is the kernel's own copy, so only what is behind it goes back to the user.
  unfoldable pub aead_chained :
      Paging → Session api → KernelCryptAuthOp → UserSpace → Userbuf → List ℕ → Option (Authed api)
  aead_chained env ses kcaop u got auth_buf =
      auth_n_crypt api ses kcaop kcaop.caop.auth_len (auth_buf ++ sg_read u got.src_sg)
        (auth_buf ++ sg_read u got.dst_sg) kcaop.caop.len
      >>= λ r.
          some
            (release api env got r.0 r.1 r.2 (sg_write u got.dst_sg (drop (length auth_buf) r.3)))

  unfoldable pub aead_with_auth :
      Paging
      → Session api
      → KernelCryptAuthOp
      → UserSpace
      → Userbuf
      → Option (List ℕ)
      → Option (Authed api)
  aead_with_auth env ses kcaop u got none = some (release api env got (fail efault) ses kcaop u)
  aead_with_auth env ses kcaop u got (some auth_buf) = aead_chained env ses kcaop u got auth_buf

  unfoldable pub aead_mapped :
      Paging → Session api → KernelCryptAuthOp → UserSpace → Userbuf → Option (Authed api)
  aead_mapped env ses kcaop u got =
      let caop = kcaop.caop in
      if is_nonzero got.code
      then some (unmapped api ses kcaop u got)
      else if has_auth api caop
      then aead_with_auth env ses kcaop u got (copy_from_user u caop.auth_src caop.auth_len)
      else aead_chained env ses kcaop u got []

  -- `crypto_auth_zc_aead`, for a kernel from 4.3 on.
  unfoldable pub crypto_auth_zc_aead :
      Paging → Bool → Session api → KernelCryptAuthOp → UserSpace → Option (Authed api)
  crypto_auth_zc_aead env page_ok ses kcaop u =
      let caop = kcaop.caop in
      if not ses.cdata.init || not ses.cdata.stream && not ses.cdata.aead
      then some (refused api (fail einval) ses kcaop u)
      else if ltb page_size caop.auth_len
      then some (refused api (fail einval) ses kcaop u)
      else if not page_ok
      then some (refused api (fail enomem) ses kcaop u)
      else get_userbuf env
          (record { src = caop.src; src_len = caop.len; dst = caop.dst; dst_len = kcaop.dst_len })
          ses.user
        >>= aead_mapped env ses kcaop u

  -- `__crypto_auth_run_zc`.
  unfoldable pub crypto_auth_run_zc :
      Paging → Bool → List ℕ → Session api → KernelCryptAuthOp → UserSpace → Option (Authed api)
  crypto_auth_run_zc env page_ok stack ses kcaop u =
      if test_bit flag_srtp kcaop.caop.flags
      then crypto_auth_zc_srtp api env stack ses kcaop u
      else if test_bit flag_tls kcaop.caop.flags && not ses.cdata.aead
      then crypto_auth_zc_tls api env page_ok stack ses kcaop u
      else if ses.cdata.aead
      then crypto_auth_zc_aead env page_ok ses kcaop u
      else some (refused api (fail einval) ses kcaop u)

  -- The part of `crypto_auth_run` between the reset of the hash and the label `out_unlock`.
  unfoldable pub auth_run_reset :
      Paging
      → Bool
      → List ℕ
      → KernelCryptAuthOp
      → UserSpace
      → Code × Session api
      → Option (Authed api)
  auth_run_reset env page_ok stack kcaop u (ret, ses) =
      let n = min ses.cdata.ivsize kcaop.ivlen in
      let started : Session api = record ses {
        cdata = cryptodev_cipher_set_iv api ses.cdata kcaop.iv n;
      } in
      if is_nonzero ret
      then some (refused api ret ses kcaop u)
      else crypto_auth_run_zc env page_ok stack started kcaop u >>= λ r. some (
          if is_nonzero r.ret then r else record r {
            ret = success;
            kcaop = record (r.kcaop) {
              iv =
                  cryptodev_cipher_get_iv api r.ses.cdata r.kcaop.iv
                    (min r.ses.cdata.ivsize r.kcaop.ivlen);
            };
          })

  -- The reset of the hash, if there is one.
  unfoldable pub auth_reset : Session api → Option (Code × Session api)
  auth_reset ses =
      if ses.hdata.init
      then (cryptodev_hash_reset api ses.hdata >>= λ h. some (h.0, record ses { hdata = h.1 }))
      else some (success, ses)

  unfoldable pub auth_run_held :
      Paging → Bool → List ℕ → Session api → KernelCryptAuthOp → UserSpace → Option (Authed api)
  auth_run_held env page_ok stack ses kcaop u =
      if not ses.cdata.init
      then some (refused api (fail einval) ses kcaop u)
      else auth_reset ses >>= auth_run_reset env page_ok stack kcaop u

  -- What `crypto_auth_run` leaves.
  abbrev pub AuthResult : Type 0
  AuthResult = Code × List (Session api) × KernelCryptAuthOp × UserSpace

  -- `stack` is what `hash_output` holds before a digest is written to it.
  unfoldable pub crypto_auth_run :
      Paging
      → Bool
      → List ℕ
      → List (Session api)
      → KernelCryptAuthOp
      → UserSpace
      → Option AuthResult
  crypto_auth_run env page_ok stack fcr kcaop u =
      let op = kcaop.caop.op in
      let found = crypto_get_session_by_sid api fcr kcaop.caop.ses in
      if not (op == cop_encrypt) && not (op == cop_decrypt)
      then some (fail einval, fcr, kcaop, u)
      else found >>= λ f. elim (f.0) [
        | none ↦ some (fail einval, f.1, kcaop, u)
        | some ses ↦ auth_run_held env page_ok stack ses kcaop u >>= λ r.
            some (r.ret, crypto_put_session api f.1 r.ses, r.kcaop, r.space)
      ]
