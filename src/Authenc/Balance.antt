-- ===== src/Authenc/Balance.antt =====
-- What becomes of the pages that `__crypto_auth_run_zc` pins (authenc.c).
use cryptodev_linux.Prelude.{
  ℕ, ◌<◌, ◌≡◌, refl, ◌∙◌, true, false, Bool, ◌&&◌, ◌||◌, not, Option, none, some, List, [], ◌++◌,
  Code, fail, efault, is_nonzero, ltb, ◌>>=◌, test_bit, Always, Always-bind, Always-chain,
  Always-if, Always-cases,
}
use cryptodev_linux.User.{UserSpace, copy_from_user, sg_read, sg_write}
use cryptodev_linux.Sg.{page_size}
use cryptodev_linux.Zc.Defs.{GetUserPages, Paging, Userbuf, UserBuf, get_userbuf}
use cryptodev_linux.Zc.Release.{release_user_pages_lem}
use cryptodev_linux.Zc.Balance.{AtMost, Undone, balanced, IsHeld, get_userbuf-IsHeld}
use cryptodev_linux.Cryptlib.Api.{CryptoApi}
use cryptodev_linux.Session.Defs.{Session}
use cryptodev_linux.Run.Defs.{flag_tls, flag_srtp, sg_bytes}
use cryptodev_linux.Authenc.Defs.{tls_auth_n_crypt}
use cryptodev_linux.Authenc.Srtp.{srtp_auth_n_crypt}
use cryptodev_linux.Authenc.Request.{KernelCryptAuthOp}
use cryptodev_linux.Authenc.Pages.{get_userbuf_tls, get_userbuf_srtp}
use cryptodev_linux.Authenc.Pages.Held.{get_userbuf_tls-IsHeld, get_userbuf_srtp-IsHeld}
use cryptodev_linux.Authenc.Run.{
  Authed, auth_n_crypt, release, srtp_mapped, crypto_auth_zc_srtp, tls_mapped, has_auth,
  tls_with_auth, crypto_auth_zc_tls, aead_chained, aead_with_auth, aead_mapped, crypto_auth_zc_aead,
  crypto_auth_run_zc,
}

module _ (api : CryptoApi) where
  -- Every page pinned is put once, in the order in which they were pinned, or the kernel has pinned
  -- too few.
  abbrev pub IsBalanced : GetUserPages → Authed api → Type 0
  IsBalanced get_user_pages r = Undone get_user_pages r.pinned r.released

  release-IsBalanced :
      (env : Paging) (got : Userbuf) (ret : Code) (ses : Session api) (kcaop : KernelCryptAuthOp)
      (u : UserSpace)
      → IsHeld env.get_user_pages got
      → is_nonzero got.code ≡ false
      → IsBalanced env.get_user_pages (release api env got ret ses kcaop u)
  unfolding release
  release-IsBalanced env got ret ses kcaop u h e =
      balanced ((release_user_pages_lem env.reserved got.ses).0 ∙ h.held e)

  srtp_mapped-IsBalanced :
      (env : Paging) (stack : List ℕ) (ses : Session api) (kcaop : KernelCryptAuthOp)
      (u : UserSpace) (got : Userbuf)
      → IsHeld env.get_user_pages got
      → Always (IsBalanced env.get_user_pages) (srtp_mapped api env stack ses kcaop u got)
  unfolding srtp_mapped
  srtp_mapped-IsBalanced env stack ses kcaop u got h =
      Always-cases (IsBalanced env.get_user_pages) (is_nonzero got.code) _ _ h.undone (λ e.
        Always-bind (IsBalanced env.get_user_pages)
          (srtp_auth_n_crypt api stack kcaop.caop
            (λ v. sg_bytes api v got.src_sg kcaop.caop.auth_len) (λ buf. sg_write u got.dst_sg buf)
            ses (sg_read u got.dst_sg))
          _ (λ r. release-IsBalanced env got r.0.ret r.0.ses _ r.1 h e))

  srtp-IsBalanced :
      (env : Paging) (stack : List ℕ) (ses : Session api) (kcaop : KernelCryptAuthOp)
      (u : UserSpace)
      → 0 < kcaop.caop.auth_src
      → Always (IsBalanced env.get_user_pages) (crypto_auth_zc_srtp api env stack ses kcaop u)
  unfolding crypto_auth_zc_srtp
  srtp-IsBalanced env stack ses kcaop u a =
      Always-if (IsBalanced env.get_user_pages)
        (ses.cdata.init && (not ses.cdata.stream || ses.cdata.aead)) _ _ (balanced refl)
        (Always-chain (IsHeld env.get_user_pages) (IsBalanced env.get_user_pages)
          (get_userbuf_srtp env kcaop ses.user) _ (get_userbuf_srtp-IsHeld env kcaop ses.user a)
          (srtp_mapped-IsBalanced env stack ses kcaop u))

  tls_mapped-IsBalanced :
      (env : Paging) (stack : List ℕ) (ses : Session api) (kcaop : KernelCryptAuthOp)
      (u : UserSpace) (auth_sg : Option (List ℕ)) (got : Userbuf)
      → IsHeld env.get_user_pages got
      → Always (IsBalanced env.get_user_pages) (tls_mapped api env stack ses kcaop u auth_sg got)
  unfolding tls_mapped
  tls_mapped-IsBalanced env stack ses kcaop u auth_sg got h =
      Always-cases (IsBalanced env.get_user_pages) (is_nonzero got.code) _ _ h.undone (λ e.
        Always-bind (IsBalanced env.get_user_pages)
          (tls_auth_n_crypt api stack kcaop.caop ses auth_sg (sg_read u got.dst_sg)) _
          (λ s. release-IsBalanced env got s.ret s.ses _ _ h e))

  tls_got-IsBalanced :
      (env : Paging) (stack : List ℕ) (ses : Session api) (kcaop : KernelCryptAuthOp)
      (u : UserSpace) (auth_sg : Option (List ℕ))
      → Always
          (IsBalanced env.get_user_pages)
          (get_userbuf_tls env kcaop ses.user >>= tls_mapped api env stack ses kcaop u auth_sg)
  tls_got-IsBalanced env stack ses kcaop u auth_sg =
      Always-chain (IsHeld env.get_user_pages) (IsBalanced env.get_user_pages)
        (get_userbuf_tls env kcaop ses.user) _ (get_userbuf_tls-IsHeld env kcaop ses.user)
        (tls_mapped-IsBalanced env stack ses kcaop u auth_sg)

  with_auth-IsBalanced :
      (env : Paging) (stack : List ℕ) (ses : Session api) (kcaop : KernelCryptAuthOp)
      (u : UserSpace) (auth_buf : Option (List ℕ))
      → Always (IsBalanced env.get_user_pages) (tls_with_auth api env stack ses kcaop u auth_buf)
  unfolding tls_with_auth
  with_auth-IsBalanced env stack ses kcaop u none = balanced refl
  with_auth-IsBalanced env stack ses kcaop u (some auth_buf) =
      tls_got-IsBalanced env stack ses kcaop u (some auth_buf)

  tls-IsBalanced :
      (env : Paging) (page_ok : Bool) (stack : List ℕ) (ses : Session api)
      (kcaop : KernelCryptAuthOp) (u : UserSpace)
      → Always
          (IsBalanced env.get_user_pages)
          (crypto_auth_zc_tls api env page_ok stack ses kcaop u)
  unfolding crypto_auth_zc_tls
  tls-IsBalanced env page_ok stack ses kcaop u =
      let caop = kcaop.caop in
      Always-if (IsBalanced env.get_user_pages) (ltb page_size caop.auth_len) _ _ (balanced refl) (
        Always-if (IsBalanced env.get_user_pages) (not page_ok) _ _ (balanced refl) (
          Always-if (IsBalanced env.get_user_pages) (has_auth api caop) _ _
            (with_auth-IsBalanced env stack ses kcaop u
              (copy_from_user u caop.auth_src caop.auth_len))
            (tls_got-IsBalanced env stack ses kcaop u none)))

  chained-IsBalanced :
      (env : Paging) (ses : Session api) (kcaop : KernelCryptAuthOp) (u : UserSpace) (got : Userbuf)
      (auth_buf : List ℕ)
      → IsHeld env.get_user_pages got
      → is_nonzero got.code ≡ false
      → Always (IsBalanced env.get_user_pages) (aead_chained api env ses kcaop u got auth_buf)
  unfolding aead_chained
  chained-IsBalanced env ses kcaop u got auth_buf h e =
      Always-bind (IsBalanced env.get_user_pages)
        (auth_n_crypt api ses kcaop kcaop.caop.auth_len (auth_buf ++ sg_read u got.src_sg)
          (auth_buf ++ sg_read u got.dst_sg) kcaop.caop.len)
        _ (λ r. release-IsBalanced env got r.0 r.1 r.2 _ h e)

  copied-IsBalanced :
      (env : Paging) (ses : Session api) (kcaop : KernelCryptAuthOp) (u : UserSpace) (got : Userbuf)
      (auth_buf : Option (List ℕ))
      → IsHeld env.get_user_pages got
      → is_nonzero got.code ≡ false
      → Always (IsBalanced env.get_user_pages) (aead_with_auth api env ses kcaop u got auth_buf)
  unfolding aead_with_auth
  copied-IsBalanced env ses kcaop u got none h e =
      release-IsBalanced env got (fail efault) ses kcaop u h e
  copied-IsBalanced env ses kcaop u got (some auth_buf) h e =
      chained-IsBalanced env ses kcaop u got auth_buf h e

  aead_mapped-IsBalanced :
      (env : Paging) (ses : Session api) (kcaop : KernelCryptAuthOp) (u : UserSpace) (got : Userbuf)
      → IsHeld env.get_user_pages got
      → Always (IsBalanced env.get_user_pages) (aead_mapped api env ses kcaop u got)
  unfolding aead_mapped
  aead_mapped-IsBalanced env ses kcaop u got h =
      let caop = kcaop.caop in
      Always-cases (IsBalanced env.get_user_pages) (is_nonzero got.code) _ _ h.undone (λ e.
        Always-if (IsBalanced env.get_user_pages) (has_auth api caop) _ _
          (copied-IsBalanced env ses kcaop u got (copy_from_user u caop.auth_src caop.auth_len) h e)
          (chained-IsBalanced env ses kcaop u got [] h e))

  aead-IsBalanced :
      (env : Paging) (page_ok : Bool) (ses : Session api) (kcaop : KernelCryptAuthOp)
      (u : UserSpace)
      → AtMost env.get_user_pages
      → Always (IsBalanced env.get_user_pages) (crypto_auth_zc_aead api env page_ok ses kcaop u)
  unfolding crypto_auth_zc_aead
  aead-IsBalanced env page_ok ses kcaop u w =
      let caop = kcaop.caop in
      let buf : UserBuf = record {
        src = caop.src;
        src_len = caop.len;
        dst = caop.dst;
        dst_len = kcaop.dst_len;
      } in
      Always-if (IsBalanced env.get_user_pages)
        (not ses.cdata.init || not ses.cdata.stream && not ses.cdata.aead) _ _ (balanced refl)
        (Always-if (IsBalanced env.get_user_pages) (ltb page_size caop.auth_len) _ _ (balanced refl)
          (Always-if (IsBalanced env.get_user_pages) (not page_ok) _ _ (balanced refl) (
            Always-chain (IsHeld env.get_user_pages) (IsBalanced env.get_user_pages)
              (get_userbuf env buf ses.user) _ (get_userbuf-IsHeld env buf ses.user w)
              (aead_mapped-IsBalanced env ses kcaop u))))

  -- If `get_user_pages` never pins more pages than asked for, and in the type SRTP the
  -- authenticated data is not NULL, then however `__crypto_auth_run_zc` returns, with an error from
  -- any of its steps or with success, and for each of the three types, the pages that it has put
  -- are exactly those that it has pinned, each once and in order, unless a call of `get_user_pages`
  -- pins fewer than asked for. Then either the pages of that call are all that is pinned, and
  -- nothing is put; or all pages pinned are put, those of that call last, and after them as many
  -- further entries, of whatever value, as pages are missing.
  pub crypto_auth_run_zc-IsBalanced :
      (env : Paging) (page_ok : Bool) (stack : List ℕ) (ses : Session api)
      (kcaop : KernelCryptAuthOp) (u : UserSpace)
      → AtMost env.get_user_pages
      → (test_bit flag_srtp kcaop.caop.flags ≡ true → 0 < kcaop.caop.auth_src)
      → Always
          (IsBalanced env.get_user_pages)
          (crypto_auth_run_zc api env page_ok stack ses kcaop u)
  unfolding crypto_auth_run_zc
  crypto_auth_run_zc-IsBalanced env page_ok stack ses kcaop u w a =
      Always-cases (IsBalanced env.get_user_pages) (test_bit flag_srtp kcaop.caop.flags) _ _
        (λ e. srtp-IsBalanced env stack ses kcaop u (a e))
        (λ e.
          Always-if (IsBalanced env.get_user_pages)
            (test_bit flag_tls kcaop.caop.flags && not ses.cdata.aead) _ _
            (tls-IsBalanced env page_ok stack ses kcaop u)
            (Always-if (IsBalanced env.get_user_pages) ses.cdata.aead _ _
              (aead-IsBalanced env page_ok ses kcaop u w) (balanced refl)))
