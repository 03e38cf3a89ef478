-- ===== src/Authenc/Run/Types.antt =====
-- The AEAD operation, and the SRTP and TLS types on the pages of the user (authenc.c).
use cryptodev_linux.Prelude.{
  ℕ, ◌+◌, ◌-◌, ◌%◌, ◌^◌, Bool, ◌&&◌, ◌||◌, not, Option, none, some, List, [], Code, fail, einval,
  enomem, efault, is_nonzero, ltb, ◌==◌, if◌then◌else◌, ◌>>=◌,
}
use cryptodev_linux.User.{UserSpace, copy_from_user, sg_read, sg_write}
use cryptodev_linux.Sg.{page_size}
use cryptodev_linux.Zc.Defs.{PageOp, Paging, Userbuf, release_user_pages}
use cryptodev_linux.Cryptlib.Api.{CryptoApi}
use cryptodev_linux.Cryptlib.Cipher.{
  cryptodev_cipher_encrypt, cryptodev_cipher_decrypt, cryptodev_cipher_get_tag_size,
  cryptodev_cipher_set_tag_size, cryptodev_cipher_auth,
}
use cryptodev_linux.Session.Defs.{Session}
use cryptodev_linux.Run.Defs.{cop_encrypt, sg_bytes}
use cryptodev_linux.Authenc.Buffer.{sg_get, sg_put}
use cryptodev_linux.Authenc.Defs.{CryptAuthOp, Sealed, tls_auth_n_crypt}
use cryptodev_linux.Authenc.Srtp.{srtp_auth_n_crypt}
use cryptodev_linux.Authenc.Request.{KernelCryptAuthOp}
use cryptodev_linux.Authenc.Pages.{get_userbuf_tls, get_userbuf_srtp}

module _ (api : CryptoApi) where
  -- What `auth_n_crypt` leaves: the result, the session, the argument, and the bytes behind `dst_sg`.
  abbrev pub AuthCrypted : Type 0
  AuthCrypted = Code × Session api × KernelCryptAuthOp × List ℕ

  -- The cipher of `auth_n_crypt`, once its tag size and the length of the authenticated data are set.
  -- It reads that data and `len` bytes behind it.
  unfoldable pub aead_crypt :
      KernelCryptAuthOp → ℕ → ℕ → List ℕ → List ℕ → Session api → Option AuthCrypted
  aead_crypt kcaop auth_len len src dst ses =
      let caop = kcaop.caop in
      let sealed : KernelCryptAuthOp = record kcaop {
        caop = record caop { tag = (caop.dst + len) % 2 ^ 64 };
        dst_len = len + caop.tag_len;
      } in
      let opened : KernelCryptAuthOp = record kcaop {
        caop = record caop { tag = (caop.dst + len + 2 ^ 64 - caop.tag_len) % 2 ^ 64 };
        dst_len = (len + 2 ^ 32 - caop.tag_len) % 2 ^ 32;
      } in
      sg_get src 0 (auth_len + len) >>= λ input.
      (if caop.op == cop_encrypt
        then cryptodev_cipher_encrypt api ses.cdata input
        else cryptodev_cipher_decrypt api ses.cdata input)
      >>= λ c. sg_put dst 0 c.2 >>= λ dst'. some (
        c.0,
        record ses { cdata = c.1 },
        (if is_nonzero c.0 then kcaop else if caop.op == cop_encrypt then sealed else opened),
        dst',
      )

  unfoldable pub auth_n_crypt :
      Session api → KernelCryptAuthOp → ℕ → List ℕ → List ℕ → ℕ → Option AuthCrypted
  auth_n_crypt ses kcaop auth_len src dst len =
      cryptodev_cipher_get_tag_size api ses.cdata >>= λ max_tag_len.
      let given = not (kcaop.caop.tag_len == 0) in
      let kcaop' : KernelCryptAuthOp = record kcaop {
        caop = record (kcaop.caop) { tag_len = if given then kcaop.caop.tag_len else max_tag_len };
      } in
      if ltb max_tag_len kcaop.caop.tag_len
      then some (fail einval, ses, kcaop, dst)
      else (if given
          then cryptodev_cipher_set_tag_size api ses.cdata kcaop.caop.tag_len
          else some ses.cdata)
        >>= λ sized. cryptodev_cipher_auth api sized auth_len >>= λ cdata.
            aead_crypt kcaop' auth_len len src dst (record ses { cdata = cdata })

  -- What the operations on pages leave: also the pages they have pinned, and what they did to them.
  pub record Authed : Type 0 where
    pub ret : Code
    pub ses : Session api
    pub kcaop : KernelCryptAuthOp
    pub space : UserSpace
    pub pinned : List ℕ
    pub released : List PageOp

  -- A return before the pages are there.
  abbrev pub refused : Code → Session api → KernelCryptAuthOp → UserSpace → Authed
  refused ret ses kcaop u = record {
    ret = ret;
    ses = ses;
    kcaop = kcaop;
    space = u;
    pinned = [];
    released = [];
  }

  -- A return because `get_userbuf` and its kind have failed.
  abbrev pub unmapped : Session api → KernelCryptAuthOp → UserSpace → Userbuf → Authed
  unmapped ses kcaop u got = record {
    ret = got.code;
    ses = record ses { user = got.ses };
    kcaop = kcaop;
    space = u;
    pinned = got.pinned;
    released = got.released;
  }

  -- `release_user_pages` and the return.
  unfoldable pub release :
      Paging → Userbuf → Code → Session api → KernelCryptAuthOp → UserSpace → Authed
  release env got ret ses kcaop u =
      let undone = release_user_pages env.reserved got.ses in
      record {
        ret = ret;
        ses = record ses { user = undone.1 };
        kcaop = kcaop;
        space = u;
        pinned = got.pinned;
        released = undone.0;
      }

  -- `kcaop->dst_len = len`, if the operation has succeeded.
  abbrev pub set_dst_len : Sealed api → KernelCryptAuthOp → KernelCryptAuthOp
  set_dst_len s kcaop = if is_nonzero s.ret then kcaop else record kcaop { dst_len = s.len }

  unfoldable pub srtp_mapped :
      Paging → List ℕ → Session api → KernelCryptAuthOp → UserSpace → Userbuf → Option Authed
  srtp_mapped env stack ses kcaop u got =
      if is_nonzero got.code
      then some (unmapped ses kcaop u got)
      else srtp_auth_n_crypt api stack kcaop.caop
          (λ v. sg_bytes api v got.src_sg kcaop.caop.auth_len) (λ buf. sg_write u got.dst_sg buf)
          ses (sg_read u got.dst_sg)
        >>= λ r. some (release env got r.0.ret r.0.ses (set_dst_len r.0 kcaop) r.1)

  unfoldable pub crypto_auth_zc_srtp :
      Paging → List ℕ → Session api → KernelCryptAuthOp → UserSpace → Option Authed
  crypto_auth_zc_srtp env stack ses kcaop u =
      if ses.cdata.init && (not ses.cdata.stream || ses.cdata.aead)
      then some (refused (fail einval) ses kcaop u)
      else get_userbuf_srtp env kcaop ses.user >>= srtp_mapped env stack ses kcaop u

  unfoldable pub tls_mapped :
      Paging
      → List ℕ
      → Session api
      → KernelCryptAuthOp
      → UserSpace
      → Option (List ℕ)
      → Userbuf
      → Option Authed
  tls_mapped env stack ses kcaop u auth_sg got =
      if is_nonzero got.code
      then some (unmapped ses kcaop u got)
      else tls_auth_n_crypt api stack kcaop.caop ses auth_sg (sg_read u got.dst_sg) >>= λ s.
          some (release env got s.ret s.ses (set_dst_len s kcaop) (sg_write u got.dst_sg s.buf))

  -- The authenticated data in the kernel page `auth_buf`: none, or what the copy gives.
  abbrev pub has_auth : CryptAuthOp → Bool
  has_auth caop = not (caop.auth_src == 0) && not (caop.auth_len == 0)

  -- `auth_buf` when the copy is made.
  unfoldable pub tls_with_auth :
      Paging
      → List ℕ
      → Session api
      → KernelCryptAuthOp
      → UserSpace
      → Option (List ℕ)
      → Option Authed
  tls_with_auth env stack ses kcaop u none = some (refused (fail efault) ses kcaop u)
  tls_with_auth env stack ses kcaop u (some auth_buf) =
      get_userbuf_tls env kcaop ses.user >>= tls_mapped env stack ses kcaop u (some auth_buf)

  -- `page_ok` says whether the page for the authenticated data can be allocated.
  unfoldable pub crypto_auth_zc_tls :
      Paging → Bool → List ℕ → Session api → KernelCryptAuthOp → UserSpace → Option Authed
  crypto_auth_zc_tls env page_ok stack ses kcaop u =
      let caop = kcaop.caop in
      if ltb page_size caop.auth_len
      then some (refused (fail einval) ses kcaop u)
      else if not page_ok
      then some (refused (fail enomem) ses kcaop u)
      else if has_auth caop
      then tls_with_auth env stack ses kcaop u (copy_from_user u caop.auth_src caop.auth_len)
      else get_userbuf_tls env kcaop ses.user >>= tls_mapped env stack ses kcaop u none
