-- ===== src/Authenc/Request.antt =====
-- CIOCAUTHCRYPT's argument (authenc.c): how it comes from the user and goes back.
use cryptodev_linux.Prelude.{
  ℕ, Bool, ◌&&◌, ◌||◌, not, Option, none, some, List, ◌++◌, drop, take, Code, fail, einval, efault,
  success, is_nonzero, ◌==◌, if◌then◌else◌, ◌>>=◌, test_bit,
}
use cryptodev_linux.User.{UserSpace, copy_from_user, copy_to_user}
use cryptodev_linux.Cryptlib.Api.{CryptoApi}
use cryptodev_linux.Session.Defs.{Session, crypto_get_session_by_sid, crypto_put_session}
use cryptodev_linux.Run.Defs.{flag_tls, flag_srtp, flag_write_iv}
use cryptodev_linux.Authenc.Defs.{CryptAuthOp, cryptodev_get_tag_len, cryptodev_get_dst_len}

-- `struct kernel_crypt_auth_op`, without the task that the buffers belong to.
pub record KernelCryptAuthOp : Type 0 where
  pub caop : CryptAuthOp
  pub dst_len : ℕ
  pub ivlen : ℕ
  pub iv : List ℕ

-- The copy of the initialization vector back to the user.
unfoldable pub fill_caop_from_kcaop :
    KernelCryptAuthOp → UserSpace → Code × KernelCryptAuthOp × UserSpace
fill_caop_from_kcaop kcaop u =
    let kcaop' : KernelCryptAuthOp = record kcaop {
      caop = record (kcaop.caop) { len = kcaop.dst_len };
    } in
    if not (kcaop.ivlen == 0) && test_bit flag_write_iv kcaop.caop.flags
    then elim (copy_to_user u kcaop.caop.iv (take kcaop.ivlen kcaop.iv)) [
      | none ↦ (fail efault, kcaop', u)
      | some u' ↦ (success, kcaop', u')
    ]
    else (success, kcaop', u)

-- `kcaop_to_user`: the argument that is written back, if it is.
unfoldable pub kcaop_to_user :
    Bool → KernelCryptAuthOp → UserSpace → Code × Option CryptAuthOp × UserSpace
kcaop_to_user arg_ok kcaop u =
    let ret = fill_caop_from_kcaop kcaop u in
    if is_nonzero ret.0
    then (ret.0, none, ret.2)
    else if arg_ok
    then (success, some ret.1.caop, ret.2)
    else (fail efault, none, ret.2)

module _ (api : CryptoApi) where
  -- `fill_kcaop_from_caop` once the session is found and the buffers are checked.
  unfoldable pub fill_lengths :
      Session api → KernelCryptAuthOp → UserSpace → Option (Code × KernelCryptAuthOp)
  fill_lengths ses kcaop u =
      (if kcaop.caop.tag_len == 0 then cryptodev_get_tag_len api ses else some kcaop.caop.tag_len)
      >>= λ tag_len.
          let caop : CryptAuthOp = record (kcaop.caop) { tag_len = tag_len } in
          cryptodev_get_dst_len api caop ses >>= λ dst_len.
          let ivlen = if caop.iv == 0 then 0 else ses.cdata.ivsize in
          let kcaop' : KernelCryptAuthOp = record kcaop {
            caop = caop;
            dst_len = dst_len;
            ivlen = ivlen;
          } in
          some (
            if caop.iv == 0 then (success, kcaop') else elim (copy_from_user u caop.iv ivlen) [
              | none ↦ (fail efault, kcaop')
              | some iv ↦ (success, record kcaop' { iv = iv ++ drop ivlen kcaop.iv })
            ])

  -- TLS and SRTP are in place only.
  unfoldable pub fill_found :
      Session api → KernelCryptAuthOp → UserSpace → Option (Code × KernelCryptAuthOp)
  fill_found ses kcaop u =
      if (test_bit flag_tls kcaop.caop.flags || test_bit flag_srtp kcaop.caop.flags)
        && not (kcaop.caop.src == kcaop.caop.dst)
      then some (fail einval, kcaop)
      else fill_lengths ses kcaop u

  unfoldable pub fill_kcaop_from_caop :
      List (Session api)
      → KernelCryptAuthOp
      → UserSpace
      → Option (Code × List (Session api) × KernelCryptAuthOp)
  fill_kcaop_from_caop fcr kcaop u = crypto_get_session_by_sid api fcr kcaop.caop.ses >>= λ f.
      elim (f.0) [
        | none ↦ some (fail einval, f.1, kcaop)
        | some ses ↦ fill_found ses kcaop u >>= λ filled.
            some (filled.0, crypto_put_session api f.1 ses, filled.1)
      ]

  -- `kcaop_from_user`; `arg` is what the copy of the argument gives, and `kcaop` what is on the
  -- stack.
  unfoldable pub kcaop_from_user :
      List (Session api)
      → Option CryptAuthOp
      → KernelCryptAuthOp
      → UserSpace
      → Option (Code × List (Session api) × KernelCryptAuthOp)
  kcaop_from_user fcr arg kcaop u = elim arg [
    | none ↦ some (fail efault, fcr, kcaop)
    | some caop ↦ fill_kcaop_from_caop fcr (record kcaop { caop = caop }) u
  ]
