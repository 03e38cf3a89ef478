-- ===== src/Ioctl/CompatDispatch.antt =====
-- `cryptodev_compat_ioctl` (ioctl.c): the requests of a 32-bit program.
use cryptodev_linux.Prelude.{
  Bool, Option, none, some, List, Code, fail, einval, efault, success, is_nonzero, if◌then◌else◌,
  ◌>>=◌,
}
use cryptodev_linux.User.{UserSpace}
use cryptodev_linux.Cryptlib.Api.{CryptoApi}
use cryptodev_linux.Session.Defs.{Session}
use cryptodev_linux.Run.Defs.{KernelCryptOp, Result, crypto_run}
use cryptodev_linux.Queue.Defs.{crypto_async_fetch}
use cryptodev_linux.Ioctl.Compat.{
  CompatCryptOp, compat_to_session_op, session_op_to_compat, compat_to_crypt_op, crypt_op_to_compat,
}
use cryptodev_linux.Ioctl.Crypt.{fill_kcop_from_cop, fill_cop_from_kcop}
use cryptodev_linux.Ioctl.Info.{Tfms}
use cryptodev_linux.Ioctl.File.{
  Request, ciocasymfeat, criogetfd, ciocfsession, ciocgsessinfo, CompatRequest, passed_on,
  compat_ciocgsession, compat_cioccrypt, compat_ciocasynccrypt, compat_ciocasyncfetch, nothing,
  compat_session, compat_crypt, File, Kernel,
}
use cryptodev_linux.Ioctl.Dispatch.{
  with_fcr, Reply, ioctl_session, ioctl_async_crypt, ToUser, ioctl_async_fetch, cryptodev_ioctl,
}

module _ (api : CryptoApi) (tfms : Tfms api) where
  -- `compat_kcop_from_user`.
  unfoldable pub compat_kcop_from_user :
      List (Session api)
      → Option CompatCryptOp
      → KernelCryptOp
      → UserSpace
      → Option (Code × List (Session api) × KernelCryptOp)
  compat_kcop_from_user fcr none kcop u = some (fail efault, fcr, kcop)
  compat_kcop_from_user fcr (some compat_cop) kcop u =
      fill_kcop_from_cop api fcr (record kcop { cop = compat_to_crypt_op compat_cop }) u

  unfoldable pub compat_kcop_to_user : Bool → ToUser api tfms
  compat_kcop_to_user arg_ok kcop u =
      let ret = fill_cop_from_kcop api kcop u in
      if is_nonzero ret.0
      then (ret.0, nothing, ret.1)
      else if arg_ok
      then (success, compat_crypt (crypt_op_to_compat kcop.cop), ret.1)
      else (fail efault, nothing, ret.1)

  -- COMPAT_CIOCCRYPT after the run.
  unfoldable pub compat_answer : Bool → File api → Result api → Reply api tfms
  compat_answer arg_ok f (ret, fcr, kcop, u) =
      let back = compat_kcop_to_user arg_ok kcop u in
      if is_nonzero ret
      then (ret, record (with_fcr api tfms f fcr) { space = u }, nothing)
      else (back.0, record (with_fcr api tfms f fcr) { space = back.2 }, back.1)

  unfoldable pub compat_run :
      Kernel → File api → Code × List (Session api) × KernelCryptOp → Option (Reply api tfms)
  compat_run k f (ret, fcr, kcop) =
      if is_nonzero ret
      then some (ret, with_fcr api tfms f fcr, nothing)
      else crypto_run api k.paging k.page_ok k.junk fcr kcop f.space >>= λ r.
          some (compat_answer k.arg_ok f r)

  -- The commands that `cryptodev_compat_ioctl` passes on.
  unfoldable pub compat_pass : Kernel → File api → Request → Option (Reply api tfms)
  compat_pass k f ciocasymfeat = cryptodev_ioctl api tfms k f ciocasymfeat
  compat_pass k f criogetfd = cryptodev_ioctl api tfms k f criogetfd
  compat_pass k f (ciocfsession ses) = cryptodev_ioctl api tfms k f (ciocfsession ses)
  compat_pass k f (ciocgsessinfo siop) = cryptodev_ioctl api tfms k f (ciocgsessinfo siop)
  compat_pass k f _ = some (fail einval, f, nothing)

  unfoldable pub cryptodev_compat_ioctl :
      Kernel → File api → CompatRequest → Option (Reply api tfms)
  cryptodev_compat_ioctl k f (passed_on r) = compat_pass k f r
  cryptodev_compat_ioctl k f (compat_ciocgsession none) = some (fail efault, f, nothing)
  cryptodev_compat_ioctl k f (compat_ciocgsession (some compat_sop)) =
      ioctl_session api tfms k (λ sop. compat_session (session_op_to_compat sop)) f
        (compat_to_session_op compat_sop)
  cryptodev_compat_ioctl k f (compat_cioccrypt arg) =
      compat_kcop_from_user f.pcr.fcrypt arg k.kcop f.space >>= compat_run k f
  cryptodev_compat_ioctl k f (compat_ciocasynccrypt arg) =
      compat_kcop_from_user f.pcr.fcrypt arg k.kcop f.space >>= λ r.
      some (ioctl_async_crypt api tfms k f r)
  cryptodev_compat_ioctl k f compat_ciocasyncfetch =
      some (ioctl_async_fetch api tfms (compat_kcop_to_user k.arg_ok) f (crypto_async_fetch f.pcr))
