-- ===== src/Ioctl/CompatTable.antt =====
-- What holds of the sessions of a file between two requests holds after each request of a 32-bit
-- program (`cryptodev_compat_ioctl` of ioctl.c).
use cryptodev_linux.Prelude.{
  refl, ◌∙◌, Bool, Option, none, some, List, Code, is_nonzero, Always, Always-chain, Always-if,
  either_lem,
}
use cryptodev_linux.Cryptlib.Api.{CryptoApi}
use cryptodev_linux.Session.Defs.{Session}
use cryptodev_linux.Session.Locks.{Kept}
use cryptodev_linux.Run.Defs.{KernelCryptOp, Result, crypto_run}
use cryptodev_linux.Run.Locks.{crypto_run-Kept}
use cryptodev_linux.Ioctl.Compat.{CompatCryptOp, compat_to_session_op, compat_to_crypt_op}
use cryptodev_linux.Ioctl.Crypt.{filled_Kept}
use cryptodev_linux.Ioctl.Info.{Tfms}
use cryptodev_linux.Ioctl.File.{
  Request, ciocasymfeat, criogetfd, ciocasyncfetch, ciocgsession, ciocfsession, ciocgsessinfo,
  cioccphash, cioccrypt, ciocauthcrypt, ciocasynccrypt, other_command, CompatRequest, passed_on,
  compat_ciocgsession, compat_cioccrypt, compat_ciocasynccrypt, compat_ciocasyncfetch, File, Kernel,
}
use cryptodev_linux.Ioctl.CompatDispatch.{
  compat_kcop_from_user, compat_kcop_to_user, compat_answer, compat_run, compat_pass,
  cryptodev_compat_ioctl,
}
use cryptodev_linux.Ioctl.Table.{
  IsOpen, Opens, with_fcr-IsOpen, ioctl_session-IsOpen, async_crypt-IsOpen, async_fetch-IsOpen,
  cryptodev_ioctl-IsOpen,
}

module _ (api : CryptoApi) (tfms : Tfms api) where
  pass-IsOpen :
      (k : Kernel) (f : File api) (r : Request)
      → IsOpen api tfms f
      → Always (Opens api tfms) (compat_pass api tfms k f r)
  unfolding compat_pass
  pass-IsOpen k f ciocasymfeat t = cryptodev_ioctl-IsOpen api tfms k f ciocasymfeat t
  pass-IsOpen k f criogetfd t = cryptodev_ioctl-IsOpen api tfms k f criogetfd t
  pass-IsOpen k f (ciocfsession ses) t = cryptodev_ioctl-IsOpen api tfms k f (ciocfsession ses) t
  pass-IsOpen k f (ciocgsessinfo siop) t =
      cryptodev_ioctl-IsOpen api tfms k f (ciocgsessinfo siop) t
  pass-IsOpen k f ciocasyncfetch t = t
  pass-IsOpen k f (ciocgsession sop) t = t
  pass-IsOpen k f (cioccphash cphop) t = t
  pass-IsOpen k f (cioccrypt arg) t = t
  pass-IsOpen k f (ciocauthcrypt arg) t = t
  pass-IsOpen k f (ciocasynccrypt arg) t = t
  pass-IsOpen k f (other_command n) t = t

  abbrev Filled : List (Session api) → Code × List (Session api) × KernelCryptOp → Type 0
  Filled fcr r = Kept api fcr r.1

  from_user_Kept :
      (f : File api) (arg : Option CompatCryptOp) (kcop : KernelCryptOp)
      → IsOpen api tfms f
      → Always (Filled f.pcr.fcrypt) (compat_kcop_from_user api tfms f.pcr.fcrypt arg kcop f.space)
  unfolding compat_kcop_from_user
  from_user_Kept f none kcop t = (t.unlocked, refl)
  from_user_Kept f (some cop) kcop t =
      filled_Kept api f.pcr.fcrypt (record kcop { cop = compat_to_crypt_op cop }) f.space t.unlocked

  answer_lem :
      (arg_ok : Bool) (f : File api) (r : Result api)
      → IsOpen api tfms f
      → Kept api f.pcr.fcrypt r.1
      → Opens api tfms (compat_answer api tfms arg_ok f r)
  unfolding compat_answer
  answer_lem arg_ok f (ret, fcr, kcop, u) t h =
      let i = with_fcr-IsOpen api tfms f fcr t h in
      either_lem (Opens api tfms) (is_nonzero ret) _ _ i i

  run-IsOpen :
      (k : Kernel) (f : File api) (r : Code × List (Session api) × KernelCryptOp)
      → IsOpen api tfms f
      → Kept api f.pcr.fcrypt r.1
      → Always (Opens api tfms) (compat_run api tfms k f r)
  unfolding compat_run
  run-IsOpen k f (ret, fcr, kcop) t h =
      Always-if (Opens api tfms) (is_nonzero ret) _ _ (with_fcr-IsOpen api tfms f fcr t h) (
        Always-chain (λ (r : Result api). Kept api fcr r.1) (Opens api tfms)
          (crypto_run api k.paging k.page_ok k.junk fcr kcop f.space) _
          (crypto_run-Kept api k.paging k.page_ok k.junk fcr kcop f.space h.0)
          (λ r g. answer_lem k.arg_ok f r t (g.0, g.1 ∙ h.1)))

  -- Every request of `cryptodev_compat_ioctl`, however it returns, keeps the invariant of the file.
  pub cryptodev_compat_ioctl-IsOpen :
      (k : Kernel) (f : File api) (r : CompatRequest)
      → IsOpen api tfms f
      → Always (Opens api tfms) (cryptodev_compat_ioctl api tfms k f r)
  unfolding cryptodev_compat_ioctl
  cryptodev_compat_ioctl-IsOpen k f (passed_on r) t = pass-IsOpen k f r t
  cryptodev_compat_ioctl-IsOpen k f (compat_ciocgsession none) t = t
  cryptodev_compat_ioctl-IsOpen k f (compat_ciocgsession (some sop)) t =
      ioctl_session-IsOpen api tfms k _ f (compat_to_session_op sop) t
  cryptodev_compat_ioctl-IsOpen k f (compat_cioccrypt arg) t =
      Always-chain (Filled f.pcr.fcrypt) (Opens api tfms)
        (compat_kcop_from_user api tfms f.pcr.fcrypt arg k.kcop f.space) _
        (from_user_Kept f arg k.kcop t) (λ r h. run-IsOpen k f r t h)
  cryptodev_compat_ioctl-IsOpen k f (compat_ciocasynccrypt arg) t =
      Always-chain (Filled f.pcr.fcrypt) (Opens api tfms)
        (compat_kcop_from_user api tfms f.pcr.fcrypt arg k.kcop f.space) _
        (from_user_Kept f arg k.kcop t) (λ r h. async_crypt-IsOpen api tfms k f r t h)
  cryptodev_compat_ioctl-IsOpen k f compat_ciocasyncfetch t =
      async_fetch-IsOpen api tfms (compat_kcop_to_user api tfms k.arg_ok) f t
