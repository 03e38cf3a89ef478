-- ===== src/Ioctl/Dispatch.antt =====
-- `cryptodev_ioctl` (ioctl.c): the requests on an open file. `none` is a wait that nothing ends, or
-- undefined behaviour.
use cryptodev_linux.Prelude.{
  ℕ, Option, none, some, List, Code, value, fail, einval, efault, success, is_nonzero, ◌==◌,
  if◌then◌else◌, ◌>>=◌,
}
use cryptodev_linux.User.{UserSpace}
use cryptodev_linux.Cryptlib.Api.{CryptoApi}
use cryptodev_linux.Cryptlib.Keys.{SessionOp}
use cryptodev_linux.Session.Defs.{
  Session, Created, crypto_create_session, crypto_finish_session, crypto_copy_hash_state,
}
use cryptodev_linux.Run.Defs.{CryptOp, KernelCryptOp}
use cryptodev_linux.Queue.Defs.{Priv, crypto_async_run, crypto_async_fetch}
use cryptodev_linux.Ioctl.Crypt.{kcop_from_user, kcop_to_user, Answer, ioctl_crypt}
use cryptodev_linux.Ioctl.Auth.{ioctl_auth_crypt}
use cryptodev_linux.Ioctl.Info.{SessionInfoOp, Tfms, get_session_info}
use cryptodev_linux.Ioctl.File.{
  Request, ciocasymfeat, criogetfd, ciocasyncfetch, ciocgsession, ciocfsession, ciocgsessinfo,
  cioccphash, cioccrypt, ciocauthcrypt, ciocasynccrypt, other_command, Output, nothing, integer,
  session, info, crypt, auth_crypt, output_of, File, Kernel, no_zc, clonefd, sys_close, zeroed_kcop,
}

module _ (api : CryptoApi) (tfms : Tfms api) where
  abbrev pub with_fcr : File api → List (Session api) → File api
  with_fcr f fcr = record f { pcr = record (f.pcr) { fcrypt = fcr } }

  -- What a call leaves.
  abbrev pub Reply : Type 0
  Reply = Code × File api × Output

  -- CRIOGET. The result does not say whether there is a descriptor.
  unfoldable pub ioctl_get_fd : Kernel → File api → Reply
  ioctl_get_fd k f =
      let c = clonefd k.fd f.refs in
      if k.arg_ok
      then (success, record f { refs = c.1 }, integer c.0)
      else (fail efault, record f { refs = sys_close c.0 c.1 }, nothing)

  -- `crypto_create_session`, as a step on the file.
  abbrev pub created : File api → Created api → File api
  created f r = record f { pcr = record (f.pcr) { fcrypt = r.fcr }; live = r.live; drawn = r.drawn }

  -- `crypto_finish_session`, as a step on the file.
  unfoldable pub finish_in : File api → ℕ → Option (Code × File api)
  finish_in f ses = crypto_finish_session api f.pcr.fcrypt ses f.live >>= λ r.
      some (r.0, record f { pcr = record (f.pcr) { fcrypt = r.1 }; live = r.2 })

  -- CIOCGSESSION after the copy of the argument, for either kind of program: `back` is what a copy
  -- back to the user writes.
  unfoldable pub session_back :
      Kernel → (SessionOp → Output) → File api → Created api → Option Reply
  session_back k back f r =
      if is_nonzero r.code
      then some (r.code, created f r, nothing)
      else if k.arg_ok
      then some (success, created f r, back r.sop)
      else finish_in (created f r) r.sop.ses >>= λ g. some (fail efault, g.1, nothing)

  unfoldable pub ioctl_session : Kernel → (SessionOp → Output) → File api → SessionOp → Option Reply
  ioctl_session k back f sop =
      crypto_create_session api k.memory f.space k.draws k.random f.drawn f.live f.pcr.fcrypt sop
      >>= session_back k back f

  unfoldable pub ioctl_info : Kernel → File api → SessionInfoOp → Option Reply
  ioctl_info k f siop = get_session_info api tfms f.pcr.fcrypt siop >>= λ r. some (
      if is_nonzero r.0
      then (r.0, with_fcr f r.1, nothing)
      else (value k.uncopied, with_fcr f r.1, if k.uncopied == 0 then info r.2 else nothing))

  -- CIOCASYNCCRYPT once the argument is there.
  unfoldable pub ioctl_async_crypt :
      Kernel → File api → Code × List (Session api) × KernelCryptOp → Reply
  ioctl_async_crypt k f (ret, fcr, kcop) =
      let queued = crypto_async_run no_zc k.item_ok zeroed_kcop (with_fcr f fcr).pcr kcop in
      if is_nonzero ret
      then (ret, with_fcr f fcr, nothing)
      else (queued.0, record f { pcr = queued.1 }, nothing)

  -- The end of CIOCASYNCFETCH: `to_user` is `kcop_to_user` for the kind of program.
  abbrev pub ToUser : Type 0
  ToUser = KernelCryptOp → UserSpace → Code × Output × UserSpace

  unfoldable pub ioctl_async_fetch :
      ToUser
      → File api
      → Code × Option KernelCryptOp × Priv KernelCryptOp (List (Session api))
      → Reply
  ioctl_async_fetch to_user f (ret, none, pcr) = (ret, record f { pcr = pcr }, nothing)
  ioctl_async_fetch to_user f (ret, some kcop, pcr) =
      let back = to_user kcop f.space in
      if is_nonzero ret
      then (ret, record f { pcr = pcr }, nothing)
      else (back.0, record f { pcr = pcr; space = back.2 }, back.1)

  abbrev pub native_to_user : Kernel → ToUser
  native_to_user k kcop u =
      let back = kcop_to_user api k.arg_ok kcop u in (back.0, output_of crypt back.1, back.2)

  -- What CIOCCRYPT leaves, as a reply.
  abbrev pub crypt_reply : File api → (CryptOp → Output) → Answer api → Reply
  crypt_reply f out r = (r.0, record (with_fcr f r.1) { space = r.3 }, output_of out r.2)

  unfoldable pub cryptodev_ioctl : Kernel → File api → Request → Option Reply
  cryptodev_ioctl k f ciocasymfeat =
      some (if k.arg_ok then (success, f, integer success) else (fail efault, f, nothing))
  cryptodev_ioctl k f criogetfd = some (ioctl_get_fd k f)
  cryptodev_ioctl k f (ciocgsession none) = some (fail efault, f, nothing)
  cryptodev_ioctl k f (ciocgsession (some sop)) = ioctl_session k session f sop
  cryptodev_ioctl k f (ciocfsession none) = some (fail efault, f, nothing)
  cryptodev_ioctl k f (ciocfsession (some ses)) = finish_in f ses >>= λ r. some (r.0, r.1, nothing)
  cryptodev_ioctl k f (ciocgsessinfo none) = some (fail efault, f, nothing)
  cryptodev_ioctl k f (ciocgsessinfo (some siop)) = ioctl_info k f siop
  cryptodev_ioctl k f (cioccphash none) = some (fail efault, f, nothing)
  cryptodev_ioctl k f (cioccphash (some cphop)) =
      crypto_copy_hash_state api k.item_ok f.pcr.fcrypt cphop.dst_ses cphop.src_ses >>= λ r.
      some (r.0, with_fcr f r.1, nothing)
  cryptodev_ioctl k f (cioccrypt arg) =
      ioctl_crypt api k.paging k.page_ok k.junk k.arg_ok f.pcr.fcrypt arg k.kcop f.space >>= λ r.
      some (crypt_reply f crypt r)
  cryptodev_ioctl k f (ciocauthcrypt arg) =
      ioctl_auth_crypt api k.paging k.page_ok k.stack k.arg_ok f.pcr.fcrypt arg k.kcaop f.space
      >>= λ r. some (r.0, record (with_fcr f r.1) { space = r.3 }, output_of auth_crypt r.2)
  cryptodev_ioctl k f (ciocasynccrypt arg) =
      kcop_from_user api f.pcr.fcrypt arg k.kcop f.space >>= λ r. some (ioctl_async_crypt k f r)
  cryptodev_ioctl k f ciocasyncfetch =
      some (ioctl_async_fetch (native_to_user k) f (crypto_async_fetch f.pcr))
  cryptodev_ioctl k f (other_command n) = some (fail einval, f, nothing)
