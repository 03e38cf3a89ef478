-- ===== src/Ioctl/Table.antt =====
-- What holds of the sessions of a file between two requests holds after each (ioctl.c).
use cryptodev_linux.Prelude.{
  ℕ, ◌≡◌, refl, Bool, Option, none, some, List, [], ◌∷◌, Code, is_nonzero, ltb, Always,
  Always-chain, Always-if, either_lem,
}
use cryptodev_linux.Cryptlib.Api.{CryptoApi}
use cryptodev_linux.Cryptlib.Keys.{SessionOp}
use cryptodev_linux.Session.Defs.{Session, Created, crypto_create_session, crypto_copy_hash_state}
use cryptodev_linux.Session.Create.{CreatedFrom, crypto_create_session_cases}
use cryptodev_linux.Session.Finish.{IsTable, CreatedFrom-IsTable, crypto_finish_session_removes}
use cryptodev_linux.Session.Key.{keys-IsTable}
use cryptodev_linux.Session.Locks.{Kept, crypto_copy_hash_state-Kept}
use cryptodev_linux.Run.Defs.{KernelCryptOp}
use cryptodev_linux.Queue.Defs.{
  Item, Priv, crypto_async_run, take_item, crypto_async_fetch, fetch_item, max_cop_ringsize,
}
use cryptodev_linux.Ioctl.Crypt.{
  kcop_from_user, Answered, ioctl_crypt, ioctl_crypt-Answered, from_user_Kept,
}
use cryptodev_linux.Ioctl.Auth.{AuthAnswered, ioctl_auth_crypt, ioctl_auth_crypt-AuthAnswered}
use cryptodev_linux.Ioctl.Info.{SessionInfoOp, Tfms, get_session_info, get_session_info-Kept}
use cryptodev_linux.Ioctl.File.{
  Request, ciocasymfeat, criogetfd, ciocasyncfetch, ciocgsession, ciocfsession, ciocgsessinfo,
  cioccphash, cioccrypt, ciocauthcrypt, ciocasynccrypt, other_command, Output, File, Kernel, no_zc,
  zeroed_kcop,
}
use cryptodev_linux.Ioctl.Dispatch.{
  with_fcr, Reply, ioctl_get_fd, created, finish_in, session_back, ioctl_session, ioctl_info,
  ioctl_async_crypt, ToUser, ioctl_async_fetch, native_to_user, cryptodev_ioctl,
}

module _ (api : CryptoApi) (tfms : Tfms api) where
  -- The invariant of an open file: its sessions have distinct numbers, none is locked, and their
  -- objects are all counted.
  abbrev pub IsOpen : File api → Type 0
  IsOpen f = IsTable api f.pcr.fcrypt f.live

  abbrev pub Opens : Reply api tfms → Type 0
  Opens r = IsOpen r.1

  pub with_fcr-IsOpen :
      (f : File api) (fcr : List (Session api))
      → IsOpen f
      → Kept api f.pcr.fcrypt fcr
      → IsOpen (with_fcr api tfms f fcr)
  with_fcr-IsOpen f fcr t k = keys-IsTable api f.pcr.fcrypt fcr f.live k.0 k.1 t

  finish_in-IsOpen :
      (f : File api) (ses : ℕ)
      → IsOpen f
      → Always (λ (r : Code × File api). IsOpen r.1) (finish_in api tfms f ses)
  unfolding finish_in
  finish_in-IsOpen f ses t =
      let gone = crypto_finish_session_removes api f.pcr.fcrypt ses f.live t in rw gone.2 gone.3

  session_back-IsOpen :
      (k : Kernel) (back : SessionOp → Output) (f : File api) (r : Created api)
      → IsTable api r.fcr r.live
      → Always Opens (session_back api tfms k back f r)
  unfolding session_back
  session_back-IsOpen k back f r t = Always-if Opens (is_nonzero r.code) _ _ t (
      Always-if Opens k.arg_ok _ _ t (
        Always-chain (λ (g : Code × File api). IsOpen g.1) Opens
          (finish_in api tfms (created api tfms f r) r.sop.ses) _
          (finish_in-IsOpen (created api tfms f r) r.sop.ses t) (λ g i. i)))

  pub ioctl_session-IsOpen :
      (k : Kernel) (back : SessionOp → Output) (f : File api) (sop : SessionOp)
      → IsOpen f
      → Always Opens (ioctl_session api tfms k back f sop)
  unfolding ioctl_session
  ioctl_session-IsOpen k back f sop t =
      Always-chain (CreatedFrom api f.pcr.fcrypt sop f.live) Opens
        (crypto_create_session api k.memory f.space k.draws k.random f.drawn f.live f.pcr.fcrypt
          sop)
        _
        (crypto_create_session_cases api k.memory f.space k.draws k.random f.drawn f.live
          f.pcr.fcrypt sop)
        (λ r c.
          session_back-IsOpen k back f r (CreatedFrom-IsTable api f.pcr.fcrypt sop f.live r c t))

  info-IsOpen :
      (k : Kernel) (f : File api) (siop : SessionInfoOp)
      → IsOpen f
      → Always Opens (ioctl_info api tfms k f siop)
  unfolding ioctl_info
  info-IsOpen k f siop t =
      Always-chain (λ (r : Code × List (Session api) × SessionInfoOp). Kept api f.pcr.fcrypt r.1)
        Opens (get_session_info api tfms f.pcr.fcrypt siop) _
        (get_session_info-Kept api tfms f.pcr.fcrypt siop t.unlocked)
        (λ r h.
          either_lem Opens (is_nonzero r.0) _ _ (with_fcr-IsOpen f r.1 t h)
            (with_fcr-IsOpen f r.1 t h))

  -- The queue leaves the sessions alone.
  take_item_keeps :
      (item_ok : Bool) (pcr : Priv KernelCryptOp (List (Session api))) (kcop : KernelCryptOp)
      (free : List (Item KernelCryptOp))
      → (take_item item_ok zeroed_kcop pcr kcop free).1.fcrypt ≡ pcr.fcrypt
  unfolding take_item
  take_item_keeps item_ok pcr kcop (item ∷ free) = refl
  take_item_keeps item_ok pcr kcop [] =
      either_lem (λ (r : Code × Priv KernelCryptOp (List (Session api))). r.1.fcrypt ≡ pcr.fcrypt)
        (ltb pcr.itemcount max_cop_ringsize) _ _
        (either_lem
          (λ (r : Code × Priv KernelCryptOp (List (Session api))). r.1.fcrypt ≡ pcr.fcrypt) item_ok
          _ _ refl refl)
        refl

  async_run_keeps :
      (item_ok : Bool) (pcr : Priv KernelCryptOp (List (Session api))) (kcop : KernelCryptOp)
      → (crypto_async_run no_zc item_ok zeroed_kcop pcr kcop).1.fcrypt ≡ pcr.fcrypt
  unfolding crypto_async_run
  async_run_keeps item_ok pcr kcop =
      either_lem (λ (r : Code × Priv KernelCryptOp (List (Session api))). r.1.fcrypt ≡ pcr.fcrypt)
        (no_zc kcop) _ _ refl (take_item_keeps item_ok pcr kcop pcr.free)

  pub async_crypt-IsOpen :
      (k : Kernel) (f : File api) (r : Code × List (Session api) × KernelCryptOp)
      → IsOpen f
      → Kept api f.pcr.fcrypt r.1
      → Opens (ioctl_async_crypt api tfms k f r)
  unfolding ioctl_async_crypt
  async_crypt-IsOpen k f (ret, fcr, kcop) t h =
      let i = with_fcr-IsOpen f fcr t h in
      either_lem Opens (is_nonzero ret) _ _ i
        (rw (async_run_keeps k.item_ok (with_fcr api tfms f fcr).pcr kcop) i)

  async_fetch_keeps :
      (pcr : Priv KernelCryptOp (List (Session api))) (done : List (Item KernelCryptOp))
      → (fetch_item pcr done).2.fcrypt ≡ pcr.fcrypt
  unfolding fetch_item
  async_fetch_keeps pcr [] = refl
  async_fetch_keeps pcr (item ∷ done) = refl

  fetched-IsOpen :
      (to_user : ToUser api tfms) (f : File api)
      (r : Code × Option KernelCryptOp × Priv KernelCryptOp (List (Session api)))
      → IsOpen f
      → r.2.fcrypt ≡ f.pcr.fcrypt
      → Opens (ioctl_async_fetch api tfms to_user f r)
  unfolding ioctl_async_fetch
  fetched-IsOpen to_user f (ret, none, pcr) t e = rw e t
  fetched-IsOpen to_user f (ret, some kcop, pcr) t e =
      either_lem Opens (is_nonzero ret) _ _ (rw e t) (rw e t)

  pub async_fetch-IsOpen :
      (to_user : ToUser api tfms) (f : File api)
      → IsOpen f
      → Opens (ioctl_async_fetch api tfms to_user f (crypto_async_fetch f.pcr))
  unfolding crypto_async_fetch
  async_fetch-IsOpen to_user f t =
      fetched-IsOpen to_user f (fetch_item f.pcr f.pcr.done) t (async_fetch_keeps f.pcr f.pcr.done)

  -- Every request of `cryptodev_ioctl`, however it returns, keeps the invariant of the file.
  pub cryptodev_ioctl-IsOpen :
      (k : Kernel) (f : File api) (r : Request)
      → IsOpen f
      → Always Opens (cryptodev_ioctl api tfms k f r)
  unfolding cryptodev_ioctl ioctl_get_fd
  cryptodev_ioctl-IsOpen k f ciocasymfeat t = either_lem Opens k.arg_ok _ _ t t
  cryptodev_ioctl-IsOpen k f criogetfd t = either_lem Opens k.arg_ok _ _ t t
  cryptodev_ioctl-IsOpen k f (ciocgsession none) t = t
  cryptodev_ioctl-IsOpen k f (ciocgsession (some sop)) t = ioctl_session-IsOpen k _ f sop t
  cryptodev_ioctl-IsOpen k f (ciocfsession none) t = t
  cryptodev_ioctl-IsOpen k f (ciocfsession (some ses)) t =
      Always-chain (λ (r : Code × File api). IsOpen r.1) Opens (finish_in api tfms f ses) _
        (finish_in-IsOpen f ses t) (λ r i. i)
  cryptodev_ioctl-IsOpen k f (ciocgsessinfo none) t = t
  cryptodev_ioctl-IsOpen k f (ciocgsessinfo (some siop)) t = info-IsOpen k f siop t
  cryptodev_ioctl-IsOpen k f (cioccphash none) t = t
  cryptodev_ioctl-IsOpen k f (cioccphash (some cphop)) t =
      Always-chain (λ (r : Code × List (Session api)). Kept api f.pcr.fcrypt r.1) Opens
        (crypto_copy_hash_state api k.item_ok f.pcr.fcrypt cphop.dst_ses cphop.src_ses) _
        (crypto_copy_hash_state-Kept api k.item_ok f.pcr.fcrypt cphop.dst_ses cphop.src_ses
          t.unlocked)
        (λ r h. with_fcr-IsOpen f r.1 t h)
  cryptodev_ioctl-IsOpen k f (cioccrypt arg) t =
      Always-chain (Answered api f.pcr.fcrypt) Opens
        (ioctl_crypt api k.paging k.page_ok k.junk k.arg_ok f.pcr.fcrypt arg k.kcop f.space) _
        (ioctl_crypt-Answered api k.paging k.page_ok k.junk k.arg_ok f.pcr.fcrypt arg k.kcop f.space
          t.unlocked)
        (λ r h. with_fcr-IsOpen f r.1 t h.0)
  cryptodev_ioctl-IsOpen k f (ciocauthcrypt arg) t =
      Always-chain (AuthAnswered api f.pcr.fcrypt) Opens
        (ioctl_auth_crypt api k.paging k.page_ok k.stack k.arg_ok f.pcr.fcrypt arg k.kcaop f.space)
        _
        (ioctl_auth_crypt-AuthAnswered api k.paging k.page_ok k.stack k.arg_ok f.pcr.fcrypt arg
          k.kcaop f.space t.unlocked)
        (λ r h. with_fcr-IsOpen f r.1 t h.0)
  cryptodev_ioctl-IsOpen k f (ciocasynccrypt arg) t =
      Always-chain (λ (r : Code × List (Session api) × KernelCryptOp). Kept api f.pcr.fcrypt r.1)
        Opens (kcop_from_user api f.pcr.fcrypt arg k.kcop f.space) _
        (from_user_Kept api f.pcr.fcrypt arg k.kcop f.space t.unlocked)
        (λ r h. async_crypt-IsOpen k f r t h)
  cryptodev_ioctl-IsOpen k f ciocasyncfetch t = async_fetch-IsOpen (native_to_user api tfms k) f t
  cryptodev_ioctl-IsOpen k f (other_command n) t = t
