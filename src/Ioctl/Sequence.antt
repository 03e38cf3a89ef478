-- ===== src/Ioctl/Sequence.antt =====
-- An open file from `cryptodev_open` to `cryptodev_release` (ioctl.c): the requests of its
-- programs, of either kind, and the rounds of the worker, in any order. A request is one step: what
-- it does to a session is done under that session's lock.
use cryptodev_linux.Prelude.{
  ℕ, ◌≡◌, refl, Bool, Option, some, List, [], ◌∷◌, ◌++◌, ◌>>=◌, Always, Always-chain, arith,
}
use cryptodev_linux.User.{UserSpace}
use cryptodev_linux.Cryptlib.Api.{CryptoApi}
use cryptodev_linux.Session.Defs.{Session, crypto_finish_all_sessions}
use cryptodev_linux.Session.Finish.{IsTable, finish_all_lem}
use cryptodev_linux.Session.Locks.{Kept}
use cryptodev_linux.Run.Defs.{KernelCryptOp, Result, crypto_run}
use cryptodev_linux.Run.Locks.{crypto_run-Kept}
use cryptodev_linux.Queue.Defs.{Item, Priv, cut_todo, splice_done, cryptodev_open}
use cryptodev_linux.Queue.System.{Worker, rest, running}
use cryptodev_linux.Ioctl.Info.{Tfms}
use cryptodev_linux.Ioctl.File.{Request, CompatRequest, File, Kernel, zeroed_kcop}
use cryptodev_linux.Ioctl.Dispatch.{with_fcr, Reply, cryptodev_ioctl}
use cryptodev_linux.Ioctl.CompatDispatch.{cryptodev_compat_ioctl}
use cryptodev_linux.Ioctl.Table.{IsOpen, Opens, with_fcr-IsOpen, cryptodev_ioctl-IsOpen}
use cryptodev_linux.Ioctl.CompatTable.{cryptodev_compat_ioctl-IsOpen}

-- The file, and where the worker stands.
pub record LiveFile (api : CryptoApi) : Type 0 where
  pub file : File api
  pub worker : Worker KernelCryptOp

module _ (api : CryptoApi) (tfms : Tfms api) where
  -- A job of the worker: the item with its result, and the file.
  unfoldable pub work_on :
      Kernel → File api → Item KernelCryptOp → Option (Item KernelCryptOp × File api)
  work_on k f item =
      crypto_run api k.paging k.page_ok k.junk f.pcr.fcrypt item.kcop f.space >>= λ r.
      some (record { kcop = r.2; result = r.0 }, record (with_fcr api tfms f r.1) { space = r.3 })

  -- One request, or one of the three parts of `cryptask_routine`.
  pub data FileStep (s t : LiveFile api) : Type 0 where
    request :
        (k : Kernel) (r : Request) (reply : Reply api tfms)
        → cryptodev_ioctl api tfms k s.file r ≡ some reply
        → t ≡ record s { file = reply.1 }
        → FileStep s t
    compat_request :
        (k : Kernel) (r : CompatRequest) (reply : Reply api tfms)
        → cryptodev_compat_ioctl api tfms k s.file r ≡ some reply
        → t ≡ record s { file = reply.1 }
        → FileStep s t
    cut :
        s.worker ≡ rest
        → t ≡ record {
          file = record (s.file) { pcr = (cut_todo s.file.pcr).1 };
          worker = running [] (cut_todo s.file.pcr).0;
        }
        → FileStep s t
    handle :
        (k : Kernel) (ran left : List (Item KernelCryptOp)) (item item' : Item KernelCryptOp)
        (f : File api)
        → s.worker ≡ running ran (item ∷ left)
        → work_on k s.file item ≡ some (item', f)
        → t ≡ record { file = f; worker = running (ran ++ (item' ∷ [])) left }
        → FileStep s t
    push :
        (ran : List (Item KernelCryptOp))
        → s.worker ≡ running ran []
        → t ≡ record { file = record (s.file) { pcr = splice_done ran s.file.pcr }; worker = rest }
        → FileStep s t

  -- A file as `cryptodev_open` leaves it, and what can become of it.
  abbrev pub opened_file : Priv KernelCryptOp (List (Session api)) → UserSpace → ℕ → LiveFile api
  opened_file pcr u drawn = record {
    file = record { pcr = pcr; live = 0; drawn = drawn; space = u; refs = 1 };
    worker = rest;
  }

  pub data FileReach (s : LiveFile api) : LiveFile api → Type 0 where
    begin : FileReach s s
    then_step : {t v : LiveFile api} → FileReach s t → FileStep t v → FileReach s v

  out_lem {ℓ κ} :
      {A : Type ℓ} (P : A → Type κ) (o : Option A) (a : A) → o ≡ some a → Always P o → P a
  out_lem P o a e h = rw e at h

  work_on-IsOpen :
      (k : Kernel) (f : File api) (item : Item KernelCryptOp)
      → IsOpen api tfms f
      → Always (λ (r : Item KernelCryptOp × File api). IsOpen api tfms r.1) (work_on k f item)
  unfolding work_on
  work_on-IsOpen k f item t =
      Always-chain (λ (r : Result api). Kept api f.pcr.fcrypt r.1)
        (λ (r : Item KernelCryptOp × File api). IsOpen api tfms r.1)
        (crypto_run api k.paging k.page_ok k.junk f.pcr.fcrypt item.kcop f.space) _
        (crypto_run-Kept api k.paging k.page_ok k.junk f.pcr.fcrypt item.kcop f.space t.unlocked)
        (λ r h. with_fcr-IsOpen api tfms f r.1 t h)

  FileStep-IsOpen :
      (s t : LiveFile api) → IsOpen api tfms s.file → FileStep s t → IsOpen api tfms t.file
  unfolding cut_todo splice_done
  FileStep-IsOpen s t i (request k r reply e f) = rw f (
      out_lem (Opens api tfms) (cryptodev_ioctl api tfms k s.file r) reply e
        (cryptodev_ioctl-IsOpen api tfms k s.file r i))
  FileStep-IsOpen s t i (compat_request k r reply e f) = rw f (
      out_lem (Opens api tfms) (cryptodev_compat_ioctl api tfms k s.file r) reply e
        (cryptodev_compat_ioctl-IsOpen api tfms k s.file r i))
  FileStep-IsOpen s t i (cut w f) = rw f i
  FileStep-IsOpen s t i (handle k ran left item item' g w e f) = rw f (
      out_lem (λ (r : Item KernelCryptOp × File api). IsOpen api tfms r.1) (work_on k s.file item)
        (item', g) e (work_on-IsOpen k s.file item i))
  FileStep-IsOpen s t i (push ran w f) = rw f i

  FileReach-IsOpen :
      (s t : LiveFile api) → IsOpen api tfms s.file → FileReach s t → IsOpen api tfms t.file
  FileReach-IsOpen s _ i begin = i
  FileReach-IsOpen s v i (then_step {t} h st) = FileStep-IsOpen t v (FileReach-IsOpen s t i h) st

  open_lem :
      (priv_ok : Bool) (kzalloc : ℕ → Bool) (pcr : Priv KernelCryptOp (List (Session api)))
      → (cryptodev_open priv_ok kzalloc zeroed_kcop []).private ≡ some pcr
      → pcr.fcrypt ≡ []
  unfolding cryptodev_open
  open_lem priv_ok kzalloc pcr e = ground (arith, e)

  -- After any sequence of requests and rounds of the worker on a file that `cryptodev_open` has
  -- opened, with whatever errors on the way, the numbers of the sessions are distinct, none is
  -- locked, and their kernel objects are exactly those allocated; so `crypto_finish_all_sessions`,
  -- which `cryptodev_release` calls, waits for no lock and leaves no object.
  pub FileReach-frees :
      (priv_ok : Bool) (kzalloc : ℕ → Bool) (pcr : Priv KernelCryptOp (List (Session api)))
      (u : UserSpace) (drawn : ℕ) (s : LiveFile api)
      → (cryptodev_open priv_ok kzalloc zeroed_kcop []).private ≡ some pcr
      → FileReach (opened_file pcr u drawn) s
      → IsTable api s.file.pcr.fcrypt s.file.live
        × (crypto_finish_all_sessions api s.file.pcr.fcrypt s.file.live ≡ some 0)
  FileReach-frees priv_ok kzalloc pcr u drawn s o h =
      let t =
        FileReach-IsOpen (opened_file pcr u drawn) s
          (rw (open_lem priv_ok kzalloc pcr o)
            (record { distinct = tt; unlocked = tt; counted = refl }))
          h in
      (t, finish_all_lem api s.file.pcr.fcrypt 0 s.file.live t.unlocked (omega (arith, t.counted)))
