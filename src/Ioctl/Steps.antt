-- ===== src/Ioctl/Steps.antt =====
-- For the queue, a request of `cryptodev_ioctl` is a step of a client, or two (ioctl.c).
use cryptodev_linux.Prelude.{
  ℕ, zero, suc, Bool, ◌⊎◌, inl, inr, ◌≡◌, refl, sym, ap, ◌∙◌, Option, none, some, List, Code, value,
  fail, einval, enomem, efault, ebusy, enoent, ebadmsg, einprogress, enosys, other, is_nonzero,
  Always, Always-bind, Always-chain, Always-imp, Always-if, either_lem,
}
use cryptodev_linux.Cryptlib.Api.{CryptoApi}
use cryptodev_linux.Cryptlib.Keys.{SessionOp}
use cryptodev_linux.Session.Defs.{
  Session, Created, crypto_create_session, crypto_finish_session, crypto_copy_hash_state,
}
use cryptodev_linux.Run.Defs.{CryptOp, KernelCryptOp}
use cryptodev_linux.Queue.Defs.{Priv, Run, crypto_async_run, crypto_async_fetch}
use cryptodev_linux.Queue.System.{
  System, submit_to, fetch_from, submit, fetch, other_call, Reach, next,
}
use cryptodev_linux.Ioctl.Crypt.{kcop_from_user, ioctl_crypt}
use cryptodev_linux.Ioctl.Auth.{ioctl_auth_crypt}
use cryptodev_linux.Ioctl.Info.{Tfms, get_session_info}
use cryptodev_linux.Ioctl.File.{
  Request, ciocasymfeat, criogetfd, ciocasyncfetch, ciocgsession, ciocfsession, ciocgsessinfo,
  cioccphash, cioccrypt, ciocauthcrypt, ciocasynccrypt, other_command, Output, File, Kernel, no_zc,
  zeroed_kcop, clonefd, sys_close,
}
use cryptodev_linux.Ioctl.Dispatch.{
  with_fcr, Reply, ioctl_get_fd, created, finish_in, session_back, ioctl_session, ioctl_info,
  ioctl_async_crypt, ToUser, ioctl_async_fetch, native_to_user, cryptodev_ioctl,
}

module _ (api : CryptoApi) (tfms : Tfms api) where
  abbrev Queue : Type 0
  Queue = Priv KernelCryptOp (List (Session api))

  abbrev QueueState : Type 0
  QueueState = System KernelCryptOp (List (Session api))

  abbrev pub with_sessions : QueueState → List (Session api) → QueueState
  with_sessions s fcr = record s { pcr = record (s.pcr) { fcrypt = fcr } }

  -- Nothing but the sessions changes.
  abbrev pub Changes : QueueState → QueueState → Type 0
  Changes s t = (fcr : List (Session api)) × (t ≡ with_sessions s fcr)

  -- A job is submitted, after a change of the sessions.
  abbrev pub Submits : QueueState → QueueState → Type 0
  Submits s t =
      (fcr : List (Session api)) × (kcop : KernelCryptOp) × (kzalloc : Bool) × (t
        ≡ submit_to (with_sessions s fcr) kcop
            (crypto_async_run no_zc kzalloc zeroed_kcop (with_sessions s fcr).pcr kcop))

  -- What a request does to the queue.
  abbrev pub ClientMove : Request → QueueState → QueueState → Type 0
  ClientMove (ciocasynccrypt arg) s t = Changes s t ⊎ Submits s t
  ClientMove ciocasyncfetch s t = t ≡ fetch_from s (crypto_async_fetch s.pcr)
  ClientMove ciocasymfeat s t = Changes s t
  ClientMove criogetfd s t = Changes s t
  ClientMove (ciocgsession arg) s t = Changes s t
  ClientMove (ciocfsession arg) s t = Changes s t
  ClientMove (ciocgsessinfo arg) s t = Changes s t
  ClientMove (cioccphash arg) s t = Changes s t
  ClientMove (cioccrypt arg) s t = Changes s t
  ClientMove (ciocauthcrypt arg) s t = Changes s t
  ClientMove (other_command n) s t = Changes s t

  -- A move of the given kind from each state of the queue with the first file's lists to one with the
  -- second's, by steps of the queue.
  abbrev pub MovesBy :
      (QueueState → QueueState → Type 0)
      → Run KernelCryptOp (List (Session api))
      → File api
      → File api
      → Type 0
  MovesBy Kind run f g =
      (s : QueueState)
      → s.pcr ≡ f.pcr
      → (t : QueueState) × Kind s t
        × (t.pcr ≡ g.pcr)
        × ((pcr : Queue) → Reach run no_zc zeroed_kcop pcr s → Reach run no_zc zeroed_kcop pcr t)

  abbrev pub Moves : Request → Run KernelCryptOp (List (Session api)) → File api → File api → Type 0
  Moves r run f g = MovesBy (ClientMove r) run f g

  -- Only the sessions of the file have changed.
  abbrev SameLists : File api → File api → Type 0
  SameLists f g = g.pcr ≡ record (f.pcr) { fcrypt = g.pcr.fcrypt }

  abbrev Sames : File api → Reply api tfms → Type 0
  Sames f r = SameLists f r.1

  same-Moves :
      (run : Run KernelCryptOp (List (Session api))) (f g : File api)
      → SameLists f g
      → MovesBy Changes run f g
  same-Moves run f g e s p = (
    with_sessions s g.pcr.fcrypt,
    (g.pcr.fcrypt, refl),
    ap (λ (q : Queue). record q { fcrypt = g.pcr.fcrypt }) p ∙ sym e,
    λ pcr h. next h (other_call g.pcr.fcrypt refl),
  )

  finish_Sames :
      (f : File api) (ses : ℕ)
      → Always (λ (r : Code × File api). SameLists f r.1) (finish_in api tfms f ses)
  unfolding finish_in
  finish_Sames f ses =
      Always-bind (λ (r : Code × File api). SameLists f r.1)
        (crypto_finish_session api f.pcr.fcrypt ses f.live) _ (λ r. refl)

  back_Sames :
      (k : Kernel) (back : SessionOp → Output) (f : File api) (r : Created api)
      → Always (Sames f) (session_back api tfms k back f r)
  unfolding session_back finish_in
  back_Sames k back f r = Always-if (Sames f) (is_nonzero r.code) _ _ refl (
      Always-if (Sames f) k.arg_ok _ _ refl (
        Always-chain (λ (g : Code × File api). SameLists (created api tfms f r) g.1) (Sames f)
          (finish_in api tfms (created api tfms f r) r.sop.ses) _
          (finish_Sames (created api tfms f r) r.sop.ses) (λ g e. e)))

  submitted_lem :
      (s : QueueState) (kcop : KernelCryptOp) (r : Code × Queue) → (submit_to s kcop r).pcr ≡ r.1
  submitted_lem s kcop (value zero, pcr) = refl
  submitted_lem s kcop (value (suc n), pcr) = refl
  submitted_lem s kcop (fail efault, pcr) = refl
  submitted_lem s kcop (fail einval, pcr) = refl
  submitted_lem s kcop (fail enomem, pcr) = refl
  submitted_lem s kcop (fail ebusy, pcr) = refl
  submitted_lem s kcop (fail enoent, pcr) = refl
  submitted_lem s kcop (fail ebadmsg, pcr) = refl
  submitted_lem s kcop (fail einprogress, pcr) = refl
  submitted_lem s kcop (fail enosys, pcr) = refl
  submitted_lem s kcop (fail (other n), pcr) = refl

  fetched_lem :
      (s : QueueState) (r : Code × Option KernelCryptOp × Queue) → (fetch_from s r).pcr ≡ r.2
  fetched_lem s (code, none, pcr) = refl
  fetched_lem s (code, some kcop, pcr) = refl

  reply_lem :
      (to_user : ToUser api tfms) (f : File api) (r : Code × Option KernelCryptOp × Queue)
      → (ioctl_async_fetch api tfms to_user f r).1.pcr ≡ r.2
  unfolding ioctl_async_fetch
  reply_lem to_user f (ret, none, pcr) = refl
  reply_lem to_user f (ret, some kcop, pcr) =
      either_lem (λ (x : Reply api tfms). x.1.pcr ≡ pcr) (is_nonzero ret) _ _ refl refl

  fetch-Moves :
      (run : Run KernelCryptOp (List (Session api))) (to_user : ToUser api tfms) (f : File api)
      → Moves ciocasyncfetch run f
          (ioctl_async_fetch api tfms to_user f (crypto_async_fetch f.pcr)).1
  fetch-Moves run to_user f s p = (
    fetch_from s (crypto_async_fetch s.pcr),
    refl,
    fetched_lem s (crypto_async_fetch s.pcr)
        ∙ ap (λ (q : Queue). (crypto_async_fetch q).2) p
        ∙ sym (reply_lem to_user f (crypto_async_fetch f.pcr)),
    λ pcr h. next h (fetch refl),
  )

  -- The sessions change first, as the argument is filled in; then the job is submitted.
  submit-Moves :
      (run : Run KernelCryptOp (List (Session api))) (k : Kernel) (f : File api)
      (fcr : List (Session api)) (kcop : KernelCryptOp)
      → MovesBy Submits run f (record f {
        pcr = (crypto_async_run no_zc k.item_ok zeroed_kcop (with_fcr api tfms f fcr).pcr kcop).1;
      })
  submit-Moves run k f fcr kcop s p =
      let filled : QueueState = with_sessions s fcr in
      let queued = crypto_async_run no_zc k.item_ok zeroed_kcop filled.pcr kcop in
      (
        submit_to filled kcop queued,
        (fcr, kcop, k.item_ok, refl),
        submitted_lem filled kcop queued
            ∙ ap
                (λ (q : Queue).
                  (crypto_async_run no_zc k.item_ok zeroed_kcop (record q { fcrypt = fcr }) kcop).1)
                p,
        λ pcr h. next (next h (other_call fcr refl)) (submit kcop k.item_ok refl),
      )

  kind_lem :
      (Kind Kind2 : QueueState → QueueState → Type 0) (run : Run KernelCryptOp (List (Session api)))
      (f g : File api)
      → ((s t : QueueState) → Kind s t → Kind2 s t)
      → MovesBy Kind run f g
      → MovesBy Kind2 run f g
  kind_lem Kind Kind2 run f g h m s p = let r = m s p in (r.0, h s r.0 r.1, r.2, r.3)

  async-Moves :
      (run : Run KernelCryptOp (List (Session api))) (k : Kernel) (f : File api)
      (arg : Option CryptOp) (r : Code × List (Session api) × KernelCryptOp)
      → Moves (ciocasynccrypt arg) run f (ioctl_async_crypt api tfms k f r).1
  unfolding ioctl_async_crypt
  async-Moves run k f arg (ret, fcr, kcop) =
      either_lem (λ (x : Reply api tfms). Moves (ciocasynccrypt arg) run f x.1) (is_nonzero ret) _ _
        (kind_lem Changes (ClientMove (ciocasynccrypt arg)) run f (with_fcr api tfms f fcr)
          (λ s t c. inl c) (same-Moves run f (with_fcr api tfms f fcr) refl))
        (kind_lem Submits (ClientMove (ciocasynccrypt arg)) run f
          (record f {
            pcr =
                (crypto_async_run no_zc k.item_ok zeroed_kcop (with_fcr api tfms f fcr).pcr kcop).1;
          })
          (λ s t c. inr c) (submit-Moves run k f fcr kcop))

  moved_lem :
      (run : Run KernelCryptOp (List (Session api))) (f : File api) (o : Option (Reply api tfms))
      → Always (Sames f) o
      → Always (λ (r : Reply api tfms). MovesBy Changes run f r.1) o
  moved_lem run f o h =
      Always-imp (Sames f) (λ (r : Reply api tfms). MovesBy Changes run f r.1) o
        (λ r e. same-Moves run f r.1 e) h

  -- Every request of `cryptodev_ioctl`, however it returns, does to the queue's lists, from each
  -- state of the queue that has them, what a client may do there, and nothing else: CIOCASYNCFETCH
  -- is a fetch; CIOCASYNCCRYPT changes the sessions only, or changes them and then submits one job;
  -- every other request, an unknown one as well, changes the sessions only. Each of these is made
  -- of steps of the queue, so what holds in every state that can be reached by steps holds after
  -- every request.
  pub cryptodev_ioctl-Moves :
      (run : Run KernelCryptOp (List (Session api))) (k : Kernel) (f : File api) (r : Request)
      → Always (λ (x : Reply api tfms). Moves r run f x.1) (cryptodev_ioctl api tfms k f r)
  unfolding cryptodev_ioctl ioctl_get_fd ioctl_session ioctl_info
  cryptodev_ioctl-Moves run k f ciocasymfeat =
      either_lem (λ (x : Reply api tfms). MovesBy Changes run f x.1) k.arg_ok _ _
        (same-Moves run f f refl) (same-Moves run f f refl)
  cryptodev_ioctl-Moves run k f criogetfd =
      let c = clonefd k.fd f.refs in
      either_lem (λ (x : Reply api tfms). MovesBy Changes run f x.1) k.arg_ok _ _
        (same-Moves run f (record f { refs = c.1 }) refl)
        (same-Moves run f (record f { refs = sys_close c.0 c.1 }) refl)
  cryptodev_ioctl-Moves run k f (ciocgsession none) = same-Moves run f f refl
  cryptodev_ioctl-Moves run k f (ciocgsession (some sop)) = moved_lem run f _ (
      Always-bind (Sames f)
        (crypto_create_session api k.memory f.space k.draws k.random f.drawn f.live f.pcr.fcrypt
          sop)
        _ (back_Sames k _ f))
  cryptodev_ioctl-Moves run k f (ciocfsession none) = same-Moves run f f refl
  cryptodev_ioctl-Moves run k f (ciocfsession (some ses)) = moved_lem run f _ (
      Always-chain (λ (r : Code × File api). SameLists f r.1) (Sames f) (finish_in api tfms f ses) _
        (finish_Sames f ses) (λ r e. e))
  cryptodev_ioctl-Moves run k f (ciocgsessinfo none) = same-Moves run f f refl
  cryptodev_ioctl-Moves run k f (ciocgsessinfo (some siop)) = moved_lem run f _ (
      Always-bind (Sames f) (get_session_info api tfms f.pcr.fcrypt siop) _
        (λ r. either_lem (Sames f) (is_nonzero r.0) _ _ refl refl))
  cryptodev_ioctl-Moves run k f (cioccphash none) = same-Moves run f f refl
  cryptodev_ioctl-Moves run k f (cioccphash (some cphop)) = moved_lem run f _ (
      Always-bind (Sames f)
        (crypto_copy_hash_state api k.item_ok f.pcr.fcrypt cphop.dst_ses cphop.src_ses) _
        (λ r. refl))
  cryptodev_ioctl-Moves run k f (cioccrypt arg) = moved_lem run f _ (
      Always-bind (Sames f)
        (ioctl_crypt api k.paging k.page_ok k.junk k.arg_ok f.pcr.fcrypt arg k.kcop f.space) _
        (λ r. refl))
  cryptodev_ioctl-Moves run k f (ciocauthcrypt arg) = moved_lem run f _ (
      Always-bind (Sames f)
        (ioctl_auth_crypt api k.paging k.page_ok k.stack k.arg_ok f.pcr.fcrypt arg k.kcaop f.space)
        _ (λ r. refl))
  cryptodev_ioctl-Moves run k f (ciocasynccrypt arg) =
      Always-bind (λ (x : Reply api tfms). Moves (ciocasynccrypt arg) run f x.1)
        (kcop_from_user api f.pcr.fcrypt arg k.kcop f.space) _ (async-Moves run k f arg)
  cryptodev_ioctl-Moves run k f ciocasyncfetch = fetch-Moves run (native_to_user api tfms k) f
  cryptodev_ioctl-Moves run k f (other_command n) = same-Moves run f f refl
