-- ===== src/Session/Locks.antt =====
-- The locks of the sessions: what the holder of a session puts back, and when a call waits for ever.
mod Table
pub use Table.*
use cryptodev_linux.Prelude.{
  ℕ, ◌≡◌, refl, sym, ap, ◌∙◌, ◌⊎◌, inl, inr, Bool, true, false, Option, none, some, List, [], ◌∷◌,
  map, Code, ◌==◌, ==_iff, if◌then◌else◌, ◌>>=◌, arith, Bool-cases, Always, Always-chain,
}
use cryptodev_linux.Cryptlib.Api.{CryptoApi}
use cryptodev_linux.Cryptlib.Hash.{cryptodev_hash_copy}
use cryptodev_linux.Session.Defs.{
  Session, crypto_get_session_by_sid, crypto_put_session, crypto_copy_hash_state,
}
use cryptodev_linux.Session.Finish.{Unlocked}
use cryptodev_linux.Session.Key.{Key, key_of, keys, Fits, keys-put}
use cryptodev_linux.Cryptlib.Keeps.{KeepsHash, copy_lem}

module _ (api : CryptoApi) where
  put_twice :
      (fcr : List (Session api)) (a b : ℕ) (x y : Session api)
      → x.sid ≡ a
      → y.sid ≡ b
      → crypto_put_session api (crypto_put_session api (lock api (lock api fcr a) b) x) y
        ≡ crypto_put_session api (crypto_put_session api fcr x) y
  put_twice fcr a b x y e f = elim (Bool-cases (x.sid == b)) [
    | inl h ↦
        rw (put-lock api (lock api fcr a) b x ((==_iff x.sid b).0 h), put-lock api fcr a x e) refl
    | inr h ↦
        rw
          (
            put-lock_other api (lock api fcr a) b x h,
            put-lock api (crypto_put_session api (lock api fcr a) x) b y f,
            put-lock api fcr a x e,
          )
          refl
  ]

  -- On a list of unlocked sessions, and for the number of a session in it,
  -- `crypto_get_session_by_sid` returns that session, locked. `crypto_put_session`, for whatever
  -- the holder has made of the session under its number, leaves a list in which no session is
  -- locked and the numbers are the same.
  pub crypto_put_session-crypto_get_session_by_sid :
      (fcr : List (Session api)) (ses new : Session api)
      → Unlocked api fcr
      → ses.locked ≡ false
      → Holds api ses fcr
      → new.sid ≡ ses.sid
      → (fcr' : List (Session api)) × (crypto_get_session_by_sid api fcr ses.sid
          ≡ some (some (held api ses), fcr'))
        × Unlocked api (crypto_put_session api fcr' new)
        × (sids api (crypto_put_session api fcr' new) ≡ sids api fcr)
  crypto_put_session-crypto_get_session_by_sid fcr ses new u l h e = (
    lock api fcr ses.sid,
    free_lem api ses fcr l h,
    rw (put-lock api fcr ses.sid new e) (put-Unlocked api fcr new u),
    ap (sids api) (put-lock api fcr ses.sid new e) ∙ sids-put api fcr new,
  )

  -- `crypto_copy_hash_state` from an unlocked session to itself never returns: the second call of
  -- `crypto_get_session_by_sid` waits for the lock that the first has taken.
  pub crypto_copy_hash_state_blocks :
      (kzalloc : Bool) (fcr : List (Session api)) (ses : Session api)
      → ses.locked ≡ false
      → Holds api ses fcr
      → crypto_copy_hash_state api kzalloc fcr ses.sid ses.sid ≡ none
  unfolding crypto_copy_hash_state
  crypto_copy_hash_state_blocks kzalloc fcr ses l h = simp (
    free_lem api ses fcr l h,
    blocked_lem api (held api ses) (lock api fcr ses.sid) refl (lock_lem api ses fcr h),
  )

  cases_lem :
      (fcr : List (Session api)) (sid : ℕ)
      → (o : Option (Option (Session api) × List (Session api))) → Always (Got api fcr sid) o
      → (o ≡ none)
        ⊎ ((o ≡ some (none, fcr))
            ⊎ ((ses : Session api) × (o ≡ some (some ses, lock api fcr sid))
                × Taken api fcr sid ses))
  cases_lem fcr sid none a = inl refl
  cases_lem fcr sid (some r) (inl e) = inr (inl (ap some e))
  cases_lem fcr sid (some r) (inr (ses, e, i)) = inr (inr (ses, ap some e, i))

  pub get_cases :
      (fcr : List (Session api)) (sid : ℕ)
      → (crypto_get_session_by_sid api fcr sid ≡ none)
        ⊎ ((crypto_get_session_by_sid api fcr sid ≡ some (none, fcr))
            ⊎ ((ses : Session api) × (crypto_get_session_by_sid api fcr sid
                  ≡ some (some ses, lock api fcr sid))
                × Taken api fcr sid ses))
  get_cases fcr sid =
      cases_lem fcr sid (crypto_get_session_by_sid api fcr sid) (get_lem api fcr sid)

  -- No session is locked, and the numbers of the sessions, and which of them have a cipher and which
  -- a hash, are those of `fcr`.
  abbrev pub Kept : List (Session api) → List (Session api) → Type 0
  Kept fcr fcr' = Unlocked api fcr' × (keys api fcr' ≡ keys api fcr)

  -- What the holder makes of a session.
  abbrev pub SameKey : Session api → Session api → Type 0
  SameKey ses new = key_of api new ≡ key_of api ses

  pub put_Kept :
      (fcr : List (Session api)) (new : Session api)
      → Unlocked api fcr
      → Fits api (keys api fcr) (key_of api new)
      → Kept fcr (crypto_put_session api fcr new)
  put_Kept fcr new u f = (put-Unlocked api fcr new u, keys-put api fcr new f)

  pub once_Kept :
      (fcr : List (Session api)) (a : ℕ) (ses new : Session api)
      → Unlocked api fcr
      → Taken api fcr a ses
      → SameKey ses new
      → Kept fcr (crypto_put_session api (lock api fcr a) new)
  once_Kept fcr a ses new u (i, f) e =
      rw (put-lock api fcr a new (ap (λ (k : Key api). k.0) e ∙ i)) (put_Kept fcr new u (rw e f))

  twice_Kept :
      (fcr : List (Session api)) (a b : ℕ) (x y new : Session api)
      → Unlocked api fcr
      → Taken api fcr a x
      → Taken api (lock api fcr a) b y
      → SameKey y new
      → Kept fcr
          (crypto_put_session api (crypto_put_session api (lock api (lock api fcr a) b) x) new)
  twice_Kept fcr a b x y new u (i, f) (j, g) e =
      let put = crypto_put_session api fcr x in
      let same = keys-put api fcr x f in
      let next =
        put_Kept put new (put-Unlocked api fcr x u) (rw (same, e, sym (keys-lock api fcr a)) g) in
      rw (put_twice fcr a b x new i (ap (λ (k : Key api). k.0) e ∙ j)) (next.0, next.1 ∙ same)

  -- If no session is locked before, then however `crypto_copy_hash_state` returns (an unknown number,
  -- an error of the hash, or success), none is locked afterwards, the numbers of the sessions are the
  -- same, and so are the sessions that have a cipher and those that have a hash.
  pub crypto_copy_hash_state-Kept :
      (kzalloc : Bool) (fcr : List (Session api)) (dst_sid src_sid : ℕ)
      → Unlocked api fcr
      → Always (λ r. Kept fcr r.1) (crypto_copy_hash_state api kzalloc fcr dst_sid src_sid)
  unfolding crypto_copy_hash_state
  crypto_copy_hash_state-Kept kzalloc fcr dst_sid src_sid u = elim (get_cases fcr src_sid) [
    | inl e ↦ simp e tt
    | inr (inl e) ↦ simp e (u, refl)
    | inr (inr (src, e, i)) ↦ elim (get_cases (lock api fcr src_sid) dst_sid) [
      | inl f ↦ simp (e, f) tt
      | inr (inl f) ↦ simp (e, f) (once_Kept fcr src_sid src src u i refl)
      | inr (inr (dst, f, j)) ↦
          simp (e, f)
            (Always-chain (KeepsHash api dst.hdata)
              (λ (r : Code × List (Session api)). Kept fcr r.1)
              (cryptodev_hash_copy api kzalloc dst.hdata src.hdata) _
              (copy_lem api kzalloc dst.hdata src.hdata)
              (λ r n.
                twice_Kept fcr src_sid dst_sid src dst (record dst { hdata = r.1 }) u i j
                  (ap (λ h. (dst.sid, dst.cdata.init, h)) n)))
    ]
  ]
