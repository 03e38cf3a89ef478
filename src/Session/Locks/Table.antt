-- ===== src/Session/Locks/Table.antt =====
-- The table of sessions under a lock and a write to the locked session (ioctl.c).
use cryptodev_linux.Prelude.{
  ℕ, ◌≡◌, refl, sym, ap, ◌⊎◌, inl, inr, true, false, Option, none, some, List, [], ◌∷◌, map, ◌==◌,
  ==_iff, if◌then◌else◌, ◌>>=◌, arith, Bool-cases, Always,
}
use cryptodev_linux.Cryptlib.Api.{CryptoApi}
use cryptodev_linux.Session.Defs.{Session, crypto_get_session_by_sid, crypto_put_session}
use cryptodev_linux.Session.Finish.{Unlocked}
use cryptodev_linux.Session.Key.{key_of, keys, Fits}

onto_lem : (a b c : ℕ) → (a == b) ≡ true → c ≡ b → (a == c) ≡ true
onto_lem a b c h e = ground arith

apart_lem : (a b c : ℕ) → (a == b) ≡ true → (c == b) ≡ false → (a == c) ≡ false
apart_lem a b c h e = ground arith

off_lem : (a b c : ℕ) → (a == b) ≡ false → c ≡ b → (a == c) ≡ false
off_lem a b c h e = ground arith

same_lem : (a : ℕ) → (a == a) ≡ true
same_lem a = ground arith

module _ (api : CryptoApi) where
  abbrev pub sids : List (Session api) → List ℕ
  sids fcr = map (λ ses. ses.sid) fcr

  -- The list in which the session of a number is locked.
  unfoldable pub lock : List (Session api) → ℕ → List (Session api)
  lock [] sid = []
  lock (ses ∷ fcr) sid =
      if ses.sid == sid then record ses { locked = true } ∷ fcr else ses ∷ lock fcr sid

  abbrev pub held : Session api → Session api
  held ses = record ses { locked = true }

  -- A number is in the list, and its session is `ses`.
  pub data Holds (ses : Session api) : List (Session api) → Type 0 where
    here : {fcr : List (Session api)} → Holds ses (ses ∷ fcr)
    later :
        {s : Session api} {fcr : List (Session api)}
        → (s.sid == ses.sid) ≡ false
        → Holds ses fcr
        → Holds ses (s ∷ fcr)

  pub free_lem :
      (ses : Session api) (fcr : List (Session api))
      → ses.locked ≡ false
      → Holds ses fcr
      → crypto_get_session_by_sid api fcr ses.sid ≡ some (some (held ses), lock fcr ses.sid)
  unfolding crypto_get_session_by_sid lock
  free_lem ses _ u here = simp (same_lem ses.sid, u)
  free_lem ses _ u (later {s} {fcr} n h) = simp (n, free_lem ses fcr u h)

  pub blocked_lem :
      (ses : Session api) (fcr : List (Session api))
      → ses.locked ≡ true
      → Holds ses fcr
      → crypto_get_session_by_sid api fcr ses.sid ≡ none
  unfolding crypto_get_session_by_sid
  blocked_lem ses _ u here = simp (same_lem ses.sid, u)
  blocked_lem ses _ u (later {s} {fcr} n h) = simp (n, blocked_lem ses fcr u h)

  pub lock_lem :
      (ses : Session api) (fcr : List (Session api))
      → Holds ses fcr
      → Holds (held ses) (lock fcr ses.sid)
  unfolding lock
  lock_lem ses _ here = simp (same_lem ses.sid) here
  lock_lem ses _ (later {s} {fcr} n h) = simp n (later n (lock_lem ses fcr h))

  pub keys-lock : (fcr : List (Session api)) (sid : ℕ) → keys api (lock fcr sid) ≡ keys api fcr
  unfolding lock
  keys-lock [] sid = refl
  keys-lock (s ∷ fcr) sid = elim (Bool-cases (s.sid == sid)) [
    | inl h ↦ rw h refl
    | inr h ↦ rw h (ap (λ ks. key_of api s ∷ ks) (keys-lock fcr sid))
  ]

  -- A session of this number, whose key is that of the one in the list.
  abbrev pub Taken : List (Session api) → ℕ → Session api → Type 0
  Taken fcr sid ses = (ses.sid ≡ sid) × Fits api (keys api fcr) (key_of api ses)

  here_Fits :
      (s : Session api) (fcr : List (Session api)) (sid : ℕ)
      → (s.sid == sid) ≡ true
      → Taken (s ∷ fcr) sid (held s)
  here_Fits s fcr sid h = ((==_iff s.sid sid).0 h, (λ g. refl, λ g. absurd (ground (arith, g))))

  later_Fits :
      (s ses : Session api) (fcr : List (Session api)) (sid : ℕ)
      → (s.sid == sid) ≡ false
      → Taken fcr sid ses
      → Taken (s ∷ fcr) sid ses
  later_Fits s ses fcr sid h (i, f) = (i, (λ g. absurd (ground (arith, g, h, i)), λ g. f))

  abbrev pub Got : List (Session api) → ℕ → Option (Session api) × List (Session api) → Type 0
  Got fcr sid r =
      (r ≡ (none, fcr)) ⊎ ((ses : Session api) × (r ≡ (some ses, lock fcr sid)) × Taken fcr sid ses)

  later_get :
      (s : Session api) (fcr : List (Session api)) (sid : ℕ)
      → (s.sid == sid) ≡ false
      → (o : Option (Option (Session api) × List (Session api))) → Always (Got fcr sid) o
      → Always (Got (s ∷ fcr) sid) (o >>= λ r. some (r.0, s ∷ r.1))
  unfolding lock
  later_get s fcr sid h none a = tt
  later_get s fcr sid h (some r) (inl e) = inl (ap (λ x. (x.0, s ∷ x.1)) e)
  later_get s fcr sid h (some r) (inr (ses, e, i)) =
      simp h (inr (ses, ap (λ x. (x.0, s ∷ x.1)) e, later_Fits s ses fcr sid h i))

  -- How `crypto_get_session_by_sid` can end, if it does.
  pub get_lem :
      (fcr : List (Session api)) (sid : ℕ)
      → Always (Got fcr sid) (crypto_get_session_by_sid api fcr sid)
  unfolding crypto_get_session_by_sid lock
  get_lem [] sid = inl refl
  get_lem (s ∷ fcr) sid = elim (Bool-cases (s.sid == sid)) [
    | inl h ↦ elim (Bool-cases s.locked) [
      | inl l ↦ simp (h, l) tt
      | inr l ↦ simp (h, l) (inr (held s, refl, here_Fits s fcr sid h))
    ]
    | inr h ↦
        simp h (later_get s fcr sid h (crypto_get_session_by_sid api fcr sid) (get_lem fcr sid))
  ]

  -- Putting back the session that was locked is putting it into the list as it was.
  pub put-lock :
      (fcr : List (Session api)) (sid : ℕ) (new : Session api)
      → new.sid ≡ sid
      → crypto_put_session api (lock fcr sid) new ≡ crypto_put_session api fcr new
  unfolding crypto_put_session lock
  put-lock [] sid new e = refl
  put-lock (s ∷ fcr) sid new e = elim (Bool-cases (s.sid == sid)) [
    | inl h ↦ simp (h, onto_lem s.sid sid new.sid h e)
    | inr h ↦ simp (h, off_lem s.sid sid new.sid h e, put-lock fcr sid new e)
  ]

  pub put-lock_other :
      (fcr : List (Session api)) (sid : ℕ) (new : Session api)
      → (new.sid == sid) ≡ false
      → crypto_put_session api (lock fcr sid) new ≡ lock (crypto_put_session api fcr new) sid
  unfolding crypto_put_session lock
  put-lock_other [] sid new e = refl
  put-lock_other (s ∷ fcr) sid new e = elim (Bool-cases (s.sid == sid)) [
    | inl h ↦ simp (h, apart_lem s.sid sid new.sid h e)
    | inr h ↦ elim (Bool-cases (s.sid == new.sid)) [
      | inl g ↦ simp (h, g, e)
      | inr g ↦ simp (h, g, put-lock_other fcr sid new e)
    ]
  ]

  pub put-Unlocked :
      (fcr : List (Session api)) (new : Session api)
      → Unlocked api fcr
      → Unlocked api (crypto_put_session api fcr new)
  unfolding crypto_put_session
  put-Unlocked [] new u = tt
  put-Unlocked (s ∷ fcr) new u = elim (Bool-cases (s.sid == new.sid)) [
    | inl h ↦ simp h (refl, u.1)
    | inr h ↦ simp h (u.0, put-Unlocked fcr new u.1)
  ]

  pub sids-put :
      (fcr : List (Session api)) (new : Session api)
      → sids (crypto_put_session api fcr new) ≡ sids fcr
  unfolding crypto_put_session
  sids-put [] new = refl
  sids-put (s ∷ fcr) new = elim (Bool-cases (s.sid == new.sid)) [
    | inl h ↦ simp h (ap (λ x. x ∷ sids fcr) (sym ((==_iff s.sid new.sid).0 h)))
    | inr h ↦ simp (h, sids-put fcr new)
  ]
