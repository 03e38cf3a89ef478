-- ===== src/Session/Finish.antt =====
-- The list of sessions as a set: numbers are unique, a new session is found, a finished one is gone.
use cryptodev_linux.Prelude.{
  ℕ, ==_iff, ◌+◌, ◌≡◌, refl, ap, ◌∙◌, inl, inr, true, false, some, List, [], ◌∷◌, success, ◌==◌,
  arith, Bool-cases,
}
use cryptodev_linux.Cryptlib.Api.{CryptoApi}
use cryptodev_linux.Cryptlib.Keys.{SessionOp}
use cryptodev_linux.Cryptlib.Cipher.{cryptodev_cipher_deinit}
use cryptodev_linux.Cryptlib.Hash.{cryptodev_hash_deinit}
use cryptodev_linux.Session.Defs.{
  Session, has_sid, Created, crypto_destroy_session, crypto_finish_session,
  crypto_finish_all_sessions,
}
use cryptodev_linux.Session.Objects.{objects, objects_of}
use cryptodev_linux.Session.Create.{CreatedFrom, refused, added}

assoc_lem : (a b c : ℕ) → a + (b + c) ≡ a + b + c
assoc_lem a b c = omega arith

zero_lem : {a b : ℕ} → a ≡ b → a ≡ 0 + b
zero_lem h = omega (arith, h)

same_lem : (a b : ℕ) → a ≡ b → (a == b) ≡ true
same_lem a b h = ground arith

swapped_lem : (a b : ℕ) → (a == b) ≡ false → (b == a) ≡ false
swapped_lem a b h = ground arith

differ_lem : (other a b : ℕ) → a ≡ b → (other == b) ≡ false → (other == a) ≡ false
differ_lem other a b h n = ground arith

module _ (api : CryptoApi) where
  abbrev pub Distinct : List (Session api) → Type 0
  Distinct [] = Unit
  Distinct (ses ∷ fcr) = (has_sid api ses.sid fcr ≡ false) × Distinct fcr

  abbrev pub Unlocked : List (Session api) → Type 0
  Unlocked [] = Unit
  Unlocked (ses ∷ fcr) = (ses.locked ≡ false) × Unlocked fcr

  -- What holds between two calls on an open file: the numbers of the sessions are distinct, none is
  -- locked, and `live` counts their objects.
  pub record IsTable (fcr : List (Session api)) (live : ℕ) : Type 0 where
    pub distinct : Distinct fcr
    pub unlocked : Unlocked fcr
    pub counted : live ≡ objects api fcr

  -- However `crypto_create_session` ends, what holds of the list of sessions still does.
  pub CreatedFrom-IsTable :
      (fcr : List (Session api)) (sop : SessionOp) (live : ℕ) (r : Created api)
      → CreatedFrom api fcr sop live r
      → IsTable fcr live
      → IsTable r.fcr r.live
  CreatedFrom-IsTable fcr sop live r (refused c f s l) t = rw (f, l) t
  CreatedFrom-IsTable fcr sop live r (added new c f h u s l) t =
      rw (f, l)
        (record {
          distinct = (h, t.distinct);
          unlocked = (u, t.unlocked);
          counted = omega (arith, t.counted);
        })

  destroy_lem :
      (ses : Session api) (rest live : ℕ)
      → ses.locked ≡ false
      → live ≡ rest + objects_of api ses
      → crypto_destroy_session api ses live ≡ some rest
  unfolding crypto_destroy_session cryptodev_cipher_deinit cryptodev_hash_deinit
  destroy_lem ses rest live u l = ground arith

  -- What is left of a list of sessions without the number, with `base` objects that are not theirs.
  record Without (fcr : List (Session api)) (sid base : ℕ) (fcr' : List (Session api))
      : Type 0 where
    run :
        crypto_finish_session api fcr sid (base + objects api fcr)
        ≡ some (success, fcr', base + objects api fcr')
    distinct : Distinct fcr'
    unlocked : Unlocked fcr'
    gone : has_sid api sid fcr' ≡ false
    kept : (other : ℕ) → (other == sid) ≡ false → has_sid api other fcr' ≡ has_sid api other fcr

  found_lem :
      (ses : Session api) (fcr : List (Session api)) (sid base : ℕ)
      → ses.sid ≡ sid
      → Distinct (ses ∷ fcr)
      → Unlocked (ses ∷ fcr)
      → Without (ses ∷ fcr) sid base fcr
  unfolding crypto_finish_session has_sid
  found_lem ses fcr sid base h d u = record {
    run = simp (
      same_lem ses.sid sid h,
      destroy_lem ses (base + objects api fcr) (base + (objects_of api ses + objects api fcr)) u.0
          (omega arith),
    );
    distinct = d.1;
    unlocked = u.1;
    gone = rw (h) at d.0;
    kept = λ other n. simp (differ_lem other ses.sid sid h n);
  }

  skipped_lem :
      (ses : Session api) (fcr : List (Session api)) (sid base : ℕ)
      → (ses.sid == sid) ≡ false
      → Distinct (ses ∷ fcr)
      → Unlocked (ses ∷ fcr)
      → (fcr' : List (Session api)) → Without fcr sid (base + objects_of api ses) fcr'
      → Without (ses ∷ fcr) sid base (ses ∷ fcr')
  unfolding crypto_finish_session has_sid
  skipped_lem ses fcr sid base h d u fcr' w = record {
    run = simp (
      h,
      assoc_lem base (objects_of api ses) (objects api fcr),
      w.run,
      assoc_lem base (objects_of api ses) (objects api fcr'),
    );
    distinct = (w.kept ses.sid h ∙ d.0, w.distinct);
    unlocked = (u.0, w.unlocked);
    gone = simp (swapped_lem ses.sid sid h, w.gone);
    kept = λ other n. simp (w.kept other n);
  }

  missing_lem : (sid base : ℕ) → Without [] sid base []
  unfolding crypto_finish_session has_sid
  missing_lem sid base = record {
    run = refl;
    distinct = tt;
    unlocked = tt;
    gone = refl;
    kept = λ other n. refl;
  }

  finish_lem :
      (fcr : List (Session api)) (sid base : ℕ)
      → Distinct fcr
      → Unlocked fcr
      → (fcr' : List (Session api)) × Without fcr sid base fcr'
  finish_lem [] sid base d u = ([], missing_lem sid base)
  finish_lem (ses ∷ fcr) sid base d u = elim (Bool-cases (ses.sid == sid)) [
    | inl h ↦ (fcr, found_lem ses fcr sid base ((==_iff ses.sid sid).0 h) d u)
    | inr h ↦
        let rest = finish_lem fcr sid (base + objects_of api ses) d.1 u.1 in
        (ses ∷ rest.0, skipped_lem ses fcr sid base h d u rest.0 rest.1)
  ]

  -- On a list of distinct, unlocked sessions whose objects are all counted, `crypto_finish_session`
  -- returns 0, for a number that is not in the list as well. The number is not in the list it
  -- leaves, every other number is in it exactly if it was, and what holds between two calls still
  -- does: in particular the objects of the sessions that are left are exactly the objects that are
  -- left.
  pub crypto_finish_session_removes :
      (fcr : List (Session api)) (sid live : ℕ)
      → IsTable fcr live
      → (fcr' : List (Session api)) × (live' : ℕ) × (crypto_finish_session api fcr sid live
          ≡ some (success, fcr', live'))
        × IsTable fcr' live'
        × (has_sid api sid fcr' ≡ false)
        × ((other : ℕ) → (other == sid) ≡ false → has_sid api other fcr' ≡ has_sid api other fcr)
  crypto_finish_session_removes fcr sid live t =
      let r = finish_lem fcr sid 0 t.distinct t.unlocked in
      let w = r.1 in
      (
        r.0,
        0 + objects api r.0,
        ap (crypto_finish_session api fcr sid) (zero_lem t.counted) ∙ w.run,
        record { distinct = w.distinct; unlocked = w.unlocked; counted = omega arith },
        w.gone,
        w.kept,
      )

  pub finish_all_lem :
      (fcr : List (Session api)) (base live : ℕ)
      → Unlocked fcr
      → live ≡ base + objects api fcr
      → crypto_finish_all_sessions api fcr live ≡ some base
  unfolding crypto_finish_all_sessions
  finish_all_lem [] base live u l = ap some (omega (arith, l))
  finish_all_lem (ses ∷ fcr) base live u l = simp (
    destroy_lem ses (base + objects api fcr) live u.0 (omega arith),
    finish_all_lem fcr base (base + objects api fcr) u.1 refl,
  )

  -- `crypto_finish_all_sessions` on the sessions of a file, none of which is locked, returns (it
  -- waits for no lock), and frees every kernel object that the sessions hold, and no other: of
  -- `others` more objects than the sessions', exactly `others` are left.
  pub crypto_finish_all_sessions_frees :
      (fcr : List (Session api)) (live others : ℕ)
      → IsTable fcr live
      → crypto_finish_all_sessions api fcr (others + live) ≡ some others
  crypto_finish_all_sessions_frees fcr live others t =
      finish_all_lem fcr others (others + live) t.unlocked (omega (arith, t.counted))
