-- ===== src/Run/Refused.antt =====
-- The inputs that `crypto_run` refuses (main.c).
use cryptodev_linux.Prelude.{
  ℕ, ◌%◌, ◌≡◌, refl, ap, ◌∙◌, inl, inr, Bool, true, false, ◌&&◌, ◌||◌, not, test_bit, some, none,
  List, [], ◌∷◌, Code, success, fail, einval, ◌==◌, arith, Bool-cases,
}
use cryptodev_linux.User.{UserSpace}
use cryptodev_linux.Zc.Defs.{Paging}
use cryptodev_linux.Cryptlib.Api.{CryptoApi}
use cryptodev_linux.Cryptlib.Hash.{Hashing, cryptodev_hash_reset}
use cryptodev_linux.Session.Defs.{Session, has_sid, crypto_get_session_by_sid, crypto_put_session}
use cryptodev_linux.Session.Locks.{Holds, held, lock, free_lem}
use cryptodev_linux.Run.Defs.{
  KernelCryptOp, Job, Part, flag_reset, reset_part, iv_part, run_held, crypto_run, cop_encrypt,
  cop_decrypt,
}

module _ (api : CryptoApi) where
  -- The resets of a hash that returns 0.
  abbrev pub Resets : Session api → Type 0
  Resets ses = (after : Hashing api) × (cryptodev_hash_reset api ses.hdata ≡ some (success, after))

  -- An operation that does not exist, a session that does not exist, and a length that is not a
  -- whole number of blocks of the cipher, on a session that is free and whose hash can be reset.
  pub data Refused (fcr : List (Session api)) (kcop : KernelCryptOp) : Type 0 where
    no_operation :
        (kcop.cop.op == cop_encrypt) ≡ false
        → (kcop.cop.op == cop_decrypt) ≡ false
        → Refused fcr kcop
    no_session : has_sid api kcop.cop.ses fcr ≡ false → Refused fcr kcop
    partial_block :
        (ses : Session api)
        → kcop.cop.ses ≡ ses.sid
        → Holds api ses fcr
        → ses.locked ≡ false
        → ses.cdata.init ≡ true
        → (kcop.cop.len % ses.cdata.blocksize == 0) ≡ false
        → Resets ses
        → Refused fcr kcop

  missing_lem :
      (fcr : List (Session api)) (sid : ℕ)
      → has_sid api sid fcr ≡ false
      → crypto_get_session_by_sid api fcr sid ≡ some (none, fcr)
  unfolding has_sid crypto_get_session_by_sid
  missing_lem [] sid h = refl
  missing_lem (ses ∷ fcr) sid h = elim (Bool-cases (sid == ses.sid)) [
    | inl e ↦ absurd (ground (arith, e, h))
    | inr e ↦
        let other : (ses.sid == sid) ≡ false = ground (arith, e) in
        let gone : has_sid api sid fcr ≡ false = rw e at h in simp (other, missing_lem fcr sid gone)
  ]

  -- What a job that has been refused leaves.
  abbrev Stopped : Job api → Part api → Type 0
  Stopped j p =
      (after : Job api) × (p ≡ some (true, after))
      × (after.ret ≡ fail einval)
      × (after.kcop ≡ j.kcop)
      × (after.space ≡ j.space)

  iv_part-Stopped :
      (j : Job api)
      → j.held.cdata.init ≡ true
      → (j.kcop.cop.len % j.held.cdata.blocksize == 0) ≡ false
      → Stopped j (iv_part api j)
  unfolding iv_part
  iv_part-Stopped j i p = (record j { ret = fail einval }, simp (i, p), refl, refl, refl)

  reset_lem :
      (j : Job api)
      → Resets j.held
      → (ret : Code) × (hdata : Hashing api) × (reset_part api j
          ≡ some (false, record j { ret = ret; held = record (j.held) { hdata = hdata } }))
  unfolding reset_part
  reset_lem j (after, e) =
      elim (Bool-cases
        (j.held.hdata.init && (j.kcop.cop.flags == 0 || test_bit flag_reset j.kcop.cop.flags))) [
          | inl h ↦ (success, after, simp (h, e))
          | inr h ↦ (j.ret, j.held.hdata, simp h)
        ]

  run_held-Stopped :
      (env : Paging) (page_ok : Bool) (j : Job api)
      → Resets j.held
      → j.held.cdata.init ≡ true
      → (j.kcop.cop.len % j.held.cdata.blocksize == 0) ≡ false
      → Stopped j (run_held api env page_ok j)
  unfolding run_held
  run_held-Stopped env page_ok j r i p =
      let reset = reset_lem j r in
      let s =
        iv_part-Stopped (record j { ret = reset.0; held = record (j.held) { hdata = reset.1 } }) i
          p in
      (s.0, rw (reset.2, s.1) refl, s.2, s.3, s.4)

  -- `crypto_run` returns -EINVAL for an operation that does not exist, for a session that the file
  -- does not have, and for a length that is not a whole number of blocks of the session's cipher;
  -- in the last case the session is free and its hash can be reset. It then leaves the user's
  -- memory and the argument as they were.
  pub crypto_run-Refused :
      (env : Paging) (page_ok : Bool) (junk : Code) (fcr : List (Session api))
      (kcop : KernelCryptOp) (u : UserSpace)
      → Refused fcr kcop
      → (fcr' : List (Session api)) × (crypto_run api env page_ok junk fcr kcop u
          ≡ some (fail einval, fcr', kcop, u))
  unfolding crypto_run
  crypto_run-Refused env page_ok junk fcr kcop u (no_operation e d) = (fcr, simp (e, d))
  crypto_run-Refused env page_ok junk fcr kcop u (no_session h) =
      elim (Bool-cases (not (kcop.cop.op == cop_encrypt) && not (kcop.cop.op == cop_decrypt))) [
        | inl bad ↦ (fcr, simp bad)
        | inr good ↦ (fcr, simp (good, missing_lem fcr kcop.cop.ses h))
      ]
  crypto_run-Refused env page_ok junk fcr kcop u (partial_block ses n h l i p r) =
      let got : crypto_get_session_by_sid api fcr kcop.cop.ses
          ≡ some (some (held api ses), lock api fcr ses.sid) =
        ap (crypto_get_session_by_sid api fcr) n ∙ free_lem api ses fcr l h in
      let j : Job api = record { ret = junk; held = held api ses; kcop = kcop; space = u } in
      let s = run_held-Stopped env page_ok j r i p in
      let fcr' = crypto_put_session api (lock api fcr ses.sid) s.0.held in
      elim (Bool-cases (not (kcop.cop.op == cop_encrypt) && not (kcop.cop.op == cop_decrypt))) [
        | inl bad ↦ (fcr, simp bad)
        | inr good ↦ (
          fcr',
          simp (good, got, s.1)
              (ap (λ (x : Code × KernelCryptOp × UserSpace). some (x.0, fcr', x.1, x.2))
                (simp (s.2, s.3, s.4))),
        )
      ]
