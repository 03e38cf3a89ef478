-- ===== src/Session/Create.antt =====
-- `crypto_create_session` as a whole.
use cryptodev_linux.Prelude.{
  ℕ, zero, suc, ◌+◌, ◌≡◌, refl, inl, inr, true, false, ◌&&◌, Option, none, some, List, ◌∷◌, success,
  is_nonzero, ◌==◌, ◌>>=◌, Bool-cases, Option-cases, Always,
}
use cryptodev_linux.User.{UserSpace}
use cryptodev_linux.Cryptlib.Api.{CryptoApi}
use cryptodev_linux.Cryptlib.Keys.{SessionOp}
use cryptodev_linux.Session.Algorithms.{CipherAlg, HashAlg, cipher_alg, hash_alg}
use cryptodev_linux.Session.Defs.{
  Session, Memory, Setup, has_sid, fresh_sid, add_session, start_session, crypto_create_session,
  Created,
}
use cryptodev_linux.Session.Objects.{objects_of, SetUp, set_up-SetUp}

module _ (api : CryptoApi) where
  fresh_sid_unused :
      (fuel : ℕ) (random : ℕ → ℕ) (n : ℕ) (fcr : List (Session api))
      → Always (λ (r : ℕ × ℕ). has_sid api r.0 fcr ≡ false) (fresh_sid api fuel random n fcr)
  unfolding fresh_sid
  fresh_sid_unused zero random n fcr = tt
  fresh_sid_unused (suc fuel) random n fcr = elim (Bool-cases (has_sid api (random n) fcr)) [
    | inl h ↦ rw h (fresh_sid_unused fuel random (suc n) fcr)
    | inr h ↦ simp h
  ]

  -- The two ways in which `crypto_create_session` can end: a failure that changes nothing, or a new
  -- session at the head of the list, unlocked, under a number that no other has and that is
  -- reported to the caller, with its objects counted.
  pub data CreatedFrom (fcr : List (Session api)) (sop : SessionOp) (live : ℕ) (r : Created api)
      : Type 0 where
    refused :
        is_nonzero r.code ≡ true
        → r.fcr ≡ fcr
        → r.sop ≡ sop
        → r.live ≡ live
        → CreatedFrom fcr sop live r
    added :
        (new : Session api)
        → r.code ≡ success
        → r.fcr ≡ new ∷ fcr
        → has_sid api new.sid fcr ≡ false
        → new.locked ≡ false
        → r.sop ≡ record sop { ses = new.sid }
        → r.live ≡ live + objects_of api new
        → CreatedFrom fcr sop live r

  added_by :
      (live drawn : ℕ) (fcr : List (Session api)) (sop : SessionOp) (made : Setup api)
      (fresh : Option (ℕ × ℕ))
      → made.2 ≡ live + objects_of api made.1
      → Always (λ (r : ℕ × ℕ). has_sid api r.0 fcr ≡ false) fresh
      → Always (CreatedFrom fcr sop live) (
          fresh >>= λ f. some (record {
            code = success;
            fcr = record (made.1) { sid = f.0; locked = false } ∷ fcr;
            sop = record sop { ses = f.0 };
            live = made.2;
            drawn = f.1;
          }))
  added_by live drawn fcr sop made none s h = tt
  added_by live drawn fcr sop made (some f) s h =
      added (record (made.1) { sid = f.0; locked = false }) refl refl h refl refl s

  add_session_cases :
      (fuel : ℕ) (random : ℕ → ℕ) (drawn live : ℕ) (fcr : List (Session api)) (sop : SessionOp)
      (made : Option (Setup api))
      → Always (SetUp api live) made
      → Always (CreatedFrom fcr sop live) (made >>= add_session api fuel random drawn fcr sop)
  unfolding add_session
  add_session_cases fuel random drawn live fcr sop none s = tt
  add_session_cases fuel random drawn live fcr sop (some made) s =
      elim (Bool-cases (is_nonzero made.0)) [
        | inl h ↦ simp h (refused h refl refl (s.0 h))
        | inr h ↦ simp h (
            added_by live drawn fcr sop made (fresh_sid api fuel random drawn fcr) (s.1 h)
              (fresh_sid_unused fuel random drawn fcr))
      ]

  start_session_cases :
      (mem : Memory) (u : UserSpace) (fuel : ℕ) (random : ℕ → ℕ) (drawn live : ℕ)
      (fcr : List (Session api)) (sop : SessionOp) (calg : CipherAlg) (halg : HashAlg)
      → Always
          (CreatedFrom fcr sop live)
          (start_session api mem u fuel random drawn live fcr sop calg halg)
  unfolding start_session
  start_session_cases mem u fuel random drawn live fcr sop calg halg =
      elim (Bool-cases mem.ses_ok) [
        | inl o ↦ simp o (
            add_session_cases fuel random drawn live fcr sop _
              (set_up-SetUp api mem u sop calg halg live))
        | inr o ↦ simp o (refused refl refl refl refl)
      ]

  -- However `crypto_create_session` returns, it has either failed and left the list of sessions, the
  -- argument and the number of kernel objects, or put an unlocked session at the head of the list,
  -- under a number that no other session has and that it reports, with all its objects counted.
  pub crypto_create_session_cases :
      (mem : Memory) (u : UserSpace) (fuel : ℕ) (random : ℕ → ℕ) (drawn live : ℕ)
      (fcr : List (Session api)) (sop : SessionOp)
      → Always
          (CreatedFrom fcr sop live)
          (crypto_create_session api mem u fuel random drawn live fcr sop)
  unfolding crypto_create_session
  crypto_create_session_cases mem u fuel random drawn live fcr sop =
      elim (Bool-cases (sop.cipher == 0 && sop.mac == 0)) [
        | inl h ↦ simp h (refused refl refl refl refl)
        | inr h ↦ simp h (elim (Option-cases (cipher_alg sop.cipher)) [
          | inl c ↦ rw (c, crypto_create_session) (refused refl refl refl refl)
          | inr (calg, c) ↦ elim (Option-cases (hash_alg sop.mac)) [
            | inl k ↦ rw (c, k, crypto_create_session) (refused refl refl refl refl)
            | inr (halg, k) ↦
                rw (c, k, crypto_create_session)
                  (start_session_cases mem u fuel random drawn live fcr sop calg halg)
          ]
        ])
      ]
