-- ===== src/Session/Objects.antt =====
-- No transform, request, array or session is leaked or freed twice.
mod Init
pub use Init.*
use cryptodev_linux.Prelude.{
  ℕ, ◌+◌, ◌≡◌, refl, ◌⊎◌, inl, inr, Bool, true, false, Option, none, some, List, [], ◌∷◌, Code,
  fail, einval, success, is_nonzero, is_negative, ltb, if◌then◌else◌, ◌>>=◌, length, arith,
  Bool-cases, Option-cases, Always,
}
use Prim.Native.String.{String}
use cryptodev_linux.User.{UserSpace}
use cryptodev_linux.Cryptlib.Api.{CryptoApi}
use cryptodev_linux.Cryptlib.Keys.{
  SessionOp, check_key_size, cryptodev_get_cipher_keylen, cryptodev_get_cipher_key,
}
use cryptodev_linux.Cryptlib.Cipher.{
  Cipher, cryptodev_cipher_init, cryptodev_cipher_deinit, finish_init, init_blkcipher, init_aead,
}
use cryptodev_linux.Cryptlib.Hash.{
  Hashing, cryptodev_hash_init, init_ahash, cryptodev_hash_deinit, cryptodev_hash_reset,
}
use cryptodev_linux.Session.Algorithms.{CipherAlg, HashAlg}
use cryptodev_linux.Session.Defs.{
  Session, Memory, Setup, zeroed_session, load_cipher, set_up_cipher, load_hash, set_up_arrays,
  get_mackey, reset_new_hash, set_up_hash, session_error, set_up,
}

module _ (api : CryptoApi) where
  -- `live` counts what the session's cipher and hash hold, on top of `base`.
  abbrev Accounted : ℕ → Session api → ℕ → Type 0
  Accounted base ses live = live ≡ base + pair_of api ses.cdata.init + pair_of api ses.hdata.init

  load_cipher-Accounted :
      (mem : Memory) (u : UserSpace) (sop : SessionOp) (alg : CipherAlg) (name : String)
      (ses : Session api) (live : ℕ)
      → ses.cdata.init ≡ false
      → ses.hdata.init ≡ false
      → let r = load_cipher api mem u sop alg name ses live in
        Accounted live r.1 r.2 × (r.1.hdata.init ≡ false)
  unfolding load_cipher
  load_cipher-Accounted mem u sop alg name ses live c h =
      let keylen = cryptodev_get_cipher_keylen sop alg.aead in
      let key = cryptodev_get_cipher_key u sop alg.aead in
      let made =
        cryptodev_cipher_init api mem.cipher_request_ok live name key.1 alg.stream alg.aead
          ses.cdata in
      let m =
        cryptodev_cipher_init_result api mem.cipher_request_ok live name key.1 alg.stream alg.aead
          ses.cdata c in
      elim (Bool-cases (is_negative keylen.0)) [
        | inl a ↦ simp a (ground arith, h)
        | inr a ↦ elim (Bool-cases (is_negative key.0)) [
          | inl b ↦ simp (a, b) (ground arith, h)
          | inr b ↦ elim (Bool-cases (is_negative made.0)) [
            | inl d ↦ simp (a, b, d) (ground arith, h)
            | inr d ↦ simp (a, b, d) (ground arith, h)
          ]
        ]
      ]

  set_up_cipher-Accounted :
      (mem : Memory) (u : UserSpace) (sop : SessionOp) (alg : CipherAlg) (ses : Session api)
      (live : ℕ)
      → ses.cdata.init ≡ false
      → ses.hdata.init ≡ false
      → let r = set_up_cipher api mem u sop alg ses live in
        Accounted live r.1 r.2 × (r.1.hdata.init ≡ false)
  unfolding set_up_cipher
  set_up_cipher-Accounted mem u sop alg ses live c h = elim (Option-cases alg.name) [
    | inl e ↦ rw (e, set_up_cipher, c, h) (omega arith, refl)
    | inr (name, e) ↦ rw (e, set_up_cipher) (load_cipher-Accounted mem u sop alg name ses live c h)
  ]

  reset_new_hash-Accounted :
      (base live : ℕ) (made : Code × Hashing api × ℕ) (ses : Session api)
      → made.2 ≡ live + pair_of api made.1.init
      → live ≡ base + pair_of api ses.cdata.init
      → Always (λ (r : Setup api). Accounted base r.1 r.2) (reset_new_hash api made ses)
  unfolding reset_new_hash cryptodev_hash_reset
  reset_new_hash-Accounted base live made ses h p = elim (Bool-cases (is_nonzero made.0)) [
    | inl z ↦ rw z (omega arith)
    | inr z ↦ rw z (elim (Option-cases made.1.request) [
      | inl e ↦ rw e tt
      | inr (request, e) ↦ rw e (omega arith)
    ])
  ]

  load_hash-Accounted :
      (base : ℕ) (mem : Memory) (u : UserSpace) (sop : SessionOp) (alg : HashAlg) (name : String)
      (ses : Session api) (live : ℕ)
      → ses.hdata.init ≡ false
      → Accounted base ses live
      → Always
          (λ (r : Setup api). Accounted base r.1 r.2)
          (load_hash api mem u sop alg name ses live)
  unfolding load_hash
  load_hash-Accounted base mem u sop alg name ses live h a =
      elim (Bool-cases (ltb 512 sop.mackeylen)) [
        | inl z ↦ rw z a
        | inr z ↦ rw z (elim (Option-cases (get_mackey api mem u sop)) [
          | inl e ↦ rw (e, load_hash) a
          | inr (mackey, e) ↦
              rw (e, load_hash)
                (let m =
                    cryptodev_hash_init_result api mem.hash_request_ok live name alg.hmac_mode
                      mackey ses.hdata h in
                  reset_new_hash-Accounted base live
                    (cryptodev_hash_init api mem.hash_request_ok live name alg.hmac_mode mackey
                      ses.hdata)
                    ses (ground arith) (ground arith))
        ])
      ]

  set_up_hash-Accounted :
      (base : ℕ) (mem : Memory) (u : UserSpace) (sop : SessionOp) (alg : HashAlg)
      (ses : Session api) (live : ℕ)
      → ses.hdata.init ≡ false
      → Accounted base ses live
      → Always (λ (r : Setup api). Accounted base r.1 r.2) (set_up_hash api mem u sop alg ses live)
  unfolding set_up_hash
  set_up_hash-Accounted base mem u sop alg ses live h a = elim (Option-cases alg.name) [
    | inl e ↦ rw (e, set_up_hash) a
    | inr (name, e) ↦ rw (e, set_up_hash) (load_hash-Accounted base mem u sop alg name ses live h a)
  ]

  session_error_frees :
      (base : ℕ) (ses : Session api) (arrays live total : ℕ)
      → Accounted (base + 1) ses live
      → total ≡ live + arrays
      → session_error api ses arrays total ≡ base
  unfolding session_error cryptodev_hash_deinit cryptodev_cipher_deinit
  session_error_frees base ses arrays live total a e = ground arith

  -- A session that has been set up holds what `live` counts; one that has failed holds nothing.
  abbrev pub SetUp : ℕ → Setup api → Type 0
  SetUp live r =
      ((is_nonzero r.0 ≡ true) → r.2 ≡ live)
      × ((is_nonzero r.0 ≡ false) → r.2 ≡ live + objects_of api r.1)

  set_up_arrays-SetUp :
      (mem : Memory) (live : ℕ) (made : Setup api)
      → Accounted (live + 1) made.1 made.2
      → SetUp live (set_up_arrays api mem made)
  unfolding set_up_arrays
  set_up_arrays-SetUp mem live made a = elim (Bool-cases (is_nonzero made.0)) [
    | inl z ↦ simp z (
      (λ _. session_error_frees live made.1 0 made.2 made.2 a (omega arith)),
      λ k. absurd (ground arith),
    )
    | inr z ↦ elim (Bool-cases mem.pages_ok) [
      | inl p ↦ elim (Bool-cases mem.sg_ok) [
        | inl q ↦ simp (z, p, q) ((λ k. absurd (ground arith)), λ _. omega (arith, a))
        | inr q ↦
            simp (z, p, q)
              ((λ _. session_error_frees live _ 1 made.2 _ a refl), λ k. absurd (ground arith))
      ]
      | inr p ↦ elim (Bool-cases mem.sg_ok) [
        | inl q ↦
            simp (z, p, q)
              ((λ _. session_error_frees live _ 1 made.2 _ a refl), λ k. absurd (ground arith))
        | inr q ↦
            simp (z, p, q)
              ((λ _. session_error_frees live _ 0 made.2 _ a refl), λ k. absurd (ground arith))
      ]
    ]
  ]

  after_hash_lem :
      (mem : Memory) (live : ℕ) (made : Option (Setup api))
      → Always (λ (r : Setup api). Accounted (live + 1) r.1 r.2) made
      → Always (SetUp live) (made >>= λ h. some (set_up_arrays api mem h))
  after_hash_lem mem live none a = tt
  after_hash_lem mem live (some made) a = set_up_arrays-SetUp mem live made a

  pub set_up-SetUp :
      (mem : Memory) (u : UserSpace) (sop : SessionOp) (calg : CipherAlg) (halg : HashAlg)
      (live : ℕ)
      → Always (SetUp live) (set_up api mem u sop calg halg live)
  unfolding set_up
  set_up-SetUp mem u sop calg halg live =
      let c = set_up_cipher api mem u sop calg (zeroed_session api) (live + 1) in
      let a = set_up_cipher-Accounted mem u sop calg (zeroed_session api) (live + 1) refl refl in
      elim (Bool-cases (is_nonzero c.0)) [
        | inl z ↦ rw z (
          (λ _. session_error_frees live c.1 0 c.2 c.2 a.0 (omega arith)),
          λ k. absurd (ground arith),
        )
        | inr z ↦ rw z (elim (Bool-cases calg.aead) [
          | inl g ↦ simp g (set_up_arrays-SetUp mem live c a.0)
          | inr g ↦ simp g (
              after_hash_lem mem live _
                (set_up_hash-Accounted (live + 1) mem u sop halg c.1 c.2 a.1 a.0))
        ])
      ]
