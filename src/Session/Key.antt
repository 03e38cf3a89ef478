-- ===== src/Session/Key.antt =====
-- What the calls on a session never change: its number, and whether its cipher and its hash are set
-- up.
use cryptodev_linux.Prelude.{
  ℕ, ◌+◌, ◌≡◌, refl, sym, ap, ◌∙◌, inl, inr, Bool, true, false, List, [], ◌∷◌, map, ◌==◌,
  if◌then◌else◌, Bool-cases,
}
use cryptodev_linux.Cryptlib.Api.{CryptoApi}
use cryptodev_linux.Session.Defs.{Session, has_sid, crypto_put_session}
use cryptodev_linux.Session.Objects.{objects, pair_of}
use cryptodev_linux.Session.Finish.{Distinct, Unlocked, IsTable}

module _ (api : CryptoApi) where
  abbrev pub Key : Type 0
  Key = ℕ × Bool × Bool

  abbrev pub key_of : Session api → Key
  key_of ses = (ses.sid, ses.cdata.init, ses.hdata.init)

  abbrev pub keys : List (Session api) → List Key
  keys fcr = map key_of fcr

  -- A session with this key can take the place of the first session of its number.
  abbrev pub Fits : List Key → Key → Type 0
  Fits [] k = Unit
  Fits (k' ∷ ks) k = ((k'.0 == k.0) ≡ true → k ≡ k') × ((k'.0 == k.0) ≡ false → Fits ks k)

  pub keys-put :
      (fcr : List (Session api)) (new : Session api)
      → Fits (keys fcr) (key_of new)
      → keys (crypto_put_session api fcr new) ≡ keys fcr
  unfolding crypto_put_session
  keys-put [] new f = refl
  keys-put (s ∷ fcr) new f = elim (Bool-cases (s.sid == new.sid)) [
    | inl h ↦ rw h (ap (λ (k : Key). k ∷ keys fcr) (f.0 h))
    | inr h ↦ rw h (ap (λ ks. key_of s ∷ ks) (keys-put fcr new (f.1 h)))
  ]

  -- The functions of the list that only the keys decide.
  has_key : ℕ → List Key → Bool
  has_key sid [] = false
  has_key sid (k ∷ ks) = if sid == k.0 then true else has_key sid ks

  DistinctKeys : List Key → Type 0
  DistinctKeys [] = Unit
  DistinctKeys (k ∷ ks) = (has_key k.0 ks ≡ false) × DistinctKeys ks

  key_objects : List Key → ℕ
  key_objects [] = 0
  key_objects (k ∷ ks) = 3 + pair_of api k.1 + pair_of api k.2 + key_objects ks

  has_lem : (sid : ℕ) (fcr : List (Session api)) → has_sid api sid fcr ≡ has_key sid (keys fcr)
  unfolding has_sid has_key
  has_lem sid [] = refl
  has_lem sid (s ∷ fcr) = ap (λ b. if sid == s.sid then true else b) (has_lem sid fcr)

  distinct_lem : (fcr : List (Session api)) → Distinct api fcr ≡ DistinctKeys (keys fcr)
  unfolding DistinctKeys
  distinct_lem [] = refl
  distinct_lem (s ∷ fcr) = rw (has_lem s.sid fcr, distinct_lem fcr) refl

  objects_lem : (fcr : List (Session api)) → objects api fcr ≡ key_objects (keys fcr)
  unfolding key_objects
  objects_lem [] = refl
  objects_lem (s ∷ fcr) =
      ap (λ n. 3 + pair_of api s.cdata.init + pair_of api s.hdata.init + n) (objects_lem fcr)

  -- What holds between two calls does after a call that leaves the sessions unlocked and their keys
  -- alone.
  pub keys-IsTable :
      (fcr fcr' : List (Session api)) (live : ℕ)
      → Unlocked api fcr'
      → keys fcr' ≡ keys fcr
      → IsTable api fcr live
      → IsTable api fcr' live
  keys-IsTable fcr fcr' live u e t = record {
    distinct = rw (distinct_lem fcr', e, sym (distinct_lem fcr)) t.distinct;
    unlocked = u;
    counted = t.counted ∙ objects_lem fcr ∙ sym (ap key_objects e) ∙ sym (objects_lem fcr');
  }
