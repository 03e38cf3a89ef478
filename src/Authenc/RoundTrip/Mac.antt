-- ===== src/Authenc/RoundTrip/Mac.antt =====
-- The digest of a record, and the record with its tag (authenc.c).
use cryptodev_linux.Prelude.{
  ℕ, ◌≡◌, ap, ◌∙◌, inl, inr, some, List, ◌++◌, success, ◌==◌, if◌then◌else◌, arith, Bool-cases,
  length, take, take-append_le,
}
use cryptodev_linux.Cryptlib.Api.{CryptoApi}
use cryptodev_linux.Cryptlib.Wait.{waitfor}
use cryptodev_linux.Cryptlib.Hash.{cryptodev_hash_update, cryptodev_hash_final}
use cryptodev_linux.Session.Defs.{Session}
use cryptodev_linux.Authenc.Defs.{hash_part, hash_end, tls_mac}

-- What is documented of a hash that finishes at once.
pub record IsHashApi (api : CryptoApi) : Type 0 where
  pub updates : (h : api.Hash) (bytes : List ℕ) → (api.ahash_update h bytes).ret ≡ success
  pub finishes : (h : api.Hash) → (api.ahash_final h).ret ≡ success

module _ (api : CryptoApi) (hash : IsHashApi api) where
  abbrev pub fed : api.Hash → List ℕ → ℕ → api.Hash
  fed h bytes len = if len == 0 then h else (api.ahash_update h (take len bytes)).after

  -- The digest of the authenticated data and the record.
  abbrev pub digest : api.Hash → List ℕ → ℕ → List ℕ → ℕ → List ℕ
  digest h auth auth_len buf len = (api.ahash_final (fed (fed h auth auth_len) buf len)).after.1

  abbrev pub with_hash : Session api → api.Hash → Session api
  with_hash ses h = record ses { hdata = record (ses.hdata) { request = some h } }

  part_lem :
      (ses : Session api) (h : api.Hash) (bytes : List ℕ) (len : ℕ)
      → hash_part api (with_hash ses h) (some bytes) len
        ≡ some (success, with_hash ses (fed h bytes len))
  unfolding hash_part cryptodev_hash_update waitfor
  part_lem ses h bytes len = elim (Bool-cases (len == 0)) [
    | inl z ↦ simp z
    | inr z ↦ simp (z, hash.updates h (take len bytes))
  ]

  end_lem :
      (ses : Session api) (h : api.Hash)
      → hash_end api (success, with_hash ses h)
        ≡ some (success, with_hash ses (api.ahash_final h).after.0, (api.ahash_final h).after.1)
  unfolding hash_end cryptodev_hash_final waitfor
  end_lem ses h = simp (hash.finishes h)

  mac_lem :
      (ses : Session api) (h : api.Hash) (auth : List ℕ) (auth_len : ℕ) (buf : List ℕ) (len : ℕ)
      → tls_mac api (with_hash ses h) (some auth) auth_len buf len
        ≡ some (
          success,
          with_hash ses (api.ahash_final (fed (fed h auth auth_len) buf len)).after.0,
          digest h auth auth_len buf len,
        )
  unfolding tls_mac
  mac_lem ses h auth auth_len buf len = rw (part_lem ses h auth auth_len) (
      rw (part_lem ses (fed h auth auth_len) buf len)
        (end_lem ses (fed (fed h auth auth_len) buf len)))

  pub mac_data :
      (ses : Session api) (h : api.Hash) (auth : List ℕ) (auth_len : ℕ) (data_ rest : List ℕ)
      (len : ℕ)
      → len ≡ length data_
      → tls_mac api (with_hash ses h) (some auth) auth_len (data_ ++ rest) len
        ≡ some (
          success,
          with_hash ses (api.ahash_final (fed (fed h auth auth_len) data_ len)).after.0,
          digest h auth auth_len data_ len,
        )
  mac_data ses h auth auth_len data_ rest len l =
      let first = fed h auth auth_len in
      let same : fed first (data_ ++ rest) len ≡ fed first data_ len =
        ap (λ k. if len == 0 then first else (api.ahash_update first k).after)
          (take-append_le len data_ rest (omega (arith, l))) in
      mac_lem ses h auth auth_len (data_ ++ rest) len
      ∙ ap
          (λ f.
            some (success, with_hash ses (api.ahash_final f).after.0, (api.ahash_final f).after.1))
          same
