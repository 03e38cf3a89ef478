-- ===== src/Cryptlib/Hash.antt =====
-- `struct hash_data` and its operations, as in `Cipher`.
use cryptodev_linux.Prelude.{
  ℕ, ◌+◌, ◌-◌, Bool, true, false, ◌==◌, Option, none, some, List, Code, fail, einval, enomem,
  success, is_nonzero, is_negative, if◌then◌else◌, ◌>>=◌,
}
use Prim.Native.String.{String}
use cryptodev_linux.Cryptlib.Api.{CryptoApi}
use cryptodev_linux.Cryptlib.Wait.{waitfor}

pub record HashData (H : Type 0) : Type 0 where
  pub init : Bool
  pub digestsize : ℕ
  pub alignmask : ℕ
  pub request : Option H

module _ (api : CryptoApi) where
  open api use {
    alloc_ahash, ahash_setkey, ahash_digestsize, ahash_alignmask, ahash_init, ahash_update,
    ahash_final, ahash_statesize, ahash_export, ahash_import,
  }

  abbrev pub Hashing : Type 0
  Hashing = HashData api.Hash

  -- `cryptodev_hash_init` once there is a transform.
  unfoldable pub init_ahash : Bool → ℕ → Bool → List ℕ → Hashing → api.Hash → Code × Hashing × ℕ
  init_ahash request_ok live hmac_mode mackey hdata s =
      let keyed = if hmac_mode then ahash_setkey s mackey else (success, s) in
      let hdata' : Hashing = record hdata {
        digestsize = ahash_digestsize keyed.1;
        alignmask = ahash_alignmask keyed.1;
        request = some keyed.1;
      } in
      if is_nonzero keyed.0
      then (fail einval, record hdata { request = some keyed.1 }, live + 1 - 1)
      else if request_ok
      then (success, record hdata' { init = true }, live + 1 + 1)
      else (fail enomem, hdata', live + 1 - 1)

  unfoldable pub cryptodev_hash_init :
      Bool → ℕ → String → Bool → List ℕ → Hashing → Code × Hashing × ℕ
  cryptodev_hash_init request_ok live alg_name hmac_mode mackey hdata =
      elim (alloc_ahash alg_name) [
        | none ↦ (fail einval, hdata, live)
        | some s ↦ init_ahash request_ok live hmac_mode mackey hdata s
      ]

  unfoldable pub cryptodev_hash_deinit : Hashing → ℕ → Hashing × ℕ
  cryptodev_hash_deinit hdata live =
      if hdata.init then (record hdata { init = false }, live - 2) else (hdata, live)

  unfoldable pub cryptodev_hash_reset : Hashing → Option (Code × Hashing)
  cryptodev_hash_reset hdata = hdata.request >>= λ request.
      let r = ahash_init request in
      some (if is_nonzero r.0 then r.0 else success, record hdata { request = some r.1 })

  unfoldable pub cryptodev_hash_update : Hashing → List ℕ → Option (Code × Hashing)
  cryptodev_hash_update hdata sg = hdata.request >>= λ request.
      let sub = ahash_update request sg in
      waitfor sub.ret sub.callbacks >>= λ ret. some (ret, record hdata { request = some sub.after })

  unfoldable pub cryptodev_hash_final : Hashing → Option (Code × Hashing × List ℕ)
  cryptodev_hash_final hdata = hdata.request >>= λ request.
      let sub = ahash_final request in
      waitfor sub.ret sub.callbacks >>= λ ret.
      some (ret, record hdata { request = some sub.after.0 }, sub.after.1)

  -- The new state of `dst`; `kzalloc` says whether the state buffer can be allocated.
  unfoldable pub cryptodev_hash_copy : Bool → Hashing → Hashing → Option (Code × Hashing)
  cryptodev_hash_copy kzalloc dst src = src.request >>= λ request.
      let exported = ahash_export request in
      if ahash_statesize request == 0
      then some (fail einval, dst)
      else if kzalloc
      then (if is_negative exported.0
          then some (exported.0, dst)
          else dst.request >>= λ to.
              let imported = ahash_import to exported.1 in
              some (imported.0, record dst { request = some imported.1 }))
      else some (fail enomem, dst)
