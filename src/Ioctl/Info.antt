-- ===== src/Ioctl/Info.antt =====
-- CIOCGSESSINFO (ioctl.c): what a session uses. The kernel has CRYPTO_ALG_KERN_DRIVER_ONLY.
use cryptodev_linux.Prelude.{
  ℕ, ◌-◌, ◌%◌, ◌^◌, refl, inl, inr, Bool, Option, none, some, List, Code, fail, einval, success,
  if◌then◌else◌, ◌>>=◌, take, Always, Always-bind,
}
use cryptodev_linux.Cryptlib.Api.{CryptoApi}
use cryptodev_linux.Session.Defs.{Session, crypto_get_session_by_sid, crypto_put_session}
use cryptodev_linux.Session.Finish.{Unlocked}
use cryptodev_linux.Session.Locks.{Kept, get_cases, once_Kept}

-- `struct alg_info`; a name is the list of its characters before the terminating 0.
pub record AlgInfo : Type 0 where
  pub cra_name : List ℕ
  pub cra_driver_name : List ℕ

pub record SessionInfoOp : Type 0 where
  pub ses : ℕ
  pub cipher_info : AlgInfo
  pub hash_info : AlgInfo
  pub alignmask : ℕ
  pub flags : ℕ

-- What the kernel knows of a transform: its names, and whether only the kernel has the driver.
pub record Tfm : Type 0 where
  pub alg_name : List ℕ
  pub driver_name : List ℕ
  pub kernel_driver_only : Bool

-- The transforms of the crypto API.
pub record Tfms (api : CryptoApi) : Type 0 where
  pub blkcipher_tfm : api.Blkcipher → Tfm
  pub aead_tfm : api.Aead → Tfm
  pub ahash_tfm : api.Hash → Tfm

-- CRYPTODEV_MAX_ALG_NAME.
abbrev pub max_alg_name : ℕ
max_alg_name = 64

unfoldable pub tfm_info_to_alg_info : Tfm → AlgInfo
tfm_info_to_alg_info tfm = record {
  cra_name = take (max_alg_name - 1) tfm.alg_name;
  cra_driver_name = take (max_alg_name - 1) tfm.driver_name;
}

-- SIOP_FLAG_KERNEL_DRIVER_ONLY is the only flag.
abbrev pub add_driver_flag : Tfm → ℕ → ℕ
add_driver_flag tfm flags = if tfm.kernel_driver_only then 1 else flags

module _ (api : CryptoApi) (tfms : Tfms api) where
  unfoldable pub fill_cipher_info : Session api → SessionInfoOp → Option SessionInfoOp
  fill_cipher_info ses siop =
      if ses.cdata.init
      then ((if ses.cdata.aead
            then (ses.cdata.arequest >>= λ s. some (tfms.aead_tfm s))
            else ses.cdata.request >>= λ s. some (tfms.blkcipher_tfm s))
          >>= λ tfm. some (record siop {
            cipher_info = tfm_info_to_alg_info tfm;
            flags = add_driver_flag tfm siop.flags;
          }))
      else some siop

  unfoldable pub fill_hash_info : Session api → SessionInfoOp → Option SessionInfoOp
  fill_hash_info ses siop =
      if ses.hdata.init
      then (ses.hdata.request >>= λ s. some (record siop {
        hash_info = tfm_info_to_alg_info (tfms.ahash_tfm s);
        flags = add_driver_flag (tfms.ahash_tfm s) siop.flags;
      }))
      else some siop

  unfoldable pub get_session_info :
      List (Session api) → SessionInfoOp → Option (Code × List (Session api) × SessionInfoOp)
  get_session_info fcr siop = crypto_get_session_by_sid api fcr siop.ses >>= λ f. elim (f.0) [
    | none ↦ some (fail einval, f.1, siop)
    | some ses ↦
        fill_cipher_info ses (record siop { flags = 0 }) >>= fill_hash_info ses >>= λ filled. some (
          success,
          crypto_put_session api f.1 ses,
          record filled { alignmask = ses.alignmask % 2 ^ 16 },
        )
  ]

  pub get_session_info-Kept :
      (fcr : List (Session api)) (siop : SessionInfoOp)
      → Unlocked api fcr
      → Always
          (λ (r : Code × List (Session api) × SessionInfoOp). Kept api fcr r.1)
          (get_session_info fcr siop)
  unfolding get_session_info
  get_session_info-Kept fcr siop un = elim (get_cases api fcr siop.ses) [
    | inl e ↦ simp e tt
    | inr (inl e) ↦ simp e (un, refl)
    | inr (inr (ses, e, i)) ↦ simp e (
        Always-bind (λ (r : Code × List (Session api) × SessionInfoOp). Kept api fcr r.1)
          (fill_cipher_info ses (record siop { flags = 0 }) >>= fill_hash_info ses) _
          (λ filled. once_Kept api fcr siop.ses ses ses un i refl))
  ]
