-- ===== src/Ioctl/Crypt.antt =====
-- CIOCCRYPT (ioctl.c): the argument comes from the user, runs, and goes back with the digest and the
-- initialization vector. `none` is a wait that nothing ends, or undefined behaviour.
use cryptodev_linux.Prelude.{
  ℕ, ◌≡◌, refl, ◌∙◌, inl, inr, Bool, true, false, ◌&&◌, not, Option, none, some, List, ◌++◌, Code,
  fail, einval, efault, success, is_nonzero, ◌==◌, if◌then◌else◌, ◌>>=◌, test_bit, take, drop,
  Always, Always-chain, Bool-cases, arith,
}
use cryptodev_linux.User.{UserSpace, copy_from_user, copy_to_user}
use cryptodev_linux.Zc.Defs.{Paging}
use cryptodev_linux.Cryptlib.Api.{CryptoApi}
use cryptodev_linux.Session.Defs.{Session, crypto_get_session_by_sid, crypto_put_session}
use cryptodev_linux.Session.Finish.{Unlocked}
use cryptodev_linux.Session.Locks.{Kept, get_cases, once_Kept}
use cryptodev_linux.Run.Defs.{CryptOp, KernelCryptOp, Result, crypto_run, flag_write_iv}
use cryptodev_linux.Run.Locks.{crypto_run-Kept}

module _ (api : CryptoApi) where
  -- `fill_kcop_from_cop` once the session is found.
  unfoldable pub fill_iv : ℕ → KernelCryptOp → UserSpace → Code × KernelCryptOp
  fill_iv ivsize kcop u =
      let ivlen = if kcop.cop.iv == 0 then 0 else ivsize in
      let kcop' : KernelCryptOp = record kcop { ivlen = ivlen; digestsize = 0 } in
      if kcop.cop.iv == 0 then (success, kcop') else elim (copy_from_user u kcop.cop.iv ivlen) [
        | none ↦ (fail efault, kcop')
        | some iv ↦ (success, record kcop' { iv = iv ++ drop ivlen kcop.iv })
      ]

  unfoldable pub fill_kcop_from_cop :
      List (Session api)
      → KernelCryptOp
      → UserSpace
      → Option (Code × List (Session api) × KernelCryptOp)
  fill_kcop_from_cop fcr kcop u = crypto_get_session_by_sid api fcr kcop.cop.ses >>= λ f.
      elim (f.0) [
        | none ↦ some (fail einval, f.1, kcop)
        | some ses ↦
            let filled = fill_iv ses.cdata.ivsize kcop u in
            some (filled.0, crypto_put_session api f.1 ses, filled.1)
      ]

  -- The copy of the initialization vector back to the user, after that of the digest.
  unfoldable pub return_iv : KernelCryptOp → UserSpace → Code × UserSpace
  return_iv kcop u =
      if not (kcop.ivlen == 0) && test_bit flag_write_iv kcop.cop.flags
      then elim (copy_to_user u kcop.cop.iv (take kcop.ivlen kcop.iv)) [
        | none ↦ (fail efault, u)
        | some u' ↦ (success, u')
      ]
      else (success, u)

  unfoldable pub fill_cop_from_kcop : KernelCryptOp → UserSpace → Code × UserSpace
  fill_cop_from_kcop kcop u =
      if kcop.digestsize == 0
      then return_iv kcop u
      else elim (copy_to_user u kcop.cop.mac (take kcop.digestsize kcop.hash_output)) [
        | none ↦ (fail efault, u)
        | some u' ↦ return_iv kcop u'
      ]

  -- `kcop_from_user`; `arg` is what the copy of the argument gives, and `kcop` what is on the stack.
  unfoldable pub kcop_from_user :
      List (Session api)
      → Option CryptOp
      → KernelCryptOp
      → UserSpace
      → Option (Code × List (Session api) × KernelCryptOp)
  kcop_from_user fcr arg kcop u = elim arg [
    | none ↦ some (fail efault, fcr, kcop)
    | some cop ↦ fill_kcop_from_cop fcr (record kcop { cop = cop }) u
  ]

  -- `kcop_to_user`: the argument that is written back, if it is.
  unfoldable pub kcop_to_user : Bool → KernelCryptOp → UserSpace → Code × Option CryptOp × UserSpace
  kcop_to_user arg_ok kcop u =
      let ret = fill_cop_from_kcop kcop u in
      if is_nonzero ret.0
      then (ret.0, none, ret.1)
      else if arg_ok
      then (success, some kcop.cop, ret.1)
      else (fail efault, none, ret.1)

  -- What CIOCCRYPT leaves.
  abbrev pub Answer : Type 0
  Answer = Code × List (Session api) × Option CryptOp × UserSpace

  unfoldable pub answer : Bool → Result api → Answer
  answer arg_ok (ret, fcr, kcop, u) =
      let back = kcop_to_user arg_ok kcop u in
      if is_nonzero ret then (ret, fcr, none, u) else (back.0, fcr, back.1, back.2)

  -- The case CIOCCRYPT of `cryptodev_ioctl`.
  unfoldable pub ioctl_crypt :
      Paging
      → Bool
      → Code
      → Bool
      → List (Session api)
      → Option CryptOp
      → KernelCryptOp
      → UserSpace
      → Option Answer
  ioctl_crypt env page_ok junk arg_ok fcr arg kcop u = kcop_from_user fcr arg kcop u >>= λ f.
      if is_nonzero f.0
      then some (f.0, f.1, none, u)
      else crypto_run api env page_ok junk f.1 f.2 u >>= λ r. some (answer arg_ok r)

  pub filled_Kept :
      (fcr : List (Session api)) (kcop : KernelCryptOp) (u : UserSpace)
      → Unlocked api fcr
      → Always
          (λ (r : Code × List (Session api) × KernelCryptOp). Kept api fcr r.1)
          (fill_kcop_from_cop fcr kcop u)
  unfolding fill_kcop_from_cop
  filled_Kept fcr kcop u un = elim (get_cases api fcr kcop.cop.ses) [
    | inl e ↦ simp e tt
    | inr (inl e) ↦ simp e (un, refl)
    | inr (inr (ses, e, i)) ↦ simp e (once_Kept api fcr kcop.cop.ses ses ses un i refl)
  ]

  pub from_user_Kept :
      (fcr : List (Session api)) (arg : Option CryptOp) (kcop : KernelCryptOp) (u : UserSpace)
      → Unlocked api fcr
      → Always
          (λ (r : Code × List (Session api) × KernelCryptOp). Kept api fcr r.1)
          (kcop_from_user fcr arg kcop u)
  unfolding kcop_from_user
  from_user_Kept fcr none kcop u un = (un, refl)
  from_user_Kept fcr (some cop) kcop u un = filled_Kept fcr (record kcop { cop = cop }) u un

  -- A failure writes no argument back.
  abbrev pub Answered : List (Session api) → Answer → Type 0
  Answered fcr r = Kept api fcr r.1 × (is_nonzero r.0 ≡ true → r.2 ≡ none)

  written_lem :
      (arg_ok : Bool) (cop : Option CryptOp) (u : UserSpace)
      → let r : Code × Option CryptOp × UserSpace =
          if arg_ok then (success, cop, u) else (fail efault, none, u) in
        is_nonzero r.0 ≡ true → r.1 ≡ none
  written_lem true cop u h = ground (arith, h)
  written_lem false cop u h = refl

  answer_lem :
      (arg_ok : Bool) (fcr : List (Session api)) (r : Result api)
      → Kept api fcr r.1
      → Answered fcr (answer arg_ok r)
  unfolding answer kcop_to_user
  answer_lem arg_ok fcr r k = elim (Bool-cases (is_nonzero r.0)) [
    | inl e ↦ simp e (k, λ h. refl)
    | inr e ↦ elim (Bool-cases (is_nonzero (fill_cop_from_kcop r.2 r.3).0)) [
      | inl f ↦ simp (e, f) (k, λ h. refl)
      | inr f ↦ simp (e, f) (k, written_lem arg_ok (some r.2.cop) (fill_cop_from_kcop r.2 r.3).1)
    ]
  ]

  from_lem :
      (env : Paging) (page_ok : Bool) (junk : Code) (arg_ok : Bool) (fcr : List (Session api))
      (u : UserSpace)
      → (f : Code × List (Session api) × KernelCryptOp) → Kept api fcr f.1
      → Always (Answered fcr) (
          if is_nonzero f.0
          then some (f.0, f.1, none, u)
          else crypto_run api env page_ok junk f.1 f.2 u >>= λ r. some (answer arg_ok r))
  from_lem env page_ok junk arg_ok fcr u f k = elim (Bool-cases (is_nonzero f.0)) [
    | inl e ↦ simp e (k, λ h. refl)
    | inr e ↦ simp e (
        Always-chain (λ (r : Result api). Kept api f.1 r.1) (Answered fcr)
          (crypto_run api env page_ok junk f.1 f.2 u) _
          (crypto_run-Kept api env page_ok junk f.1 f.2 u k.0)
          (λ r h. answer_lem arg_ok fcr r (h.0, h.1 ∙ k.1)))
  ]

  -- However CIOCCRYPT returns, at any of the three stages and with any error, no session of the file
  -- is locked afterwards if none was before, the numbers of the sessions and their set-up (which have
  -- a cipher, which a hash) are the same, and the argument of the user is written only if the result
  -- is 0.
  pub ioctl_crypt-Answered :
      (env : Paging) (page_ok : Bool) (junk : Code) (arg_ok : Bool) (fcr : List (Session api))
      (arg : Option CryptOp) (kcop : KernelCryptOp) (u : UserSpace)
      → Unlocked api fcr
      → Always (Answered fcr) (ioctl_crypt env page_ok junk arg_ok fcr arg kcop u)
  unfolding ioctl_crypt
  ioctl_crypt-Answered env page_ok junk arg_ok fcr arg kcop u un =
      Always-chain (λ (r : Code × List (Session api) × KernelCryptOp). Kept api fcr r.1)
        (Answered fcr) (kcop_from_user fcr arg kcop u) _ (from_user_Kept fcr arg kcop u un)
        (from_lem env page_ok junk arg_ok fcr u)
