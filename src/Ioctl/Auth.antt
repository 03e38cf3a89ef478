-- ===== src/Ioctl/Auth.antt =====
-- CIOCAUTHCRYPT (ioctl.c): the argument comes from the user, runs, and goes back. `none` is a wait
-- that nothing ends, or undefined behaviour.
use cryptodev_linux.Prelude.{
  ℕ, ◌≡◌, refl, ◌∙◌, inl, inr, Bool, true, false, Option, none, some, List, Code, fail, efault,
  success, is_nonzero, if◌then◌else◌, ◌>>=◌, Always, Always-bind, Always-chain, Bool-cases, arith,
}
use cryptodev_linux.User.{UserSpace}
use cryptodev_linux.Zc.Defs.{Paging}
use cryptodev_linux.Cryptlib.Api.{CryptoApi}
use cryptodev_linux.Session.Defs.{Session}
use cryptodev_linux.Session.Finish.{Unlocked}
use cryptodev_linux.Session.Locks.{Kept, get_cases, once_Kept}
use cryptodev_linux.Authenc.Defs.{CryptAuthOp}
use cryptodev_linux.Authenc.Request.{
  KernelCryptAuthOp, fill_caop_from_kcaop, kcaop_to_user, fill_found, fill_kcaop_from_caop,
  kcaop_from_user,
}
use cryptodev_linux.Authenc.Run.{AuthResult, crypto_auth_run}
use cryptodev_linux.Authenc.Locks.{crypto_auth_run-Kept}

module _ (api : CryptoApi) where
  -- What CIOCAUTHCRYPT leaves.
  abbrev pub AuthAnswer : Type 0
  AuthAnswer = Code × List (Session api) × Option CryptAuthOp × UserSpace

  unfoldable pub auth_answer : Bool → AuthResult api → AuthAnswer
  auth_answer arg_ok (ret, fcr, kcaop, u) =
      let back = kcaop_to_user arg_ok kcaop u in
      if is_nonzero ret then (ret, fcr, none, u) else (back.0, fcr, back.1, back.2)

  -- The case CIOCAUTHCRYPT of `cryptodev_ioctl`.
  unfoldable pub ioctl_auth_crypt :
      Paging
      → Bool
      → List ℕ
      → Bool
      → List (Session api)
      → Option CryptAuthOp
      → KernelCryptAuthOp
      → UserSpace
      → Option AuthAnswer
  ioctl_auth_crypt env page_ok stack arg_ok fcr arg kcaop u =
      kcaop_from_user api fcr arg kcaop u >>= λ f.
      if is_nonzero f.0
      then some (f.0, f.1, none, u)
      else crypto_auth_run api env page_ok stack f.1 f.2 u >>= λ r. some (auth_answer arg_ok r)

  abbrev Filled : List (Session api) → Code × List (Session api) × KernelCryptAuthOp → Type 0
  Filled fcr r = Kept api fcr r.1

  fill_kcaop_from_caop-Kept :
      (fcr : List (Session api)) (kcaop : KernelCryptAuthOp) (u : UserSpace)
      → Unlocked api fcr
      → Always (Filled fcr) (fill_kcaop_from_caop api fcr kcaop u)
  unfolding fill_kcaop_from_caop
  fill_kcaop_from_caop-Kept fcr kcaop u un = elim (get_cases api fcr kcaop.caop.ses) [
    | inl e ↦ simp e tt
    | inr (inl e) ↦ simp e (un, refl)
    | inr (inr (ses, e, i)) ↦ simp e (
        Always-bind (Filled fcr) (fill_found api ses kcaop u) _
          (λ f. once_Kept api fcr kcaop.caop.ses ses ses un i refl))
  ]

  kcaop_from_user-Kept :
      (fcr : List (Session api)) (arg : Option CryptAuthOp) (kcaop : KernelCryptAuthOp)
      (u : UserSpace)
      → Unlocked api fcr
      → Always (Filled fcr) (kcaop_from_user api fcr arg kcaop u)
  unfolding kcaop_from_user
  kcaop_from_user-Kept fcr none kcaop u un = (un, refl)
  kcaop_from_user-Kept fcr (some caop) kcaop u un =
      fill_kcaop_from_caop-Kept fcr (record kcaop { caop = caop }) u un

  -- A failure writes no argument back.
  abbrev pub AuthAnswered : List (Session api) → AuthAnswer → Type 0
  AuthAnswered fcr r = Kept api fcr r.1 × (is_nonzero r.0 ≡ true → r.2 ≡ none)

  written_lem :
      (arg_ok : Bool) (caop : Option CryptAuthOp) (u : UserSpace)
      → let r : Code × Option CryptAuthOp × UserSpace =
          if arg_ok then (success, caop, u) else (fail efault, none, u) in
        is_nonzero r.0 ≡ true → r.1 ≡ none
  written_lem true caop u h = ground (arith, h)
  written_lem false caop u h = refl

  answer_lem :
      (arg_ok : Bool) (fcr : List (Session api)) (r : AuthResult api)
      → Kept api fcr r.1
      → AuthAnswered fcr (auth_answer arg_ok r)
  unfolding auth_answer kcaop_to_user
  answer_lem arg_ok fcr r k = elim (Bool-cases (is_nonzero r.0)) [
    | inl e ↦ simp e (k, λ h. refl)
    | inr e ↦
        let f = fill_caop_from_kcaop r.2 r.3 in
        elim (Bool-cases (is_nonzero f.0)) [
          | inl g ↦ simp (e, g) (k, λ h. refl)
          | inr g ↦ simp (e, g) (k, written_lem arg_ok (some f.1.caop) f.2)
        ]
  ]

  from_lem :
      (env : Paging) (page_ok : Bool) (stack : List ℕ) (arg_ok : Bool) (fcr : List (Session api))
      (u : UserSpace)
      → (f : Code × List (Session api) × KernelCryptAuthOp) → Kept api fcr f.1
      → Always (AuthAnswered fcr) (
          if is_nonzero f.0
          then some (f.0, f.1, none, u)
          else crypto_auth_run api env page_ok stack f.1 f.2 u >>= λ r. some (auth_answer arg_ok r))
  from_lem env page_ok stack arg_ok fcr u f k = elim (Bool-cases (is_nonzero f.0)) [
    | inl e ↦ simp e (k, λ h. refl)
    | inr e ↦ simp e (
        Always-chain (λ (r : AuthResult api). Kept api f.1 r.1) (AuthAnswered fcr)
          (crypto_auth_run api env page_ok stack f.1 f.2 u) _
          (crypto_auth_run-Kept api env page_ok stack f.1 f.2 u k.0)
          (λ r h. answer_lem arg_ok fcr r (h.0, h.1 ∙ k.1)))
  ]

  -- However CIOCAUTHCRYPT returns, at any of the three stages and with any error, no session of the
  -- file is locked afterwards if none was before, the numbers of the sessions and their set-up (which
  -- have a cipher, which a hash) are the same, and the argument of the user is written only if the
  -- result is 0.
  pub ioctl_auth_crypt-AuthAnswered :
      (env : Paging) (page_ok : Bool) (stack : List ℕ) (arg_ok : Bool) (fcr : List (Session api))
      (arg : Option CryptAuthOp) (kcaop : KernelCryptAuthOp) (u : UserSpace)
      → Unlocked api fcr
      → Always (AuthAnswered fcr) (ioctl_auth_crypt env page_ok stack arg_ok fcr arg kcaop u)
  unfolding ioctl_auth_crypt
  ioctl_auth_crypt-AuthAnswered env page_ok stack arg_ok fcr arg kcaop u un =
      Always-chain (Filled fcr) (AuthAnswered fcr) (kcaop_from_user api fcr arg kcaop u) _
        (kcaop_from_user-Kept fcr arg kcaop u un) (from_lem env page_ok stack arg_ok fcr u)
