-- ===== src/Run/Locks.antt =====
-- `crypto_run` gives back the session that it takes, with the number and the set-up it had, on every
-- path.
mod Streams
pub use Streams.*
use cryptodev_linux.Prelude.{
  ℕ, zero, suc, ◌+◌, ◌-◌, refl, ◌∙◌, inl, inr, Bool, true, false, ◌&&◌, ◌||◌, not, min, test_bit,
  Option, none, some, List, Code, is_nonzero, ltb, ◌==◌, if◌then◌else◌, ◌>>=◌, arith, Bool-cases,
  Option-cases, Always, Always-bind, Always-chain, Always-if, Always-imp, Always-option, either_lem,
  ◌%◌, ap,
}
use cryptodev_linux.User.{UserSpace, copy_from_user, copy_to_user}
use cryptodev_linux.Zc.Defs.{Paging, UserBuf, Userbuf, get_userbuf}
use cryptodev_linux.Sg.{page_size}
use cryptodev_linux.Cryptlib.Api.{CryptoApi}
use cryptodev_linux.Cryptlib.Cipher.{
  cryptodev_cipher_set_iv, cryptodev_cipher_encrypt, cryptodev_cipher_decrypt,
}
use cryptodev_linux.Cryptlib.Hash.{
  cryptodev_hash_update, cryptodev_hash_reset, cryptodev_hash_final,
}
use cryptodev_linux.Session.Defs.{Session}
use cryptodev_linux.Session.Finish.{Unlocked}
use cryptodev_linux.Session.Locks.{Kept, SameKey, get_cases, once_Kept}
use cryptodev_linux.Cryptlib.Keeps.{
  KeepsHash, KeepsFinal, KeepsCipher, update_lem, reset_lem, final_lem, encrypt_lem as enc_lem,
  decrypt_lem as dec_lem,
}
use cryptodev_linux.Run.Defs.{
  KernelCryptOp, CryptOp, Crypted, Ran, Job, Part, Result, update_hash, crypt, hash_n_crypt,
  write_chunk, sg_bytes, zc_flags, flag_no_zc, flag_reset, flag_final, flag_update, ◌then_run◌,
  run_chunk, run_chunks, crypto_run_std, run_mapped, crypto_run_zc, reset_part, iv_part, data_part,
  final_part, run_held, crypto_run, cop_encrypt, cop_decrypt,
}

module _ (api : CryptoApi) where
  -- The session that a part of `crypto_run` holds keeps its number.
  abbrev Holding : Session api → Bool × Job api → Type 0
  Holding ses r = SameKey api ses r.1.held

  reset_part-Same : (j : Job api) → Always (Holding j.held) (reset_part api j)
  unfolding reset_part
  reset_part-Same j =
      elim (Bool-cases
        (j.held.hdata.init && (j.kcop.cop.flags == 0 || test_bit flag_reset j.kcop.cop.flags))) [
          | inl h ↦ simp h (
              Always-chain (KeepsHash api j.held.hdata) (Holding j.held)
                (cryptodev_hash_reset api j.held.hdata) _ (reset_lem api j.held.hdata)
                (λ r e. ap (λ i. (j.held.sid, j.held.cdata.init, i)) e))
          | inr h ↦ simp h refl
        ]

  iv_part-Same : (j : Job api) → Always (Holding j.held) (iv_part api j)
  unfolding iv_part cryptodev_cipher_set_iv
  iv_part-Same j =
      either_lem (Holding j.held) j.held.cdata.init _ _
        (either_lem (Holding j.held) (j.kcop.cop.len % j.held.cdata.blocksize == 0) _ _ refl refl)
        refl

  data_part-Same :
      (env : Paging) (page_ok : Bool) (j : Job api)
      → Always (Holding j.held) (data_part api env page_ok j)
  unfolding data_part
  data_part-Same env page_ok j =
      let cop = record (j.kcop.cop) { flags = zc_flags api j.held.alignmask j.kcop.cop } in
      elim (Bool-cases (j.kcop.cop.len == 0)) [
        | inl h ↦ simp h refl
        | inr h ↦ elim (Bool-cases (test_bit flag_no_zc cop.flags)) [
          | inl f ↦
              simp (h, f)
                (Always-chain (Left api j.held) (Holding j.held)
                  (crypto_run_std api page_ok j.held cop j.space) _
                  (crypto_run_std-Same api page_ok j.held cop j.space) (λ r e. e))
          | inr f ↦
              simp (h, f)
                (Always-chain (Left api j.held) (Holding j.held)
                  (crypto_run_zc api env page_ok j.held cop j.space) _
                  (crypto_run_zc-Same api env page_ok j.held cop j.space) (λ r e. e))
        ]
      ]

  final_part-Same : (j : Job api) → Always (Holding j.held) (final_part api j)
  unfolding final_part
  final_part-Same j =
      elim (Bool-cases (
        j.held.hdata.init
        && (test_bit flag_final j.kcop.cop.flags
            || (not (test_bit flag_update j.kcop.cop.flags) || j.kcop.cop.len == 0)))) [
              | inl h ↦ simp h (
                  Always-chain (KeepsFinal api j.held.hdata) (Holding j.held)
                    (cryptodev_hash_final api j.held.hdata) _ (final_lem api j.held.hdata)
                    (λ r e. ap (λ i. (j.held.sid, j.held.cdata.init, i)) e))
              | inr h ↦ simp h refl
            ]

  then_lem :
      (ses : Session api) (p : Part api) (f : Job api → Part api)
      → Always (Holding ses) p
      → ((j : Job api) → Always (Holding j.held) (f j))
      → Always (Holding ses) (◌then_run◌ api p f)
  then_lem ses none f h g = tt
  then_lem ses (some (true, j)) f h g = h
  then_lem ses (some (false, j)) f h g =
      Always-imp (Holding j.held) (Holding ses) (f j) (λ r i. i ∙ h) (g j)

  run_held-Same :
      (env : Paging) (page_ok : Bool) (j : Job api)
      → Always (Holding j.held) (run_held api env page_ok j)
  unfolding run_held
  run_held-Same env page_ok j =
      then_lem j.held _ (final_part api)
        (then_lem j.held _ (data_part api env page_ok)
          (then_lem j.held _ (iv_part api) (reset_part-Same j) iv_part-Same)
          (data_part-Same env page_ok))
        final_part-Same

  -- However `crypto_run` returns, with an error from any of its steps or with success, and through
  -- the kernel page or the user's pages, no session of the file is locked afterwards if none was
  -- before, the numbers of the sessions are the same, and so are the sessions that have a cipher and
  -- those that have a hash.
  pub crypto_run-Kept :
      (env : Paging) (page_ok : Bool) (junk : Code) (fcr : List (Session api))
      (kcop : KernelCryptOp) (u : UserSpace)
      → Unlocked api fcr
      → Always (λ (r : Result api). Kept api fcr r.1) (crypto_run api env page_ok junk fcr kcop u)
  unfolding crypto_run
  crypto_run-Kept env page_ok junk fcr kcop u un =
      elim (Bool-cases (not (kcop.cop.op == cop_encrypt) && not (kcop.cop.op == cop_decrypt))) [
        | inl bad ↦ simp bad (un, refl)
        | inr good ↦ elim (get_cases api fcr kcop.cop.ses) [
          | inl e ↦ simp (good, e) tt
          | inr (inl e) ↦ simp (good, e) (un, refl)
          | inr (inr (ses, e, i)) ↦
              let j : Job api = record { ret = junk; held = ses; kcop = kcop; space = u } in
              simp (good, e)
                (Always-chain (Holding ses) (λ (r : Result api). Kept api fcr r.1)
                  (run_held api env page_ok j) _ (run_held-Same env page_ok j)
                  (λ r h. once_Kept api fcr kcop.cop.ses ses r.1.held un i h))
        ]
      ]
