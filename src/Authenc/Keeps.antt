-- ===== src/Authenc/Keeps.antt =====
-- The operations of authenc.c on a buffer leave the session its number and its set-up.
pub mod Srtp
use cryptodev_linux.Prelude.{
  ℕ, ◌+◌, ◌-◌, ◌≡◌, refl, ap, ◌∙◌, Bool, true, false, ◌||◌, not, Option, none, some, List, Code,
  value, fail, success, is_nonzero, ltb, ◌==◌, if◌then◌else◌, ◌>>=◌, take, Always, Always-bind,
  Always-chain, Always-if, Always-imp, either_lem,
}
use cryptodev_linux.Cryptlib.Api.{CryptoApi}
use cryptodev_linux.Cryptlib.Cipher.{cryptodev_cipher_encrypt, cryptodev_cipher_decrypt}
use cryptodev_linux.Cryptlib.Hash.{cryptodev_hash_update, cryptodev_hash_final}
use cryptodev_linux.Cryptlib.Keeps.{
  KeepsHash, KeepsFinal, KeepsCipher, update_lem, final_lem, encrypt_lem, decrypt_lem,
}
use cryptodev_linux.Session.Defs.{Session}
use cryptodev_linux.Session.Locks.{SameKey}
use cryptodev_linux.Run.Defs.{cop_encrypt}
use cryptodev_linux.Authenc.Buffer.{
  sg_get, sg_put, copy_tls_hash, read_tls_hash, pad_record, verify_tls_record_pad,
}
use cryptodev_linux.Authenc.Defs.{
  CryptAuthOp, Sealed, Mac, hash_part, hash_end, tls_mac, tls_add_mac, tls_add_pad, crypt_in_place,
  tls_seal, tls_remove_pad, tls_decrypt, tls_compare, tls_check, tls_auth_n_crypt, same_bytes,
  written, max_result_len,
}

module _ (api : CryptoApi) where
  -- What two steps keep, where each leaves a session among other things.
  pub then-Same {ℓ κ} :
      {A : Type ℓ} {B : Type κ} (at_a : A → Session api) (at_b : B → Session api)
      (ses : Session api) (o : Option A) (f : A → Option B)
      → Always (λ a. SameKey api ses (at_a a)) o
      → ((a : A) → Always (λ b. SameKey api (at_a a) (at_b b)) (f a))
      → Always (λ b. SameKey api ses (at_b b)) (o >>= f)
  then-Same at_a at_b ses o f h g =
      Always-chain (λ a. SameKey api ses (at_a a)) (λ b. SameKey api ses (at_b b)) o f h
        (λ a e.
          Always-imp (λ b. SameKey api (at_a a) (at_b b)) (λ b. SameKey api ses (at_b b)) (f a)
            (λ b i. i ∙ e) (g a))

  abbrev pub hashed : Code × Session api → Session api
  hashed r = r.1

  abbrev pub mac : Mac api → Session api
  mac r = r.1

  abbrev pub sealed : Sealed api → Session api
  sealed s = s.ses

  abbrev checked : Sealed api × Bool → Session api
  checked r = r.0.ses

  abbrev pub Hashes : Session api → Code × Session api → Type 0
  Hashes ses r = SameKey api ses (hashed r)

  abbrev pub Macs : Session api → Mac api → Type 0
  Macs ses r = SameKey api ses (mac r)

  abbrev pub Seals : Session api → Sealed api → Type 0
  Seals ses s = SameKey api ses (sealed s)

  abbrev Checks : Session api → Sealed api × Bool → Type 0
  Checks ses r = SameKey api ses (checked r)

  pub hash_part-Same :
      (ses : Session api) (sg : Option (List ℕ)) (len : ℕ)
      → Always (Hashes ses) (hash_part api ses sg len)
  unfolding hash_part
  hash_part-Same ses sg len = Always-if (Hashes ses) (len == 0) _ _ refl (
      Always-bind (Hashes ses) sg _ (λ bytes.
        Always-chain (KeepsHash api ses.hdata) (Hashes ses)
          (cryptodev_hash_update api ses.hdata (take len bytes)) _
          (update_lem api ses.hdata (take len bytes))
          (λ r e. ap (λ i. (ses.sid, ses.cdata.init, i)) e)))

  pub hash_end-Same : (r : Code × Session api) → Always (Macs r.1) (hash_end api r)
  unfolding hash_end
  hash_end-Same (ret, ses) = Always-if (Macs ses) (is_nonzero ret) _ _ refl (
      Always-chain (KeepsFinal api ses.hdata) (Macs ses) (cryptodev_hash_final api ses.hdata) _
        (final_lem api ses.hdata) (λ r e. ap (λ i. (ses.sid, ses.cdata.init, i)) e))

  tls_mac-Same :
      (ses : Session api) (auth_sg : Option (List ℕ)) (auth_len : ℕ) (buf : List ℕ) (len : ℕ)
      → Always (Macs ses) (tls_mac api ses auth_sg auth_len buf len)
  unfolding tls_mac
  tls_mac-Same ses auth_sg auth_len buf len =
      then-Same hashed mac ses (hash_part api ses auth_sg auth_len) _
        (hash_part-Same ses auth_sg auth_len)
        (λ a.
          then-Same hashed mac a.1
            (if is_nonzero a.0 then some a else hash_part api a.1 (some buf) len) _
            (Always-if (Hashes a.1) (is_nonzero a.0) _ _ refl (hash_part-Same a.1 (some buf) len))
            hash_end-Same)

  tls_add_mac-Same :
      (stack : List ℕ) (tag_len : ℕ) (ses : Session api) (auth_sg : Option (List ℕ)) (auth_len : ℕ)
      (buf : List ℕ) (len : ℕ)
      → Always (Seals ses) (tls_add_mac api stack tag_len ses auth_sg auth_len buf len)
  unfolding tls_add_mac
  tls_add_mac-Same stack tag_len ses auth_sg auth_len buf len =
      Always-if (Seals ses) ses.hdata.init _ _
        (then-Same mac sealed ses (tls_mac api ses auth_sg auth_len buf len) _
          (tls_mac-Same ses auth_sg auth_len buf len)
          (λ m. Always-if (Seals m.1) (is_nonzero m.0) _ _ refl (
            Always-if (Seals m.1) (ltb max_result_len tag_len) _ _ tt (
              Always-bind (Seals m.1) (copy_tls_hash buf len (written m.2 stack) tag_len) _
                (λ b. refl)))))
        refl

  tls_add_pad-Same : (s : Sealed api) → Always (Seals s.ses) (tls_add_pad api s)
  unfolding tls_add_pad
  tls_add_pad-Same s =
      Always-if (Seals s.ses) (ltb 1 s.ses.cdata.blocksize) _ _
        (Always-bind (Seals s.ses) (pad_record s.buf s.len s.ses.cdata.blocksize) _ (λ p. refl))
        refl

  pub crypt_in_place-Same :
      (encrypt : Bool) (s : Sealed api) → Always (Seals s.ses) (crypt_in_place api encrypt s)
  unfolding crypt_in_place
  crypt_in_place-Same encrypt s = Always-bind (Seals s.ses) (sg_get s.buf 0 s.len) _ (λ src.
      Always-chain (KeepsCipher api s.ses.cdata) (Seals s.ses)
        (if encrypt
          then cryptodev_cipher_encrypt api s.ses.cdata src
          else cryptodev_cipher_decrypt api s.ses.cdata src)
        _
        (Always-if (KeepsCipher api s.ses.cdata) encrypt _ _ (encrypt_lem api s.ses.cdata src)
          (decrypt_lem api s.ses.cdata src))
        (λ c e.
          Always-bind (Seals s.ses) (sg_put s.buf 0 c.2) _
            (λ buf. ap (λ i. (s.ses.sid, i, s.ses.hdata.init)) e)))

  tls_seal-Same :
      (stack : List ℕ) (tag_len : ℕ) (ses : Session api) (auth_sg : Option (List ℕ)) (auth_len : ℕ)
      (buf : List ℕ) (len : ℕ)
      → Always (Seals ses) (tls_seal api stack tag_len ses auth_sg auth_len buf len)
  unfolding tls_seal
  tls_seal-Same stack tag_len ses auth_sg auth_len buf len =
      then-Same sealed sealed ses (tls_add_mac api stack tag_len ses auth_sg auth_len buf len) _
        (tls_add_mac-Same stack tag_len ses auth_sg auth_len buf len)
        (λ s. Always-if (Seals s.ses) (is_nonzero s.ret || not s.ses.cdata.init) _ _ refl (
          then-Same sealed sealed s.ses (tls_add_pad api s) _ (tls_add_pad-Same s)
            (crypt_in_place-Same true)))

  unpadded_lem :
      (s : Sealed api) (ret : Code)
      → Always (Checks s.ses) (elim ret as (λ c. Option (Sealed api × Bool)) [
        | value n ↦ some (record s { len = s.len - n }, false)
        | fail e ↦ some (s, true)
      ])
  unpadded_lem s (value n) = refl
  unpadded_lem s (fail e) = refl

  tls_remove_pad-Same : (s : Sealed api) → Always (Checks s.ses) (tls_remove_pad api s)
  unfolding tls_remove_pad
  tls_remove_pad-Same s =
      Always-if (Checks s.ses) (is_nonzero s.ret || not (ltb 1 s.ses.cdata.blocksize)) _ _ refl
        (Always-bind (Checks s.ses) (verify_tls_record_pad s.buf s.len) _ (unpadded_lem s))

  tls_decrypt-Same : (s : Sealed api) → Always (Checks s.ses) (tls_decrypt api s)
  unfolding tls_decrypt
  tls_decrypt-Same s =
      Always-if (Checks s.ses) s.ses.cdata.init _ _
        (then-Same sealed checked s.ses (crypt_in_place api false s) _ (crypt_in_place-Same false s)
          tls_remove_pad-Same)
        refl

  tls_compare-Same :
      (stack : List ℕ) (tag_len : ℕ) (vhash : List ℕ) (len : ℕ) (fail_pad : Bool) (s : Sealed api)
      (m : Mac api)
      → Always (Seals m.1) (tls_compare api stack tag_len vhash len fail_pad s m)
  unfolding tls_compare
  tls_compare-Same stack tag_len vhash len fail_pad s m =
      either_lem (Seals m.1) (is_nonzero m.0) _ _ refl (
        either_lem (Seals m.1) (not (same_bytes tag_len vhash (written m.2 stack)) || fail_pad) _ _
          refl refl)

  tls_check-Same :
      (stack : List ℕ) (tag_len : ℕ) (auth_sg : Option (List ℕ)) (auth_len : ℕ)
      (r : Sealed api × Bool)
      → Always (Seals r.0.ses) (tls_check api stack tag_len auth_sg auth_len r)
  unfolding tls_check
  tls_check-Same stack tag_len auth_sg auth_len (s, fail_pad) =
      Always-if (Seals s.ses) (is_nonzero s.ret || not s.ses.hdata.init) _ _ refl (
        Always-if (Seals s.ses) (ltb max_result_len tag_len || ltb s.len tag_len) _ _ refl (
          Always-bind (Seals s.ses) (read_tls_hash s.buf s.len tag_len) _ (λ vhash.
            then-Same mac sealed s.ses (tls_mac api s.ses auth_sg auth_len s.buf (s.len - tag_len))
              _ (tls_mac-Same s.ses auth_sg auth_len s.buf (s.len - tag_len))
              (tls_compare-Same stack tag_len vhash (s.len - tag_len) fail_pad s))))

  pub tls_auth_n_crypt-Same :
      (stack : List ℕ) (caop : CryptAuthOp) (ses : Session api) (auth_sg : Option (List ℕ))
      (buf : List ℕ)
      → Always (Seals ses) (tls_auth_n_crypt api stack caop ses auth_sg buf)
  unfolding tls_auth_n_crypt
  tls_auth_n_crypt-Same stack caop ses auth_sg buf =
      let s : Sealed api = record { ret = success; ses = ses; buf = buf; len = caop.len } in
      Always-if (Seals ses) (caop.op == cop_encrypt) _ _
        (tls_seal-Same stack caop.tag_len ses auth_sg caop.auth_len buf caop.len)
        (then-Same checked sealed ses (tls_decrypt api s) _ (tls_decrypt-Same s)
          (tls_check-Same stack caop.tag_len auth_sg caop.auth_len))
