-- ===== src/Authenc/Keeps/Srtp.antt =====
-- The order of SRTP leaves the session its number and its set-up (authenc.c).
use cryptodev_linux.Prelude.{
  ℕ, refl, ap, true, false, ◌||◌, not, Option, none, some, List, success, is_nonzero, ltb, ◌==◌,
  if◌then◌else◌, ◌>>=◌, take, Always, Always-bind, Always-chain, Always-if, Always-option,
  either_lem,
}
use cryptodev_linux.User.{UserSpace, copy_from_user, copy_to_user}
use cryptodev_linux.Cryptlib.Api.{CryptoApi}
use cryptodev_linux.Cryptlib.Hash.{cryptodev_hash_update}
use cryptodev_linux.Cryptlib.Keeps.{KeepsHash, update_lem}
use cryptodev_linux.Session.Defs.{Session}
use cryptodev_linux.Session.Locks.{SameKey}
use cryptodev_linux.Run.Defs.{cop_encrypt}
use cryptodev_linux.Authenc.Defs.{
  CryptAuthOp, Sealed, Mac, hash_part, hash_end, crypt_in_place, same_bytes, written,
  max_result_len,
}
use cryptodev_linux.Authenc.Srtp.{
  Srtp, srtp_write_tag, srtp_seal, srtp_compare, srtp_check_tag, srtp_verify, srtp_decrypt,
  srtp_auth_n_crypt,
}
use cryptodev_linux.Authenc.Keeps.{
  then-Same, hashed, mac, sealed, Seals, hash_part-Same, hash_end-Same, crypt_in_place-Same,
}

module _ (api : CryptoApi) where
  abbrev pub sent : Srtp api → Session api
  sent r = r.0.ses

  abbrev pub Sends : Session api → Srtp api → Type 0
  Sends ses r = SameKey api ses (sent r)

  write_tag-Same :
      (stack : List ℕ) (caop : CryptAuthOp) (u : UserSpace) (s : Sealed api) (m : Mac api)
      → Always (Sends m.1) (srtp_write_tag api stack caop u s m)
  unfolding srtp_write_tag
  write_tag-Same stack caop u s (ret, ses, digest) =
      Always-if (Sends ses) (is_nonzero ret) _ _ refl (
        Always-if (Sends ses) (ltb max_result_len caop.tag_len) _ _ tt (
          Always-option (Sends ses)
            (copy_to_user u caop.tag (take caop.tag_len (written digest stack))) _ _ refl
            (λ u'. refl)))

  seal-Same :
      (stack : List ℕ) (caop : CryptAuthOp) (auth_sg : UserSpace → Option (List ℕ))
      (mem : List ℕ → UserSpace) (s0 : Sealed api)
      → Always (Sends s0.ses) (srtp_seal api stack caop auth_sg mem s0)
  unfolding srtp_seal
  seal-Same stack caop auth_sg mem s0 =
      then-Same api (sealed api) sent s0.ses
        (if s0.ses.cdata.init then crypt_in_place api true s0 else some s0) _
        (Always-if (Seals api s0.ses) s0.ses.cdata.init _ _ (crypt_in_place-Same api true s0) refl)
        (λ s. Always-if (Sends s.ses) (is_nonzero s.ret || not s.ses.hdata.init) _ _ refl (
          then-Same api (mac api) sent s.ses
            (hash_part api s.ses (auth_sg (mem s.buf)) caop.auth_len >>= hash_end api) _
            (then-Same api (hashed api) (mac api) s.ses
              (hash_part api s.ses (auth_sg (mem s.buf)) caop.auth_len) _
              (hash_part-Same api s.ses (auth_sg (mem s.buf)) caop.auth_len) (hash_end-Same api))
            (write_tag-Same stack caop (mem s.buf) s)))

  compare-Same :
      (stack : List ℕ) (tag_len : ℕ) (vhash : List ℕ) (s : Sealed api) (m : Mac api)
      → Seals api m.1 (srtp_compare api stack tag_len vhash s m)
  unfolding srtp_compare
  compare-Same stack tag_len vhash s (ret, ses, digest) =
      either_lem (Seals api ses) (is_nonzero ret) _ _ refl
        (either_lem (Seals api ses) (same_bytes tag_len vhash (written digest stack)) _ _ refl refl)

  check_tag-Same :
      (stack : List ℕ) (caop : CryptAuthOp) (auth_sg : Option (List ℕ)) (s : Sealed api)
      (tag : Option (List ℕ))
      → Always (Seals api s.ses) (srtp_check_tag api stack caop auth_sg s tag)
  unfolding srtp_check_tag
  check_tag-Same stack caop auth_sg s none = refl
  check_tag-Same stack caop auth_sg s (some vhash) =
      Always-bind (Seals api s.ses) auth_sg _ (λ auth.
        Always-chain (KeepsHash api s.ses.hdata) (Seals api s.ses)
          (cryptodev_hash_update api s.ses.hdata (take caop.auth_len auth)) _
          (update_lem api s.ses.hdata (take caop.auth_len auth))
          (λ h e.
            then-Same api (mac api) (sealed api) s.ses
              (hash_end api (h.0, record (s.ses) { hdata = h.1 })) _
              (then-Same api (hashed api) (mac api) s.ses
                (some (h.0, record (s.ses) { hdata = h.1 })) (hash_end api)
                (ap (λ i. (s.ses.sid, s.ses.cdata.init, i)) e) (hash_end-Same api))
              (compare-Same stack caop.tag_len vhash s)))

  verify-Same :
      (stack : List ℕ) (caop : CryptAuthOp) (auth_sg : Option (List ℕ)) (u : UserSpace)
      (s : Sealed api)
      → Always (Seals api s.ses) (srtp_verify api stack caop auth_sg u s)
  unfolding srtp_verify
  verify-Same stack caop auth_sg u s =
      Always-if (Seals api s.ses) (ltb max_result_len caop.tag_len || ltb s.len caop.tag_len) _ _
        refl (check_tag-Same stack caop auth_sg s (copy_from_user u caop.tag caop.tag_len))

  decrypt-Same : (s : Sealed api) → Always (Seals api s.ses) (srtp_decrypt api s)
  unfolding srtp_decrypt
  decrypt-Same s =
      Always-if (Seals api s.ses) (is_nonzero s.ret || not s.ses.cdata.init) _ _ refl
        (crypt_in_place-Same api false s)

  pub srtp_auth_n_crypt-Same :
      (stack : List ℕ) (caop : CryptAuthOp) (auth_sg : UserSpace → Option (List ℕ))
      (mem : List ℕ → UserSpace) (ses : Session api) (buf : List ℕ)
      → Always (Sends ses) (srtp_auth_n_crypt api stack caop auth_sg mem ses buf)
  unfolding srtp_auth_n_crypt
  srtp_auth_n_crypt-Same stack caop auth_sg mem ses buf =
      let s : Sealed api = record { ret = success; ses = ses; buf = buf; len = caop.len } in
      let v =
        if ses.hdata.init
        then srtp_verify api stack caop (auth_sg (mem buf)) (mem buf) s
        else some s in
      Always-if (Sends ses) (caop.op == cop_encrypt) _ _ (seal-Same stack caop auth_sg mem s) (
        then-Same api (sealed api) sent ses (v >>= srtp_decrypt api) _
          (then-Same api (sealed api) (sealed api) ses v _
            (Always-if (Seals api ses) ses.hdata.init _ _
              (verify-Same stack caop (auth_sg (mem buf)) (mem buf) s) refl)
            decrypt-Same)
          (λ r. refl))
