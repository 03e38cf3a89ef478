-- ===== src/Authenc/Srtp.antt =====
-- Authenticated encryption in the order of SRTP (authenc.c): the tag is over the encrypted data.
use cryptodev_linux.Prelude.{
  ℕ, ◌≡◌, ◌⊎◌, true, false, ◌||◌, not, Option, none, some, List, Code, fail, einval, efault,
  ebadmsg, success, is_nonzero, ltb, ◌==◌, if◌then◌else◌, ◌>>=◌, take,
}
use cryptodev_linux.User.{UserSpace, copy_from_user, copy_to_user}
use cryptodev_linux.Cryptlib.Api.{CryptoApi}
use cryptodev_linux.Cryptlib.Hash.{Hashing, cryptodev_hash_update}
use cryptodev_linux.Session.Defs.{Session}
use cryptodev_linux.Run.Defs.{cop_encrypt}
use cryptodev_linux.Authenc.Defs.{
  CryptAuthOp, Sealed, Mac, hash_part, hash_end, crypt_in_place, same_bytes, written,
  max_result_len,
}

module _ (api : CryptoApi) where
  -- What `srtp_auth_n_crypt` leaves, and the user's memory.
  abbrev pub Srtp : Type 0
  Srtp = Sealed api × UserSpace

  -- The digest goes to the user: `tag_len` bytes of `hash_output`.
  unfoldable pub srtp_write_tag :
      List ℕ → CryptAuthOp → UserSpace → Sealed api → Mac api → Option Srtp
  srtp_write_tag stack caop u s (ret, ses, digest) =
      if is_nonzero ret
      then some (record s { ret = ret; ses = ses }, u)
      else if ltb max_result_len caop.tag_len
      then none
      else elim (copy_to_user u caop.tag (take caop.tag_len (written digest stack))) [
        | none ↦ some (record s { ret = fail efault; ses = ses }, u)
        | some u' ↦ some (record s { ret = success; ses = ses }, u')
      ]

  unfoldable pub srtp_seal :
      List ℕ
      → CryptAuthOp
      → (UserSpace → Option (List ℕ))
      → (List ℕ → UserSpace)
      → Sealed api
      → Option Srtp
  srtp_seal stack caop auth_sg mem s0 =
      (if s0.ses.cdata.init then crypt_in_place api true s0 else some s0) >>= λ s.
      if is_nonzero s.ret || not s.ses.hdata.init
      then some (s, mem s.buf)
      else hash_part api s.ses (auth_sg (mem s.buf)) caop.auth_len
        >>= hash_end api
        >>= srtp_write_tag stack caop (mem s.buf) s

  -- The comparison of the tags.
  unfoldable pub srtp_compare : List ℕ → ℕ → List ℕ → Sealed api → Mac api → Sealed api
  srtp_compare stack tag_len vhash s (ret, ses, digest) =
      if is_nonzero ret
      then record s { ret = ret; ses = ses }
      else if same_bytes tag_len vhash (written digest stack)
      then record s { ret = success; ses = ses }
      else record s { ret = fail ebadmsg; ses = ses }

  -- The tag of the user, if it can be read, against the digest. The authenticated data is hashed
  -- even if there is none.
  unfoldable pub srtp_check_tag :
      List ℕ → CryptAuthOp → Option (List ℕ) → Sealed api → Option (List ℕ) → Option (Sealed api)
  srtp_check_tag stack caop auth_sg s none = some (record s { ret = fail efault })
  srtp_check_tag stack caop auth_sg s (some vhash) = auth_sg >>= λ auth.
      cryptodev_hash_update api s.ses.hdata (take caop.auth_len auth) >>= λ h.
      hash_end api (h.0, record (s.ses) { hdata = h.1 }) >>= λ m.
      some (srtp_compare stack caop.tag_len vhash s m)

  unfoldable pub srtp_verify :
      List ℕ → CryptAuthOp → Option (List ℕ) → UserSpace → Sealed api → Option (Sealed api)
  srtp_verify stack caop auth_sg u s =
      if ltb max_result_len caop.tag_len || ltb s.len caop.tag_len
      then some (record s { ret = fail einval })
      else srtp_check_tag stack caop auth_sg s (copy_from_user u caop.tag caop.tag_len)

  -- The decryption comes after the comparison, and only if that has succeeded.
  unfoldable pub srtp_decrypt : Sealed api → Option (Sealed api)
  srtp_decrypt s =
      if is_nonzero s.ret || not s.ses.cdata.init then some s else crypt_in_place api false s

  -- `auth_sg` is what the authenticated data is in the user's memory, and `mem` that memory when the
  -- buffer has the given contents: the buffer lies within the authenticated data.
  unfoldable pub srtp_auth_n_crypt :
      List ℕ
      → CryptAuthOp
      → (UserSpace → Option (List ℕ))
      → (List ℕ → UserSpace)
      → Session api
      → List ℕ
      → Option Srtp
  srtp_auth_n_crypt stack caop auth_sg mem ses buf =
      let s : Sealed api = record { ret = success; ses = ses; buf = buf; len = caop.len } in
      if caop.op == cop_encrypt
      then srtp_seal stack caop auth_sg mem s
      else (if ses.hdata.init
          then srtp_verify stack caop (auth_sg (mem buf)) (mem buf) s
          else some s)
        >>= srtp_decrypt
        >>= λ r. some (r, mem r.buf)

  -- What the session's hash gives for the authenticated data: the result is 0, with the digest.
  abbrev pub Hashes : CryptAuthOp → Option (List ℕ) → Session api → Mac api → Type 0
  Hashes caop auth_sg ses m =
      (auth : List ℕ) × (h : Code × Hashing api) × (auth_sg ≡ some auth)
      × (cryptodev_hash_update api ses.hdata (take caop.auth_len auth) ≡ some h)
      × (hash_end api (h.0, record ses { hdata = h.1 }) ≡ some m)
      × (is_nonzero m.0 ≡ false)

  -- The user's tag is the beginning of that digest.
  abbrev pub Matches : List ℕ → CryptAuthOp → Option (List ℕ) → UserSpace → Session api → Type 0
  Matches stack caop auth_sg u ses =
      (vhash : List ℕ) × (m : Mac api) × (copy_from_user u caop.tag caop.tag_len ≡ some vhash)
      × Hashes caop auth_sg ses m
      × (same_bytes caop.tag_len vhash (written m.2 stack) ≡ true)

  -- What the check of the tag has shown if it succeeds.
  abbrev pub Checked :
      List ℕ
      → CryptAuthOp
      → Option (List ℕ)
      → UserSpace
      → Session api
      → List ℕ
      → Sealed api
      → Type 0
  Checked stack caop auth_sg u ses buf s =
      (s.buf ≡ buf) × (is_nonzero s.ret ≡ false → Matches stack caop auth_sg u ses)

  -- What holds of a decryption: it succeeds or changes the buffer only if the tag has been verified.
  abbrev pub Verified :
      List ℕ
      → CryptAuthOp
      → (UserSpace → Option (List ℕ))
      → (List ℕ → UserSpace)
      → Session api
      → List ℕ
      → Srtp
      → Type 0
  Verified stack caop auth_sg mem ses buf r =
      (r.1 ≡ mem r.0.buf)
      × ((r.0.buf ≡ buf) × (is_nonzero r.0.ret ≡ true)
          ⊎ Matches stack caop (auth_sg (mem buf)) (mem buf) ses)
