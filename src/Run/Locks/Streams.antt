-- ===== src/Run/Locks/Streams.antt =====
-- An operation on data leaves what a lock protects as it was (main.c).
use cryptodev_linux.Prelude.{
  ℕ, zero, suc, ◌+◌, ◌-◌, refl, ◌∙◌, inl, inr, Bool, true, false, min, Option, some, List, Code,
  is_nonzero, ltb, ◌==◌, if◌then◌else◌, ◌>>=◌, arith, Bool-cases, Option-cases, Always, Always-bind,
  Always-chain, Always-if, Always-imp, Always-option, ap,
}
use cryptodev_linux.User.{UserSpace, copy_from_user, copy_to_user}
use cryptodev_linux.Zc.Defs.{Paging, UserBuf, Userbuf, get_userbuf}
use cryptodev_linux.Sg.{page_size}
use cryptodev_linux.Cryptlib.Api.{CryptoApi}
use cryptodev_linux.Cryptlib.Cipher.{cryptodev_cipher_encrypt, cryptodev_cipher_decrypt}
use cryptodev_linux.Cryptlib.Hash.{cryptodev_hash_update}
use cryptodev_linux.Session.Defs.{Session}
use cryptodev_linux.Session.Locks.{SameKey}
use cryptodev_linux.Cryptlib.Keeps.{
  KeepsHash, KeepsCipher, update_lem, encrypt_lem as enc_lem, decrypt_lem as dec_lem,
}
use cryptodev_linux.Run.Defs.{
  CryptOp, Crypted, Ran, update_hash, crypt, hash_n_crypt, write_chunk, sg_bytes, run_chunk,
  run_chunks, crypto_run_std, run_mapped, crypto_run_zc, cop_encrypt,
}

module _ (api : CryptoApi) where
  abbrev Hashed : Session api → Code × Session api → Type 0
  Hashed ses r = SameKey api ses r.1

  abbrev Done : Session api → Crypted api → Type 0
  Done ses r = SameKey api ses r.1

  abbrev pub Left : Session api → Ran api → Type 0
  Left ses r = SameKey api ses r.1

  update_hash-Same :
      (ses : Session api) (sg : Option (List ℕ)) → Always (Hashed ses) (update_hash api ses sg)
  unfolding update_hash
  update_hash-Same ses sg = elim (Bool-cases ses.hdata.init) [
    | inl h ↦ simp h (
        Always-bind (Hashed ses) sg _ (λ bytes.
          Always-chain (KeepsHash api ses.hdata) (Hashed ses)
            (cryptodev_hash_update api ses.hdata bytes) _ (update_lem api ses.hdata bytes)
            (λ r e. ap (λ h. (ses.sid, ses.cdata.init, h)) e)))
    | inr h ↦ simp h refl
  ]

  crypt-Same :
      (encrypt : Bool) (ses : Session api) (src dst : Option (List ℕ))
      → Always (Done ses) (crypt api encrypt ses src dst)
  unfolding crypt
  crypt-Same encrypt ses src dst = elim (Bool-cases ses.cdata.init) [
    | inl h ↦ simp h (
        Always-bind (Done ses) src _ (λ s. Always-bind (Done ses) dst _ (λ d.
          Always-chain (KeepsCipher api ses.cdata) (Done ses)
            (if encrypt
              then cryptodev_cipher_encrypt api ses.cdata s
              else cryptodev_cipher_decrypt api ses.cdata s)
            _
            (Always-if (KeepsCipher api ses.cdata) encrypt _ _ (enc_lem api ses.cdata s)
              (dec_lem api ses.cdata s))
            (λ r e. ap (λ c. (ses.sid, c, ses.hdata.init)) e))))
    | inr h ↦ simp h refl
  ]

  hashed_lem :
      (ses : Session api) (h : Code × Session api) (src dst : Option (List ℕ))
      → Hashed ses h
      → Always
          (Done ses)
          (if is_nonzero h.0 then some (h.0, h.1, dst) else crypt api true h.1 src dst)
  hashed_lem ses h src dst e = elim (Bool-cases (is_nonzero h.0)) [
    | inl z ↦ rw z e
    | inr z ↦ rw z (
        Always-imp (Done h.1) (Done ses) (crypt api true h.1 src dst) (λ r i. i ∙ e)
          (crypt-Same true h.1 src dst))
  ]

  hash_out_lem :
      (ses : Session api) (c : Crypted api)
      → Done ses c
      → Always
          (Done ses)
          (if is_nonzero c.0 then some c else update_hash api c.1 c.2 >>= λ h. some (h.0, h.1, c.2))
  hash_out_lem ses c e = elim (Bool-cases (is_nonzero c.0)) [
    | inl z ↦ rw z e
    | inr z ↦ rw z (
        Always-chain (Hashed c.1) (Done ses) (update_hash api c.1 c.2) _ (update_hash-Same c.1 c.2)
          (λ h i. i ∙ e))
  ]

  hash_n_crypt-Same :
      (ses : Session api) (op : ℕ) (src dst : Option (List ℕ))
      → Always (Done ses) (hash_n_crypt api ses op src dst)
  unfolding hash_n_crypt
  hash_n_crypt-Same ses op src dst = elim (Bool-cases (op == cop_encrypt)) [
    | inl h ↦ simp h (
        Always-chain (Hashed ses) (Done ses) (update_hash api ses src) _ (update_hash-Same ses src)
          (λ r e. hashed_lem ses r src dst e))
    | inr h ↦ simp h (
        Always-chain (Done ses) (Done ses) (crypt api false ses src dst) _
          (crypt-Same false ses src dst) (λ c e. hash_out_lem ses c e))
  ]

  write_chunk-Same :
      (ses : Session api) (dst : ℕ) (u : UserSpace) (c : Crypted api)
      → Done ses c
      → Always (Left ses) (write_chunk api dst u c)
  unfolding write_chunk
  write_chunk-Same ses dst u (ret, new, page) e = Always-if (Left ses) (is_nonzero ret) _ _ e (
      Always-if (Left ses) new.cdata.init _ _
        (Always-bind (Left ses) page _
          (λ bytes. Always-option (Left ses) (copy_to_user u dst bytes) _ _ e (λ u'. e)))
        e)

  run_chunk-Same :
      (op src dst n : ℕ) (ses : Session api) (u : UserSpace)
      → Always (Left ses) (run_chunk api op src dst n ses u)
  unfolding run_chunk
  run_chunk-Same op src dst n ses u = elim (Option-cases (copy_from_user u src n)) [
    | inl e ↦ rw (e, run_chunk) refl
    | inr (page, e) ↦
        rw (e, run_chunk)
          (Always-chain (Done ses) (Left ses) (hash_n_crypt api ses op (some page) (some page)) _
            (hash_n_crypt-Same ses op (some page) (some page))
            (λ c i. write_chunk-Same ses dst u c i))
  ]

  next_lem :
      (again : Session api → UserSpace → Option (Ran api))
      → ((ses : Session api) (u : UserSpace) → Always (Left ses) (again ses u))
      → (ses : Session api) (r : Ran api) → Left ses r
      → Always (Left ses) (if is_nonzero r.0 then some r else again r.1 r.2)
  next_lem again h ses r e = elim (Bool-cases (is_nonzero r.0)) [
    | inl z ↦ rw z e
    | inr z ↦ rw z (Always-imp (Left r.1) (Left ses) (again r.1 r.2) (λ x i. i ∙ e) (h r.1 r.2))
  ]

  run_chunks-Same :
      (fuel op bufsize src dst nbytes : ℕ) (ses : Session api) (u : UserSpace)
      → Always (Left ses) (run_chunks api fuel op bufsize src dst nbytes ses u)
  unfolding run_chunks
  run_chunks-Same zero op bufsize src dst nbytes ses u = ground arith
  run_chunks-Same (suc fuel) op bufsize src dst nbytes ses u = elim (Bool-cases (nbytes == 0)) [
    | inl z ↦ simp z refl
    | inr z ↦
        let n = if ltb bufsize nbytes then bufsize else nbytes in
        simp z (
          Always-chain (Left ses) (Left ses) (run_chunk api op src dst n ses u) _
            (run_chunk-Same op src dst n ses u)
            (next_lem (run_chunks api fuel op bufsize (src + n) (dst + n) (nbytes - n))
              (run_chunks-Same fuel op bufsize (src + n) (dst + n) (nbytes - n)) ses))
  ]

  pub crypto_run_std-Same :
      (page_ok : Bool) (ses : Session api) (cop : CryptOp) (u : UserSpace)
      → Always (Left ses) (crypto_run_std api page_ok ses cop u)
  unfolding crypto_run_std
  crypto_run_std-Same false ses cop u = refl
  crypto_run_std-Same true ses cop u =
      run_chunks-Same cop.len cop.op (min page_size cop.len) cop.src cop.dst cop.len ses u

  mapped_lem :
      (env : Paging) (ses : Session api) (cop : CryptOp) (u : UserSpace) (got : Userbuf)
      → Always (Left ses) (run_mapped api env ses cop u got)
  unfolding run_mapped
  mapped_lem env ses cop u got =
      let src = sg_bytes api u got.src_sg cop.len in
      let dst = sg_bytes api u got.dst_sg cop.len in
      Always-chain (Done ses) (Left ses) (hash_n_crypt api ses cop.op src dst) _
        (hash_n_crypt-Same ses cop.op src dst) (λ c e. e)

  got_lem :
      (env : Paging) (page_ok : Bool) (ses : Session api) (cop : CryptOp) (u : UserSpace)
      (got : Userbuf)
      → Always (Left ses) (
          if is_nonzero got.code
          then crypto_run_std api page_ok (record ses { user = got.ses }) cop u
          else run_mapped api env ses cop u got)
  got_lem env page_ok ses cop u got = elim (Bool-cases (is_nonzero got.code)) [
    | inl z ↦ simp z (crypto_run_std-Same page_ok (record ses { user = got.ses }) cop u)
    | inr z ↦ simp z (mapped_lem env ses cop u got)
  ]

  pub crypto_run_zc-Same :
      (env : Paging) (page_ok : Bool) (ses : Session api) (cop : CryptOp) (u : UserSpace)
      → Always (Left ses) (crypto_run_zc api env page_ok ses cop u)
  unfolding crypto_run_zc
  crypto_run_zc-Same env page_ok ses cop u =
      let buf : UserBuf = record {
        src = cop.src;
        src_len = cop.len;
        dst = cop.dst;
        dst_len = cop.len;
      } in
      Always-bind (Left ses) (get_userbuf env buf ses.user) _ (got_lem env page_ok ses cop u)
