-- ===== src/Authenc/Defs.antt =====
-- authenc.c: the operations on a buffer that is encrypted in place. `none` is a wait that nothing
-- ends, or undefined behaviour. A buffer is the list of the bytes behind its scatterlist.
use cryptodev_linux.Prelude.{
  ℕ, zero, suc, ◌+◌, ◌-◌, ◌%◌, ◌^◌, Bool, true, false, ◌||◌, not, Option, none, some, List, [], ◌∷◌,
  ◌++◌, Code, value, fail, einval, ebadmsg, success, is_nonzero, ltb, ◌==◌, if◌then◌else◌, ◌>>=◌,
  test_bit, length, take, drop,
}
use cryptodev_linux.Cryptlib.Api.{CryptoApi}
use cryptodev_linux.Cryptlib.Cipher.{
  cryptodev_cipher_encrypt, cryptodev_cipher_decrypt, cryptodev_cipher_get_tag_size,
}
use cryptodev_linux.Cryptlib.Hash.{cryptodev_hash_update, cryptodev_hash_final}
use cryptodev_linux.Session.Defs.{Session}
use cryptodev_linux.Run.Defs.{cop_encrypt, cop_decrypt, flag_tls}
use cryptodev_linux.Authenc.Buffer.{
  sg_get, sg_put, copy_tls_hash, read_tls_hash, pad_record, verify_tls_record_pad,
}

-- `struct crypt_auth_op`; the pointers are addresses.
pub record CryptAuthOp : Type 0 where
  pub ses : ℕ
  pub op : ℕ
  pub flags : ℕ
  pub len : ℕ
  pub auth_len : ℕ
  pub auth_src : ℕ
  pub src : ℕ
  pub dst : ℕ
  pub tag : ℕ
  pub tag_len : ℕ
  pub iv : ℕ
  pub iv_len : ℕ

-- AALG_MAX_RESULT_LEN.
abbrev pub max_result_len : ℕ
max_result_len = 64

-- `memcmp(a, b, n) == 0`.
unfoldable pub same_bytes : ℕ → List ℕ → List ℕ → Bool
same_bytes zero xs ys = true
same_bytes (suc n) (x ∷ xs) (y ∷ ys) =
    let later = same_bytes n xs ys in if x == y then later else false
same_bytes (suc n) _ _ = false

-- `hash_output` once a digest is written to it: `stack` is what it holds before.
abbrev pub written : List ℕ → List ℕ → List ℕ
written digest stack = digest ++ drop (length digest) stack

module _ (api : CryptoApi) where
  unfoldable pub cryptodev_get_tag_len : Session api → Option ℕ
  cryptodev_get_tag_len ses =
      if ses.hdata.init
      then some ses.hdata.digestsize
      else cryptodev_cipher_get_tag_size api ses.cdata

  -- `dst_len % bs` is taken of an `int`, which is given by its 32 bits: the remainder of a negative
  -- one is not positive. The sums wrap around. `none` is a division by a block size of 0.
  unfoldable pub cryptodev_get_dst_len : CryptAuthOp → Session api → Option ℕ
  cryptodev_get_dst_len caop ses =
      let bs = ses.cdata.blocksize in
      let dst_len = (caop.len + caop.tag_len) % 2 ^ 32 in
      let padding =
        if ltb dst_len (2 ^ 31) then bs - dst_len % bs else bs + (2 ^ 32 - dst_len) % bs in
      if caop.op == cop_decrypt
      then some caop.len
      else if test_bit flag_tls caop.flags
      then if bs == 0 then none else some ((dst_len + padding) % 2 ^ 32)
      else some dst_len

  -- What the two functions leave: the result, the session, the buffer, and the length of the result.
  pub record Sealed : Type 0 where
    pub ret : Code
    pub ses : Session api
    pub buf : List ℕ
    pub len : ℕ

  -- `cryptodev_hash_update`, if there is something to hash.
  unfoldable pub hash_part : Session api → Option (List ℕ) → ℕ → Option (Code × Session api)
  hash_part ses sg len =
      if len == 0
      then some (success, ses)
      else sg >>= λ bytes. cryptodev_hash_update api ses.hdata (take len bytes) >>= λ h.
          some (h.0, record ses { hdata = h.1 })

  -- What the MAC is computed from, and the MAC: the digest, or an error.
  abbrev pub Mac : Type 0
  Mac = Code × Session api × List ℕ

  unfoldable pub hash_end : Code × Session api → Option Mac
  hash_end (ret, ses) =
      if is_nonzero ret
      then some (ret, ses, [])
      else cryptodev_hash_final api ses.hdata >>= λ f. some (f.0, record ses { hdata = f.1 }, f.2)

  unfoldable pub tls_mac : Session api → Option (List ℕ) → ℕ → List ℕ → ℕ → Option Mac
  tls_mac ses auth_sg auth_len buf len = hash_part ses auth_sg auth_len >>= λ a.
      (if is_nonzero a.0 then some a else hash_part a.1 (some buf) len) >>= hash_end

  -- The first half of an encryption: the MAC behind the data.
  unfoldable pub tls_add_mac :
      List ℕ → ℕ → Session api → Option (List ℕ) → ℕ → List ℕ → ℕ → Option Sealed
  tls_add_mac stack tag_len ses auth_sg auth_len buf len =
      if ses.hdata.init
      then (tls_mac ses auth_sg auth_len buf len >>= λ m.
          if is_nonzero m.0
          then some (record { ret = m.0; ses = m.1; buf = buf; len = len })
          else if ltb max_result_len tag_len
          then none
          else copy_tls_hash buf len (written m.2 stack) tag_len >>= λ buf'.
              some (record { ret = success; ses = m.1; buf = buf'; len = len + tag_len }))
      else some (record { ret = success; ses = ses; buf = buf; len = len })

  -- The padding, if the cipher has blocks.
  unfoldable pub tls_add_pad : Sealed → Option Sealed
  tls_add_pad s =
      if ltb 1 s.ses.cdata.blocksize
      then (pad_record s.buf s.len s.ses.cdata.blocksize >>= λ p.
          some (record s { buf = p.1; len = s.len + p.0 }))
      else some s

  -- A cipher in place.
  unfoldable pub crypt_in_place : Bool → Sealed → Option Sealed
  crypt_in_place encrypt s = sg_get s.buf 0 s.len >>= λ src.
      (if encrypt
        then cryptodev_cipher_encrypt api s.ses.cdata src
        else cryptodev_cipher_decrypt api s.ses.cdata src)
      >>= λ c. sg_put s.buf 0 c.2 >>= λ buf.
          some (record s { ret = c.0; ses = record (s.ses) { cdata = c.1 }; buf = buf })

  unfoldable pub tls_seal :
      List ℕ → ℕ → Session api → Option (List ℕ) → ℕ → List ℕ → ℕ → Option Sealed
  tls_seal stack tag_len ses auth_sg auth_len buf len =
      tls_add_mac stack tag_len ses auth_sg auth_len buf len >>= λ s.
      if is_nonzero s.ret || not s.ses.cdata.init
      then some s
      else tls_add_pad s >>= crypt_in_place true

  -- The first half of a decryption, and the variable `fail`.
  unfoldable pub tls_remove_pad : Sealed → Option (Sealed × Bool)
  tls_remove_pad s =
      if is_nonzero s.ret || not (ltb 1 s.ses.cdata.blocksize)
      then some (s, false)
      else verify_tls_record_pad s.buf s.len >>= λ ret. elim ret [
        | value n ↦ some (record s { len = s.len - n }, false)
        | fail e ↦ some (s, true)
      ]

  unfoldable pub tls_decrypt : Sealed → Option (Sealed × Bool)
  tls_decrypt s =
      if s.ses.cdata.init then (crypt_in_place false s >>= tls_remove_pad) else some (s, false)

  -- The comparison of the tag that was read with the digest.
  unfoldable pub tls_compare : List ℕ → ℕ → List ℕ → ℕ → Bool → Sealed → Mac → Option Sealed
  tls_compare stack tag_len vhash len fail_pad s m = some (
      if is_nonzero m.0
      then record s { ret = m.0; ses = m.1 }
      else if not (same_bytes tag_len vhash (written m.2 stack)) || fail_pad
      then record s { ret = fail ebadmsg; ses = m.1 }
      else record s { ret = success; ses = m.1; len = len })

  unfoldable pub tls_check : List ℕ → ℕ → Option (List ℕ) → ℕ → Sealed × Bool → Option Sealed
  tls_check stack tag_len auth_sg auth_len (s, fail_pad) =
      if is_nonzero s.ret || not s.ses.hdata.init
      then some s
      else if ltb max_result_len tag_len || ltb s.len tag_len
      then some (record s { ret = fail einval })
      else read_tls_hash s.buf s.len tag_len >>= λ vhash.
          tls_mac s.ses auth_sg auth_len s.buf (s.len - tag_len)
          >>= tls_compare stack tag_len vhash (s.len - tag_len) fail_pad s

  -- `tls_auth_n_crypt`. `len` of the result is `kcaop->dst_len` if the result is 0.
  unfoldable pub tls_auth_n_crypt :
      List ℕ → CryptAuthOp → Session api → Option (List ℕ) → List ℕ → Option Sealed
  tls_auth_n_crypt stack caop ses auth_sg buf =
      if caop.op == cop_encrypt
      then tls_seal stack caop.tag_len ses auth_sg caop.auth_len buf caop.len
      else tls_decrypt (record { ret = success; ses = ses; buf = buf; len = caop.len })
        >>= tls_check stack caop.tag_len auth_sg caop.auth_len
