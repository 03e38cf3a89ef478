-- ===== src/Authenc/RoundTrip/Open.antt =====
-- A TLS record that is decrypted and checked (authenc.c).
use cryptodev_linux.Prelude.{
  ℕ, zero, suc, ◌+◌, ◌-◌, ◌≤◌, ◌<◌, ◌≡◌, refl, sym, ap, ◌∙◌, Bool, true, false, Option, some, List,
  [], ◌∷◌, ◌++◌, append_assoc, value, success, ltb, ◌==◌, arith, length, take, replicate,
  length-append, length-replicate,
}
use cryptodev_linux.Cryptlib.Api.{CryptoApi}
use cryptodev_linux.Cryptlib.Cipher.{Cipher, cryptodev_cipher_decrypt}
use cryptodev_linux.Session.Defs.{Session}
use cryptodev_linux.Authenc.Buffer.{sg_get, read_tls_hash, verify_tls_record_pad}
use cryptodev_linux.Authenc.Pad.{sg_get_part, verify_lem}
use cryptodev_linux.Authenc.Defs.{
  Sealed, tls_remove_pad, tls_decrypt, tls_compare, tls_check, same_bytes, written, max_result_len,
}
use cryptodev_linux.Authenc.RoundTrip.Mac.{IsHashApi, fed, digest, with_hash, mac_data}
use cryptodev_linux.Authenc.RoundTrip.InPlace.{otherwise, neither, crypt_lem}

same_bytes_lem :
    (n : ℕ) (xs ys : List ℕ) → n ≤ length xs → same_bytes n (take n xs) (xs ++ ys) ≡ true
unfolding same_bytes
same_bytes_lem zero xs ys l = refl
same_bytes_lem (suc n) [] ys l = absurd (omega arith)
same_bytes_lem (suc n) (x ∷ xs) ys l =
    let e : (x == x) ≡ true = ground arith in rw (e, same_bytes_lem n xs ys (omega (arith, l))) refl

module _ (api : CryptoApi) (hash : IsHashApi api) where
  pub decrypt_lem :
      (ses : Session api) (pre rest out : List ℕ) (v len : ℕ) (c : Cipher api)
      → ses.cdata.init ≡ true
      → 1 < c.blocksize
      → len ≡ length pre + suc v
      → length out ≡ len
      → cryptodev_cipher_decrypt api ses.cdata out ≡ some (success, c, pre ++ replicate (suc v) v)
      → tls_decrypt api (record { ret = success; ses = ses; buf = out ++ rest; len = len })
        ≡ some (
          record {
            ret = success;
            ses = record ses { cdata = c };
            buf = pre ++ (replicate (suc v) v ++ rest);
            len = len - (v + 1);
          },
          false,
        )
  unfolding tls_decrypt tls_remove_pad
  decrypt_lem ses pre rest out v len c i bs l o d =
      let s : Sealed api = record { ret = success; ses = ses; buf = out ++ rest; len = len } in
      let e =
        crypt_lem api false s out rest (pre ++ replicate (suc v) v) c refl (sym o)
          (omega (arith, length-append pre (replicate (suc v) v), length-replicate (suc v) v, l, o))
          d in
      let has_blocks : ltb 1 c.blocksize ≡ true = ground arith in
      let ok : verify_tls_record_pad (pre ++ (replicate (suc v) v ++ rest)) len
          ≡ some (value (v + 1)) =
        verify_lem pre rest v len l in
      let done : List ℕ → Option (Sealed api × Bool) = λ b. some (
        record { ret = success; ses = record ses { cdata = c }; buf = b; len = len - (v + 1) },
        false,
      ) in
      rw (e, append_assoc pre (replicate (suc v) v) rest)
        (simp (i, has_blocks, ok) (ap done (append_assoc pre (replicate (suc v) v) rest)))

  pub check_lem :
      (stack : List ℕ) (tag_len : ℕ) (ses : Session api) (h : api.Hash) (auth : List ℕ)
      (auth_len : ℕ) (data_ tag rest : List ℕ) (len : ℕ)
      → ses.hdata.init ≡ true
      → tag_len ≤ max_result_len
      → tag_len ≤ length (digest api hash h auth auth_len data_ (length data_))
      → tag ≡ take tag_len (digest api hash h auth auth_len data_ (length data_))
      → length tag ≡ tag_len
      → len ≡ length data_ + tag_len
      → (s : Sealed api) × (tls_check api stack tag_len (some auth) auth_len (
        record {
          ret = success;
          ses = with_hash api hash ses h;
          buf = data_ ++ (tag ++ rest);
          len = len;
        },
        false,
      )
          ≡ some s)
        × (s.ret ≡ success)
        × (s.buf ≡ data_ ++ (tag ++ rest))
        × (s.len ≡ length data_)
  unfolding tls_check tls_compare read_tls_hash
  check_lem stack tag_len ses h auth auth_len data_ tag rest len i small long te tl l =
      let dg = digest api hash h auth auth_len data_ (length data_) in
      let n : len - tag_len ≡ length data_ = omega (arith, l) in
      let a : ltb max_result_len tag_len ≡ false = ground arith in
      let b : ltb len tag_len ≡ false = ground arith in
      let got : sg_get (data_ ++ (tag ++ rest)) (len - tag_len) tag_len ≡ some tag =
        sg_get_part data_ tag rest (len - tag_len) tag_len n (sym tl) in
      let mac = mac_data api hash ses h auth auth_len data_ (tag ++ rest) (length data_) refl in
      let same : same_bytes tag_len tag (written dg stack) ≡ true =
        ap (λ k. same_bytes tag_len k (written dg stack)) te ∙ same_bytes_lem tag_len dg _ long in
      let s : Sealed api = record {
        ret = success;
        ses =
            with_hash api hash ses
              (api.ahash_final
                (fed api hash (fed api hash h auth auth_len) data_ (length data_))).after.0;
        buf = data_ ++ (tag ++ rest);
        len = length data_;
      } in
      (
        s,
        otherwise _ _ ses.hdata.init i
            ∙ (neither _ _ _ _ a b ∙ (rw got (rw n (rw mac (simp same))))),
        refl,
        refl,
        refl,
      )
