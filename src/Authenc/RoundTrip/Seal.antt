-- ===== src/Authenc/RoundTrip/Seal.antt =====
-- A TLS record that is encrypted (authenc.c).
use cryptodev_linux.Prelude.{
  ℕ, suc, ◌+◌, ◌-◌, ◌%◌, ◌≤◌, ◌<◌, ◌≡◌, refl, sym, ap, ◌∙◌, true, false, some, List, ◌++◌,
  append_assoc, success, ltb, arith, length, take, replicate, length-append, length-replicate,
}
use cryptodev_linux.Cryptlib.Api.{CryptoApi}
use cryptodev_linux.Cryptlib.Cipher.{Cipher}
use cryptodev_linux.Session.Defs.{Session}
use cryptodev_linux.Authenc.Buffer.{copy_tls_hash}
use cryptodev_linux.Authenc.Pad.{sg_put_part, pad_lem, padded, padded_parts, length_three}
use cryptodev_linux.Authenc.Defs.{
  Sealed, tls_add_mac, tls_add_pad, tls_seal, written, max_result_len,
}
use cryptodev_linux.Authenc.RoundTrip.Mac.{IsHashApi, fed, digest, with_hash, mac_data}
use cryptodev_linux.Authenc.RoundTrip.InPlace.{Deciphers, otherwise, crypt_lem}

module _ (api : CryptoApi) (hash : IsHashApi api) where
  copy_lem :
      (data_ old rest hash_output : List ℕ) (len tag_len : ℕ)
      → len ≡ length data_
      → length (take tag_len hash_output) ≡ length old
      → copy_tls_hash (data_ ++ (old ++ rest)) len hash_output tag_len
        ≡ some (data_ ++ (take tag_len hash_output ++ rest))
  unfolding copy_tls_hash
  copy_lem data_ old rest hash_output len tag_len l fits =
      sg_put_part data_ old (take tag_len hash_output) rest len l fits

  add_mac_lem :
      (stack : List ℕ) (tag_len : ℕ) (ses : Session api) (h : api.Hash) (auth : List ℕ)
      (auth_len : ℕ) (data_ old rest : List ℕ) (len : ℕ)
      → ses.hdata.init ≡ true
      → tag_len ≤ max_result_len
      → len ≡ length data_
      → length (take tag_len (written (digest api hash h auth auth_len data_ len) stack))
        ≡ length old
      → tls_add_mac api stack tag_len
          (with_hash api hash ses h)
          (some auth)
          auth_len
          (data_ ++ (old ++ rest))
          len
        ≡ some (record {
          ret = success;
          ses =
              with_hash api hash ses
                (api.ahash_final (fed api hash (fed api hash h auth auth_len) data_ len)).after.0;
          buf =
              data_
              ++ (take tag_len (written (digest api hash h auth auth_len data_ len) stack) ++ rest);
          len = len + tag_len;
        })
  unfolding tls_add_mac
  add_mac_lem stack tag_len ses h auth auth_len data_ old rest len i small l fits =
      let short : ltb max_result_len tag_len ≡ false = ground arith in
      rw (mac_data api hash ses h auth auth_len data_ (old ++ rest) len l) (
        simp (
          i,
          short,
          copy_lem data_ old rest (written (digest api hash h auth auth_len data_ len) stack) len
              tag_len l fits,
        ))

  pad_part :
      (s : Sealed api) (pre old rest : List ℕ) (v : ℕ)
      → s.buf ≡ pre ++ (old ++ rest)
      → s.len ≡ length pre
      → 1 < s.ses.cdata.blocksize
      → s.ses.cdata.blocksize - s.len % s.ses.cdata.blocksize ≡ suc v
      → v < 256
      → length old ≡ suc v
      → tls_add_pad api s
        ≡ some (record s { buf = pre ++ (replicate (suc v) v ++ rest); len = s.len + suc v })
  unfolding tls_add_pad
  pad_part s pre old rest v b l bs e small o =
      let has_blocks : ltb 1 s.ses.cdata.blocksize ≡ true = ground arith in
      let shape : padded s.buf s.len v ≡ pre ++ (replicate (suc v) v ++ rest) =
        padded_parts s.buf pre old rest s.len v b l o in
      simp (
        has_blocks,
        pad_lem s.buf s.len s.ses.cdata.blocksize v e small
            (omega (arith, ap length b, length_three pre old rest, o, l)),
        shape,
      )

  -- What both directions have in common: the record in parts.
  pub record Parts (tag_len bs : ℕ) (data_ t p : List ℕ) (v : ℕ) : Type 0 where
    pub tag_fits : tag_len ≡ length t
    pub pad_fits : length p ≡ suc v
    pub has_blocks : 1 < bs
    pub pads : bs - (length data_ + tag_len) % bs ≡ suc v
    pub small : v < 256
    pub tag_short : tag_len ≤ max_result_len

  pub seal_lem :
      (stack : List ℕ) (tag_len : ℕ) (ses : Session api) (h : api.Hash) (auth : List ℕ)
      (auth_len : ℕ) (data_ t p rest tag : List ℕ) (v : ℕ)
      → Parts tag_len ses.cdata.blocksize data_ t p v
      → ses.hdata.init ≡ true
      → ses.cdata.init ≡ true
      → tag ≡ take tag_len (written (digest api hash h auth auth_len data_ (length data_)) stack)
      → length tag ≡ tag_len
      → (second : Cipher api)
        (d : Deciphers api ses.cdata second ((data_ ++ tag) ++ replicate (suc v) v))
      → (s : Sealed api) × (tls_seal api stack tag_len
            (with_hash api hash ses h)
            (some auth)
            auth_len
            (data_ ++ (t ++ (p ++ rest)))
            (length data_)
          ≡ some s)
        × (s.ret ≡ success)
        × (s.buf ≡ d.out ++ rest)
        × (s.len ≡ length data_ + tag_len + suc v)
  unfolding tls_seal
  seal_lem stack tag_len ses h auth auth_len data_ t p rest tag v parts i c te tl second d =
      let after : Session api =
        with_hash api hash ses
          (api.ahash_final
            (fed api hash (fed api hash h auth auth_len) data_ (length data_))).after.0 in
      let mac : Sealed api = record {
        ret = success;
        ses = after;
        buf = data_ ++ (tag ++ (p ++ rest));
        len = length data_ + tag_len;
      } in
      let pad : Sealed api = record mac {
        buf = (data_ ++ tag) ++ (replicate (suc v) v ++ rest);
        len = length data_ + tag_len + suc v;
      } in
      let m : tls_add_mac api stack tag_len (with_hash api hash ses h) (some auth) auth_len
            (data_ ++ (t ++ (p ++ rest))) (length data_)
          ≡ some mac =
        add_mac_lem stack tag_len ses h auth auth_len data_ t (p ++ rest) (length data_) i
          parts.tag_short refl (ap length (sym te) ∙ tl ∙ parts.tag_fits)
        ∙ ap (λ k. some (record mac { buf = data_ ++ (k ++ (p ++ rest)) })) (sym te) in
      let w : tls_add_pad api mac ≡ some pad =
        pad_part mac (data_ ++ tag) p rest v (sym (append_assoc data_ tag (p ++ rest)))
          (omega (arith, length-append data_ tag, tl)) parts.has_blocks parts.pads parts.small
          parts.pad_fits in
      let e =
        crypt_lem api true pad ((data_ ++ tag) ++ replicate (suc v) v) rest d.out d.after_encrypt
          (sym (append_assoc (data_ ++ tag) (replicate (suc v) v) rest))
          (omega (
            arith,
            length-append (data_ ++ tag) (replicate (suc v) v),
            length-append data_ tag,
            length-replicate (suc v) v,
            tl,
          ))
          d.same_length d.encrypts in
      (
        record pad {
          ret = success;
          ses = record after { cdata = d.after_encrypt };
          buf = d.out ++ rest;
        },
        rw m (otherwise _ _ ses.cdata.init c ∙ (rw w e)),
        refl,
        refl,
        refl,
      )
