-- ===== src/Authenc/RoundTrip.antt =====
-- A TLS record that is decrypted after it has been encrypted (authenc.c).
pub mod Mac
pub mod InPlace
pub mod Seal
pub mod Open
use cryptodev_linux.Prelude.{
  ℕ, zero, suc, ◌+◌, ◌-◌, ◌%◌, ◌≤◌, ◌<◌, ◌≡◌, refl, sym, ap, ◌∙◌, inl, inr, Bool, true, false, ◌||◌,
  not, Option, some, List, [], ◌∷◌, ◌++◌, append_assoc, value, success, ltb, ◌==◌, if◌then◌else◌,
  ◌>>=◌, arith, Bool-cases, length, take, drop, replicate, length-append, length-take, length-drop,
  length-replicate, take-append-drop, take-append_le, take-length_append,
}
use native.Mathlib.Nat.{mod-lt}
use cryptodev_linux.Cryptlib.Api.{CryptoApi}
use cryptodev_linux.Cryptlib.Wait.{waitfor}
use cryptodev_linux.Cryptlib.Cipher.{Cipher, cryptodev_cipher_encrypt, cryptodev_cipher_decrypt}
use cryptodev_linux.Cryptlib.Hash.{cryptodev_hash_update, cryptodev_hash_final}
use cryptodev_linux.Session.Defs.{Session}
use cryptodev_linux.Run.Defs.{cop_encrypt, cop_decrypt}
use cryptodev_linux.Authenc.Buffer.{
  sg_get, sg_put, copy_tls_hash, read_tls_hash, verify_tls_record_pad,
}
use cryptodev_linux.Authenc.Pad.{
  rounded_lem, sg_get_part, sg_put_part, pad_lem, verify_lem, padded, padded_parts, length_three,
  three_parts,
}
use cryptodev_linux.Authenc.Defs.{
  CryptAuthOp, Sealed, hash_part, hash_end, tls_mac, tls_add_mac, tls_add_pad, crypt_in_place,
  tls_seal, tls_remove_pad, tls_decrypt, tls_compare, tls_check, tls_auth_n_crypt, same_bytes,
  written, max_result_len,
}
use cryptodev_linux.Authenc.RoundTrip.Mac.{IsHashApi, fed, digest, with_hash, mac_data}
use cryptodev_linux.Authenc.RoundTrip.InPlace.{Deciphers, otherwise, neither, crypt_lem}
use cryptodev_linux.Authenc.RoundTrip.Seal.{Parts, seal_lem}
use cryptodev_linux.Authenc.RoundTrip.Open.{decrypt_lem, check_lem}

module _ (api : CryptoApi) (hash : IsHashApi api) where
  -- Two sessions at the two ends, `h` the state of the hash of both, that agree on a record.
  pub record Ends (caop : CryptAuthOp) (ses ses2 : Session api) (h : api.Hash) (auth buf : List ℕ)
      : Type 0 where
    pub hashes : (ses.hdata.init ≡ true) × (ses2.hdata.init ≡ true)
    pub states : (ses.hdata.request ≡ some h) × (ses2.hdata.request ≡ some h)
    pub ciphers : (ses.cdata.init ≡ true) × (ses2.cdata.init ≡ true)
    pub blocks :
        (1 < ses.cdata.blocksize)
        × (ses.cdata.blocksize ≤ 256)
        × (ses2.cdata.blocksize ≡ ses.cdata.blocksize)
    pub tag_fits :
        (caop.tag_len ≤ max_result_len)
        × (caop.tag_len
            ≤ length (digest api hash h auth caop.auth_len (take caop.len buf) caop.len))
    pub room : caop.len + caop.tag_len + ses.cdata.blocksize ≤ length buf
    pub deciphers :
        (plain : List ℕ)
        → length plain % ses.cdata.blocksize ≡ 0
        → Deciphers api ses.cdata ses2.cdata plain

  with_state :
      (ses : Session api) (h : api.Hash)
      → ses.hdata.request ≡ some h
      → ses ≡ with_hash api hash ses h
  with_state ses h e = ap (λ q. record ses { hdata = record (ses.hdata) { request = q } }) e

  four_parts :
      (buf : List ℕ) (a b c : ℕ)
      → buf
        ≡ take a buf
          ++ (take b (drop a buf) ++ (take c (drop b (drop a buf)) ++ drop c (drop b (drop a buf))))
  four_parts buf a b c =
      three_parts buf a b
      ∙ ap (λ r. take a buf ++ (take b (drop a buf) ++ r))
          (sym (take-append-drop c (drop b (drop a buf))))

  -- The result of the two directions on a record of the length `len` in `buf`.
  abbrev pub Returned : List ℕ → ℕ → List ℕ → ℕ → Session api → List ℕ → ℕ → Sealed api → Type 0
  Returned stack tag_len auth auth_len ses data_ len s =
      (s2 : Sealed api) × ((tls_decrypt api
            (record { ret = success; ses = ses; buf = s.buf; len = s.len })
          >>= tls_check api stack tag_len (some auth) auth_len)
        ≡ some s2)
      × (s2.ret ≡ success)
      × (s2.len ≡ len)
      × (take len s2.buf ≡ data_)

  parts_lem :
      (stack stack2 : List ℕ) (tag_len : ℕ) (ses ses2 : Session api) (h : api.Hash) (auth : List ℕ)
      (auth_len : ℕ) (data_ t p rest : List ℕ) (v : ℕ)
      → Parts api hash tag_len ses.cdata.blocksize data_ t p v
      → (ses.hdata.init ≡ true) × (ses2.hdata.init ≡ true)
      → (ses.cdata.init ≡ true) × (ses2.cdata.init ≡ true)
      → ses2.cdata.blocksize ≡ ses.cdata.blocksize
      → tag_len ≤ length (digest api hash h auth auth_len data_ (length data_))
      → ((plain : List ℕ)
          → length plain % ses.cdata.blocksize ≡ 0
          → Deciphers api ses.cdata ses2.cdata plain)
      → (s : Sealed api) × (tls_seal api stack tag_len
            (with_hash api hash ses h)
            (some auth)
            auth_len
            (data_ ++ (t ++ (p ++ rest)))
            (length data_)
          ≡ some s)
        × (s.ret ≡ success)
        × (s.len ≡ length data_ + tag_len + suc v)
        × Returned stack2 tag_len auth auth_len (with_hash api hash ses2 h) data_ (length data_) s
  parts_lem stack stack2 tag_len ses ses2 h auth auth_len data_ t p rest v parts hi ci bs long dec =
      let dg = digest api hash h auth auth_len data_ (length data_) in
      let tag = take tag_len dg in
      let tl : length tag ≡ tag_len = omega (arith, length-take tag_len dg, long) in
      let blocks : length ((data_ ++ tag) ++ replicate (suc v) v) % ses.cdata.blocksize ≡ 0 =
        ap (λ k. k % ses.cdata.blocksize)
          (length-append (data_ ++ tag) (replicate (suc v) v)
            ∙ ap (λ k. k + length (replicate (suc v) v)) (length-append data_ tag)
            ∙ omega (arith, tl, length-replicate (suc v) v))
        ∙ rounded_lem (length data_ + tag_len) ses.cdata.blocksize (suc v)
            (omega (arith, parts.pads, parts.has_blocks)) in
      let d = dec ((data_ ++ tag) ++ replicate (suc v) v) blocks in
      let sealed =
        seal_lem api hash stack tag_len ses h auth auth_len data_ t p rest tag v parts hi.0 ci.0
          (sym (take-append_le tag_len dg (drop (length dg) stack) long)) tl ses2.cdata d in
      let len = length data_ + tag_len + suc v in
      let open_ =
        decrypt_lem api hash (with_hash api hash ses2 h) (data_ ++ tag) rest d.out v len
          d.after_decrypt ci.1 (omega (arith, d.same_blocks, bs, parts.has_blocks))
          (omega (arith, length-append data_ tag, tl))
          (omega (
            arith,
            d.same_length,
            length-append (data_ ++ tag) (replicate (suc v) v),
            length-append data_ tag,
            length-replicate (suc v) v,
            tl,
          ))
          d.decrypts in
      let check =
        check_lem api hash stack2 tag_len (record ses2 { cdata = d.after_decrypt }) h auth auth_len
          data_ tag (replicate (suc v) v ++ rest) (len - (v + 1)) hi.1 parts.tag_short long refl tl
          (omega arith) in
      (
        sealed.0,
        sealed.1,
        sealed.2,
        sealed.4,
        (
          check.0,
          rw (sealed.3, sealed.4, open_, append_assoc data_ tag (replicate (suc v) v ++ rest))
              (check.1),
          check.2,
          check.4,
          rw check.3 (take-length_append data_ (tag ++ (replicate (suc v) v ++ rest))),
        ),
      )

  -- A TLS record survives: what `tls_auth_n_crypt` encrypts in one session, it decrypts in a
  -- session with the same hash state and a cipher that inverts the first on data of whole blocks,
  -- both of which succeed there. The hash's updates and its end return 0 at once. For blocks of 2
  -- to 256 bytes, a tag no longer than the digest or than 64 bytes, and a buffer with room for the
  -- tag and a block of padding, the encryption returns 0 and makes the record as long as the data,
  -- the tag and the padding up to a whole block; the decryption of that record returns 0, the
  -- length of the data and the data, whatever is on the stack.
  pub tls_auth_n_crypt_returns :
      (stack stack2 : List ℕ) (caop : CryptAuthOp) (ses ses2 : Session api) (h : api.Hash)
      (auth buf : List ℕ)
      → caop.op ≡ cop_encrypt
      → Ends caop ses ses2 h auth buf
      → (s s2 : Sealed api) × (tls_auth_n_crypt api stack caop ses (some auth) buf ≡ some s)
        × (s.ret ≡ success)
        × (s.len
            ≡ caop.len
              + caop.tag_len
              + (ses.cdata.blocksize - (caop.len + caop.tag_len) % ses.cdata.blocksize))
        × (tls_auth_n_crypt api stack2
              (record caop { op = cop_decrypt; len = s.len })
              ses2
              (some auth)
              s.buf
            ≡ some s2)
        × (s2.ret ≡ success)
        × (s2.len ≡ caop.len)
        × (take caop.len s2.buf ≡ take caop.len buf)
  unfolding tls_auth_n_crypt
  tls_auth_n_crypt_returns stack stack2 caop ses ses2 h auth buf enc ends =
      let data_ = take caop.len buf in
      let behind = drop caop.len buf in
      let n : length data_ ≡ caop.len = omega (arith, length-take caop.len buf, ends.room) in
      let bs = ses.cdata.blocksize in
      let below : (caop.len + caop.tag_len) % bs < bs =
        mod-lt (caop.len + caop.tag_len) (omega (arith, ends.blocks.0)) in
      let v = bs - (caop.len + caop.tag_len) % bs - 1 in
      let tagged = drop caop.tag_len behind in
      let parts : Parts api hash caop.tag_len bs data_ (take caop.tag_len behind)
          (take (suc v) tagged) v =
        record {
          tag_fits =
              omega (arith, length-take caop.tag_len behind, length-drop caop.len buf, ends.room);
          pad_fits = omega (
            arith,
            length-take (suc v) tagged,
            length-drop caop.tag_len behind,
            length-drop caop.len buf,
            ends.room,
            below,
          );
          has_blocks = ends.blocks.0;
          pads = ap (λ k. bs - (k + caop.tag_len) % bs) n ∙ omega (arith, below);
          small = omega (arith, ends.blocks.1);
          tag_short = ends.tag_fits.0;
        } in
      let r =
        parts_lem stack stack2 caop.tag_len ses ses2 h auth caop.auth_len data_
          (take caop.tag_len behind) (take (suc v) tagged) (drop (suc v) tagged) v parts ends.hashes
          ends.ciphers ends.blocks.2 (rw n (ends.tag_fits.1)) ends.deciphers in
      let op : (caop.op == cop_encrypt) ≡ true = ground arith in
      let sealed : tls_seal api stack caop.tag_len ses (some auth) caop.auth_len buf caop.len
          ≡ some r.0 =
        ap (λ x. tls_seal api stack caop.tag_len x (some auth) caop.auth_len buf caop.len)
          (with_state ses h ends.states.0)
        ∙ ap
            (λ b.
              tls_seal api stack caop.tag_len (with_hash api hash ses h) (some auth) caop.auth_len b
                caop.len)
            (four_parts buf caop.len caop.tag_len (suc v))
        ∙ ap
            (tls_seal api stack caop.tag_len (with_hash api hash ses h) (some auth) caop.auth_len _)
            (sym n)
        ∙ r.1 in
      let back = r.4 in
      (
        r.0,
        back.0,
        simp (op, sealed),
        r.2,
        r.3 ∙ omega (arith, n, below),
        ap
              (λ x.
                tls_decrypt api (record { ret = success; ses = x; buf = r.0.buf; len = r.0.len })
                >>= tls_check api stack2 caop.tag_len (some auth) caop.auth_len)
              (with_state ses2 h ends.states.1)
            ∙ back.1,
        back.2,
        back.3 ∙ n,
        ap (λ k. take k back.0.buf) (sym n) ∙ back.4,
      )
