-- ===== src/Run/Chunks.antt =====
-- Hashing in chunks through a kernel page, and on the user's pages, is hashing the buffer at once.
use cryptodev_linux.Prelude.{
  ℕ, zero, suc, ◌+◌, ◌-◌, ◌≤◌, ◌<◌, ◌≡◌, refl, sym, ap, ◌∙◌, inl, inr, min, Bool, ◌||◌, true, false,
  Option, some, List, [], ◌∷◌, ◌++◌, map, success, ltb, ltb→lt, ◌==◌, arith, Bool-cases, length,
  take, range, range-add, take-of_le,
}
use mathlib.Core.List.{map-append}
use cryptodev_linux.Sg.{SgEntry, sg_addrs, page_size}
use cryptodev_linux.User.{UserSpace, user_bytes, copy_from_user, length-user_bytes}
use cryptodev_linux.Zc.Cover.{phys, Pins}
use cryptodev_linux.Zc.Defs.{Paging, UserBuf, Userbuf, pagecount, release_user_pages}
use cryptodev_linux.Zc.Arrays.{HasRoom}
use cryptodev_linux.Zc.Buffers.{IsBuffer}
use cryptodev_linux.Zc.Inputs.{get_userbuf_reads}
use cryptodev_linux.Cryptlib.Api.{CryptoApi}
use cryptodev_linux.Cryptlib.Wait.{waitfor}
use cryptodev_linux.Cryptlib.Hash.{cryptodev_hash_update}
use cryptodev_linux.Session.Defs.{Session}
use cryptodev_linux.Run.Defs.{
  CryptOp, update_hash, crypt, hash_n_crypt, write_chunk, run_chunk, run_chunks, crypto_run_std,
  sg_bytes, run_mapped, crypto_run_zc, cop_encrypt,
}

-- What is documented of `crypto_ahash_update`, for a hash that finishes at once: it succeeds, and
-- updates in a row hash the data in a row.
pub record IsIncremental (api : CryptoApi) : Type 0 where
  pub succeeds : (h : api.Hash) (bytes : List ℕ) → (api.ahash_update h bytes).ret ≡ success
  pub chunked :
      (h : api.Hash) (xs ys : List ℕ)
      → (api.ahash_update (api.ahash_update h xs).after ys).after
        ≡ (api.ahash_update h (xs ++ ys)).after

or_true : (a b : Bool) → b ≡ true → (a || b) ≡ true
or_true a b h = ground arith

user_bytes-add :
    (u : UserSpace) (addr m n : ℕ)
    → user_bytes u addr (m + n) ≡ user_bytes u addr m ++ user_bytes u (addr + m) n
user_bytes-add u addr m n =
    rw
      (
        range-add addr m n,
        map-append (phys u.frame) (range addr m) (range (addr + m) n),
        map-append u.ram (map (phys u.frame) (range addr m))
            (map (phys u.frame) (range (addr + m) n)),
      )
      refl

copy_lem :
    (u : UserSpace) (src n : ℕ)
    → u.readable src n ≡ true
    → copy_from_user u src n ≡ some (user_bytes u src n)
unfolding copy_from_user
copy_lem u src n r = simp (or_true (n == 0) (u.readable src n) r)

module _ (api : CryptoApi) (inc : IsIncremental api) where
  -- A session that only hashes, with the state `h`.
  pub record IsHash (ses : Session api) (h : api.Hash) : Type 0 where
    pub no_cipher : ses.cdata.init ≡ false
    pub hashes : ses.hdata.init ≡ true
    pub state : ses.hdata.request ≡ some h

  -- The session after its hash has taken `bytes`.
  abbrev pub hashed : Session api → api.Hash → List ℕ → Session api
  hashed ses h bytes = record ses {
    hdata = record (ses.hdata) { request = some (api.ahash_update h bytes).after };
  }

  update_lem :
      (ses : Session api) (h : api.Hash) (bytes : List ℕ)
      → IsHash ses h
      → update_hash api ses (some bytes) ≡ some (success, hashed ses h bytes)
  unfolding update_hash cryptodev_hash_update waitfor
  update_lem ses h bytes i = simp (i.hashes, i.state, inc.succeeds h bytes)

  crypt_lem :
      (encrypt : Bool) (ses : Session api) (h : api.Hash) (src dst : Option (List ℕ))
      → IsHash ses h
      → crypt api encrypt ses src dst ≡ some (success, ses, dst)
  unfolding crypt
  crypt_lem encrypt ses h src dst i = simp i.no_cipher

  hashed_IsHash :
      (ses : Session api) (h : api.Hash) (bytes : List ℕ)
      → IsHash ses h
      → IsHash (hashed ses h bytes) (api.ahash_update h bytes).after
  hashed_IsHash ses h bytes i = record { no_cipher = i.no_cipher; hashes = i.hashes; state = refl }

  encrypt_lem :
      (ses : Session api) (h : api.Hash) (bytes : List ℕ) (dst : Option (List ℕ))
      → IsHash ses h
      → hash_n_crypt api ses cop_encrypt (some bytes) dst ≡ some (success, hashed ses h bytes, dst)
  unfolding hash_n_crypt
  encrypt_lem ses h bytes dst i = simp (
    update_lem ses h bytes i,
    crypt_lem true (hashed ses h bytes) (api.ahash_update h bytes).after (some bytes) dst
        (hashed_IsHash ses h bytes i),
  )

  page_lem :
      (ses : Session api) (h : api.Hash) (op : ℕ) (bytes : List ℕ)
      → IsHash ses h
      → hash_n_crypt api ses op (some bytes) (some bytes)
        ≡ some (success, hashed ses h bytes, some bytes)
  unfolding hash_n_crypt
  page_lem ses h op bytes i = elim (Bool-cases (op == cop_encrypt)) [
    | inl e ↦ simp (
      e,
      update_lem ses h bytes i,
      crypt_lem true (hashed ses h bytes) (api.ahash_update h bytes).after (some bytes) (some bytes)
          (hashed_IsHash ses h bytes i),
    )
    | inr e ↦ simp (e, crypt_lem false ses h (some bytes) (some bytes) i, update_lem ses h bytes i)
  ]

  chunk_lem :
      (op src dst n : ℕ) (ses : Session api) (h : api.Hash) (u : UserSpace)
      → IsHash ses h
      → u.readable src n ≡ true
      → run_chunk api op src dst n ses u ≡ some (success, hashed ses h (user_bytes u src n), u)
  unfolding run_chunk write_chunk
  chunk_lem op src dst n ses h u i r =
      rw (copy_lem u src n r, run_chunk)
        (simp (page_lem ses h op (user_bytes u src n) i, i.no_cipher))

  hashed-hashed :
      (ses : Session api) (h : api.Hash) (xs ys : List ℕ)
      → hashed (hashed ses h xs) (api.ahash_update h xs).after ys ≡ hashed ses h (xs ++ ys)
  hashed-hashed ses h xs ys = simp (inc.chunked h xs ys)

  -- Every part of the buffer can be read.
  abbrev pub Readable : UserSpace → ℕ → ℕ → Type 0
  Readable u src len = (a n : ℕ) → src ≤ a → a + n ≤ src + len → u.readable a n ≡ true

  done_lem :
      (fuel op bufsize src dst nbytes : ℕ) (ses : Session api) (u : UserSpace)
      → nbytes ≡ 0
      → run_chunks api fuel op bufsize src dst nbytes ses u ≡ some (success, ses, u)
  unfolding run_chunks
  done_lem zero op bufsize src dst nbytes ses u z = rw z refl
  done_lem (suc fuel) op bufsize src dst nbytes ses u z = simp z

  chunks_lem :
      (fuel op bufsize src dst nbytes : ℕ) (ses : Session api) (h : api.Hash) (u : UserSpace)
      → IsHash ses h
      → 0 < bufsize
      → 0 < nbytes
      → nbytes ≤ fuel
      → Readable u src nbytes
      → run_chunks api fuel op bufsize src dst nbytes ses u
        ≡ some (success, hashed ses h (user_bytes u src nbytes), u)
  unfolding run_chunks
  chunks_lem zero op bufsize src dst nbytes ses h u i p q f r = absurd (omega (arith, q, f))
  chunks_lem (suc fuel) op bufsize src dst nbytes ses h u i p q f r =
      let z : (nbytes == 0) ≡ false = ground arith in
      elim (Bool-cases (ltb bufsize nbytes)) [
        | inl more ↦
            let rest = nbytes - bufsize in
            let lt : bufsize < nbytes = ltb→lt bufsize nbytes more in
            let whole : bufsize + rest ≡ nbytes = omega (arith, lt) in
            let again =
              chunks_lem fuel op bufsize (src + bufsize) (dst + bufsize) rest
                (hashed ses h (user_bytes u src bufsize))
                (api.ahash_update h (user_bytes u src bufsize)).after u
                (hashed_IsHash ses h (user_bytes u src bufsize) i) p (omega (arith, lt))
                (omega (arith, f, p, lt))
                (λ a n l m. r a n (omega (arith, l)) (omega (arith, m, lt))) in
            simp
              (
                z,
                more,
                chunk_lem op src dst bufsize ses h u i
                    (r src bufsize (omega arith) (omega (arith, lt))),
                again,
                hashed-hashed ses h (user_bytes u src bufsize) (user_bytes u (src + bufsize) rest),
              )
              (ap (λ bytes. some (success, hashed ses h bytes, u))
                (sym (user_bytes-add u src bufsize rest) ∙ ap (user_bytes u src) whole))
        | inr less ↦ simp (
          z,
          less,
          chunk_lem op src dst nbytes ses h u i (r src nbytes (omega arith) (omega arith)),
          done_lem fuel op bufsize (src + nbytes) (dst + nbytes) (nbytes - nbytes)
              (hashed ses h (user_bytes u src nbytes)) u (omega arith),
        )
      ]

  -- `__crypto_run_std` of a session that only hashes, with a hash whose updates return 0 at once
  -- and hash in parts as in one piece, on a buffer that is not empty and can be read: if a page can
  -- be allocated, it returns 0, leaves the user's memory, and hashes the buffer as one update does,
  -- in as many chunks as it takes.
  pub crypto_run_std_hashes :
      (ses : Session api) (h : api.Hash) (cop : CryptOp) (u : UserSpace)
      → IsHash ses h
      → 0 < cop.len
      → Readable u cop.src cop.len
      → crypto_run_std api true ses cop u
        ≡ some (success, hashed ses h (user_bytes u cop.src cop.len), u)
  unfolding crypto_run_std
  crypto_run_std_hashes ses h cop u i p r =
      chunks_lem cop.len cop.op (min page_size cop.len) cop.src cop.dst cop.len ses h u i
        (omega (arith, p)) p (omega arith) r

  sg_bytes_lem :
      (u : UserSpace) (sg : List SgEntry) (src len : ℕ)
      → 0 < len
      → sg_addrs sg ≡ map (phys u.frame) (range src len)
      → sg_bytes api u sg len ≡ some (user_bytes u src len)
  sg_bytes_lem u [] src len p e =
      absurd (omega (arith, p, ap (λ as_. length (map u.ram as_)) e, length-user_bytes u src len))
  sg_bytes_lem u (s ∷ sg) src len p e = ap some (
      ap (λ as_. take len (map u.ram as_)) e
      ∙ take-of_le len (user_bytes u src len) (omega (arith, length-user_bytes u src len)))

  mapped_lem :
      (env : Paging) (ses : Session api) (h : api.Hash) (cop : CryptOp) (u : UserSpace)
      (got : Userbuf)
      → IsHash ses h
      → cop.op ≡ cop_encrypt
      → 0 < cop.len
      → sg_addrs got.src_sg ≡ map (phys u.frame) (range cop.src cop.len)
      → run_mapped api env ses cop u got
        ≡ some (
          success,
          record (hashed ses h (user_bytes u cop.src cop.len)) {
            user = (release_user_pages env.reserved got.ses).1;
          },
          u,
        )
  unfolding run_mapped
  mapped_lem env ses h cop u got i enc p e =
      let dst = sg_bytes api u got.dst_sg cop.len in
      rw
        (
          enc,
          sg_bytes_lem u got.src_sg cop.src cop.len p e,
          encrypt_lem ses h (user_bytes u cop.src cop.len) dst i,
        )
        (simp i.no_cipher)

  -- Where the kernel can pin the pages of a buffer that can be read, and the arrays of the session
  -- can be grown to their number, the zero-copy path and the chunked path do the same for a session
  -- that only hashes, with a hash whose updates return 0 at once and hash in parts as in one piece,
  -- and for an operation COP_ENCRYPT on a buffer that is not empty and without output: both return
  -- 0, leave the user's memory, and leave the hash as one update of the buffer does. The chunked
  -- path needs a page for that, the other none.
  pub crypto_run_zc-crypto_run_std :
      (env : Paging) (page_ok : Bool) (ses : Session api) (h : api.Hash) (cop : CryptOp)
      (u : UserSpace)
      → IsHash ses h
      → cop.op ≡ cop_encrypt
      → cop.dst ≡ 0
      → IsBuffer cop.src cop.len
      → Readable u cop.src cop.len
      → HasRoom ses.user
      → env.pages_ok ≡ true
      → env.sg_ok ≡ true
      → Pins env.get_user_pages u.frame cop.src (pagecount cop.src cop.len) false
      → (zc std : Session api) × (crypto_run_zc api env page_ok ses cop u ≡ some (success, zc, u))
        × (crypto_run_std api true ses cop u ≡ some (success, std, u))
        × (zc.hdata ≡ std.hdata)
        × (std ≡ hashed ses h (user_bytes u cop.src cop.len))
  unfolding crypto_run_zc run_mapped
  crypto_run_zc-crypto_run_std env page_ok ses h cop u i enc d buf r room p s pins =
      let b : UserBuf = record {
        src = cop.src;
        src_len = cop.len;
        dst = cop.dst;
        dst_len = cop.len;
      } in
      let g = get_userbuf_reads env u.frame b ses.user buf d room p s pins in
      let done = mapped_lem env ses h cop u g.0 i enc buf.not_empty g.3 in
      let std = hashed ses h (user_bytes u cop.src cop.len) in
      (
        record std { user = (release_user_pages env.reserved g.0.ses).1 },
        std,
        simp (g.1, g.2, done),
        crypto_run_std_hashes ses h cop u i buf.not_empty r,
        refl,
        refl,
      )
