-- ===== src/Authenc/Pad.antt =====
-- The padding of a TLS record: what is added is accepted, and only padding is.
use cryptodev_linux.Prelude.{
  ℕ, zero, suc, ◌+◌, ◌-◌, ◌%◌, ◌^◌, ◌≤◌, ◌<◌, ◌≡◌, refl, sym, ap, ◌∙◌, true, false, some, List, [],
  ◌∷◌, ◌++◌, append_assoc, value, ltb, leb, ◌==◌, arith, length, take, drop, replicate,
  length-append, length-take, length-drop, length-replicate, take-append-drop, take-length_append,
  drop-length_append,
}
use native.Mathlib.Nat.{mod-lt, mod-add-mod, mod_self}
use cryptodev_linux.Authenc.Buffer.{
  sg_get, sg_put, pad_record, check_pad, verify_pad, verify_tls_record_pad,
}

le→leb : (a b : ℕ) → a ≤ b → leb a b ≡ true
le→leb a b h = ground arith

pub length_three :
    (pre mid post : List ℕ)
    → length (pre ++ (mid ++ post)) ≡ length pre + (length mid + length post)
length_three pre mid post =
    length-append pre (mid ++ post) ∙ ap (λ k. length pre + k) (length-append mid post)

drop_two :
    (pre mid post : List ℕ) (n : ℕ)
    → n ≡ length pre + length mid
    → drop n (pre ++ (mid ++ post)) ≡ post
drop_two pre mid post n e =
    ap (drop n) (sym (append_assoc pre mid post))
    ∙ ap (λ k. drop k ((pre ++ mid) ++ post)) (e ∙ sym (length-append pre mid))
    ∙ drop-length_append (pre ++ mid) post

-- Reading and writing a part of a buffer that is given as three.
pub sg_get_part :
    (pre mid post : List ℕ) (start n : ℕ)
    → start ≡ length pre
    → n ≡ length mid
    → sg_get (pre ++ (mid ++ post)) start n ≡ some mid
unfolding sg_get
sg_get_part pre mid post start n s l =
    rw
      (
        s,
        l,
        le→leb (length pre + length mid) (length (pre ++ (mid ++ post)))
            (omega (arith, length_three pre mid post)),
        drop-length_append pre (mid ++ post),
        take-length_append mid post,
      )
      refl

pub sg_put_part :
    (pre old new post : List ℕ) (start : ℕ)
    → start ≡ length pre
    → length new ≡ length old
    → sg_put (pre ++ (old ++ post)) start new ≡ some (pre ++ (new ++ post))
unfolding sg_put
sg_put_part pre old new post start s l =
    rw
      (
        s,
        le→leb (length pre + length new) (length (pre ++ (old ++ post)))
            (omega (arith, length_three pre old post, l)),
        take-length_append pre (old ++ post),
        drop_two pre old post (length pre + length new) (ap (λ k. length pre + k) l),
      )
      refl

check_pad-replicate :
    (n pad_size : ℕ) (rest : List ℕ) → check_pad n pad_size (replicate n pad_size ++ rest) ≡ true
unfolding check_pad
check_pad-replicate zero pad_size rest = refl
check_pad-replicate (suc n) pad_size rest =
    let e : (pad_size == pad_size) ≡ true = ground arith in
    rw (e, check_pad-replicate n pad_size rest) refl

replicate_last : (n v : ℕ) → replicate (suc n) v ≡ replicate n v ++ (v ∷ [])
replicate_last zero v = refl
replicate_last (suc n) v = ap (◌∷◌ v) (replicate_last n v)

-- A record that ends in `v + 1` bytes `v` is accepted, and the padding is all of them.
pub verify_lem :
    (pre post : List ℕ) (v len : ℕ)
    → len ≡ length pre + suc v
    → verify_tls_record_pad (pre ++ (replicate (suc v) v ++ post)) len ≡ some (value (v + 1))
unfolding verify_tls_record_pad verify_pad
verify_lem pre post v len e =
    let z : (len == 0) ≡ false = ground arith in
    let whole : pre ++ (replicate (suc v) v ++ post)
        ≡ (pre ++ replicate v v) ++ ((v ∷ []) ++ post) =
      ap (λ r. pre ++ (r ++ post)) (replicate_last v v)
      ∙ ap (λ r. pre ++ r) (append_assoc (replicate v v) (v ∷ []) post)
      ∙ sym (append_assoc pre (replicate v v) ((v ∷ []) ++ post)) in
    let last : sg_get (pre ++ (replicate (suc v) v ++ post)) (len - 1) 1 ≡ some (v ∷ []) =
      ap (λ b. sg_get b (len - 1) 1) whole
      ∙ sg_get_part (pre ++ replicate v v) (v ∷ []) post (len - 1) 1
          (omega (arith, e, length-append pre (replicate v v), length-replicate v v)) refl in
    let pad : sg_get (pre ++ (replicate (suc v) v ++ post)) (len - v - 1) (v + 1)
        ≡ some (replicate (suc v) v) =
      sg_get_part pre (replicate (suc v) v) post (len - v - 1) (v + 1) (omega (arith, e))
        (omega (arith, length-replicate (suc v) v)) in
    let long : ltb len (v + 1) ≡ false = ground arith in
    let ok : check_pad v v (replicate (suc v) v) ≡ true =
      ap (check_pad v v) (replicate_last v v) ∙ check_pad-replicate v v (v ∷ []) in
    simp (z, last, long, pad, ok)

pub three_parts :
    (buf : List ℕ) (len n : ℕ)
    → buf ≡ take len buf ++ (take n (drop len buf) ++ drop n (drop len buf))
three_parts buf len n =
    sym (ap (λ r. take len buf ++ r) (take-append-drop n (drop len buf)) ∙ take-append-drop len buf)

-- A buffer with the padding behind its first `len` bytes.
abbrev pub padded : List ℕ → ℕ → ℕ → List ℕ
padded buf len v = take len buf ++ (replicate (suc v) v ++ drop (suc v) (drop len buf))

put_lem :
    (buf : List ℕ) (len p v : ℕ)
    → p ≡ suc v
    → v < 256
    → len + p ≤ length buf
    → sg_put buf len (replicate p ((p - 1) % 2 ^ 8)) ≡ some (padded buf len v)
put_lem buf len p v e small room =
    let byte : (p - 1) % 2 ^ 8 ≡ v = omega (arith, e) in
    rw (byte, e)
      (ap (λ b. sg_put b len (replicate (suc v) v)) (three_parts buf len (suc v))
        ∙ sg_put_part (take len buf) (take (suc v) (drop len buf)) (replicate (suc v) v)
            (drop (suc v) (drop len buf)) len (omega (arith, length-take len buf))
            (omega (
              arith,
              length-replicate (suc v) v,
              length-take (suc v) (drop len buf),
              length-drop len buf,
            )))

pub pad_lem :
    (buf : List ℕ) (len block_size v : ℕ)
    → block_size - len % block_size ≡ suc v
    → v < 256
    → len + suc v ≤ length buf
    → pad_record buf len block_size ≡ some (suc v, padded buf len v)
unfolding pad_record
pad_lem buf len block_size v e small room =
    rw (put_lem buf len (block_size - len % block_size) v e small (omega (arith, e, room)))
      (ap (λ k. some (k, padded buf len v)) e)

pub rounded_lem : (len b p : ℕ) → len % b + p ≡ b → (len + p) % b ≡ 0
rounded_lem len b p e = sym (mod-add-mod len b p) ∙ ap (λ k. k % b) e ∙ mod_self b

-- The padding that `pad_record` puts behind `len` bytes, for a block size from 1 to 256 and where the
-- buffer has room, is accepted by `verify_tls_record_pad`, which returns its size; it makes the
-- length a multiple of the block size, is at most a block, and leaves the bytes before it.
pub verify_tls_record_pad-pad_record :
    (buf : List ℕ) (len block_size : ℕ)
    → 0 < block_size
    → block_size ≤ 256
    → len + block_size ≤ length buf
    → (pad_size : ℕ) × (buf' : List ℕ) × (pad_record buf len block_size ≡ some (pad_size, buf'))
      × (verify_tls_record_pad buf' (len + pad_size) ≡ some (value pad_size))
      × (0 < pad_size)
      × (pad_size ≤ block_size)
      × ((len + pad_size) % block_size ≡ 0)
      × (take len buf' ≡ take len buf)
      × (length buf' ≡ length buf)
verify_tls_record_pad-pad_record buf len block_size p q room =
    let r = len % block_size in
    let below : r < block_size = mod-lt len p in
    let v = block_size - r - 1 in
    let e : block_size - len % block_size ≡ suc v = omega (arith, below) in
    let n : len ≡ length (take len buf) = omega (arith, length-take len buf, room) in
    (
      suc v,
      padded buf len v,
      pad_lem buf len block_size v e (omega (arith, below, q)) (omega (arith, below, room)),
      ap (λ k. verify_tls_record_pad (padded buf len v) (k + suc v)) n
          ∙ verify_lem (take len buf) (drop (suc v) (drop len buf)) v
              (length (take len buf) + suc v) refl
          ∙ ap (λ k. some (value k)) (omega arith),
      omega arith,
      omega (arith, below),
      rounded_lem len block_size (suc v) (omega (arith, below)),
      ap (λ k. take k (padded buf len v)) n
          ∙ take-length_append (take len buf) (replicate (suc v) v ++ drop (suc v) (drop len buf)),
      omega (
        arith,
        length_three (take len buf) (replicate (suc v) v) (drop (suc v) (drop len buf)),
        length-take len buf,
        length-replicate (suc v) v,
        length-drop (suc v) (drop len buf),
        length-drop len buf,
        room,
        below,
      ),
    )

pub padded_parts :
    (buf pre old rest : List ℕ) (len v : ℕ)
    → buf ≡ pre ++ (old ++ rest)
    → len ≡ length pre
    → length old ≡ suc v
    → padded buf len v ≡ pre ++ (replicate (suc v) v ++ rest)
padded_parts buf pre old rest len v b l o =
    let dropped : drop (suc v) (old ++ rest) ≡ rest =
      ap (λ k. drop k (old ++ rest)) (sym o) ∙ drop-length_append old rest in
    rw (b, l, take-length_append pre (old ++ rest), drop-length_append pre (old ++ rest))
      (ap (λ r. pre ++ (replicate (suc v) v ++ r)) dropped)
