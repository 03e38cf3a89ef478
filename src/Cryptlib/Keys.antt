-- ===== src/Cryptlib/Keys.antt =====
-- The keys of a session: `cryptodev_get_cipher_keylen`, `cryptodev_get_cipher_key` and
-- `check_key_size`.
use cryptodev_linux.Prelude.{
  ℕ, ◌+◌, ◌-◌, ◌*◌, ◌/◌, ◌%◌, ◌^◌, ◌≤◌, ◌<◌, ◌≡◌, ◌≢◌, refl, sym, ap, ◌∙◌, ◌⊎◌, inl, inr, Bool,
  true, false, ◌&&◌, ◌||◌, not, Option, leb, none, some, List, [], ◌∷◌, ◌++◌, Code, fail, einval,
  efault, success, ltb, ◌==◌, if◌then◌else◌, length, take, drop, get_or, arith, Bool-cases,
  length-append, take-length_append, drop-length_append,
}
use cryptodev_linux.User.{UserSpace, user_bytes, length-user_bytes, copy_from_user}

-- `struct session_op`.
pub record SessionOp : Type 0 where
  pub cipher : ℕ
  pub mac : ℕ
  pub keylen : ℕ
  pub key : ℕ
  pub mackeylen : ℕ
  pub mackey : ℕ
  pub ses : ℕ

abbrev pub cipher_max_key_len : ℕ
cipher_max_key_len = 64

abbrev pub hmac_max_key_len : ℕ
hmac_max_key_len = 512

-- RTA_SPACE(sizeof(struct crypto_authenc_key_param)).
abbrev pub auth_header_len : ℕ
auth_header_len = 8

unfoldable pub cryptodev_get_cipher_keylen : SessionOp → Bool → Code × ℕ
cryptodev_get_cipher_keylen sop aead =
    if ltb cipher_max_key_len sop.keylen
    then (fail einval, 0)
    else if aead && not (sop.mackeylen == 0)
    then (if ltb hmac_max_key_len sop.mackeylen
        then (fail einval, 0)
        else (success, sop.keylen + sop.mackeylen + auth_header_len))
    else (success, sop.keylen)

-- cpu_to_be32
abbrev pub be32 : ℕ → List ℕ
be32 n = (n / 2 ^ 24 % 256) ∷ (n / 2 ^ 16 % 256) ∷ (n / 2 ^ 8 % 256) ∷ (n % 256) ∷ []

-- The header in front of the keys, on a little-endian machine: rta_len, rta_type
-- (CRYPTO_AUTHENC_KEYA_PARAM, 1) and enckeylen.
abbrev pub auth_header : ℕ → List ℕ
auth_header keylen = 8 ∷ 0 ∷ 1 ∷ 0 ∷ be32 keylen

-- The result with the bytes written at `key`.
unfoldable pub append_cipher_key : UserSpace → SessionOp → List ℕ → Code × List ℕ
append_cipher_key u sop before = elim (copy_from_user u sop.key sop.keylen) [
  | none ↦ (fail efault, before)
  | some bytes ↦ (success, before ++ bytes)
]

unfoldable pub cryptodev_get_cipher_key : UserSpace → SessionOp → Bool → Code × List ℕ
unfolding append_cipher_key
cryptodev_get_cipher_key u sop aead =
    if aead && not (sop.mackeylen == 0)
    then elim (copy_from_user u sop.mackey sop.mackeylen) [
      | none ↦ (fail efault, auth_header sop.keylen)
      | some bytes ↦ append_cipher_key u sop (auth_header sop.keylen ++ bytes)
    ]
    else append_cipher_key u sop []

unfoldable pub check_key_size : ℕ → ℕ → ℕ → Code
check_key_size keylen min_keysize max_keysize =
    if ltb 0 max_keysize && (ltb keylen min_keysize || ltb max_keysize keylen)
    then fail einval
    else success

-- The size of the buffer for the keys in `crypto_create_session`.
abbrev pub key_space : ℕ
key_space = cipher_max_key_len + hmac_max_key_len + auth_header_len

copied :
    (u : UserSpace) (addr n : ℕ)
    → (copy_from_user u addr n ≡ none)
      ⊎ ((copy_from_user u addr n ≡ some (user_bytes u addr n))
          × (length (user_bytes u addr n) ≡ n))
unfolding copy_from_user
copied u addr n = elim (Bool-cases (n == 0 || u.readable addr n)) [
  | inl h ↦ rw h (inr (refl, length-user_bytes u addr n))
  | inr h ↦ rw h (inl refl)
]

-- The two keys behind a header of auth_header_len bytes: the authentication key, the cipher key.
abbrev pub split_rest : List ℕ → List ℕ × List ℕ
split_rest key =
    let enckeylen =
      get_or key 4 0 * 2 ^ 24 + get_or key 5 0 * 2 ^ 16 + get_or key 6 0 * 2 ^ 8 + get_or key 7 0 in
    let rest = drop auth_header_len key in
    let authkeylen = length rest - enckeylen in (take authkeylen rest, drop authkeylen rest)

-- le16
abbrev get_le16 : List ℕ → ℕ → ℕ
get_le16 bytes i = get_or bytes i 0 + get_or bytes (i + 1) 0 * 2 ^ 8

-- The documented layout of such a key, on a little-endian machine: a `struct rtattr`, whose
-- `rta_len` is its own 4 bytes with those of the parameter, and whose `rta_type` is
-- CRYPTO_AUTHENC_KEYA_PARAM; the length of the cipher key; and the two keys. `none` is a key that is
-- refused.
abbrev pub split_key : List ℕ → Option (List ℕ × List ℕ)
split_key key =
    let enckeylen =
      get_or key 4 0 * 2 ^ 24 + get_or key 5 0 * 2 ^ 16 + get_or key 6 0 * 2 ^ 8 + get_or key 7 0 in
    if get_le16 key 0 == auth_header_len
      && get_le16 key 2 == 1
      && leb (auth_header_len + enckeylen) (length key)
    then some (split_rest key)
    else none

split_rest_lem :
    (mac enc : List ℕ)
    → length enc < 2 ^ 32
    → split_rest (auth_header (length enc) ++ (mac ++ enc)) ≡ (mac, enc)
split_rest_lem mac enc h =
    let b : length enc / 2 ^ 24 % 256 * 2 ^ 24
          + length enc / 2 ^ 16 % 256 * 2 ^ 16
          + length enc / 2 ^ 8 % 256 * 2 ^ 8
          + length enc % 256
        ≡ length enc =
      omega arith in
    let n : length (mac ++ enc) - length enc ≡ length mac = omega (arith, length-append mac enc) in
    rw (b, n, take-length_append, drop-length_append)

split_key_lem :
    (mac enc : List ℕ)
    → length enc < 2 ^ 32
    → split_key (auth_header (length enc) ++ (mac ++ enc)) ≡ some (mac, enc)
split_key_lem mac enc h =
    let b : length enc / 2 ^ 24 % 256 * 2 ^ 24
          + length enc / 2 ^ 16 % 256 * 2 ^ 16
          + length enc / 2 ^ 8 % 256 * 2 ^ 8
          + length enc % 256
        ≡ length enc =
      omega arith in
    let fits : leb (8 + length enc) (length (auth_header (length enc) ++ (mac ++ enc))) ≡ true =
      ground (arith, length-append mac enc) in
    ap
      (λ k.
        if leb (8 + k) (length (auth_header (length enc) ++ (mac ++ enc)))
        then some (split_rest (auth_header (length enc) ++ (mac ++ enc)))
        else none)
      b
    ∙ ap (λ t. if t then some (split_rest (auth_header (length enc) ++ (mac ++ enc))) else none)
        fits
    ∙ ap some (split_rest_lem mac enc h)

append_cipher_key_lem :
    (u : UserSpace) (sop : SessionOp) (before key : List ℕ)
    → append_cipher_key u sop before ≡ (success, key)
    → (key ≡ before ++ user_bytes u sop.key sop.keylen) × (length key ≡ length before + sop.keylen)
unfolding append_cipher_key
append_cipher_key_lem u sop before key e = elim (copied u sop.key sop.keylen) [
  | inl c ↦ absurd (ground arith)
  | inr (c, l) ↦
      let q : key ≡ before ++ user_bytes u sop.key sop.keylen = ground arith in
      (q, ap length q ∙ length-append before _ ∙ ap (λ k. length before + k) l)
]

-- The key of a composite cipher: what is copied, behind the header.
composite_key :
    (u : UserSpace) (sop : SessionOp) (key : List ℕ)
    → sop.mackeylen ≢ 0
    → cryptodev_get_cipher_key u sop true ≡ (success, key)
    → append_cipher_key u sop (auth_header sop.keylen ++ user_bytes u sop.mackey sop.mackeylen)
      ≡ (success, key)
unfolding cryptodev_get_cipher_key
composite_key u sop key ne e = elim (copied u sop.mackey sop.mackeylen) [
  | inl c ↦ absurd (ground arith)
  | inr (c, l) ↦ ground arith
]

simple_key :
    (u : UserSpace) (sop : SessionOp) (aead : Bool) (key : List ℕ)
    → (aead && not (sop.mackeylen == 0)) ≡ false
    → cryptodev_get_cipher_key u sop aead ≡ (success, key)
    → append_cipher_key u sop [] ≡ (success, key)
unfolding cryptodev_get_cipher_key
simple_key u sop aead key t e = rw t at e

-- If both calls succeed, what `cryptodev_get_cipher_key` puts together has the length that
-- `cryptodev_get_cipher_keylen` gave for it, and fits the buffer on the stack.
pub length-cryptodev_get_cipher_key :
    (u : UserSpace) (sop : SessionOp) (aead : Bool) (n : ℕ) (key : List ℕ)
    → cryptodev_get_cipher_keylen sop aead ≡ (success, n)
    → cryptodev_get_cipher_key u sop aead ≡ (success, key)
    → (length key ≡ n) × (n ≤ key_space)
unfolding cryptodev_get_cipher_keylen
length-cryptodev_get_cipher_key u sop false n key e f =
    ground (arith, append_cipher_key_lem u sop [] key (simple_key u sop false key refl f))
length-cryptodev_get_cipher_key u sop true n key e f = elim (Bool-cases (sop.mackeylen == 0)) [
  | inl z ↦ ground (arith, append_cipher_key_lem u sop [] key (simple_key u sop true key (rw z) f))
  | inr z ↦ ground (
    arith,
    length-user_bytes u sop.mackey sop.mackeylen,
    append_cipher_key_lem u sop _ key (composite_key u sop key (ground arith) f),
  )
]

-- For a composite cipher with a MAC key, if both calls succeed, the key that
-- `cryptodev_get_cipher_key` puts together has the documented layout on a little-endian machine:
-- with the length and the type of the attribute that the header must have, and with the two keys of
-- the user, taken apart by the length that it states.
pub split_key-cryptodev_get_cipher_key :
    (u : UserSpace) (sop : SessionOp) (n : ℕ) (key : List ℕ)
    → sop.mackeylen ≢ 0
    → cryptodev_get_cipher_keylen sop true ≡ (success, n)
    → cryptodev_get_cipher_key u sop true ≡ (success, key)
    → split_key key ≡ some (user_bytes u sop.mackey sop.mackeylen, user_bytes u sop.key sop.keylen)
unfolding cryptodev_get_cipher_keylen
split_key-cryptodev_get_cipher_key u sop n key ne e f =
    let enc = user_bytes u sop.key sop.keylen in
    let mac = user_bytes u sop.mackey sop.mackeylen in
    let l : length enc ≡ sop.keylen = length-user_bytes u sop.key sop.keylen in
    let small : sop.keylen < 2 ^ 32 = ground arith in
    let q = (append_cipher_key_lem u sop _ key (composite_key u sop key ne f)).0 in
    ap split_key q
    ∙ ap (λ k. split_key (auth_header k ++ (mac ++ enc))) (sym l)
    ∙ split_key_lem mac enc (omega arith)
