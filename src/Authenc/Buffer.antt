-- ===== src/Authenc/Buffer.antt =====
-- The contents of a scatterlist, as `scatterwalk_map_and_copy` sees them, and the padding and the tag
-- of a TLS record (authenc.c). `none` is an access behind the end.
use cryptodev_linux.Prelude.{
  ℕ, zero, suc, ◌+◌, ◌-◌, ◌%◌, ◌^◌, Bool, true, false, Option, none, some, List, [], ◌∷◌, ◌++◌,
  Code, value, fail, ebadmsg, ltb, leb, ◌==◌, if◌then◌else◌, ◌>>=◌, length, take, drop, replicate,
  get_or,
}

-- `scatterwalk_map_and_copy` out of the buffer, and into it.
unfoldable pub sg_get : List ℕ → ℕ → ℕ → Option (List ℕ)
sg_get buf start nbytes =
    if leb (start + nbytes) (length buf) then some (take nbytes (drop start buf)) else none

unfoldable pub sg_put : List ℕ → ℕ → List ℕ → Option (List ℕ)
sg_put buf start bytes =
    if leb (start + length bytes) (length buf)
    then some (take start buf ++ (bytes ++ drop (start + length bytes) buf))
    else none

unfoldable pub copy_tls_hash : List ℕ → ℕ → List ℕ → ℕ → Option (List ℕ)
copy_tls_hash dst_sg len hash hash_len = sg_put dst_sg len (take hash_len hash)

unfoldable pub read_tls_hash : List ℕ → ℕ → ℕ → Option (List ℕ)
read_tls_hash dst_sg len hash_len = sg_get dst_sg (len - hash_len) hash_len

-- The size of the padding, and the buffer.
unfoldable pub pad_record : List ℕ → ℕ → ℕ → Option (ℕ × List ℕ)
pad_record dst_sg len block_size =
    let pad_size = block_size - len % block_size in
    sg_put dst_sg len (replicate pad_size ((pad_size - 1) % 2 ^ 8)) >>= λ buf. some (pad_size, buf)

-- The loop of `verify_tls_record_pad`, over the first `i` bytes of `pad`.
unfoldable pub check_pad : ℕ → ℕ → List ℕ → Bool
check_pad zero pad_size pad = true
check_pad (suc i) pad_size [] = true
check_pad (suc i) pad_size (p ∷ pad) =
    let later = check_pad i pad_size pad in if p == pad_size then later else false

-- What `verify_tls_record_pad` does once it has read the last byte, `pad_size`.
unfoldable pub verify_pad : List ℕ → ℕ → ℕ → Option Code
verify_pad dst_sg len pad_size =
    if ltb len (pad_size + 1)
    then some (fail ebadmsg)
    else sg_get dst_sg (len - pad_size - 1) (pad_size + 1) >>= λ pad.
        some (if check_pad pad_size pad_size pad then value (pad_size + 1) else fail ebadmsg)

unfoldable pub verify_tls_record_pad : List ℕ → ℕ → Option Code
verify_tls_record_pad dst_sg len =
    if len == 0
    then none
    else sg_get dst_sg (len - 1) 1 >>= λ last. verify_pad dst_sg len (get_or last 0 0)
