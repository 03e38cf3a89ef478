-- ===== src/Authenc/Length.antt =====
-- The length of the output buffer (authenc.c).
use cryptodev_linux.Prelude.{
  ℕ, ◌+◌, ◌-◌, ◌%◌, ◌^◌, ltb, ap, ◌≤◌, ◌<◌, ◌≡◌, true, false, some, ◌==◌, test_bit, arith,
}
use native.Mathlib.Nat.{mod-lt}
use cryptodev_linux.Cryptlib.Api.{CryptoApi}
use cryptodev_linux.Session.Defs.{Session}
use cryptodev_linux.Run.Defs.{cop_encrypt, flag_tls}
use cryptodev_linux.Authenc.Pad.{rounded_lem}
use cryptodev_linux.Authenc.Defs.{CryptAuthOp, cryptodev_get_dst_len}

module _ (api : CryptoApi) where
  -- For a TLS encryption and a cipher with blocks, if the lengths of the data, the tag and a block
  -- are together below 2 ^ 31, `cryptodev_get_dst_len` is the least multiple of the block size that
  -- leaves room for the data, the tag and at least one byte of padding.
  pub cryptodev_get_dst_len_rounds :
      (caop : CryptAuthOp) (ses : Session api)
      → caop.op ≡ cop_encrypt
      → test_bit flag_tls caop.flags ≡ true
      → 0 < ses.cdata.blocksize
      → caop.len + caop.tag_len + ses.cdata.blocksize < 2 ^ 31
      → (dst_len : ℕ) × (cryptodev_get_dst_len api caop ses ≡ some dst_len)
        × (dst_len % ses.cdata.blocksize ≡ 0)
        × (caop.len + caop.tag_len < dst_len)
        × (dst_len ≤ caop.len + caop.tag_len + ses.cdata.blocksize)
  unfolding cryptodev_get_dst_len
  cryptodev_get_dst_len_rounds caop ses enc tls p small =
      let n = caop.len + caop.tag_len in
      let bs = ses.cdata.blocksize in
      let below : n % bs < bs = mod-lt n p in
      let z : (bs == 0) ≡ false = ground arith in
      let word : n % 2 ^ 32 ≡ n = omega (arith, small) in
      let signed : ltb n (2 ^ 31) ≡ true = ground (arith, small) in
      let whole : (n + (bs - n % bs)) % 2 ^ 32 ≡ n + (bs - n % bs) = omega (arith, small, below) in
      let op : (caop.op == 1) ≡ false = ground arith in
      (
        n + (bs - n % bs),
        simp (op, tls, z, word, signed) (ap some whole),
        rounded_lem n bs (bs - n % bs) (omega (arith, below)),
        omega (arith, below),
        omega (arith, below),
      )
