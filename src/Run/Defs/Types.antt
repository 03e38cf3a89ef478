-- ===== src/Run/Defs/Types.antt =====
-- The argument of CIOCCRYPT and its flags (crypto/cryptodev.h, cryptodev_int.h).
use cryptodev_linux.Prelude.{ℕ, List}

-- `struct crypt_op`; the pointers are addresses.
pub record CryptOp : Type 0 where
  pub ses : ℕ
  pub op : ℕ
  pub flags : ℕ
  pub len : ℕ
  pub src : ℕ
  pub dst : ℕ
  pub mac : ℕ
  pub iv : ℕ

-- `struct kernel_crypt_op`.
pub record KernelCryptOp : Type 0 where
  pub cop : CryptOp
  pub ivlen : ℕ
  pub iv : List ℕ
  pub digestsize : ℕ
  pub hash_output : List ℕ

abbrev pub cop_encrypt : ℕ
cop_encrypt = 0

abbrev pub cop_decrypt : ℕ
cop_decrypt = 1

-- The bits of `flags`: COP_FLAG_UPDATE and so on.
abbrev pub flag_update : ℕ
flag_update = 0

abbrev pub flag_final : ℕ
flag_final = 1

abbrev pub flag_write_iv : ℕ
flag_write_iv = 2

abbrev pub flag_no_zc : ℕ
flag_no_zc = 3

abbrev pub flag_tls : ℕ
flag_tls = 4

abbrev pub flag_srtp : ℕ
flag_srtp = 5

abbrev pub flag_reset : ℕ
flag_reset = 6
