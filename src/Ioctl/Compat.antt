-- ===== src/Ioctl/Compat.antt =====
-- The arguments of 32-bit programs (ioctl.c, cryptodev_int.h).
use cryptodev_linux.Prelude.{ℕ, ◌%◌, ◌^◌, ◌<◌, ◌≡◌, refl, arith}
use cryptodev_linux.Cryptlib.Keys.{SessionOp}
use cryptodev_linux.Run.Defs.{CryptOp}

-- `struct compat_session_op` and `struct compat_crypt_op`; the pointers have 32 bits.
pub record CompatSessionOp : Type 0 where
  pub cipher : ℕ
  pub mac : ℕ
  pub keylen : ℕ
  pub key : ℕ
  pub mackeylen : ℕ
  pub mackey : ℕ
  pub ses : ℕ

pub record CompatCryptOp : Type 0 where
  pub ses : ℕ
  pub op : ℕ
  pub flags : ℕ
  pub len : ℕ
  pub src : ℕ
  pub dst : ℕ
  pub mac : ℕ
  pub iv : ℕ

-- The kernel's `compat_ptr` and `ptr_to_compat`: a 32-bit pointer as an address, and the low 32 bits.
abbrev pub compat_ptr : ℕ → ℕ
compat_ptr uptr = uptr

abbrev pub ptr_to_compat : ℕ → ℕ
ptr_to_compat ptr = ptr % 2 ^ 32

unfoldable pub compat_to_session_op : CompatSessionOp → SessionOp
compat_to_session_op compat = record {
  cipher = compat.cipher;
  mac = compat.mac;
  keylen = compat.keylen;
  key = compat_ptr compat.key;
  mackeylen = compat.mackeylen;
  mackey = compat_ptr compat.mackey;
  ses = compat.ses;
}

unfoldable pub session_op_to_compat : SessionOp → CompatSessionOp
session_op_to_compat sop = record {
  cipher = sop.cipher;
  mac = sop.mac;
  keylen = sop.keylen;
  key = ptr_to_compat sop.key;
  mackeylen = sop.mackeylen;
  mackey = ptr_to_compat sop.mackey;
  ses = sop.ses;
}

unfoldable pub compat_to_crypt_op : CompatCryptOp → CryptOp
compat_to_crypt_op compat = record {
  ses = compat.ses;
  op = compat.op;
  flags = compat.flags;
  len = compat.len;
  src = compat_ptr compat.src;
  dst = compat_ptr compat.dst;
  mac = compat_ptr compat.mac;
  iv = compat_ptr compat.iv;
}

unfoldable pub crypt_op_to_compat : CryptOp → CompatCryptOp
crypt_op_to_compat cop = record {
  ses = cop.ses;
  op = cop.op;
  flags = cop.flags;
  len = cop.len;
  src = ptr_to_compat cop.src;
  dst = ptr_to_compat cop.dst;
  mac = ptr_to_compat cop.mac;
  iv = ptr_to_compat cop.iv;
}

small_lem : (a : ℕ) → a < 2 ^ 32 → a % 2 ^ 32 ≡ a
small_lem a h = omega (arith, h)

-- An argument of a 32-bit program, CIOCGSESSION's or CIOCCRYPT's, whose pointers have 32 bits, comes
-- back as it was when it is converted and converted back.
pub compat_round_trip :
    (s : CompatSessionOp) (c : CompatCryptOp)
    → (s.key < 2 ^ 32) × (s.mackey < 2 ^ 32)
    → (c.src < 2 ^ 32) × (c.dst < 2 ^ 32) × (c.mac < 2 ^ 32) × (c.iv < 2 ^ 32)
    → (session_op_to_compat (compat_to_session_op s) ≡ s)
      × (crypt_op_to_compat (compat_to_crypt_op c) ≡ c)
unfolding compat_to_session_op session_op_to_compat compat_to_crypt_op crypt_op_to_compat
compat_round_trip s c p q = (
  rw (small_lem s.key p.0, small_lem s.mackey p.1) refl,
  rw (small_lem c.src q.0, small_lem c.dst q.1, small_lem c.mac q.2, small_lem c.iv q.3) refl,
)
