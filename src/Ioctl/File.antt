-- ===== src/Ioctl/File.antt =====
-- An open file, and the requests on it (ioctl.c, crypto/cryptodev.h).
use cryptodev_linux.Prelude.{
  ℕ, ◌+◌, ◌-◌, Bool, Option, none, some, List, replicate, Code, is_negative, if◌then◌else◌,
  test_bit,
}
use cryptodev_linux.User.{UserSpace}
use cryptodev_linux.Zc.Defs.{Paging}
use cryptodev_linux.Cryptlib.Api.{CryptoApi}
use cryptodev_linux.Cryptlib.Keys.{SessionOp}
use cryptodev_linux.Session.Defs.{Session, Memory}
use cryptodev_linux.Run.Defs.{CryptOp, KernelCryptOp, flag_no_zc}
use cryptodev_linux.Authenc.Defs.{CryptAuthOp}
use cryptodev_linux.Authenc.Request.{KernelCryptAuthOp}
use cryptodev_linux.Queue.Defs.{Priv}
use cryptodev_linux.Ioctl.Compat.{CompatSessionOp, CompatCryptOp}
use cryptodev_linux.Ioctl.Info.{SessionInfoOp}

-- `struct cphash_op`.
pub record CphashOp : Type 0 where
  pub dst_ses : ℕ
  pub src_ses : ℕ

-- The commands, with what the copy of the argument from the user gives, if there is one.
pub data Request : Type 0 where
  ciocasymfeat criogetfd ciocasyncfetch : Request
  ciocgsession : Option SessionOp → Request
  ciocfsession : Option ℕ → Request
  ciocgsessinfo : Option SessionInfoOp → Request
  cioccphash : Option CphashOp → Request
  cioccrypt : Option CryptOp → Request
  ciocauthcrypt : Option CryptAuthOp → Request
  ciocasynccrypt : Option CryptOp → Request
  other_command : ℕ → Request

-- The commands of a 32-bit program.
pub data CompatRequest : Type 0 where
  passed_on : Request → CompatRequest
  compat_ciocgsession : Option CompatSessionOp → CompatRequest
  compat_cioccrypt : Option CompatCryptOp → CompatRequest
  compat_ciocasynccrypt : Option CompatCryptOp → CompatRequest
  compat_ciocasyncfetch : CompatRequest

-- What is written to the argument.
pub data Output : Type 0 where
  nothing : Output
  integer : Code → Output
  session : SessionOp → Output
  info : SessionInfoOp → Output
  crypt : CryptOp → Output
  auth_crypt : CryptAuthOp → Output
  compat_session : CompatSessionOp → Output
  compat_crypt : CompatCryptOp → Output

abbrev pub output_of {ℓ} : {A : Type ℓ} → (A → Output) → Option A → Output
output_of f none = nothing
output_of f (some a) = f a

-- An open file: `struct crypt_priv`, the number of kernel objects of its sessions, the place in the
-- random numbers, the memory of the process, and the references to the file.
pub record File (api : CryptoApi) : Type 0 where
  pub pcr : Priv KernelCryptOp (List (Session api))
  pub live : ℕ
  pub drawn : ℕ
  pub space : UserSpace
  pub refs : ℕ

-- What a call finds in the kernel: which allocations and copies succeed, what the stack holds, the
-- random numbers with a bound on the draws, and the descriptor that `get_unused_fd_flags` gives.
-- `arg_ok` is the copy of the argument back to the user; `uncopied` is what that copy returns for
-- CIOCGSESSINFO, the number of bytes not copied.
pub record Kernel : Type 0 where
  pub paging : Paging
  pub memory : Memory
  pub page_ok : Bool
  pub item_ok : Bool
  pub arg_ok : Bool
  pub uncopied : ℕ
  pub junk : Code
  pub stack : List ℕ
  pub kcop : KernelCryptOp
  pub kcaop : KernelCryptAuthOp
  pub random : ℕ → ℕ
  pub draws : ℕ
  pub fd : Code

-- COP_FLAG_NO_ZC of a job.
abbrev pub no_zc : KernelCryptOp → Bool
no_zc kcop = test_bit flag_no_zc kcop.cop.flags

-- `clonefd`: the descriptor, and the references to the file.
unfoldable pub clonefd : Code → ℕ → Code × ℕ
clonefd fd refs = (fd, if is_negative fd then refs else refs + 1)

-- `sys_close` of that descriptor.
abbrev pub sys_close : Code → ℕ → ℕ
sys_close fd refs = if is_negative fd then refs else refs - 1

-- What `kzalloc` gives for the job of an item.
abbrev pub zeroed_kcop : KernelCryptOp
zeroed_kcop = record {
  cop = record { ses = 0; op = 0; flags = 0; len = 0; src = 0; dst = 0; mac = 0; iv = 0 };
  ivlen = 0;
  iv = replicate 16 0;
  digestsize = 0;
  hash_output = replicate 64 0;
}
