-- ===== src/Prelude/Codes.antt =====
-- Return values of kernel functions.
use Prim.Native.Nat.{ℕ, zero, suc}
use mathlib.Core.Path.{◌≡◌, refl}
use mathlib.Core.Bool.{Bool, true, false}
use cryptodev_linux.Prelude.Tests.{if◌then◌else◌}
use mathlib.Core.Option.{Option, none, some}

-- The error numbers that the driver names; `other n` is any other that the crypto API returns.
pub data Errno : Type 0 where
  einval enomem efault ebusy enoent ebadmsg einprogress enosys : Errno
  other : ℕ → Errno

-- An `int` result: `value n` is the number `n`, and `fail e` is `-e`.
pub data Code : Type 0 where
  value : ℕ → Code
  fail : Errno → Code

abbrev pub success : Code
success = value 0

-- `ret != 0`.
abbrev pub is_nonzero : Code → Bool
is_nonzero (value zero) = false
is_nonzero (value (suc n)) = true
is_nonzero (fail e) = true

-- `ret < 0`.
abbrev pub is_negative : Code → Bool
is_negative (value n) = false
is_negative (fail e) = true

-- A computation that may never return (a wait that nothing ends) or that is undefined: `none`.
infixl 5 ◌>>=◌
abbrev pub ◌>>=◌ {ℓ κ} : {A : Type ℓ} {B : Type κ} → Option A → (A → Option B) → Option B
none >>= f = none
some a >>= f = f a

-- What holds of a result, if there is one.
abbrev pub Always {ℓ κ} : {A : Type ℓ} → (A → Type κ) → Option A → Type κ
Always P none = Unit
Always P (some a) = P a

pub Always-bind {ℓ κ μ} :
    {A : Type ℓ} {B : Type κ} (Q : B → Type μ) (o : Option A) (f : A → Option B)
    → ((a : A) → Always Q (f a))
    → Always Q (o >>= f)
Always-bind Q none f h = tt
Always-bind Q (some a) f h = h a

pub Always-chain {ℓ κ μ ν} :
    {A : Type ℓ} {B : Type κ} (P : A → Type μ) (Q : B → Type ν) (o : Option A) (f : A → Option B)
    → Always P o
    → ((a : A) → P a → Always Q (f a))
    → Always Q (o >>= f)
Always-chain P Q none f p h = tt
Always-chain P Q (some a) f p h = h a p

pub Always-if {ℓ κ} :
    {A : Type ℓ} (Q : A → Type κ) (b : Bool) (x y : Option A)
    → Always Q x
    → Always Q y
    → Always Q (if b then x else y)
Always-if Q true x y h g = h
Always-if Q false x y h g = g

pub Always-imp {ℓ κ μ} :
    {A : Type ℓ} (P : A → Type κ) (Q : A → Type μ) (o : Option A)
    → ((a : A) → P a → Q a)
    → Always P o
    → Always Q o
Always-imp P Q none f h = tt
Always-imp P Q (some a) f h = f a h

pub Always-option {ℓ κ μ} :
    {A : Type ℓ} {B : Type κ} (Q : B → Type μ) (o : Option A) (x : Option B) (f : A → Option B)
    → Always Q x
    → ((a : A) → Always Q (f a))
    → Always Q (elim o [ none ↦ x | some a ↦ f a ])
Always-option Q none x f h g = h
Always-option Q (some a) x f h g = g a

pub either_lem {ℓ κ} :
    {A : Type ℓ} (P : A → Type κ) (b : Bool) (x y : A) → P x → P y → P (if b then x else y)
either_lem P true x y h g = h
either_lem P false x y h g = g

-- As `Always-if`, with what the test has given.
pub Always-cases {ℓ κ} :
    {A : Type ℓ} (Q : A → Type κ) (b : Bool) (x y : Option A)
    → (b ≡ true → Always Q x)
    → (b ≡ false → Always Q y)
    → Always Q (if b then x else y)
Always-cases Q true x y h g = h refl
Always-cases Q false x y h g = g refl
