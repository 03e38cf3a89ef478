-- ===== src/Threshold/Defs.antt =====
-- The measurements of the library (lib/benchmark.c, lib/hash.c, lib/combo.c, lib/threshold.c).
--
-- A double is a parameter, with the conversion, the division and the comparison that the code uses.
-- What the system calls give is an argument: a clock for each benchmark, and the result of each
-- operation that is run before the alarm. A test returns its result and the calls of the device.
use cryptodev_linux.Prelude.{
  ℕ, suc, ◌+◌, ◌-◌, ◌*◌, ◌/◌, ◌%◌, ◌^◌, Bool, true, false, Option, none, some, List, [], ◌∷◌, ◌++◌,
  length, replicate, Code, value, fail, other, success, if◌then◌else◌, ◌>>=◌,
}

-- Arithmetic on `double`.
pub record Doubles : Type 1 where
  pub Double : Type 0
  pub convert : ℕ → Double
  pub divide : Double → Double → Double
  pub greater : Double → Double → Bool

pub record Timeval : Type 0 where
  pub tv_sec : ℕ
  pub tv_usec : ℕ

-- What a benchmark finds: `gettimeofday` at its start, `setitimer`, and `gettimeofday` at its end.
pub record Clock : Type 0 where
  pub begins : Option Timeval
  pub timer_ok : Bool
  pub ends : Option Timeval

-- One size: the results of the device before the alarm, `first` and `more`, and the number of
-- operations of the program that follow its first.
pub record Round : Type 0 where
  pub device_clock : Clock
  pub first : Bool
  pub more : List Bool
  pub user_clock : Clock
  pub user_more : ℕ

-- What the device answers to `open`, CIOCGSESSION, CIOCGSESSINFO and `close`.
pub record Device : Type 0 where
  pub fd : Option ℕ
  pub ses : Option ℕ
  pub alignmask : Option ℕ
  pub close_ok : Bool

-- The system calls on the device.
pub data Call : Type 0 where
  open_device : Call
  get_session : (cipher mac : ℕ) → List ℕ → Call
  get_info : ℕ → Call
  crypt : (ses size : ℕ) → Call
  auth_crypt : (ses size iv_len flags : ℕ) → Call
  finish_session : ℕ → Call
  close_file : ℕ → Call

-- `struct cryptodev_ctx`, of whose session only the number is read after the start.
pub record Context : Type 0 where
  pub cfd : ℕ
  pub ses : ℕ
  pub alignmask : ℕ

-- How a test ends: by `goto finish`, or at once.
pub data End : Type 0 where
  finish leave : Code → End

abbrev pub minus_one : Code
minus_one = fail (other 1)

abbrev pub minus_two : Code
minus_two = fail (other 2)

abbrev pub crypto_aes_cbc : ℕ
crypto_aes_cbc = 11

abbrev pub crypto_sha1 : ℕ
crypto_sha1 = 14

abbrev pub flag_tls : ℕ
flag_tls = 16

abbrev pub word : ℕ
word = 2 ^ 64

-- The start of the benchmark, or `none` for -1.
unfoldable pub start_benchmark : Clock → Option Timeval
start_benchmark c = c.begins >>= λ t. if c.timer_ok then some t else none

abbrev pub milliseconds : Timeval → ℕ
milliseconds t = t.tv_sec * 1000 + t.tv_usec / 1000

-- The milliseconds since the start, as an `unsigned long`.
unfoldable pub elapsed : Timeval → Timeval → ℕ
elapsed start stop = (milliseconds stop + (word - milliseconds start % word)) % word

unfoldable pub stop_benchmark : Clock → Timeval → Option ℕ
stop_benchmark c start = c.ends >>= λ stop. some (elapsed start stop)

-- What the answers to CIOCGSESSION and CIOCGSESSINFO make of the context.
unfoldable pub answered :
    (cipher mac : ℕ) → List ℕ → ℕ → (ses alignmask : Option ℕ) → Code × Context × List Call
answered cipher mac key cfd none mask =
    (minus_one, record { cfd = cfd; ses = 0; alignmask = 0 }, get_session cipher mac key ∷ [])
answered cipher mac key cfd (some ses) none = (
  minus_one,
  record { cfd = cfd; ses = ses; alignmask = 0 },
  get_session cipher mac key ∷ get_info ses ∷ [],
)
answered cipher mac key cfd (some ses) (some mask) = (
  success,
  record { cfd = cfd; ses = ses; alignmask = mask },
  get_session cipher mac key ∷ get_info ses ∷ [],
)

-- `hash_ctx_init` and `aead_ctx_init`.
abbrev pub ctx_init : Device → (cipher mac : ℕ) → List ℕ → ℕ → Code × Context × List Call
ctx_init d cipher mac key cfd = answered cipher mac key cfd d.ses d.alignmask

-- The bytes that `n` operations on `size` bytes count, as an `unsigned long`.
abbrev pub counted : ℕ → ℕ → ℕ
counted size n = (size * n) % word

module _ (doubles : Doubles) where
  -- From the start on: the end of the benchmark, and bytes per millisecond.
  unfoldable pub rate : Clock → Timeval → ℕ → Option doubles.Double
  rate c start bytes = stop_benchmark c start >>= λ msecs.
      some (doubles.divide (doubles.convert bytes) (doubles.convert msecs))

  -- The operations of the program.
  unfoldable pub user_rate : Round → ℕ → Option doubles.Double
  user_rate r size = start_benchmark r.user_clock >>= λ start.
      rate r.user_clock start (counted size (suc r.user_more))

  -- From the end of the device's operations on; `none` goes on with the next size.
  unfoldable pub compare_rates : Round → ℕ → Option doubles.Double → Option End
  compare_rates r size none = some (finish minus_one)
  compare_rates r size (some t1) = elim (user_rate r size) [
    | none ↦ some (finish minus_one)
    | some t2 ↦ if doubles.greater t1 t2 then some (finish (value size)) else none
  ]

  -- The body of the loop of `hash_test`, which does not look at what `hash` returns.
  unfoldable pub hash_round : Context → Round → ℕ → Option End × List Call
  hash_round ctx r size = elim (start_benchmark r.device_clock) [
    | none ↦ (some (finish minus_one), [])
    | some start ↦ (
      compare_rates r size (rate r.device_clock start (counted size (suc (length r.more)))),
      replicate (suc (length r.more)) (crypt ctx.ses size),
    )
  ]

-- `aead_encrypt`.
abbrev pub aead_encrypt : Context → ℕ → Call
aead_encrypt ctx size = auth_crypt ctx.ses size 16 flag_tls

-- `aead_encrypt` until the alarm or a failure: whether none has failed.
unfoldable pub aead_loop : Context → ℕ → List Bool → Bool × List Call
aead_loop ctx size [] = (true, [])
aead_loop ctx size (true ∷ later) =
    let rest = aead_loop ctx size later in (rest.0, aead_encrypt ctx size ∷ rest.1)
aead_loop ctx size (false ∷ later) = (false, aead_encrypt ctx size ∷ [])

module _ (doubles : Doubles) where
  -- A round of `aead_test` whose benchmark has started, or has not.
  unfoldable pub aead_started : Context → Round → ℕ → Option Timeval → Option End × List Call
  aead_started ctx r size none = (some (finish minus_one), [])
  aead_started ctx r size (some start) =
      let ran = aead_loop ctx size (r.first ∷ r.more) in
      let bytes = counted size (suc (length r.more)) in
      (
        if ran.0
            then compare_rates doubles r size (rate doubles r.device_clock start bytes)
            else some (leave minus_two),
        ran.1,
      )

  -- The body of the loop of `aead_test`.
  unfoldable pub aead_round : Context → Round → ℕ → Option End × List Call
  aead_round ctx r size = aead_started ctx r size (start_benchmark r.device_clock)

-- The end of one size, or the sizes after it.
abbrev pub or_later : Option End × List Call → End × List Call → End × List Call
or_later (none, calls) later = (later.0, calls ++ later.1)
or_later (some e, calls) later = (e, calls)

-- The loop over the sizes, from the round `i` on.
unfoldable pub each_size : (ℕ → ℕ → Option End × List Call) → ℕ → List ℕ → End × List Call
each_size body i [] = (finish minus_one, [])
each_size body i (size ∷ later) =
    let rest = each_size body (suc i) later in or_later (body i size) rest

abbrev pub sizes : List ℕ
sizes = 64 ∷ 256 ∷ 512 ∷ 1024 ∷ 4096 ∷ 16 * 1024 ∷ []

-- The label `finish`, or no clean-up at all.
unfoldable pub finish_test : Device → Context → End → Code × List Call
finish_test d ctx (finish ret) =
    (if d.close_ok then ret else value 1, finish_session ctx.ses ∷ close_file ctx.cfd ∷ [])
finish_test d ctx (leave ret) = (ret, [])

-- What both tests have in common, from `open` on: the result of `ctx_init` is not looked at.
unfoldable pub opened :
    Device
    → (cipher mac : ℕ) → List ℕ
    → (Context → ℕ → ℕ → Option End × List Call)
    → Option ℕ
    → Code × List Call
opened d cipher mac key body none = (minus_one, open_device ∷ [])
opened d cipher mac key body (some fd) =
    let init = ctx_init d cipher mac key fd in
    let loop = each_size (body init.1) 0 sizes in
    let done = finish_test d init.1 loop.0 in (done.0, (open_device ∷ (init.2 ++ loop.1)) ++ done.1)

module _ (doubles : Doubles) (d : Device) (rounds : ℕ → Round) where
  unfoldable pub hash_test : ℕ → Code × List Call
  hash_test algo = opened d 0 algo [] (λ ctx i. hash_round doubles ctx (rounds i)) d.fd

  unfoldable pub aead_test : (cipher mac : ℕ) → List ℕ → Code × List Call
  aead_test cipher mac key =
      opened d cipher mac key (λ ctx i. aead_round doubles ctx (rounds i)) d.fd

  unfoldable pub get_sha1_threshold : Code × List Call
  get_sha1_threshold = hash_test crypto_sha1

  unfoldable pub get_aes_sha1_threshold : Code × List Call
  get_aes_sha1_threshold = aead_test crypto_aes_cbc crypto_sha1 (replicate 16 175)
