-- ===== src/Threshold/Results.antt =====
-- What a test of the library returns (lib/hash.c).
use cryptodev_linux.Prelude.{
  ℕ, suc, ◌≡◌, refl, ◌⊎◌, inl, inr, Bool, true, false, Option, none, some, List, [], ◌∷◌, ◌++◌,
  length, Code, value, if◌then◌else◌, Bool-cases, ◌+◌, arith, ap, ◌∙◌,
}
use cryptodev_linux.Threshold.Defs.{
  Doubles, Timeval, Clock, Round, Device, Call, End, finish, minus_one, start_benchmark, elapsed,
  stop_benchmark, counted, rate, user_rate, compare_rates, hash_round, each_size, sizes,
  finish_test, opened, Context, ctx_init, or_later, hash_test,
}

-- A benchmark whose system calls succeed, with the times they give.
pub record Timed (c : Clock) : Type 0 where
  pub from : Timeval
  pub until : Timeval
  pub begins : c.begins ≡ some from
  pub timer_ok : c.timer_ok ≡ true
  pub ends : c.ends ≡ some until

pub record BothTimed (r : Round) : Type 0 where
  pub device : Timed (r.device_clock)
  pub user : Timed (r.user_clock)

start_lem : (c : Clock) (t : Timed c) → start_benchmark c ≡ some t.from
unfolding start_benchmark
start_lem c t = simp (t.begins, t.timer_ok)

stop_lem : (c : Clock) (t : Timed c) → stop_benchmark c t.from ≡ some (elapsed t.from t.until)
unfolding stop_benchmark
stop_lem c t = simp (t.ends)

-- No size of a list is one at which `faster` holds, the first in the round `i`.
abbrev pub Slower : (ℕ → ℕ → Bool) → ℕ → List ℕ → Type 0
Slower faster i [] = Unit
Slower faster i (size ∷ later) = (faster i size ≡ false) × Slower faster (suc i) later

-- The first size at which `faster` holds, or -1.
abbrev pub IsThreshold : (ℕ → ℕ → Bool) → ℕ → List ℕ → Code → Type 0
IsThreshold faster i all code =
    ((before : List ℕ) × (size : ℕ) × (later : List ℕ) × (all ≡ before ++ (size ∷ later))
      × Slower faster i before
      × (faster (i + length before) size ≡ true)
      × (code ≡ value size))
    ⊎ (Slower faster i all × (code ≡ minus_one))

-- The body of a loop that ends as soon as `faster` holds.
abbrev Decides : (ℕ → ℕ → Bool) → (ℕ → ℕ → Option End × List Call) → Type 0
Decides faster body =
    (i size : ℕ) → (body i size).0 ≡ (if faster i size then some (finish (value size)) else none)

cons_lem :
    (faster : ℕ → ℕ → Bool) (i size : ℕ) (later : List ℕ) (code : Code)
    → faster i size ≡ false
    → IsThreshold faster (suc i) later code
    → IsThreshold faster i (size ∷ later) code
cons_lem faster i size later code misses (inr h) = inr ((misses, h.0), h.1)
cons_lem faster i size later code misses (inl (before, s, rest, e, slow, hits, c)) = inl (
  size ∷ before,
  s,
  rest,
  ap (λ k. size ∷ k) e,
  (misses, slow),
  ap (λ k. faster k s) (omega (arith)) ∙ hits,
  c,
)

or_later_finishes :
    (step : Option End × List Call) (later : End × List Call) (hits : Bool) (code code2 : Code)
    → step.0 ≡ (if hits then some (finish code) else none)
    → later.0 ≡ finish code2
    → (or_later step later).0 ≡ (if hits then finish code else finish code2)
or_later_finishes (none, calls) later true code code2 e l = cc
or_later_finishes (none, calls) later false code code2 e l = l
or_later_finishes (some x, calls) later true code code2 e l = cc
or_later_finishes (some x, calls) later false code code2 e l = cc

each_size_lem :
    (faster : ℕ → ℕ → Bool) (body : ℕ → ℕ → Option End × List Call) (i : ℕ) (all : List ℕ)
    → Decides faster body
    → (code : Code) × ((each_size body i all).0 ≡ finish code) × IsThreshold faster i all code
unfolding each_size
each_size_lem faster body i [] dec = (minus_one, refl, inr (tt, refl))
each_size_lem faster body i (size ∷ later) dec =
    let rest = each_size_lem faster body (suc i) later dec in
    let step =
      or_later_finishes (body i size) (each_size body (suc i) later) (faster i size) (value size)
        rest.0 (dec i size) rest.1 in
    elim (Bool-cases (faster i size)) [
      | inl hits ↦ (
        value size,
        step ∙ ap (λ b. if b then finish (value size) else finish rest.0) hits,
        inl ([], size, later, refl, tt, ap (λ k. faster k size) (omega arith) ∙ hits, refl),
      )
      | inr misses ↦ (
        rest.0,
        step ∙ ap (λ b. if b then finish (value size) else finish rest.0) misses,
        cons_lem faster i size later rest.0 misses rest.2,
      )
    ]

module _ (doubles : Doubles) where
  -- More bytes per millisecond of a round are counted for the device than for the program: those of
  -- every operation, of one that the device refuses as well.
  unfoldable pub outpaces : (r : Round) → BothTimed r → ℕ → Bool
  outpaces r t size =
      doubles.greater
        (doubles.divide (doubles.convert (counted size (suc (length r.more))))
          (doubles.convert (elapsed t.device.from t.device.until)))
        (doubles.divide (doubles.convert (counted size (suc r.user_more)))
          (doubles.convert (elapsed t.user.from t.user.until)))

  compare_lem :
      (r : Round) (t : BothTimed r) (size : ℕ)
      → compare_rates doubles r size
          (rate doubles r.device_clock t.device.from (counted size (suc (length r.more))))
        ≡ (if outpaces r t size then some (finish (value size)) else none)
  unfolding compare_rates rate user_rate outpaces
  compare_lem r t size =
      rw (compare_rates, stop_lem r.device_clock t.device)
        (rw (user_rate, start_lem r.user_clock t.user) (rw (stop_lem r.user_clock t.user) refl))

  hash_round_lem :
      (ctx : Context) (r : Round) (t : BothTimed r) (size : ℕ)
      → (hash_round doubles ctx r size).0
        ≡ (if outpaces r t size then some (finish (value size)) else none)
  unfolding hash_round
  hash_round_lem ctx r t size =
      rw (hash_round, start_lem r.device_clock t.device) (compare_lem r t size)

  -- With an open device, benchmarks whose system calls succeed and a `close` that succeeds,
  -- `hash_test` returns the first size for which it counts more bytes per millisecond for the
  -- device than for the program, and -1 if there is none among the sizes. It counts the bytes of
  -- each operation that it has asked for, also if the device has refused it: what the operations
  -- return makes no difference, so that the size need not be one that the device can handle.
  pub hash_test-IsThreshold :
      (d : Device) (rounds : ℕ → Round) (algo fd : ℕ)
      → d.fd ≡ some fd
      → d.close_ok ≡ true
      → (timed : (i : ℕ) → BothTimed (rounds i))
      → IsThreshold (λ i. outpaces (rounds i) (timed i)) 0 sizes (hash_test doubles d rounds algo).0
  unfolding hash_test opened finish_test
  hash_test-IsThreshold d rounds algo fd opens closes timed =
      let ctx = (ctx_init d 0 algo [] fd).1 in
      let loop =
        each_size_lem (λ i. outpaces (rounds i) (timed i)) (λ i. hash_round doubles ctx (rounds i))
          0 sizes (λ i size. hash_round_lem ctx (rounds i) (timed i) size) in
      let ret : (hash_test doubles d rounds algo).0 ≡ loop.0 =
        simp (opened, opens, loop.1, closes) in
      rw ret loop.2
