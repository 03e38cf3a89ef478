-- ===== src/Threshold/Calls.antt =====
-- Which calls of the device a test of the library makes (lib/combo.c).
use cryptodev_linux.Prelude.{
  ℕ, suc, ◌≡◌, refl, ◌⊎◌, inl, inr, Bool, true, false, Option, none, some, List, [], ◌∷◌, ◌++◌, sym,
  Code, value, if◌then◌else◌, length,
}
use mathlib.Core.Path.{subst}
use cryptodev_linux.Threshold.Defs.{
  Doubles, Round, Device, Call, open_device, get_session, get_info, crypt, auth_crypt,
  finish_session, close_file, Context, End, finish, leave, minus_one, minus_two, start_benchmark,
  counted, rate, compare_rates, user_rate, aead_loop, Timeval, aead_started, aead_round, or_later,
  each_size, sizes, ctx_init, answered, finish_test, opened, aead_test, start_benchmark,
}

-- Neither the session nor the file is given up.
abbrev pub is_use : Call → Bool
is_use (finish_session ses) = false
is_use (close_file fd) = false
is_use open_device = true
is_use (get_session cipher mac key) = true
is_use (get_info ses) = true
is_use (crypt ses size) = true
is_use (auth_crypt ses size iv_len flags) = true

abbrev pub Uses : List Call → Type 0
Uses [] = Unit
Uses (c ∷ later) = (is_use c ≡ true) × Uses later

Uses-append : (xs ys : List Call) → Uses xs → Uses ys → Uses (xs ++ ys)
Uses-append [] ys h g = g
Uses-append (x ∷ xs) ys h g = (h.0, Uses-append xs ys h.1 g)

-- The session and then the file are given up, last and once.
abbrev pub IsClosed : (ses fd : ℕ) → List Call → Type 0
IsClosed ses fd calls =
    (before : List Call) × (calls ≡ before ++ (finish_session ses ∷ close_file fd ∷ []))
    × Uses before

-- One of the results is a failure.
abbrev pub Fails : List Bool → Type 0
Fails [] = ⊥
Fails (true ∷ later) = Fails later
Fails (false ∷ later) = Unit

-- The loop ends at `finish`, or it leaves with -2 for a reason.
abbrev Ended : Type 0 → End → Type 0
Ended Reason (finish ret) = Unit
Ended Reason (leave ret) = (ret ≡ minus_two) × Reason

abbrev Continued : Type 0 → Option End → Type 0
Continued Reason none = Unit
Continued Reason (some e) = Ended Reason e

Continued-imp :
    (Reason Reason2 : Type 0) (step : Option End)
    → (Reason → Reason2)
    → Continued Reason step
    → Continued Reason2 step
Continued-imp Reason Reason2 none f h = tt
Continued-imp Reason Reason2 (some (finish ret)) f h = tt
Continued-imp Reason Reason2 (some (leave ret)) f h = (h.0, f h.1)

aead_loop-Fails :
    (ctx : Context) (size : ℕ) (oks : List Bool) → (aead_loop ctx size oks).0 ≡ false → Fails oks
unfolding aead_loop
aead_loop-Fails ctx size [] e = absurd cc
aead_loop-Fails ctx size (true ∷ later) e = aead_loop-Fails ctx size later e
aead_loop-Fails ctx size (false ∷ later) e = tt

unless {ℓ κ} :
    {A : Type ℓ} (P : A → Type κ) (b : Bool) (x y : A)
    → P x
    → (b ≡ false → P y)
    → P (if b then x else y)
unless P true x y h g = h
unless P false x y h g = g refl

aead_loop_lem : (ctx : Context) (size : ℕ) (oks : List Bool) → Uses (aead_loop ctx size oks).1
unfolding aead_loop
aead_loop_lem ctx size [] = tt
aead_loop_lem ctx size (true ∷ later) = (refl, aead_loop_lem ctx size later)
aead_loop_lem ctx size (false ∷ later) = (refl, tt)

or_later_lem :
    (Reason : Type 0) (step : Option End × List Call) (later : End × List Call)
    → Continued Reason step.0 × Uses step.1
    → Ended Reason later.0 × Uses later.1
    → Ended Reason (or_later step later).0 × Uses (or_later step later).1
or_later_lem Reason (none, calls) later h g = (g.0, Uses-append calls later.1 h.1 g.1)
or_later_lem Reason (some e, calls) later h g = h

each_size_lem :
    (Reason : Type 0) (body : ℕ → ℕ → Option End × List Call) (i : ℕ) (all : List ℕ)
    → ((j size : ℕ) → Continued Reason (body j size).0 × Uses (body j size).1)
    → Ended Reason (each_size body i all).0 × Uses (each_size body i all).1
unfolding each_size
each_size_lem Reason body i [] h = (tt, tt)
each_size_lem Reason body i (size ∷ later) h =
    or_later_lem Reason (body i size) (each_size body (suc i) later) (h i size)
      (each_size_lem Reason body (suc i) later h)

module _ (doubles : Doubles) where
  compare_lem :
      (Reason : Type 0) (r : Round) (size : ℕ) (t1 : Option doubles.Double)
      → Continued Reason (compare_rates doubles r size t1)
  unfolding compare_rates
  compare_lem Reason r size none = tt
  compare_lem Reason r size (some t1) =
      elim (user_rate doubles r size)
        as (λ t2. Continued Reason (elim t2 [
          | none ↦ some (finish minus_one)
          | some t2 ↦ if doubles.greater t1 t2 then some (finish (value size)) else none
        ])) [
          | none ↦ tt
          | some t2 ↦
              elim (doubles.greater t1 t2)
                as (λ b. Continued Reason (if b then some (finish (value size)) else none)) [
                  | true ↦ tt
                  | false ↦ tt
                ]
        ]

  aead_started_lem :
      (ctx : Context) (r : Round) (size : ℕ) (start : Option Timeval)
      → Continued (Fails (r.first ∷ r.more)) (aead_started doubles ctx r size start).0
        × Uses (aead_started doubles ctx r size start).1
  unfolding aead_started
  aead_started_lem ctx r size none = (tt, tt)
  aead_started_lem ctx r size (some start) =
      let oks = r.first ∷ r.more in
      let t1 = rate doubles r.device_clock start (counted size (suc (length r.more))) in
      (
        unless (Continued (Fails oks)) (aead_loop ctx size oks).0 (compare_rates doubles r size t1)
            (some (leave minus_two)) (compare_lem (Fails oks) r size t1)
            (λ e. (refl, aead_loop-Fails ctx size oks e)),
        aead_loop_lem ctx size oks,
      )

  aead_round_lem :
      (rounds : ℕ → Round) (ctx : Context) (i size : ℕ)
      → Continued
          ((j : ℕ) × Fails ((rounds j).first ∷ (rounds j).more))
          (aead_round doubles ctx (rounds i) size).0
        × Uses (aead_round doubles ctx (rounds i) size).1
  unfolding aead_round
  aead_round_lem rounds ctx i size =
      let step = aead_started_lem ctx (rounds i) size (start_benchmark (rounds i).device_clock) in
      (Continued-imp _ _ _ (λ h. (i, h)) step.0, step.1)

answered_lem :
    (cipher mac : ℕ) (key : List ℕ) (fd : ℕ) (ses mask : Option ℕ)
    → ((answered cipher mac key fd ses mask).1.cfd ≡ fd)
      × Uses (answered cipher mac key fd ses mask).2
unfolding answered
answered_lem cipher mac key fd none mask = (refl, (refl, tt))
answered_lem cipher mac key fd (some ses) none = (refl, (refl, (refl, tt)))
answered_lem cipher mac key fd (some ses) (some mask) = (refl, (refl, (refl, tt)))

-- How a test leaves the device: the session and the file given up, or -2 for a reason.
abbrev pub IsLeft : Type 0 → (ses fd : ℕ) → Code × List Call → Type 0
IsLeft Reason ses fd r = IsClosed ses fd r.1 ⊎ ((r.0 ≡ minus_two) × Reason × Uses r.1)

finish_lem :
    (Reason : Type 0) (d : Device) (ctx : Context) (e : End) (front : List Call)
    → Ended Reason e
    → Uses front
    → IsLeft Reason ctx.ses ctx.cfd ((finish_test d ctx e).0, front ++ (finish_test d ctx e).1)
unfolding finish_test
finish_lem Reason d ctx (finish ret) front e h = inl (front, refl, h)
finish_lem Reason d ctx (leave ret) front e h = inr (e.0, e.1, Uses-append front [] h tt)

opened_lem :
    (Reason : Type 0) (d : Device) (cipher mac : ℕ) (key : List ℕ)
    (body : Context → ℕ → ℕ → Option End × List Call) (fd : ℕ)
    → ((ctx : Context) (i size : ℕ)
        → Continued Reason (body ctx i size).0 × Uses (body ctx i size).1)
    → IsLeft Reason (ctx_init d cipher mac key fd).1.ses fd (opened d cipher mac key body (some fd))
unfolding opened
opened_lem Reason d cipher mac key body fd h =
    let init = ctx_init d cipher mac key fd in
    let started = answered_lem cipher mac key fd d.ses d.alignmask in
    let loop = each_size_lem Reason (body init.1) 0 sizes (h init.1) in
    subst (λ k. IsLeft Reason init.1.ses k (opened d cipher mac key body (some fd))) started.0
      (finish_lem Reason d init.1 (each_size (body init.1) 0 sizes).0
        (open_device ∷ (init.2 ++ (each_size (body init.1) 0 sizes).1)) loop.0
        (refl, Uses-append init.2 (each_size (body init.1) 0 sizes).1 started.1 loop.1))

-- If the device opens, `aead_test` ends its calls by giving up the session of its context and then
-- the file, each once. Only if an operation of the device has failed, it may return -2 and give up
-- neither. This holds whatever the system calls return.
pub aead_test-IsLeft :
    (doubles : Doubles) (d : Device) (rounds : ℕ → Round) (cipher mac fd : ℕ) (key : List ℕ)
    → d.fd ≡ some fd
    → IsLeft
        ((i : ℕ) × Fails ((rounds i).first ∷ (rounds i).more))
        (ctx_init d cipher mac key fd).1.ses
        fd
        (aead_test doubles d rounds cipher mac key)
unfolding aead_test
aead_test-IsLeft doubles d rounds cipher mac fd key opens =
    let body : Context → ℕ → ℕ → Option End × List Call =
      λ ctx i. aead_round doubles ctx (rounds i) in
    subst
      (λ k.
        IsLeft ((i : ℕ) × Fails ((rounds i).first ∷ (rounds i).more))
          (ctx_init d cipher mac key fd).1.ses fd (opened d cipher mac key body k))
      (sym opens) (opened_lem _ d cipher mac key body fd (aead_round_lem doubles rounds))
