-- ===== src/Tests/Thresholds.antt =====
-- Runs of the library's measurements, with fractions for doubles.
use cryptodev_linux.Prelude.{
  ℕ, ◌*◌, ◌≡◌, refl, true, false, some, [], ◌∷◌, value, ltb, ◌==◌, if◌then◌else◌,
}
use cryptodev_linux.Threshold.Defs.{
  Doubles, Clock, Round, Device, sizes, ctx_init, hash_test, aead_test, get_sha1_threshold,
  get_aes_sha1_threshold, opened, finish_test, each_size, hash_round, aead_round, aead_started,
  aead_loop, start_benchmark, stop_benchmark, compare_rates, rate, user_rate, elapsed,
}
use cryptodev_linux.Threshold.Results.{
  Timed, BothTimed, IsThreshold, outpaces, hash_test-IsThreshold,
}
use cryptodev_linux.Threshold.Calls.{Fails, IsLeft, aead_test-IsLeft}

record Fraction : Type 0 where
  over : ℕ
  under : ℕ

abbrev fractions : Doubles
fractions = record {
  Double = Fraction;
  convert = λ n. record { over = n; under = 1 };
  divide = λ a b. record { over = a.over * b.under; under = a.under * b.over };
  greater = λ a b. ltb (b.over * a.under) (a.over * b.under);
}

abbrev tenth : Clock
tenth = record {
  begins = some (record { tv_sec = 3; tv_usec = 950000 });
  timer_ok = true;
  ends = some (record { tv_sec = 4; tv_usec = 50000 });
}

abbrev tenth_timed : Timed tenth
tenth_timed = record {
  from = record { tv_sec = 3; tv_usec = 950000 };
  until = record { tv_sec = 4; tv_usec = 50000 };
  begins = refl;
  timer_ok = refl;
  ends = refl;
}

-- The device does two operations where the program does three, but four from the third round on.
abbrev round : ℕ → Round
round i = record {
  device_clock = tenth;
  first = true;
  more = if ltb i 2 then true ∷ [] else true ∷ true ∷ true ∷ [];
  user_clock = tenth;
  user_more = 2;
}

-- The same, but the device fails in the second round.
abbrev failing_round : ℕ → Round
failing_round i = record (round i) { first = if i == 1 then false else true }

abbrev device : Device
device = record { fd = some 5; ses = some 77; alignmask = some 15; close_ok = true }

abbrev both_timed : (i : ℕ) → BothTimed (round i)
both_timed i = record { device = tenth_timed; user = tenth_timed }

hash_test_example :
    IsThreshold
      (λ i. outpaces fractions (round i) (both_timed i))
      0
      sizes
      (hash_test fractions device round 14).0
hash_test_example = hash_test-IsThreshold fractions device round 14 5 refl refl both_timed

aead_test_example :
    IsLeft
      ((i : ℕ) × Fails ((failing_round i).first ∷ (failing_round i).more))
      (ctx_init device 11 14 (1 ∷ []) 5).1.ses
      5
      (aead_test fractions device failing_round 11 14 (1 ∷ []))
aead_test_example = aead_test-IsLeft fractions device failing_round 11 14 5 (1 ∷ []) refl

get_sha1_threshold_test : (get_sha1_threshold fractions device round).0 ≡ value 512
unfolding get_sha1_threshold hash_test opened finish_test each_size hash_round start_benchmark
    compare_rates rate stop_benchmark user_rate elapsed
get_sha1_threshold_test = refl

get_aes_sha1_threshold_test : (get_aes_sha1_threshold fractions device round).0 ≡ value 512
unfolding get_aes_sha1_threshold aead_test opened finish_test each_size aead_round aead_started
    start_benchmark aead_loop compare_rates rate stop_benchmark user_rate elapsed
get_aes_sha1_threshold_test = refl
