-- ===== src/Circuit/Trip.antt =====
-- provider/circuit.go: when a closed breaker opens.
use native.Mathlib.Nat.{mul-le-mul_right, le_of_mul-le-mul_right}
use switch.Prelude.{ℕ, ◌*◌, ◌≤◌, ◌<◌, ◌≡◌, true, ◌⊎◌, arith}
use switch.Circuit.{
  Ratio, Config, reaches, CircuitBreaker, transition_to, sum_total, sum_failures, sum_slow,
  Sensitivity, sensitivity, recent_total, recent_fail, trips, should_open, evaluate, closed, opened,
}

-- A ratio from 0.4 to 0.6, as the defaults and the adaptive ones are.
pub record IsModerate (r : Ratio) : Type 0 where
  pub positive : 0 < r.den
  pub at_least : 4 * r.den ≤ 10 * r.num
  pub at_most : 10 * r.num ≤ 6 * r.den

-- A configuration whose thresholds lie between those that the adaptive sensitivity puts in.
pub record IsModerateConfig (c : Config) : Type 0 where
  pub rate : IsModerate c.failure_rate_threshold
  pub slow : IsModerate c.slow_call_rate_threshold
  pub calls_low : 3 ≤ c.min_calls_before_evaluation
  pub calls_high : c.min_calls_before_evaluation ≤ 5

-- A rate that reaches a moderate threshold is at least 0.4.
reaches_low : (a b : ℕ) (r : Ratio) → IsModerate r → reaches a b r ≡ true → 4 * b ≤ 10 * a
reaches_low a b r m h =
    le_of_mul-le-mul_right {m = 4 * b} {n = 10 * a} {k = r.den}
      (omega (arith, cross, mul-le-mul_right b m.at_least)) m.positive
  where
    cross : r.num * b ≤ a * r.den
    cross = ground arith

-- A rate of at least 0.6 reaches a moderate threshold.
reaches_high : (a b : ℕ) (r : Ratio) → IsModerate r → 0 < b → 6 * b ≤ 10 * a → reaches a b r ≡ true
reaches_high a b r m p h =
    let cross : r.num * b ≤ a * r.den =
      omega (arith, mul-le-mul_right b m.at_most, mul-le-mul_right r.den h) in
    ground arith

-- The sensitivity in force is moderate.
record IsModerateSensitivity (s : Sensitivity) : Type 0 where
  rate : IsModerate s.rate_thr
  slow : IsModerate s.slow_thr
  calls_low : 3 ≤ s.min_calls
  calls_high : s.min_calls ≤ 5

sensitivity-IsModerate :
    (c : Config) (rt rf total : ℕ)
    → IsModerateConfig c
    → IsModerateSensitivity (sensitivity c rt rf total)
unfolding sensitivity
sensitivity-IsModerate c rt rf total m = ground arith

trips_low :
    (s : Sensitivity) (total failures slow : ℕ)
    → IsModerateSensitivity s
    → trips s total failures slow ≡ true
    → (3 ≤ total) × ((4 * total ≤ 10 * failures) ⊎ (4 * total ≤ 10 * slow))
unfolding trips
trips_low s total failures slow m h =
    ground (
      arith,
      reaches_low failures total s.rate_thr m.rate,
      reaches_low slow total s.slow_thr m.slow,
    )

trips_high :
    (s : Sensitivity) (total failures slow : ℕ)
    → IsModerateSensitivity s
    → 5 ≤ total
    → (6 * total ≤ 10 * failures) ⊎ (6 * total ≤ 10 * slow)
    → trips s total failures slow ≡ true
unfolding trips
trips_high s total failures slow m h e = ground (
  arith,
  reaches_high failures total s.rate_thr m.rate,
  reaches_high slow total s.slow_thr m.slow,
)

module _ (now : ℕ) (cb : CircuitBreaker) (m : IsModerateConfig cb.cfg)
    (shut : cb.state ≡ closed) where
  -- A closed breaker under a moderate configuration that opens has seen at least three calls in its
  -- window, and at least 40 per cent of them failed, or were slow.
  pub evaluate_opens_needs :
      (evaluate now cb).state ≡ opened
      → (3 ≤ sum_total cb.buckets)
        × ((4 * sum_total cb.buckets ≤ 10 * sum_failures cb.buckets)
            ⊎ (4 * sum_total cb.buckets ≤ 10 * sum_slow cb.buckets))
  unfolding evaluate should_open transition_to
  evaluate_opens_needs e = ground (
    arith,
    trips_low _ (sum_total cb.buckets) (sum_failures cb.buckets) (sum_slow cb.buckets)
        (sensitivity-IsModerate cb.cfg (recent_total cb) (recent_fail cb) (sum_total cb.buckets) m),
  )

  -- A closed breaker under a moderate configuration with at least five calls in its window, of
  -- which at least 60 per cent failed, or were slow, opens at once.
  pub evaluate_opens :
      5 ≤ sum_total cb.buckets
      → (6 * sum_total cb.buckets ≤ 10 * sum_failures cb.buckets)
        ⊎ (6 * sum_total cb.buckets ≤ 10 * sum_slow cb.buckets)
      → ((evaluate now cb).state ≡ opened) × ((evaluate now cb).opened_at ≡ now)
  unfolding evaluate should_open transition_to
  evaluate_opens h e = ground (
    arith,
    trips_high _ (sum_total cb.buckets) (sum_failures cb.buckets) (sum_slow cb.buckets)
        (sensitivity-IsModerate cb.cfg (recent_total cb) (recent_fail cb) (sum_total cb.buckets) m)
        h e,
  )
