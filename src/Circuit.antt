-- ===== src/Circuit.antt =====
-- provider/circuit.go: the sliding-window circuit breaker. A method returns the new breaker (and
-- its result). Time is nanoseconds in ℕ and an argument of each call; the clock is read once in a
-- call. A float threshold is a ratio of numbers, compared by cross products.
pub mod Window
pub mod Invariant
pub mod Trip
pub mod Failures
pub mod Recovery
pub mod Runs
pub mod Unadvanced
mod Tests
use switch.Prelude.{
  ℕ, ◌+◌, ◌-◌, ◌*◌, ◌%◌, Bool, true, false, ◌&&◌, ◌||◌, not, List, [], ◌∷◌, ltb, leb, ◌==◌,
  if◌then◌else◌, length, get_or, set, replicate,
}

-- cbBucket: the counts of one time slice.
pub record Bucket : Type 0 where
  pub successes : ℕ
  pub failures : ℕ
  pub slow_calls : ℕ
  pub total_calls : ℕ

abbrev pub empty_bucket : Bucket
empty_bucket = record { successes = 0; failures = 0; slow_calls = 0; total_calls = 0 }

-- A non-negative float64 threshold, as num / den.
pub record Ratio : Type 0 where
  pub num : ℕ
  pub den : ℕ

-- CircuitBreakerConfig. A negative field is treated by the constructor as 0 is, and is read as 0.
pub record Config : Type 0 where
  pub window_size : ℕ
  pub num_buckets : ℕ
  pub failure_rate_threshold : Ratio
  pub slow_call_rate_threshold : Ratio
  pub slow_call_duration_threshold : ℕ
  pub wait_duration_in_open : ℕ
  pub half_open_permits : List ℕ
  pub min_calls_before_evaluation : ℕ

pub data State : Type 0 where
  closed opened half_open : State

pub record CircuitBreaker : Type 0 where
  pub cfg : Config
  pub state : State
  pub buckets : List Bucket
  pub current_idx : ℕ
  pub opened_at : ℕ
  pub half_open_idx : ℕ
  pub half_open_ok : ℕ
  pub half_open_need : ℕ

abbrev pub second : ℕ
second = 1_000_000_000

abbrev pub default_config : Config
default_config = record {
  window_size = 60 * second;
  num_buckets = 10;
  failure_rate_threshold = record { num = 5; den = 10 };
  slow_call_rate_threshold = record { num = 5; den = 10 };
  slow_call_duration_threshold = 10 * second;
  wait_duration_in_open = 30 * second;
  half_open_permits = 1 ∷ 3 ∷ 10 ∷ [];
  min_calls_before_evaluation = 5;
}

abbrev or_default : ℕ → ℕ → ℕ
or_default n d = if n == 0 then d else n

abbrev or_default_ratio : Ratio → Ratio → Ratio
or_default_ratio r d = if r.num == 0 then d else r

abbrev or_default_permits : List ℕ → List ℕ → List ℕ
or_default_permits [] d = d
or_default_permits (p ∷ ps) d = p ∷ ps

pub with_defaults : Config → Config
with_defaults c = record {
  window_size = or_default c.window_size default_config.window_size;
  num_buckets = or_default c.num_buckets default_config.num_buckets;
  failure_rate_threshold =
      or_default_ratio c.failure_rate_threshold default_config.failure_rate_threshold;
  slow_call_rate_threshold =
      or_default_ratio c.slow_call_rate_threshold default_config.slow_call_rate_threshold;
  slow_call_duration_threshold =
      or_default c.slow_call_duration_threshold default_config.slow_call_duration_threshold;
  wait_duration_in_open = or_default c.wait_duration_in_open default_config.wait_duration_in_open;
  half_open_permits = or_default_permits c.half_open_permits default_config.half_open_permits;
  min_calls_before_evaluation =
      or_default c.min_calls_before_evaluation default_config.min_calls_before_evaluation;
}

-- cfg.HalfOpenPermits[0]; the constructor leaves the list non-empty.
abbrev pub first_permit : Config → ℕ
first_permit c = get_or c.half_open_permits 0 0

unfoldable pub new_with_config : Config → CircuitBreaker
unfolding with_defaults
new_with_config c =
    let cfg = with_defaults c in
    record {
      cfg = cfg;
      state = closed;
      buckets = replicate cfg.num_buckets empty_bucket;
      current_idx = 0;
      opened_at = 0;
      half_open_idx = 0;
      half_open_ok = 0;
      half_open_need = first_permit cfg;
    }

unfoldable pub transition_to : ℕ → State → CircuitBreaker → CircuitBreaker
transition_to now opened cb = record cb {
  state = opened;
  opened_at = now;
  buckets = replicate cb.cfg.num_buckets empty_bucket;
}
transition_to now closed cb = record cb {
  state = closed;
  buckets = replicate cb.cfg.num_buckets empty_bucket;
  current_idx = 0;
}
transition_to now half_open cb = record cb {
  state = half_open;
  half_open_idx = 0;
  half_open_need = first_permit cb.cfg;
  half_open_ok = 0;
}

-- The sums over the rolling window.
unfoldable pub sum_total : List Bucket → ℕ
sum_total [] = 0
sum_total (b ∷ bs) = b.total_calls + sum_total bs

unfoldable pub sum_failures : List Bucket → ℕ
sum_failures [] = 0
sum_failures (b ∷ bs) = b.failures + sum_failures bs

unfoldable pub sum_slow : List Bucket → ℕ
sum_slow [] = 0
sum_slow (b ∷ bs) = b.slow_calls + sum_slow bs

-- a / b ≥ r over floats: false for 0 / 0, which is NaN.
abbrev pub reaches : ℕ → ℕ → Ratio → Bool
reaches a b r = (ltb 0 a || ltb 0 b) && leb (r.num * b) (a * r.den)

-- minCalls, rateThr, slowThr of one evaluation.
pub record Sensitivity : Type 0 where
  pub min_calls : ℕ
  pub rate_thr : Ratio
  pub slow_thr : Ratio

abbrev pub unstable_sensitivity : Sensitivity
unstable_sensitivity = record {
  min_calls = 3;
  rate_thr = record { num = 4; den = 10 };
  slow_thr = record { num = 4; den = 10 };
}

abbrev pub stable_sensitivity : Sensitivity
stable_sensitivity = record {
  min_calls = 5;
  rate_thr = record { num = 6; den = 10 };
  slow_thr = record { num = 6; den = 10 };
}

abbrev pub configured_sensitivity : Config → Sensitivity
configured_sensitivity c = record {
  min_calls = c.min_calls_before_evaluation;
  rate_thr = c.failure_rate_threshold;
  slow_thr = c.slow_call_rate_threshold;
}

-- The thresholds slide with the failure rate of the last two buckets: above 0.15, below 0.03.
unfoldable pub sensitivity : Config → ℕ → ℕ → ℕ → Sensitivity
sensitivity c recent_total recent_fail total =
    if ltb 0 recent_total
    then (if ltb (15 * recent_total) (100 * recent_fail)
        then unstable_sensitivity
        else if ltb (100 * recent_fail) (3 * recent_total) && leb 20 total
        then stable_sensitivity
        else configured_sensitivity c)
    else configured_sensitivity c

abbrev pub bucket_at : CircuitBreaker → ℕ → Bucket
bucket_at cb i = get_or cb.buckets i empty_bucket

abbrev pub prev_idx : CircuitBreaker → ℕ
prev_idx cb = (cb.current_idx + length cb.buckets - 1) % length cb.buckets

unfoldable pub recent_total : CircuitBreaker → ℕ
recent_total cb =
    (bucket_at cb cb.current_idx).total_calls + (bucket_at cb (prev_idx cb)).total_calls

unfoldable pub recent_fail : CircuitBreaker → ℕ
recent_fail cb = (bucket_at cb cb.current_idx).failures + (bucket_at cb (prev_idx cb)).failures

-- The test that opens a closed breaker.
unfoldable pub trips : Sensitivity → ℕ → ℕ → ℕ → Bool
trips s total failures slow =
    if ltb total s.min_calls
    then false
    else reaches failures total s.rate_thr || reaches slow total s.slow_thr

unfoldable pub should_open : CircuitBreaker → Bool
should_open cb =
    let total = sum_total cb.buckets in
    trips (sensitivity cb.cfg (recent_total cb) (recent_fail cb) total) total
      (sum_failures cb.buckets) (sum_slow cb.buckets)

evaluate_at : State → ℕ → CircuitBreaker → CircuitBreaker
evaluate_at opened now cb =
    if leb (cb.opened_at + cb.cfg.wait_duration_in_open) now
    then transition_to now half_open cb
    else cb
evaluate_at half_open now cb = cb
evaluate_at closed now cb = if should_open cb then transition_to now opened cb else cb

unfoldable pub evaluate : ℕ → CircuitBreaker → CircuitBreaker
unfolding evaluate_at
evaluate now cb = evaluate_at cb.state now cb

-- State.
unfoldable pub read_state : ℕ → CircuitBreaker → CircuitBreaker × State
read_state now cb = let cb' = evaluate now cb in (cb', cb'.state)

abbrev pub is_open : State → Bool
is_open opened = true
is_open _ = false

unfoldable pub allow : ℕ → CircuitBreaker → CircuitBreaker × Bool
allow now cb = let cb' = evaluate now cb in (cb', not (is_open cb'.state))

-- One call's outcome in its bucket; `failed` stands for err ≠ nil.
unfoldable pub count_call : Bool → Bool → Bucket → Bucket
count_call failed slow b = record {
  successes = if failed then b.successes else b.successes + 1;
  failures = if failed then b.failures + 1 else b.failures;
  slow_calls = if slow then b.slow_calls + 1 else b.slow_calls;
  total_calls = b.total_calls + 1;
}

record_half_open : State → ℕ → Bool → CircuitBreaker → CircuitBreaker
record_half_open half_open now failed cb =
    if failed
    then transition_to now opened cb
    else let cb' = record cb { half_open_ok = cb.half_open_ok + 1 } in
      if leb cb'.half_open_need cb'.half_open_ok then transition_to now closed cb' else cb'
record_half_open closed now failed cb = cb
record_half_open opened now failed cb = cb

-- Record, up to the last line, which evaluates.
unfoldable pub count_outcome : ℕ → Bool → ℕ → CircuitBreaker → CircuitBreaker
unfolding record_half_open
count_outcome now failed duration cb =
    let slow = ltb cb.cfg.slow_call_duration_threshold duration in
    let bkt = count_call failed slow (bucket_at cb cb.current_idx) in
    record_half_open cb.state now failed (record cb { buckets = set cb.buckets cb.current_idx bkt })

unfoldable pub record_call : ℕ → Bool → ℕ → CircuitBreaker → CircuitBreaker
record_call now failed duration cb = evaluate now (count_outcome now failed duration cb)

unfoldable pub advance_bucket : CircuitBreaker → CircuitBreaker
advance_bucket cb =
    let idx = (cb.current_idx + 1) % cb.cfg.num_buckets in
    record cb { current_idx = idx; buckets = set cb.buckets idx empty_bucket }

-- The calls that a breaker receives.
pub data Call : Type 0 where
  asks_state asks_allow advances : Call
  records : Bool → ℕ → Call

unfoldable pub step : ℕ → Call → CircuitBreaker → CircuitBreaker
step now asks_state cb = (read_state now cb).0
step now asks_allow cb = (allow now cb).0
step now advances cb = advance_bucket cb
step now (records failed duration) cb = record_call now failed duration cb

-- A history of calls, each with the time at which it is made.
unfoldable pub run : CircuitBreaker → List (ℕ × Call) → CircuitBreaker
run cb [] = cb
run cb ((now, c) ∷ cs) = run (step now c cb) cs
