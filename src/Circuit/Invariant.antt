-- ===== src/Circuit/Invariant.antt =====
-- provider/circuit.go: what holds of a breaker between two calls.
use switch.Prelude.{
  ◌+◌, ◌%◌, Bool, get_or-All, [], ◌∷◌, ltb, ℕ, ◌<◌, ◌≡◌, refl, ◌⊎◌, inl, arith, length, set,
  replicate, All, All-set, All-replicate, length-set, length-replicate, inr, List,
}
use switch.Circuit.{
  Call, asks_state, asks_allow, advances, records, read_state, allow, bucket_at, count_call,
  count_outcome, record_call, advance_bucket, step, run, Bucket, empty_bucket, Config, State,
  closed, opened, half_open, CircuitBreaker, with_defaults, first_permit, new_with_config,
  transition_to, evaluate,
}
use switch.Circuit.Window.{count_call-Counts, Counts, empty-Counts}

-- The buckets cover the window and their index lies in range, each bucket's counts fit together,
-- and a half-open breaker has not yet seen the successes that it needs, which are those of the
-- first stage.
pub record Inv (cb : CircuitBreaker) : Type 0 where
  pub in_range : cb.current_idx < cb.cfg.num_buckets
  pub sized : length cb.buckets ≡ cb.cfg.num_buckets
  pub counted : All Counts cb.buckets
  pub first_stage : cb.half_open_idx ≡ 0
  pub need_first : cb.half_open_need ≡ first_permit cb.cfg
  pub pending : cb.state ≡ half_open → (cb.half_open_ok ≡ 0) ⊎ (cb.half_open_ok < cb.half_open_need)
  pub waits : 0 < cb.cfg.wait_duration_in_open
  pub cold_start : 0 < cb.cfg.min_calls_before_evaluation
  pub rate_positive : 0 < cb.cfg.failure_rate_threshold.num
  pub slow_positive : 0 < cb.cfg.slow_call_rate_threshold.num

pub new-Inv : (c : Config) → Inv (new_with_config c)
unfolding new_with_config with_defaults
new-Inv c = record {
  in_range = ground arith;
  sized = length-replicate _ _;
  counted = All-replicate Counts _ _ empty-Counts;
  first_stage = refl;
  need_first = refl;
  pending = ground arith;
  waits = ground arith;
  cold_start = ground arith;
  rate_positive = ground arith;
  slow_positive = ground arith;
}

fresh_counted : (n : ℕ) → All Counts (replicate n empty_bucket)
fresh_counted n = All-replicate Counts n empty_bucket empty-Counts

pub transition_to-Inv :
    (now : ℕ) (s : State) (cb : CircuitBreaker) → Inv cb → Inv (transition_to now s cb)
unfolding transition_to
transition_to-Inv now opened cb v = record {
  in_range = v.in_range;
  sized = length-replicate _ _;
  counted = fresh_counted _;
  first_stage = v.first_stage;
  need_first = v.need_first;
  pending = ground arith;
  waits = v.waits;
  cold_start = v.cold_start;
  rate_positive = v.rate_positive;
  slow_positive = v.slow_positive;
}
transition_to-Inv now closed cb v = record {
  in_range = omega (arith, v.in_range);
  sized = length-replicate _ _;
  counted = fresh_counted _;
  first_stage = v.first_stage;
  need_first = v.need_first;
  pending = ground arith;
  waits = v.waits;
  cold_start = v.cold_start;
  rate_positive = v.rate_positive;
  slow_positive = v.slow_positive;
}
transition_to-Inv now half_open cb v = record {
  in_range = v.in_range;
  sized = v.sized;
  counted = v.counted;
  first_stage = refl;
  need_first = refl;
  pending = λ _. inl refl;
  waits = v.waits;
  cold_start = v.cold_start;
  rate_positive = v.rate_positive;
  slow_positive = v.slow_positive;
}

pub evaluate-Inv : (now : ℕ) (cb : CircuitBreaker) → Inv cb → Inv (evaluate now cb)
unfolding evaluate
evaluate-Inv now cb v =
    ground (arith, v, transition_to-Inv now opened cb v, transition_to-Inv now half_open cb v)

-- Another bucket in the window.
set-Inv :
    (cb : CircuitBreaker) (i : ℕ) (b : Bucket)
    → Inv cb
    → Counts b
    → Inv (record cb { buckets = set cb.buckets i b })
set-Inv cb i b v h = record {
  in_range = v.in_range;
  sized = omega (arith, length-set cb.buckets i b, v.sized);
  counted = All-set Counts cb.buckets i b v.counted h;
  first_stage = v.first_stage;
  need_first = v.need_first;
  pending = v.pending;
  waits = v.waits;
  cold_start = v.cold_start;
  rate_positive = v.rate_positive;
  slow_positive = v.slow_positive;
}

-- The breaker once the call is counted in its bucket.
abbrev pub counted_in : CircuitBreaker → Bool → ℕ → CircuitBreaker
counted_in cb failed duration =
    let slow = ltb cb.cfg.slow_call_duration_threshold duration in
    let bkt = count_call failed slow (bucket_at cb cb.current_idx) in
    record cb { buckets = set cb.buckets cb.current_idx bkt }

pub count_outcome_closed :
    (now : ℕ) (failed : Bool) (duration : ℕ) (cb : CircuitBreaker)
    → cb.state ≡ closed
    → count_outcome now failed duration cb ≡ counted_in cb failed duration
unfolding count_outcome
count_outcome_closed now failed duration cb h = ground arith

pub counted_in-Inv :
    (cb : CircuitBreaker) (failed : Bool) (duration : ℕ)
    → Inv cb
    → Inv (counted_in cb failed duration)
counted_in-Inv cb failed duration v = set-Inv cb cb.current_idx _ v (
    count_call-Counts failed _ _
      (get_or-All Counts cb.buckets cb.current_idx empty_bucket v.counted empty-Counts))

one_more_ok-Inv :
    (cb : CircuitBreaker)
    → Inv cb
    → cb.half_open_ok + 1 < cb.half_open_need
    → Inv (record cb { half_open_ok = cb.half_open_ok + 1 })
one_more_ok-Inv cb v h = record {
  in_range = v.in_range;
  sized = v.sized;
  counted = v.counted;
  first_stage = v.first_stage;
  need_first = v.need_first;
  pending = λ _. inr h;
  waits = v.waits;
  cold_start = v.cold_start;
  rate_positive = v.rate_positive;
  slow_positive = v.slow_positive;
}

-- Closing drops the count of successes from the invariant's reach.
close-Inv :
    (now : ℕ) (cb : CircuitBreaker) (k : ℕ)
    → Inv cb
    → Inv (transition_to now closed (record cb { half_open_ok = k }))
unfolding transition_to
close-Inv now cb k v = record {
  in_range = omega (arith, v.in_range);
  sized = length-replicate _ _;
  counted = fresh_counted _;
  first_stage = v.first_stage;
  need_first = v.need_first;
  pending = ground arith;
  waits = v.waits;
  cold_start = v.cold_start;
  rate_positive = v.rate_positive;
  slow_positive = v.slow_positive;
}

pub count_outcome-Inv :
    (now : ℕ) (failed : Bool) (duration : ℕ) (cb : CircuitBreaker)
    → Inv cb
    → Inv (count_outcome now failed duration cb)
unfolding count_outcome
count_outcome-Inv now failed duration cb v =
    let counted = counted_in-Inv cb failed duration v in
    ground (
      arith,
      counted,
      transition_to-Inv now opened (counted_in cb failed duration) counted,
      close-Inv now (counted_in cb failed duration) (cb.half_open_ok + 1) counted,
      one_more_ok-Inv (counted_in cb failed duration) counted,
    )

pub advance_bucket-Inv : (cb : CircuitBreaker) → Inv cb → Inv (advance_bucket cb)
unfolding advance_bucket
advance_bucket-Inv cb v = record {
  in_range = omega (arith, v.in_range);
  sized = omega (
    arith,
    length-set cb.buckets ((cb.current_idx + 1) % cb.cfg.num_buckets) empty_bucket,
    v.sized,
  );
  counted = All-set Counts cb.buckets _ _ v.counted empty-Counts;
  first_stage = v.first_stage;
  need_first = v.need_first;
  pending = v.pending;
  waits = v.waits;
  cold_start = v.cold_start;
  rate_positive = v.rate_positive;
  slow_positive = v.slow_positive;
}

pub step-Inv : (now : ℕ) (c : Call) (cb : CircuitBreaker) → Inv cb → Inv (step now c cb)
unfolding step read_state allow record_call
step-Inv now asks_state cb v = evaluate-Inv now cb v
step-Inv now asks_allow cb v = evaluate-Inv now cb v
step-Inv now advances cb v = advance_bucket-Inv cb v
step-Inv now (records failed duration) cb v =
    evaluate-Inv now _ (count_outcome-Inv now failed duration cb v)

pub run-Inv : (cb : CircuitBreaker) (cs : List (ℕ × Call)) → Inv cb → Inv (run cb cs)
unfolding run
run-Inv cb [] v = v
run-Inv cb ((now, c) ∷ cs) v = run-Inv (step now c cb) cs (step-Inv now c cb v)

-- Under any configuration and any history of calls at any times, the invariant holds: no index
-- leaves the window, the window's counts are those of whole calls, and every half-open phase is
-- one of the first stage.
pub run_new-Inv : (c : Config) (cs : List (ℕ × Call)) → Inv (run (new_with_config c) cs)
run_new-Inv c cs = run-Inv (new_with_config c) cs (new-Inv c)
