-- ===== src/Circuit/Recovery.antt =====
-- provider/circuit.go: the open and the half-open state.
use switch.Prelude.{
  ℕ, ◌+◌, ◌<◌, ◌≡◌, arith, ◌≤◌, refl, ap, Bool, true, false, List, [], ◌∷◌, suc, replicate, ◌∙◌,
  length,
}
use switch.Circuit.Invariant.{Inv, counted_in, run-Inv}
use switch.Circuit.Window.{sum_total-replicate}
use switch.Circuit.{
  Config, CircuitBreaker, evaluate, read_state, allow, count_outcome, record_call, advance_bucket,
  Call, step, opened, asks_state, asks_allow, advances, records, first_permit, transition_to,
  sum_total, run, half_open, sensitivity, trips, should_open, closed, empty_bucket,
}

-- The clock has not yet reached the end of the wait.
abbrev pub IsWaiting : ℕ → CircuitBreaker → Type 0
IsWaiting now cb = now < cb.opened_at + cb.cfg.wait_duration_in_open

-- Open, since the given time and under the given configuration.
pub record IsOpenSince (t : ℕ) (c : Config) (cb : CircuitBreaker) : Type 0 where
  pub shut_off : cb.state ≡ opened
  pub since : cb.opened_at ≡ t
  pub under : cb.cfg ≡ c

evaluate_waiting :
    (now : ℕ) (cb : CircuitBreaker) → cb.state ≡ opened → IsWaiting now cb → evaluate now cb ≡ cb
unfolding evaluate
evaluate_waiting now cb o w = ground arith

count_outcome_open :
    (now : ℕ) (failed : Bool) (duration : ℕ) (cb : CircuitBreaker)
    → cb.state ≡ opened
    → count_outcome now failed duration cb ≡ counted_in cb failed duration
unfolding count_outcome
count_outcome_open now failed duration cb o = ground arith

counted_in_open :
    (t : ℕ) (c : Config) (failed : Bool) (duration : ℕ) (cb : CircuitBreaker)
    → IsOpenSince t c cb
    → IsOpenSince t c (counted_in cb failed duration)
counted_in_open t c failed duration cb o = record {
  shut_off = o.shut_off;
  since = o.since;
  under = o.under;
}

still-IsWaiting :
    (t now : ℕ) (c : Config) (cb : CircuitBreaker)
    → IsOpenSince t c cb
    → now < t + c.wait_duration_in_open
    → IsWaiting now cb
still-IsWaiting t now c cb o w =
    omega (arith, w, o.since, ap (λ (c : Config). c.wait_duration_in_open) o.under)

evaluate_open :
    (t now : ℕ) (c : Config) (cb : CircuitBreaker)
    → IsOpenSince t c cb
    → now < t + c.wait_duration_in_open
    → IsOpenSince t c (evaluate now cb)
evaluate_open t now c cb o w =
    rw (evaluate_waiting now cb o.shut_off (still-IsWaiting t now c cb o w)) o

step_open :
    (t now : ℕ) (c : Config) (call : Call) (cb : CircuitBreaker)
    → IsOpenSince t c cb
    → now < t + c.wait_duration_in_open
    → IsOpenSince t c (step now call cb)
unfolding step read_state allow record_call advance_bucket
step_open t now c asks_state cb o w = evaluate_open t now c cb o w
step_open t now c asks_allow cb o w = evaluate_open t now c cb o w
step_open t now c advances cb o w = record {
  shut_off = o.shut_off;
  since = o.since;
  under = o.under;
}
step_open t now c (records failed duration) cb o w =
    evaluate_open t now c _
      (rw (count_outcome_open now failed duration cb o.shut_off)
        (counted_in_open t c failed duration cb o))
      w

-- Every call of the history is made before the given time.
abbrev pub AllBefore : ℕ → List (ℕ × Call) → Type 0
AllBefore t [] = Unit
AllBefore t ((now, c) ∷ cs) = (now < t) × AllBefore t cs

run_open :
    (t : ℕ) (c : Config) (cs : List (ℕ × Call)) (cb : CircuitBreaker)
    → IsOpenSince t c cb
    → AllBefore (t + c.wait_duration_in_open) cs
    → IsOpenSince t c (run cb cs)
unfolding run
run_open t c [] cb o w = o
run_open t c ((now, call) ∷ cs) cb o w =
    run_open t c cs (step now call cb) (step_open t now c call cb o w.0) w.1

-- An open breaker refuses every request until the wait is over, whatever outcomes are recorded,
-- buckets advanced and states read in the meantime, and its wait is not extended.
pub open_refuses :
    (cb : CircuitBreaker) (cs : List (ℕ × Call)) (now : ℕ)
    → cb.state ≡ opened
    → AllBefore (cb.opened_at + cb.cfg.wait_duration_in_open) cs
    → now < cb.opened_at + cb.cfg.wait_duration_in_open
    → ((allow now (run cb cs)).1 ≡ false) × ((run cb cs).opened_at ≡ cb.opened_at)
unfolding allow
open_refuses cb cs now o w late =
    let after =
      run_open cb.opened_at cb.cfg cs cb (record { shut_off = o; since = refl; under = refl }) w in
    let then' = evaluate_open cb.opened_at now cb.cfg (run cb cs) after late in
    (ground (arith, then'.shut_off), after.since)

-- At the end of the wait the next request is let through, and a half-open phase begins with no
-- success counted.
pub open_recovers :
    (cb : CircuitBreaker) (now : ℕ)
    → cb.state ≡ opened
    → cb.opened_at + cb.cfg.wait_duration_in_open ≤ now
    → ((allow now cb).1 ≡ true)
      × ((allow now cb).0.state ≡ half_open)
      × ((allow now cb).0.half_open_ok ≡ 0)
      × ((allow now cb).0.half_open_need ≡ first_permit cb.cfg)
unfolding allow evaluate transition_to
open_recovers cb now o w = ground arith

-- One failure in a half-open phase opens the breaker again, at once and for a full wait.
pub half_open_failure-reopens :
    (cb : CircuitBreaker) (now duration : ℕ)
    → Inv cb
    → cb.state ≡ half_open
    → let cb' = record_call now true duration cb in
      (cb'.state ≡ opened) × (cb'.opened_at ≡ now) × (sum_total cb'.buckets ≡ 0)
unfolding record_call evaluate count_outcome transition_to
half_open_failure-reopens cb now duration v h =
    ground (arith, v.waits, sum_total-replicate cb.cfg.num_buckets)

-- Successful calls, at the given times and of the given durations.
abbrev pub succeeding : List (ℕ × ℕ) → List (ℕ × Call)
succeeding [] = []
succeeding ((now, duration) ∷ rest) = (now, records false duration) ∷ succeeding rest

success_counts :
    (now duration : ℕ) (cb : CircuitBreaker)
    → cb.state ≡ half_open
    → suc cb.half_open_ok < cb.half_open_need
    → let cb' = record_call now false duration cb in
      (cb'.state ≡ half_open)
      × (cb'.half_open_ok ≡ suc cb.half_open_ok)
      × (cb'.half_open_need ≡ cb.half_open_need)
unfolding record_call evaluate count_outcome
success_counts now duration cb h few = ground arith

closed_empty :
    (now : ℕ) (cb : CircuitBreaker)
    → cb.state ≡ closed
    → 0 < cb.cfg.min_calls_before_evaluation
    → sum_total cb.buckets ≡ 0
    → evaluate now cb ≡ cb
unfolding evaluate should_open trips sensitivity
closed_empty now cb shut guarded none_yet = ground arith

-- Closed, with nothing left in its window.
pub record IsFresh (cb : CircuitBreaker) : Type 0 where
  pub shut : cb.state ≡ closed
  pub empty : sum_total cb.buckets ≡ 0
  pub at_first : cb.current_idx ≡ 0

success_closes :
    (now duration : ℕ) (cb : CircuitBreaker)
    → Inv cb
    → cb.state ≡ half_open
    → cb.half_open_need ≤ suc cb.half_open_ok
    → IsFresh (record_call now false duration cb)
unfolding record_call
success_closes now duration cb v h enough =
    rw (outcome, record_call)
      (rw (closed_empty now done refl v.cold_start (sum_total-replicate _))
        (record { shut = refl; empty = sum_total-replicate _; at_first = refl }))
  where
    done : CircuitBreaker
    done = record (counted_in cb false duration) {
      state = closed;
      half_open_ok = cb.half_open_ok + 1;
      buckets = replicate cb.cfg.num_buckets empty_bucket;
      current_idx = 0;
    }

    outcome : count_outcome now false duration cb ≡ done
    outcome = unfold count_outcome transition_to in ground arith

run-succeeding :
    (cb : CircuitBreaker) (xs : List (ℕ × ℕ))
    → cb.state ≡ half_open
    → cb.half_open_ok + length xs < cb.half_open_need
    → let cb' = run cb (succeeding xs) in
      (cb'.state ≡ half_open)
      × (cb'.half_open_ok ≡ cb.half_open_ok + length xs)
      × (cb'.half_open_need ≡ cb.half_open_need)
unfolding run step
run-succeeding cb [] h few = (h, omega arith, refl)
run-succeeding cb ((now, duration) ∷ xs) h few =
    let (h', ok, need) = success_counts now duration cb h (omega arith) in
    let (end, total, last_need) =
      run-succeeding (record_call now false duration cb) xs h' (omega (arith, ok, need)) in
    (end, omega (arith, total, ok), last_need ∙ need)

-- A half-open breaker closes at the success that completes the number it needs, with an empty
-- window, and at no earlier one.
pub half_open_closes :
    (cb : CircuitBreaker) (xs : List (ℕ × ℕ)) (now duration : ℕ)
    → Inv cb
    → cb.state ≡ half_open
    → cb.half_open_ok + length xs + 1 ≡ cb.half_open_need
    → ((run cb (succeeding xs)).state ≡ half_open)
      × IsFresh (record_call now false duration (run cb (succeeding xs)))
half_open_closes cb xs now duration v h enough =
    let (h', ok, need) = run-succeeding cb xs h (omega arith) in
    (h', success_closes now duration _ (run-Inv cb (succeeding xs) v) h' (omega (arith, ok, need)))
