-- ===== src/Circuit/Unadvanced.antt =====
-- provider/circuit.go: a breaker whose AdvanceBucket is never called, as in the gateway, where
-- nothing calls it.
use switch.Prelude.{
  ℕ, ◌<◌, ◌≡◌, refl, sym, ap, ◌∙◌, Bool, List, [], ◌∷◌, arith, ltb, length, get_or, replicate,
  get_or-set_self, get_or-replicate,
}
use switch.Circuit.{
  Bucket, empty_bucket, State, CircuitBreaker, transition_to, sum_total, bucket_at, evaluate,
  count_call, Call, closed, opened, half_open, asks_state, asks_allow, advances, records, Config,
  new_with_config, read_state, allow, count_outcome, record_call, step, run,
}
use switch.Circuit.Window.{sum_total-replicate, sum_total-set}
use switch.Circuit.Invariant.{Inv, counted_in, new-Inv, step-Inv}

abbrev pub IsNoAdvance : Call → Type 0
IsNoAdvance asks_state = Unit
IsNoAdvance asks_allow = Unit
IsNoAdvance advances = ⊥
IsNoAdvance (records failed duration) = Unit

abbrev pub NeverAdvances : List (ℕ × Call) → Type 0
NeverAdvances [] = Unit
NeverAdvances ((now, call) ∷ cs) = IsNoAdvance call × NeverAdvances cs

-- The first bucket holds the whole window.
pub record IsOneBucket (cb : CircuitBreaker) : Type 0 where
  pub at_first : cb.current_idx ≡ 0
  pub all_there : sum_total cb.buckets ≡ (bucket_at cb 0).total_calls

fresh_all_there :
    (n : ℕ)
    → sum_total (replicate n empty_bucket)
      ≡ (get_or (replicate n empty_bucket) 0 empty_bucket).total_calls
fresh_all_there n =
    sum_total-replicate n
    ∙ sym (ap (λ (b : Bucket). b.total_calls) (get_or-replicate n 0 empty_bucket))

transition_to-IsOneBucket :
    (now : ℕ) (s : State) (cb : CircuitBreaker)
    → IsOneBucket cb
    → IsOneBucket (transition_to now s cb)
unfolding transition_to
transition_to-IsOneBucket now closed cb o = record {
  at_first = refl;
  all_there = fresh_all_there _;
}
transition_to-IsOneBucket now opened cb o = record {
  at_first = o.at_first;
  all_there = fresh_all_there _;
}
transition_to-IsOneBucket now half_open cb o = record {
  at_first = o.at_first;
  all_there = o.all_there;
}

evaluate-IsOneBucket :
    (now : ℕ) (cb : CircuitBreaker) → IsOneBucket cb → IsOneBucket (evaluate now cb)
unfolding evaluate
evaluate-IsOneBucket now cb o =
    ground (
      arith,
      transition_to-IsOneBucket now opened cb o,
      transition_to-IsOneBucket now half_open cb o,
    )

counted_in-IsOneBucket :
    (cb : CircuitBreaker) (failed : Bool) (duration : ℕ)
    → Inv cb
    → IsOneBucket cb
    → IsOneBucket (counted_in cb failed duration)
unfolding count_call
counted_in-IsOneBucket cb failed duration v o =
    let bkt =
      count_call failed (ltb cb.cfg.slow_call_duration_threshold duration)
        (bucket_at cb cb.current_idx) in
    let inside : 0 < length cb.buckets = omega (arith, v.in_range, v.sized) in
    record {
      at_first = o.at_first;
      all_there = rw o.at_first (
          omega (
            arith,
            sum_total-set cb.buckets 0
                (count_call failed (ltb cb.cfg.slow_call_duration_threshold duration)
                  (bucket_at cb 0))
                inside,
            ap (λ (b : Bucket). b.total_calls)
                (get_or-set_self cb.buckets 0
                  (count_call failed (ltb cb.cfg.slow_call_duration_threshold duration)
                    (bucket_at cb 0))
                  empty_bucket inside),
            o.all_there,
          ));
    }

count_outcome-IsOneBucket :
    (now : ℕ) (failed : Bool) (duration : ℕ) (cb : CircuitBreaker)
    → Inv cb
    → IsOneBucket cb
    → IsOneBucket (count_outcome now failed duration cb)
unfolding count_outcome transition_to
count_outcome-IsOneBucket now failed duration cb v o =
    ground
      (arith, counted_in-IsOneBucket cb failed duration v o, fresh_all_there cb.cfg.num_buckets)

step-IsOneBucket :
    (now : ℕ) (call : Call) (cb : CircuitBreaker)
    → IsNoAdvance call
    → Inv cb
    → IsOneBucket cb
    → IsOneBucket (step now call cb)
unfolding step read_state allow record_call
step-IsOneBucket now asks_state cb ok v o = evaluate-IsOneBucket now cb o
step-IsOneBucket now asks_allow cb ok v o = evaluate-IsOneBucket now cb o
step-IsOneBucket now advances cb ok v o = absurd ok
step-IsOneBucket now (records failed duration) cb ok v o =
    evaluate-IsOneBucket now _ (count_outcome-IsOneBucket now failed duration cb v o)

run-IsOneBucket :
    (cs : List (ℕ × Call)) (cb : CircuitBreaker)
    → NeverAdvances cs
    → Inv cb
    → IsOneBucket cb
    → IsOneBucket (run cb cs)
unfolding run
run-IsOneBucket [] cb ok v o = o
run-IsOneBucket ((now, call) ∷ cs) cb ok v o =
    run-IsOneBucket cs (step now call cb) ok.1 (step-Inv now call cb v)
      (step-IsOneBucket now call cb ok.0 v o)

-- As long as nothing calls AdvanceBucket, at whatever times the other calls are made, all calls of
-- the window stand in its first bucket: none of them ever leaves the window by age.
pub unadvanced-IsOneBucket :
    (c : Config) (cs : List (ℕ × Call))
    → NeverAdvances cs
    → IsOneBucket (run (new_with_config c) cs)
unadvanced-IsOneBucket c cs ok = run-IsOneBucket cs (new_with_config c) ok (new-Inv c) start
  where
    start : IsOneBucket (new_with_config c)
    start = unfold new_with_config in record { at_first = refl; all_there = fresh_all_there _ }
