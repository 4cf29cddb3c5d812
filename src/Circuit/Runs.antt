-- ===== src/Circuit/Runs.antt =====
-- provider/circuit.go: what holds of whole histories of a breaker.
use native.Mathlib.Nat.{mul-pos}
use switch.Prelude.{
  ℕ, ◌<◌, ◌≡◌, refl, false, List, [], ◌∷◌, arith, All, ◌≤◌, ap, Bool, true, ltb, All-set,
  All-replicate, get_or-All,
}
use switch.Circuit.{
  Bucket, empty_bucket, Ratio, sum_failures, sum_slow, reaches, count_call, Config, CircuitBreaker,
  with_defaults, new_with_config, sum_total, sensitivity, trips, should_open, evaluate, read_state,
  allow, record_call, advance_bucket, Call, step, run, closed, asks_state, asks_allow, advances,
  records,
}
use switch.Circuit.Invariant.{
  Inv, new-Inv, counted_in, count_outcome_closed, counted_in-Inv, step-Inv, run_new-Inv,
}

-- A bucket with no failure and no slow call.
record IsClean (b : Bucket) : Type 0 where
  no_failure : b.failures ≡ 0
  no_slow : b.slow_calls ≡ 0

empty-IsClean : IsClean empty_bucket
empty-IsClean = ground arith

count_good-IsClean : (b : Bucket) → IsClean b → IsClean (count_call false false b)
unfolding count_call
count_good-IsClean b h = ground arith

sum_clean : (bs : List Bucket) → All IsClean bs → (sum_failures bs ≡ 0) × (sum_slow bs ≡ 0)
unfolding sum_failures sum_slow
sum_clean [] h = (refl, refl)
sum_clean (b ∷ bs) h = (omega (arith, (sum_clean bs h.1).0), omega (arith, (sum_clean bs h.1).1))

-- No rate of 0 reaches a positive threshold.
zero_reaches : (total : ℕ) (r : Ratio) → 0 < r.num → reaches 0 total r ≡ false
zero_reaches total r h = ground (arith, mul-pos {m = r.num} {n = total})

-- A breaker that has seen only good calls, under the configuration c.
record IsGood (c : Config) (cb : CircuitBreaker) : Type 0 where
  shut : cb.state ≡ closed
  under : cb.cfg ≡ c
  clean : All (λ b. IsClean b) cb.buckets

should_open_clean :
    (cb : CircuitBreaker) → Inv cb → All (λ b. IsClean b) cb.buckets → should_open cb ≡ false
unfolding should_open trips sensitivity
should_open_clean cb v h = ground (
  arith,
  sum_clean cb.buckets h,
  zero_reaches (sum_total cb.buckets) cb.cfg.failure_rate_threshold v.rate_positive,
  zero_reaches (sum_total cb.buckets) cb.cfg.slow_call_rate_threshold v.slow_positive,
)

evaluate_good :
    (now : ℕ) (c : Config) (cb : CircuitBreaker) → Inv cb → IsGood c cb → evaluate now cb ≡ cb
unfolding evaluate
evaluate_good now c cb v g = ground (arith, g.shut, should_open_clean cb v g.clean)

-- The call is no failure and not slow.
abbrev pub IsGoodCall : Config → Call → Type 0
IsGoodCall c asks_state = Unit
IsGoodCall c asks_allow = Unit
IsGoodCall c advances = Unit
IsGoodCall c (records failed duration) =
    (failed ≡ false) × (duration ≤ c.slow_call_duration_threshold)

abbrev pub AllGood : Config → List (ℕ × Call) → Type 0
AllGood c [] = Unit
AllGood c ((now, call) ∷ cs) = IsGoodCall c call × AllGood c cs

counted-IsGood :
    (c : Config) (failed : Bool) (duration : ℕ) (cb : CircuitBreaker)
    → IsGoodCall c (records failed duration)
    → IsGood c cb
    → IsGood c (counted_in cb failed duration)
counted-IsGood c failed duration cb (ok, fast) g = record {
  shut = g.shut;
  under = g.under;
  clean =
      All-set (λ b. IsClean b) cb.buckets cb.current_idx _ g.clean
        (rw (ok, not_slow)
          (count_good-IsClean _ (
            get_or-All (λ b. IsClean b) cb.buckets cb.current_idx empty_bucket g.clean
              empty-IsClean)));
}
  where
    not_slow : ltb cb.cfg.slow_call_duration_threshold duration ≡ false
    not_slow = ground (arith, fast, ap (λ (k : Config). k.slow_call_duration_threshold) g.under)

step-IsGood :
    (now : ℕ) (c : Config) (call : Call) (cb : CircuitBreaker)
    → Inv cb
    → IsGoodCall c call
    → IsGood c cb
    → IsGood c (step now call cb)
unfolding step read_state allow record_call advance_bucket
step-IsGood now c asks_state cb v ok g = rw (evaluate_good now c cb v g) g
step-IsGood now c asks_allow cb v ok g = rw (evaluate_good now c cb v g) g
step-IsGood now c advances cb v ok g = record {
  shut = g.shut;
  under = g.under;
  clean = All-set (λ b. IsClean b) cb.buckets _ _ g.clean empty-IsClean;
}
step-IsGood now c (records failed duration) cb v ok g =
    rw (count_outcome_closed now failed duration cb g.shut) (
      let g' = counted-IsGood c failed duration cb ok g in
      rw (evaluate_good now c _ (counted_in-Inv cb failed duration v) g') g')

run-IsGood :
    (c : Config) (cs : List (ℕ × Call)) (cb : CircuitBreaker)
    → Inv cb
    → AllGood c cs
    → IsGood c cb
    → IsGood c (run cb cs)
unfolding run
run-IsGood c [] cb v ok g = g
run-IsGood c ((now, call) ∷ cs) cb v ok g =
    run-IsGood c cs (step now call cb) (step-Inv now call cb v) ok.1
      (step-IsGood now c call cb v ok.0 g)

-- A breaker of any configuration, however partial, whose recorded calls all succeed within the
-- slow-call threshold never leaves the closed state and lets every request through.
pub good_calls-closed :
    (c : Config) (cs : List (ℕ × Call)) (now : ℕ)
    → AllGood (with_defaults c) cs
    → ((run (new_with_config c) cs).state ≡ closed)
      × ((allow now (run (new_with_config c) cs)).1 ≡ true)
unfolding allow
good_calls-closed c cs now ok =
    let g = run-IsGood (with_defaults c) cs (new_with_config c) (new-Inv c) ok start in
    (g.shut, rw (evaluate_good now _ _ (run_new-Inv c cs) g) (ground (arith, g.shut)))
  where
    start : IsGood (with_defaults c) (new_with_config c)
    start =
        unfold new_with_config in
        record {
          shut = refl;
          under = refl;
          clean = All-replicate (λ b. IsClean b) _ empty_bucket empty-IsClean;
        }
