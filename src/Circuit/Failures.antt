-- ===== src/Circuit/Failures.antt =====
-- provider/circuit.go: a run of failures on a breaker that sees no success.
use switch.Prelude.{
  ℕ, suc, ◌<◌, ◌≡◌, refl, ap, Bool, true, List, [], ◌∷◌, arith, ltb, if◌then◌else◌, length, All,
  get_or-set_self, All-set, get_or-All, All-replicate, sym, ◌∙◌, subst, ◌++◌,
}
use switch.Circuit.{
  Bucket, empty_bucket, CircuitBreaker, transition_to, sum_total, sum_failures,
  unstable_sensitivity, sensitivity, bucket_at, prev_idx, recent_total, recent_fail, trips,
  should_open, evaluate, count_call, closed, opened, Config, new_with_config, record_call, Call,
  records, step, run,
}
use switch.Circuit.Window.{sum_total-set, sum_total-replicate}
use switch.Circuit.Invariant.{Inv, counted_in, count_outcome_closed, new-Inv, counted_in-Inv}

-- A bucket all of whose calls failed.
pub record IsFailing (b : Bucket) : Type 0 where
  pub all_failed : b.failures ≡ b.total_calls

empty-IsFailing : IsFailing empty_bucket
empty-IsFailing = ground arith

count_failure-IsFailing :
    (slow : Bool) (b : Bucket) → IsFailing b → IsFailing (count_call true slow b)
unfolding count_call
count_failure-IsFailing slow b h = ground arith

sum_failing : (bs : List Bucket) → All IsFailing bs → sum_failures bs ≡ sum_total bs
unfolding sum_failures sum_total
sum_failing [] h = refl
sum_failing (b ∷ bs) h = omega (arith, sum_failing bs h.1)

-- No call in the window succeeded.
abbrev pub HasNoSuccess : CircuitBreaker → Type 0
HasNoSuccess cb = All (λ b. IsFailing b) cb.buckets

-- The recent buckets of a window without a success decide for the unstable sensitivity.
failing_unstable :
    (cb : CircuitBreaker)
    → HasNoSuccess cb
    → 0 < (bucket_at cb cb.current_idx).total_calls
    → sensitivity cb.cfg (recent_total cb) (recent_fail cb) (sum_total cb.buckets)
      ≡ unstable_sensitivity
unfolding sensitivity recent_total recent_fail
failing_unstable cb f h =
    let here =
      get_or-All (λ b. IsFailing b) cb.buckets cb.current_idx empty_bucket f empty-IsFailing in
    let prev =
      get_or-All (λ b. IsFailing b) cb.buckets (prev_idx cb) empty_bucket f empty-IsFailing in
    ground (arith, here, prev)

evaluate_failing :
    (now : ℕ) (cb : CircuitBreaker)
    → cb.state ≡ closed
    → HasNoSuccess cb
    → 0 < (bucket_at cb cb.current_idx).total_calls
    → evaluate now cb ≡ (if ltb (sum_total cb.buckets) 3 then cb else transition_to now opened cb)
unfolding evaluate should_open trips
evaluate_failing now cb shut f h = ground (arith, failing_unstable cb f h, sum_failing cb.buckets f)

-- The window once one more failure is counted.
failing_outcome :
    (cb : CircuitBreaker) (duration : ℕ)
    → Inv cb
    → HasNoSuccess cb
    → let cb' = counted_in cb true duration in
      HasNoSuccess cb'
      × (0 < (bucket_at cb' cb'.current_idx).total_calls)
      × (sum_total cb'.buckets ≡ suc (sum_total cb.buckets))
unfolding count_call
failing_outcome cb duration v f =
    let slow = ltb cb.cfg.slow_call_duration_threshold duration in
    let old = bucket_at cb cb.current_idx in
    let new = count_call true slow old in
    let inside : cb.current_idx < length cb.buckets = omega (arith, v.in_range, v.sized) in
    let was =
      get_or-All (λ b. IsFailing b) cb.buckets cb.current_idx empty_bucket f empty-IsFailing in
    (
      All-set (λ b. IsFailing b) cb.buckets cb.current_idx new f
          (count_failure-IsFailing slow old was),
      omega (
        arith,
        ap (λ (b : Bucket). b.total_calls)
            (get_or-set_self cb.buckets cb.current_idx new empty_bucket inside),
      ),
      omega (arith, sum_total-set cb.buckets cb.current_idx new inside),
    )

-- Under any configuration, a failure recorded on a closed breaker whose window holds no success
-- opens it if the window then holds three calls or more, and is only counted otherwise.
pub record_failure :
    (now duration : ℕ) (cb : CircuitBreaker)
    → Inv cb
    → cb.state ≡ closed
    → HasNoSuccess cb
    → record_call now true duration cb ≡ (
        if ltb (suc (sum_total cb.buckets)) 3
        then counted_in cb true duration
        else transition_to now opened (counted_in cb true duration))
unfolding record_call
record_failure now duration cb v shut f =
    let (f', some_call, total) = failing_outcome cb duration v f in
    rw (count_outcome_closed now true duration cb shut)
      (ground (arith, evaluate_failing now (counted_in cb true duration) shut f' some_call, total))

-- Calls that all fail.
abbrev pub failing : List (ℕ × ℕ) → List (ℕ × Call)
failing [] = []
failing ((now, duration) ∷ rest) = (now, records true duration) ∷ failing rest

new-HasNoSuccess : (c : Config) → HasNoSuccess (new_with_config c)
unfolding new_with_config
new-HasNoSuccess c = All-replicate (λ b. IsFailing b) _ empty_bucket empty-IsFailing

sum_total-new : (c : Config) → sum_total (new_with_config c).buckets ≡ 0
unfolding new_with_config
sum_total-new c = sum_total-replicate _

-- A breaker that has so far only counted failures.
record Counting (k : ℕ) (cb : CircuitBreaker) : Type 0 where
  inv : Inv cb
  shut : cb.state ≡ closed
  no_success : HasNoSuccess cb
  total : sum_total cb.buckets ≡ k

count_failure :
    (k now duration : ℕ) (cb : CircuitBreaker)
    → Counting k cb
    → k < 2
    → Counting (suc k) (record_call now true duration cb)
unfolding record_call
count_failure k now duration cb h small =
    let stays : record_call now true duration cb ≡ counted_in cb true duration =
      record_failure now duration cb h.inv h.shut h.no_success ∙ ground (arith, h.total) in
    let (f', some_call, total) = failing_outcome cb duration h.inv h.no_success in
    subst (Counting (suc k)) (sym stays) (record {
      inv = counted_in-Inv cb true duration h.inv;
      shut = h.shut;
      no_success = f';
      total = omega (arith, total, h.total);
    })

-- Under any configuration, the first three calls of a new breaker, all failed, leave it closed
-- after the second and open after the third, at whatever times they end and however long they take.
pub third_failure-opens :
    (c : Config) (t₁ t₂ t₃ d₁ d₂ d₃ : ℕ)
    → let two : List (ℕ × Call) = (t₁, records true d₁) ∷ (t₂, records true d₂) ∷ [] in
      ((run (new_with_config c) two).state ≡ closed)
      × ((run (new_with_config c) (two ++ (t₃, records true d₃) ∷ [])).state ≡ opened)
unfolding run step transition_to
third_failure-opens c t₁ t₂ t₃ d₁ d₂ d₃ =
    let start : Counting 0 (new_with_config c) = record {
      inv = new-Inv c;
      shut = unfold new_with_config in refl;
      no_success = new-HasNoSuccess c;
      total = sum_total-new c;
    } in
    let one = count_failure 0 t₁ d₁ (new_with_config c) start (omega arith) in
    let two = count_failure 1 t₂ d₂ _ one (omega arith) in
    (
      two.shut,
      ground (
        arith,
        record_failure t₃ d₃ (record_call t₂ true d₂ (record_call t₁ true d₁ (new_with_config c)))
            two.inv two.shut two.no_success,
        two.total,
      ),
    )
