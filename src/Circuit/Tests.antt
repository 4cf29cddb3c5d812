-- ===== src/Circuit/Tests.antt =====
-- Runs of a breaker (provider/circuit.go), and the theorems about it at concrete inputs.
use switch.Prelude.{ℕ, ◌≡◌, refl, true, false, List, [], ◌∷◌, arith, ◌+◌, replicate}
use switch.Circuit.{
  Config, CircuitBreaker, default_config, with_defaults, new_with_config, transition_to, sum_total,
  sum_failures, sum_slow, sensitivity, recent_total, recent_fail, trips, should_open, evaluate,
  read_state, allow, count_call, count_outcome, record_call, Call, step, run, closed, opened,
  asks_allow, advances, records, empty_bucket, half_open,
}
use switch.Circuit.Invariant.{Inv, run_new-Inv, run-Inv}
use switch.Circuit.Trip.{IsModerateConfig}
use switch.Circuit.Recovery.{IsFresh, open_refuses, succeeding, half_open_closes}
use switch.Circuit.Runs.{good_calls-closed}
use switch.Circuit.Unadvanced.{IsOneBucket, unadvanced-IsOneBucket}

-- A configuration with nothing but a short wait: the rest are defaults.
abbrev partial_config : Config
partial_config = record default_config {
  wait_duration_in_open = 5;
  half_open_permits = 2 ∷ 4 ∷ [];
  slow_call_duration_threshold = 0;
}

abbrev fresh : CircuitBreaker
fresh = new_with_config partial_config

abbrev failures : List (ℕ × Call)
failures = (10, records true 1) ∷ (11, records true 1) ∷ (12, records true 1) ∷ []

abbrev tripped : CircuitBreaker
tripped = run fresh failures

tripped_opens : tripped.state ≡ opened
unfolding run step record_call evaluate count_outcome transition_to should_open trips sensitivity
    new_with_config sum_total sum_failures sum_slow recent_total recent_fail count_call
tripped_opens = refl

-- Open at 12, refused at 16, tried at 17, and closed by the second success.
recovers :
    (run tripped (
      (16, asks_allow)
      ∷ (17, asks_allow)
      ∷ (18, records false 1)
      ∷ (19, records false 1)
      ∷ [])).state
    ≡ closed
unfolding run step record_call read_state allow evaluate count_outcome transition_to should_open
    trips sensitivity new_with_config sum_total sum_failures sum_slow recent_total recent_fail
    count_call
recovers = refl

run_new-Inv_example : Inv tripped
run_new-Inv_example = run_new-Inv partial_config failures

good_calls-closed_example :
    ((run fresh ((10, records false 3) ∷ (11, advances) ∷ [])).state ≡ closed)
    × ((allow 20 (run fresh ((10, records false 3) ∷ (11, advances) ∷ []))).1 ≡ true)
good_calls-closed_example =
    good_calls-closed partial_config ((10, records false 3) ∷ (11, advances) ∷ []) 20
      ((refl, unfold with_defaults in omega arith), (tt, tt))

unadvanced-IsOneBucket_example : IsOneBucket tripped
unadvanced-IsOneBucket_example = unadvanced-IsOneBucket partial_config failures (tt, (tt, (tt, tt)))

-- Ten calls of which seven failed, under the defaults, counted and not yet evaluated.
abbrev loaded : CircuitBreaker
loaded = record {
  cfg = default_config;
  state = closed;
  buckets =
      record { successes = 3; failures = 7; slow_calls = 0; total_calls = 10 }
      ∷ replicate 9 empty_bucket;
  current_idx = 0;
  opened_at = 0;
  half_open_idx = 0;
  half_open_ok = 0;
  half_open_need = 1;
}

default-IsModerate : IsModerateConfig default_config
default-IsModerate = omega arith

loaded_opens : (evaluate 9 loaded).state ≡ opened
unfolding evaluate transition_to should_open trips sensitivity sum_total sum_failures sum_slow
    recent_total recent_fail
loaded_opens = refl

-- Open since time 12, for a wait of 5.
abbrev off : CircuitBreaker
off = record loaded { cfg = with_defaults partial_config; state = opened; opened_at = 12 }

open_refuses_example :
    ((allow 16 (run off ((13, records false 1) ∷ (14, advances) ∷ []))).1 ≡ false)
    × ((run off ((13, records false 1) ∷ (14, advances) ∷ [])).opened_at ≡ 12)
unfolding with_defaults
open_refuses_example =
    open_refuses off ((13, records false 1) ∷ (14, advances) ∷ []) 16 refl
      (omega arith, (omega arith, tt)) (omega arith)

-- The first stage of a recovery that needs two successes.
abbrev trying : CircuitBreaker
trying = run tripped ((17, asks_allow) ∷ [])

trying-Inv : Inv trying
trying-Inv = run-Inv tripped ((17, asks_allow) ∷ []) (run_new-Inv partial_config failures)

trying_half_open : trying.state ≡ half_open
unfolding run step record_call read_state allow evaluate count_outcome transition_to should_open
    trips sensitivity new_with_config sum_total sum_failures sum_slow recent_total recent_fail
    count_call
trying_half_open = refl

trying_needs : trying.half_open_ok + 1 + 1 ≡ trying.half_open_need
unfolding run step record_call read_state allow evaluate count_outcome transition_to should_open
    trips sensitivity new_with_config sum_total sum_failures sum_slow recent_total recent_fail
    count_call
trying_needs = refl

half_open_closes_example :
    ((run trying (succeeding ((18, 1) ∷ []))).state ≡ half_open)
    × IsFresh (record_call 19 false 1 (run trying (succeeding ((18, 1) ∷ []))))
half_open_closes_example =
    half_open_closes trying ((18, 1) ∷ []) 19 1 trying-Inv trying_half_open trying_needs
