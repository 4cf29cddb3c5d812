-- ===== src/Concurrency/Tests.antt =====
-- The limiters of requests under way: runs, and the theorems at concrete inputs.
use switch.Prelude.Sort.{keep}
use switch.Prelude.{◌+◌, ◌≤◌, ◌≡◌, refl, [], ◌∷◌, arith}
use switch.Concurrency.Shedder.{
  LoadShedder, new_load_shedder, count_in, admitted-le, comes, here, next,
}
use switch.Concurrency.Adaptive.{
  AdaptiveSemaphore, AdaptiveConcurrencyConfig, acquire, default_adaptive_config,
  new_adaptive_semaphore, scaled, clamp, resize, adjust,
}
use switch.Concurrency.Adaptive.Bounds.{
  Inv, perform_all, perform, perform_all_new-Inv, acquires, releases, samples, adjusts,
}

-- One place: the second request counts itself in, and is refused.
abbrev crowded : LoadShedder
crowded = count_in (count_in (new_load_shedder 1))

admitted-le_example :
    (crowded.admitted ≤ 1) × (crowded.in_flight ≡ crowded.admitted + crowded.refusing)
admitted-le_example = admitted-le 1 (omega arith) (next (next here comes) comes)

second-refused : crowded.refusing ≡ 1
unfolding count_in new_load_shedder
second-refused = refl

-- Four requests are under way when the latency is found to be three times the best one.
abbrev slow_calls : AdaptiveSemaphore
slow_calls = record {
  held = 4;
  min_rtt = 10;
  current_max = 4;
  min_concurrency = 2;
  max_concurrency = 100;
  last_adjust = 0;
  adjust_interval = 5;
  gradient_window = 30;
  latencies = 30 ∷ 0 ∷ [];
  lat_idx = 1;
}

halved : (adjust 9 slow_calls).current_max ≡ 2
unfolding adjust resize clamp scaled keep
halved = refl

-- What a provider with at most five requests at once gets: the limit begins at ten.
abbrev at_most_five : AdaptiveConcurrencyConfig
at_most_five = record default_adaptive_config { max_concurrency = 5 }

above_maximum :
    (perform_all
      (new_adaptive_semaphore at_most_five)
      (acquires ∷ acquires ∷ acquires ∷ acquires ∷ acquires ∷ acquires ∷ [])).held
    ≡ 6
unfolding perform_all perform acquire new_adaptive_semaphore
above_maximum = refl

perform_all_new-Inv_example : Inv (new_adaptive_semaphore at_most_five) (
    perform_all
      (new_adaptive_semaphore at_most_five)
      (acquires ∷ samples 7 ∷ adjusts 200000000 ∷ releases ∷ []))
perform_all_new-Inv_example =
    perform_all_new-Inv at_most_five (acquires ∷ samples 7 ∷ adjusts 200000000 ∷ releases ∷ [])
