-- ===== src/Cache/Coalescer/Tests.antt =====
-- cache/coalescer.go: two goroutines that ask for one key, and the theorems at concrete runs.
use switch.Prelude.Dict.{lookup, insert}
use switch.Prelude.{ℕ, ◌≡◌, refl, ◌≢◌, some}
use switch.Cache.Coalescer.{
  System, new_coalescer, enter, publish, clean_up, move, Reach, waiting, returned, timed_out,
  panicked, enters, publishes, cleans, wakes, times_out, here, next,
}
use switch.Cache.Coalescer.Exclusion.{one_execution}
use switch.Cache.Coalescer.Panic.{panic_sticks}

-- Goroutine 0 executes, goroutine 1 joins it.
abbrev both_in : System ℕ
both_in = enter 1 "k" (enter 0 "k" new_coalescer)

abbrev both_out : System ℕ
both_out = clean_up 0 "k" 0 42 (move 1 (returned 0 42) (publish 0 "k" 0 42 both_in))

Reach-both_in : Reach new_coalescer both_in
unfolding enter new_coalescer lookup insert
Reach-both_in = next (next here (enters 0 "k" refl)) (enters 1 "k" refl)

Reach-both_out : Reach new_coalescer both_out
unfolding enter new_coalescer lookup insert publish move clean_up
Reach-both_out =
    next (next (next Reach-both_in (publishes 0 "k" 0 42 refl)) (wakes 1 0 42 refl refl))
      (cleans 0 "k" 0 42 refl)

one_execution_example : ◌≡◌ {A = ℕ} 0 0
unfolding enter new_coalescer lookup insert
one_execution_example = one_execution {s = both_in} 0 0 "k" 0 0 Reach-both_in refl refl

abbrev after_panic : System ℕ
after_panic = move 1 timed_out (move 0 panicked both_in)

panic_sticks_example :
    (lookup "k" after_panic.pending ≡ some 0)
    × (after_panic.threads 1 ≢ returned 0 42)
    × ((enter 1 "k" after_panic).threads 1 ≡ waiting 0)
unfolding enter new_coalescer lookup insert move
panic_sticks_example =
    panic_sticks {s = both_in} {t = after_panic} 0 1 "k" 0 42 Reach-both_in refl
      (next here (times_out 1 0 refl))
