-- ===== src/Slo/Tests.antt =====
-- observability/slo.go: the monitor at concrete calls.
use switch.Prelude.{◌≡◌, refl, true, false, some, List, [], ◌∷◌}
use switch.Slo.{
  SloMonitor, default_slo_config, new_slo_monitor, aggregate, evaluate, ticket, no_alert, level_of,
  burns, record_call, count_in, advance, advance_by, advance_once, count_call,
}
use switch.Slo.Marks.{count}
use switch.Slo.Windows.{run-windows, Call, run, write}
use switch.Slo.Alerts.{evaluate-default}

-- A call, one six minutes later and one after a long idle time.
abbrev calls : List Call
calls =
    record { now = 10; success = true }
    ∷ record { now = 360_000_000_000; success = false }
    ∷ record { now = 90_000_000_000_000; success = true }
    ∷ []

abbrev monitor : SloMonitor
monitor = run calls (new_slo_monitor 0 default_slo_config)

-- The idle time is a day, and the long window has not forgotten the calls before it.
day_old_calls_count : aggregate monitor.long_buckets ≡ record { total = 3; fails = 1 }
unfolding aggregate run record_call count_in advance new_slo_monitor advance_by advance_once
    count_call
day_old_calls_count = refl

run-windows_example :
    (aggregate monitor.short_buckets ≡ record { total = 1; fails = 0 })
    × (aggregate monitor.long_buckets ≡ record { total = 3; fails = 1 })
unfolding count write
run-windows_example = run-windows 0 default_slo_config calls

abbrev failing : SloMonitor
failing = record (new_slo_monitor 0 default_slo_config) {
  short_buckets = record { successes = 96; failures = 4 } ∷ [];
}

evaluate-default_example :
    ((evaluate failing).0.last_alert ≡ ticket)
    × ((evaluate failing).1
        ≡ some (record {
          level = ticket;
          short = record { total = 100; fails = 4 };
          long = record { total = 0; fails = 0 };
        }))
unfolding new_slo_monitor aggregate
evaluate-default_example = evaluate-default failing refl

-- At exactly three per cent the quotient of float64 is below the threshold.
three_per_cent :
    level_of default_slo_config
      (record { total = 100; fails = 3 })
      (record { total = 0; fails = 0 })
    ≡ no_alert
unfolding level_of burns
three_per_cent = refl
