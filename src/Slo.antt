-- ===== src/Slo.antt =====
-- observability/slo.go: the monitor of the error budget. Time is nanoseconds in ℕ; a rate is a ratio
-- of numbers, compared by cross products, with the rounding of float64 at a threshold. A call returns the new monitor and the alert that it gives
-- to the callback, if any.
pub mod Marks
pub mod Ring
pub mod Windows
pub mod Alerts
mod Tests
use switch.Prelude.{
  ℕ, zero, suc, ◌+◌, ◌-◌, ◌*◌, ◌/◌, ◌%◌, Bool, true, false, ◌&&◌, ◌||◌, not, Option, none, some,
  List, [], ◌∷◌, ltb, leb, ◌==◌, if◌then◌else◌, get_or, set, replicate,
}
use switch.Circuit.{Ratio}

pub record SloBucket : Type 0 where
  pub successes : ℕ
  pub failures : ℕ

abbrev pub no_calls : SloBucket
no_calls = record { successes = 0; failures = 0 }

-- A threshold of the burn rate. The code compares float64 quotients: an error rate, a number of failures
-- over a number of calls, divided by 1 - TargetSuccessRate, with the threshold. The rounding is
-- monotone, and while a window has fewer than 2 ^ 46 calls two rates that differ do so by more than it
-- can move them; so it decides only where the burn rate is exactly the threshold. The error rate is
-- then the same fraction whatever the counts, and so are its quotients: `reached_at` says whether they
-- come out at the threshold or above it, for the target in force.
pub record Threshold : Type 0 where
  pub rate : Ratio
  pub reached_at : Bool

pub record SloConfig : Type 0 where
  pub target_success_rate : Ratio
  pub page_threshold : Threshold
  pub ticket_threshold : Threshold

-- 1 - 0.995 is 0.0050000000000000044 in float64, so that 72/1000 comes out as 14.399999999999986, and
-- 3/100 as 5.999999999999995.
abbrev pub default_slo_config : SloConfig
default_slo_config = record {
  target_success_rate = record { num = 995; den = 1000 };
  page_threshold = record { rate = record { num = 144; den = 10 }; reached_at = false };
  ticket_threshold = record { rate = record { num = 6; den = 1 }; reached_at = false };
}

pub data AlertLevel : Type 0 where
  no_alert ticket page : AlertLevel

-- The calls and failures of a window.
pub record Tally : Type 0 where
  pub total : ℕ
  pub fails : ℕ

pub record SloAlert : Type 0 where
  pub level : AlertLevel
  pub short : Tally
  pub long : Tally

pub record SloMonitor : Type 0 where
  pub cfg : SloConfig
  pub short_buckets : List SloBucket
  pub long_buckets : List SloBucket
  pub short_idx : ℕ
  pub long_idx : ℕ
  pub last_advance : ℕ
  pub last_alert : AlertLevel
  pub records_since : ℕ

abbrev pub bucket_size : ℕ
bucket_size = 300_000_000_000

unfoldable pub new_slo_monitor : ℕ → SloConfig → SloMonitor
new_slo_monitor now cfg = record {
  cfg = cfg;
  short_buckets = replicate 12 no_calls;
  long_buckets = replicate 36 no_calls;
  short_idx = 0;
  long_idx = 0;
  last_advance = now;
  last_alert = no_alert;
  records_since = 0;
}

abbrev pub add_call : Bool → SloBucket → SloBucket
add_call success b =
    if success
    then record b { successes = suc b.successes }
    else record b { failures = suc b.failures }

unfoldable pub count_call : Bool → ℕ → List SloBucket → List SloBucket
count_call success idx bs = set bs idx (add_call success (get_or bs idx no_calls))

-- One turn of the loop of advance.
unfoldable pub advance_once : SloMonitor → SloMonitor
advance_once sm =
    let short = (sm.short_idx + 1) % 12 in
    let long = (sm.long_idx + 1) % 36 in
    record sm {
      short_idx = short;
      short_buckets = set sm.short_buckets short no_calls;
      long_idx = long;
      long_buckets = set sm.long_buckets long no_calls;
    }

unfoldable pub advance_by : ℕ → SloMonitor → SloMonitor
advance_by zero sm = sm
advance_by (suc steps) sm = advance_by steps (advance_once sm)

abbrev pub steps_after : ℕ → ℕ
steps_after elapsed = let steps = elapsed / bucket_size in if ltb 12 steps then 12 else steps

unfoldable pub advance : ℕ → SloMonitor → SloMonitor
advance now sm =
    let elapsed = now - sm.last_advance in
    if ltb elapsed bucket_size
    then sm
    else record (advance_by (steps_after elapsed) sm) { last_advance = now }

unfoldable pub aggregate : List SloBucket → Tally
aggregate [] = record { total = 0; fails = 0 }
aggregate (b ∷ bs) =
    let rest = aggregate bs in
    record { total = b.successes + b.failures + rest.total; fails = b.failures + rest.fails }

-- The error rate of the window over the budgeted error rate is at least the threshold, as float64 has
-- it. Both rates are 0 where there is nothing to divide by.
unfoldable pub burns : SloConfig → Threshold → Tally → Bool
burns cfg threshold w =
    let budget = cfg.target_success_rate.den - cfg.target_success_rate.num in
    let limit = threshold.rate.num * budget * w.total in
    let burnt = w.fails * cfg.target_success_rate.den * threshold.rate.den in
    if w.total == 0 || budget == 0
    then threshold.rate.num == 0
    else if burnt == limit
    then threshold.reached_at
    else ltb limit burnt

-- The burn rate is that of the worse window.
unfoldable pub level_of : SloConfig → Tally → Tally → AlertLevel
level_of cfg short long =
    if burns cfg cfg.page_threshold short || burns cfg cfg.page_threshold long
    then page
    else if burns cfg cfg.ticket_threshold short || burns cfg cfg.ticket_threshold long
    then ticket
    else no_alert

abbrev pub same_level : AlertLevel → AlertLevel → Bool
same_level no_alert no_alert = true
same_level no_alert ticket = false
same_level no_alert page = false
same_level ticket no_alert = false
same_level ticket ticket = true
same_level ticket page = false
same_level page no_alert = false
same_level page ticket = false
same_level page page = true

unfoldable pub evaluate : SloMonitor → SloMonitor × Option SloAlert
evaluate sm =
    let short = aggregate sm.short_buckets in
    let long = aggregate sm.long_buckets in
    let level = level_of sm.cfg short long in
    (
      record sm { last_alert = level },
      if not (same_level level no_alert) && not (same_level level sm.last_alert)
          then some (record { level = level; short = short; long = long })
          else none,
    )

-- The counts of record, up to the test of every thirtieth.
unfoldable pub count_in : ℕ → Bool → SloMonitor → SloMonitor
count_in now success sm =
    let a = advance now sm in
    record a {
      short_buckets = count_call success a.short_idx a.short_buckets;
      long_buckets = count_call success a.long_idx a.long_buckets;
      records_since = suc a.records_since;
    }

unfoldable pub record_call : ℕ → Bool → SloMonitor → SloMonitor × Option SloAlert
record_call now success sm =
    let c = count_in now success sm in
    if leb 30 c.records_since then evaluate (record c { records_since = 0 }) else (c, none)
