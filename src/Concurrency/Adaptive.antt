-- ===== src/Concurrency/Adaptive.antt =====
-- provider/concurrency_adaptive.go: AdaptiveSemaphore. The channel of slots is the number that it
-- holds, of at most current_max; a call that would block has no result. Latencies are nanoseconds in
-- ℕ. The product with 0.9 is rounded down.
pub mod Bounds
use switch.Prelude.Sort.{keep}
use switch.Prelude.{
  ℕ, suc, ◌+◌, ◌-◌, ◌*◌, ◌/◌, ◌%◌, Option, none, some, List, ltb, leb, ◌==◌, if◌then◌else◌, length,
  get_or, set, replicate,
}

pub record AdaptiveConcurrencyConfig : Type 0 where
  pub min_concurrency : ℕ
  pub max_concurrency : ℕ
  pub initial_max : ℕ
  pub adjust_interval : ℕ
  pub gradient_window : ℕ

pub record AdaptiveSemaphore : Type 0 where
  pub held : ℕ
  pub min_rtt : ℕ
  pub current_max : ℕ
  pub min_concurrency : ℕ
  pub max_concurrency : ℕ
  pub last_adjust : ℕ
  pub adjust_interval : ℕ
  pub gradient_window : ℕ
  pub latencies : List ℕ
  pub lat_idx : ℕ

abbrev pub millisecond : ℕ
millisecond = 1000000

abbrev pub default_adaptive_config : AdaptiveConcurrencyConfig
default_adaptive_config = record {
  min_concurrency = 2;
  max_concurrency = 100;
  initial_max = 10;
  adjust_interval = 100 * millisecond;
  gradient_window = 30000 * millisecond;
}

abbrev pub or_default : ℕ → ℕ → ℕ
or_default n d = if n == 0 then d else n

unfoldable pub new_adaptive_semaphore : AdaptiveConcurrencyConfig → AdaptiveSemaphore
new_adaptive_semaphore cfg = record {
  held = 0;
  min_rtt = 3600000 * millisecond;
  current_max = or_default cfg.initial_max 10;
  min_concurrency = or_default cfg.min_concurrency 2;
  max_concurrency = or_default cfg.max_concurrency 100;
  last_adjust = 0;
  adjust_interval = or_default cfg.adjust_interval (100 * millisecond);
  gradient_window = or_default cfg.gradient_window (30000 * millisecond);
  latencies = replicate 100 0;
  lat_idx = 0;
}

unfoldable pub acquire : AdaptiveSemaphore → Option AdaptiveSemaphore
acquire a = if ltb a.held a.current_max then some (record a { held = suc a.held }) else none

unfoldable pub release : AdaptiveSemaphore → Option AdaptiveSemaphore
release a = if ltb 0 a.held then some (record a { held = a.held - 1 }) else none

unfoldable pub record_latency : ℕ → AdaptiveSemaphore → AdaptiveSemaphore
record_latency d a = record a {
  latencies = set a.latencies a.lat_idx d;
  lat_idx = suc a.lat_idx % length a.latencies;
  min_rtt = if leb a.min_rtt d then a.min_rtt else d;
}

-- By how far the current latency is off the best one.
unfoldable pub scaled : ℕ → ℕ → ℕ → ℕ
scaled current_rtt min_rtt current_max =
    if ltb (2 * min_rtt) current_rtt
    then current_max / 2
    else if ltb (13 * min_rtt) (10 * current_rtt)
    then current_max * 9 / 10
    else current_max + 1

unfoldable pub clamp : ℕ → ℕ → ℕ → ℕ
clamp low high n = let m = if ltb n low then low else n in if ltb high m then high else m

-- A new channel takes over as many slots as it has room for.
unfoldable pub resize : ℕ → AdaptiveSemaphore → AdaptiveSemaphore
resize new_max a =
    if new_max == a.current_max
    then a
    else record a { current_max = new_max; held = if ltb new_max a.held then new_max else a.held }

unfoldable pub adjust : ℕ → AdaptiveSemaphore → AdaptiveSemaphore
adjust now a =
    if ltb (now - a.last_adjust) a.adjust_interval
    then a
    else let samples = keep (λ l. ltb 0 l) a.latencies in
      let b = record a { last_adjust = now } in
      if length samples == 0
      then b
      else resize
          (clamp a.min_concurrency a.max_concurrency
            (scaled (get_or samples (length samples / 2) 0) a.min_rtt a.current_max))
          b
