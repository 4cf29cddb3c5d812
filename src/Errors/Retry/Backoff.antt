-- ===== src/Errors/Retry/Backoff.antt =====
-- provider/errors.go: the time that Retry sleeps.
use native.Mathlib.Nat.{mod-eq_of_lt}
use switch.Prelude.{ℕ, ◌+◌, ◌*◌, ◌/◌, ◌%◌, ◌^◌, ◌≤◌, ◌<◌, min, ◌≡◌, arith}
use switch.Errors.Retry.{RetryConfig, raw_delay, backoff}

-- While BaseDelay << attempt does not overflow, the time slept is the truncated exponential delay
-- and its eighth part, up to a rounding by one: the jitter is always added and never taken off.
pub backoff-eighth :
    (cfg : RetryConfig) (attempt : ℕ)
    → cfg.base_delay * 2 ^ attempt < 2 ^ 63
    → let delay = min (cfg.base_delay * 2 ^ attempt) cfg.max_delay in
      (delay + delay / 8 ≤ backoff cfg attempt) × (backoff cfg attempt ≤ delay + delay / 8 + 1)
unfolding backoff raw_delay
backoff-eighth cfg attempt fits =
    let whole : (cfg.base_delay * 2 ^ attempt) % 2 ^ 64 ≡ cfg.base_delay * 2 ^ attempt =
      mod-eq_of_lt (omega (arith, fits)) in
    rw whole (ground arith, ground arith)
