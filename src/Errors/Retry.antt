-- ===== src/Errors/Retry.antt =====
-- provider/errors.go: Retry. `outcome n` is what the n-th call of fn returns, none for nil; the errors
-- are of any type. MaxRetries is an int; where it is negative the loop has no round.
pub mod Runs
pub mod Backoff
use switch.Prelude.{
  ℕ, zero, suc, ◌+◌, ◌-◌, ◌*◌, ◌/◌, ◌%◌, ◌^◌, Option, none, some, List, [], ◌∷◌, ltb, leb,
  if◌then◌else◌,
}
use switch.Prelude.Int.{ℤ, pos, negsuc}
use switch.Errors.{ErrorKind, retryable}

-- Delays in nanoseconds.
pub record RetryConfig : Type 0 where
  pub max_retries : ℤ
  pub base_delay : ℕ
  pub max_delay : ℕ

abbrev pub default_retry_config : RetryConfig
default_retry_config = record {
  max_retries = pos 3;
  base_delay = 500000000;
  max_delay = 10000000000;
}

-- BaseDelay << attempt, as an int64; one that has its top bit is negative.
unfoldable pub raw_delay : RetryConfig → ℕ → ℕ
raw_delay cfg attempt = (cfg.base_delay * 2 ^ attempt) % 2 ^ 64

-- With the jitter, a quarter of the delay, of which one half is taken off again.
abbrev pub jittered : ℕ → ℕ
jittered delay = delay - (delay / 4) / 2 + delay / 4

-- The time slept. A negative delay is not above MaxDelay and has no jitter, and Sleep returns at
-- once.
unfoldable pub backoff : RetryConfig → ℕ → ℕ
backoff cfg attempt =
    let raw = raw_delay cfg attempt in
    if leb (2 ^ 63) raw then 0 else jittered (if ltb cfg.max_delay raw then cfg.max_delay else raw)

-- nil, an error that is not retryable, or the last error after so many attempts; where there was no
-- attempt the error wraps nil, and says that it comes after minus so many.
pub data RetryResult (E : Type 0) : Type 0 where
  succeeded : RetryResult E
  not_retried : E → RetryResult E
  exhausted : ℕ → E → RetryResult E
  untried : ℕ → RetryResult E

-- The result, the number of calls of fn, and the times slept between them.
pub record RetryRun (E : Type 0) : Type 0 where
  pub result : RetryResult E
  pub calls : ℕ
  pub slept : List ℕ

-- `most` is MaxRetries where it is not negative.
module _ {E : Type 0} (outcome : ℕ → Option E) (classify : E → ErrorKind) (cfg : RetryConfig)
    (most : ℕ) where
  -- What the loop's body does with an outcome: `more` is none in the last round.
  unfoldable pub round : ℕ → Option E → Option (RetryRun E) → RetryRun E
  round attempt none more = record { result = succeeded; calls = suc attempt; slept = [] }
  round attempt (some err) none = record {
    result = exhausted (suc most) err;
    calls = suc attempt;
    slept = [];
  }
  round attempt (some err) (some rest) =
      if retryable (classify err)
      then record rest { slept = backoff cfg attempt ∷ rest.slept }
      else record { result = not_retried err; calls = suc attempt; slept = [] }

  -- The loop, with the number of rounds after this one.
  unfoldable pub retry_from : ℕ → ℕ → RetryRun E
  retry_from zero attempt = round attempt (outcome attempt) none
  retry_from (suc left) attempt =
      let rest = retry_from left (suc attempt) in round attempt (outcome attempt) (some rest)

unfoldable pub retry : {E : Type 0} → (ℕ → Option E) → (E → ErrorKind) → RetryConfig → RetryRun E
retry outcome classify cfg = elim cfg.max_retries [
  | pos most ↦ retry_from outcome classify cfg most most 0
  | negsuc n ↦ record { result = untried n; calls = 0; slept = [] }
]
