-- ===== src/RateLimit/Multi.antt =====
-- provider/rate_limit_multi.go: MultiRateLimiter. The count of tokens is an int, which may be negative.
pub mod Accept
pub mod Spends
pub mod Accounts
use mathlib.Core.Option
use switch.Prelude.{ℕ, ◌-◌, ◌*◌, String, ◌&&◌, Option, none, some, [], ◌∷◌, ltb, leb, if◌then◌else◌}
use switch.Prelude.Dict.{Dict, lookup, insert, remove}
use switch.Prelude.Int.{ℤ, pos_part}
use switch.RateLimit.Level.{minute, refill_level, take_tokens}

-- tokenBucket.
pub record TokenBucket : Type 0 where
  pub rpm : ℕ
  pub tpm : ℕ
  pub req_bucket : ℕ
  pub tok_bucket : ℕ
  pub last_fill : ℕ

pub record MultiRateLimiter : Type 0 where
  pub per_key : Dict TokenBucket
  pub per_model : Dict TokenBucket
  pub per_provider : Option TokenBucket

-- The strings that say which limit refused; their absence is "allowed".
pub data Reason : Type 0 where
  key_rate_limit key_token_limit model_rate_limit model_token_limit : Reason
  provider_rate_limit provider_token_limit : Reason

unfoldable pub new_bucket : ℕ → ℕ → ℕ → TokenBucket
new_bucket now rpm tpm = record {
  rpm = rpm;
  tpm = tpm;
  req_bucket = rpm * minute;
  tok_bucket = tpm * minute;
  last_fill = now;
}

unfoldable pub new_multi_rate_limiter : ℕ → ℕ → ℕ → MultiRateLimiter
new_multi_rate_limiter now provider_rpm provider_tpm = record {
  per_key = [];
  per_model = [];
  per_provider = some (new_bucket now provider_rpm provider_tpm);
}

unfoldable pub set_key_limit : ℕ → String → ℕ → ℕ → MultiRateLimiter → MultiRateLimiter
set_key_limit now key rpm tpm m = record m {
  per_key = insert key (new_bucket now rpm tpm) m.per_key;
}

unfoldable pub set_model_limit : ℕ → String → ℕ → ℕ → MultiRateLimiter → MultiRateLimiter
set_model_limit now model rpm tpm m = record m {
  per_model = insert model (new_bucket now rpm tpm) m.per_model;
}

unfoldable pub clear_key_limit : String → MultiRateLimiter → MultiRateLimiter
clear_key_limit key m = record m { per_key = remove key m.per_key }

unfoldable pub clear_model_limit : String → MultiRateLimiter → MultiRateLimiter
clear_model_limit model m = record m { per_model = remove model m.per_model }

-- KeyLimits and ModelLimits: name → (rpm, tpm).
unfoldable pub limits : Dict TokenBucket → Dict (ℕ × ℕ)
limits [] = []
limits ((k, b) ∷ m) = (k, (b.rpm, b.tpm)) ∷ limits m

unfoldable pub key_limits : MultiRateLimiter → Dict (ℕ × ℕ)
key_limits m = limits m.per_key

unfoldable pub model_limits : MultiRateLimiter → Dict (ℕ × ℕ)
model_limits m = limits m.per_model

unfoldable pub refill : ℕ → TokenBucket → TokenBucket
refill now b = if leb now b.last_fill then b else record b {
  last_fill = now;
  req_bucket =
      if ltb 0 b.rpm then refill_level b.rpm (now - b.last_fill) b.req_bucket else b.req_bucket;
  tok_bucket =
      if ltb 0 b.tpm then refill_level b.tpm (now - b.last_fill) b.tok_bucket else b.tok_bucket;
}

-- The two tests of one level. A count that is not positive needs no tokens.
unfoldable pub verdict : Reason → Reason → ℤ → TokenBucket → Option Reason
verdict rate tokens_out count b =
    if ltb 0 b.rpm && ltb b.req_bucket minute
    then some rate
    else if ltb 0 b.tpm && ltb b.tok_bucket (pos_part count * minute)
    then some tokens_out
    else none

unfoldable pub deduct : ℤ → TokenBucket → TokenBucket
deduct count b = record b {
  req_bucket = if ltb 0 b.rpm then b.req_bucket - minute else b.req_bucket;
  tok_bucket = if ltb 0 b.tpm then take_tokens count b.tok_bucket else b.tok_bucket;
}

-- A bucket of a map is changed in place; a missing one is not limited.
unfoldable pub update : (TokenBucket → TokenBucket) → String → Dict TokenBucket → Dict TokenBucket
update f k m = elim (lookup k m) [ none ↦ m | some b ↦ insert k (f b) m ]

unfoldable pub verdict_of : Reason → Reason → ℤ → Option TokenBucket → Option Reason
verdict_of rate tokens_out count none = none
verdict_of rate tokens_out count (some b) = verdict rate tokens_out count b

-- "All passed — deduct from all levels".
unfoldable pub deduct_all : String → String → ℤ → MultiRateLimiter → MultiRateLimiter
deduct_all key model count m = record {
  per_key = update (deduct count) key m.per_key;
  per_model = update (deduct count) model m.per_model;
  per_provider = Option.map (deduct count) m.per_provider;
}

allow_provider : ℕ → String → String → ℤ → MultiRateLimiter → MultiRateLimiter × Option Reason
allow_provider now key model count m =
    let m' = record m { per_provider = Option.map (refill now) m.per_provider } in
    elim (verdict_of provider_rate_limit provider_token_limit count m'.per_provider) [
      | some r ↦ (m', some r)
      | none ↦ (deduct_all key model count m', none)
    ]

allow_model : ℕ → String → String → ℤ → MultiRateLimiter → MultiRateLimiter × Option Reason
unfolding allow_provider
allow_model now key model count m =
    let m' = record m { per_model = update (refill now) model m.per_model } in
    elim (verdict_of model_rate_limit model_token_limit count (lookup model m'.per_model)) [
      | some r ↦ (m', some r)
      | none ↦ allow_provider now key model count m'
    ]

unfoldable pub allow : ℕ → String → String → ℤ → MultiRateLimiter → MultiRateLimiter × Option Reason
unfolding allow_model
allow now key model count m =
    let m' = record m { per_key = update (refill now) key m.per_key } in
    elim (verdict_of key_rate_limit key_token_limit count (lookup key m'.per_key)) [
      | some r ↦ (m', some r)
      | none ↦ allow_model now key model count m'
    ]
