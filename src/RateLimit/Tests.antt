-- ===== src/RateLimit/Tests.antt =====
-- Runs of the limiters, and the theorems about them at concrete inputs.
use switch.Prelude.Dict.{lookup, insert}
use switch.Prelude.{◌+◌, ◌-◌, ◌*◌, ◌^◌, ◌≤◌, ◌≡◌, refl, none, some, List, [], ◌∷◌, arith}
use switch.RateLimit.Level.{minute, refill_level, take_tokens}
use switch.RateLimit.Estimate.{content_bytes, token_estimate}
use switch.Prelude.Int.{pos, negsuc, wrapped}
use switch.RateLimit.Retry
use switch.RateLimit.Retry.{RetryBudget, attempts, new_retry_budget}
use switch.RateLimit.Provider.{ProviderRateLimiter}
use switch.RateLimit.Multi
use switch.RateLimit.Multi.{MultiRateLimiter}
use switch.RateLimit.Multi.Accept.{levels, filled, reason_at, IsUncharged, allow_refuses}
use switch.RateLimit.Multi.Accounts.{Request, requests_of, tokens_of, returned_to, key_limit-holds}

-- Two retries a minute: the third within the first seconds is refused.
three_attempts : (attempts (new_retry_budget 0 2) (1 ∷ 2 ∷ 3 ∷ [])).1 ≡ 2
unfolding Retry.attempts Retry.new_retry_budget Retry.try_consume Retry.refill refill_level
three_attempts = refl

abbrev spent : RetryBudget
spent = record { max_per_min = 2; bucket = 0; last_fill = 5 }

abbrev provider_limiter : ProviderRateLimiter
provider_limiter = record {
  rpm_bucket = minute;
  tpm_bucket = 0;
  rpm_limit = 1;
  tpm_limit = 0;
  last_refill = 9;
}

-- Key "k" may make one request of ten tokens a minute.
abbrev limiter : MultiRateLimiter
limiter = Multi.set_key_limit 0 "k" 1 10 (Multi.new_multi_rate_limiter 0 0 0)

first_call : (Multi.allow 1 "k" "m" (pos 4) limiter).1 ≡ none
unfolding Multi.allow Multi.set_key_limit Multi.new_multi_rate_limiter Multi.new_bucket Multi.update
    Multi.refill Multi.verdict Multi.verdict_of Multi.deduct_all Multi.deduct refill_level
    take_tokens lookup insert
first_call = refl

eleven_tokens : (Multi.allow 1 "k" "m" (pos 11) limiter).1 ≡ some Multi.key_token_limit
unfolding Multi.allow Multi.set_key_limit Multi.new_multi_rate_limiter Multi.new_bucket Multi.update
    Multi.refill Multi.verdict Multi.verdict_of Multi.deduct_all Multi.deduct refill_level
    take_tokens lookup insert
eleven_tokens = refl

allow_refuses_example :
    let l = levels "k" "m" limiter in
    let l' = levels "k" "m" (Multi.allow 1 "k" "m" (pos 11) limiter).0 in
    IsUncharged 1 l.key l'.key
    × IsUncharged 1 l.model l'.model
    × IsUncharged 1 l.provider l'.provider
    × (reason_at (pos 11) (filled 1 l) ≡ some Multi.key_token_limit)
allow_refuses_example = allow_refuses 1 "k" "m" (pos 11) limiter eleven_tokens

abbrev history : List Request
history =
    record { at = 1; key = "k"; model = "m"; count = pos 4 }
    ∷ record { at = 2; key = "j"; model = "m"; count = pos 4 }
    ∷ []

key_limit-holds_example :
    (requests_of "k" limiter history * minute ≤ 1 * minute + (2 - 0) * 1)
    × (tokens_of "k" limiter history * minute
        ≤ 10 * minute + (2 - 0) * 10 + returned_to "k" limiter history * minute)
key_limit-holds_example =
    key_limit-holds (Multi.new_multi_rate_limiter 0 0 0) "k" 1 10 0 2 history (omega arith)
      (omega arith) (omega arith) (omega arith, (omega arith, tt))

-- The largest MaxTokens makes the estimate negative.
estimate_wraps : token_estimate ((1 ∷ []) ∷ []) (2 ^ 63 - 1) ≡ negsuc (2 ^ 63 - 1)
unfolding token_estimate wrapped content_bytes
estimate_wraps = refl
