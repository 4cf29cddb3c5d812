-- ===== src/Errors/Tests.antt =====
-- provider/errors.go: runs of Retry and of the classifiers, and the theorems at concrete inputs.
use switch.Prelude.{
  ℕ, ◌≡◌, refl, ◌&&◌, ◌||◌, not, Option, none, some, [], ◌∷◌, ltb, leb, ◌==◌, if◌then◌else◌,
}
use switch.Prelude.Int.{negsuc}
use switch.Errors.{ErrorKind, retryable, rate_limit, model_not_found}
use switch.Errors.Classify.{
  classify_with_message-retryable, contains_any, first_kind, refine_kind, classify_with_message,
  has_words,
}
use switch.Errors.Retry.{default_retry_config, raw_delay, backoff, round, retry_from, retry}
use switch.Errors.Retry.Runs.{IsRun, retry-IsRun}

-- A 429 that names the model is not retried.
rate_limit-misread :
    classify_with_message 429 "rate limit reached for model gpt-4" ≡ model_not_found
unfolding classify_with_message first_kind refine_kind contains_any
rate_limit-misread = refl

classify_with_message-retryable_example :
    retryable (classify_with_message 429 "slow down")
    ≡ (leb 500 429 || (429 == 429 && not (has_words "slow down")))
classify_with_message-retryable_example = classify_with_message-retryable 429 "slow down"

-- Two rate limits, and then success.
abbrev third_time : ℕ → Option ErrorKind
third_time n = if ltb n 2 then some rate_limit else none

abbrev kind_itself : ErrorKind → ErrorKind
kind_itself k = k

two_retries :
    (retry third_time kind_itself default_retry_config).slept ≡ 562500000 ∷ 1125000000 ∷ []
unfolding retry retry_from round retryable backoff raw_delay
two_retries = refl

never_called :
    (retry third_time kind_itself (record default_retry_config { max_retries = negsuc 0 })).calls
    ≡ 0
unfolding retry
never_called = refl

retry-IsRun_example :
    IsRun third_time kind_itself default_retry_config 3 0
      (retry third_time kind_itself default_retry_config)
retry-IsRun_example = retry-IsRun third_time kind_itself default_retry_config
