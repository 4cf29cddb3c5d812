-- ===== src/RateLimit/Provider.antt =====
-- provider/concurrency.go: ProviderRateLimiter.
use switch.Prelude.{
  ℕ, ◌+◌, ◌-◌, ◌*◌, ◌≤◌, ◌<◌, ◌≡◌, ◌⊎◌, inl, inr, Bool, true, false, ◌&&◌, arith, ltb, leb, ◌==◌,
  if◌then◌else◌, Bool-cases,
}
use switch.Prelude.Int.{ℤ, pos, pos_part}
use switch.RateLimit.Level.{take_tokens, minute, refill_level, refill_level-le}

pub record ProviderRateLimiter : Type 0 where
  pub rpm_bucket : ℕ
  pub tpm_bucket : ℕ
  pub rpm_limit : ℕ
  pub tpm_limit : ℕ
  pub last_refill : ℕ

unfoldable pub new_provider_rate_limiter : ℕ → ℕ → ℕ → ProviderRateLimiter
new_provider_rate_limiter now rpm tpm = record {
  rpm_bucket = rpm * minute;
  tpm_bucket = tpm * minute;
  rpm_limit = rpm;
  tpm_limit = tpm;
  last_refill = now;
}

unfoldable pub refill : ℕ → ProviderRateLimiter → ProviderRateLimiter
refill now rl = if leb now rl.last_refill then rl else record rl {
  last_refill = now;
  rpm_bucket =
      if ltb 0 rl.rpm_limit
      then refill_level rl.rpm_limit (now - rl.last_refill) rl.rpm_bucket
      else rl.rpm_bucket;
  tpm_bucket =
      if ltb 0 rl.tpm_limit
      then refill_level rl.tpm_limit (now - rl.last_refill) rl.tpm_bucket
      else rl.tpm_bucket;
}

unfoldable pub deduct : ℤ → ProviderRateLimiter → ProviderRateLimiter
deduct count rl = record rl {
  rpm_bucket = if ltb 0 rl.rpm_limit then rl.rpm_bucket - minute else rl.rpm_bucket;
  tpm_bucket = if ltb 0 rl.tpm_limit then take_tokens count rl.tpm_bucket else rl.tpm_bucket;
}

unfoldable pub allow : ℕ → ℤ → ProviderRateLimiter → ProviderRateLimiter × Bool
allow now count rl =
    if rl.rpm_limit == 0 && rl.tpm_limit == 0
    then (rl, true)
    else let f = refill now rl in
      if ltb 0 f.rpm_limit && ltb f.rpm_bucket minute
      then (f, false)
      else if ltb 0 f.tpm_limit && ltb f.tpm_bucket (pos_part count * minute)
      then (f, false)
      else (deduct count f, true)

-- Each bucket that limits can pay for one request of the given tokens.
pub record CanPay (count : ℤ) (rl : ProviderRateLimiter) : Type 0 where
  pub request : 0 < rl.rpm_limit → minute ≤ rl.rpm_bucket
  pub tokens : 0 < rl.tpm_limit → pos_part count * minute ≤ rl.tpm_bucket

refill_limits :
    (now : ℕ) (rl : ProviderRateLimiter)
    → ((refill now rl).rpm_limit ≡ rl.rpm_limit) × ((refill now rl).tpm_limit ≡ rl.tpm_limit)
unfolding refill
refill_limits now rl = ground arith

-- With a limit set, a request is let through exactly when the filled buckets can pay for it, and is
-- then paid for from both; a request that is not let through costs nothing, and one bucket that
-- limits cannot pay.
pub allow_cases :
    (now : ℕ) (count : ℤ) (rl : ProviderRateLimiter)
    → 0 < rl.rpm_limit + rl.tpm_limit
    → ((allow now count rl ≡ (deduct count (refill now rl), true)) × CanPay count (refill now rl))
      ⊎ ((allow now count rl ≡ (refill now rl, false)) × ¬ CanPay count (refill now rl))
unfolding allow
allow_cases now count rl h =
    let f = refill now rl in
    elim (Bool-cases (ltb 0 f.rpm_limit && ltb f.rpm_bucket minute)) [
      | inl e ↦ inr (ground arith, λ p. ground (arith, p.request))
      | inr e ↦
          elim (Bool-cases (ltb 0 f.tpm_limit && ltb f.tpm_bucket (pos_part count * minute))) [
            | inl e' ↦ inr (ground arith, λ p. ground (arith, p.tokens))
            | inr e' ↦ inl (ground arith, record { request = ground arith; tokens = ground arith })
          ]
    ]

pub record Inv (rl : ProviderRateLimiter) : Type 0 where
  pub rpm_capped : rl.rpm_bucket ≤ rl.rpm_limit * minute
  pub tpm_capped : rl.tpm_bucket ≤ rl.tpm_limit * minute

pub new-Inv : (now rpm tpm : ℕ) → Inv (new_provider_rate_limiter now rpm tpm)
unfolding new_provider_rate_limiter
new-Inv now rpm tpm = ground arith

refill-Inv : (now : ℕ) (rl : ProviderRateLimiter) → Inv rl → Inv (refill now rl)
unfolding refill
refill-Inv now rl v = ground (
  arith,
  refill_level-le rl.rpm_limit (now - rl.last_refill) rl.rpm_bucket,
  refill_level-le rl.tpm_limit (now - rl.last_refill) rl.tpm_bucket,
)

-- No call with a count that is not negative lets a bucket hold more than one minute's worth.
pub allow-Inv :
    (now count : ℕ) (rl : ProviderRateLimiter) → Inv rl → Inv (allow now (pos count) rl).0
unfolding allow deduct take_tokens
allow-Inv now count rl v = ground (arith, refill-Inv now rl v)
