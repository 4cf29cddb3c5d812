-- ===== src/RateLimit/Multi/Accept.antt =====
-- provider/rate_limit_multi.go: what an accepted and what a refused request do to the buckets.
use mathlib.Core.Option
use switch.Prelude.{
  ℕ, ◌*◌, ◌≤◌, ◌<◌, String, ◌≡◌, inl, inr, Option, none, some, arith, eq_iff, str_eq, if◌then◌else◌,
  Option-cases, sym, ◌∙◌, ◌⊎◌, false,
}
use switch.Prelude.Int.{ℤ, pos_part}
use switch.Prelude.Dict.{Dict, lookup, lookup-insert}
use switch.RateLimit.Level.{minute}
use switch.RateLimit.Multi.{
  TokenBucket, MultiRateLimiter, Reason, verdict, update, verdict_of, refill, deduct, deduct_all,
  allow, key_rate_limit, key_token_limit, model_rate_limit, model_token_limit, provider_rate_limit,
  provider_token_limit,
}

-- The bucket can pay for one request and its tokens, as far as it limits them.
pub record CanPay (count : ℤ) (b : TokenBucket) : Type 0 where
  pub request : 0 < b.rpm → minute ≤ b.req_bucket
  pub tokens : 0 < b.tpm → pos_part count * minute ≤ b.tok_bucket

verdict-none :
    (r t : Reason) (count : ℤ) (b : TokenBucket) → verdict r t count b ≡ none → CanPay count b
unfolding verdict
verdict-none r t count b h = ground arith

-- A level of the limiter: the bucket in force, if any, can pay.
abbrev pub OptCanPay : ℤ → Option TokenBucket → Type 0
OptCanPay count none = Unit
OptCanPay count (some b) = CanPay count b

verdict_of-none :
    (r t : Reason) (count : ℤ) (o : Option TokenBucket)
    → verdict_of r t count o ≡ none
    → OptCanPay count o
unfolding verdict_of
verdict_of-none r t count none h = tt
verdict_of-none r t count (some b) h = verdict-none r t count b h

pub lookup-update :
    (f : TokenBucket → TokenBucket) (k j : String) (m : Dict TokenBucket)
    → lookup j (update f k m) ≡ (if str_eq k j then Option.map f (lookup k m) else lookup j m)
unfolding update
lookup-update f k j m = elim (Option-cases (lookup k m)) [
  | inl e ↦ rw (e, update) (ground (arith, eq_iff k j, e))
  | inr (b, e) ↦ rw (e, update) (ground (arith, lookup-insert k j (f b) m))
]

-- The buckets of the three levels that a request meets, filled up to now.
pub record Levels : Type 0 where
  pub key : Option TokenBucket
  pub model : Option TokenBucket
  pub provider : Option TokenBucket

abbrev pub levels : String → String → MultiRateLimiter → Levels
levels key model m = record {
  key = lookup key m.per_key;
  model = lookup model m.per_model;
  provider = m.per_provider;
}

abbrev pub filled : ℕ → Levels → Levels
filled now l = record {
  key = Option.map (refill now) l.key;
  model = Option.map (refill now) l.model;
  provider = Option.map (refill now) l.provider;
}

abbrev pub paid : ℤ → Levels → Levels
paid count l = record {
  key = Option.map (deduct count) l.key;
  model = Option.map (deduct count) l.model;
  provider = Option.map (deduct count) l.provider;
}

-- The first refusal, in the order key, model, provider.
abbrev first_reason : Option Reason → Option Reason → Option Reason
first_reason none o = o
first_reason (some r) o = some r

abbrev pub reason_at : ℤ → Levels → Option Reason
reason_at count l = first_reason (verdict_of key_rate_limit key_token_limit count l.key) (
    first_reason (verdict_of model_rate_limit model_token_limit count l.model)
      (verdict_of provider_rate_limit provider_token_limit count l.provider))

module _ (now : ℕ) (key model : String) (count : ℤ) (m : MultiRateLimiter) where
  lookup_filled :
      (k : String) (d : Dict TokenBucket)
      → lookup k (update (refill now) k d) ≡ Option.map (refill now) (lookup k d)
  lookup_filled k d = ground (arith, eq_iff k k, lookup-update (refill now) k k d)

  lookup_paid :
      (k : String) (d : Dict TokenBucket)
      → lookup k (update (deduct count) k d) ≡ Option.map (deduct count) (lookup k d)
  lookup_paid k d = ground (arith, eq_iff k k, lookup-update (deduct count) k k d)

  -- The answer is the first refusal of the filled levels.
  pub allow-reason :
      (allow now key model count m).1 ≡ reason_at count (filled now (levels key model m))
  unfolding allow
  allow-reason = ground (arith, lookup_filled key m.per_key, lookup_filled model m.per_model)

  allow_accepted :
      (allow now key model count m).1 ≡ none
      → levels key model (allow now key model count m).0
        ≡ paid count (filled now (levels key model m))
  unfolding allow deduct_all
  allow_accepted h = ground (
    arith,
    lookup_filled key m.per_key,
    lookup_filled model m.per_model,
    lookup_paid key (update (refill now) key m.per_key),
    lookup_paid model (update (refill now) model m.per_model),
  )

  -- An accepted request found a bucket that can pay, filled up to now, on each level that has one,
  -- and is paid for on all three levels.
  pub allow_charges :
      (allow now key model count m).1 ≡ none
      → let l = filled now (levels key model m) in
        OptCanPay count l.key
        × OptCanPay count l.model
        × OptCanPay count l.provider
        × (levels key model (allow now key model count m).0 ≡ paid count l)
  allow_charges h =
      let l = filled now (levels key model m) in
      let r : reason_at count l ≡ none = sym allow-reason ∙ h in
      (
        verdict_of-none key_rate_limit key_token_limit count l.key (ground arith),
        verdict_of-none model_rate_limit model_token_limit count l.model (ground arith),
        verdict_of-none provider_rate_limit provider_token_limit count l.provider (ground arith),
        allow_accepted h,
      )

-- A level that no request was paid from: at most it was filled.
abbrev pub IsUncharged : ℕ → Option TokenBucket → Option TokenBucket → Type 0
IsUncharged now o o' = (o' ≡ o) ⊎ (o' ≡ Option.map (refill now) o)

module _ (now : ℕ) (key model : String) (count : ℤ) (m : MultiRateLimiter) {r : Reason} where
  -- A refused request is paid for on no level, whichever level refused it, and the reason given is
  -- that of the first level, in the order key, model, provider, that cannot pay.
  pub allow_refuses :
      (allow now key model count m).1 ≡ some r
      → let l = levels key model m in
        let l' = levels key model (allow now key model count m).0 in
        IsUncharged now l.key l'.key
        × IsUncharged now l.model l'.model
        × IsUncharged now l.provider l'.provider
        × (reason_at count (filled now l) ≡ some r)
  unfolding allow
  allow_refuses h = (
    ground (arith, lookup_filled now key model count m key m.per_key),
    ground (arith, lookup_filled now key model count m model m.per_model),
    ground (arith),
    sym (allow-reason now key model count m) ∙ h,
  )

-- A request leaves the buckets of all other keys and models alone.
pub allow_isolated :
    (now : ℕ) (key model : String) (count : ℤ) (m : MultiRateLimiter) (j i : String)
    → str_eq key j ≡ false
    → str_eq model i ≡ false
    → let m' = (allow now key model count m).0 in
      (lookup j m'.per_key ≡ lookup j m.per_key) × (lookup i m'.per_model ≡ lookup i m.per_model)
unfolding allow deduct_all
allow_isolated now key model count m j i h k = ground (
  arith,
  lookup-update (refill now) key j m.per_key,
  lookup-update (refill now) model i m.per_model,
  lookup-update (deduct count) key j (update (refill now) key m.per_key),
  lookup-update (deduct count) model i (update (refill now) model m.per_model),
)
