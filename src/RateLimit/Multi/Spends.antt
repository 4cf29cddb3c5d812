-- ===== src/RateLimit/Multi/Spends.antt =====
-- provider/rate_limit_multi.go: what a bucket pays for over several calls.
use native.Mathlib.Nat.{le_refl}
use switch.Prelude.{ℕ, ◌+◌, ◌-◌, ◌*◌, ◌≤◌, ◌<◌, ◌≡◌, refl, ap, ◌∙◌, arith}
use switch.Prelude.Int.{ℤ, pos_part, neg_part}
use switch.RateLimit.Level.{minute, refill_level-gain, gain_split, take_tokens}
use switch.RateLimit.Multi.{TokenBucket, refill, deduct}
use switch.RateLimit.Multi.Accept.{CanPay}

-- From b to b', n requests and t tokens are paid for out of what was there, what time gave and u tokens
-- that were given back.
pub record Spends (n t u : ℕ) (b b' : TokenBucket) : Type 0 where
  pub same_rpm : b'.rpm ≡ b.rpm
  pub same_tpm : b'.tpm ≡ b.tpm
  pub forward : b.last_fill ≤ b'.last_fill
  pub requests :
      0 < b.rpm → n * minute + b'.req_bucket ≤ b.req_bucket + (b'.last_fill - b.last_fill) * b.rpm
  pub tokens :
      0 < b.tpm
      → t * minute + b'.tok_bucket
        ≤ b.tok_bucket + (b'.last_fill - b.last_fill) * b.tpm + u * minute

pub Spends-refl : (b : TokenBucket) → Spends 0 0 0 b b
Spends-refl b = record {
  same_rpm = refl;
  same_tpm = refl;
  forward = le_refl _;
  requests = λ _. omega arith;
  tokens = λ _. omega arith;
}

pub refill-Spends : (now : ℕ) (b : TokenBucket) → Spends 0 0 0 b (refill now b)
unfolding refill
refill-Spends now b = ground (
  arith,
  refill_level-gain b.rpm (now - b.last_fill) b.req_bucket,
  refill_level-gain b.tpm (now - b.last_fill) b.tok_bucket,
)

deduct-Spends :
    (count : ℤ) (b : TokenBucket)
    → CanPay count b
    → Spends 1 (pos_part count) (neg_part count) b (deduct count b)
unfolding deduct take_tokens
deduct-Spends count b p = record {
  same_rpm = refl;
  same_tpm = refl;
  forward = le_refl _;
  requests = λ h. ground (arith, p.request h);
  tokens = λ h. ground (arith, p.tokens h);
}

pub Spends-trans :
    (n t u n' t' u' : ℕ) (a b c : TokenBucket)
    → Spends n t u a b
    → Spends n' t' u' b c
    → Spends (n + n') (t + t') (u + u') a c
Spends-trans n t u n' t' u' a b c p q = record {
  same_rpm = q.same_rpm ∙ p.same_rpm;
  same_tpm = q.same_tpm ∙ p.same_tpm;
  forward = omega (arith, p.forward, q.forward);
  requests = λ h. omega (
    arith,
    p.requests h,
    q.requests (omega (arith, h, p.same_rpm)),
    ap (λ (r : ℕ). (c.last_fill - b.last_fill) * r) p.same_rpm,
    gain_split a.rpm a.last_fill b.last_fill c.last_fill p.forward q.forward,
  );
  tokens = λ h. omega (
    arith,
    p.tokens h,
    q.tokens (omega (arith, h, p.same_tpm)),
    ap (λ (r : ℕ). (c.last_fill - b.last_fill) * r) p.same_tpm,
    gain_split a.tpm a.last_fill b.last_fill c.last_fill p.forward q.forward,
  );
}

pub pay-Spends :
    (now : ℕ) (count : ℤ) (b : TokenBucket)
    → CanPay count (refill now b)
    → Spends 1 (pos_part count) (neg_part count) b (deduct count (refill now b))
pay-Spends now count b pays =
    let e : (n : ℕ) → 0 + n ≡ n = λ n. omega arith in
    rw⁻¹ (e (pos_part count), e (neg_part count))
      (Spends-trans 0 0 0 1 (pos_part count) (neg_part count) b (refill now b) _
        (refill-Spends now b) (deduct-Spends count (refill now b) pays))
