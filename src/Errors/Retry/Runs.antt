-- ===== src/Errors/Retry/Runs.antt =====
-- provider/errors.go: how often Retry calls fn, and how it ends.
use native.Mathlib.Nat.{le_refl}
use switch.Prelude.{
  ℕ, zero, suc, ◌+◌, ◌≤◌, ◌<◌, ◌≡◌, refl, inl, inr, true, false, Option, none, some, arith, ◌==◌,
  Bool-cases, Option-cases, length, [], ◌∷◌,
}
use switch.Prelude.Int.{ℤ, pos, negsuc}
use switch.Errors.{ErrorKind, retryable}
use switch.Errors.Retry.{
  RetryConfig, RetryResult, RetryRun, round, retry_from, retry, succeeded, not_retried, exhausted,
  untried,
}

module _ {E : Type 0} (outcome : ℕ → Option E) (classify : E → ErrorKind) (cfg : RetryConfig)
    (most : ℕ) where
  -- How the last call ends the run.
  abbrev pub Ends : RetryResult E → ℕ → Type 0
  Ends succeeded last = outcome last ≡ none
  Ends (not_retried e) last =
      (outcome last ≡ some e) × (retryable (classify e) ≡ false) × (last < most)
  Ends (exhausted n e) last = (outcome last ≡ some e) × (last ≡ most) × (n ≡ suc most)
  Ends (untried n) last = ⊥

  -- The calls from the given one up to the last; each before the last fails with an error that is
  -- retryable and is followed by its sleep.
  pub record IsRun (first : ℕ) (run : RetryRun E) : Type 0 where
    pub last : ℕ
    pub counted : run.calls ≡ suc last
    pub from : first ≤ last
    pub bound : last ≤ most
    pub retried :
        (j : ℕ)
        → first ≤ j
        → j < last
        → (e : E) × (outcome j ≡ some e) × (retryable (classify e) ≡ true)
    pub slept : length run.slept + first ≡ last
    pub ends : Ends run.result last

  stops :
      (attempt : ℕ) (result : RetryResult E)
      → attempt ≤ most
      → Ends result attempt
      → IsRun attempt (record { result = result; calls = suc attempt; slept = [] })
  stops attempt result bound ends = record {
    last = attempt;
    counted = refl;
    from = le_refl _;
    bound = bound;
    retried = λ j a b. absurd (omega arith);
    slept = omega arith;
    ends = ends;
  }

  goes_on :
      (attempt : ℕ) (e : E) (run : RetryRun E) (delay : ℕ)
      → outcome attempt ≡ some e
      → retryable (classify e) ≡ true
      → IsRun (suc attempt) run
      → IsRun attempt (record run { slept = delay ∷ run.slept })
  goes_on attempt e run delay fails again rest = record {
    last = rest.last;
    counted = rest.counted;
    from = omega (arith, rest.from);
    bound = rest.bound;
    retried = λ j a b. elim (Bool-cases (j == attempt)) [
      | inl now ↦ let same : j ≡ attempt = ground arith in rw same (e, fails, again)
      | inr other ↦ rest.retried j (ground arith) b
    ];
    slept = omega (arith, rest.slept);
    ends = rest.ends;
  }

  retry_from-IsRun :
      (left attempt : ℕ)
      → attempt + left ≡ most
      → IsRun attempt (retry_from outcome classify cfg most left attempt)
  unfolding retry_from round
  retry_from-IsRun zero attempt total = elim (Option-cases (outcome attempt)) [
    | inl ok ↦ rw ok (stops attempt succeeded (omega (arith, total)) ok)
    | inr (e, fails) ↦ rw fails (
        stops attempt (exhausted (suc most) e) (omega (arith, total))
          (fails, omega (arith, total), refl))
  ]
  retry_from-IsRun (suc left) attempt total = elim (Option-cases (outcome attempt)) [
    | inl ok ↦ rw ok (stops attempt succeeded (omega (arith, total)) ok)
    | inr (e, fails) ↦ elim (Bool-cases (retryable (classify e))) [
      | inr final ↦
          rw (fails, final)
            (stops attempt (not_retried e) (omega (arith, total))
              (fails, final, omega (arith, total)))
      | inl again ↦
          rw (fails, again)
            (goes_on attempt e _ _ fails again
              (retry_from-IsRun left (suc attempt) (omega (arith, total))))
    ]
  ]

-- How the run looks, by MaxRetries.
abbrev pub IsRunUpTo :
    {E : Type 0} → (ℕ → Option E) → (E → ErrorKind) → RetryConfig → ℤ → RetryRun E → Type 0
IsRunUpTo outcome classify cfg (pos most) run = IsRun outcome classify cfg most 0 run
IsRunUpTo outcome classify cfg (negsuc n) run =
    run ≡ record { result = untried n; calls = 0; slept = [] }

-- Where MaxRetries is not negative, Retry calls fn at least once and at most MaxRetries + 1 times, and
-- sleeps between two calls. All calls but the last fail with a retryable error; and it returns nil if
-- the last one succeeds, its error as it is if that is not retryable and there are attempts left, and
-- else, after MaxRetries + 1 attempts, that they are exhausted. Where MaxRetries is negative it never
-- calls fn, and returns an error.
pub retry-IsRun :
    {E : Type 0} (outcome : ℕ → Option E) (classify : E → ErrorKind) (cfg : RetryConfig)
    → IsRunUpTo outcome classify cfg cfg.max_retries (retry outcome classify cfg)
unfolding retry
retry-IsRun outcome classify cfg = by_sign cfg.max_retries
  where
    by_sign :
        (limit : ℤ)
        → IsRunUpTo outcome classify cfg limit (elim limit [
          | pos most ↦ retry_from outcome classify cfg most most 0
          | negsuc n ↦ record { result = untried n; calls = 0; slept = [] }
        ])
    by_sign (pos most) = retry_from-IsRun outcome classify cfg most most 0 (omega arith)
    by_sign (negsuc n) = refl
