-- ===== src/RateLimit/Retry.antt =====
-- provider/errors.go: RetryBudget.
use native.Mathlib.Nat.{mul-le-mul_right, le_refl}
use switch.Prelude.{
  ℕ, ◌+◌, ◌-◌, ◌*◌, ◌≤◌, ◌≡◌, Bool, true, false, List, [], ◌∷◌, arith, ltb, leb, ◌==◌,
  if◌then◌else◌, zero, suc, ◌<◌, refl, ap, ◌∙◌, replicate, All, inl, inr, Bool-cases,
}
use switch.RateLimit.Level.{
  minute, refill_level, refill_level-gain, refill_level-le, refill_level-full, gain_split,
}

pub record RetryBudget : Type 0 where
  pub max_per_min : ℕ
  pub bucket : ℕ
  pub last_fill : ℕ

unfoldable pub new_retry_budget : ℕ → ℕ → RetryBudget
new_retry_budget now max_per_min = record {
  max_per_min = max_per_min;
  bucket = max_per_min * minute;
  last_fill = now;
}

unfoldable pub refill : ℕ → RetryBudget → RetryBudget
refill now rb = if leb now rb.last_fill then rb else record rb {
  last_fill = now;
  bucket = refill_level rb.max_per_min (now - rb.last_fill) rb.bucket;
}

unfoldable pub try_consume : ℕ → RetryBudget → RetryBudget × Bool
try_consume now rb =
    if rb.max_per_min == 0
    then (rb, true)
    else let rb' = refill now rb in
      if ltb rb'.bucket minute
      then (rb', false)
      else (record rb' { bucket = rb'.bucket - minute }, true)

-- The budget after attempts at the given times, and how many of them were granted.
unfoldable pub attempts : RetryBudget → List ℕ → RetryBudget × ℕ
attempts rb [] = (rb, 0)
attempts rb (now ∷ rest) =
    let (rb', granted) = try_consume now rb in
    let (end, n) = attempts rb' rest in (end, (if granted then 1 else 0) + n)

pub record Inv (rb : RetryBudget) : Type 0 where
  pub capped : rb.bucket ≤ rb.max_per_min * minute

-- One attempt: what it takes and what time gives.
pub record Accounts (granted : ℕ) (rb rb' : RetryBudget) : Type 0 where
  pub same_rate : rb'.max_per_min ≡ rb.max_per_min
  pub forward : rb.last_fill ≤ rb'.last_fill
  pub paid :
      granted * minute + rb'.bucket ≤ rb.bucket + (rb'.last_fill - rb.last_fill) * rb.max_per_min

refill-Accounts : (now : ℕ) (rb : RetryBudget) → Accounts 0 rb (refill now rb)
unfolding refill
refill-Accounts now rb =
    ground (arith, refill_level-gain rb.max_per_min (now - rb.last_fill) rb.bucket)

refill-Inv : (now : ℕ) (rb : RetryBudget) → Inv rb → Inv (refill now rb)
unfolding refill
refill-Inv now rb v = ground (arith, refill_level-le rb.max_per_min (now - rb.last_fill) rb.bucket)

abbrev count_granted : Bool → ℕ
count_granted granted = if granted then 1 else 0

try_consume-Accounts :
    (now : ℕ) (rb : RetryBudget)
    → 0 < rb.max_per_min
    → Accounts (count_granted (try_consume now rb).1) rb (try_consume now rb).0
unfolding try_consume
try_consume-Accounts now rb h = ground (arith, refill-Accounts now rb)

try_consume-Inv : (now : ℕ) (rb : RetryBudget) → Inv rb → Inv (try_consume now rb).0
unfolding try_consume
try_consume-Inv now rb v = ground (arith, refill-Inv now rb v)

try_consume_by :
    (now T : ℕ) (rb : RetryBudget)
    → now ≤ T
    → rb.last_fill ≤ T
    → (try_consume now rb).0.last_fill ≤ T
unfolding try_consume refill
try_consume_by now T rb h k = ground arith

Accounts-trans :
    (m n : ℕ) (a b c : RetryBudget) → Accounts m a b → Accounts n b c → Accounts (m + n) a c
Accounts-trans m n a b c p q = record {
  same_rate = q.same_rate ∙ p.same_rate;
  forward = omega (arith, p.forward, q.forward);
  paid = omega (
    arith,
    p.paid,
    q.paid,
    ap (λ (r : ℕ). (c.last_fill - b.last_fill) * r) p.same_rate,
    gain_split a.max_per_min a.last_fill b.last_fill c.last_fill p.forward q.forward,
  );
}

attempts-Accounts :
    (ts : List ℕ) (rb : RetryBudget)
    → 0 < rb.max_per_min
    → Accounts (attempts rb ts).1 rb (attempts rb ts).0
unfolding attempts
attempts-Accounts [] rb h = record { same_rate = refl; forward = le_refl _; paid = omega arith }
attempts-Accounts (now ∷ ts) rb h =
    let one = try_consume-Accounts now rb h in
    Accounts-trans (count_granted (try_consume now rb).1) _ rb (try_consume now rb).0 _ one
      (attempts-Accounts ts (try_consume now rb).0 (omega (arith, one.same_rate)))

attempts_by :
    (T : ℕ) (ts : List ℕ) (rb : RetryBudget)
    → All (λ t. t ≤ T) ts
    → rb.last_fill ≤ T
    → (attempts rb ts).0.last_fill ≤ T
unfolding attempts
attempts_by T [] rb h k = k
attempts_by T (now ∷ ts) rb h k =
    attempts_by T ts (try_consume now rb).0 h.1 (try_consume_by now T rb h.0 k)

-- A budget of `max_per_min` made at t₀ grants no more retries by time T than a full bucket and the
-- retries that accrue until then, in whatever order the times of the attempts come.
pub granted-le :
    (max_per_min t₀ T : ℕ) (ts : List ℕ)
    → 0 < max_per_min
    → t₀ ≤ T
    → All (λ t. t ≤ T) ts
    → (attempts (new_retry_budget t₀ max_per_min) ts).1 * minute
      ≤ max_per_min * minute + (T - t₀) * max_per_min
unfolding new_retry_budget
granted-le max_per_min t₀ T ts pos h all =
    let rb : RetryBudget = record {
      max_per_min = max_per_min;
      bucket = max_per_min * minute;
      last_fill = t₀;
    } in
    let sum = attempts-Accounts ts rb pos in
    omega (
      arith,
      sum.paid,
      mul-le-mul_right {m = (attempts rb ts).0.last_fill - t₀} {n = T - t₀} max_per_min
          (omega (arith, attempts_by T ts rb all h)),
    )

burst :
    (n now : ℕ) (rb : RetryBudget)
    → 0 < rb.max_per_min
    → rb.last_fill ≡ now
    → n * minute ≤ rb.bucket
    → (attempts rb (replicate n now)).1 ≡ n
unfolding attempts try_consume refill
burst zero now rb pos e h = refl
burst (suc n) now rb pos e h =
    ground (arith, burst n now (record rb { bucket = rb.bucket - minute }) pos e)

refill-refill : (now : ℕ) (rb : RetryBudget) → refill now (refill now rb) ≡ refill now rb
unfolding refill
refill-refill now rb = elim (Bool-cases (leb now rb.last_fill)) [
  | inl e ↦ rw (e, e)
  | inr e ↦ ground arith
]

refill_rate : (now : ℕ) (rb : RetryBudget) → (refill now rb).max_per_min ≡ rb.max_per_min
unfolding refill
refill_rate now rb = ground arith

try_consume-refill :
    (now : ℕ) (rb : RetryBudget)
    → 0 < rb.max_per_min
    → try_consume now (refill now rb) ≡ try_consume now rb
unfolding try_consume
try_consume-refill now rb pos = ground (arith, refill_rate now rb, refill-refill now rb)

attempts-refill :
    (n now : ℕ) (rb : RetryBudget)
    → 0 < rb.max_per_min
    → 0 < n
    → attempts (refill now rb) (replicate n now) ≡ attempts rb (replicate n now)
unfolding attempts
attempts-refill zero now rb pos h = absurd (omega arith)
attempts-refill (suc n) now rb pos h = rw (try_consume-refill now rb pos)

-- After a minute without an attempt the whole budget is there again: that many retries at once are
-- all granted.
pub quiet_minute-burst :
    (now : ℕ) (rb : RetryBudget)
    → 0 < rb.max_per_min
    → rb.last_fill + minute ≤ now
    → (attempts rb (replicate rb.max_per_min now)).1 ≡ rb.max_per_min
quiet_minute-burst now rb pos h = rw (← attempts-refill rb.max_per_min now rb pos pos) (full_burst)
  where
    full : RetryBudget
    full = record rb {
      last_fill = now;
      bucket = refill_level rb.max_per_min (now - rb.last_fill) rb.bucket;
    }

    filled : refill now rb ≡ full
    filled = unfold refill in ground arith

    full_burst : (attempts (refill now rb) (replicate rb.max_per_min now)).1 ≡ rb.max_per_min
    full_burst = rw filled (
        burst rb.max_per_min now full pos refl
          (omega (arith, refill_level-full rb.max_per_min (now - rb.last_fill) rb.bucket)))
