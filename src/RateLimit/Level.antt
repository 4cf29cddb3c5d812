-- ===== src/RateLimit/Level.antt =====
-- The arithmetic of one token bucket, that the three limiters share.
use native.Mathlib.Nat.{mul-le-mul_right, mul_comm, add-mul}
use switch.Prelude.Int.{ℤ, pos_part, neg_part}
use switch.Prelude.{ℕ, ◌+◌, ◌-◌, ◌*◌, ◌≤◌, ◌≡◌, sym, ap, ◌∙◌, arith, ltb, if◌then◌else◌}

-- One token, in units: a minute of nanoseconds.
abbrev pub minute : ℕ
minute = 60_000_000_000

-- bucket += elapsed * rate, capped at the rate.
unfoldable pub refill_level : ℕ → ℕ → ℕ → ℕ
refill_level rate elapsed level =
    let full = level + elapsed * rate in if ltb (rate * minute) full then rate * minute else full

-- bucket -= float64(tokenCount). What is taken is there; a negative count adds.
unfoldable pub take_tokens : ℤ → ℕ → ℕ
take_tokens count level = level + neg_part count * minute - pos_part count * minute

pub refill_level-le : (rate elapsed level : ℕ) → refill_level rate elapsed level ≤ rate * minute
unfolding refill_level
refill_level-le rate elapsed level = ground arith

pub refill_level-gain :
    (rate elapsed level : ℕ) → refill_level rate elapsed level ≤ level + elapsed * rate
unfolding refill_level
refill_level-gain rate elapsed level = ground arith

pub refill_level-ge :
    (rate elapsed level : ℕ) → level ≤ rate * minute → level ≤ refill_level rate elapsed level
unfolding refill_level
refill_level-ge rate elapsed level h = ground arith

-- A minute without a request fills the bucket.
pub refill_level-full :
    (rate elapsed level : ℕ) → minute ≤ elapsed → refill_level rate elapsed level ≡ rate * minute
unfolding refill_level
refill_level-full rate elapsed level h =
    ground (arith, mul-le-mul_right {m = minute} {n = elapsed} rate h, mul_comm rate minute)

-- Time moves on by pieces.
pub gain_split : (rate a b c : ℕ) → a ≤ b → b ≤ c → (b - a) * rate + (c - b) * rate ≡ (c - a) * rate
gain_split rate a b c h k =
    sym (add-mul (b - a) (c - b) rate) ∙ ap (λ (t : ℕ). t * rate) (omega arith)
