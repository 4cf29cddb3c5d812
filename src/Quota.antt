-- ===== src/Quota.antt =====
-- prefix/quota.go: the coordinator that lets real requests take quota before warm-up. A key is the
-- code's provider + "|" + fp. A level is counted in units of one token per minute times one
-- nanosecond and from minus one token on, since a request takes a whole token also where there is
-- less: no token at all is the level `minute`. Time is nanoseconds in ℕ; the warm-up's reserve is a
-- ratio.
pub mod Levels
mod Tests
use switch.Prelude.Dict.{Dict, lookup, insert}
use switch.Prelude.{
  ℕ, ◌+◌, ◌-◌, ◌*◌, String, Bool, true, false, ◌||◌, none, some, [], ltb, leb, ◌==◌, if◌then◌else◌,
}

abbrev pub minute : ℕ
minute = 60000000000

pub record QuotaBucket : Type 0 where
  pub level : ℕ
  pub last_fill : ℕ
  pub rpm : ℕ

pub record QuotaCoordinator : Type 0 where
  pub buckets : Dict QuotaBucket
  pub rpm : ℕ
  pub reserve_num : ℕ
  pub reserve_den : ℕ

unfoldable pub new_quota_coordinator : ℕ → ℕ → ℕ → QuotaCoordinator
new_quota_coordinator rpm reserve_num reserve_den = record {
  buckets = [];
  rpm = if rpm == 0 then 30 else rpm;
  reserve_num = if reserve_num == 0 then 30 else reserve_num;
  reserve_den = if reserve_num == 0 then 100 else reserve_den;
}

abbrev pub full_level : ℕ → ℕ
full_level rpm = rpm * minute + minute

unfoldable pub refill : ℕ → QuotaBucket → QuotaBucket
refill now b =
    let filled = b.level + (now - b.last_fill) * b.rpm in
    if leb now b.last_fill then b else record b {
      last_fill = now;
      level = if ltb (full_level b.rpm) filled then full_level b.rpm else filled;
    }

-- The bucket of a key, a full one if there is none, filled up.
unfoldable pub bucket : ℕ → String → QuotaCoordinator → QuotaBucket
bucket now key q = refill now (elim (lookup key q.buckets) [
  | none ↦ record { level = full_level q.rpm; last_fill = now; rpm = q.rpm }
  | some b ↦ b
])

abbrev pub with_bucket : String → QuotaBucket → QuotaCoordinator → QuotaCoordinator
with_bucket key b q = record q { buckets = insert key b q.buckets }

abbrev pub take_token : QuotaBucket → QuotaBucket
take_token b = record b { level = b.level - minute }

unfoldable pub real_request : ℕ → String → QuotaCoordinator → QuotaCoordinator
real_request now key q =
    let b = bucket now key q in with_bucket key (if ltb minute b.level then take_token b else b) q

-- Whether what is left is no more than the reserve, or less than a token.
unfoldable pub is_short : QuotaCoordinator → QuotaBucket → Bool
is_short q b =
    leb ((b.level - minute) * q.reserve_den) (b.rpm * minute * q.reserve_num)
    || ltb b.level (2 * minute)

unfoldable pub warm_allowed : ℕ → String → QuotaCoordinator → QuotaCoordinator × Bool
warm_allowed now key q =
    let b = bucket now key q in
    if is_short q b then (with_bucket key b q, false) else (with_bucket key (take_token b) q, true)
