-- ===== src/Circuit/Window.antt =====
-- provider/circuit.go: the sums over the window of buckets.
use switch.Prelude.{
  ℕ, zero, suc, ◌+◌, ◌≤◌, ◌<◌, ◌≡◌, refl, Bool, List, [], ◌∷◌, arith, length, get_or, set,
  replicate, All,
}
use switch.Circuit.{Bucket, empty_bucket, sum_total, sum_failures, sum_slow, count_call}

-- One bucket's counts fit together.
pub record Counts (b : Bucket) : Type 0 where
  pub split : b.successes + b.failures ≡ b.total_calls
  pub slow_le : b.slow_calls ≤ b.total_calls

pub count_call-Counts :
    (failed slow : Bool) (b : Bucket) → Counts b → Counts (count_call failed slow b)
unfolding count_call
count_call-Counts failed slow b h = ground arith

pub empty-Counts : Counts empty_bucket
empty-Counts = ground arith

-- An empty window has no calls.
pub sum_total-replicate : (n : ℕ) → sum_total (replicate n empty_bucket) ≡ 0
unfolding sum_total
sum_total-replicate zero = refl
sum_total-replicate (suc n) = omega (arith, sum_total-replicate n)

pub sum_failures-le : (bs : List Bucket) → All Counts bs → sum_failures bs ≤ sum_total bs
unfolding sum_failures sum_total
sum_failures-le [] h = omega arith
sum_failures-le (b ∷ bs) h = omega (arith, sum_failures-le bs h.1)

pub sum_slow-le : (bs : List Bucket) → All Counts bs → sum_slow bs ≤ sum_total bs
unfolding sum_slow sum_total
sum_slow-le [] h = omega arith
sum_slow-le (b ∷ bs) h = omega (arith, sum_slow-le bs h.1)

-- A write to one bucket moves each sum by the difference.
pub sum_total-set :
    (bs : List Bucket) (i : ℕ) (b : Bucket)
    → i < length bs
    → sum_total (set bs i b) + (get_or bs i empty_bucket).total_calls ≡ sum_total bs + b.total_calls
unfolding sum_total
sum_total-set [] i b h = elim h [ ]
sum_total-set (x ∷ bs) zero b h = omega arith
sum_total-set (x ∷ bs) (suc i) b h = omega (arith, sum_total-set bs i b (omega arith))

pub sum_failures-set :
    (bs : List Bucket) (i : ℕ) (b : Bucket)
    → i < length bs
    → sum_failures (set bs i b) + (get_or bs i empty_bucket).failures ≡ sum_failures bs + b.failures
unfolding sum_failures
sum_failures-set [] i b h = elim h [ ]
sum_failures-set (x ∷ bs) zero b h = omega arith
sum_failures-set (x ∷ bs) (suc i) b h = omega (arith, sum_failures-set bs i b (omega arith))

pub sum_slow-set :
    (bs : List Bucket) (i : ℕ) (b : Bucket)
    → i < length bs
    → sum_slow (set bs i b) + (get_or bs i empty_bucket).slow_calls ≡ sum_slow bs + b.slow_calls
unfolding sum_slow
sum_slow-set [] i b h = elim h [ ]
sum_slow-set (x ∷ bs) zero b h = omega arith
sum_slow-set (x ∷ bs) (suc i) b h = omega (arith, sum_slow-set bs i b (omega arith))

pub get_or-failures-le :
    (bs : List Bucket) (i : ℕ) → (get_or bs i empty_bucket).failures ≤ sum_failures bs
unfolding sum_failures
get_or-failures-le [] i = omega arith
get_or-failures-le (x ∷ bs) zero = omega arith
get_or-failures-le (x ∷ bs) (suc i) = omega (arith, get_or-failures-le bs i)
