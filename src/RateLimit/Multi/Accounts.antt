-- ===== src/RateLimit/Multi/Accounts.antt =====
-- provider/rate_limit_multi.go: how much a key is granted over a history of requests.
use native.Mathlib.Nat.{mul-le-mul_right}
use switch.Prelude.{
  ℕ, ◌+◌, ◌-◌, ◌*◌, ◌≤◌, ◌<◌, max, String, ◌≡◌, refl, ap, ◌∙◌, Bool, true, false, ◌&&◌, Option,
  none, some, List, [], ◌∷◌, arith, str_eq, if◌then◌else◌, subst, inl, inr, eq_iff, Bool-cases,
  Option-cases, All,
}
use switch.Prelude.Int.{ℤ, pos_part, neg_part}
use switch.Prelude.Dict.{lookup, insert, lookup-insert_self}
use switch.RateLimit.Level.{minute}
use switch.RateLimit.Multi.{
  TokenBucket, MultiRateLimiter, Reason, refill, deduct, allow, update, deduct_all, new_bucket,
  set_key_limit,
}
use switch.RateLimit.Multi.Spends.{Spends, Spends-refl, refill-Spends, pay-Spends, Spends-trans}
use switch.RateLimit.Multi.Accept.{CanPay, lookup-update, Levels, allow_charges, allow_refuses}

-- One call of Allow.
pub record Request : Type 0 where
  pub at : ℕ
  pub key : String
  pub model : String
  pub count : ℤ

abbrev pub answer : Request → MultiRateLimiter → MultiRateLimiter × Option Reason
answer r m = allow r.at r.key r.model r.count m

abbrev is_none : Option Reason → Bool
is_none none = true
is_none (some r) = false

-- The request is one of the key, and accepted.
abbrev pub accepted_for : String → Request → MultiRateLimiter → Bool
accepted_for k r m = str_eq r.key k && is_none (answer r m).1

unfoldable pub serve : MultiRateLimiter → List Request → MultiRateLimiter
serve m [] = m
serve m (r ∷ rs) = serve (answer r m).0 rs

-- How many requests of the key are accepted, of how many tokens in all, and how many tokens those with
-- a negative count give back.
unfoldable pub requests_of : String → MultiRateLimiter → List Request → ℕ
requests_of k m [] = 0
requests_of k m (r ∷ rs) = (if accepted_for k r m then 1 else 0) + requests_of k (answer r m).0 rs

unfoldable pub tokens_of : String → MultiRateLimiter → List Request → ℕ
tokens_of k m [] = 0
tokens_of k m (r ∷ rs) =
    (if accepted_for k r m then pos_part r.count else 0) + tokens_of k (answer r m).0 rs

unfoldable pub returned_to : String → MultiRateLimiter → List Request → ℕ
returned_to k m [] = 0
returned_to k m (r ∷ rs) =
    (if accepted_for k r m then neg_part r.count else 0) + returned_to k (answer r m).0 rs

-- The bucket of a key after one request, with what it paid.
Charged : String → Request → MultiRateLimiter → TokenBucket → Type 0
Charged k r m b =
    (b' : TokenBucket) × (lookup k (answer r m).0.per_key ≡ some b')
    × Spends (if accepted_for k r m then 1 else 0)
        (if accepted_for k r m then pos_part r.count else 0)
        (if accepted_for k r m then neg_part r.count else 0) b b'
    × (b'.last_fill ≤ max b.last_fill r.at)

refill_by : (now : ℕ) (b : TokenBucket) → (refill now b).last_fill ≤ max b.last_fill now
unfolding refill
refill_by now b = ground arith

key_isolated :
    (r : Request) (m : MultiRateLimiter) (k : String)
    → str_eq r.key k ≡ false
    → lookup k (answer r m).0.per_key ≡ lookup k m.per_key
unfolding allow deduct_all
key_isolated r m k h = ground (
  arith,
  lookup-update (refill r.at) r.key k m.per_key,
  lookup-update (deduct r.count) r.key k (update (refill r.at) r.key m.per_key),
)

module _ (r : Request) (m : MultiRateLimiter) (b : TokenBucket)
    (found : lookup r.key m.per_key ≡ some b) where
  accepted_Charged : (answer r m).1 ≡ none → Charged r.key r m b
  unfolding Charged
  accepted_Charged ok =
      let (key_pays, _, _, after) = allow_charges r.at r.key r.model r.count m ok in
      let pays : CanPay r.count (refill r.at b) = rw found at key_pays in
      (
        deduct r.count (refill r.at b),
        ap (λ (l : Levels). l.key) after ∙ rw found,
        rw (ok, (eq_iff r.key r.key).1 refl) (pay-Spends r.at r.count b pays),
        unfold deduct in refill_by r.at b,
      )

  refused_Charged : (s : Reason) → (answer r m).1 ≡ some s → Charged r.key r m b
  unfolding Charged
  refused_Charged s no_pay = elim (allow_refuses r.at r.key r.model r.count m no_pay).0 [
    | inl e ↦ (b, e ∙ found, rw (no_pay, (eq_iff r.key r.key).1 refl) (Spends-refl b), omega arith)
    | inr e ↦ (
      refill r.at b,
      e ∙ rw found,
      rw (no_pay, (eq_iff r.key r.key).1 refl) (refill-Spends r.at b),
      refill_by r.at b,
    )
  ]

  same_Charged : Charged r.key r m b
  same_Charged = elim (Option-cases (answer r m).1) [
    | inl e ↦ accepted_Charged e
    | inr (s, e) ↦ refused_Charged s e
  ]

other_Charged :
    (k : String) (r : Request) (m : MultiRateLimiter) (b : TokenBucket)
    → str_eq r.key k ≡ false
    → lookup k m.per_key ≡ some b
    → Charged k r m b
unfolding Charged
other_Charged k r m b other found =
    (b, key_isolated r m k other ∙ found, rw other (Spends-refl b), omega arith)

step_Charged :
    (k : String) (r : Request) (m : MultiRateLimiter) (b : TokenBucket)
    → lookup k m.per_key ≡ some b
    → Charged k r m b
step_Charged k r m b found = elim (Bool-cases (str_eq r.key k)) [
  | inl e ↦
      let same = (eq_iff r.key k).0 e in
      subst (λ j. Charged j r m b) same (same_Charged r m b (rw same found))
  | inr e ↦ other_Charged k r m b e found
]

-- The bucket of a key after a history, with what it paid.
ChargedAll : String → List Request → MultiRateLimiter → TokenBucket → ℕ → Type 0
ChargedAll k rs m b T =
    (b' : TokenBucket) × (lookup k (serve m rs).per_key ≡ some b')
    × Spends (requests_of k m rs) (tokens_of k m rs) (returned_to k m rs) b b'
    × (b'.last_fill ≤ T)

serve_Charged :
    (k : String) (rs : List Request) (m : MultiRateLimiter) (b : TokenBucket) (T : ℕ)
    → lookup k m.per_key ≡ some b
    → b.last_fill ≤ T
    → All (λ r. r.at ≤ T) rs
    → ChargedAll k rs m b T
unfolding ChargedAll serve requests_of tokens_of returned_to Charged
serve_Charged k [] m b T found h by = (b, found, Spends-refl b, h)
serve_Charged k (r ∷ rs) m b T found h by =
    let (b₁, found₁, one, by₁) = step_Charged k r m b found in
    let (b₂, found₂, rest, by₂) =
      serve_Charged k rs (answer r m).0 b₁ T found₁ (omega (arith, by₁, by.0)) by.1 in
    (b₂, found₂, Spends-trans _ _ _ _ _ _ b b₁ b₂ one rest, by₂)

-- A key whose limit of `rpm` requests and `tpm` tokens a minute was set at time t₀ is granted, by
-- time T, no more requests than a full bucket and what accrues until then, and no more tokens than
-- that and what its accepted requests with a negative count give back, over every history of requests
-- of this and other keys and models, of whatever counts and in whatever order their times come.
pub key_limit-holds :
    (m : MultiRateLimiter) (k : String) (rpm tpm t₀ T : ℕ) (rs : List Request)
    → 0 < rpm
    → 0 < tpm
    → t₀ ≤ T
    → All (λ r. r.at ≤ T) rs
    → let m' = set_key_limit t₀ k rpm tpm m in
      (requests_of k m' rs * minute ≤ rpm * minute + (T - t₀) * rpm)
      × (tokens_of k m' rs * minute ≤ tpm * minute + (T - t₀) * tpm + returned_to k m' rs * minute)
unfolding ChargedAll set_key_limit new_bucket
key_limit-holds m k rpm tpm t₀ T rs some_rpm some_tpm h by =
    let b : TokenBucket = record {
      rpm = rpm;
      tpm = tpm;
      req_bucket = rpm * minute;
      tok_bucket = tpm * minute;
      last_fill = t₀;
    } in
    let (b', found, spends, by') =
      serve_Charged k rs (record m { per_key = insert k b m.per_key }) b T
        (lookup-insert_self k b m.per_key) h by in
    let late : b'.last_fill - t₀ ≤ T - t₀ = omega (arith, by') in
    (
      omega (arith, spends.requests some_rpm, mul-le-mul_right rpm late),
      omega (arith, spends.tokens some_tpm, mul-le-mul_right tpm late),
    )
