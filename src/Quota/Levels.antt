-- ===== src/Quota/Levels.antt =====
-- prefix/quota.go: the bounds of the levels, and what warm-up leaves to real requests.
use switch.Prelude.Dict.{lookup, lookup-insert, lookup-insert_self}
use switch.Prelude.{
  ℕ, ◌≤◌, ◌<◌, String, ◌≡◌, inl, inr, some, List, [], ◌∷◌, arith, str_eq, ltb, ltb→lt, Bool-cases,
  Option-cases, if◌then◌else◌, ◌*◌, false, refl, ◌∙◌, ◌==◌,
}
use switch.Quota.{
  QuotaCoordinator, minute, QuotaBucket, new_quota_coordinator, full_level, refill, bucket,
  with_bucket, take_token, real_request, is_short, warm_allowed,
}

-- More than minus one token, and no more than a minute's.
pub record IsFit (rpm : ℕ) (b : QuotaBucket) : Type 0 where
  pub same_rate : b.rpm ≡ rpm
  pub above : 0 < b.level
  pub below : b.level ≤ full_level rpm

pub record Inv (q : QuotaCoordinator) : Type 0 where
  pub fit : (key : String) (b : QuotaBucket) → lookup key q.buckets ≡ some b → IsFit q.rpm b

bucket-IsFit :
    (now : ℕ) (key : String) (q : QuotaCoordinator) → Inv q → IsFit q.rpm (bucket now key q)
unfolding bucket refill
bucket-IsFit now key q v = elim (Option-cases (lookup key q.buckets)) [
  | inl missing ↦
      rw (missing, bucket)
        (record { same_rate = ground arith; above = ground arith; below = ground arith })
  | inr (b, e) ↦
      let fit = v.fit key b e in
      let rate = fit.same_rate in
      rw (e, bucket)
        (record {
          same_rate = ground (arith, rate);
          above = ground (arith, fit.above);
          below = ground (arith, fit.below, rate);
        })
]

with_bucket-Inv :
    (key : String) (b : QuotaBucket) (q : QuotaCoordinator)
    → IsFit q.rpm b
    → Inv q
    → Inv (with_bucket key b q)
with_bucket-Inv key b q fit v = record {
  fit = λ other c e. elim (Bool-cases (str_eq key other)) [
    | inl mine ↦
        let same : c ≡ b = ground (arith, lookup-insert key other b q.buckets) in rw same fit
    | inr others ↦ v.fit other c (ground (arith, lookup-insert key other b q.buckets))
  ];
}

pub data Call : Type 0 where
  real warm : ℕ → String → Call

unfoldable pub perform : Call → QuotaCoordinator → QuotaCoordinator
perform (real now key) q = real_request now key q
perform (warm now key) q = (warm_allowed now key q).0

unfoldable pub perform_all : QuotaCoordinator → List Call → QuotaCoordinator
perform_all q [] = q
perform_all q (call ∷ calls) = perform_all (perform call q) calls

take_token-IsFit :
    (rpm : ℕ) (b : QuotaBucket) → minute < b.level → IsFit rpm b → IsFit rpm (take_token b)
take_token-IsFit rpm b some_left fit = record {
  same_rate = fit.same_rate;
  above = omega arith;
  below = omega (arith, fit.below);
}

enough_left : (q : QuotaCoordinator) (b : QuotaBucket) → is_short q b ≡ false → 2 * minute ≤ b.level
unfolding is_short
enough_left q b enough = ground arith

warm_allowed-Inv :
    (now : ℕ) (key : String) (q : QuotaCoordinator) → Inv q → Inv (warm_allowed now key q).0
unfolding warm_allowed
warm_allowed-Inv now key q v =
    let fit = bucket-IsFit now key q v in
    elim (Bool-cases (is_short q (bucket now key q))) [
      | inl short ↦ rw (short, warm_allowed) (with_bucket-Inv key _ q fit v)
      | inr enough ↦
          rw (enough, warm_allowed)
            (with_bucket-Inv key _ q
              (take_token-IsFit q.rpm _ (omega (arith, enough_left q _ enough)) fit) v)
    ]

perform-Inv : (call : Call) (q : QuotaCoordinator) → Inv q → Inv (perform call q)
unfolding perform real_request warm_allowed
perform-Inv (real now key) q v =
    let fit = bucket-IsFit now key q v in
    elim (Bool-cases (ltb minute (bucket now key q).level)) [
      | inl some_left ↦
          rw some_left
            (with_bucket-Inv key _ q (take_token-IsFit q.rpm _ (ltb→lt _ _ some_left) fit) v)
      | inr none_left ↦ rw none_left (with_bucket-Inv key _ q fit v)
    ]
perform-Inv (warm now key) q v = warm_allowed-Inv now key q v

perform_all-Inv : (calls : List Call) (q : QuotaCoordinator) → Inv q → Inv (perform_all q calls)
unfolding perform_all
perform_all-Inv [] q v = v
perform_all-Inv (call ∷ calls) q v = perform_all-Inv calls (perform call q) (perform-Inv call q v)

warm_allowed-level :
    (now : ℕ) (key : String) (q : QuotaCoordinator)
    → Inv q
    → let (q', allowed) = warm_allowed now key q in
      (b : QuotaBucket) × (lookup key q'.buckets ≡ some b)
      × ((if allowed then minute else 1) ≤ b.level)
unfolding warm_allowed
warm_allowed-level now key q v =
    let b = bucket now key q in
    let fit = bucket-IsFit now key q v in
    elim (Bool-cases (is_short q b)) [
      | inl short ↦ rw short (b, lookup-insert_self key b q.buckets, fit.above)
      | inr enough ↦ rw enough (
        take_token b,
        lookup-insert_self key (take_token b) q.buckets,
        omega (arith, enough_left q b enough),
      )
    ]

perform-rpm : (call : Call) (q : QuotaCoordinator) → (perform call q).rpm ≡ q.rpm
unfolding perform real_request warm_allowed
perform-rpm (real now key) q = refl
perform-rpm (warm now key) q = ground arith

perform_all-rpm : (calls : List Call) (q : QuotaCoordinator) → (perform_all q calls).rpm ≡ q.rpm
unfolding perform_all
perform_all-rpm [] q = refl
perform_all-rpm (call ∷ calls) q = perform_all-rpm calls (perform call q) ∙ perform-rpm call q

-- After any requests and warm-ups of any keys at any times, every bucket holds more than minus one
-- token and no more than a minute's worth, which is 30 tokens where the rate is given as 0; and a warm-up that is then allowed leaves the bucket of
-- its key at no less than no token, so that it never takes what is not there.
pub quota-Inv :
    (rpm reserve_num reserve_den now : ℕ) (key : String) (calls : List Call)
    → let q = perform_all (new_quota_coordinator rpm reserve_num reserve_den) calls in
      let (q', allowed) = warm_allowed now key q in
      Inv q
      × (q.rpm ≡ (if rpm == 0 then 30 else rpm))
      × ((b : QuotaBucket) × (lookup key q'.buckets ≡ some b)
          × ((if allowed then minute else 1) ≤ b.level))
quota-Inv rpm reserve_num reserve_den now key calls =
    let start : QuotaCoordinator = new_quota_coordinator rpm reserve_num reserve_den in
    let v =
      perform_all-Inv calls start
        (unfold new_quota_coordinator lookup in (record { fit = λ k b e. cc })) in
    (
      v,
      unfold new_quota_coordinator in (perform_all-rpm calls start),
      warm_allowed-level now key (perform_all start calls) v,
    )
