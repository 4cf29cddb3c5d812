-- ===== src/Quota/Tests.antt =====
-- prefix/quota.go: a run of the coordinator, and the theorem at a concrete input.
use switch.Prelude.Dict.{lookup, insert}
use switch.Prelude.{◌≤◌, ◌≡◌, refl, false, some, List, [], ◌∷◌, if◌then◌else◌}
use switch.Quota.{
  minute, QuotaBucket, new_quota_coordinator, refill, bucket, real_request, is_short, warm_allowed,
}
use switch.Quota.Levels.{Call, Inv, perform, perform_all, quota-Inv, real, warm}

abbrev requests : List Call
requests = real 1 "p|f" ∷ warm 2 "p|f" ∷ []

quota-Inv_example :
    let q = perform_all (new_quota_coordinator 2 30 100) requests in
    let (q', allowed) = warm_allowed 3 "p|f" q in
    Inv q
    × (q.rpm ≡ 2)
    × ((b : QuotaBucket) × (lookup "p|f" q'.buckets ≡ some b)
        × ((if allowed then minute else 1) ≤ b.level))
quota-Inv_example = quota-Inv 2 30 100 3 "p|f" requests

-- Two requests a minute: after one real request and one warm-up another warm-up is refused.
third-refused :
    (warm_allowed 3 "p|f" (perform_all (new_quota_coordinator 2 30 100) requests)).1 ≡ false
unfolding perform_all perform new_quota_coordinator real_request warm_allowed is_short bucket refill
    lookup insert
third-refused = refl
