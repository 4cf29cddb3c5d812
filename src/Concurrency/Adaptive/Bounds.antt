-- ===== src/Concurrency/Adaptive/Bounds.antt =====
-- provider/concurrency_adaptive.go: the bounds of the limit, and what a shrinking one does.
use native.Mathlib.Nat.{mod-lt}
use switch.Prelude.Sort.{keep}
use switch.Prelude.{
  ℕ, zero, suc, ◌-◌, ◌≤◌, ◌<◌, ◌≡◌, refl, inl, inr, Option, none, some, List, [], ◌∷◌, arith, ltb,
  ◌==◌, ltb→lt, Bool-cases, length, length-set, length-replicate, min, ◌∙◌, ◌⊎◌,
}
use switch.Concurrency.Adaptive.{
  AdaptiveSemaphore, AdaptiveConcurrencyConfig, new_adaptive_semaphore, acquire, release,
  record_latency, clamp, resize, adjust,
}

-- The limit is within its bounds. A maximum below the minimum wins, as the last test of the clamp.
pub record IsInBounds (a : AdaptiveSemaphore) : Type 0 where
  pub low : min a.min_concurrency a.max_concurrency ≤ a.current_max
  pub high : a.current_max ≤ a.max_concurrency

-- The bounds are those that the semaphore began with, and the limit is the one that it began with, or
-- within the bounds.
pub record Inv (start a : AdaptiveSemaphore) : Type 0 where
  pub same_min : a.min_concurrency ≡ start.min_concurrency
  pub same_max : a.max_concurrency ≡ start.max_concurrency
  pub bounded : (a.current_max ≡ start.current_max) ⊎ IsInBounds a
  pub capped : a.held ≤ a.current_max
  pub in_ring : a.lat_idx < length a.latencies

resize-IsInBounds :
    (n : ℕ) (a : AdaptiveSemaphore)
    → min a.min_concurrency a.max_concurrency ≤ n
    → n ≤ a.max_concurrency
    → IsInBounds (resize n a)
unfolding resize
resize-IsInBounds n a low high = elim (Bool-cases (n == a.current_max)) [
  | inl same ↦ rw same (record { low = ground arith; high = ground arith })
  | inr new ↦ rw new (record { low = low; high = high })
]

resize_bounds :
    (n : ℕ) (a : AdaptiveSemaphore)
    → ((resize n a).min_concurrency ≡ a.min_concurrency)
      × ((resize n a).max_concurrency ≡ a.max_concurrency)
unfolding resize
resize_bounds n a = ground arith

resize-capped :
    (n : ℕ) (a : AdaptiveSemaphore)
    → a.held ≤ a.current_max
    → (resize n a).held ≤ (resize n a).current_max
unfolding resize
resize-capped n a h = ground arith

resize-ring :
    (n : ℕ) (a : AdaptiveSemaphore)
    → a.lat_idx < length a.latencies
    → (resize n a).lat_idx < length (resize n a).latencies
unfolding resize
resize-ring n a h = ground arith

clamp-low : (low high n : ℕ) → min low high ≤ clamp low high n
unfolding clamp
clamp-low low high n = ground arith

clamp-high : (low high n : ℕ) → clamp low high n ≤ high
unfolding clamp
clamp-high low high n = ground arith

adjust-Inv :
    (start : AdaptiveSemaphore) (now : ℕ) (a : AdaptiveSemaphore)
    → Inv start a
    → Inv start (adjust now a)
unfolding adjust
adjust-Inv start now a v = elim (Bool-cases (ltb (now - a.last_adjust) a.adjust_interval)) [
  | inl early ↦ rw early v
  | inr due ↦
      let samples = keep (λ l. ltb 0 l) a.latencies in
      let b : AdaptiveSemaphore = record a { last_adjust = now } in
      elim (Bool-cases (length samples == 0)) [
        | inl no_samples ↦
            rw (due, no_samples)
              (record {
                same_min = v.same_min;
                same_max = v.same_max;
                bounded = elim v.bounded [
                  | inl first ↦ inl first
                  | inr within ↦ inr (record { low = within.low; high = within.high })
                ];
                capped = v.capped;
                in_ring = v.in_ring;
              })
        | inr sampled ↦
            rw (due, sampled)
              (record {
                same_min = (resize_bounds _ b).0 ∙ v.same_min;
                same_max = (resize_bounds _ b).1 ∙ v.same_max;
                bounded = inr (resize-IsInBounds _ b (clamp-low _ _ _) (clamp-high _ _ _));
                capped = resize-capped _ b v.capped;
                in_ring = resize-ring _ b v.in_ring;
              })
      ]
]

-- What the gateway does with the semaphore; a call that blocks changes nothing.
pub data Call : Type 0 where
  acquires releases : Call
  samples adjusts : ℕ → Call

abbrev or_same : AdaptiveSemaphore → Option AdaptiveSemaphore → AdaptiveSemaphore
or_same a none = a
or_same a (some b) = b

unfoldable pub perform : Call → AdaptiveSemaphore → AdaptiveSemaphore
perform acquires a = or_same a (acquire a)
perform releases a = or_same a (release a)
perform (samples d) a = record_latency d a
perform (adjusts now) a = adjust now a

unfoldable pub perform_all : AdaptiveSemaphore → List Call → AdaptiveSemaphore
perform_all a [] = a
perform_all a (call ∷ calls) = perform_all (perform call a) calls

-- A call that leaves the limit and its bounds alone.
kept :
    (start a b : AdaptiveSemaphore)
    → Inv start a
    → (b.current_max ≡ a.current_max)
      × (b.min_concurrency ≡ a.min_concurrency)
      × (b.max_concurrency ≡ a.max_concurrency)
    → (b.current_max ≡ start.current_max) ⊎ IsInBounds b
kept start a b v (now, low, high) = elim v.bounded [
  | inl first ↦ inl (now ∙ first)
  | inr within ↦ inr (record {
    low = omega (arith, within.low, now, low, high);
    high = omega (arith, within.high, now, high);
  })
]

perform-Inv :
    (start : AdaptiveSemaphore) (call : Call) (a : AdaptiveSemaphore)
    → Inv start a
    → Inv start (perform call a)
unfolding perform acquire release record_latency
perform-Inv start acquires a v = elim (Bool-cases (ltb a.held a.current_max)) [
  | inl free ↦ rw free (record {
    same_min = v.same_min;
    same_max = v.same_max;
    bounded = kept start a _ v (refl, refl, refl);
    capped = ltb→lt _ _ free;
    in_ring = v.in_ring;
  })
  | inr full ↦ rw full v
]
perform-Inv start releases a v = elim (Bool-cases (ltb 0 a.held)) [
  | inl some_held ↦ rw some_held (record {
    same_min = v.same_min;
    same_max = v.same_max;
    bounded = kept start a _ v (refl, refl, refl);
    capped = omega (arith, v.capped);
    in_ring = v.in_ring;
  })
  | inr none_held ↦ rw none_held v
]
perform-Inv start (samples d) a v = record {
  same_min = v.same_min;
  same_max = v.same_max;
  bounded = kept start a _ v (refl, refl, refl);
  capped = v.capped;
  in_ring = omega (
    arith,
    length-set a.latencies a.lat_idx d,
    mod-lt (suc a.lat_idx) {m = length a.latencies} (omega (arith, v.in_ring)),
  );
}
perform-Inv start (adjusts now) a v = adjust-Inv start now a v

perform_all-Inv :
    (start : AdaptiveSemaphore) (calls : List Call) (a : AdaptiveSemaphore)
    → Inv start a
    → Inv start (perform_all a calls)
unfolding perform_all
perform_all-Inv start [] a v = v
perform_all-Inv start (call ∷ calls) a v =
    perform_all-Inv start calls (perform call a) (perform-Inv start call a v)

-- Under every configuration and after any calls the bounds are those of the configuration, and the limit
-- is the initial one, whatever that is, or within the bounds (the minimum does not count where it is
-- above the maximum); no more slots are taken than the limit, also after it has shrunk, and the index
-- of the samples is in range.
pub perform_all_new-Inv :
    (cfg : AdaptiveConcurrencyConfig) (calls : List Call)
    → let a = new_adaptive_semaphore cfg in Inv a (perform_all a calls)
perform_all_new-Inv cfg calls =
    let a : AdaptiveSemaphore = new_adaptive_semaphore cfg in
    perform_all-Inv a calls a (
      unfold new_adaptive_semaphore in
      (record {
        same_min = refl;
        same_max = refl;
        bounded = inl refl;
        capped = omega arith;
        in_ring = omega (arith, length-replicate {A = ℕ} 100 0);
      }))

-- From an initial limit within the bounds on, the limit stays within them.
pub perform_all_new-IsInBounds :
    (cfg : AdaptiveConcurrencyConfig) (calls : List Call)
    → IsInBounds (new_adaptive_semaphore cfg)
    → IsInBounds (perform_all (new_adaptive_semaphore cfg) calls)
perform_all_new-IsInBounds cfg calls within =
    let v = perform_all_new-Inv cfg calls in
    elim v.bounded [
      | inl first ↦ record {
        low = omega (arith, within.low, first, v.same_min, v.same_max);
        high = omega (arith, within.high, first, v.same_max);
      }
      | inr bounds ↦ bounds
    ]

-- So many requests end and release their slots, one after the other; none if one of them blocks.
unfoldable pub release_all : ℕ → AdaptiveSemaphore → Option AdaptiveSemaphore
release_all zero a = some a
release_all (suc n) a = elim (release a) [ none ↦ none | some b ↦ release_all n b ]

release_all-blocks : (n : ℕ) (a : AdaptiveSemaphore) → a.held < n → release_all n a ≡ none
unfolding release_all release
release_all-blocks zero a h = absurd (omega arith)
release_all-blocks (suc n) a h = elim (Bool-cases (ltb 0 a.held)) [
  | inl some_held ↦
      rw (some_held, release_all)
        (release_all-blocks n (record a { held = a.held - 1 }) (ground arith))
  | inr none_held ↦ rw (none_held, release_all) refl
]

-- When an adjustment sets the limit below the number of requests under way, one of these blocks for
-- ever in Release, if no other request comes: the new channel has fewer slots than were taken.
pub adjust-strands :
    (now : ℕ) (a : AdaptiveSemaphore)
    → (adjust now a).current_max < a.held
    → a.held ≤ a.current_max
    → release_all a.held (adjust now a) ≡ none
adjust-strands now a shrunk within =
    release_all-blocks a.held (adjust now a) (unfold adjust resize in (ground arith))
