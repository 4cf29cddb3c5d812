-- ===== src/Prefix/Warmup/Ticks.antt =====
-- prefix/warmup.go: what one tick sends, and how many input tokens it may add.
use mathlib.Core.List.{Memᴰ}
use mathlib.Core.List.Memᴰ.{head, tail}
use switch.Prelude.{
  ℕ, ◌+◌, ◌-◌, ◌*◌, ◌≤◌, ◌<◌, String, ◌≡◌, true, List, [], ◌∷◌, arith, length, All, suc, refl, ap,
  ◌∙◌, subst, ◌⊎◌, inl, inr, Bool-cases,
}
use switch.Prefix.{PrefixRecord}
use switch.Prefix.Profiler.{Profiler, top}
use switch.Prefix.Warmup.{
  WarmScheduler, WarmupConfig, Answer, Sent, hot_enough, within_global_cap, with_tail, judge,
  tick_from, warm, count_answer, request_for, tick,
}
use switch.Prefix.Warmup.Limits.{
  step-Turn, ends, passes, fails, warms, Quiet, count_answer-facts, ticks-requests,
}

-- A candidate that may be warmed.
pub record IsDue (now : ℕ) (cfg : WarmupConfig) (r : PrefixRecord) : Type 0 where
  pub hot : hot_enough cfg r ≡ true
  pub idle : cfg.idle_after ≤ now - r.last_access
  pub filled : 0 < length r.last_messages

pub judge-IsDue :
    (now total : ℕ) (affinity_of : String → String → String) (w : WarmScheduler) (r : PrefixRecord)
    (provider : String)
    → judge now total affinity_of w r ≡ warm provider
    → IsDue now w.cfg r
      × (within_global_cap total w ≡ true)
      × (affinity_of r.fp r.tenant ≡ provider)
unfolding judge
judge-IsDue now total affinity_of w r provider e = (
  record { hot = ground (arith, e); idle = ground (arith, e); filled = ground (arith, e) },
  ground (arith, e),
  ground (arith, e),
)

-- The request warms a candidate that is due, on the provider that affinity has for it.
abbrev pub IsWarming :
    ℕ → WarmupConfig → (ℕ → String → String → String) → List PrefixRecord → Sent → Type 0
IsWarming now cfg affinity_of rs s =
    (r : PrefixRecord) × (i : ℕ) × Memᴰ r rs
    × IsDue now cfg r
    × (affinity_of i r.fp r.tenant ≡ s.provider)
    × (s.messages ≡ with_tail cfg.tail_token r.last_messages)
    × (s.max_tokens ≡ 1)

module _ (now : ℕ) (total_input_of : ℕ → ℕ) (affinity_of : ℕ → String → String → String)
    (generate : ℕ → Sent → Answer) where
  abbrev ticks : ℕ → ℕ → List PrefixRecord → WarmScheduler → WarmScheduler × List Sent
  ticks = tick_from now total_input_of affinity_of generate

  later-IsWarming :
      (r : PrefixRecord) (rs : List PrefixRecord) (cfg : WarmupConfig) (ss : List Sent)
      → All (IsWarming now cfg affinity_of rs) ss
      → All (IsWarming now cfg affinity_of (r ∷ rs)) ss
  later-IsWarming r rs cfg [] h = tt
  later-IsWarming r rs cfg (s ∷ ss) h =
      let (q, i, m, due, on, messages, one) = h.0 in
      ((q, i, tail m, due, on, messages, one), later-IsWarming r rs cfg ss h.1)

  carried :
      (i warmed : ℕ) (r : PrefixRecord) (rs : List PrefixRecord) (w w' : WarmScheduler)
      → Quiet w w'
      → All (IsWarming now w'.cfg affinity_of rs) (ticks (suc i) warmed rs w').1
      → All (IsWarming now w.cfg affinity_of (r ∷ rs)) (ticks (suc i) warmed rs w').1
  carried i warmed r rs w w' q h =
      later-IsWarming r rs w.cfg _
        (subst (λ c. All (IsWarming now c affinity_of rs) (ticks (suc i) warmed rs w').1) q.cfg h)

  first :
      (i : ℕ) (r : PrefixRecord) (rs : List PrefixRecord) (w w' : WarmScheduler) (provider : String)
      → Quiet w w'
      → judge now (total_input_of i) (affinity_of i) w r ≡ warm provider
      → IsWarming now w.cfg affinity_of (r ∷ rs) (request_for provider w' r)
  first i r rs w w' provider q due =
      let (is_due, within, chosen) =
        judge-IsDue now (total_input_of i) (affinity_of i) w r provider due in
      (
        r,
        i,
        head refl,
        is_due,
        chosen,
        ap (λ c. with_tail c.tail_token r.last_messages) q.cfg,
        refl,
      )

  ticks-IsWarming :
      (i warmed : ℕ) (rs : List PrefixRecord) (w : WarmScheduler)
      → All (IsWarming now w.cfg affinity_of rs) (ticks i warmed rs w).1
  unfolding tick_from
  ticks-IsWarming i warmed [] w = tt
  ticks-IsWarming i warmed (r ∷ rs) w =
      elim (step-Turn now total_input_of affinity_of generate i warmed r rs w) [
        | ends e ↦ rw e tt
        | passes w' q e ↦ rw e (carried i warmed r rs w w' q (ticks-IsWarming (suc i) warmed rs w'))
        | fails provider w' q due e ↦ rw e (
          first i r rs w w' provider q due,
          carried i warmed r rs w w' q (ticks-IsWarming (suc i) warmed rs w'),
        )
        | warms provider w' usage q room due came e ↦
            let counted = count_answer-facts usage w' in
            let q' : w'.cfg ≡ w.cfg = q.cfg in
            rw e (
              first i r rs w w' provider q due,
              later-IsWarming r rs w.cfg _ (
                  subst
                    (λ c.
                      All (IsWarming now c affinity_of rs)
                        (ticks (suc i) (suc warmed) rs (count_answer usage w')).1)
                    (counted.1 ∙ q')
                    (ticks-IsWarming (suc i) (suc warmed) rs (count_answer usage w'))),
            )
      ]

  pub tick-cases :
      (p : Profiler) (w : WarmScheduler)
      → (tick now total_input_of affinity_of generate p w ≡ (w, []))
        ⊎ (tick now total_input_of affinity_of generate p w
            ≡ ticks 0 0 (top (w.cfg.max_warm_per_tick * 10) p) w)
  unfolding tick
  tick-cases p w = elim (Bool-cases w.cfg.enabled) [
    | inl on ↦ inr (ground (arith, on))
    | inr off ↦ inl (ground (arith, off))
  ]

  -- A tick sends requests only to warm hot prefixes that were idle for long enough, each with its last
  -- messages, the fixed tail and one token, on the provider that affinity names; the upstream answers
  -- at most the maximum of them for a tick.
  pub tick-IsWarming :
      (p : Profiler) (w : WarmScheduler)
      → let t = tick now total_input_of affinity_of generate p w in
        All (IsWarming now w.cfg affinity_of (top (w.cfg.max_warm_per_tick * 10) p)) t.1
        × (t.0.warm_requests ≤ w.warm_requests + w.cfg.max_warm_per_tick)
  tick-IsWarming p w = elim (tick-cases p w) [
    | inl e ↦ rw e (tt, omega arith)
    | inr e ↦
        let rs = top (w.cfg.max_warm_per_tick * 10) p in
        rw e (
          ticks-IsWarming 0 0 rs w,
          omega (arith, ticks-requests now total_input_of affinity_of generate 0 0 rs w),
        )
  ]
