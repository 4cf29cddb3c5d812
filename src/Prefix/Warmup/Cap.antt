-- ===== src/Prefix/Warmup/Cap.antt =====
-- prefix/warmup.go: the cap on the input tokens of the warm-up.
use switch.Prelude.{
  ℕ, ◌+◌, ◌*◌, ◌≤◌, ◌<◌, String, ◌≡◌, true, List, [], ◌∷◌, arith, suc, refl, ◌∙◌, subst, ◌⊎◌, inl,
  inr, some, Option, none,
}
use switch.Prefix.{PrefixRecord}
use switch.Prefix.Profiler.{Profiler, top}
use switch.Prefix.Warmup.{
  WarmScheduler, Answer, Sent, within_global_cap, tick_from, Tokens, count_answer, request_for,
  tick, answered,
}
use switch.Prefix.Warmup.Limits.{
  step-Turn, ends, passes, fails, warms, Quiet, count_answer-facts, prompt_of,
}
use switch.Prefix.Warmup.Ticks.{judge-IsDue, tick-cases}

over_by : (x p b d k : ℕ) → x * d ≤ k → p ≤ b → (x + p) * d ≤ k + b * d
over_by x p b d k h le = grind arith

-- The input tokens are those before, or within the cap and one answer on top of it.
abbrev pub Capped : ℕ → ℕ → WarmScheduler → ℕ → Type 0
Capped total bound w input =
    (input ≡ w.warm_input_tokens)
    ⊎ (input * w.cfg.global_cap_ratio.den
        ≤ w.cfg.global_cap_ratio.num * total + bound * w.cfg.global_cap_ratio.den)

module _ (now : ℕ) (total_input_of : ℕ → ℕ) (affinity_of : ℕ → String → String → String)
    (generate : ℕ → Sent → Answer) where
  module _ (total bound : ℕ) (same_total : (i : ℕ) → total_input_of i ≡ total)
      (some_input : 0 < total)
      (bounded : (i : ℕ) (s : Sent) (t : Tokens)
        → generate i s ≡ answered (some t)
        → t.prompt ≤ bound) where
    carry_cap :
        (w w' : WarmScheduler) (x : ℕ)
        → Quiet w w'
        → Capped total bound w' x
        → Capped total bound w x
    carry_cap w w' x q (inl e) = inl (e ∙ q.input)
    carry_cap w w' x q (inr le) = inr (
        subst
          (λ c.
            x * c.global_cap_ratio.den
            ≤ c.global_cap_ratio.num * total + bound * c.global_cap_ratio.den)
          q.cfg le)

    prompt-bounded :
        (i : ℕ) (s : Sent) (usage : Option Tokens)
        → generate i s ≡ answered usage
        → prompt_of usage ≤ bound
    prompt-bounded i s none came = omega arith
    prompt-bounded i s (some t) came = bounded i s t came

    within-le :
        (w : WarmScheduler)
        → within_global_cap total w ≡ true
        → w.warm_input_tokens * w.cfg.global_cap_ratio.den ≤ w.cfg.global_cap_ratio.num * total
    unfolding within_global_cap
    within-le w h = ground (arith, h, some_input)

    carry_answer :
        (w w' : WarmScheduler) (prompt : ℕ) (v : WarmScheduler) (x : ℕ)
        → Quiet w w'
        → v.cfg ≡ w'.cfg
        → v.warm_input_tokens ≡ w'.warm_input_tokens + prompt
        → prompt ≤ bound
        → within_global_cap total w ≡ true
        → Capped total bound v x
        → Capped total bound w x
    carry_answer w w' prompt v x q same more le within (inl e) =
        let sum : x ≡ w.warm_input_tokens + prompt = omega (arith, e, more, q.input) in
        inr (
          rw sum (
            over_by w.warm_input_tokens prompt bound w.cfg.global_cap_ratio.den
              (w.cfg.global_cap_ratio.num * total) (within-le w within) le))
    carry_answer w w' prompt v x q same more le within (inr cap) = inr (
        subst
          (λ c.
            x * c.global_cap_ratio.den
            ≤ c.global_cap_ratio.num * total + bound * c.global_cap_ratio.den)
          (same ∙ q.cfg) cap)

    ticks-Capped :
        (i warmed : ℕ) (rs : List PrefixRecord) (w : WarmScheduler)
        → Capped total bound w
            (tick_from now total_input_of affinity_of generate i warmed rs w).0.warm_input_tokens
    unfolding tick_from
    ticks-Capped i warmed [] w = inl refl
    ticks-Capped i warmed (r ∷ rs) w =
        elim (step-Turn now total_input_of affinity_of generate i warmed r rs w) [
          | ends e ↦ rw e (inl refl)
          | passes w' q e ↦ rw e (carry_cap w w' _ q (ticks-Capped (suc i) warmed rs w'))
          | fails provider w' q due e ↦
              rw e (carry_cap w w' _ q (ticks-Capped (suc i) warmed rs w'))
          | warms provider w' usage q room due came e ↦
              let counted = count_answer-facts usage w' in
              let within =
                (judge-IsDue now (total_input_of i) (affinity_of i) w r provider due).1 in
              rw e (
                carry_answer w w' (prompt_of usage) (count_answer usage w') _ q counted.1 counted.2
                  (prompt-bounded i (request_for provider w' r) usage came)
                  (rw⁻¹ (same_total i) within)
                  (ticks-Capped (suc i) (suc warmed) rs (count_answer usage w')))
        ]

    -- With a site that has seen `total` input tokens, and answers that count at most `bound` prompt
    -- tokens each, a tick leaves the warm-up's input tokens as they were, or within the cap and one
    -- answer.
    pub tick-Capped :
        (p : Profiler) (w : WarmScheduler)
        → Capped total bound w
            (tick now total_input_of affinity_of generate p w).0.warm_input_tokens
    tick-Capped p w = elim (tick-cases now total_input_of affinity_of generate p w) [
      | inl e ↦ rw e (inl refl)
      | inr e ↦ rw e (ticks-Capped 0 0 (top (w.cfg.max_warm_per_tick * 10) p) w)
    ]
