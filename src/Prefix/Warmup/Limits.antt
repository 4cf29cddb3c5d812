-- ===== src/Prefix/Warmup/Limits.antt =====
-- prefix/warmup.go: how much one tick may send, and what.
use switch.Prelude.{
  ℕ, suc, ◌<◌, String, ◌≡◌, refl, inl, inr, Option, List, [], ◌∷◌, leb, Bool-cases, Option-cases,
  ◌+◌, ◌≤◌, max, ap, ◌⊎◌, arith, ◌∙◌, false, none, some,
}
use switch.Prefix.{PrefixRecord}
use switch.Prefix.Warmup.{
  WarmScheduler, Tokens, Answer, Sent, count_answer, ask_quota, Verdict, judge, request_for,
  tick_from, answered, stop, skip, warm, failed,
}

-- Nothing was sent in between.
pub record Quiet (w w' : WarmScheduler) : Type 0 where
  pub cfg : w'.cfg ≡ w.cfg
  pub requests : w'.warm_requests ≡ w.warm_requests
  pub input : w'.warm_input_tokens ≡ w.warm_input_tokens

quiet : (w : WarmScheduler) → Quiet w w
quiet w = record { cfg = refl; requests = refl; input = refl }

ask_quota-Quiet :
    (now : ℕ) (provider fp : String) (w : WarmScheduler) → Quiet w (ask_quota now provider fp w).0
unfolding ask_quota
ask_quota-Quiet now provider fp w = elim (Option-cases w.quota) [
  | inl unlimited ↦ record {
    cfg = ground (arith, unlimited);
    requests = ground (arith, unlimited);
    input = ground (arith, unlimited);
  }
  | inr (q, e) ↦ record {
    cfg = ground (arith, e);
    requests = ground (arith, e);
    input = ground (arith, e);
  }
]

Answer-cases : (a : Answer) → (a ≡ failed) ⊎ ((usage : Option Tokens) × (a ≡ answered usage))
Answer-cases failed = inl refl
Answer-cases (answered usage) = inr (usage, refl)

abbrev pub prompt_of : Option Tokens → ℕ
prompt_of none = 0
prompt_of (some t) = t.prompt

pub count_answer-facts :
    (usage : Option Tokens) (w : WarmScheduler)
    → ((count_answer usage w).warm_requests ≡ suc w.warm_requests)
      × ((count_answer usage w).cfg ≡ w.cfg)
      × ((count_answer usage w).warm_input_tokens ≡ w.warm_input_tokens + prompt_of usage)
unfolding count_answer
count_answer-facts none w = (refl, refl, omega arith)
count_answer-facts (some t) w = (refl, refl, refl)

module _ (now : ℕ) (total_input_of : ℕ → ℕ) (affinity_of : ℕ → String → String → String)
    (generate : ℕ → Sent → Answer) where
  abbrev ticks : ℕ → ℕ → List PrefixRecord → WarmScheduler → WarmScheduler × List Sent
  ticks = tick_from now total_input_of affinity_of generate

  -- What one candidate leads to.
  pub data Turn (i warmed : ℕ) (r : PrefixRecord) (rs : List PrefixRecord) (w : WarmScheduler)
      : Type 0 where
    ends : ticks i warmed (r ∷ rs) w ≡ (w, []) → Turn i warmed r rs w
    passes :
        (w' : WarmScheduler)
        → Quiet w w'
        → ticks i warmed (r ∷ rs) w ≡ ticks (suc i) warmed rs w'
        → Turn i warmed r rs w
    fails :
        (provider : String) (w' : WarmScheduler)
        → Quiet w w'
        → judge now (total_input_of i) (affinity_of i) w r ≡ warm provider
        → (let t = ticks (suc i) warmed rs w' in
            ticks i warmed (r ∷ rs) w ≡ (t.0, request_for provider w' r ∷ t.1))
        → Turn i warmed r rs w
    warms :
        (provider : String) (w' : WarmScheduler) (usage : Option Tokens)
        → Quiet w w'
        → warmed < w.cfg.max_warm_per_tick
        → judge now (total_input_of i) (affinity_of i) w r ≡ warm provider
        → generate i (request_for provider w' r) ≡ answered usage
        → (let t = ticks (suc i) (suc warmed) rs (count_answer usage w') in
            ticks i warmed (r ∷ rs) w ≡ (t.0, request_for provider w' r ∷ t.1))
        → Turn i warmed r rs w

  pub step-Turn :
      (i warmed : ℕ) (r : PrefixRecord) (rs : List PrefixRecord) (w : WarmScheduler)
      → Turn i warmed r rs w
  unfolding tick_from
  step-Turn i warmed r rs w = elim (Bool-cases (leb w.cfg.max_warm_per_tick warmed)) [
    | inl full ↦ ends (rw (full, tick_from) refl)
    | inr room ↦ judged room (judge now (total_input_of i) (affinity_of i) w r) refl
  ]
    where
      judged :
          leb w.cfg.max_warm_per_tick warmed ≡ false
          → (v : Verdict) → judge now (total_input_of i) (affinity_of i) w r ≡ v
          → Turn i warmed r rs w
      judged room stop e = ends (rw (room, e) refl)
      judged room skip e = passes w (quiet w) (rw (room, e) refl)
      judged room (warm provider) e =
          let w' = (ask_quota now provider r.fp w).0 in
          let q = ask_quota-Quiet now provider r.fp w in
          elim (Bool-cases (ask_quota now provider r.fp w).1) [
            | inr refused ↦ passes w' q (rw (room, e, refused) refl)
            | inl allowed ↦ elim (Answer-cases (generate i (request_for provider w' r))) [
              | inl broken ↦ fails provider w' q e (rw (room, e, allowed, broken) refl)
              | inr (usage, came) ↦
                  warms provider w' usage q (ground (arith, room)) e came
                    (rw (room, e, allowed, came) refl)
            ]
          ]

  -- The requests that the upstream answers are at most the maximum for a tick.
  pub ticks-requests :
      (i warmed : ℕ) (rs : List PrefixRecord) (w : WarmScheduler)
      → (ticks i warmed rs w).0.warm_requests + warmed
        ≤ w.warm_requests + max w.cfg.max_warm_per_tick warmed
  unfolding tick_from
  ticks-requests i warmed [] w = omega arith
  ticks-requests i warmed (r ∷ rs) w = elim (step-Turn i warmed r rs w) [
    | ends e ↦ rw e (omega arith)
    | passes w' q e ↦ rw e (
        omega (
          arith,
          ticks-requests (suc i) warmed rs w',
          q.requests,
          ap (λ c. c.max_warm_per_tick) q.cfg,
        ))
    | fails provider w' q due e ↦ rw e (
        omega (
          arith,
          ticks-requests (suc i) warmed rs w',
          q.requests,
          ap (λ c. c.max_warm_per_tick) q.cfg,
        ))
    | warms provider w' usage q room due came e ↦
        let counted = count_answer-facts usage w' in
        rw e (
          omega (
            arith,
            room,
            ticks-requests (suc i) (suc warmed) rs (count_answer usage w'),
            q.requests,
            counted.0,
            ap (λ c. c.max_warm_per_tick) (counted.1 ∙ q.cfg),
          ))
  ]
