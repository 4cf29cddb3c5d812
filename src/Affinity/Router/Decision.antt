-- ===== src/Affinity/Router/Decision.antt =====
-- prefix/affinity.go: what Decide chooses.
use native.Mathlib.Nat.{le_refl}
use switch.Prelude.Dict.{lookup, remove}
use switch.Prelude.{
  ℕ, zero, suc, ◌+◌, ◌%◌, ◌≤◌, ◌<◌, String, ◌≡◌, inl, inr, Bool, true, false, none, some, List,
  arith, eq_iff, Bool-cases, length, get_or, ◌⊎◌, Option, ◌==◌, refl, Option-cases,
}
use switch.Affinity.Ring.{RingVNode, no_vnode, position}
use switch.Affinity.Router.{
  walk, AffinityRouter, is_healthy, usable, sticky, conclude, decide_by_ring, decide, primary,
  fallback, Reason, is_overloaded, decide_with,
}

-- The vnode of a step of the walk.
abbrev pub name_at : List RingVNode → ℕ → ℕ → String
name_at vs start step = (get_or vs ((start + step) % length vs) no_vnode).name

-- The first step of the walk, of those from `step` on, whose provider is taken.
pub record IsFirstTaken (accepts : String → Bool) (vs : List RingVNode) (start step k : ℕ)
    : Type 0 where
  pub from : step ≤ k
  pub taken : accepts (name_at vs start k) ≡ true
  pub before : (j : ℕ) → step ≤ j → j < k → accepts (name_at vs start j) ≡ false

module _ (accepts : String → Bool) (vs : List RingVNode) (start : ℕ) where
  -- What fails at a step and at all later ones below k fails from the step on.
  extend :
      (step k : ℕ)
      → accepts (name_at vs start step) ≡ false
      → ((j : ℕ) → suc step ≤ j → j < k → accepts (name_at vs start j) ≡ false)
      → (j : ℕ) → step ≤ j
      → j < k
      → accepts (name_at vs start j) ≡ false
  extend step k here later j a b = elim (Bool-cases (j == step)) [
    | inl e ↦ let same : j ≡ step = ground arith in rw same here
    | inr e ↦ later j (ground arith) b
  ]

  walk-some :
      (left step : ℕ) (last name : String)
      → accepts last ≡ false
      → walk accepts vs start left step last ≡ some name
      → (k : ℕ) × (k < step + left)
        × (name ≡ name_at vs start k)
        × IsFirstTaken accepts vs start step k
  unfolding walk
  walk-some zero step last name fails h = cc
  walk-some (suc left) step last name fails h =
      elim (Bool-cases (accepts (name_at vs start step))) [
        | inl took ↦
            let here : name ≡ name_at vs start step =
              ground (arith, eq_iff (name_at vs start step) last) in
            (
              step,
              omega arith,
              here,
              record { from = le_refl _; taken = took; before = λ j a b. absurd (omega arith) },
            )
        | inr passed ↦
            let (k, bound, found, first) =
              walk-some left (suc step) (name_at vs start step) name passed (ground arith) in
            (
              k,
              omega (arith, bound),
              found,
              record {
                from = omega (arith, first.from);
                taken = first.taken;
                before = extend step k passed first.before;
              },
            )
      ]

  walk-none :
      (left step : ℕ) (last : String)
      → accepts last ≡ false
      → walk accepts vs start left step last ≡ none
      → (j : ℕ) → step ≤ j
      → j < step + left
      → accepts (name_at vs start j) ≡ false
  unfolding walk
  walk-none zero step last fails h j a b = absurd (omega arith)
  walk-none (suc left) step last fails h j a b =
      elim (Bool-cases (accepts (name_at vs start step))) [
        | inl took ↦ absurd (ground (arith, eq_iff (name_at vs start step) last))
        | inr passed ↦
            extend step (step + suc left) passed
              (λ i c d.
                walk-none left (suc step) (name_at vs start step) passed (ground arith) i c
                  (omega arith))
              j a b
      ]

module _ (hash_key : String → ℕ) where
  -- How a decision by the ring ends.
  abbrev pub ByRing : String → Option (String → Bool) → AffinityRouter → String × Reason → Type 0
  ByRing key healthy a outcome =
      let vs = a.ring.vnodes in
      let start = position (hash_key key) vs in
      let accepts = usable healthy a in
      ((k : ℕ) × (k < length vs)
        × (outcome ≡ (name_at vs start k, primary))
        × IsFirstTaken accepts vs start 0 k)
      ⊎ ((outcome ≡ ("", fallback))
          × ((j : ℕ) → j < length vs → accepts (name_at vs start j) ≡ false))

  decide_by_ring-ByRing :
      (key : String) (healthy : Option (String → Bool)) (a : AffinityRouter)
      → is_healthy healthy "" ≡ false
      → ByRing key healthy a (decide_by_ring hash_key key healthy a).1
  unfolding decide_by_ring conclude
  decide_by_ring-ByRing key healthy a unnamed =
      let vs = a.ring.vnodes in
      let start = position (hash_key key) vs in
      let accepts = usable healthy a in
      let fails : accepts "" ≡ false = unfold usable in (rw unnamed refl) in
      elim (Bool-cases (length vs == 0)) [
        | inl empty ↦ rw empty (inr (refl, λ j lt. absurd (ground arith)))
        | inr some_vnode ↦ elim (Option-cases (walk accepts vs start (length vs) 0 "")) [
          | inl e ↦
              rw (some_vnode, e)
                (inr (
                  refl,
                  λ j lt.
                      walk-none accepts vs start (length vs) 0 "" fails e j (omega arith)
                        (omega arith),
                ))
          | inr (name, e) ↦
              let (k, bound, found, first) =
                walk-some accepts vs start (length vs) 0 "" name fails e in
              rw (some_vnode, e) (inl (k, omega (arith, bound), rw found refl, first))
        ]
      ]

  -- When no overflow entry holds, Decide ends with the first provider clockwise from the key's
  -- position that is healthy and not overloaded, or, when no provider of the ring is, with the
  -- fallback. (No provider has the empty name.)
  pub decide_first :
      (now : ℕ) (key : String) (healthy : Option (String → Bool)) (a : AffinityRouter)
      → sticky now healthy (lookup key a.overflow) ≡ none
      → is_healthy healthy "" ≡ false
      → ByRing key healthy a (decide hash_key now key healthy a).1
  unfolding decide decide_with usable is_overloaded
  decide_first now key healthy a free unnamed =
      rw (free, decide)
        (decide_by_ring-ByRing key healthy (record a { overflow = remove key a.overflow }) unnamed)
