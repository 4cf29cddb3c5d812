-- ===== src/Routing/Request/Usable.antt =====
-- server/routing.go: which providers routeRequest decides for.
use mathlib.Core.List.{Memᴰ}
use switch.Prelude.Dict.{lookup, remove, Dict}
use switch.Prelude.{
  ℕ, zero, suc, ◌+◌, ◌%◌, String, ◌≡◌, refl, ◌⊎◌, inl, inr, Bool, true, ◌&&◌, some, List, arith,
  str_eq, ltb, ◌==◌, Bool-cases, Option-cases, length, get_or, sym, Option, none,
}
use switch.Affinity.Ring.{RingVNode, no_vnode, position}
use switch.Affinity.Router.{
  AffinityRouter, usable, walk, sticky, conclude, decide_by_ring, decide_with, decide,
  affinity_pick,
}
use switch.Routing.Pool.{ProviderSnapshot, provider_snapshot, is_eligible, select_from_pool}
use switch.Routing.Pool.Choice.{select_from_pool-IsChoice}
use switch.Routing.Rules.{Text, match_rule}
use switch.Routing.Rules.Match.{provider_snapshot-Memᴰ, apply_rule-usable}
use switch.Routing.Request.{
  RoutingState, affinity_healthy, rebuild_affinity_ring, route_unruled, route_request,
}

walk-taken :
    (accepts : String → Bool) (vs : List RingVNode) (start left step : ℕ) (last name : String)
    → walk accepts vs start left step last ≡ some name
    → accepts name ≡ true
unfolding walk
walk-taken accepts vs start zero step last name h = cc
walk-taken accepts vs start (suc left) step last name h =
    let here = (get_or vs ((start + step) % length vs) no_vnode).name in
    elim (Bool-cases (str_eq here last)) [
      | inl again ↦ walk-taken accepts vs start left (suc step) here name (ground (arith, again))
      | inr new ↦ elim (Bool-cases (accepts here)) [
        | inl took ↦ let same : name ≡ here = ground (arith, new, took) in rw same took
        | inr passed ↦
            walk-taken accepts vs start left (suc step) here name (ground (arith, new, passed))
      ]
    ]

module _ (hash_key : String → ℕ) (healthy : String → Bool) where
  abbrev Fine : String → Type 0
  Fine name = (name ≡ "") ⊎ (healthy name ≡ true)

  decide_by_ring-Fine :
      (key : String) (a : AffinityRouter) → Fine (decide_by_ring hash_key key (some healthy) a).1.0
  unfolding decide_by_ring conclude
  decide_by_ring-Fine key a =
      let vs = a.ring.vnodes in
      let accepts = usable (some healthy) a in
      let start = position (hash_key key) vs in
      elim (Bool-cases (length vs == 0)) [
        | inl empty ↦ rw empty (inl refl)
        | inr some_vnode ↦ elim (Option-cases (walk accepts vs start (length vs) 0 "")) [
          | inl e ↦ rw (some_vnode, e) (inl refl)
          | inr (name, e) ↦
              let took : usable (some healthy) a name ≡ true =
                walk-taken accepts vs start (length vs) 0 "" name e in
              rw (some_vnode, e) (inr (unfold usable in (ground (arith, took))))
        ]
      ]

  decide-Fine :
      (now : ℕ) (key : String) (a : AffinityRouter)
      → Fine (decide hash_key now key (some healthy) a).1.0
  unfolding decide decide_with sticky
  decide-Fine now key a = elim (Option-cases (lookup key a.overflow)) [
    | inl missing ↦
        rw (missing, decide)
          (decide_by_ring-Fine key (record a { overflow = remove key a.overflow }))
    | inr (e, found) ↦ elim (Bool-cases (ltb now e.until && healthy e.provider)) [
      | inl holds ↦ rw (found, holds, decide) (inr (ground (arith, holds)))
      | inr over ↦
          rw (found, over, decide)
            (decide_by_ring-Fine key (record a { overflow = remove key a.overflow }))
    ]
  ]

-- A provider of this name is listed, active and has a key.
abbrev pub IsUsable : List ProviderSnapshot → String → Type 0
IsUsable ps name =
    (p : ProviderSnapshot) × Memᴰ p ps
    × (p.name ≡ name)
    × (p.active ≡ true)
    × (p.key_configured ≡ true)

affinity_healthy-IsUsable :
    (ps : List ProviderSnapshot) (name : String)
    → affinity_healthy ps name ≡ true
    → IsUsable ps name
unfolding affinity_healthy
affinity_healthy-IsUsable ps name h = elim (Option-cases (provider_snapshot name ps)) [
  | inl missing ↦ absurd (ground (arith, missing))
  | inr (p, e) ↦
      let (m, named) = provider_snapshot-Memᴰ name ps p e in
      (p, m, named, ground (arith, e), ground (arith, e))
]

is_eligible-usable :
    (pool : Dict Bool) (p : ProviderSnapshot)
    → is_eligible pool p ≡ true
    → (p.active ≡ true) × (p.key_configured ≡ true)
unfolding is_eligible
is_eligible-usable pool p fit = (ground (arith, fit), ground (arith, fit))

from_pool-IsUsable :
    (score : List ProviderSnapshot → ProviderSnapshot → ℕ) (index x : ℕ)
    (ps : List ProviderSnapshot) (pool : Dict Bool)
    → (select_from_pool score index x pool ps ≡ "")
      ⊎ IsUsable ps (select_from_pool score index x pool ps)
from_pool-IsUsable score index x ps pool = elim (select_from_pool-IsChoice score index x pool ps) [
  | inr (none_fit, unset) ↦ inl unset
  | inl (p, choice, named) ↦
      let (active, keyed) = is_eligible-usable pool p choice.eligible in
      inr (p, choice.listed, sym named, active, keyed)
]

module _ {T : Type 0} (hash_key : String → ℕ) (vnode_hash : String → ℕ → ℕ) (weight : String → ℕ)
    (score : List ProviderSnapshot → ProviderSnapshot → ℕ) where
  route_unruled-IsUsable :
      (now index x : ℕ) (key : String) (ps : List ProviderSnapshot)
      (affinity : Option AffinityRouter) (s : RoutingState T)
      → let d = (route_unruled hash_key vnode_hash weight score now index x key ps affinity s).1 in
        (d.provider ≡ "") ⊎ IsUsable ps d.provider
  unfolding route_unruled affinity_pick
  route_unruled-IsUsable now index x key ps none s = from_pool-IsUsable score index x ps s.pool
  route_unruled-IsUsable now index x key ps (some a) s =
      let b = (rebuild_affinity_ring hash_key vnode_hash weight ps a s).0 in
      let p = (decide hash_key now key (some (affinity_healthy ps)) b).1.0 in
      elim (Bool-cases (str_eq p "")) [
        | inl unset ↦ rw unset (from_pool-IsUsable score index x ps s.pool)
        | inr picked ↦ rw picked (elim (decide-Fine hash_key (affinity_healthy ps) now key b) [
          | inl unset ↦ inl unset
          | inr fine ↦ inr (affinity_healthy-IsUsable ps p fine)
        ])
      ]

  -- Whatever decides, a rule, affinity or the pool, with whatever headers, draws and state of the
  -- router: the provider of a request is listed, active and has a key, or the request has none.
  pub route_request-IsUsable :
      (now index x : ℕ) (intent complexity : Text) (model key : String) (ps : List ProviderSnapshot)
      (s : RoutingState T)
      → let d =
          (route_request hash_key vnode_hash weight score now index x intent complexity model key ps
            s).1 in
        (d.provider ≡ "") ⊎ IsUsable ps d.provider
  unfolding route_request
  route_request-IsUsable now index x intent complexity model key ps s =
      elim (Option-cases (match_rule intent complexity model s.rules)) [
        | inl unmatched ↦
            rw (unmatched, route_request) (route_unruled-IsUsable now index x key ps s.affinity s)
        | inr (r, e) ↦
            rw (e, route_request)
              (elim (apply_rule-usable ps r).0 [
                | inl unset ↦ inl unset
                | inr (p, m, named, given, active, keyed) ↦ inr (p, m, named, active, keyed)
              ])
      ]
