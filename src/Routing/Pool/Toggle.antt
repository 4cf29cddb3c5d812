-- ===== src/Routing/Pool/Toggle.antt =====
-- server/routing_pool.go: toggleRoutingPool.
use switch.Prelude.Dict.{Dict, insert, remove, IsMap, lookup-insert, lookup-remove}
use switch.Prelude.{
  String, ◌≡◌, ◌⊎◌, inl, inr, Bool, true, false, none, some, List, [], ◌∷◌, arith, eq_iff, str_eq,
  if◌then◌else◌, Bool-cases, Option-cases,
}
use switch.Routing.Pool.{
  ProviderSnapshot, provider_snapshot, in_pool, ToggleResult, add_found, toggle, added, removed,
  provider_required, not_usable, not_found, bad_action,
}

-- Membership after an answer, from that before.
abbrev pub after : ToggleResult → Bool → Bool
after added old = true
after removed old = false
after provider_required old = old
after not_usable old = old
after not_found old = old
after bad_action old = old

in_pool-insert :
    (k name : String) (pool : Dict Bool)
    → in_pool name (insert k true pool) ≡ (if str_eq k name then true else in_pool name pool)
unfolding in_pool
in_pool-insert k name pool = ground (arith, lookup-insert k name true pool)

in_pool-remove :
    (k name : String) (pool : Dict Bool)
    → IsMap pool
    → in_pool name (remove k pool) ≡ (if str_eq k name then false else in_pool name pool)
unfolding in_pool
in_pool-remove k name pool v = ground (arith, lookup-remove k name pool v)

named-snapshot :
    (name : String) (ps : List ProviderSnapshot) (p : ProviderSnapshot)
    → provider_snapshot name ps ≡ some p
    → p.name ≡ name
unfolding provider_snapshot
named-snapshot name [] p h = cc
named-snapshot name (q ∷ qs) p h = elim (Bool-cases (str_eq q.name name)) [
  | inl hit ↦ let same : p ≡ q = ground (arith, hit) in ground (arith, eq_iff q.name name, same)
  | inr miss ↦ named-snapshot name qs p (ground (arith, miss))
]

-- A toggle changes the membership of the provider it names, as its answer says, and of no other: the
-- provider is a member after "added", none after "removed", and all errors change nothing.
pub toggle-in_pool :
    (provider action name : String) (ps : List ProviderSnapshot) (pool : Dict Bool)
    → IsMap pool
    → let (pool', answer) = toggle provider action ps pool in
      in_pool name pool'
      ≡ (if str_eq provider name then after answer (in_pool name pool) else in_pool name pool)
unfolding toggle
toggle-in_pool provider action name ps pool v = elim (Bool-cases (str_eq provider "")) [
  | inl unnamed ↦ rw unnamed (ground arith)
  | inr named ↦ elim (Bool-cases (str_eq action "add")) [
    | inl adds ↦ rw (named, adds) (add_found-in_pool (Option-cases (provider_snapshot provider ps)))
    | inr other ↦ elim (Bool-cases (str_eq action "remove")) [
      | inl removes ↦ rw (named, other, removes) (in_pool-remove provider name pool v)
      | inr unknown ↦ rw (named, other, unknown) (ground arith)
    ]
  ]
]
  where
    add_found-in_pool :
        (provider_snapshot provider ps ≡ none)
          ⊎ ((p : ProviderSnapshot) × (provider_snapshot provider ps ≡ some p))
        → (let (pool', answer) = add_found (provider_snapshot provider ps) pool in
            in_pool name pool' ≡ (
              if str_eq provider name then after answer (in_pool name pool) else in_pool name pool))
    add_found-in_pool (inl missing) = unfold add_found in (rw missing (ground arith))
    add_found-in_pool (inr (p, e)) =
        unfold add_found in
        (rw e (ground (arith, in_pool-insert p.name name pool, named-snapshot provider ps p e)))
