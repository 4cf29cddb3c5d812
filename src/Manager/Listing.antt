-- ===== src/Manager/Listing.antt =====
-- provider/manager.go and server/routing.go: what List shows of the providers, and that a request is
-- routed to a provider that Get finds.
use mathlib.Core.List.{Memᴰ}
use mathlib.Core.List.Memᴰ.{head, tail}
use switch.Prelude.Dict.{lookup, has, Dict, has_of_lookup-none}
use switch.Prelude.{
  ap, ℕ, String, ◌≡◌, refl, ◌⊎◌, inl, inr, true, Option, none, some, List, [], ◌∷◌, arith,
  Option-cases,
}
use switch.Manager.{
  ProviderConfig, Manager, get_provider, update_cell, circuit_state, list_from, list_providers,
}
use switch.Routing.Pool.{ProviderSnapshot}
use switch.Routing.Rules.{Text}
use switch.Routing.Request.{RoutingState, route_request}
use switch.Routing.Request.Usable.{route_request-IsUsable}

module _ {P : Type 0} where
  -- The name has a provider.
  abbrev pub IsFound : Manager P → String → Type 0
  IsFound m name = (p : P) × (get_provider name m ≡ some p)

  has-IsFound :
      (name : String) (m : Dict P) → has name m ≡ true → (p : P) × (lookup name m ≡ some p)
  has-IsFound name m h = elim (Option-cases (lookup name m)) [
    | inl missing ↦ absurd (ground (arith, has_of_lookup-none name m missing))
    | inr found ↦ found
  ]

  circuit_state-providers :
      (now : ℕ) (i : Option ℕ) (m : Manager P) → (circuit_state now i m).0.providers ≡ m.providers
  unfolding circuit_state update_cell
  circuit_state-providers now none m = refl
  circuit_state-providers now (some i) m = refl

  list_from-IsFound :
      (now : ℕ) (cfgs : Dict ProviderConfig) (m : Manager P) (s : ProviderSnapshot)
      → Memᴰ s (list_from now cfgs m).1
      → s.active ≡ true
      → (has s.name m.providers ≡ true) × (s.key_configured ≡ true)
  unfolding list_from
  list_from-IsFound now [] m s r active = elim r [ ]
  list_from-IsFound now ((name, cfg) ∷ cfgs) m s (head e) active =
      ground (arith, active, ap (λ t. t.active) e, ap (λ t. t.name) e, ap (λ t. t.key_configured) e)
  list_from-IsFound now ((name, cfg) ∷ cfgs) m s (tail r) active =
      let i = lookup name m.circuits in
      let (there, keyed) = list_from-IsFound now cfgs (circuit_state now i m).0 s r active in
      (rw⁻¹ (circuit_state-providers now i m) there, keyed)

  -- Whatever the rules, affinity, pool, headers and draws: a request that is routed by the list of
  -- the manager's providers has no provider, or one that Get finds.
  pub routed-IsFound :
      {T : Type 0} (hash_key : String → ℕ) (vnode_hash : String → ℕ → ℕ) (weight : String → ℕ)
      (score : List ProviderSnapshot → ProviderSnapshot → ℕ) (now index x : ℕ)
      (intent complexity : Text) (model key : String) (m : Manager P) (s : RoutingState T)
      → let ps = (list_providers now m).1 in
        let d =
          (route_request hash_key vnode_hash weight score now index x intent complexity model key ps
            s).1 in
        (d.provider ≡ "") ⊎ IsFound m d.provider
  unfolding list_providers get_provider
  routed-IsFound hash_key vnode_hash weight score now index x intent complexity model key m s =
      elim (route_request-IsUsable hash_key vnode_hash weight score now index x intent complexity
        model key (list_from now m.all_configs m).1 s) [
          | inl unset ↦ inl unset
          | inr (p, listed, named, active, keyed) ↦ inr (
              rw⁻¹ named (
                has-IsFound p.name m.providers
                  (list_from-IsFound now m.all_configs m p listed active).0))
        ]
