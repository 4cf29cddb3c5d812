-- ===== src/Manager/Calls.antt =====
-- provider/manager.go: the manager after any sequence of calls. The two halves of a Register are
-- calls of their own, so that others may come between them; `uses` is whatever a call under way does
-- to the objects it holds.
use switch.Prelude.Dict.{lookup, insert, Dict, remove, lookup-insert_self, lookup-remove}
use switch.Prelude.{
  ℕ, String, ◌≡◌, refl, inl, inr, Option, none, some, List, [], ◌∷◌, arith, eq_iff, Option-cases,
  Bool, true, false, if◌then◌else◌, put,
}
use switch.Manager.{
  ProviderConfig, Cell, Manager, new_cell, new_manager, register_factory, set_config, add_provider,
  install, construct, register, bootstrap, unregister, get_provider, update_cell, registered,
}
use switch.Manager.Registry.{Inv, new_manager-Inv, set_config-Inv, add_provider-Inv, unregister-Inv}

pub data Call (P : Type 0) : Type 0 where
  factory : String → (ProviderConfig → Option P) → Call P
  registers : ℕ → ProviderConfig → Call P
  configures : ProviderConfig → Call P
  installs : ℕ → ProviderConfig → P → Call P
  boots : ℕ → List ProviderConfig → Call P
  unregisters : String → Call P
  uses : ℕ → (Cell → Cell) → Call P

module _ {P : Type 0} where
  unfoldable pub perform : Call P → Manager P → Manager P
  perform (factory kind f) m = register_factory kind f m
  perform (registers now cfg) m = (register now cfg m).0
  perform (configures cfg) m = set_config cfg m
  perform (installs now cfg p) m = (install now cfg p m).0
  perform (boots now cfgs) m = bootstrap now cfgs m
  perform (unregisters name) m = unregister name m
  perform (uses i f) m = update_cell i f m

  unfoldable pub perform_all : List (Call P) → Manager P → Manager P
  perform_all [] m = m
  perform_all (call ∷ calls) m = perform_all calls (perform call m)

  pub same_maps-Inv :
      (f : Dict (ProviderConfig → Option P)) (c : ℕ → Cell) (m : Manager P)
      → Inv m
      → Inv (record m { factories = f; cells = c })
  same_maps-Inv f c m v = record {
    providers = v.providers;
    circuits = v.circuits;
    semaphores = v.semaphores;
    ratelimiters = v.ratelimiters;
    all_configs = v.all_configs;
    fits = λ name.
        let f = v.fits name in
        record {
          semaphore = f.semaphore;
          limiter = f.limiter;
          guarded = f.guarded;
          configured = f.configured;
          made = f.made;
        };
    own = v.own;
  }

  install-Inv :
      (now : ℕ) (cfg : ProviderConfig) (p : P) (m : Manager P) → Inv m → Inv (install now cfg p m).0
  unfolding install
  install-Inv now cfg p m v = elim (Option-cases (lookup cfg.name m.providers)) [
    | inl new ↦ rw (new, install) (add_provider-Inv now cfg p m v)
    | inr (old, e) ↦ rw (e, install) v
  ]

  construct-Inv :
      (now : ℕ) (cfg : ProviderConfig) (f : Option (ProviderConfig → Option P)) (m : Manager P)
      → Inv m
      → Inv (construct now cfg f m).0
  unfolding construct
  construct-Inv now cfg none m v = v
  construct-Inv now cfg (some f) m v = elim (Option-cases (f cfg)) [
    | inl failed ↦ rw (failed, construct) v
    | inr (p, made) ↦ rw (made, construct) (install-Inv now cfg p m v)
  ]

  register-Inv :
      (now : ℕ) (cfg : ProviderConfig) (m : Manager P) → Inv m → Inv (register now cfg m).0
  unfolding register
  register-Inv now cfg m v = elim (Option-cases (lookup cfg.name m.providers)) [
    | inl new ↦ rw (new, register) (construct-Inv now cfg (lookup cfg.kind m.factories) m v)
    | inr (old, e) ↦ rw (e, register) (set_config-Inv cfg m v)
  ]

  if-Inv : (b : Bool) (m m' : Manager P) → Inv m → Inv m' → Inv (if b then m else m')
  if-Inv true m m' v v' = v
  if-Inv false m m' v v' = v'

  bootstrap-Inv :
      (now : ℕ) (cfgs : List ProviderConfig) (m : Manager P) → Inv m → Inv (bootstrap now cfgs m)
  unfolding bootstrap
  bootstrap-Inv now [] m v = v
  bootstrap-Inv now (cfg ∷ cfgs) m v =
      let v' = set_config-Inv cfg m v in
      bootstrap-Inv now cfgs _ (if-Inv cfg.enabled _ _ (register-Inv now cfg _ v') v')

  pub perform-Inv : (call : Call P) (m : Manager P) → Inv m → Inv (perform call m)
  unfolding perform register_factory update_cell
  perform-Inv (factory kind f) m v = same_maps-Inv (insert kind f m.factories) m.cells m v
  perform-Inv (registers now cfg) m v = register-Inv now cfg m v
  perform-Inv (configures cfg) m v = set_config-Inv cfg m v
  perform-Inv (installs now cfg p) m v = install-Inv now cfg p m v
  perform-Inv (boots now cfgs) m v = bootstrap-Inv now cfgs m v
  perform-Inv (unregisters name) m v = unregister-Inv name m v
  perform-Inv (uses i f) m v = same_maps-Inv m.factories (put i (f (m.cells i)) m.cells) m v

  pub perform_all-Inv : (calls : List (Call P)) (m : Manager P) → Inv m → Inv (perform_all calls m)
  unfolding perform_all
  perform_all-Inv [] m v = v
  perform_all-Inv (call ∷ calls) m v = perform_all-Inv calls (perform call m) (perform-Inv call m v)

  -- After any calls, with the halves of concurrent Registers in any order: each name has a
  -- semaphore, a limiter and a breaker exactly when it has a provider, all three of one registration
  -- of that name, and a configuration then.
  pub registry-Inv :
      (unused : Cell) (calls : List (Call P)) → Inv (perform_all calls (new_manager unused))
  registry-Inv unused calls = perform_all-Inv calls (new_manager unused) (new_manager-Inv unused)

  -- The objects that the calls to a provider are guarded by.
  abbrev pub cell_of : String → Manager P → Option Cell
  cell_of name m = elim (lookup name m.circuits) [ none ↦ none | some i ↦ some (m.cells i) ]

  register-new :
      (now : ℕ) (cfg : ProviderConfig) (f : ProviderConfig → Option P) (p : P) (m : Manager P)
      → lookup cfg.kind m.factories ≡ some f
      → f cfg ≡ some p
      → lookup cfg.name m.providers ≡ none
      → register now cfg m ≡ (add_provider now cfg p m, registered p)
  unfolding register construct install
  register-new now cfg f p m has_factory makes new =
      rw (new, register, has_factory, construct, makes, install, new) refl

  -- To register a provider that is there leaves its limits and its breaker as they are, whatever the
  -- new configuration says; after an Unregister, where the factory makes a provider, all of them are
  -- made afresh.
  pub register-renews :
      (now : ℕ) (cfg : ProviderConfig) (f : ProviderConfig → Option P) (p old : P) (m : Manager P)
      → Inv m
      → lookup cfg.kind m.factories ≡ some f
      → f cfg ≡ some p
      → get_provider cfg.name m ≡ some old
      → let renewed = register now cfg (unregister cfg.name m) in
        (renewed.1 ≡ registered p)
        × (get_provider cfg.name renewed.0 ≡ some p)
        × (cell_of cfg.name renewed.0 ≡ some (new_cell now cfg))
        × (cell_of cfg.name (register now cfg m).0 ≡ cell_of cfg.name m)
  unfolding get_provider unregister add_provider register set_config
  register-renews now cfg f p old m v has_factory makes there =
      let gone : lookup cfg.name (remove cfg.name m.providers) ≡ none = ground (
        arith,
        lookup-remove cfg.name cfg.name m.providers v.providers,
        eq_iff cfg.name cfg.name,
      ) in
      rw (register-new now cfg f p (unregister cfg.name m) has_factory makes gone) (
        refl,
        lookup-insert_self cfg.name p _,
        rw (lookup-insert_self cfg.name m.next_cell (remove cfg.name m.circuits), cell_of)
            (ground arith),
        rw (there, register) refl,
      )
