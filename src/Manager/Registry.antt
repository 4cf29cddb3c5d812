-- ===== src/Manager/Registry.antt =====
-- provider/manager.go: what stays true of the manager's maps over any calls. The two halves of a
-- Register, before and after its factory call, are calls of their own, so that other calls may come
-- between them.
use switch.Prelude.Dict.{lookup, IsMap, lookup-insert, insert-IsMap, lookup-remove, remove-IsMap}
use switch.Prelude.{
  ℕ, ◌<◌, String, ◌≡◌, refl, ◌⊎◌, inl, Bool, true, false, Option, none, some, arith, eq_iff,
}
use switch.Manager.{
  ProviderConfig, Cell, Manager, new_manager, set_config, add_provider, unregister,
}

abbrev pub is_some : {A : Type 0} → Option A → Bool
is_some none = false
is_some (some a) = true

module _ {P : Type 0} where
  -- A name has a semaphore, a limiter and a breaker, all of its own cell, exactly when it has a
  -- provider, and a configuration then.
  pub record Fits (m : Manager P) (name : String) : Type 0 where
    pub semaphore : lookup name m.semaphores ≡ lookup name m.circuits
    pub limiter : lookup name m.ratelimiters ≡ lookup name m.circuits
    pub guarded : is_some (lookup name m.circuits) ≡ is_some (lookup name m.providers)
    pub configured : lookup name m.providers ≡ none ⊎ (is_some (lookup name m.all_configs) ≡ true)
    pub made : (i : ℕ) → lookup name m.circuits ≡ some i → i < m.next_cell

  pub record Inv (m : Manager P) : Type 0 where
    pub providers : IsMap m.providers
    pub circuits : IsMap m.circuits
    pub semaphores : IsMap m.semaphores
    pub ratelimiters : IsMap m.ratelimiters
    pub all_configs : IsMap m.all_configs
    pub fits : (name : String) → Fits m name
    pub own :
        (i : ℕ) (name other : String)
        → lookup name m.circuits ≡ some i
        → lookup other m.circuits ≡ some i
        → name ≡ other

  pub new_manager-Inv : (unused : Cell) → Inv (new_manager unused)
  unfolding new_manager lookup IsMap
  new_manager-Inv unused = record {
    providers = tt;
    circuits = tt;
    semaphores = tt;
    ratelimiters = tt;
    all_configs = tt;
    fits = λ name. record {
      semaphore = refl;
      limiter = refl;
      guarded = refl;
      configured = inl refl;
      made = λ i e. cc;
    };
    own = λ i name other e e'. cc;
  }

  pub set_config-Inv : (cfg : ProviderConfig) (m : Manager P) → Inv m → Inv (set_config cfg m)
  unfolding set_config
  set_config-Inv cfg m v = record {
    providers = v.providers;
    circuits = v.circuits;
    semaphores = v.semaphores;
    ratelimiters = v.ratelimiters;
    all_configs = insert-IsMap cfg.name cfg m.all_configs v.all_configs;
    fits = λ name.
        let f = v.fits name in
        record {
          semaphore = f.semaphore;
          limiter = f.limiter;
          guarded = f.guarded;
          configured = ground (arith, f.configured, lookup-insert cfg.name name cfg m.all_configs);
          made = f.made;
        };
    own = v.own;
  }

  pub add_provider-Inv :
      (now : ℕ) (cfg : ProviderConfig) (p : P) (m : Manager P)
      → Inv m
      → Inv (add_provider now cfg p m)
  unfolding add_provider
  add_provider-Inv now cfg p m v = record {
    providers = insert-IsMap cfg.name p m.providers v.providers;
    circuits = insert-IsMap cfg.name m.next_cell m.circuits v.circuits;
    semaphores = insert-IsMap cfg.name m.next_cell m.semaphores v.semaphores;
    ratelimiters = insert-IsMap cfg.name m.next_cell m.ratelimiters v.ratelimiters;
    all_configs = insert-IsMap cfg.name cfg m.all_configs v.all_configs;
    fits = λ name.
        let f = v.fits name in
        let c = lookup-insert cfg.name name m.next_cell m.circuits in
        let q = lookup-insert cfg.name name p m.providers in
        record {
          semaphore =
              ground (arith, c, f.semaphore, lookup-insert cfg.name name m.next_cell m.semaphores);
          limiter =
              ground (arith, c, f.limiter, lookup-insert cfg.name name m.next_cell m.ratelimiters);
          guarded = ground (arith, c, q, f.guarded);
          configured =
              ground (arith, q, f.configured, lookup-insert cfg.name name cfg m.all_configs);
          made = λ i e. ground (arith, c, f.made i);
        };
    own = λ i name other e e'. ground (
      arith,
      eq_iff cfg.name name,
      eq_iff cfg.name other,
      lookup-insert cfg.name name m.next_cell m.circuits,
      lookup-insert cfg.name other m.next_cell m.circuits,
      (v.fits name).made i,
      (v.fits other).made i,
      v.own i name other,
    );
  }

  pub unregister-Inv : (name : String) (m : Manager P) → Inv m → Inv (unregister name m)
  unfolding unregister
  unregister-Inv gone m v = record {
    providers = remove-IsMap gone m.providers v.providers;
    circuits = remove-IsMap gone m.circuits v.circuits;
    semaphores = remove-IsMap gone m.semaphores v.semaphores;
    ratelimiters = remove-IsMap gone m.ratelimiters v.ratelimiters;
    all_configs = remove-IsMap gone m.all_configs v.all_configs;
    fits = λ name.
        let f = v.fits name in
        let c = lookup-remove gone name m.circuits v.circuits in
        let q = lookup-remove gone name m.providers v.providers in
        record {
          semaphore =
              ground (arith, c, f.semaphore, lookup-remove gone name m.semaphores v.semaphores);
          limiter =
              ground (arith, c, f.limiter, lookup-remove gone name m.ratelimiters v.ratelimiters);
          guarded = ground (arith, c, q, f.guarded);
          configured =
              ground (arith, q, f.configured, lookup-remove gone name m.all_configs v.all_configs);
          made = λ i e. ground (arith, c, f.made i);
        };
    own = λ i name other e e'. ground (
      arith,
      lookup-remove gone name m.circuits v.circuits,
      lookup-remove gone other m.circuits v.circuits,
      v.own i name other,
    );
  }
