-- ===== src/Manager/Guards/Cells.antt =====
-- provider/manager.go: the registry makes new cells and leaves the old ones as they are, also those
-- of registrations that are gone.
use switch.Manager.Calls.{
  Call, perform, perform-Inv, factory, registers, configures, installs, boots, unregisters, uses,
}
use switch.Manager.Guards.{System, is_of_registry}
use switch.Manager.Guards.Counts.{Inv}
use switch.Prelude.Dict.{lookup}
use switch.Prelude.{
  ℕ, ◌≤◌, ◌<◌, ◌≡◌, ap, ◌∙◌, ◌⊎◌, inl, inr, some, arith, ltb, ltb→lt, Bool-cases, refl, sym, Bool,
  true, false, Option, none, List, [], ◌∷◌, if◌then◌else◌, Option-cases,
}
use switch.Concurrency.Semaphore.{Semaphore, new_semaphore}
use switch.Manager.{
  ProviderConfig, Manager, new_cell, add_provider, register_factory, set_config, install, construct,
  register, bootstrap, unregister,
}

-- A cell that all calls have left.
pub record IsFree (t : Semaphore) : Type 0 where
  pub none_taken : t.taken ≡ 0
  pub none_waiting : t.waiting ≡ 0

module _ {P : Type 0} where
  pub record Grown (m m' : Manager P) : Type 0 where
    pub grown : m.next_cell ≤ m'.next_cell
    pub old : (c : ℕ) → c < m.next_cell → m'.cells c ≡ m.cells c
    pub new_ :
        (c : ℕ) (t : Semaphore)
        → m.next_cell ≤ c
        → (m'.cells c).semaphore ≡ some t
        → IsFree t ⊎ ((m.cells c).semaphore ≡ some t)

  Grown-refl : (m m' : Manager P) → m'.cells ≡ m.cells → m'.next_cell ≡ m.next_cell → Grown m m'
  Grown-refl m m' e n = record {
    grown = omega (arith, n);
    old = λ c h. ap (λ f. f c) e;
    new_ = λ c t h there. inr (rw⁻¹ e there);
  }

  Grown-trans : (m m' m'' : Manager P) → Grown m m' → Grown m' m'' → Grown m m''
  Grown-trans m m' m'' g g' = record {
    grown = omega (arith, g.grown, g'.grown);
    old = λ c h. g'.old c (omega (arith, h, g.grown)) ∙ g.old c h;
    new_ = λ c t h there. elim (Bool-cases (ltb c m'.next_cell)) [
      | inl mid ↦ g.new_ c t h (rw⁻¹ (g'.old c (ltb→lt c m'.next_cell mid)) there)
      | inr beyond ↦ elim (g'.new_ c t (ground arith) there) [
        | inl free ↦ inl free
        | inr there' ↦ g.new_ c t h there'
      ]
    ];
  }

  add_provider-Grown :
      (now : ℕ) (cfg : ProviderConfig) (p : P) (m : Manager P) → Grown m (add_provider now cfg p m)
  unfolding add_provider new_cell new_semaphore
  add_provider-Grown now cfg p m = record {
    grown = omega arith;
    old = λ c h. ground arith;
    new_ = λ c t h there. ground arith;
  }

  install-Grown :
      (now : ℕ) (cfg : ProviderConfig) (p : P) (m : Manager P) → Grown m (install now cfg p m).0
  unfolding install
  install-Grown now cfg p m = elim (Option-cases (lookup cfg.name m.providers)) [
    | inl absent ↦ rw (absent, install) (add_provider-Grown now cfg p m)
    | inr (old, e) ↦ rw (e, install) (Grown-refl m m refl refl)
  ]

  construct-Grown :
      (now : ℕ) (cfg : ProviderConfig) (f : Option (ProviderConfig → Option P)) (m : Manager P)
      → Grown m (construct now cfg f m).0
  unfolding construct
  construct-Grown now cfg none m = Grown-refl m m refl refl
  construct-Grown now cfg (some f) m = elim (Option-cases (f cfg)) [
    | inl failed ↦ rw (failed, construct) (Grown-refl m m refl refl)
    | inr (p, made) ↦ rw (made, construct) (install-Grown now cfg p m)
  ]

  set_config-Grown : (cfg : ProviderConfig) (m : Manager P) → Grown m (set_config cfg m)
  unfolding set_config
  set_config-Grown cfg m = Grown-refl m _ refl refl

  register-Grown : (now : ℕ) (cfg : ProviderConfig) (m : Manager P) → Grown m (register now cfg m).0
  unfolding register
  register-Grown now cfg m = elim (Option-cases (lookup cfg.name m.providers)) [
    | inl absent ↦ rw (absent, register) (construct-Grown now cfg (lookup cfg.kind m.factories) m)
    | inr (old, e) ↦ rw (e, register) (set_config-Grown cfg m)
  ]

  if-Grown :
      (b : Bool) (m m' m'' : Manager P) → Grown m m' → Grown m m'' → Grown m (if b then m' else m'')
  if-Grown true m m' m'' g g' = g
  if-Grown false m m' m'' g g' = g'

  bootstrap-Grown :
      (now : ℕ) (cfgs : List ProviderConfig) (m : Manager P) → Grown m (bootstrap now cfgs m)
  unfolding bootstrap
  bootstrap-Grown now [] m = Grown-refl m m refl refl
  bootstrap-Grown now (cfg ∷ cfgs) m =
      let g = set_config-Grown cfg m in
      let m' = set_config cfg m in
      Grown-trans m _ _
        (if-Grown cfg.enabled m _ m' (Grown-trans m m' _ g (register-Grown now cfg m')) g)
        (bootstrap-Grown now cfgs (if cfg.enabled then (register now cfg m').0 else m'))

  pub perform-Grown :
      (call : Call P) (m : Manager P) → is_of_registry call ≡ true → Grown m (perform call m)
  unfolding perform register_factory unregister
  perform-Grown (factory kind f) m h = Grown-refl m _ refl refl
  perform-Grown (registers now cfg) m h = register-Grown now cfg m
  perform-Grown (configures cfg) m h = set_config-Grown cfg m
  perform-Grown (installs now cfg p) m h = install-Grown now cfg p m
  perform-Grown (boots now cfgs) m h = bootstrap-Grown now cfgs m
  perform-Grown (unregisters name) m h = Grown-refl m _ refl refl
  perform-Grown (uses i f) m h = cc

  -- A call of the registry: the goroutines stay where they are.
  pub manage-Inv :
      (call : Call P) (s : System P)
      → is_of_registry call ≡ true
      → Inv s
      → Inv (record s { manager = perform call s.manager })
  manage-Inv call s h v =
      let g = perform-Grown call s.manager h in
      record {
        registry = perform-Inv call s.manager v.registry;
        fresh = λ c later. v.fresh c (omega (arith, later, g.grown));
        agrees = λ c t there. elim (Bool-cases (ltb c s.manager.next_cell)) [
          | inl known ↦ v.agrees c t (rw⁻¹ (g.old c (ltb→lt c s.manager.next_cell known)) there)
          | inr beyond ↦ elim (g.new_ c t (ground arith) there) [
            | inr as_before ↦ v.agrees c t as_before
            | inl free ↦
                let f = v.fresh c (ground arith) in
                record {
                  taken = free.none_taken ∙ sym f.0;
                  waiting = free.none_waiting ∙ sym f.1;
                  bounded = omega (arith, free.none_taken);
                }
          ]
        ];
      }
