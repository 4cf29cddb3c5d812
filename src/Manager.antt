-- ===== src/Manager.antt =====
-- provider/manager.go: the registry of providers and the guards of a call. The semaphore, limiter and
-- breaker of one registration are objects that calls under way still hold after the registration is
-- gone: they stand in a cell of a store, and the maps hold the cell's number. P is the type of a
-- provider, and a factory a function that may fail.
pub mod Registry
pub mod Guards
pub mod Listing
pub mod Calls
mod Tests
use Prim.Native.String.{len, slice}
use text.Mathlib.Text.{starts_with}
use switch.Prelude.Dict.{Dict, lookup, insert, remove, has}
use switch.Prelude.{
  ℕ, suc, ◌-◌, String, Bool, false, ◌&&◌, not, Option, none, some, List, [], ◌∷◌, str_eq, leb, ◌==◌,
  if◌then◌else◌, put,
}
use switch.Circuit
use switch.Circuit.{CircuitBreaker}
use switch.RateLimit.Provider.{ProviderRateLimiter, new_provider_rate_limiter}
use switch.RateLimit.Retry.{RetryBudget, new_retry_budget}
use switch.Concurrency.Semaphore.{Semaphore, new_semaphore}
use switch.Concurrency.Adaptive.{AdaptiveSemaphore, default_adaptive_config, new_adaptive_semaphore}
use switch.Routing.Pool.{ProviderSnapshot}

-- What the manager reads of a configuration.
pub record ProviderConfig : Type 0 where
  pub name : String
  pub kind : String
  pub api_key : String
  pub enabled : Bool
  pub priority : ℕ
  pub max_concurrency : ℕ
  pub adaptive_concurrency : Bool
  pub rate_limit_rpm : ℕ
  pub rate_limit_tpm : ℕ
  pub retry_budget : ℕ

abbrev pub ends_with : String → String → Bool
ends_with s t = leb (len t) (len s) && str_eq (slice s (len s - len t) (len s)) t

unfoldable pub is_key_configured : ProviderConfig → Bool
is_key_configured cfg =
    if str_eq cfg.api_key ""
    then false
    else not (starts_with cfg.api_key "${" && ends_with cfg.api_key "}")

-- The objects of one registration.
pub record Cell : Type 0 where
  pub semaphore : Option Semaphore
  pub adaptive : Option AdaptiveSemaphore
  pub limiter : ProviderRateLimiter
  pub breaker : CircuitBreaker
  pub budget : RetryBudget

pub record Manager (P : Type 0) : Type 0 where
  pub providers : Dict P
  pub circuits : Dict ℕ
  pub factories : Dict (ProviderConfig → Option P)
  pub semaphores : Dict ℕ
  pub adaptive_sems : Dict ℕ
  pub ratelimiters : Dict ℕ
  pub retry_budgets : Dict ℕ
  pub all_configs : Dict ProviderConfig
  pub cells : ℕ → Cell
  pub next_cell : ℕ

-- The objects that Register makes.
unfoldable pub new_cell : ℕ → ProviderConfig → Cell
new_cell now cfg = record {
  semaphore = new_semaphore cfg.max_concurrency;
  adaptive =
      if cfg.adaptive_concurrency
      then some (
          new_adaptive_semaphore (record default_adaptive_config {
            max_concurrency = if cfg.max_concurrency == 0 then 100 else cfg.max_concurrency;
          }))
      else none;
  limiter = new_provider_rate_limiter now cfg.rate_limit_rpm cfg.rate_limit_tpm;
  breaker = Circuit.new_with_config Circuit.default_config;
  budget = new_retry_budget now cfg.retry_budget;
}

pub data RegisterResult (P : Type 0) : Type 0 where
  registered reused : P → RegisterResult P
  no_factory not_constructed : RegisterResult P

abbrev pub with_breaker : CircuitBreaker → Cell → Cell
with_breaker cb c = record c { breaker = cb }

module _ {P : Type 0} where
  unfoldable pub new_manager : Cell → Manager P
  new_manager unused = record {
    providers = [];
    circuits = [];
    factories = [];
    semaphores = [];
    adaptive_sems = [];
    ratelimiters = [];
    retry_budgets = [];
    all_configs = [];
    cells = λ i. unused;
    next_cell = 0;
  }

  unfoldable pub register_factory : String → (ProviderConfig → Option P) → Manager P → Manager P
  register_factory kind f m = record m { factories = insert kind f m.factories }

  unfoldable pub set_config : ProviderConfig → Manager P → Manager P
  set_config cfg m = record m { all_configs = insert cfg.name cfg m.all_configs }

  -- The new provider and its objects.
  unfoldable pub add_provider : ℕ → ProviderConfig → P → Manager P → Manager P
  add_provider now cfg p m =
      let i = m.next_cell in
      record m {
        all_configs = insert cfg.name cfg m.all_configs;
        providers = insert cfg.name p m.providers;
        circuits = insert cfg.name i m.circuits;
        semaphores = insert cfg.name i m.semaphores;
        adaptive_sems =
            if cfg.adaptive_concurrency then insert cfg.name i m.adaptive_sems else m.adaptive_sems;
        ratelimiters = insert cfg.name i m.ratelimiters;
        retry_budgets = insert cfg.name i m.retry_budgets;
        cells = put i (new_cell now cfg) m.cells;
        next_cell = suc i;
      }

  -- The second check, under the full lock: another call may have registered the name meanwhile.
  unfoldable pub install : ℕ → ProviderConfig → P → Manager P → Manager P × RegisterResult P
  install now cfg p m = elim (lookup cfg.name m.providers) [
    | some existing ↦ (m, reused existing)
    | none ↦ (add_provider now cfg p m, registered p)
  ]

  unfoldable pub construct :
      ℕ
      → ProviderConfig
      → Option (ProviderConfig → Option P)
      → Manager P
      → Manager P × RegisterResult P
  construct now cfg none m = (m, no_factory)
  construct now cfg (some factory) m = elim (factory cfg) [
    | none ↦ (m, not_constructed)
    | some p ↦ install now cfg p m
  ]

  -- A provider that is there only gets the new configuration.
  unfoldable pub register : ℕ → ProviderConfig → Manager P → Manager P × RegisterResult P
  register now cfg m = elim (lookup cfg.name m.providers) [
    | some p ↦ (set_config cfg m, reused p)
    | none ↦ construct now cfg (lookup cfg.kind m.factories) m
  ]

  unfoldable pub bootstrap : ℕ → List ProviderConfig → Manager P → Manager P
  bootstrap now [] m = m
  bootstrap now (cfg ∷ cfgs) m =
      let m' = set_config cfg m in
      bootstrap now cfgs (if cfg.enabled then (register now cfg m').0 else m')

  unfoldable pub unregister : String → Manager P → Manager P
  unregister name m = record m {
    providers = remove name m.providers;
    circuits = remove name m.circuits;
    semaphores = remove name m.semaphores;
    ratelimiters = remove name m.ratelimiters;
    all_configs = remove name m.all_configs;
  }

  unfoldable pub get_provider : String → Manager P → Option P
  get_provider name m = lookup name m.providers

  unfoldable pub update_cell : ℕ → (Cell → Cell) → Manager P → Manager P
  update_cell i f m = record m { cells = put i (f (m.cells i)) m.cells }

  -- The state of one breaker; reading it may move it on.
  unfoldable pub circuit_state : ℕ → Option ℕ → Manager P → Manager P × Circuit.State
  circuit_state now none m = (m, Circuit.closed)
  circuit_state now (some i) m =
      let (cb, state) = Circuit.read_state now (m.cells i).breaker in
      (update_cell i (with_breaker cb) m, state)

  -- List, over the configurations that are left.
  unfoldable pub list_from : ℕ → Dict ProviderConfig → Manager P → Manager P × List ProviderSnapshot
  list_from now [] m = (m, [])
  list_from now ((name, cfg) ∷ cfgs) m =
      let key = is_key_configured cfg in
      let (m', state) = circuit_state now (lookup name m.circuits) m in
      let (m'', rest) = list_from now cfgs m' in
      (
        m'',
        record {
          name = name;
          active = has name m.providers && key;
          key_configured = key;
          circuit = state;
          priority = cfg.priority;
        }
            ∷ rest,
      )

  unfoldable pub list_providers : ℕ → Manager P → Manager P × List ProviderSnapshot
  list_providers now m = list_from now m.all_configs m
