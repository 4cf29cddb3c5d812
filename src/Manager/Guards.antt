-- ===== src/Manager/Guards.antt =====
-- provider/manager.go: Generate, by the goroutines that are in it. Between two locked sections any
-- other may take the next step, and the registry may change. The call of the provider gives any
-- outcome and takes any time.
pub mod Counts
pub mod Touched
pub mod Cells
pub mod Slots
use switch.Prelude.Int.{ℤ}
use switch.Prelude.Dict.{lookup}
use switch.Prelude.{
  ℕ, ◌<◌, String, ◌≡◌, Bool, true, false, Option, none, some, List, if◌then◌else◌, length, get_or,
  set, not,
}
use switch.Circuit
use switch.RateLimit.Provider
use switch.RateLimit.Provider.{ProviderRateLimiter}
use switch.Concurrency.Semaphore.{Semaphore, start_waiting, take_slot, give_up, release_slot}
use switch.Manager.{Cell, Manager, with_breaker, get_provider, update_cell}
use switch.Manager.Calls.{Call, perform}

-- The semaphore, limiter and breaker that Generate has read from the maps, by their cells.
pub record Guards : Type 0 where
  pub sem : Option ℕ
  pub rl : Option ℕ
  pub cb : Option ℕ

pub data Outcome : Type 0 where
  unknown no_slot limited circuit_open : Outcome
  answered : Bool → Outcome

-- Where a goroutine stands in Generate. `leaving` has its outcome, and its deferred Release to do.
pub data Phase (P : Type 0) : Type 0 where
  idle : Phase P
  found : String → P → Phase P
  acquiring : P → Guards → Phase P
  guarding : P → Guards → Phase P
  calling : P → Guards → Phase P
  leaving : Guards → Outcome → Phase P
  returned : Outcome → Phase P

pub record System (P : Type 0) : Type 0 where
  pub manager : Manager P
  pub threads : List (Phase P)

abbrev pub with_semaphore : Semaphore → Cell → Cell
with_semaphore s c = record c { semaphore = some s }

abbrev pub with_limiter : ProviderRateLimiter → Cell → Cell
with_limiter rl c = record c { limiter = rl }

-- A call of the registry itself.
abbrev pub is_of_registry : {P : Type 0} → Call P → Bool
is_of_registry (Call.uses i f) = false
is_of_registry call = true

module _ {P : Type 0} where
  unfoldable pub guards_of : String → Manager P → Guards
  guards_of name m = record {
    sem = lookup name m.semaphores;
    rl = lookup name m.ratelimiters;
    cb = lookup name m.circuits;
  }

  -- An operation of the semaphore of a cell, of which there may be none. No result means that the
  -- operation blocks.
  unfoldable pub on_semaphore :
      (Semaphore → Option Semaphore) → Option ℕ → Manager P → Option (Manager P)
  on_semaphore op none m = some m
  on_semaphore op (some i) m = elim (m.cells i).semaphore [
    | none ↦ some m
    | some s ↦ elim (op s) [ none ↦ none | some s' ↦ some (update_cell i (with_semaphore s') m) ]
  ]

  unfoldable pub ask_limiter : ℕ → ℤ → Option ℕ → Manager P → Manager P × Bool
  ask_limiter now tokens none m = (m, true)
  ask_limiter now tokens (some i) m =
      let (rl, answer) = Provider.allow now tokens (m.cells i).limiter in
      (update_cell i (with_limiter rl) m, answer)

  unfoldable pub ask_breaker : ℕ → Option ℕ → Manager P → Manager P × Bool
  ask_breaker now none m = (m, true)
  ask_breaker now (some i) m =
      let (cb, answer) = Circuit.allow now (m.cells i).breaker in
      (update_cell i (with_breaker cb) m, answer)

  -- The limiter, then the breaker, which is not asked where the limiter says no.
  unfoldable pub guard_call : ℕ → ℤ → P → Guards → Manager P → Manager P × Phase P
  guard_call now tokens p g m =
      let (m', fits) = ask_limiter now tokens g.rl m in
      let (m'', passes) = ask_breaker now g.cb m' in
      if fits
      then (m'', if passes then calling p g else leaving g circuit_open)
      else (m', leaving g limited)

  unfoldable pub record_outcome : ℕ → Bool → ℕ → Option ℕ → Manager P → Manager P
  record_outcome now failed duration none m = m
  record_outcome now failed duration (some i) m =
      update_cell i (with_breaker (Circuit.record_call now failed duration (m.cells i).breaker)) m

  unfoldable pub go_to : ℕ → Phase P → Manager P → System P → System P
  go_to i phase m s = record s { manager = m; threads = set s.threads i phase }

  abbrev pub enter_guards : ℕ → ℕ → ℤ → P → Guards → System P → System P
  enter_guards i now tokens p g s =
      let (m, phase) = guard_call now tokens p g s.manager in go_to i phase m s

  -- Goroutine i stands there.
  abbrev pub At : System P → ℕ → Phase P → Type 0
  At s i phase = (i < length s.threads) × (get_or s.threads i idle ≡ phase)

  pub data Step (s : System P) : System P → Type 0 where
    misses :
        (i : ℕ) (name : String)
        → At s i idle
        → get_provider name s.manager ≡ none
        → Step s (go_to i (returned unknown) s.manager s)
    finds :
        (i : ℕ) (name : String) (p : P)
        → At s i idle
        → get_provider name s.manager ≡ some p
        → Step s (go_to i (found name p) s.manager s)
    reads :
        (i : ℕ) (name : String) (p : P) (m : Manager P)
        → At s i (found name p)
        → on_semaphore (λ t. some (start_waiting t)) (guards_of name s.manager).sem s.manager
          ≡ some m
        → Step s (go_to i (acquiring p (guards_of name s.manager)) m s)
    takes :
        (i : ℕ) (p : P) (g : Guards) (m : Manager P)
        → At s i (acquiring p g)
        → on_semaphore take_slot g.sem s.manager ≡ some m
        → Step s (go_to i (guarding p g) m s)
    gives_up :
        (i : ℕ) (p : P) (g : Guards) (m : Manager P)
        → At s i (acquiring p g)
        → on_semaphore (λ t. some (give_up t)) g.sem s.manager ≡ some m
        → Step s (go_to i (returned no_slot) m s)
    guards :
        (i now : ℕ) (tokens : ℤ) (p : P) (g : Guards)
        → At s i (guarding p g)
        → Step s (enter_guards i now tokens p g s)
    answers :
        (i now duration : ℕ) (failed : Bool) (p : P) (g : Guards)
        → At s i (calling p g)
        → Step s (
            go_to i
              (leaving g (answered (not failed)))
              (record_outcome now failed duration g.cb s.manager)
              s)
    leaves :
        (i : ℕ) (g : Guards) (outcome : Outcome) (m : Manager P)
        → At s i (leaving g outcome)
        → on_semaphore release_slot g.sem s.manager ≡ some m
        → Step s (go_to i (returned outcome) m s)
    manages :
        (call : Call P)
        → is_of_registry call ≡ true
        → Step s (record s { manager = perform call s.manager })

  pub data Reach (s : System P) : System P → Type 0 where
    here : Reach s s
    next : {t u : System P} → Reach s t → Step t u → Reach s u
