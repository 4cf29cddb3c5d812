-- ===== src/Manager/Tests.antt =====
-- provider/manager.go: registrations and calls at concrete values.
use switch.Prelude.Int.{pos}
use switch.Prelude.Dict.{lookup, insert, remove}
use switch.Prelude.{
  ℕ, ◌≡◌, refl, true, false, Option, none, some, List, [], ◌∷◌, str_eq, if◌then◌else◌, ◌<◌, arith,
}
use switch.Circuit
use switch.RateLimit.Provider
use switch.RateLimit.Level.{refill_level}
use switch.RateLimit.Provider.{new_provider_rate_limiter}
use switch.Concurrency.Semaphore.{new_semaphore, start_waiting, take_slot}
use switch.Manager.{
  Cell, ProviderConfig, is_key_configured, Manager, new_cell, new_manager, register_factory,
  set_config, add_provider, install, construct, register, bootstrap, unregister, get_provider,
  update_cell,
}
use switch.Manager.Registry
use switch.Manager.Calls.{
  Call, perform, perform_all, registry-Inv, factory, registers, installs, boots, unregisters,
}
use switch.Manager.Guards.{
  System, Guards, with_semaphore, go_to, found, acquiring, guarding, guards_of, on_semaphore, Reach,
  finds, reads, takes, manages, here, next, ask_limiter, ask_breaker, guard_call, record_outcome,
  enter_guards, answered, leaving, guards, answers,
}
use switch.Manager.Guards.Counts.{Agrees, holds, waits, count}
use switch.Manager.Guards.Slots.{start_of, slots-counted}
use switch.Routing.Request.{RoutingState}

abbrev openai : ProviderConfig
openai = record {
  name = "openai";
  kind = "openai";
  api_key = "sk-1";
  enabled = true;
  priority = 1;
  max_concurrency = 2;
  adaptive_concurrency = false;
  rate_limit_rpm = 10;
  rate_limit_tpm = 0;
  retry_budget = 5;
}

abbrev spare_cell : Cell
spare_cell = new_cell 0 (record openai { max_concurrency = 0 })

abbrev make : ProviderConfig → Option ℕ
make cfg = if str_eq cfg.api_key "" then none else some 7

abbrev calls : List (Call ℕ)
calls =
    factory "openai" make
    ∷ registers 5 openai
    ∷ installs 6 openai 8
    ∷ boots 7 (record openai { name = "spare"; enabled = false } ∷ [])
    ∷ unregisters "openai"
    ∷ registers 8 openai
    ∷ []

abbrev managed : Manager ℕ
managed = perform_all calls (new_manager spare_cell)

key_is_configured : is_key_configured openai ≡ true
unfolding is_key_configured
key_is_configured = refl

placeholder_is_no_key : is_key_configured (record openai { api_key = "${OPENAI_KEY}" }) ≡ false
unfolding is_key_configured
placeholder_is_no_key = refl

registry-Inv_example : Registry.Inv managed
registry-Inv_example = registry-Inv spare_cell calls

managed_provider : get_provider "openai" managed ≡ some 7
unfolding get_provider perform_all perform register_factory register construct install add_provider
    bootstrap unregister set_config new_manager lookup insert remove
managed_provider = refl

managed_factory : lookup "openai" managed.factories ≡ some make
unfolding perform_all perform register_factory register construct install add_provider bootstrap
    unregister set_config new_manager lookup insert remove
managed_factory = refl

-- Goroutine 0 is past the semaphore of the registered provider, which goes while it calls.
abbrev started : System ℕ
started = start_of spare_cell 2

abbrev with_provider : System ℕ
with_provider = record started { manager = managed }

abbrev held : Guards
held = record { sem = some 1; rl = some 1; cb = some 1 }

abbrev waiting_manager : Manager ℕ
waiting_manager =
    update_cell 1 (with_semaphore (record { capacity = 2; taken = 0; waiting = 1 })) managed

abbrev taken_manager : Manager ℕ
taken_manager =
    update_cell 1 (with_semaphore (record { capacity = 2; taken = 1; waiting = 0 })) waiting_manager

abbrev guarded : System ℕ
guarded =
    go_to 0 (guarding 7 held) taken_manager (
      go_to 0 (acquiring 7 held) waiting_manager (go_to 0 (found "openai" 7) managed with_provider))

abbrev after_removal : System ℕ
after_removal = record guarded { manager = perform (unregisters "openai") taken_manager }

abbrev runs : List (Call ℕ) → System ℕ → System ℕ
runs cs s = record s { manager = perform_all cs s.manager }

Reach-with_provider : Reach started with_provider
unfolding new_manager perform_all perform register_factory register construct install add_provider
    bootstrap unregister set_config get_provider lookup insert remove new_cell new_semaphore
Reach-with_provider =
    next
      (next
        (next
          (next
            (next (next here (manages (factory "openai" make) refl))
              (manages (registers 5 openai) refl))
            (manages (installs 6 openai 8) refl))
          (manages (boots 7 (record openai { name = "spare"; enabled = false } ∷ [])) refl))
        (manages (unregisters "openai") refl))
      (manages (registers 8 openai) refl)

first_thread : 0 < 2
first_thread = omega arith

Reach-after_removal : Reach started after_removal
unfolding new_manager perform_all perform register_factory register construct install add_provider
    bootstrap unregister set_config get_provider lookup insert remove new_cell new_semaphore go_to
    guards_of on_semaphore update_cell start_waiting take_slot
Reach-after_removal =
    next
      (next
        (next (next Reach-with_provider (finds 0 "openai" 7 (first_thread, refl) refl))
          (reads 0 "openai" 7 waiting_manager (first_thread, refl) refl))
        (takes 0 7 held taken_manager (first_thread, refl) refl))
      (manages (unregisters "openai") refl)

slots-counted_example : Agrees (record { capacity = 2; taken = 1; waiting = 0 }) 1 0
unfolding new_manager perform_all perform register_factory register construct install add_provider
    bootstrap unregister set_config get_provider lookup insert remove new_cell new_semaphore go_to
    update_cell holds waits count
slots-counted_example =
    slots-counted spare_cell 2 after_removal 1 (record { capacity = 2; taken = 1; waiting = 0 })
      refl Reach-after_removal refl

abbrev called : System ℕ
called = enter_guards 0 9 (pos 100) 7 held after_removal

abbrev answered_system : System ℕ
answered_system =
    go_to 0 (leaving held (answered true)) (record_outcome 10 false 1 (some 1) called.manager)
      called

Reach-answered : Reach started answered_system
unfolding new_manager perform_all perform register_factory register construct install add_provider
    bootstrap unregister set_config get_provider lookup insert remove new_cell new_semaphore go_to
    guards_of on_semaphore update_cell start_waiting take_slot guard_call ask_limiter ask_breaker
    Provider.allow Provider.refill Provider.deduct Circuit.allow Circuit.evaluate
    Circuit.should_open Circuit.new_with_config new_provider_rate_limiter refill_level Circuit.trips
    Circuit.sum_total Circuit.sensitivity Circuit.recent_total
Reach-answered =
    next (next Reach-after_removal (guards 0 9 (pos 100) 7 held (first_thread, refl)))
      (answers 0 10 1 false 7 held (first_thread, refl))

abbrev unrouted : RoutingState ℕ
unrouted = record { rules = []; pool = []; affinity = none; affinity_sig = [] }
