-- ===== src/Concurrency/Semaphore.antt =====
-- provider/concurrency.go: Semaphore, by the number of slots in its channel. A call that blocks has
-- no result. A nil semaphore, of a maximum that is not positive, is no semaphore.
use switch.Prelude.{ℕ, suc, ◌-◌, max, Option, none, some, ltb, ◌==◌, if◌then◌else◌}

pub record Semaphore : Type 0 where
  pub capacity : ℕ
  pub taken : ℕ
  pub waiting : ℕ

unfoldable pub new_semaphore : ℕ → Option Semaphore
new_semaphore max =
    if max == 0 then none else some (record { capacity = max; taken = 0; waiting = 0 })

-- Acquire, up to the select.
unfoldable pub start_waiting : Semaphore → Semaphore
start_waiting s = record s { waiting = suc s.waiting }

-- The select sends to the channel.
unfoldable pub take_slot : Semaphore → Option Semaphore
take_slot s =
    if ltb s.taken s.capacity
    then some (record s { taken = suc s.taken; waiting = s.waiting - 1 })
    else none

-- The context is done first.
unfoldable pub give_up : Semaphore → Semaphore
give_up s = record s { waiting = s.waiting - 1 }

unfoldable pub release_slot : Semaphore → Option Semaphore
release_slot s = if ltb 0 s.taken then some (record s { taken = s.taken - 1 }) else none
