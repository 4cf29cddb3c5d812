-- ===== src/Cache/Tests.antt =====
-- cache/cache.go: runs of the cache, and the theorems about it at concrete inputs.
use switch.Prelude.Dict.{IsMap, lookup, insert, remove}
use switch.Prelude.{ℕ, ◌≤◌, ◌≡◌, refl, none, List, [], ◌∷◌, arith}
use switch.Cache.{
  Cache, new, get, oldest_from, oldest, make_room, set_with_ttl, drop_expired, evict_expired, size,
}
use switch.Cache.Size.{Op, new-Inv, step, run, run-Inv, size-le, Inv, sets, evicts}

-- A cache for two values, with a time to live of ten, after three writes and a clean-up: the write
-- of "c" evicts "a", which expires first.
abbrev writes : List (ℕ × Op ℕ)
writes = (1, sets "a" 5 10) ∷ (2, sets "b" 6 10) ∷ (3, sets "c" 7 10) ∷ (12, evicts) ∷ []

three_writes : get 12 "a" (run (new 2 10) writes) ≡ none
unfolding run step new get set_with_ttl evict_expired make_room oldest oldest_from lookup insert
    remove drop_expired
three_writes = refl

size-le_example : let c = run (new {A = ℕ} 2 10) writes in (size c ≤ 2) × IsMap c.entries
size-le_example = size-le 2 10 writes (omega arith)

abbrev two_values : Cache ℕ
two_values = run (new 2 10) ((1, sets "a" 5 10) ∷ (2, sets "b" 6 10) ∷ [])

two_values-Inv : Inv two_values
two_values-Inv = run-Inv (new 2 10) _ (new-Inv 2 10)
