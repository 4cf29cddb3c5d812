-- ===== src/Cache/Coalescer/Exclusion.antt =====
-- cache/coalescer.go: one execution for each key, and one result for each call.
use switch.Prelude.{ℕ, String, ◌≡◌, arith}
use switch.Cache.Coalescer.{System, new_coalescer, Reach, executing, returned}
use switch.Cache.Coalescer.Invariant.{new-Inv, Leads-executing}
use switch.Cache.Coalescer.Steps.{Reach-Inv}

module _ {R : Type 0} where
  -- Under every interleaving no two goroutines execute fn for one key at once.
  pub one_execution :
      {s : System R} (i j : ℕ) (key : String) (c d : ℕ)
      → Reach new_coalescer s
      → s.threads i ≡ executing key c
      → s.threads j ≡ executing key d
      → i ≡ j
  one_execution {s} i j key c d r h h' =
      let v = Reach-Inv r new-Inv in
      let lead = Leads-executing s i key c h in
      let lead' = Leads-executing s j key d h' in
      let one : d ≡ c = ground (arith, v.led i key c lead, v.led j key d lead') in
      v.single i j key key c lead (rw one at lead')

  -- Under every interleaving all goroutines that return from one call, its first caller and those
  -- that waited for it, return the same result.
  pub one_result :
      {s : System R} (i j call : ℕ) (a b : R)
      → Reach new_coalescer s
      → s.threads i ≡ returned call a
      → s.threads j ≡ returned call b
      → a ≡ b
  one_result {s} i j call a b r h h' =
      let v = Reach-Inv r new-Inv in ground (arith, v.shared i call a h, v.shared j call b h')
