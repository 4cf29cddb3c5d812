-- ===== src/Prelude/Int.antt =====
-- Integers over the native numbers, and the reading of 64 bits as an int of Go.
use Prim.Native.Nat.{ℕ, suc, ◌-◌, ◌%◌, ◌^◌, ◌<◌}
use native.Mathlib.Nat.{mod-eq_of_lt}
use mathlib.Core.Path.{◌≡◌}
use native.Mathlib.Omega.{arith}
use switch.Prelude.Tests.{if◌then◌else◌, ltb}

-- `negsuc n` is -(n + 1).
pub data ℤ : Type 0 where
  pos : ℕ → ℤ
  negsuc : ℕ → ℤ

abbrev pub pos_part : ℤ → ℕ
pos_part (pos n) = n
pos_part (negsuc n) = 0

abbrev pub neg_part : ℤ → ℕ
neg_part (pos n) = 0
neg_part (negsuc n) = suc n

-- The int that a sum of numbers wraps around to.
unfoldable pub wrapped : ℕ → ℤ
wrapped n =
    let bits = n % 2 ^ 64 in if ltb bits (2 ^ 63) then pos bits else negsuc (2 ^ 64 - 1 - bits)

pub wrapped-exact : (n : ℕ) → n < 2 ^ 63 → wrapped n ≡ pos n
unfolding wrapped
wrapped-exact n h =
    let whole : n % 2 ^ 64 ≡ n = mod-eq_of_lt (omega (arith, h)) in rw whole (ground arith)
