-- ===== src/Prelude/Search.antt =====
-- Go's sort.Search: binary search for the first index that passes a test.
use Prim.Native.Nat.{ℕ, zero, suc, ◌+◌, ◌/◌, ◌≤◌, ◌<◌}
use mathlib.Core.Path.{◌≡◌}
use mathlib.Core.Logic.{inl, inr}
use mathlib.Core.Bool.{Bool, true, false}
use native.Mathlib.Omega.{arith}
use switch.Prelude.Tests.{ltb, if◌then◌else◌, Bool-cases}

-- The loop, with the number of rounds that are left.
unfoldable pub search_loop : ℕ → (ℕ → Bool) → ℕ → ℕ → ℕ
search_loop zero f i j = i
search_loop (suc fuel) f i j =
    let h = (i + j) / 2 in
    let right = search_loop fuel f (suc h) j in
    let left = search_loop fuel f i h in if ltb i j then (if f h then left else right) else i

-- j - i halves in each round, so that n rounds are enough.
unfoldable pub sort_search : ℕ → (ℕ → Bool) → ℕ
sort_search n f = search_loop n f 0 n

-- Once passed, the test is passed by all later indices.
abbrev pub IsUpward : ℕ → (ℕ → Bool) → Type 0
IsUpward n f = (k l : ℕ) → k ≤ l → l < n → f k ≡ true → f l ≡ true

-- The index found: nothing before it passes the test, and it does unless it is n.
pub record IsFirst (n : ℕ) (f : ℕ → Bool) (i : ℕ) : Type 0 where
  pub bound : i ≤ n
  pub before : (k : ℕ) → k < i → f k ≡ false
  pub at : i < n → f i ≡ true

module _ (n : ℕ) (f : ℕ → Bool) (up : IsUpward n f) where
  search_loop-IsFirst :
      (fuel i j : ℕ)
      → j ≤ fuel + i
      → i ≤ j
      → j ≤ n
      → ((k : ℕ) → k < i → f k ≡ false)
      → (j < n → f j ≡ true)
      → IsFirst n f (search_loop fuel f i j)
  unfolding search_loop
  search_loop-IsFirst zero i j enough le bound below above = record {
    bound = omega arith;
    before = below;
    at = λ h. ground arith;
  }
  search_loop-IsFirst (suc fuel) i j enough le bound below above = elim (Bool-cases (ltb i j)) [
    | inr stop ↦ rw stop (record { bound = omega arith; before = below; at = λ h. ground arith })
    | inl go ↦ elim (Bool-cases (f ((i + j) / 2))) [
      | inl pass ↦
          rw (go, pass)
            (search_loop-IsFirst fuel i ((i + j) / 2) (ground arith) (ground arith) (ground arith)
              below (λ h. pass))
      | inr fail ↦
          rw (go, fail)
            (search_loop-IsFirst fuel (suc ((i + j) / 2)) j (ground arith) (ground arith) bound
              (λ k h.
                ground (arith, Bool-cases (f k), up k ((i + j) / 2) (omega arith) (ground arith)))
              above)
    ]
  ]

  pub sort_search-IsFirst : IsFirst n f (sort_search n f)
  unfolding sort_search
  sort_search-IsFirst =
      search_loop-IsFirst n 0 n (omega arith) (omega arith) (omega arith)
        (λ k h. absurd (omega arith)) (λ h. absurd (omega arith))
