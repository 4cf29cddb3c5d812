-- ===== src/Slo/Marks.antt =====
-- observability/slo.go: calls marked with their buckets, and sums over them.
use switch.Prelude.{
  ℕ, zero, suc, ◌+◌, ◌<◌, ◌≡◌, refl, Bool, false, List, [], ◌∷◌, arith, ◌==◌, if◌then◌else◌, All,
}

pub record Mark : Type 0 where
  pub tick : ℕ
  pub success : Bool

abbrev pub ok : Mark → ℕ
ok m = if m.success then 1 else 0

abbrev pub failed : Mark → ℕ
failed m = if m.success then 0 else 1

unfoldable pub count : (Mark → ℕ) → (Mark → Bool) → List Mark → ℕ
count w test [] = 0
count w test (m ∷ ms) = let rest = count w test ms in if test m then w m + rest else rest

pub count-none :
    (w : Mark → ℕ) (test : Mark → Bool) (ms : List Mark)
    → All (λ m. test m ≡ false) ms
    → count w test ms ≡ 0
unfolding count
count-none w test [] h = refl
count-none w test (m ∷ ms) h = rw h.0 (count-none w test ms h.1)

pub count-cong :
    (w : Mark → ℕ) (test test' : Mark → Bool) (ms : List Mark)
    → All (λ m. test m ≡ test' m) ms
    → count w test ms ≡ count w test' ms
unfolding count
count-cong w test test' [] h = refl
count-cong w test test' (m ∷ ms) h = rw (h.0, count-cong w test test' ms h.1) refl

-- The sum of f 0, ..., f (k - 1).
unfoldable pub sum : ℕ → (ℕ → ℕ) → ℕ
sum zero f = 0
sum (suc k) f = f 0 + sum k (λ j. f (suc j))

pub sum-cong : (k : ℕ) (f g : ℕ → ℕ) → ((j : ℕ) → j < k → f j ≡ g j) → sum k f ≡ sum k g
unfolding sum
sum-cong zero f g h = refl
sum-cong (suc k) f g h =
    let rest = sum-cong k (λ j. f (suc j)) (λ j. g (suc j)) (λ j l. h (suc j) (omega arith)) in
    omega (arith, rest, h 0 (omega arith))

pub sum-zero : (k : ℕ) → sum k (λ j. 0) ≡ 0
unfolding sum
sum-zero zero = refl
sum-zero (suc k) = omega (arith, sum-zero k)

pub sum-add : (k : ℕ) (f g : ℕ → ℕ) → sum k (λ j. f j + g j) ≡ sum k f + sum k g
unfolding sum
sum-add zero f g = refl
sum-add (suc k) f g = omega (arith, sum-add k (λ j. f (suc j)) (λ j. g (suc j)))

pub sum-one : (k t x : ℕ) → t < k → sum k (λ j. if t == j then x else 0) ≡ x
unfolding sum
sum-one zero t x h = absurd (omega (arith, h))
sum-one (suc k) zero x h =
    let rest = sum-cong k (λ j. if 0 == suc j then x else 0) (λ j. 0) (λ j l. ground arith) in
    omega (arith, rest, sum-zero k)
sum-one (suc k) (suc t) x h =
    let rest =
      sum-cong k (λ j. if suc t == suc j then x else 0) (λ j. if t == j then x else 0)
        (λ j l. ground arith) in
    let first : (if suc t == 0 then x else 0) ≡ 0 = ground arith in
    omega (arith, first, rest, sum-one k t x (omega arith))

pub All-map :
    {P Q : Mark → Type 0} (ms : List Mark) → ((m : Mark) → P m → Q m) → All P ms → All Q ms
All-map [] f h = tt
All-map (m ∷ ms) f h = (f m h.0, All-map ms f h.1)
