-- ===== src/Prelude/Sort.antt =====
-- Go's sort.SliceStable with a `less` function, xs an insertion sort, and a filter by a test.
use Prim.Native.Nat.{suc}
use mathlib.Core.Path.{◌≡◌, refl, sym, ap, ◌∙◌, subst}
use mathlib.Core.Logic.{inl, inr}
use mathlib.Core.Bool.{Bool, true, false}
use mathlib.Core.List.{List, [], ◌∷◌}
use mathlib.Core.List.{Memᴰ, Permᴰ}
use mathlib.Core.List.Memᴰ.{head, tail}
use mathlib.Core.List.Permᴰ
use native.Mathlib.Omega.{arith}
use switch.Prelude.Tests.{if◌then◌else◌, Bool-cases}
use switch.Prelude.Lists.{All, length}

module _ {ℓ} {A : Type ℓ} (less : A → A → Bool) where
  unfoldable pub insert_by : A → List A → List A
  insert_by a [] = a ∷ []
  insert_by a (b ∷ bs) = let rest = insert_by a bs in if less b a then b ∷ rest else a ∷ b ∷ bs

  unfoldable pub sort_by : List A → List A
  sort_by [] = []
  sort_by (a ∷ xs) = insert_by a (sort_by xs)

module _ {ℓ} {A : Type ℓ} where
  unfoldable pub keep : (A → Bool) → List A → List A
  keep test [] = []
  keep test (a ∷ xs) = let rest = keep test xs in if test a then a ∷ rest else rest

  pub keep-Memᴰ :
      (test : A → Bool) (a : A) (xs : List A) → Memᴰ a (keep test xs) → Memᴰ a xs × (test a ≡ true)
  unfolding keep
  keep-Memᴰ test a [] m = elim m [ ]
  keep-Memᴰ test a (b ∷ bs) m = elim (Bool-cases (test b)) [
    | inl passes ↦ kept passes (rw passes at m) (keep-Memᴰ test a bs)
    | inr fails ↦ let (m', t) = keep-Memᴰ test a bs (rw fails at m) in (tail m', t)
  ]
    where
      kept :
          test b ≡ true
          → Memᴰ a (b ∷ keep test bs)
          → (Memᴰ a (keep test bs) → Memᴰ a bs × (test a ≡ true))
          → Memᴰ a (b ∷ bs) × (test a ≡ true)
      kept passes (head e) later = (head e, rw e passes)
      kept passes (tail m') later = let (m'', t) = later m' in (tail m'', t)

  pub Memᴰ-keep :
      (test : A → Bool) (a : A) (xs : List A) → Memᴰ a xs → test a ≡ true → Memᴰ a (keep test xs)
  unfolding keep
  Memᴰ-keep test a [] m t = elim m [ ]
  Memᴰ-keep test a (b ∷ bs) (head e) t = rw (sym e, t) (head refl)
  Memᴰ-keep test a (b ∷ bs) (tail m) t = elim (Bool-cases (test b)) [
    | inl passes ↦ rw passes (tail (Memᴰ-keep test a bs m t))
    | inr fails ↦ rw fails (Memᴰ-keep test a bs m t)
  ]

  pub All-Memᴰ {κ} : (P : A → Type κ) (a : A) (xs : List A) → All P xs → Memᴰ a xs → P a
  All-Memᴰ P a [] h m = elim m [ ]
  All-Memᴰ P a (b ∷ bs) (p, ps) (head e) = subst P (sym e) p
  All-Memᴰ P a (b ∷ bs) (p, ps) (tail m) = All-Memᴰ P a bs ps m

-- A list in the order of a relation: each entry stands in it to all later ones.
abbrev pub IsOrdered {ℓ κ} : {A : Type ℓ} → (A → A → Type κ) → List A → Type (ℓ ⊔ κ)
IsOrdered R [] = Unit
IsOrdered R (a ∷ xs) = All (R a) xs × IsOrdered R xs

module _ {ℓ} {A : Type ℓ} (less : A → A → Bool) where
  insert_by-Permᴰ : (a : A) (xs : List A) → Permᴰ (insert_by less a xs) (a ∷ xs)
  unfolding insert_by
  insert_by-Permᴰ a [] = Permᴰ.refl (a ∷ [])
  insert_by-Permᴰ a (x ∷ xs) = elim (Bool-cases (less x a)) [
    | inl before ↦
        rw before (Permᴰ.trans (Permᴰ.cons refl (insert_by-Permᴰ a xs)) (Permᴰ.swap refl refl))
    | inr after ↦ rw after (Permᴰ.refl (a ∷ x ∷ xs))
  ]

  pub sort_by-Permᴰ : (xs : List A) → Permᴰ (sort_by less xs) xs
  unfolding sort_by
  sort_by-Permᴰ [] = Permᴰ.nil
  sort_by-Permᴰ (x ∷ xs) =
      Permᴰ.trans (insert_by-Permᴰ x (sort_by less xs)) (Permᴰ.cons refl (sort_by-Permᴰ xs))

Permᴰ-Memᴰ {ℓ} : {A : Type ℓ} {b : A} {xs ys : List A} → Permᴰ xs ys → Memᴰ b xs → Memᴰ b ys
Permᴰ-Memᴰ Permᴰ.nil m = m
Permᴰ-Memᴰ (Permᴰ.cons e p) (head f) = head (f ∙ e)
Permᴰ-Memᴰ (Permᴰ.cons e p) (tail m) = tail (Permᴰ-Memᴰ p m)
Permᴰ-Memᴰ (Permᴰ.swap e f) (head g) = tail (head (g ∙ e))
Permᴰ-Memᴰ (Permᴰ.swap e f) (tail (head g)) = head (g ∙ f)
Permᴰ-Memᴰ (Permᴰ.swap e f) (tail (tail m)) = tail (tail m)
Permᴰ-Memᴰ (Permᴰ.trans p q) m = Permᴰ-Memᴰ q (Permᴰ-Memᴰ p m)

pub sort_by-Memᴰ {ℓ} :
    {A : Type ℓ} (less : A → A → Bool) (b : A) (xs : List A) → Memᴰ b (sort_by less xs) → Memᴰ b xs
sort_by-Memᴰ less b xs m = Permᴰ-Memᴰ (sort_by-Permᴰ less xs) m

-- A relation that the `less` function decides up to ties.
module _ {ℓ κ} {A : Type ℓ} (less : A → A → Bool) (R : A → A → Type κ)
    (less_true : (a b : A) → less a b ≡ true → R a b)
    (less_false : (a b : A) → less a b ≡ false → R b a)
    (trans : (a b c : A) → R a b → R b c → R a c) where
  All-before : (a b : A) (xs : List A) → R a b → All (R b) xs → All (R a) xs
  All-before a b [] r h = tt
  All-before a b (x ∷ xs) r h = (trans a b x r h.0, All-before a b xs r h.1)

  insert_by-All : (a b : A) (xs : List A) → R a b → All (R a) xs → All (R a) (insert_by less b xs)
  unfolding insert_by
  insert_by-All a b [] r h = (r, tt)
  insert_by-All a b (x ∷ xs) r h = elim (Bool-cases (less x b)) [
    | inl before ↦ rw before (h.0, insert_by-All a b xs r h.1)
    | inr after ↦ rw after (r, h)
  ]

  insert_by-IsOrdered : (a : A) (xs : List A) → IsOrdered R xs → IsOrdered R (insert_by less a xs)
  unfolding insert_by
  insert_by-IsOrdered a [] h = (tt, tt)
  insert_by-IsOrdered a (x ∷ xs) h = elim (Bool-cases (less x a)) [
    | inl before ↦
        rw before (insert_by-All x a xs (less_true x a before) h.0, insert_by-IsOrdered a xs h.1)
    | inr after ↦ let r = less_false x a after in rw after ((r, All-before a x xs r h.0), h)
  ]

  pub sort_by-IsOrdered : (xs : List A) → IsOrdered R (sort_by less xs)
  unfolding sort_by
  sort_by-IsOrdered [] = tt
  sort_by-IsOrdered (x ∷ xs) = insert_by-IsOrdered x (sort_by less xs) (sort_by-IsOrdered xs)

module _ {ℓ} {A : Type ℓ} (less : A → A → Bool) where
  length-insert_by : (a : A) (xs : List A) → length (insert_by less a xs) ≡ suc (length xs)
  unfolding insert_by
  length-insert_by a [] = refl
  length-insert_by a (x ∷ xs) = ground (arith, length-insert_by a xs)

  pub length-sort_by : (xs : List A) → length (sort_by less xs) ≡ length xs
  unfolding sort_by
  length-sort_by [] = refl
  length-sort_by (x ∷ xs) = length-insert_by x (sort_by less xs) ∙ ap suc (length-sort_by xs)

pub Memᴰ-sort_by {ℓ} :
    {A : Type ℓ} (less : A → A → Bool) (b : A) (xs : List A) → Memᴰ b xs → Memᴰ b (sort_by less xs)
Memᴰ-sort_by less b xs m = Permᴰ-Memᴰ (Permᴰ.symm (sort_by-Permᴰ less xs)) m
