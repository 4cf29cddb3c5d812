-- ===== src/Prefix/Profiler/Removed.antt =====
-- prefix/profiler.go: removing the first entries of a sorted list from the records.
use mathlib.Core.List.{Memᴰ}
use mathlib.Core.List.Memᴰ.{head, tail}
use switch.Prelude.Dict.{
  Dict, lookup, remove, IsMap, lookup-remove_ne, lookup-remove, remove-IsMap, length-remove,
}
use switch.Prelude.Sort.{IsOrdered, All-Memᴰ}
use switch.Prelude.{
  ℕ, zero, suc, ◌+◌, String, ◌≡◌, refl, ◌∙◌, Bool, false, ◌||◌, none, some, List, [], ◌∷◌, arith,
  str_eq, if◌then◌else◌, length, take, All, sym, ap, subst, ◌⊎◌, inl, inr, true, eq_iff, Bool-cases,
}
use switch.Prefix.{PrefixRecord}
use switch.Prefix.Profiler.{remove_each}
use switch.Prefix.Profiler.Bounds.{IsApart}

module _ (R : String × PrefixRecord → String × PrefixRecord → Type 0) where
  pub All-take :
      (n : ℕ) (a : String × PrefixRecord) (es : List (String × PrefixRecord))
      → All (R a) es
      → All (R a) (take n es)
  All-take zero a es h = tt
  All-take (suc n) a [] h = tt
  All-take (suc n) a (e ∷ es) h = (h.0, All-take n a es h.1)

  pub take-IsOrdered :
      (n : ℕ) (es : List (String × PrefixRecord)) → IsOrdered R es → IsOrdered R (take n es)
  take-IsOrdered zero es h = tt
  take-IsOrdered (suc n) [] h = tt
  take-IsOrdered (suc n) (e ∷ es) h = (All-take n e es h.0, take-IsOrdered n es h.1)

  -- One of the first n stands before any entry that is not one of them.
  pub before_rest :
      (n : ℕ) (es : List (String × PrefixRecord)) (x y : String × PrefixRecord)
      → IsOrdered R es
      → Memᴰ x (take n es)
      → Memᴰ y es
      → Memᴰ y (take n es) ⊎ R x y
  before_rest zero es x y h m k = elim m [ ]
  before_rest (suc n) [] x y h m k = elim k [ ]
  before_rest (suc n) (e ∷ es) x y h (head q) (head r) = inl (head r)
  before_rest (suc n) (e ∷ es) x y h (head q) (tail k) =
      inr (subst (λ z. R z y) (sym q) (All-Memᴰ (R e) y es h.0 k))
  before_rest (suc n) (e ∷ es) x y h (tail m) (head r) = inl (head r)
  before_rest (suc n) (e ∷ es) x y h (tail m) (tail k) = elim (before_rest n es x y h.1 m k) [
    | inl among ↦ inl (tail among)
    | inr first ↦ inr first
  ]

-- The name of an entry.
unfoldable pub names : List (String × PrefixRecord) → String → Bool
names [] k = false
names (e ∷ es) k = let later = names es k in str_eq e.0 k || later

pub lookup-remove_each :
    (k : String) (es : List (String × PrefixRecord)) (d : Dict PrefixRecord)
    → IsMap d
    → lookup k (remove_each es d) ≡ (if names es k then none else lookup k d)
unfolding remove_each names
lookup-remove_each k [] d v = refl
lookup-remove_each k (e ∷ es) d v =
    lookup-remove_each k es (remove e.0 d) (remove-IsMap e.0 d v)
    ∙ ground (arith, lookup-remove e.0 k d v)

pub remove_each-IsMap :
    (es : List (String × PrefixRecord)) (d : Dict PrefixRecord) → IsMap d → IsMap (remove_each es d)
unfolding remove_each
remove_each-IsMap [] d v = v
remove_each-IsMap (e ∷ es) d v = remove_each-IsMap es (remove e.0 d) (remove-IsMap e.0 d v)

-- Entries with names of their own that are all there: as many go.
abbrev pub AreThere : List (String × PrefixRecord) → Dict PrefixRecord → Type 0
AreThere es d = All (λ e. (r : PrefixRecord) × (lookup e.0 d ≡ some r)) es

pub there-remove :
    (a : String × PrefixRecord) (es : List (String × PrefixRecord)) (d : Dict PrefixRecord)
    → All (IsApart a) es
    → AreThere es d
    → AreThere es (remove a.0 d)
there-remove a [] d h t = tt
there-remove a (e ∷ es) d h t =
    ((t.0.0, lookup-remove_ne a.0 e.0 d h.0 ∙ t.0.1), there-remove a es d h.1 t.1)

pub length-remove_each :
    (es : List (String × PrefixRecord)) (d : Dict PrefixRecord)
    → IsOrdered IsApart es
    → AreThere es d
    → length d ≡ length (remove_each es d) + length es
unfolding remove_each
length-remove_each [] d h t = omega arith
length-remove_each (e ∷ es) d h t =
    let one = length-remove e.0 d in
    let rest = length-remove_each es (remove e.0 d) h.1 (there-remove e es d h.0 t.1) in
    let present = t.0.1 in ground (arith, one, rest, present)

pub names-Memᴰ :
    (es : List (String × PrefixRecord)) (k : String)
    → names es k ≡ true
    → (e : String × PrefixRecord) × Memᴰ e es × (e.0 ≡ k)
unfolding names
names-Memᴰ [] k h = absurd cc
names-Memᴰ (e ∷ es) k h = elim (Bool-cases (str_eq e.0 k)) [
  | inl this ↦ (e, head refl, ground (arith, this, eq_iff e.0 k))
  | inr later ↦ let (f, m, named) = names-Memᴰ es k (ground (arith, later, h)) in (f, tail m, named)
]

pub Memᴰ-names :
    (es : List (String × PrefixRecord)) (e : String × PrefixRecord)
    → Memᴰ e es
    → names es e.0 ≡ true
unfolding names
Memᴰ-names [] e m = elim m [ ]
Memᴰ-names (f ∷ es) e (head q) =
    let named = ap (λ z. z.0) q in ground (arith, named, eq_iff f.0 e.0)
Memᴰ-names (f ∷ es) e (tail m) = ground (arith, Memᴰ-names es e m)

pub Memᴰ-lookup :
    (d : Dict PrefixRecord) (e : String × PrefixRecord)
    → IsMap d
    → Memᴰ e d
    → lookup e.0 d ≡ some e.1
unfolding lookup IsMap
Memᴰ-lookup [] e v m = elim m [ ]
Memᴰ-lookup ((k, r) ∷ d) e v (head q) =
    let named = ap (λ z. z.0) q in
    let same = ap (λ z. z.1) q in ground (arith, named, same, eq_iff k e.0)
Memᴰ-lookup ((k, r) ∷ d) e v (tail m) =
    let found = Memᴰ-lookup d e v.1 m in ground (arith, found, v.0, eq_iff k e.0)

pub remove-Memᴰ :
    (k : String) (d : Dict PrefixRecord) (e : String × PrefixRecord)
    → Memᴰ e (remove k d)
    → Memᴰ e d
unfolding remove
remove-Memᴰ k [] e m = m
remove-Memᴰ k ((j, r) ∷ d) e m = elim (Bool-cases (str_eq j k)) [
  | inl gone ↦ tail (rw gone at m)
  | inr stays ↦ kept (remove-Memᴰ k d e) (rw stays at m)
]
  where
    kept : (Memᴰ e (remove k d) → Memᴰ e d) → Memᴰ e ((j, r) ∷ remove k d) → Memᴰ e ((j, r) ∷ d)
    kept later (head q) = head q
    kept later (tail n) = tail (later n)

pub remove_each-Memᴰ :
    (es : List (String × PrefixRecord)) (d : Dict PrefixRecord) (e : String × PrefixRecord)
    → Memᴰ e (remove_each es d)
    → Memᴰ e d
unfolding remove_each
remove_each-Memᴰ [] d e m = m
remove_each-Memᴰ (f ∷ es) d e m = remove-Memᴰ f.0 d e (remove_each-Memᴰ es (remove f.0 d) e m)

pub take-Memᴰ :
    (n : ℕ) (es : List (String × PrefixRecord)) (e : String × PrefixRecord)
    → Memᴰ e (take n es)
    → Memᴰ e es
take-Memᴰ zero es e m = elim m [ ]
take-Memᴰ (suc n) [] e m = m
take-Memᴰ (suc n) (f ∷ es) e (head q) = head q
take-Memᴰ (suc n) (f ∷ es) e (tail m) = tail (take-Memᴰ n es e m)

pub all-there :
    (es : List (String × PrefixRecord)) (d : Dict PrefixRecord)
    → IsMap d
    → ((e : String × PrefixRecord) → Memᴰ e es → Memᴰ e d)
    → AreThere es d
all-there [] d v h = tt
all-there (e ∷ es) d v h =
    ((e.1, Memᴰ-lookup d e v (h e (head refl))), all-there es d v (λ f m. h f (tail m)))
