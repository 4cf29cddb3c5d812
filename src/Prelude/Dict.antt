-- ===== src/Prelude/Dict.antt =====
-- A Go map with string keys: an association list that holds each key once. The order of the list
-- is the order of one `range` over the map, which Go leaves open: a theorem over every dictionary
-- covers every order.
use Prim.Native.Nat.{suc, ◌+◌, ◌≤◌}
use Prim.Native.String.{String}
use mathlib.Core.Path.{◌≡◌, refl}
use mathlib.Core.Logic.{◌≢◌, inl, inr}
use mathlib.Core.Bool.{Bool, true, false, ◌||◌}
use mathlib.Core.List.{List, [], ◌∷◌}
use mathlib.Core.Option.{Option, none, some}
use native.Mathlib.Omega.{arith}
use text.Mathlib.Text.{◌==◌}
use text.Mathlib.TextEquality.{eq_iff}
use switch.Prelude.Tests.{if◌then◌else◌, Bool-cases}
use switch.Prelude.Lists.{length}

abbrev pub Dict {ℓ} : Type ℓ → Type ℓ
Dict V = List (String × V)

module _ {ℓ} {V : Type ℓ} where
  -- m[key], with whether the key is there.
  unfoldable pub lookup : String → Dict V → Option V
  lookup key [] = none
  lookup key (entry ∷ rest) = if entry.0 == key then some entry.1 else lookup key rest

  -- m[key] = value, at the key's own place or at the end.
  unfoldable pub insert : String → V → Dict V → Dict V
  insert key value [] = (key, value) ∷ []
  insert key value (entry ∷ rest) =
      let later = insert key value rest in
      if entry.0 == key then (key, value) ∷ rest else entry ∷ later

  unfoldable pub remove : String → Dict V → Dict V
  remove k [] = []
  remove k ((j, w) ∷ m) = if j == k then m else (j, w) ∷ remove k m

  -- Each key stands once.
  unfoldable pub IsMap : Dict V → Type ℓ
  IsMap [] = Unit
  IsMap ((k, v) ∷ m) = (lookup k m ≡ none) × IsMap m

  pub lookup-insert :
      (key other : String) (value : V) (m : Dict V)
      → lookup other (insert key value m) ≡ (if key == other then some value else lookup other m)
  unfolding insert lookup
  lookup-insert key other value [] = refl
  lookup-insert key other value (entry ∷ rest) =
      let later = lookup-insert key other value rest in
      ground (arith, later, eq_iff entry.0 key, eq_iff entry.0 other, eq_iff key other)

  pub lookup-insert_self :
      (key : String) (value : V) (m : Dict V) → lookup key (insert key value m) ≡ some value
  lookup-insert_self key value m = ground (arith, lookup-insert key key value m, eq_iff key key)

  pub insert-IsMap : (k : String) (v : V) (m : Dict V) → IsMap m → IsMap (insert k v m)
  unfolding insert IsMap lookup
  insert-IsMap k v [] h = (refl, tt)
  insert-IsMap k v ((j, w) ∷ m) h =
      ground (arith, eq_iff j k, eq_iff k j, lookup-insert k j v m, insert-IsMap k v m h.1)

  pub lookup-remove_ne :
      (k j : String) (m : Dict V) → (k == j) ≡ false → lookup j (remove k m) ≡ lookup j m
  unfolding lookup remove
  lookup-remove_ne k j [] h = refl
  lookup-remove_ne k j ((i, w) ∷ m) h =
      ground (arith, eq_iff k j, eq_iff i k, eq_iff i j, lookup-remove_ne k j m)

  pub lookup-remove :
      (k j : String) (m : Dict V)
      → IsMap m
      → lookup j (remove k m) ≡ (if k == j then none else lookup j m)
  unfolding lookup remove IsMap
  lookup-remove k j [] h = ground arith
  lookup-remove k j ((i, w) ∷ m) h =
      ground (arith, eq_iff k j, eq_iff i k, eq_iff i j, lookup-remove k j m h.1)

  pub remove-IsMap : (k : String) (m : Dict V) → IsMap m → IsMap (remove k m)
  unfolding remove IsMap
  remove-IsMap k [] h = h
  remove-IsMap k ((j, w) ∷ m) h =
      ground (arith, eq_iff j k, eq_iff k j, lookup-remove_ne k j m, remove-IsMap k m h.1)

  pub length-remove :
      (k : String) (m : Dict V)
      → length m ≡ length (remove k m) + (elim (lookup k m) [ none ↦ 0 | some v ↦ 1 ])
  unfolding lookup remove
  length-remove k [] = refl
  length-remove k ((j, w) ∷ m) = ground (arith, length-remove k m)

  pub length-insert :
      (k : String) (v : V) (m : Dict V)
      → length (insert k v m) ≡ length m + (elim (lookup k m) [ none ↦ 1 | some v ↦ 0 ])
  unfolding lookup insert
  length-insert k v [] = refl
  length-insert k v ((j, w) ∷ m) = ground (arith, length-insert k v m)

  -- Some entry has the key.
  unfoldable pub has : String → Dict V → Bool
  has k [] = false
  has k ((j, w) ∷ m) = j == k || has k m

  pub has_of_lookup : (k : String) (m : Dict V) (v : V) → lookup k m ≡ some v → has k m ≡ true
  unfolding lookup has
  has_of_lookup k [] v h = cc
  has_of_lookup k ((j, w) ∷ m) v h = ground (arith, has_of_lookup k m v)

  pub has_of_lookup-none : (k : String) (m : Dict V) → lookup k m ≡ none → has k m ≡ false
  unfolding lookup has
  has_of_lookup-none k [] h = refl
  has_of_lookup-none k ((j, w) ∷ m) h = ground (arith, has_of_lookup-none k m)

  pub length-remove-has :
      (k : String) (m : Dict V) → has k m ≡ true → length m ≡ suc (length (remove k m))
  unfolding has remove
  length-remove-has k [] h = cc
  length-remove-has k ((j, w) ∷ m) h = ground (arith, length-remove-has k m)

  pub length-insert-le : (k : String) (v : V) (m : Dict V) → length (insert k v m) ≤ suc (length m)
  unfolding insert
  length-insert-le k v [] = omega arith
  length-insert-le k v ((j, w) ∷ m) = ground (arith, length-insert-le k v m)

  pub length-remove-le : (k : String) (m : Dict V) → length (remove k m) ≤ length m
  unfolding remove
  length-remove-le k [] = omega arith
  length-remove-le k ((j, w) ∷ m) = ground (arith, length-remove-le k m)

module _ {ℓ} {V : Type ℓ} (default : V) where
  abbrev pub or_else : Option V → V
  or_else none = default
  or_else (some v) = v

  abbrev pub lookup_or : String → Dict V → V
  lookup_or k m = or_else (lookup k m)

  -- m[key] = f(m[key]).
  unfoldable pub update : String → (V → V) → Dict V → Dict V
  update k f m = insert k (f (lookup_or k m)) m

  pub lookup_or-update :
      (k j : String) (f : V → V) (m : Dict V)
      → lookup_or j (update k f m) ≡ (if k == j then f (lookup_or j m) else lookup_or j m)
  unfolding update
  lookup_or-update k j f m = elim (Bool-cases (k == j)) [
    | inl same ↦
        let e : k ≡ j = ground (arith, same, eq_iff k j) in
        rw (e, lookup-insert_self j (f (lookup_or j m)) m) (ground (arith, eq_iff j j))
    | inr other ↦ rw (lookup-insert k j (f (lookup_or k m)) m, other) refl
  ]

pub names_differ : (k j : String) → (k == j) ≡ false → k ≢ j
names_differ k j h e = ground (arith, eq_iff k j)
