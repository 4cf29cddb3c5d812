-- ===== src/Prefix/Fingerprint/Order.antt =====
-- prefix/fingerprint.go: the order in which a request lists its tools.
use mathlib.Core.List.{Permᴰ}
use switch.Prelude.{
  ℕ, true, false, List, ◌∷◌, ◌≡◌, ◌⊎◌, ◌<◌, refl, sym, ◌∙◌, [], arith, String, ap, inl, inr,
  if◌then◌else◌, Bool-cases,
}
use switch.Prefix.{Message}
use switch.Prefix.Fingerprint.{bytes_lt, sink, sort_from, sort_strings, fingerprint_request}

lt_head :
    (x y : ℕ) (xs ys : List ℕ)
    → bytes_lt (x ∷ xs) (y ∷ ys) ≡ true
    → (x < y) ⊎ ((x ≡ y) × (bytes_lt xs ys ≡ true))
unfolding bytes_lt
lt_head x y xs ys h = ground arith

ge_head :
    (x y : ℕ) (xs ys : List ℕ)
    → bytes_lt (x ∷ xs) (y ∷ ys) ≡ false
    → (y < x) ⊎ ((x ≡ y) × (bytes_lt xs ys ≡ false))
unfolding bytes_lt
ge_head x y xs ys h = ground arith

head_lt : (x y : ℕ) (xs ys : List ℕ) → x < y → bytes_lt (x ∷ xs) (y ∷ ys) ≡ true
unfolding bytes_lt
head_lt x y xs ys h = ground arith

head_eq : (x y : ℕ) (xs ys : List ℕ) → x ≡ y → bytes_lt (x ∷ xs) (y ∷ ys) ≡ bytes_lt xs ys
unfolding bytes_lt
head_eq x y xs ys h = ground arith

-- A string below one that another is not below, is below that other one.
lt_of_lt-ge : (a b c : List ℕ) → bytes_lt a c ≡ true → bytes_lt b c ≡ false → bytes_lt a b ≡ true
unfolding bytes_lt
lt_of_lt-ge a b [] h k = ground arith
lt_of_lt-ge a [] (z ∷ c) h k = ground arith
lt_of_lt-ge [] (y ∷ b) (z ∷ c) h k = refl
lt_of_lt-ge (x ∷ a) (y ∷ b) (z ∷ c) h k = ground (arith, lt_of_lt-ge a b c)

lt_asymm : (a b : List ℕ) → bytes_lt a b ≡ true → bytes_lt b a ≡ false
unfolding bytes_lt
lt_asymm a [] h = ground arith
lt_asymm [] (y ∷ b) h = refl
lt_asymm (x ∷ a) (y ∷ b) h = ground (arith, lt_asymm a b)

eq_of_ge : (a b : List ℕ) → bytes_lt a b ≡ false → bytes_lt b a ≡ false → a ≡ b
unfolding bytes_lt
eq_of_ge [] [] h k = refl
eq_of_ge [] (y ∷ b) h k = ground arith
eq_of_ge (x ∷ a) [] h k = ground arith
eq_of_ge (x ∷ a) (y ∷ b) h k = rw (x_eq, eq_of_ge a b tail_h tail_k) refl
  where
    x_eq : x ≡ y
    x_eq = ground arith

    tail_h : bytes_lt a b ≡ false
    tail_h = ground arith

    tail_k : bytes_lt b a ≡ false
    tail_k = ground arith

heads_comm :
    (s t : List ℕ) (us : List (List ℕ))
    → (if bytes_lt s t then t ∷ s ∷ us else s ∷ t ∷ us)
      ≡ (if bytes_lt t s then s ∷ t ∷ us else t ∷ s ∷ us)
heads_comm s t us = elim (Bool-cases (bytes_lt s t)) [
  | inl p ↦ rw (p, lt_asymm s t p) refl
  | inr p ↦ elim (Bool-cases (bytes_lt t s)) [
    | inl q ↦ rw (p, q) refl
    | inr q ↦ rw (p, q, eq_of_ge s t p q) refl
  ]
]

-- Two strings sink in either order.
sink_comm : (s t : List ℕ) (us : List (List ℕ)) → sink s (sink t us) ≡ sink t (sink s us)
unfolding sink
sink_comm s t [] = heads_comm s t []
sink_comm s t (u ∷ us) = elim (Bool-cases (bytes_lt s u)) [
  | inl p ↦ elim (Bool-cases (bytes_lt t u)) [
    | inl q ↦ rw (p, q, p, sink_comm s t us) refl
    | inr q ↦ rw (p, q, lt_of_lt-ge s t u p q) (rw p refl)
  ]
  | inr p ↦ elim (Bool-cases (bytes_lt t u)) [
    | inl q ↦ rw (p, q, lt_of_lt-ge t s u q p) (rw p refl)
    | inr q ↦ rw (p, q) (rw p (heads_comm s t (u ∷ us)))
  ]
]

sort_from-Permᴰ :
    {ss ts : List (List ℕ)} (us : List (List ℕ)) → Permᴰ ss ts → sort_from us ss ≡ sort_from us ts
unfolding sort_from
sort_from-Permᴰ us Permᴰ.nil = refl
sort_from-Permᴰ us (Permᴰ.cons e p) = rw e (sort_from-Permᴰ (sink _ us) p)
sort_from-Permᴰ us (Permᴰ.swap {a} {b} {l = l} e f) =
    rw (sym e, sym f) (ap (λ vs. sort_from vs l) (sink_comm b a us))
sort_from-Permᴰ us (Permᴰ.trans p q) = sort_from-Permᴰ us p ∙ sort_from-Permᴰ us q

-- A request has one fingerprint tree, whatever the order in which it lists its tools.
pub fingerprint_request-Permᴰ :
    (hash : List ℕ → String) (ms : List Message) {tools tools' : List (List ℕ)}
    → Permᴰ tools tools'
    → fingerprint_request hash ms tools ≡ fingerprint_request hash ms tools'
unfolding fingerprint_request sort_strings
fingerprint_request-Permᴰ hash [] p = refl
fingerprint_request-Permᴰ hash (m ∷ ms) p = rw (sort_from-Permᴰ [] p) refl
