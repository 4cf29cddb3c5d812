-- ===== src/Server/Bearer.antt =====
-- server/auth.go: extractBearer finds the token that a header carries, and no other.
use Prim.{tt}
use switch.Prelude.Bytes.{bytes_eq→≡, ascii}
use switch.Prelude.{
  ℕ, ◌<◌, true, false, Option, none, some, List, [], ◌∷◌, ◌++◌, map, ◌≡◌, ◌≢◌, refl, sym, subst,
  inl, inr, arith, All, Bool-cases, ◌==◌, ap,
}
use switch.Server.{lower, is_bearer, add_first, split_space, token_of, extract_bearer}

-- The header is the word, a space and the token.
abbrev pub Carries : List ℕ → List ℕ → Type 0
Carries token auth = (scheme : List ℕ) × (is_bearer scheme ≡ true) × (auth ≡ scheme ++ 32 ∷ token)

lower-visible : (c : ℕ) → 32 < lower c → (c == 32) ≡ false
lower-visible c h = ground arith

visible : (s : List ℕ) → All (λ c. 32 < c) (map lower s) → All (λ c. (c == 32) ≡ false) s
visible [] h = tt
visible (c ∷ s) (h, hs) = (lower-visible c h, visible s hs)

split_space-word :
    (s t : List ℕ) → All (λ c. (c == 32) ≡ false) s → split_space (s ++ 32 ∷ t) ≡ some (s, t)
unfolding split_space
split_space-word [] t h = refl
split_space-word (c ∷ s) t (h, hs) = rw (h, split_space-word s t hs) refl

is_bearer-visible : (s : List ℕ) → is_bearer s ≡ true → All (λ c. (c == 32) ≡ false) s
unfolding ascii
is_bearer-visible s h = visible s (
    subst (All (λ c. 32 < c)) (sym (bytes_eq→≡ (map lower s) (ascii "bearer") h))
      (omega arith, (omega arith, (omega arith, (omega arith, (omega arith, (omega arith, tt)))))))

-- A header that carries a token gives that token.
pub extract_bearer-Carries :
    (token auth : List ℕ) → Carries token auth → extract_bearer auth ≡ token
unfolding extract_bearer
extract_bearer-Carries token auth (s, b, e) =
    rw (e, split_space-word s token (is_bearer-visible s b)) (rw b refl)

-- The two parts and a space are the header.
abbrev AreParts : List ℕ → Option (List ℕ × List ℕ) → Type 0
AreParts auth none = Unit
AreParts auth (some (before, after)) = auth ≡ before ++ 32 ∷ after

add_first-AreParts :
    (c : ℕ) (rest : List ℕ) (o : Option (List ℕ × List ℕ))
    → AreParts rest o
    → AreParts (c ∷ rest) (add_first c o)
add_first-AreParts c rest none h = tt
add_first-AreParts c rest (some (before, after)) h = ap (λ t. c ∷ t) h

split_space-AreParts : (auth : List ℕ) → AreParts auth (split_space auth)
unfolding split_space
split_space-AreParts [] = tt
split_space-AreParts (c ∷ rest) = elim (Bool-cases (c == 32)) [
  | inl p ↦ rw p (ap (λ x. x ∷ rest) (is_space p))
  | inr p ↦ rw p (add_first-AreParts c rest (split_space rest) (split_space-AreParts rest))
]
  where
    is_space : c == 32 ≡ true → c ≡ 32
    is_space p = ground arith

-- A token that is found is carried by the header.
pub Carries-extract_bearer :
    (auth : List ℕ) → extract_bearer auth ≢ [] → Carries (extract_bearer auth) auth
unfolding extract_bearer
Carries-extract_bearer auth = found (split_space auth) (split_space-AreParts auth)
  where
    found :
        (o : Option (List ℕ × List ℕ))
        → AreParts auth o
        → token_of o ≢ []
        → Carries (token_of o) auth
    found none e = λ h. absurd (h refl)
    found (some (s, t)) e = elim (Bool-cases (is_bearer s)) [
      | inl p ↦ rw p (λ h. (s, p, e))
      | inr p ↦ rw p (λ h. absurd (h refl))
    ]
