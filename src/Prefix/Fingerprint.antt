-- ===== src/Prefix/Fingerprint.antt =====
-- prefix/fingerprint.go: the fingerprint tree of a request. The encoded definitions of the tools are
-- lists of bytes, and `hash` stands for the hexadecimal text of sha256. Roles and hexadecimal text
-- are ASCII, a byte for each character.
pub mod Order
pub mod Stable
use switch.Prelude.Bytes.{ascii}
use switch.Prelude.{
  ℕ, ◌/◌, String, Bool, true, false, List, [], ◌∷◌, ◌++◌, if◌then◌else◌, ltb, str_eq, length, ◌==◌,
}
use switch.Prefix.{Message, FingerprintTree}

-- Go's < on strings, byte by byte.
unfoldable pub bytes_lt : List ℕ → List ℕ → Bool
bytes_lt xs [] = false
bytes_lt [] (y ∷ ys) = true
bytes_lt (x ∷ xs) (y ∷ ys) = let rest = bytes_lt xs ys in if x == y then rest else ltb x y

-- The inner loop of sortStrings. The sorted part stands before the new string, so it is kept with its
-- last entry first.
unfoldable pub sink : List ℕ → List (List ℕ) → List (List ℕ)
sink s [] = s ∷ []
sink s (t ∷ ts) = let rest = sink s ts in if bytes_lt s t then t ∷ rest else s ∷ t ∷ ts

unfoldable pub sort_from : List (List ℕ) → List (List ℕ) → List (List ℕ)
sort_from sorted [] = sorted
sort_from sorted (s ∷ ss) = sort_from (sink s sorted) ss

unfoldable pub reverse_strings : List (List ℕ) → List (List ℕ) → List (List ℕ)
reverse_strings ts [] = ts
reverse_strings ts (s ∷ ss) = reverse_strings (s ∷ ts) ss

unfoldable pub sort_strings : List (List ℕ) → List (List ℕ)
sort_strings ss = reverse_strings [] (sort_from [] ss)

-- Each string with a zero byte after it.
unfoldable pub with_zeros : List (List ℕ) → List ℕ
with_zeros [] = []
with_zeros (s ∷ ss) = s ++ 0 ∷ with_zeros ss

unfoldable pub system_text : List Message → List ℕ
system_text [] = []
system_text (m ∷ ms) =
    let rest = system_text ms in if str_eq m.role "system" then m.content ++ 0 ∷ rest else rest

-- The messages but the last one.
unfoldable pub history_text : List Message → List ℕ
history_text [] = []
history_text (m ∷ ms) = text_before m ms
  where
    text_before : Message → List Message → List ℕ
    text_before m [] = []
    text_before m (n ∷ ms) = ascii m.role ++ 58 ∷ m.content ++ 0 ∷ text_before n ms

unfoldable pub last_content : List ℕ → List Message → List ℕ
last_content last [] = last
last_content last (m ∷ ms) = last_content m.content ms

unfoldable pub tree_of : (List ℕ → String) → List ℕ → List ℕ → List ℕ → FingerprintTree
tree_of hash seg0 seg1 seg2 = record {
  segments = hash seg0 ∷ hash seg1 ∷ hash seg2 ∷ [];
  token_len = length seg0 / 4 ∷ length seg1 / 4 ∷ length seg2 / 4 ∷ [];
  fp = hash (ascii (hash seg0) ++ ascii (hash seg1) ++ ascii (hash seg2));
}

unfoldable pub fingerprint_request :
    (List ℕ → String) → List Message → List (List ℕ) → FingerprintTree
fingerprint_request hash [] tools = record {
  segments = "" ∷ "" ∷ "" ∷ [];
  token_len = 0 ∷ 0 ∷ 0 ∷ [];
  fp = hash [];
}
fingerprint_request hash (m ∷ ms) tools =
    tree_of hash (system_text (m ∷ ms) ++ with_zeros (sort_strings tools)) (history_text (m ∷ ms))
      (last_content [] (m ∷ ms))
