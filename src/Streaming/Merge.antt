-- ===== src/Streaming/Merge.antt =====
-- provider/openai.go: what the pieces of a stream come to.
use mathlib.Core.List.{append_assoc, append-nil}
use switch.Prelude.{
  ℕ, ◌<◌, List, [], ◌∷◌, ◌++◌, none, some, ◌≡◌, if◌then◌else◌, length, get_or, ◌==◌, length-set,
  Option, lt→ltb, Bool, false, zero, suc, refl, sym, ap, ◌∙◌, inl, inr, arith, Bool-cases, set, All,
}
use switch.Streaming.{ToolCall, merge_piece, merge_at, merge_tool_calls}

-- Whether a piece is for the call at i.
abbrev is_at : ℕ → Option ℕ → Bool
is_at i none = false
is_at i (some j) = i == j

-- The arguments of the pieces for the call at i, one after the other.
unfoldable pub arguments_at : ℕ → List ToolCall → List ℕ
arguments_at i [] = []
arguments_at i (tc ∷ delta) =
    let rest = arguments_at i delta in
    if is_at i tc.index then tc.function.arguments ++ rest else rest

-- The piece is for one of n calls.
abbrev pub IsKnown : ℕ → ToolCall → Type 0
IsKnown n tc = (i : ℕ) × (tc.index ≡ some i) × (i < n)

merge_at-some :
    (acc : List ToolCall) (tc : ToolCall) {index : Option ℕ} {j : ℕ}
    → index ≡ some j
    → j < length acc
    → merge_at index tc acc ≡ set acc j (merge_piece (get_or acc j tc) tc)
unfolding merge_at
merge_at-some acc tc {j = j} e h = rw (e, lt→ltb j (length acc) h) refl

merge_at-length :
    (acc : List ToolCall) (tc : ToolCall)
    → IsKnown (length acc) tc
    → length (merge_at tc.index tc acc) ≡ length acc
merge_at-length acc tc (j, e, h) =
    ap length (merge_at-some acc tc e h) ∙ length-set acc j (merge_piece (get_or acc j tc) tc)

abbrev arguments_of : ToolCall → List ℕ
arguments_of tc = tc.function.arguments

zero-suc : (j : ℕ) → (0 == suc j) ≡ false
zero-suc j = ground arith

suc-zero : (i : ℕ) → (suc i == 0) ≡ false
suc-zero i = ground arith

suc-suc : (i j : ℕ) → (suc i == suc j) ≡ (i == j)
suc-suc i j = ground arith

set-arguments :
    (acc : List ToolCall) (tc d : ToolCall) (i j : ℕ)
    → j < length acc
    → arguments_of (get_or (set acc j (merge_piece (get_or acc j tc) tc)) i d)
      ≡ arguments_of (get_or acc i d) ++ (if i == j then arguments_of tc else [])
unfolding merge_piece
set-arguments [] tc d i j h = elim h [ ]
set-arguments (c ∷ acc) tc d zero zero h = refl
set-arguments (c ∷ acc) tc d (suc i) zero h = rw (suc-zero i) (sym (append-nil _))
set-arguments (c ∷ acc) tc d zero (suc j) h = rw (zero-suc j) (sym (append-nil _))
set-arguments (c ∷ acc) tc d (suc i) (suc j) h =
    rw (suc-suc i j) (set-arguments acc tc d i j (omega arith))

arguments_at-cons :
    (i : ℕ) (tc : ToolCall) (delta : List ToolCall) {j : ℕ}
    → tc.index ≡ some j
    → (if i == j then arguments_of tc else []) ++ arguments_at i delta ≡ arguments_at i (tc ∷ delta)
unfolding arguments_at
arguments_at-cons i tc delta {j} e =
    rw (ap (is_at i) e) (elim (Bool-cases (i == j)) [ inl p ↦ rw p refl | inr p ↦ rw p refl ])

-- Pieces for calls that are there add their arguments, in order, to those of their calls, and no call
-- is added.
pub merge_tool_calls-arguments :
    (acc delta : List ToolCall) (i : ℕ) (d : ToolCall)
    → All (IsKnown (length acc)) delta
    → ((get_or (merge_tool_calls acc delta) i d).function.arguments
        ≡ (get_or acc i d).function.arguments ++ arguments_at i delta)
      × (length (merge_tool_calls acc delta) ≡ length acc)
unfolding merge_tool_calls arguments_at
merge_tool_calls-arguments acc [] i d all = (sym (append-nil _), refl)
merge_tool_calls-arguments acc (tc ∷ delta) i d ((j, e, h), all) =
    let n = merge_at-length acc tc (j, e, h) in
    let (args, l) = merge_tool_calls-arguments (merge_at tc.index tc acc) delta i d (rw n all) in
    (
      args
          ∙ ap (λ c. arguments_of (get_or c i d) ++ arguments_at i delta) (merge_at-some acc tc e h)
          ∙ ap (λ a. a ++ arguments_at i delta) (set-arguments acc tc d i j h)
          ∙ append_assoc (arguments_of (get_or acc i d)) (if i == j then arguments_of tc else [])
              (arguments_at i delta)
          ∙ ap (λ a. arguments_of (get_or acc i d) ++ a) (arguments_at-cons i tc delta e),
      l ∙ n,
    )
