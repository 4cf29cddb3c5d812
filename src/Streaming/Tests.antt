-- ===== src/Streaming/Tests.antt =====
-- provider/openai.go: the calls of a small stream.
use Prim.{tt}
use switch.Prelude.{ℕ, ◌≡◌, refl, some, List, [], ◌∷◌, ◌++◌, arith, length, get_or}
use switch.Streaming.{ToolCall, merge_tool_calls, merge_at, merge_piece, set_or_kept}
use switch.Streaming.Merge.{merge_tool_calls-arguments, arguments_at}

abbrev first_piece : ToolCall
first_piece = record {
  index = some 0;
  id = "call_1";
  type_name = "function";
  function = record { name = "file_write"; arguments = [] };
}

abbrev piece : ℕ → List ℕ → ToolCall
piece i bytes = record {
  index = some i;
  id = "";
  type_name = "";
  function = record { name = ""; arguments = bytes };
}

abbrev pieces : List ToolCall
pieces = piece 0 (1 ∷ 2 ∷ []) ∷ piece 0 (3 ∷ []) ∷ []

one_call :
    merge_tool_calls [] (first_piece ∷ pieces)
    ≡ record first_piece { function = record { name = "file_write"; arguments = 1 ∷ 2 ∷ 3 ∷ [] } }
      ∷ []
unfolding merge_tool_calls merge_at merge_piece set_or_kept
one_call = refl

-- A stream that starts with index 1 makes a call of each piece.
three_calls : length (merge_tool_calls [] (piece 1 [] ∷ piece 5 [] ∷ piece 5 (7 ∷ []) ∷ [])) ≡ 3
unfolding merge_tool_calls merge_at
three_calls = refl

merge_tool_calls-arguments_example :
    ((get_or (merge_tool_calls (first_piece ∷ []) pieces) 0 first_piece).function.arguments
      ≡ [] ++ arguments_at 0 pieces)
    × (length (merge_tool_calls (first_piece ∷ []) pieces) ≡ 1)
merge_tool_calls-arguments_example =
    merge_tool_calls-arguments (first_piece ∷ []) pieces 0 first_piece
      ((0, refl, omega arith), ((0, refl, omega arith), tt))
