-- ===== src/Streaming.antt =====
-- provider/openai.go: the pieces of tool calls that a stream brings, put together. The arguments, JSON
-- text that arrives in pieces, are lists of bytes, and the index of a piece is none when it is negative.
pub mod Merge
mod Tests
use switch.Prelude.{
  ℕ, String, List, [], ◌∷◌, ◌++◌, Option, none, some, if◌then◌else◌, ltb, str_eq, length, get_or,
  set,
}

pub record FunctionCall : Type 0 where
  pub name : String
  pub arguments : List ℕ

pub record ToolCall : Type 0 where
  pub index : Option ℕ
  pub id : String
  pub type_name : String
  pub function : FunctionCall

unfoldable pub set_or_kept : String → String → String
set_or_kept new old = if str_eq new "" then old else new

-- What is set replaces, the arguments are added.
unfoldable pub merge_piece : ToolCall → ToolCall → ToolCall
merge_piece cur tc = record {
  index = cur.index;
  id = set_or_kept tc.id cur.id;
  type_name = set_or_kept tc.type_name cur.type_name;
  function = record {
    name = set_or_kept tc.function.name cur.function.name;
    arguments = cur.function.arguments ++ tc.function.arguments;
  };
}

unfoldable pub merge_at : Option ℕ → ToolCall → List ToolCall → List ToolCall
merge_at none tc acc = acc ++ tc ∷ []
merge_at (some i) tc acc =
    if ltb i (length acc) then set acc i (merge_piece (get_or acc i tc) tc) else acc ++ tc ∷ []

unfoldable pub merge_tool_calls : List ToolCall → List ToolCall → List ToolCall
merge_tool_calls acc [] = acc
merge_tool_calls acc (tc ∷ delta) = merge_tool_calls (merge_at tc.index tc acc) delta
