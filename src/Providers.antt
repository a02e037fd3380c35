-- ===== src/Providers.antt =====
-- pkg/providers/types.go: the messages that agents exchange with language models. `V` stands for
-- Go's interface{}, the values of a tool call's arguments; a nil map or pointer is `none`.
use vikram.Base.{String, Option, List}
use vikram.Base.Map.{Map}

pub record FunctionCall : Type 0 where
  pub name : String
  pub arguments : String

pub record ToolCall (V : Type 0) : Type 0 where
  pub id : String
  pub kind : String  -- Type
  pub function : Option FunctionCall
  pub name : String
  pub arguments : Option (Map V)

pub record Message (V : Type 0) : Type 0 where
  pub role : String
  pub content : String
  pub tool_calls : List (ToolCall V)
  pub tool_call_id : String

pub record LlmResponse (V : Type 0) : Type 0 where
  pub content : String
  pub tool_calls : List (ToolCall V)
