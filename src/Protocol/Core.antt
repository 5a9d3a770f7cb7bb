-- ===== src/Protocol/Core.antt =====
-- internal/protocol/core/types.go: the OpenAI-compatible messages that every protocol translates.
-- A `json.RawMessage` is its bytes; a number that is only passed on (`float64`) is its JSON text.
use astreo_gateway.Base.{List, Option, Bool, ℕ, Text}

pub record StreamOptions : Type 0 where
  pub include_usage : Bool

pub record FunctionCall : Type 0 where
  pub name : Text
  pub arguments : Text

pub record ToolCall : Type 0 where
  pub id : Text
  pub kind : Text
  pub function : FunctionCall
  pub index : Option ℕ

pub record ChatMessage : Type 0 where
  pub role : Text
  pub content : Text
  pub name : Text
  pub tool_calls : List ToolCall
  pub tool_call_id : Text

pub record ToolFunction : Type 0 where
  pub name : Text
  pub description : Text
  pub parameters : Text

pub record Tool : Type 0 where
  pub kind : Text
  pub function : ToolFunction

pub record ChatRequest : Type 0 where
  pub model : Text
  pub messages : List ChatMessage
  pub max_tokens : Option ℕ
  pub temperature : Option Text
  pub top_p : Option Text
  pub stop : Text
  pub stream : Bool
  pub tools : List Tool
  pub tool_choice : Text
  pub stream_opts : Option StreamOptions

pub record Usage : Type 0 where
  pub prompt_tokens : ℕ
  pub completion_tokens : ℕ
  pub total_tokens : ℕ

pub record Choice : Type 0 where
  pub index : ℕ
  pub message : ChatMessage
  pub finish_reason : Text

pub record ChatResponse : Type 0 where
  pub id : Text
  pub object : Text
  pub model : Text
  pub choices : List Choice
  pub usage : Option Usage

pub record ChunkDelta : Type 0 where
  pub role : Text
  pub content : Text
  pub tool_calls : List ToolCall

pub record ChunkChoice : Type 0 where
  pub index : ℕ
  pub delta : ChunkDelta
  pub finish_reason : Option Text

pub record ChatChunk : Type 0 where
  pub id : Text
  pub object : Text
  pub model : Text
  pub choices : List ChunkChoice
  pub usage : Option Usage

pub record ModelEntry : Type 0 where
  pub id : Text
  pub object : Text
  pub owned_by : Text
