-- ===== src/Protocol/Anthropic.antt =====
-- internal/protocol/anthropic: the Messages API of Anthropic behind the protocol interface.
pub mod Request
pub mod Response
pub mod Stream
pub mod Api
pub mod Examples
use astreo_gateway.Base.{
  if◌then◌else◌, [], List, Option, ◌||◌, false, Bool, ◌+◌, ℕ, is_empty, codes, Text, ◌≐◌,
}
use astreo_gateway.Protocol.Turns.{Turn}
use astreo_gateway.Protocol.Core.{Usage}

-- types.go: `MessagesRequest` and its parts
pub record ContentBlock : Type 0 where
  pub kind : Text
  pub text : Text
  pub id : Text
  pub name : Text
  pub input : Text
  pub tool_use_id : Text
  pub content : Text
  pub is_error : Bool

-- `Message`
abbrev pub Message : Type 0
Message = Turn ContentBlock

pub record ToolSchema : Type 0 where
  pub name : Text
  pub description : Text
  pub input_schema : Text

pub record MessagesRequest : Type 0 where
  pub model : Text
  pub messages : List Message
  pub system : Text
  pub max_tokens : ℕ
  pub temperature : Option Text
  pub top_p : Option Text
  pub stop_sequences : List Text
  pub stream : Bool
  pub tools : List ToolSchema
  pub tool_choice : Text

-- the zero block, with its type
abbrev pub block_of : Text → ContentBlock
block_of kind = record {
  kind = kind;
  text = [];
  id = [];
  name = [];
  input = [];
  tool_use_id = [];
  content = [];
  is_error = false;
}

abbrev pub default_max_tokens : ℕ
default_max_tokens = 4096

pub record Tokens : Type 0 where
  pub input_tokens : ℕ
  pub output_tokens : ℕ

pub record MessagesResponse : Type 0 where
  pub id : Text
  pub kind : Text
  pub role : Text
  pub content : List ContentBlock
  pub model : Text
  pub stop_reason : Text
  pub usage : Tokens

pub record StreamDelta : Type 0 where
  pub kind : Text
  pub text : Text
  pub partial_json : Text
  pub stop_reason : Text

pub record StreamError : Type 0 where
  pub kind : Text
  pub message : Text

pub record StreamEvent : Type 0 where
  pub kind : Text
  pub message : Option MessagesResponse
  pub index : ℕ
  pub content_block : Option ContentBlock
  pub delta : Option StreamDelta
  pub usage : Option Tokens
  pub failure : Option StreamError

-- `core.Usage` of both counts
unfoldable pub usage_of : Tokens → Usage
usage_of t = record {
  prompt_tokens = t.input_tokens;
  completion_tokens = t.output_tokens;
  total_tokens = t.input_tokens + t.output_tokens;
}

-- response.go: `mapStopReason`
unfoldable pub map_stop_reason : Text → Text
map_stop_reason r =
    if r ≐ codes "max_tokens"
    then codes "length"
    else if r ≐ codes "tool_use"
    then codes "tool_calls"
    else if r ≐ codes "end_turn" || (r ≐ codes "stop_sequence" || r ≐ codes "stop")
    then codes "stop"
    else if is_empty r
    then codes "stop"
    else r
