-- ===== src/Protocol/Gemini.antt =====
-- internal/protocol/gemini: the Generative Language API of Google behind the protocol interface.
pub mod Request
pub mod Response
pub mod Stream
pub mod Api
pub mod Examples
use astreo_gateway.Base.{
  if◌then◌else◌, ◌==◌, ◌∷◌, [], List, none, Option, ◌+◌, ℕ, codes, Text, ◌≐◌, member,
}
use astreo_gateway.Protocol.Turns.{Turn}
use astreo_gateway.Protocol.Core.{Usage}

-- types.go
pub record FunctionCall : Type 0 where
  pub name : Text
  pub args : Text

pub record FunctionResponse : Type 0 where
  pub name : Text
  pub response : Text

pub record Part : Type 0 where
  pub text : Text
  pub function_call : Option FunctionCall
  pub function_response : Option FunctionResponse

-- its `Parts` are the `blocks`
abbrev pub Content : Type 0
Content = Turn Part

pub record GenerationConfig : Type 0 where
  pub temperature : Option Text
  pub top_p : Option Text
  pub max_output_tokens : ℕ
  pub stop_sequences : List Text

pub record FunctionDeclaration : Type 0 where
  pub name : Text
  pub description : Text
  pub parameters : Text

pub record Tool : Type 0 where
  pub function_declarations : List FunctionDeclaration

-- its `FunctionCallingConfig`, which is always there
pub record ToolConfig : Type 0 where
  pub mode : Text
  pub allowed_function_names : List Text

pub record GenerateContentRequest : Type 0 where
  pub contents : List Content
  pub system_instruction : Option Content
  pub generation_config : GenerationConfig
  pub tools : List Tool
  pub tool_config : Option ToolConfig

pub record Candidate : Type 0 where
  pub content : Option Content
  pub finish_reason : Text

pub record UsageMetadata : Type 0 where
  pub prompt_token_count : ℕ
  pub candidates_token_count : ℕ
  pub total_token_count : ℕ

pub record GenerateContentResponse : Type 0 where
  pub candidates : List Candidate
  pub usage_metadata : Option UsageMetadata

-- `Part{Text: t}`
abbrev pub text_part : Text → Part
text_part t = record { text = t; function_call = none; function_response = none }

-- response.go: `mapFinishReason`
unfoldable pub map_finish_reason : Text → Text
map_finish_reason r =
    if r ≐ codes "STOP"
    then codes "stop"
    else if r ≐ codes "MAX_TOKENS"
    then codes "length"
    else if member r (
        codes "SAFETY"
        ∷ codes "RECITATION"
        ∷ codes "BLOCKLIST"
        ∷ codes "PROHIBITED_CONTENT"
        ∷ codes "SPII"
        ∷ [])
    then codes "content_filter"
    else codes "stop"

-- the counts of a reply, with the total where it has none
unfoldable pub counted : UsageMetadata → Usage
counted u = record {
  prompt_tokens = u.prompt_token_count;
  completion_tokens = u.candidates_token_count;
  total_tokens =
      if u.total_token_count == 0
      then u.prompt_token_count + u.candidates_token_count
      else u.total_token_count;
}
