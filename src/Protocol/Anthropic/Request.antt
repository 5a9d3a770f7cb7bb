-- ===== src/Protocol/Anthropic/Request.antt =====
-- internal/protocol/anthropic/request.go: `OpenAIToAnthropic`, from a chat request to a Messages
-- request. A negative count of tokens is 0 here: the code treats both alike.
pub mod Labels
pub mod Acceptable
use astreo_gateway.Base.{
  if◌then◌else◌, ltb, map, ◌++◌, ◌∷◌, [], List, some, none, Option, ◌&&◌, not, ℕ, is_empty, codes,
  Text, ◌≐◌, wrap, ◌>>=◌, err, ok, Result,
}
use astreo_gateway.Protocol.Anthropic.{
  block_of, ToolSchema, default_max_tokens, MessagesRequest, ContentBlock,
}
use astreo_gateway.Protocol.Content.{
  no_images, string_at, join_with, is_text, parse_stop, is_absent, content_to_text, is_image,
}
use astreo_gateway.Json.{Json}
use astreo_gateway.Protocol.Turns.{
  Conversation, silence, say, flush_tool_results, add_system, add_pending, require_turns,
}
use astreo_gateway.Protocol.Core.{ChatRequest, ChatMessage, ToolCall, Tool}

-- `ContentBlock{Type: "text", Text: t}`
abbrev pub text_block : Text → ContentBlock
text_block t = record (block_of (codes "text")) { text = t }

unfoldable pub or_empty_text : List ContentBlock → List ContentBlock
or_empty_text [] = text_block [] ∷ []
or_empty_text (b ∷ bs) = b ∷ bs

abbrev pub tool_result : Text → Text → ContentBlock
tool_result id t = record (block_of (codes "tool_result")) { tool_use_id = id; content = t }

tool_schema : Tool → ToolSchema
tool_schema t = record {
  name = t.function.name;
  description = t.function.description;
  input_schema =
      if is_empty t.function.parameters
      then codes "{\"type\":\"object\",\"properties\":{}}"
      else t.function.parameters;
}

unfoldable pub chosen_max_tokens : Option ℕ → ℕ
chosen_max_tokens none = default_max_tokens
chosen_max_tokens (some n) = if ltb 0 n then n else default_max_tokens

module _ (json : Json) where
  part_block : List (Text × Text) → Result Text ContentBlock
  unfolding is_image is_text string_at
  part_block p =
      let kind = string_at json (codes "type") p in
      if is_image kind
      then err no_images
      else if is_text kind
      then ok (text_block (string_at json (codes "text") p))
      else err (codes "unsupported content type: " ++ kind)

  unfoldable pub part_blocks : List (List (Text × Text)) → Result Text (List ContentBlock)
  unfolding part_block
  part_blocks [] = ok []
  part_blocks (p ∷ ps) = part_block p >>= λ b. part_blocks ps >>= λ bs. ok (b ∷ bs)

  unfoldable pub blocks_of : Text → Result Text Text → Result Text (List ContentBlock)
  unfolding part_blocks or_empty_text
  blocks_of raw (ok s) = ok (text_block s ∷ [])
  blocks_of raw (err _) = wrap (codes "invalid content: ") (json.unmarshal_parts raw) >>= λ parts.
      part_blocks parts >>= λ blocks. ok (or_empty_text blocks)

  -- `openAIContentToBlocks`
  unfoldable pub content_to_blocks : Text → Result Text (List ContentBlock)
  unfolding is_absent blocks_of
  content_to_blocks raw =
      if is_absent raw then ok (text_block [] ∷ []) else blocks_of raw (json.unmarshal_string raw)

  unfoldable pub tool_use : ToolCall → ContentBlock
  tool_use tc = record (block_of (codes "tool_use")) {
    id = tc.id;
    name = tc.function.name;
    input = if json.is_valid tc.function.arguments then tc.function.arguments else codes "{}";
  }

  -- the blocks of an assistant's message
  unfoldable pub assistant_blocks : ChatMessage → Result Text (List ContentBlock)
  unfolding content_to_blocks tool_use
  assistant_blocks m =
      (if is_absent m.content then ok [] else content_to_blocks m.content) >>= λ blocks.
      ok (or_empty_text (blocks ++ map tool_use m.tool_calls))

  -- the body of the loop
  unfoldable pub read_message :
      Conversation ContentBlock → ChatMessage → Result Text (Conversation ContentBlock)
  unfolding assistant_blocks flush_tool_results add_system add_pending say
  read_message c m =
      if m.role ≐ codes "system"
      then (content_to_text json m.content >>= λ t. ok (add_system c t))
      else if m.role ≐ codes "user"
      then (content_to_blocks m.content >>= λ bs. ok (say (flush_tool_results c) (codes "user") bs))
      else if m.role ≐ codes "assistant"
      then (assistant_blocks m >>= λ bs. ok (say (flush_tool_results c) (codes "assistant") bs))
      else if m.role ≐ codes "tool"
      then (content_to_text json m.content >>= λ t.
          ok (add_pending c (tool_result m.tool_call_id t)))
      else err (codes "unsupported role: " ++ m.role)

  unfoldable pub read_messages :
      Conversation ContentBlock → List ChatMessage → Result Text (Conversation ContentBlock)
  unfolding read_message
  read_messages c [] = ok c
  read_messages c (m ∷ ms) = read_message c m >>= λ d. read_messages d ms

  -- `{"type": …}`
  type_only : Text → Result Text Text
  type_only kind = json.marshal_strings ((codes "type", kind) ∷ [])

  named_choice : Text → Result Text Text
  unfolding type_only
  named_choice s =
      if s ≐ codes "auto"
      then type_only (codes "auto")
      else if s ≐ codes "required"
      then type_only (codes "any")
      else if s ≐ codes "none"
      then type_only (codes "auto")
      else err (codes "unsupported tool_choice: " ++ s)

  object_choice : Text → Text → Result Text Text
  unfolding type_only
  object_choice kind name =
      if kind ≐ codes "function" && not (is_empty name)
      then json.marshal_strings ((codes "type", codes "tool") ∷ (codes "name", name) ∷ [])
      else type_only (codes "auto")

  choice_of : Text → Result Text Text → Result Text Text
  unfolding named_choice object_choice
  choice_of raw (ok s) = named_choice s
  choice_of raw (err _) =
      wrap (codes "invalid tool_choice: ") (json.unmarshal_tool_choice raw) >>= λ o.
      object_choice o.0 o.1

  -- `mapToolChoice`, where there is a choice
  map_tool_choice : Text → Result Text Text
  unfolding choice_of
  map_tool_choice raw = if is_empty raw then ok [] else choice_of raw (json.unmarshal_string raw)

  -- `OpenAIToAnthropic`
  unfoldable pub open_ai_to_anthropic : ChatRequest → Text → Result Text MessagesRequest
  unfolding read_messages flush_tool_results chosen_max_tokens require_turns map_tool_choice
      tool_schema
  open_ai_to_anthropic req model_name = do
    stops ← parse_stop json req.stop
    read ← read_messages silence req.messages
    messages ← require_turns (flush_tool_results read).turns
    choice ← map_tool_choice req.tool_choice
    ok (record {
      model = model_name;
      messages = messages;
      system = join_with (codes "\n\n") read.system_parts;
      max_tokens = chosen_max_tokens req.max_tokens;
      temperature = req.temperature;
      top_p = req.top_p;
      stop_sequences = stops;
      stream = req.stream;
      tools = map tool_schema req.tools;
      tool_choice = choice;
    })
