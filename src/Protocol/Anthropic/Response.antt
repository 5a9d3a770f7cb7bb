-- ===== src/Protocol/Anthropic/Response.antt =====
-- internal/protocol/anthropic/response.go: `AnthropicToOpenAI`.
use astreo_gateway.Base.{if◌then◌else◌, ◌++◌, ◌∷◌, [], List, some, none, is_empty, codes, Text, ◌≐◌}
use astreo_gateway.Protocol.Content.{content_of}
use astreo_gateway.Protocol.Anthropic.{MessagesResponse, usage_of, ContentBlock, map_stop_reason}
use astreo_gateway.Json.{Json}
use astreo_gateway.Protocol.Core.{ChatResponse, ToolCall}

unfoldable pub text_parts : List ContentBlock → List Text
text_parts [] = []
text_parts (b ∷ bs) = if b.kind ≐ codes "text" then b.text ∷ text_parts bs else text_parts bs

called : ContentBlock → ToolCall
called b = record {
  id = b.id;
  kind = codes "function";
  function = record { name = b.name; arguments = if is_empty b.input then codes "{}" else b.input };
  index = none;
}

unfoldable pub tool_calls_of : List ContentBlock → List ToolCall
unfolding called
tool_calls_of [] = []
tool_calls_of (b ∷ bs) =
    if b.kind ≐ codes "tool_use" then called b ∷ tool_calls_of bs else tool_calls_of bs

-- `AnthropicToOpenAI`
unfoldable pub anthropic_to_open_ai : Json → MessagesResponse → Text → ChatResponse
unfolding text_parts tool_calls_of content_of map_stop_reason usage_of
anthropic_to_open_ai json resp model = record {
  id = codes "chatcmpl-" ++ resp.id;
  object = codes "chat.completion";
  model = model;
  choices =
      record {
        index = 0;
        message = record {
          role = codes "assistant";
          content = content_of json (text_parts resp.content);
          name = [];
          tool_calls = tool_calls_of resp.content;
          tool_call_id = [];
        };
        finish_reason = map_stop_reason resp.stop_reason;
      }
      ∷ [];
  usage = some (usage_of resp.usage);
}
