-- ===== src/Protocol/Gemini/Response.antt =====
-- internal/protocol/gemini/response.go: `GeminiToOpenAI`.
use astreo_gateway.Base.{
  if◌then◌else◌, ◌++◌, ◌∷◌, [], List, some, none, Option, suc, ℕ, is_empty, codes, Text, ◌≐◌,
}
use astreo_gateway.Protocol.Content.{content_of}
use astreo_gateway.Protocol.Core.{ChatResponse, ToolCall}
use astreo_gateway.Protocol.Gemini.{
  FunctionCall, Part, Content, Candidate, GenerateContentResponse, map_finish_reason, counted,
}
use astreo_gateway.Json.{Json}
use mathlib.Core.Option

unfoldable pub part_texts : List Part → List Text
part_texts [] = []
part_texts (p ∷ ps) = if is_empty p.text then part_texts ps else p.text ∷ part_texts ps

unfoldable pub parts_in : Option Content → List Part
parts_in none = []
parts_in (some c) = c.blocks

-- the parts of the first candidate, and its reason to end
unfoldable pub parts_of : List Candidate → List Part
unfolding parts_in
parts_of [] = []
parts_of (c ∷ _) = parts_in c.content

unfoldable pub finish_of : List Candidate → Text
unfolding map_finish_reason
finish_of [] = codes "stop"
finish_of (c ∷ _) =
    if is_empty c.finish_reason then codes "stop" else map_finish_reason c.finish_reason

module _ (json : Json) where
  -- `call_%d`
  abbrev pub call_id : ℕ → Text
  call_id i = codes "call_" ++ json.decimal i

  unfoldable pub call_of : ℕ → Option FunctionCall → List ToolCall
  call_of i none = []
  call_of i (some f) =
      record {
        id = call_id i;
        kind = codes "function";
        function = record {
          name = f.name;
          arguments = if is_empty f.args then codes "{}" else f.args;
        };
        index = none;
      }
      ∷ []

  -- the calls of the parts, numbered by their places
  unfoldable pub part_calls : ℕ → List Part → List ToolCall
  unfolding call_of
  part_calls i [] = []
  part_calls i (p ∷ ps) = call_of i p.function_call ++ part_calls (suc i) ps

  -- `if len(toolCalls) > 0 && finishReason == "stop"`
  unfoldable pub finish_reason_with : List ToolCall → Text → Text
  finish_reason_with [] finish = finish
  finish_reason_with (_ ∷ _) finish = if finish ≐ codes "stop" then codes "tool_calls" else finish

  -- `GeminiToOpenAI`
  unfoldable pub gemini_to_open_ai : GenerateContentResponse → Text → ChatResponse
  unfolding part_texts part_calls parts_of finish_of finish_reason_with content_of counted
  gemini_to_open_ai resp model =
      let parts = parts_of resp.candidates in
      let calls = part_calls 0 parts in
      record {
        id = codes "chatcmpl-gemini";
        object = codes "chat.completion";
        model = model;
        choices =
            record {
              index = 0;
              message = record {
                role = codes "assistant";
                content = content_of json (part_texts parts);
                name = [];
                tool_calls = calls;
                tool_call_id = [];
              };
              finish_reason = finish_reason_with calls (finish_of resp.candidates);
            }
            ∷ [];
        usage = Option.map counted resp.usage_metadata;
      }
