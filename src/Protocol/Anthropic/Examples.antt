-- ===== src/Protocol/Anthropic/Examples.antt =====
-- Runs of the Anthropic translation, and its theorems at a chat with a tool call.
use astreo_gateway.Base.{
  length, if◌then◌else◌, ◌==◌, map, ◌∷◌, [], List, some, none, Option, false, true, refl, ◌≡◌,
  codes, Text, has_prefix, ◌≐◌, ok,
}
use astreo_gateway.Protocol.Anthropic.Request.Labels.{labels_in-open_ai_to_anthropic, trace}
use astreo_gateway.Protocol.Anthropic.Stream.{initial, handle}
use astreo_gateway.Protocol.EventStream.Payloads.{payloads}
use astreo_gateway.Protocol.Anthropic.Stream.Said.{text-read_events, handled_text}
use astreo_gateway.Protocol.Turns.Labels.{labels_in}
use astreo_gateway.Protocol.EventStream.Texts.{text_in}
use astreo_gateway.Protocol.EventStream.{read_events}
use astreo_gateway.Protocol.Anthropic.Request.Acceptable.{
  open_ai_to_anthropic-IsAcceptable, IsAcceptable,
}
use astreo_gateway.Samples.{demo_json, demo_request}
use astreo_gateway.Protocol.Core.{ChatRequest, ChatMessage}
use astreo_gateway.Protocol.Anthropic.{MessagesRequest, StreamEvent, block_of}
use astreo_gateway.Protocol.Anthropic.Request.{open_ai_to_anthropic, text_block, tool_result}
use mathlib.Core.List.{flatten}
use astreo_gateway.Protocol.Anthropic.Request.Labels.{label}
use astreo_gateway.Protocol.Anthropic.Stream.Numbering.{
  IsNumbering, numbers, read_events-IsNumbering,
}

abbrev said_as : Text → Text → ChatMessage
said_as role content = record {
  role = role;
  content = content;
  name = [];
  tool_calls = [];
  tool_call_id = [];
}

-- a question, a tool call and its result
abbrev tool_chat : ChatRequest
tool_chat = record demo_request {
  messages =
      said_as (codes "user") (codes "hi")
      ∷ record (said_as (codes "assistant") []) {
        tool_calls =
            record {
              id = codes "t1";
              kind = codes "function";
              function = record { name = codes "look"; arguments = codes "{}" };
              index = none;
            }
            ∷ [];
      }
      ∷ record (said_as (codes "tool") (codes "42")) { tool_call_id = codes "t1" }
      ∷ [];
}

abbrev tool_request : MessagesRequest
tool_request = record {
  model = codes "m";
  messages =
      record { role = codes "user"; blocks = text_block (codes "hi") ∷ [] }
      ∷ record {
        role = codes "assistant";
        blocks =
            record (block_of (codes "tool_use")) {
              id = codes "t1";
              name = codes "look";
              input = codes "{}";
            }
            ∷ [];
      }
      ∷ record { role = codes "user"; blocks = tool_result (codes "t1") (codes "42") ∷ [] }
      ∷ [];
  system = [];
  max_tokens = 4096;
  temperature = none;
  top_p = none;
  stop_sequences = [];
  stream = false;
  tools = [];
  tool_choice = [];
}

translated_chat : open_ai_to_anthropic demo_json tool_chat (codes "m") ≡ ok tool_request
unfolding open_ai_to_anthropic astreo_gateway.Protocol.Content.parse_stop ◌≐◌
    astreo_gateway.Protocol.Content.content_to_text astreo_gateway.Protocol.Content.join_with
translated_chat = refl

open_ai_to_anthropic-IsAcceptable_example : IsAcceptable tool_request
open_ai_to_anthropic-IsAcceptable_example =
    open_ai_to_anthropic-IsAcceptable demo_json tool_chat (codes "m") translated_chat

labels_in-open_ai_to_anthropic_example :
    labels_in label tool_request.messages ≡ trace tool_chat.messages
labels_in-open_ai_to_anthropic_example =
    labels_in-open_ai_to_anthropic demo_json tool_chat (codes "m") translated_chat

-- a stream whose every payload starts a tool call or brings some text, by its first byte
abbrev demo_event : Text → Option StreamEvent
demo_event [] = none
demo_event (c ∷ payload) = some (record {
  kind = if c == b't' then codes "content_block_delta" else codes "content_block_start";
  message = none;
  index = length payload;
  content_block = some (record (block_of (codes "tool_use")) { id = payload });
  delta =
      some
        (record { kind = codes "text_delta"; text = payload; partial_json = []; stop_reason = [] });
  usage = none;
  failure = none;
})

abbrev demo_lines : List Text
demo_lines = codes "data:tab" ∷ [] ∷ codes "data:bxyz" ∷ [] ∷ codes "data:tc" ∷ []

text-read_events_example :
    text_in
      (read_events (λ t. t) (handle demo_json (codes "m") true demo_event) initial [] demo_lines).1
    ≡ flatten (map (λ p. handled_text (demo_event p)) (payloads (λ t. t) [] demo_lines))
text-read_events_example =
    text-read_events demo_json (codes "m") true demo_event (λ t. t) demo_lines

-- and that text is the one of the two deltas
demo_text :
    flatten (map (λ p. handled_text (demo_event p)) (payloads (λ t. t) [] demo_lines)) ≡ codes "abc"
unfolding flatten payloads has_prefix astreo_gateway.Protocol.Content.join_with ◌≐◌ handled_text
    astreo_gateway.Protocol.Anthropic.Stream.Said.event_text
    astreo_gateway.Protocol.Anthropic.Stream.Said.event_text_by
    astreo_gateway.Protocol.Anthropic.Stream.Said.delta_text
demo_text = refl

read_events-IsNumbering_example :
    IsNumbering demo_json
      (codes "m")
      true
      demo_event
      (numbers demo_json (codes "m") true demo_event initial (payloads (λ t. t) [] demo_lines))
      (read_events (λ t. t) (handle demo_json (codes "m") true demo_event) initial [] demo_lines).1
read_events-IsNumbering_example =
    read_events-IsNumbering demo_json (codes "m") true demo_event (λ t. t) demo_lines
