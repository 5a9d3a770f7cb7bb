-- ===== src/Protocol/Gemini/Examples.antt =====
-- Runs of the Gemini translation, and its theorems at a chat and at a stream.
use astreo_gateway.Base.{
  if◌then◌else◌, map, ◌∷◌, [], List, some, none, Option, true, refl, ◌≡◌, codes, Text, ◌≐◌, ok,
}
use astreo_gateway.Protocol.EventStream.Payloads.{payloads}
use astreo_gateway.Protocol.Gemini.Response.{gemini_to_open_ai}
use astreo_gateway.Protocol.Gemini.Stream.Said.{text-read_replies, reply_text}
use astreo_gateway.Protocol.EventStream.Texts.{text_in}
use astreo_gateway.Protocol.EventStream.{read_events}
use astreo_gateway.Protocol.Gemini.Stream.Ending.{
  final_chunk-reason, reason_of, final_chunk-late_stop, last_reason, reply_of,
}
use astreo_gateway.Protocol.Gemini.Request.Acceptable.{open_ai_to_gemini-IsSendable, IsSendable}
use astreo_gateway.Samples.{demo_json, demo_request}
use astreo_gateway.Protocol.Core.{ChatRequest}
use astreo_gateway.Protocol.Gemini.{
  GenerateContentRequest, GenerateContentResponse, Content, text_part,
}
use astreo_gateway.Protocol.Gemini.Request.{open_ai_to_gemini}
use astreo_gateway.Protocol.Gemini.Stream.{on_payload, on_reply, unbegun, final_chunk}
use mathlib.Core.List.{flatten}

abbrev question : ChatRequest
question = record demo_request {
  messages =
      record {
        role = codes "user";
        content = codes "hi";
        name = [];
        tool_calls = [];
        tool_call_id = [];
      }
      ∷ [];
}

abbrev generation : GenerateContentRequest
generation = record {
  contents = record { role = codes "user"; blocks = text_part (codes "hi") ∷ [] } ∷ [];
  system_instruction = none;
  generation_config = record {
    temperature = none;
    top_p = none;
    max_output_tokens = 8192;
    stop_sequences = [];
  };
  tools = [];
  tool_config = none;
}

open_ai_to_gemini-IsSendable_example : IsSendable generation
unfolding open_ai_to_gemini astreo_gateway.Protocol.Content.parse_stop ◌≐◌
open_ai_to_gemini-IsSendable_example =
    open_ai_to_gemini-IsSendable demo_json question translated_question
  where
    translated_question : open_ai_to_gemini demo_json question ≡ ok generation
    translated_question = refl

-- a reply that says a text, and ends where the text is "end"
abbrev says : Text → Option GenerateContentResponse
says t = some (
    reply_of demo_json (codes "m") true
      (some (record { role = codes "model"; blocks = text_part t ∷ [] }))
      (if t ≐ codes "end" then codes "STOP" else []))

abbrev demo_stream : List Text
demo_stream = codes "data:ab" ∷ [] ∷ codes "data:end" ∷ []

text-read_replies_example :
    text_in
      (read_events (λ t. t) (on_payload demo_json (codes "m") true says) unbegun [] demo_stream).1
    ≡ flatten (map (λ p. reply_text (says p)) (payloads (λ t. t) [] demo_stream))
text-read_replies_example = text-read_replies demo_json (codes "m") true says (λ t. t) demo_stream

final_chunk-reason_example :
    map
      (λ c. c.finish_reason)
      (final_chunk demo_json
        (codes "m")
        true
        (read_events
          (λ t. t)
          (on_payload demo_json (codes "m") true says)
          unbegun
          []
          demo_stream).0).choices
    ≡ some
        (elim (last_reason none
          (map (λ p. reason_of demo_json (says p)) (payloads (λ t. t) [] demo_stream))) [
            | none ↦ codes "stop"
            | some r ↦ r
          ])
      ∷ []
final_chunk-reason_example = final_chunk-reason demo_json (codes "m") true says (λ t. t) demo_stream

-- a content of one function call
abbrev one_call : Content
one_call = record {
  role = codes "model";
  blocks =
      record (text_part []) {
        function_call = some (record { name = codes "look"; args = codes "{}" });
      }
      ∷ [];
}

final_chunk-late_stop_example :
    (map
        (λ c. c.finish_reason)
        (final_chunk demo_json
          (codes "m")
          true
          (on_reply demo_json
            (codes "m")
            true
            (on_reply demo_json
              (codes "m")
              true
              unbegun
              (reply_of demo_json (codes "m") true (some one_call) [])).0
            (reply_of demo_json (codes "m") true none (codes "STOP"))).0).choices
      ≡ some (codes "stop") ∷ [])
    × (map
          (λ c. c.finish_reason)
          (gemini_to_open_ai demo_json
            (reply_of demo_json (codes "m") true (some one_call) (codes "STOP"))
            (codes "m")).choices
        ≡ codes "tool_calls" ∷ [])
unfolding astreo_gateway.Protocol.Gemini.Stream.has_call
final_chunk-late_stop_example =
    final_chunk-late_stop demo_json (codes "m") true unbegun one_call refl
