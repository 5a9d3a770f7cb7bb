-- ===== src/Protocol/Gemini/Stream.antt =====
-- internal/protocol/gemini/stream.go: `TranslateStream`, from Gemini's replies to chunks.
pub mod Said
pub mod Ending
use astreo_gateway.Base.{
  if◌then◌else◌, ◌++◌, ◌∷◌, [], List, some, none, Option, ◌||◌, false, true, Bool, suc, ℕ, is_empty,
  codes, Text,
}
use astreo_gateway.Protocol.Wire.{Wire}
use astreo_gateway.Protocol.Core.{ChunkDelta, ChatChunk, Usage}
use astreo_gateway.Protocol.EventStream.{
  finished, no_delta, stream_output, chunk, Emit, read_events, tool_delta, chunk_of,
}
use astreo_gateway.Protocol.Gemini.{
  FunctionCall, Part, Content, Candidate, UsageMetadata, GenerateContentResponse, map_finish_reason,
  counted,
}
use astreo_gateway.Json.{Json}
use astreo_gateway.Protocol.{Body, StreamOutput}

-- the variables of `TranslateStream`
pub record Progress : Type 0 where
  pub role_sent : Bool
  pub next_tool : ℕ
  pub finish_reason : Option Text
  pub usage : Option Usage

unfoldable pub unbegun : Progress
unbegun = record { role_sent = false; next_tool = 0; finish_reason = none; usage = none }

abbrev pub gemini_id : Text
gemini_id = codes "chatcmpl-gemini"

unfoldable pub is_call : Option FunctionCall → Bool
is_call none = false
is_call (some _) = true

unfoldable pub has_call : List Part → Bool
unfolding is_call
has_call [] = false
has_call (p ∷ ps) = is_call p.function_call || has_call ps

has_call_in : Option Content → Bool
unfolding has_call
has_call_in none = false
has_call_in (some c) = has_call c.blocks

-- `finishReason` after a candidate
unfoldable pub reason_after : Option Text → Candidate → Option Text
unfolding map_finish_reason has_call_in
reason_after finish c =
    if is_empty c.finish_reason
    then finish
    else some
        (if has_call_in c.content then codes "tool_calls" else map_finish_reason c.finish_reason)

unfoldable pub usage_after : Option Usage → Option UsageMetadata → Option Usage
unfolding counted
usage_after usage none = usage
usage_after usage (some u) = some (counted u)

-- `finishReason`, with "stop" where it is nil
abbrev pub or_stop : Option Text → Text
or_stop none = codes "stop"
or_stop (some r) = r

module _ (json : Json) (model : Text) (include_usage : Bool) where
  write_delta : ChunkDelta → Emit
  unfolding chunk_of
  write_delta delta = chunk (chunk_of gemini_id model delta none)

  greeting : Bool → List Emit
  unfolding write_delta
  greeting role_sent =
      if role_sent then [] else write_delta (record no_delta { role = codes "assistant" }) ∷ []

  write_text : Text → List Emit
  unfolding write_delta
  write_text t = if is_empty t then [] else write_delta (record no_delta { content = t }) ∷ []

  -- the next number, and what a part writes of its call
  write_call : ℕ → Option FunctionCall → ℕ × List Emit
  unfolding write_delta tool_delta
  write_call index none = (index, [])
  write_call index (some f) = (
    suc index,
    write_delta (tool_delta index (codes "call_" ++ json.decimal index) f.name f.args) ∷ [],
  )

  write_parts : ℕ → List Part → ℕ × List Emit
  unfolding write_text write_call
  write_parts index [] = (index, [])
  write_parts index (p ∷ ps) =
      let (next, call) = write_call index p.function_call in
      let (last, later) = write_parts next ps in (last, write_text p.text ++ (call ++ later))

  on_content : Progress → Option Content → Progress × List Emit
  unfolding write_parts
  on_content s none = (s, [])
  on_content s (some c) =
      let (next, emits) = write_parts s.next_tool c.blocks in (record s { next_tool = next }, emits)

  -- the first candidate alone is read
  on_candidates : Progress → List Candidate → Progress × List Emit
  unfolding reason_after on_content
  on_candidates s [] = (s, [])
  on_candidates s (c ∷ _) =
      on_content (record s { finish_reason = reason_after s.finish_reason c }) c.content

  -- the body of `flushEvent` on a reply
  unfoldable pub on_reply : Progress → GenerateContentResponse → Progress × List Emit
  unfolding greeting usage_after on_candidates
  on_reply s reply =
      let begun = record s { role_sent = true; usage = usage_after s.usage reply.usage_metadata } in
      let (now, emits) = on_candidates begun reply.candidates in
      (now, greeting s.role_sent ++ emits)

  -- a payload that is no reply is skipped
  on_decoded : Progress → Option GenerateContentResponse → Progress × List Emit
  unfolding on_reply
  on_decoded s none = (s, [])
  on_decoded s (some reply) = on_reply s reply

  unfoldable pub on_payload :
      (Text → Option GenerateContentResponse) → Progress → Text → Progress × List Emit
  unfolding on_decoded
  on_payload unmarshal_reply s payload = on_decoded s (unmarshal_reply payload)

  -- the last chunk
  unfoldable pub final_chunk : Progress → ChatChunk
  unfolding chunk_of
  final_chunk s = record (chunk_of gemini_id model no_delta (some (or_stop s.finish_reason))) {
    usage = if include_usage then s.usage else none;
  }

  -- what follows the events, unless the scanner failed
  closing : Progress → Option Text → List Emit
  unfolding final_chunk
  closing s (some _) = []
  closing s none = chunk (final_chunk s) ∷ finished ∷ []

  -- `TranslateStream`; `unmarshal_reply` is `json.Unmarshal` into a `GenerateContentResponse`
  unfoldable pub translate_gemini_stream :
      Wire
      → (List Text → Text → Option Text)
      → (Text → Option GenerateContentResponse)
      → Body
      → StreamOutput
  unfolding on_payload unbegun read_events stream_output closing
  translate_gemini_stream wire write_error unmarshal_reply body =
      let (lines, scan_error) = wire.scan body in
      let (last, emits) = read_events wire.trim (on_payload unmarshal_reply) unbegun [] lines in
      stream_output wire write_error (emits ++ closing last scan_error) scan_error
