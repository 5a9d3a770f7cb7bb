-- ===== src/Protocol/Anthropic/Stream.antt =====
-- internal/protocol/anthropic/stream.go: `TranslateStream`, from Anthropic's events to chunks.
pub mod Said
pub mod Steps
pub mod Numbering
use astreo_gateway.Base.{
  if◌then◌else◌, ◌==◌, ◌++◌, ◌∷◌, [], List, some, none, Option, Bool, ◌+◌, suc, ℕ, is_empty, codes,
  Text, ◌≐◌,
}
use astreo_gateway.Protocol.Anthropic.{
  MessagesResponse, usage_of, Tokens, map_stop_reason, StreamEvent, StreamDelta, ContentBlock,
  StreamError,
}
use astreo_gateway.Json.{Json}
use astreo_gateway.Protocol.{Body, StreamOutput}
use astreo_gateway.Protocol.Core.{ChunkDelta, Usage}
use astreo_gateway.Protocol.Wire.{Wire}
use astreo_gateway.Protocol.EventStream.{
  tool_delta, no_delta, chunk_of, Emit, chunk, fault, finished, read_events, stream_output,
}

-- the variables of `TranslateStream`; `tool_index` is the map `toolIndexByBlock`
pub record Stream : Type 0 where
  pub msg_id : Text
  pub tool_index : List (ℕ × ℕ)
  pub next_tool : ℕ
  pub finish_reason : Option Text
  pub usage : Option Usage

unfoldable pub initial : Stream
initial = record {
  msg_id = codes "chatcmpl-unknown";
  tool_index = [];
  next_tool = 0;
  finish_reason = none;
  usage = none;
}

-- `m[k]` of a map of numbers
unfoldable pub tool_index_at : ℕ → List (ℕ × ℕ) → Option ℕ
tool_index_at k [] = none
tool_index_at k ((j, v) ∷ m) = if j == k then some v else tool_index_at k m

-- `m[k] = v`: the newest entry is read first
unfoldable pub number_block : Stream → ℕ → Stream
number_block s block = record s {
  tool_index = (block, s.next_tool) ∷ s.tool_index;
  next_tool = suc s.next_tool;
}

module _ (json : Json) (model : Text) (include_usage : Bool) where
  say_delta : Stream → ChunkDelta → Stream × List Emit
  unfolding chunk_of
  say_delta s delta = (s, chunk (chunk_of s.msg_id model delta none) ∷ [])

  -- case "message_start"
  started : Stream → Option MessagesResponse → Stream × List Emit
  unfolding say_delta usage_of
  started s none = say_delta s (record no_delta { role = codes "assistant" })
  started s (some m) =
      say_delta
        (record s {
          msg_id = if is_empty m.id then s.msg_id else codes "chatcmpl-" ++ m.id;
          usage = some (usage_of m.usage);
        })
        (record no_delta { role = codes "assistant" })

  -- case "content_block_start"
  block_started : Stream → ℕ → Option ContentBlock → Stream × List Emit
  unfolding say_delta number_block tool_delta
  block_started s block none = (s, [])
  block_started s block (some b) =
      if b.kind ≐ codes "tool_use"
      then say_delta (number_block s block) (tool_delta s.next_tool b.id b.name [])
      else (s, [])

  input_delta : Stream → ℕ → Text → Option ℕ → Stream × List Emit
  unfolding say_delta number_block tool_delta
  input_delta s block text (some index) = say_delta s (tool_delta index [] [] text)
  input_delta s block text none =
      say_delta (number_block s block) (tool_delta s.next_tool [] [] text)

  -- case "content_block_delta"
  block_delta : Stream → ℕ → Option StreamDelta → Stream × List Emit
  unfolding say_delta input_delta tool_index_at
  block_delta s block none = (s, [])
  block_delta s block (some d) =
      if d.kind ≐ codes "text_delta"
      then say_delta s (record no_delta { content = d.text })
      else if d.kind ≐ codes "input_json_delta"
      then input_delta s block d.partial_json (tool_index_at block s.tool_index)
      else (s, [])

  abbrev zero_usage : Option Usage → Usage
  zero_usage none = record { prompt_tokens = 0; completion_tokens = 0; total_tokens = 0 }
  zero_usage (some u) = u

  -- the usage after a message_delta
  merged_usage : Option Usage → Option Tokens → Option Usage
  merged_usage usage none = usage
  merged_usage usage (some t) =
      let u = zero_usage usage in
      let prompt = if u.prompt_tokens == 0 then t.input_tokens else u.prompt_tokens in
      some (record {
        prompt_tokens = prompt;
        completion_tokens = t.output_tokens;
        total_tokens = prompt + t.output_tokens;
      })

  stop_reason_of : Option Text → Option StreamDelta → Option Text
  unfolding map_stop_reason
  stop_reason_of finish none = finish
  stop_reason_of finish (some d) =
      if is_empty d.stop_reason then finish else some (map_stop_reason d.stop_reason)

  -- case "message_stop"
  stopped : Stream → List Emit
  unfolding chunk_of
  stopped s =
      let last = chunk_of s.msg_id model no_delta s.finish_reason in
      chunk (record last { usage = if include_usage then s.usage else none }) ∷ finished ∷ []

  fault_message : Option StreamError → Text
  fault_message none = codes "upstream stream error"
  fault_message (some e) = if is_empty e.message then codes "upstream stream error" else e.message

  -- the switch of `flushEvent`
  unfoldable pub on_event : Stream → StreamEvent → Stream × List Emit
  unfolding started block_started block_delta merged_usage stop_reason_of stopped fault_message
  on_event s ev =
      if ev.kind ≐ codes "message_start"
      then started s ev.message
      else if ev.kind ≐ codes "content_block_start"
      then block_started s ev.index ev.content_block
      else if ev.kind ≐ codes "content_block_delta"
      then block_delta s ev.index ev.delta
      else if ev.kind ≐ codes "message_delta"
      then (
        record s {
          finish_reason = stop_reason_of s.finish_reason ev.delta;
          usage = merged_usage s.usage ev.usage;
        },
        [],
      )
      else if ev.kind ≐ codes "message_stop"
      then (s, stopped s)
      else if ev.kind ≐ codes "error"
      then (
        s,
        fault (json.error_body (fault_message ev.failure) (codes "upstream_error")) ∷ finished ∷ [],
      )
      else (s, [])

  handled : Stream → Option StreamEvent → Stream × List Emit
  unfolding on_event
  handled s none = (s, [])
  handled s (some ev) = on_event s ev

  -- the body of `flushEvent` on a payload; one that is no event is skipped
  unfoldable pub handle : (Text → Option StreamEvent) → Stream → Text → Stream × List Emit
  unfolding handled
  handle unmarshal_event s payload = handled s (unmarshal_event payload)

  -- `TranslateStream`; `unmarshal_event` is `json.Unmarshal` into a `StreamEvent`
  unfoldable pub translate_stream :
      Wire → (List Text → Text → Option Text) → (Text → Option StreamEvent) → Body → StreamOutput
  unfolding handle initial read_events stream_output
  translate_stream wire write_error unmarshal_event body =
      let (lines, scan_error) = wire.scan body in
      let (last, emits) = read_events wire.trim (handle unmarshal_event) initial [] lines in
      stream_output wire write_error emits scan_error
