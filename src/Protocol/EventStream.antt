-- ===== src/Protocol/EventStream.antt =====
-- internal/protocol/anthropic/stream.go and internal/protocol/gemini/stream.go: what both
-- `TranslateStream`s share, the reading of server-sent events and the writing of chunks.
-- What an event makes the translator write does not depend on the writes before, so the writes are
-- a list, and the first that fails ends them.
pub mod Payloads
pub mod Texts
pub mod Indices
use astreo_gateway.Base.{
  drop, if◌then◌else◌, ◌++◌, ◌∷◌, [], List, some, none, Option, ◌||◌, ℕ, is_empty, codes, Text,
  has_prefix, ◌≐◌, ◌>>=◌, err, ok, Result,
}
use astreo_gateway.Protocol.Content.{join_with}
use astreo_gateway.Protocol.Core.{ChunkDelta, ChatChunk}
use astreo_gateway.Protocol.{StreamOutput}
use astreo_gateway.Protocol.Wire.{Wire}

-- what a translator writes: a chunk, the body of an error, and the end
pub data Emit : Type 0 where
  chunk : ChatChunk → Emit
  fault : Text → Emit
  finished : Emit

abbrev pub no_delta : ChunkDelta
no_delta = record { role = []; content = []; tool_calls = [] }

-- a chunk of one choice, and no usage
unfoldable pub chunk_of : Text → Text → ChunkDelta → Option Text → ChatChunk
chunk_of msg_id model delta finish = record {
  id = msg_id;
  object = codes "chat.completion.chunk";
  model = model;
  choices = record { index = 0; delta = delta; finish_reason = finish } ∷ [];
  usage = none;
}

unfoldable pub tool_delta : ℕ → Text → Text → Text → ChunkDelta
tool_delta index id name arguments = record no_delta {
  tool_calls =
      record {
        id = id;
        kind = codes "function";
        function = record { name = name; arguments = arguments };
        index = some index;
      }
      ∷ [];
}

abbrev pub event_of : Text → Text
event_of payload = codes "data: " ++ (payload ++ codes "\n\n")

unfoldable pub render : Wire → Emit → Result Text Text
render wire (chunk c) = wire.marshal_chunk c >>= λ b. ok (event_of b)
render wire (fault body) = ok (event_of body)
render wire finished = ok (event_of (codes "[DONE]"))

-- `write_error` is what the writes before and a text make of its write
module _ (wire : Wire) (write_error : List Text → Text → Option Text) where
  put : List Text → Result Text Text → Result (List Text × Text) (List Text)
  put out (err e) = err (out, e)
  put out (ok t) = elim (write_error out t) [ none ↦ ok (out ++ t ∷ []) | some e ↦ err (out, e) ]

  -- `writeChunk` and `writeDone`, one after the other until one fails
  unfoldable pub write_all : List Text → List Emit → Result (List Text × Text) (List Text)
  unfolding put
  write_all out [] = ok out
  write_all out (e ∷ es) = put out (render wire e) >>= λ later. write_all later es

  output_of : Option Text → Result (List Text × Text) (List Text) → StreamOutput
  output_of scan_error (ok out) = record { written = out; failure = scan_error }
  output_of scan_error (err (out, e)) = record { written = out; failure = some e }

  -- the writes of a stream that ends with the scanner's error
  unfoldable pub stream_output : List Emit → Option Text → StreamOutput
  unfolding write_all output_of
  stream_output emits scan_error = output_of scan_error (write_all [] emits)

-- `handle` is what a payload does to the translator's variables, and what it writes
module _ {S : Type 0} (trim : Text → Text) (handle : S → Text → S × List Emit) where
  -- `flushEvent`
  unfoldable pub flush_event : S → List Text → S × List Emit
  flush_event s data_lines =
      let payload = join_with (codes "\n") data_lines in
      if is_empty payload || payload ≐ codes "[DONE]" then (s, []) else handle s payload

  -- the loop over the lines, and the flush behind it; `data_lines` are those of the event that has
  -- begun
  unfoldable pub read_events : S → List Text → List Text → S × List Emit
  unfolding flush_event
  read_events s data_lines [] = flush_event s data_lines
  read_events s data_lines (line ∷ lines) =
      let (now, emits) = flush_event s data_lines in
      let (last, later) = read_events now [] lines in
      let more = read_events s (data_lines ++ trim (drop 5 line) ∷ []) lines in
      let rest = read_events s data_lines lines in
      if is_empty line
      then (last, emits ++ later)
      else if has_prefix line (codes "data:")
      then more
      else rest
