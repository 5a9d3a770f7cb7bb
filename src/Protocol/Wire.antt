-- ===== src/Protocol/Wire.antt =====
-- What the protocols take from `encoding/json` for the OpenAI-compatible types, and from `bufio`.
use astreo_gateway.Base.{List, Option, Text, Result}
use astreo_gateway.Protocol.Core.{ChatRequest, ChatResponse, ChatChunk, ModelEntry}
use astreo_gateway.Protocol.{Body}

pub record Wire : Type 0 where
  pub unmarshal_request : Text → Result Text ChatRequest
  pub marshal_response : ChatResponse → Result Text Text
  pub marshal_chunk : ChatChunk → Result Text Text
  -- `ParseModelsResponse`, of its `data`
  pub unmarshal_models : Text → Result Text (List ModelEntry)
  -- the lines of a `bufio.Scanner` with a buffer of 1 MiB, and its `Err()`
  pub scan : Body → List Text × Option Text
  -- `strings.TrimSpace`
  pub trim : Text → Text
