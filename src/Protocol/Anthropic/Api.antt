-- ===== src/Protocol/Anthropic/Api.antt =====
-- internal/protocol/anthropic/protocol.go: Anthropic behind the protocol interface.
use astreo_gateway.Base.{◌∷◌, [], List, Option, false, codes, Text, wrap, ◌>>=◌, ok, Result}
use astreo_gateway.Protocol.Anthropic.Request.{open_ai_to_anthropic}
use astreo_gateway.Protocol.Anthropic.Response.{anthropic_to_open_ai}
use astreo_gateway.Json.{Json}
use astreo_gateway.Protocol.{Protocol}
use astreo_gateway.Protocol.Anthropic.Stream.{translate_stream}
use astreo_gateway.Protocol.Core.{ChatRequest}
use astreo_gateway.Protocol.Wire.{Wire}
use astreo_gateway.Protocol.Urls.{Urls, build_messages_url}
use astreo_gateway.Protocol.Anthropic.{MessagesRequest, MessagesResponse, StreamEvent}

-- `encoding/json` for the types of the Messages API
pub record MessagesWire : Type 0 where
  pub marshal_messages : MessagesRequest → Result Text Text
  pub unmarshal_message : Text → Result Text MessagesResponse
  pub unmarshal_event : Text → Option StreamEvent

abbrev anthropic_headers : Text → List (Text × Text)
anthropic_headers api_key =
    (codes "x-api-key", api_key) ∷ (codes "anthropic-version", codes "2023-06-01") ∷ []

module _ (json : Json) (wire : Wire) (messages : MessagesWire) (urls : Urls)
    (write_error : List Text → Text → Option Text) where
  translate_messages_request : Text → Result Text (Text × ChatRequest)
  unfolding open_ai_to_anthropic
  translate_messages_request body =
      wrap (codes "parse openai request: ") (wire.unmarshal_request body) >>= λ req.
      open_ai_to_anthropic json req req.model >>= λ sent.
      wrap (codes "marshal anthropic request: ") (messages.marshal_messages sent) >>= λ payload.
      ok (payload, req)

  translate_message : Text → Text → Result Text Text
  unfolding anthropic_to_open_ai
  translate_message upstream model =
      wrap (codes "decode anthropic response: ") (messages.unmarshal_message upstream) >>= λ resp.
      wrap (codes "marshal openai response: ")
        (wire.marshal_response (anthropic_to_open_ai json resp model))

  -- the models are asked for at the URL of the messages
  unfoldable pub anthropic : Protocol
  unfolding build_messages_url translate_messages_request translate_message translate_stream
  anthropic = record {
    name = codes "anthropic";
    models_url = build_messages_url urls;
    models_auth = anthropic_headers;
    parse_models = wire.unmarshal_models;
    chat_url = λ base model stream. (build_messages_url urls base, false);
    auth_headers = anthropic_headers;
    supports_embeddings = false;
    translate_request = translate_messages_request;
    translate_response = translate_message;
    translate_stream = λ body model include_usage.
        translate_stream json model include_usage wire write_error messages.unmarshal_event body;
  }
