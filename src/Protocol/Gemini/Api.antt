-- ===== src/Protocol/Gemini/Api.antt =====
-- internal/protocol/gemini/protocol.go: Gemini behind the protocol interface.
use astreo_gateway.Base.{
  drop, if◌then◌else◌, ◌∷◌, [], List, some, none, Option, ◌&&◌, not, false, true, Bool, is_empty,
  codes, Text, has_prefix, wrap, ◌>>=◌, err, ok, Result, member,
}
use astreo_gateway.Protocol.Gemini.Request.{open_ai_to_gemini}
use astreo_gateway.Protocol.Gemini.Stream.{translate_gemini_stream}
use astreo_gateway.Protocol.Gemini.Response.{gemini_to_open_ai}
use astreo_gateway.Json.{Json}
use astreo_gateway.Protocol.{Protocol}
use astreo_gateway.Protocol.Core.{ChatRequest, ModelEntry}
use astreo_gateway.Protocol.Wire.{Wire}
use astreo_gateway.Protocol.Urls.{
  Urls, build_gemini_url, build_generate_content_url, build_stream_generate_content_url,
}
use astreo_gateway.Protocol.Gemini.{GenerateContentRequest, GenerateContentResponse}

-- types.go: `ListModelsEntry`
pub record ListModelsEntry : Type 0 where
  pub name : Text
  pub display_name : Text
  pub supported_generation_methods : List Text

-- `encoding/json` for the types of `generateContent`
pub record GenerateWire : Type 0 where
  pub marshal_generate : GenerateContentRequest → Result Text Text
  pub unmarshal_generated : Text → Result Text GenerateContentResponse
  pub unmarshal_models : Text → Result Text (List ListModelsEntry)

-- `containsGenerateContent`
unfoldable pub contains_generate_content : List Text → Bool
contains_generate_content methods = member (codes "generateContent") methods

-- `strings.TrimPrefix(name, "models/")`
gemini_model_id : Text → Text
gemini_model_id name = if has_prefix name (codes "models/") then drop 7 name else name

unfoldable pub entries_of : List ListModelsEntry → List ModelEntry
unfolding contains_generate_content gemini_model_id
entries_of [] = []
entries_of (m ∷ ms) =
    let rest = entries_of ms in
    if contains_generate_content m.supported_generation_methods
      && not (is_empty (gemini_model_id m.name))
    then record { id = gemini_model_id m.name; object = codes "model"; owned_by = m.display_name }
      ∷ rest
    else rest

abbrev gemini_headers : Text → List (Text × Text)
gemini_headers api_key = (codes "x-goog-api-key", api_key) ∷ []

unfoldable pub decoded_reply : Result Text GenerateContentResponse → Option GenerateContentResponse
decoded_reply (ok reply) = some reply
decoded_reply (err _) = none

module _ (json : Json) (wire : Wire) (generate : GenerateWire) (urls : Urls)
    (write_error : List Text → Text → Option Text) where
  translate_generate_request : Text → Result Text (Text × ChatRequest)
  unfolding open_ai_to_gemini
  translate_generate_request body =
      wrap (codes "parse openai request: ") (wire.unmarshal_request body) >>= λ req.
      open_ai_to_gemini json req >>= λ sent.
      wrap (codes "marshal gemini request: ") (generate.marshal_generate sent) >>= λ payload.
      ok (payload, req)

  translate_generated : Text → Text → Result Text Text
  unfolding gemini_to_open_ai
  translate_generated upstream model =
      wrap (codes "decode gemini response: ") (generate.unmarshal_generated upstream) >>= λ resp.
      wrap (codes "marshal openai response: ")
        (wire.marshal_response (gemini_to_open_ai json resp model))

  gemini_chat_url : Text → Text → Bool → Text × Bool
  unfolding build_generate_content_url build_stream_generate_content_url
  gemini_chat_url base model stream = (
    if stream
        then build_stream_generate_content_url urls base model
        else build_generate_content_url urls base model,
    true,
  )

  parse_gemini_models : Text → Result Text (List ModelEntry)
  unfolding entries_of
  parse_gemini_models body =
      wrap (codes "decode gemini models: ") (generate.unmarshal_models body) >>= λ models.
      ok (entries_of models)

  unfoldable pub gemini : Protocol
  unfolding build_gemini_url parse_gemini_models gemini_chat_url translate_generate_request
      translate_generated translate_gemini_stream
  gemini = record {
    name = codes "gemini";
    models_url = λ base. build_gemini_url urls base (codes "models");
    models_auth = gemini_headers;
    parse_models = parse_gemini_models;
    chat_url = gemini_chat_url;
    auth_headers = gemini_headers;
    supports_embeddings = false;
    translate_request = translate_generate_request;
    translate_response = translate_generated;
    translate_stream = λ body model include_usage.
        translate_gemini_stream json model include_usage wire write_error
          (λ payload. decoded_reply (generate.unmarshal_generated payload)) body;
  }
