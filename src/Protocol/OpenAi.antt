-- ===== src/Protocol/OpenAi.antt =====
-- internal/protocol/openai/protocol.go: the protocol of OpenAI itself, which passes the bodies on.
use astreo_gateway.Base.{
  ◌++◌, ◌∷◌, [], List, some, none, Option, false, true, codes, Text, wrap, ◌>>=◌, ok, Result,
}
use astreo_gateway.Protocol.{Protocol, StreamOutput}
use astreo_gateway.Protocol.Core.{ChatRequest}
use astreo_gateway.Protocol.Wire.{Wire}
use astreo_gateway.Protocol.Urls.{Urls, build_chat_completions_url, build_open_ai_models_url}

-- `Authorization: Bearer …`
abbrev bearer : Text → List (Text × Text)
bearer api_key = (codes "Authorization", codes "Bearer " ++ api_key) ∷ []

module _ (wire : Wire) (urls : Urls) where
  translate_open_ai_request : Text → Result Text (Text × ChatRequest)
  translate_open_ai_request body =
      wrap (codes "parse openai request: ") (wire.unmarshal_request body) >>= λ req. ok (body, req)

  -- `pieces` is how the reads cut the body, `write_error` what the writes before and a piece make of
  -- its write
  module _ (write_error : List Text → Text → Option Text) (pieces : Text → List Text) where
    copy_piece : Text → Option Text → List Text → StreamOutput → StreamOutput
    copy_piece piece none out rest = rest
    copy_piece piece (some e) out rest = record { written = out; failure = some e }

    -- the loop of `TranslateStream`
    unfoldable pub copy_pieces : List Text → List Text → Option Text → StreamOutput
    unfolding copy_piece
    copy_pieces out [] failure = record { written = out; failure = failure }
    copy_pieces out (piece ∷ more) failure =
        copy_piece piece (write_error out piece) out (copy_pieces (out ++ piece ∷ []) more failure)

    unfoldable pub open_ai : Protocol
    unfolding translate_open_ai_request copy_pieces build_chat_completions_url
        build_open_ai_models_url
    open_ai = record {
      name = codes "openai";
      models_url = build_open_ai_models_url urls;
      models_auth = bearer;
      parse_models = wire.unmarshal_models;
      chat_url = λ base model stream. (build_chat_completions_url urls base, false);
      auth_headers = bearer;
      supports_embeddings = true;
      translate_request = translate_open_ai_request;
      translate_response = λ upstream model. ok upstream;
      translate_stream =
          λ body model include_usage. copy_pieces [] (pieces body.bytes) body.failure;
    }
