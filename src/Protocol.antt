-- ===== src/Protocol.antt =====
-- internal/protocol/protocol.go: the interface of a wire protocol, and the registry of them.
pub mod Core
pub mod Content
pub mod Turns
pub mod Wire
pub mod EventStream
pub mod Anthropic
pub mod Gemini
pub mod Urls
pub mod OpenAi
pub mod Registration
use astreo_gateway.Base.{List, some, none, Option, false, true, Bool, Text, Result, insert, lookup}
use astreo_gateway.Protocol.Core.{ChatRequest, ModelEntry}

-- The body of an upstream reply: the bytes that can be read of it, and the error that ends them.
pub record Body : Type 0 where
  pub bytes : Text
  pub failure : Option Text

-- What `TranslateStream` writes to the client, and the error that it ends with.
pub record StreamOutput : Type 0 where
  pub written : List Text
  pub failure : Option Text

-- Headers are the pairs that the method sets, in order.
pub record Protocol : Type 0 where
  pub name : Text
  pub models_url : Text → Text
  pub models_auth : Text → List (Text × Text)
  pub parse_models : Text → Result Text (List ModelEntry)
  pub chat_url : Text → Text → Bool → Text × Bool
  pub auth_headers : Text → List (Text × Text)
  pub supports_embeddings : Bool
  pub translate_request : Text → Result Text (Text × ChatRequest)
  pub translate_response : Text → Text → Result Text Text
  pub translate_stream : Body → Text → Bool → StreamOutput

abbrev pub Registry : Type 0
Registry = List (Text × Protocol)

unfoldable pub register : Registry → Protocol → Registry
register reg p = insert p.name p reg

unfoldable pub protocol_of : Registry → Text → Option Protocol
protocol_of reg name = lookup name reg

is_registered : Option Protocol → Bool
is_registered none = false
is_registered (some _) = true

-- `Validate` accepts the name
unfoldable pub validate : Registry → Text → Bool
unfolding is_registered protocol_of
validate reg name = is_registered (protocol_of reg name)
