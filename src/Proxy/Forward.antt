-- ===== src/Proxy/Forward.antt =====
-- internal/proxy/proxy.go: one attempt at an upstream, `forward` and `forwardOnce`.
-- The network is the parameter `exchange`, which may change the whole world: while it waits, other
-- requests and the admin API run.
pub mod Honest
use astreo_gateway.Base.{
  if-holds, leb, ◌&&◌, ◌≡◌, if◌then◌else◌, ◌==◌, ◌++◌, ◌∷◌, [], List, some, none, Option, not,
  false, true, Bool, ℕ, is_empty, codes, Text, err, ok, Result, insert,
}
use astreo_gateway.Json.{Json}
use astreo_gateway.Protocol.Core.{ChatRequest}
use astreo_gateway.Model.{Provider}
use astreo_gateway.Protocol.{Protocol, Registry, Body, StreamOutput, protocol_of}
use astreo_gateway.KeyPool.{Key, mark_cooldown}
use astreo_gateway.Routing.{Selector}
use astreo_gateway.Proxy.{ForwardResult, should_cooldown, classify_upstream}

pub record World : Type 0 where
  pub selector : Selector
  pub now : ℕ

-- `headers` are the pairs that are set, in order.
pub record HttpRequest : Type 0 where
  pub url : Text
  pub headers : List (Text × Text)
  pub body : Text

-- What `NewRequestWithContext` and `httpC.Do` come to; `no_reply` says whether the request's
-- context was over.
pub data Exchange : Type 0 where
  bad_request : Text → Exchange
  no_reply : Bool → Text → Exchange
  replied : ℕ → List (Text × Text) → Body → Exchange

-- What the proxy writes to its client. `header_panic` is the panic of `WriteHeader` at a code that has
-- not three digits: nothing is sent then.
pub data Sent : Type 0 where
  header_panic : ℕ → Sent
  error_sent : ℕ → Text → Text → Sent
  response_sent : ℕ → List (Text × Text) → Text → Sent
  stream_sent : List Text → Sent

-- the codes that `WriteHeader` takes
unfoldable pub is_header : ℕ → Bool
is_header code = leb 100 code && leb code 999

-- `WriteHeader` and `Write` of a response
unfoldable pub respond : ℕ → List (Text × Text) → Text → Sent
unfolding is_header
respond status headers body =
    if is_header status then response_sent status headers body else header_panic status

-- a response has a code that `WriteHeader` takes, and a panic one that it does not take
abbrev pub IsWritten : Sent → Type 0
IsWritten (header_panic code) = is_header code ≡ false
IsWritten (error_sent code _ _) = Unit
IsWritten (response_sent code _ _) = is_header code ≡ true
IsWritten (stream_sent _) = Unit

pub respond-IsWritten :
    (status : ℕ) (headers : List (Text × Text)) (body : Text)
    → IsWritten (respond status headers body)
unfolding respond
respond-IsWritten status headers body = if-holds IsWritten (is_header status) _ _ (λ e. e) (λ e. e)

pub record Env : Type 0 where
  pub json : Json
  pub registry : Registry
  pub exchange : World → HttpRequest → Exchange × World
  pub key_cooldown : ℕ
  pub draw : ℕ → ℕ
  pub trim : Text → Text

-- an attempt: its result, what it wrote to the client, and the world after it
pub record Attempted : Type 0 where
  pub result : ForwardResult
  pub sent : List Sent
  pub world : World

abbrev pub failed_with : ℕ → Text → ForwardResult
failed_with status message = record {
  status = status;
  body = [];
  header = none;
  failure = some message;
  wrote = false;
}

abbrev pub replied_with : ℕ → Text → Option (List (Text × Text)) → ForwardResult
replied_with status body header = record {
  status = status;
  body = body;
  header = header;
  failure = none;
  wrote = false;
}

abbrev pub unsent : ForwardResult → World → Attempted
unsent r w = record { result = r; sent = []; world = w }

-- a key is put on cooldown after a 429 or a 5xx
unfoldable pub cool_key : Env → Provider → Key → ℕ → World → World
cool_key env prov key status w =
    if should_cooldown (classify_upstream status)
    then record w {
      selector = record w.selector {
        pool = mark_cooldown w.selector.pool prov.id key.id w.now env.key_cooldown;
      };
    }
    else w

-- `wrapUpstreamError`
unfoldable pub wrap_upstream_error : Json → Text → ℕ → Text
wrap_upstream_error json body status = elim (json.error_message body) [
  | some msg ↦ json.error_body (if is_empty msg then body else msg) (codes "upstream_error")
  | none ↦
      json.error_body
        (if is_empty body then codes "upstream status " ++ json.decimal status else body)
        (codes "upstream_error")
]

streamed : StreamOutput → World → Attempted
streamed o w = elim o.failure [
  | none ↦ record {
    result = record { status = 200; body = []; header = none; failure = none; wrote = true };
    sent = stream_sent o.written ∷ [];
    world = w;
  }
  | some e ↦ record {
    result = record { status = 502; body = []; header = none; failure = some e; wrote = true };
    sent = stream_sent o.written ∷ [];
    world = w;
  }
]

translated : Result Text Text → List (Text × Text) → ForwardResult
translated (err e) header = failed_with 0 e
translated (ok body) header =
    replied_with 200 body (some (insert (codes "Content-Type") (codes "application/json") header))

buffered : Protocol → Text → ℕ → List (Text × Text) → Body → ForwardResult
unfolding translated
buffered proto model status header body = elim body.failure [
  | some e ↦ failed_with status (codes "read body: " ++ e)
  | none ↦ translated (proto.translate_response body.bytes model) header
]

-- what `forward` does with the reply
after_exchange : Env → Protocol → Provider → Key → Text → Bool → Exchange → World → Attempted
unfolding streamed buffered
after_exchange env proto prov key model is_stream (bad_request e) w =
    unsent (failed_with 0 (codes "new request: " ++ e)) w
after_exchange env proto prov key model is_stream (no_reply true e) w =
    unsent (failed_with 504 (codes "upstream timeout")) w
after_exchange env proto prov key model is_stream (no_reply false e) w =
    unsent (failed_with 0 (codes "upstream request: " ++ e)) w
after_exchange env proto prov key model is_stream (replied status header body) w =
    let cooled = cool_key env prov key status w in
    if not (status == 200)
    then unsent (replied_with status (wrap_upstream_error env.json body.bytes status) (some header))
        cooled
    else if is_stream
    then streamed (proto.translate_stream body model true) cooled
    else unsent (buffered proto model status header body) cooled

forward_translated :
    Env → World → Protocol → Provider → Key → Bool → Result Text (Text × ChatRequest) → Attempted
unfolding after_exchange
forward_translated env w proto prov key is_stream (err e) =
    unsent (replied_with 400 (env.json.error_body e (codes "invalid_request")) none) w
forward_translated env w proto prov key is_stream (ok (body, parsed)) =
    let (reply, later) = env.exchange w (record {
      url = (proto.chat_url prov.base_url parsed.model is_stream).0;
      headers =
          (codes "Content-Type", codes "application/json")
          ∷ (proto.auth_headers key.value ++ prov.headers);
      body = body;
    }) in
    after_exchange env proto prov key parsed.model is_stream reply later

unfoldable pub forward : Env → World → Protocol → Provider → Key → Text → Bool → Attempted
unfolding forward_translated
forward env w proto prov key body is_stream =
    forward_translated env w proto prov key is_stream (proto.translate_request body)

forward_by : Env → World → Option Protocol → Provider → Key → Text → Bool → Attempted
forward_by env w none prov key body is_stream =
    unsent (failed_with 400 (codes "unsupported protocol: " ++ prov.protocol)) w
forward_by env w (some proto) prov key body is_stream = forward env w proto prov key body is_stream

unfoldable pub forward_once : Env → World → Provider → Key → Text → Bool → Attempted
unfolding forward_by
forward_once env w prov key body is_stream =
    forward_by env w (protocol_of env.registry prov.protocol) prov key body is_stream
