-- ===== src/Public.antt =====
-- internal/api/public: the API of the clients. A chat request passes the check of its gateway key and
-- the access log, which is always there, to the handler of the chat completions.
pub mod Models
pub mod Embeddings
pub mod Outcomes
pub mod Logged
pub mod Authorized
pub mod Examples
use astreo_gateway.Base.{
  drop, take, length, if◌then◌else◌, leb, map, ◌++◌, ◌∷◌, [], List, some, none, Option, false, true,
  Bool, ℕ, is_empty, codes, Text, has_prefix, err, ok, Result,
}
use astreo_gateway.Store.Db.{Db}
use astreo_gateway.Store.Keys.{verify_gateway_key}
use astreo_gateway.Model.{GatewayKey}
use astreo_gateway.Protocol.{Body}
use astreo_gateway.Metrics.LogStore
use astreo_gateway.Metrics.LogStore.{RequestLog, LogStore, append}
use astreo_gateway.Metrics.AccessLog.{
  Write, header, bytes, Net, fresh_recorder, recorded, client_ip_of, new_entry, finish_entry,
  apply_proxy_outcome,
}
use astreo_gateway.Proxy
use astreo_gateway.Proxy.{Outcome}
use astreo_gateway.Proxy.Forward.{
  Env, World, Sent, header_panic, error_sent, response_sent, stream_sent,
}
use astreo_gateway.Proxy.Attempts.{Finished}
use astreo_gateway.Proxy.Chat.{chat_completions}

-- a request as `net/http` hands it over
pub record Call : Type 0 where
  pub method : Text
  pub path : Text
  pub authorization : Text
  pub forwarded : Text
  pub real_ip : Text
  pub remote : Text
  pub body : Body

abbrev no_authorization : Text
no_authorization = codes "{\"error\":\"missing or invalid Authorization header\"}"

abbrev no_key : Text
no_key = codes "{\"error\":\"invalid gateway key\"}"

unfoldable pub found_key : Result Text (Option GatewayKey) → Result Text Text
found_key (err _) = err no_key
found_key (ok none) = err no_key
found_key (ok (some key)) = ok key.id

-- `RequireGatewayKey`: the ID of the key, or the text of the reply 401
unfoldable pub require_gateway_key : (Text → Text) → Db → Text → Result Text Text
unfolding found_key verify_gateway_key has_prefix
require_gateway_key sha256_hex db authorization =
    if has_prefix authorization (codes "Bearer ")
    then (if is_empty (drop 7 authorization)
        then err no_authorization
        else found_key (verify_gateway_key sha256_hex db (drop 7 authorization)))
    else err no_authorization

-- `maxBodySize`
abbrev pub max_body_size : ℕ
max_body_size = 10485760

-- `io.ReadAll(io.LimitReader(r.Body, maxBodySize))`
unfoldable pub read_request : Body → Option Text
read_request b =
    if leb max_body_size (length b.bytes)
    then some (take max_body_size b.bytes)
    else elim b.failure [ none ↦ some b.bytes | some _ ↦ none ]

unfoldable pub peeked : Option (Text × Bool) → Result Text (Text × Bool)
peeked none = err []
peeked (some (model, stream)) =
    if is_empty model then err (codes "missing required field: model") else ok (model, stream)

-- `peekModelAndStream`, with the text of its error: an empty `json.SyntaxError` has an empty one.
-- `unmarshal_peek` is `json.Unmarshal` of the two fields.
unfoldable pub peek_model_and_stream :
    (Text → Option (Text × Bool)) → Text → Result Text (Text × Bool)
unfolding peeked
peek_model_and_stream unmarshal_peek body = peeked (unmarshal_peek body)

unfoldable pub attempt_of : Proxy.Attempt → LogStore.Attempt
attempt_of a = record {
  provider_slug = a.provider_slug;
  model_name = a.model_name;
  key_id = a.key_id;
  status = a.status;
  fail_class = a.fail_class;
  duration_ms = a.duration_ms;
}

unfoldable pub apply_outcome : RequestLog → Outcome → RequestLog
unfolding attempt_of apply_proxy_outcome
apply_outcome e out =
    apply_proxy_outcome e out.provider_slug out.model_name out.alias_name out.error_class out.status
      out.tokens_prompt out.tokens_completion out.stream (map attempt_of out.attempts)

-- `attachGatewayKeyToLog`
abbrev pub attach_key : Text → RequestLog → RequestLog
attach_key key_id e = record e { gateway_key_id = key_id }

-- the entry after a handler, what it sent and the world it leaves
pub record Handled : Type 0 where
  pub entry : RequestLog
  pub sent : List Sent
  pub world : World

abbrev bad_call : World → RequestLog → Text → Handled
bad_call w e message = record {
  entry = e;
  sent = error_sent 400 (codes "invalid_request") message ∷ [];
  world = w;
}

unfoldable pub completed : RequestLog → Option Finished → Option Handled
unfolding apply_outcome
completed e none = none
completed e (some f) =
    some (record { entry = apply_outcome e f.out; sent = f.sent; world = f.world })

module _ (env : Env) (unmarshal_peek : Text → Option (Text × Bool)) where
  unfoldable pub chat_peeked :
      World → RequestLog → Text → Result Text (Text × Bool) → Option Handled
  unfolding completed chat_completions
  chat_peeked w e body (err message) = some (bad_call w e message)
  chat_peeked w e body (ok (directive, is_stream)) =
      completed (record e { directive = directive; stream = is_stream })
        (chat_completions env w directive body is_stream)

  unfoldable pub chat_read : World → RequestLog → Option Text → Option Handled
  unfolding chat_peeked peek_model_and_stream
  chat_read w e none = some (bad_call w e (codes "failed to read body"))
  chat_read w e (some body) =
      if is_empty body
      then some (bad_call w e (codes "empty body"))
      else chat_peeked w e body (peek_model_and_stream unmarshal_peek body)

  -- `chatHandler`; `none` is a panic
  unfoldable pub chat_handler : World → Text → RequestLog → Body → Option Handled
  unfolding chat_read read_request
  chat_handler w key_id e body = chat_read w (attach_key key_id e) (read_request body)

-- how a handler's response reaches the recorder
unfoldable pub writes_of : List Sent → List Write
writes_of [] = []
writes_of (header_panic status ∷ rest) = header status ∷ writes_of rest
writes_of (error_sent status _ _ ∷ rest) = header status ∷ bytes ∷ writes_of rest
writes_of (response_sent status _ _ ∷ rest) = header status ∷ bytes ∷ writes_of rest
writes_of (stream_sent parts ∷ rest) = header 200 ∷ map (λ _. bytes) parts ++ writes_of rest

-- the client's response, the log and the world after a request
pub data Response : Type 0 where
  denied : Text → Response
  answered : List Sent → Response
  -- the server ends the connection after a panic
  cut_off : Response

unfoldable pub has_panicked : List Sent → Bool
has_panicked [] = false
has_panicked (header_panic _ ∷ _) = true
has_panicked (error_sent _ _ _ ∷ rest) = has_panicked rest
has_panicked (response_sent _ _ _ ∷ rest) = has_panicked rest
has_panicked (stream_sent _ ∷ rest) = has_panicked rest

pub record Served : Type 0 where
  pub response : Response
  pub logs : LogStore
  pub world : World

module _ (env : Env) (unmarshal_peek : Text → Option (Text × Bool)) (net : Net)
    (sha256_hex : Text → Text) where
  -- the end of `AccessLog`, which a panic of the handler does not reach
  unfoldable pub logged : Text → ℕ → LogStore → Option Handled → Option Served
  unfolding finish_entry recorded writes_of append fresh_recorder has_panicked
  logged request_id start logs none = none
  logged request_id start logs (some h) = some (
      if has_panicked h.sent
      then record { response = cut_off; logs = logs; world = h.world }
      else record {
        response = answered h.sent;
        logs =
            append request_id h.world.now logs
              (finish_entry (recorded fresh_recorder (writes_of h.sent)) start h.world.now h.entry);
        world = h.world;
      })

  unfoldable pub admitted : Text → World → LogStore → Call → Result Text Text → Option Served
  unfolding logged chat_handler new_entry client_ip_of
  admitted request_id w logs call (err message) =
      some (record { response = denied message; logs = logs; world = w })
  admitted request_id w logs call (ok key_id) = logged request_id w.now logs (
      chat_handler env unmarshal_peek w key_id
        (attach_key key_id (
          new_entry request_id w.now call.method call.path
            (client_ip_of net call.forwarded call.real_ip call.remote)))
        call.body)

  -- POST /chat/completions of `NewRouter`; `request_id` is what `NewRequestID` draws
  unfoldable pub serve_chat : Text → World → LogStore → Call → Option Served
  unfolding admitted require_gateway_key
  serve_chat request_id w logs call =
      admitted request_id w logs call
        (require_gateway_key sha256_hex w.selector.db call.authorization)
