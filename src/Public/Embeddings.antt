-- ===== src/Public/Embeddings.antt =====
-- internal/api/public/embeddings.go: a request of embeddings, from its gateway key to its log entry.
use astreo_gateway.Base.{
  if◌then◌else◌, some, none, Option, Bool, is_empty, codes, Text, err, ok, Result,
}
use astreo_gateway.Protocol.{Body}
use astreo_gateway.Protocol.Urls.{Urls}
use astreo_gateway.Metrics.LogStore.{RequestLog, LogStore}
use astreo_gateway.Metrics.AccessLog.{Net, new_entry, client_ip_of}
use astreo_gateway.Proxy.Forward.{Env, World}
use astreo_gateway.Proxy.Embeddings.{Ending, ended, embeddings}
use astreo_gateway.Public.{
  Call, Served, Handled, denied, bad_call, read_request, apply_outcome, attach_key,
  require_gateway_key, logged,
}

peeked_model : Option Text → Result Text Text
peeked_model none = err (codes "invalid JSON body")
peeked_model (some model) =
    if is_empty model then err (codes "missing required field: model") else ok model

-- `peekModel`; `unmarshal_model` is `json.Unmarshal` of the field
unfoldable pub peek_model : (Text → Option Text) → Text → Result Text Text
unfolding peeked_model
peek_model unmarshal_model body = peeked_model (unmarshal_model body)

completed_embeddings : RequestLog → Ending → Option Handled
unfolding apply_outcome
completed_embeddings e (ended f) =
    some (record { entry = apply_outcome e f.out; sent = f.sent; world = f.world })
completed_embeddings e _ = none

module _ (env : Env) (urls : Urls) (unmarshal_model : Text → Option Text) where
  embeddings_peeked : World → RequestLog → Text → Result Text Text → Option Handled
  unfolding completed_embeddings embeddings
  embeddings_peeked w e body (err message) = some (bad_call w e message)
  embeddings_peeked w e body (ok directive) =
      completed_embeddings (record e { directive = directive })
        (embeddings env urls w directive body)

  embeddings_read : World → RequestLog → Option Text → Option Handled
  unfolding embeddings_peeked peek_model
  embeddings_read w e none = some (bad_call w e (codes "failed to read body"))
  embeddings_read w e (some body) =
      if is_empty body
      then some (bad_call w e (codes "empty body"))
      else embeddings_peeked w e body (peek_model unmarshal_model body)

  -- `embeddingsHandler`; `none` is a panic
  unfoldable pub embeddings_handler : World → Text → RequestLog → Body → Option Handled
  unfolding embeddings_read read_request
  embeddings_handler w key_id e body = embeddings_read w (attach_key key_id e) (read_request body)

  module _ (unmarshal_peek : Text → Option (Text × Bool)) (net : Net)
      (sha256_hex : Text → Text) where
    embeddings_admitted : Text → World → LogStore → Call → Result Text Text → Option Served
    unfolding logged embeddings_handler new_entry client_ip_of
    embeddings_admitted request_id w logs call (err message) =
        some (record { response = denied message; logs = logs; world = w })
    embeddings_admitted request_id w logs call (ok key_id) =
        logged env unmarshal_peek net sha256_hex request_id w.now logs (
          embeddings_handler w key_id
            (attach_key key_id (
              new_entry request_id w.now call.method call.path
                (client_ip_of net call.forwarded call.real_ip call.remote)))
            call.body)

    -- POST /embeddings of `NewRouter`
    unfoldable pub serve_embeddings : Text → World → LogStore → Call → Option Served
    unfolding embeddings_admitted require_gateway_key
    serve_embeddings request_id w logs call =
        embeddings_admitted request_id w logs call
          (require_gateway_key sha256_hex w.selector.db call.authorization)
