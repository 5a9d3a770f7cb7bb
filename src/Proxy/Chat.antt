-- ===== src/Proxy/Chat.antt =====
-- internal/proxy/proxy.go: `ChatCompletions`, from a directive to the client's response.
pub mod Total
use astreo_gateway.Base.{
  if◌then◌else◌, ◌∷◌, [], some, none, Option, Bool, ℕ, is_empty, codes, Text, err, ok, Result,
}
use astreo_gateway.Routing.{
  Resolved, RoutingError, resolve, unknown_model, alias_no_targets, provider_not_found,
  protocol_mismatch, no_api_key, wrapped, returned, panicked,
}
use astreo_gateway.Routing
use astreo_gateway.Proxy.{Outcome}
use astreo_gateway.Proxy.Forward.{World, Env, Sent, error_sent}
use astreo_gateway.Proxy.Attempts.{rewrite_model, upstream_body, attempt, Finished, settle_single}
use astreo_gateway.Proxy.Failover.{forward_with_retry}

-- `proxyErrorStatus`
unfoldable pub proxy_error_status : RoutingError → ℕ
proxy_error_status provider_not_found = 404
proxy_error_status unknown_model = 404
proxy_error_status alias_no_targets = 503
proxy_error_status no_api_key = 503
proxy_error_status protocol_mismatch = 400
proxy_error_status (wrapped _) = 500

unfoldable pub error_text : RoutingError → Text
error_text provider_not_found = codes "provider not found"
error_text unknown_model = codes "unknown model"
error_text alias_no_targets = codes "alias has no available targets"
error_text no_api_key = codes "no enabled API key"
error_text protocol_mismatch = codes "protocol translation not supported yet"
error_text (wrapped e) = e

-- `writeProxyError`
unfoldable pub write_proxy_error : RoutingError → Sent
unfolding error_text
write_proxy_error provider_not_found =
    error_sent 404 (codes "not_found") (error_text provider_not_found)
write_proxy_error unknown_model = error_sent 404 (codes "not_found") (error_text unknown_model)
write_proxy_error alias_no_targets =
    error_sent 503 (codes "service_unavailable") (error_text alias_no_targets)
write_proxy_error protocol_mismatch =
    error_sent 400 (codes "invalid_request") (error_text protocol_mismatch)
write_proxy_error no_api_key = error_sent 503 (codes "service_unavailable") (error_text no_api_key)
write_proxy_error (wrapped e) = error_sent 500 (codes "internal_error") e

abbrev pub empty_outcome : Bool → Outcome
empty_outcome is_stream = record {
  provider_slug = [];
  model_name = [];
  alias_name = [];
  status = 0;
  attempts = [];
  tokens_prompt = 0;
  tokens_completion = 0;
  error_class = [];
  stream = is_stream;
}

abbrev refuse : World → Outcome → ℕ → Text → Sent → Finished
refuse w out status class sent = record {
  out = record out { status = status; error_class = class };
  sent = sent ∷ [];
  world = w;
}

-- with the body that names the resolved model
unfoldable pub forward_rewritten :
    Env → World → Resolved → Text → Bool → Outcome → Result Text Text → Option Finished
forward_rewritten env w r directive is_stream out (err e) =
    some (refuse w out 400 (codes "client") (error_sent 400 (codes "invalid_request") e))
forward_rewritten env w r directive is_stream out (ok b) =
    let body = upstream_body env.json is_stream r.provider b in
    if is_empty r.alias_routing
    then some (settle_single (attempt env is_stream w out r.provider r.api_key r.model_name body))
    else forward_with_retry env w r directive body is_stream out

unfoldable pub chat_resolved :
    Env → World → Text → Text → Bool → Routing.Outcome Resolved → Option Finished
unfolding forward_rewritten
chat_resolved env w directive body is_stream panicked = none
chat_resolved env w directive body is_stream (returned (err e)) = some (
    refuse w (empty_outcome is_stream) (proxy_error_status e) (codes "resolve")
      (write_proxy_error e))
chat_resolved env w directive body is_stream (returned (ok r)) =
    forward_rewritten env w r directive is_stream
      (record (empty_outcome is_stream) {
        provider_slug = r.provider.slug;
        model_name = r.model_name;
      })
      (rewrite_model env.json body r.model_name)

-- `ChatCompletions`; `none` is a panic in the selection of a target
unfoldable pub chat_completions : Env → World → Text → Text → Bool → Option Finished
unfolding chat_resolved
chat_completions env w directive body is_stream =
    let (resolution, selector) = resolve env.registry env.draw w.now w.selector directive in
    chat_resolved env (record w { selector = selector }) directive body is_stream resolution
