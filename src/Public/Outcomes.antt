-- ===== src/Public/Outcomes.antt =====
-- internal/api/public/chat.go: what the handler of chats comes to.
use astreo_gateway.Base.{
  if-holds, map, ◌∷◌, [], List, some, none, Option, Bool, ◌∙◌, ap, refl, ◌≡◌, is_empty, Text, err,
  ok, Result,
}
use astreo_gateway.Routing.{Selector, resolve, RoutingError, Resolved, returned}
use astreo_gateway.Metrics.LogStore.{RequestLog, Attempt}
use astreo_gateway.Metrics.AccessLog.{with_outcome, apply_proxy_outcome, with_attempts}
use astreo_gateway.Proxy.{Outcome}
use astreo_gateway.Proxy.Forward.{Env, World, Sent, IsWritten}
use astreo_gateway.Proxy.Attempts.{Finished}
use astreo_gateway.Proxy.Chat.{chat_completions}
use astreo_gateway.Proxy.Chat.Total.{IsAnsweredOnce, chat_completions-answers}
use astreo_gateway.Public.{
  attempt_of, Call, Handled, apply_outcome, completed, chat_peeked, chat_read,
  peek_model_and_stream,
}

-- the entry is that of the request, with the gateway key
pub record IsEntryOf (request_id key_id : Text) (call : Call) (e : RequestLog) : Type 0 where
  pub request : e.request_id ≡ request_id
  pub key : e.gateway_key_id ≡ key_id
  pub method : e.method ≡ call.method
  pub path : e.path ≡ call.path

module _ (request_id key_id : Text) (call : Call) where
  abbrev OfRequest : RequestLog → Type 0
  OfRequest = IsEntryOf request_id key_id call

  pub record IsHandled (o : Option Handled) : Type 0 where
    pub result : Handled
    pub ends : o ≡ some result
    pub one : Sent
    pub sent : result.sent ≡ one ∷ []
    pub written : IsWritten one
    pub of_request : OfRequest result.entry

  with_attempts-OfRequest :
      (as_made : List Attempt) (e : RequestLog) → OfRequest e → OfRequest (with_attempts as_made e)
  unfolding with_attempts
  with_attempts-OfRequest [] e h = h
  with_attempts-OfRequest (a ∷ as_made) e h = record {
    request = h.request;
    key = h.key;
    method = h.method;
    path = h.path;
  }

  apply_outcome-OfRequest :
      (e : RequestLog) (out : Outcome) → OfRequest e → OfRequest (apply_outcome e out)
  unfolding apply_outcome apply_proxy_outcome
  apply_outcome-OfRequest e out h =
      with_attempts-OfRequest (map attempt_of out.attempts)
        (with_outcome e out.provider_slug out.model_name out.alias_name out.error_class out.status
          out.tokens_prompt out.tokens_completion out.stream)
        (record { request = h.request; key = h.key; method = h.method; path = h.path })

  completed-IsHandled :
      (s : Selector) (directive : Text) (e : RequestLog) (o : Option Finished)
      → OfRequest e
      → IsAnsweredOnce s directive o
      → IsHandled (completed e o)
  unfolding completed
  completed-IsHandled s directive e none h (f, same, _) = cc
  completed-IsHandled s directive e (some g) h (f, same, answer) = record {
    result = record { entry = apply_outcome e g.out; sent = g.sent; world = g.world };
    ends = refl;
    one = answer.0;
    sent = ap (λ (o : Finished). o.sent) (same_finished g f same) ∙ answer.1;
    written = answer.2;
    of_request = apply_outcome-OfRequest e g.out h;
  }
    where
      same_finished : (g f : Finished) → some g ≡ some f → g ≡ f
      same_finished g f e = cc

  module _ (env : Env) (unmarshal_peek : Text → Option (Text × Bool)) where
    -- the selection of a target never panics
    abbrev pub Selects : World → Type 0
    Selects w =
        (directive : Text)
        → (r : Result RoutingError Resolved) × ((resolve env.registry env.draw w.now w.selector
              directive).0
            ≡ returned r)

    chat_peeked-IsHandled :
        (w : World) (e : RequestLog) (body : Text) (p : Result Text (Text × Bool))
        → Selects w
        → OfRequest e
        → IsHandled (chat_peeked env unmarshal_peek w e body p)
    unfolding chat_peeked
    chat_peeked-IsHandled w e body (err message) selects h = record {
      result = _;
      ends = refl;
      one = _;
      sent = refl;
      written = tt;
      of_request = h;
    }
    chat_peeked-IsHandled w e body (ok (directive, is_stream)) selects h =
        completed-IsHandled _ directive (record e { directive = directive; stream = is_stream })
          (chat_completions env w directive body is_stream)
          (record { request = h.request; key = h.key; method = h.method; path = h.path })
          (chat_completions-answers env w directive body is_stream (selects directive).0
            (selects directive).1)

    pub chat_read-IsHandled :
        (w : World) (e : RequestLog) (o : Option Text)
        → Selects w
        → OfRequest e
        → IsHandled (chat_read env unmarshal_peek w e o)
    unfolding chat_read
    chat_read-IsHandled w e none selects h = record {
      result = _;
      ends = refl;
      one = _;
      sent = refl;
      written = tt;
      of_request = h;
    }
    chat_read-IsHandled w e (some body) selects h =
        if-holds IsHandled (is_empty body) _ _
          (λ _. record {
            result = _;
            ends = refl;
            one = _;
            sent = refl;
            written = tt;
            of_request = h;
          })
          (λ _.
            chat_peeked-IsHandled w e body (peek_model_and_stream unmarshal_peek body) selects h)
