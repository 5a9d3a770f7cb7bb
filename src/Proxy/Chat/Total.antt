-- ===== src/Proxy/Chat/Total.antt =====
-- internal/proxy/proxy.go: every chat request ends, with one thing sent or a panic of `WriteHeader`.
use astreo_gateway.Base.{
  Bool-cases, ◌∷◌, [], some, Option, Bool, inr, inl, sym, refl, ◌≡◌, is_empty, Text, err, ok,
  Result,
}
use astreo_gateway.Proxy.Attempts.Laws.{attempt-IsHonest, status-attempt}
use astreo_gateway.Proxy.Failover.Total.{forward_with_retry-answers}
use astreo_gateway.Proxy.Failover.Due.{IsDue, IsSettled, settle_single-IsSettled}
use astreo_gateway.Proxy.{Outcome}
use astreo_gateway.Proxy.Forward.{World, Env, IsWritten}
use astreo_gateway.Proxy.Attempts.{upstream_body, Finished}
use astreo_gateway.Proxy.Chat.{
  write_proxy_error, forward_rewritten, chat_resolved, chat_completions,
}
use mathlib.Core.Path.{subst}
use astreo_gateway.Routing.{
  Selector, resolve, Resolved, RoutingError, returned, unknown_model, alias_no_targets,
  provider_not_found, protocol_mismatch, no_api_key, wrapped,
}

abbrev pub IsAnsweredOnce : Selector → Text → Option Finished → Type 0
IsAnsweredOnce s directive o = (f : Finished) × (o ≡ some f) × IsSettled s directive f

pub write_proxy_error-IsWritten : (e : RoutingError) → IsWritten (write_proxy_error e)
unfolding write_proxy_error
write_proxy_error-IsWritten provider_not_found = tt
write_proxy_error-IsWritten unknown_model = tt
write_proxy_error-IsWritten alias_no_targets = tt
write_proxy_error-IsWritten no_api_key = tt
write_proxy_error-IsWritten protocol_mismatch = tt
write_proxy_error-IsWritten (wrapped e) = tt

write_proxy_error-IsDue :
    (s : Selector) (directive : Text) (f : Finished) (e : RoutingError)
    → IsDue s directive f (write_proxy_error e)
unfolding write_proxy_error
write_proxy_error-IsDue s directive f provider_not_found = tt
write_proxy_error-IsDue s directive f unknown_model = tt
write_proxy_error-IsDue s directive f alias_no_targets = tt
write_proxy_error-IsDue s directive f no_api_key = tt
write_proxy_error-IsDue s directive f protocol_mismatch = tt
write_proxy_error-IsDue s directive f (wrapped e) = tt

turned_down :
    (s : Selector) (directive : Text) (f : Finished) (e : RoutingError)
    → f.sent ≡ write_proxy_error e ∷ []
    → IsAnsweredOnce s directive (some f)
turned_down s directive f e h = (
  f,
  refl,
  (write_proxy_error e, h, write_proxy_error-IsWritten e, write_proxy_error-IsDue s directive f e),
)

-- Where the selection of a target does not panic, `ChatCompletions` ends, and comes to exactly one
-- thing: an error, an upstream's response or a stream that is sent to its client, or the panic of
-- `WriteHeader` at a code that it does not take, with which nothing is sent. It panics only where the
-- directive names an alias, or where the code is the status that the outcome records.
pub chat_completions-answers :
    (env : Env) (w : World) (directive body : Text) (is_stream : Bool)
    (r : Result RoutingError Resolved)
    → (resolve env.registry env.draw w.now w.selector directive).0 ≡ returned r
    → IsAnsweredOnce
        (resolve env.registry env.draw w.now w.selector directive).1
        directive
        (chat_completions env w directive body is_stream)
unfolding chat_completions chat_resolved forward_rewritten
chat_completions-answers env w directive body is_stream r h =
    subst
      (λ o. IsAnsweredOnce w₁.selector directive (
        chat_resolved env
          (record w { selector = (resolve env.registry env.draw w.now w.selector directive).1 })
          directive body is_stream o))
      (sym h) (by_result r)
  where
    w₁ : World
    w₁ = record w { selector = (resolve env.registry env.draw w.now w.selector directive).1 }

    rewritten :
        (resolved : Resolved) (out : Outcome) (b : Result Text Text)
        → IsAnsweredOnce w₁.selector directive
            (forward_rewritten env w₁ resolved directive is_stream out b)
    rewritten resolved out (err e) = (_, refl, (_, refl, tt, tt))
    rewritten resolved out (ok b) = elim (Bool-cases (is_empty resolved.alias_routing)) [
      | inl e ↦ rw e (
        _,
        refl,
        settle_single-IsSettled w₁.selector directive _
            (attempt-IsHonest env is_stream w₁ out _ _ _ _)
            (status-attempt env is_stream w₁ out _ _ _ _),
      )
      | inr e ↦ rw e (
          forward_with_retry-answers env w₁ resolved directive
            (upstream_body env.json is_stream resolved.provider b) is_stream out)
    ]

    by_result :
        (r : Result RoutingError Resolved)
        → IsAnsweredOnce w₁.selector directive
            (chat_resolved env w₁ directive body is_stream (returned r))
    by_result (err e) = turned_down w₁.selector directive _ e refl
    by_result (ok resolved) = rewritten resolved _ _
