-- ===== src/Proxy/Failover.antt =====
-- internal/proxy/proxy.go: `forwardWithRetry`, which tries an alias's targets in turn.
pub mod Untried
pub mod Ends
pub mod Due
pub mod Total
use astreo_gateway.Base.{
  length, if◌then◌else◌, ◌++◌, ◌∷◌, [], List, some, none, Option, not, false, Bool, suc, zero, ℕ,
  Text, err, ok, Result,
}
use astreo_gateway.Model.{Provider, Alias, AliasTarget}
use astreo_gateway.KeyPool.{Key, get}
use astreo_gateway.Routing.{RoutingError, Resolved, target_key, next_failover_target, lookup_alias}
use astreo_gateway.Proxy.{
  ForwardResult, Outcome, should_failover, should_soft_stale, classify_result,
}
use astreo_gateway.Proxy.Forward.{World, Sent, Env}
use astreo_gateway.Proxy.Attempts.{
  rewrite_model, upstream_body, write_json_response, Tried, attempt, Finished, finish_stream,
  settle_single, mark_soft_stale,
}

-- the state of the loop between two targets: `tried` holds the keys of the map, newest first
pub record Loop : Type 0 where
  pub world : World
  pub tried : List Text
  pub result : ForwardResult
  pub out : Outcome
  pub sent : List Sent

pub data Step : Type 0 where
  again : Loop → Step
  done : Finished → Step

-- the result of an attempt that does not end the request: the loop goes on from it
unfoldable pub keep_trying : Loop → Text → Text → Tried → Loop
keep_trying l provider_id model_name t =
    let a = t.attempted in
    let w =
      if should_soft_stale (classify_result a.result)
      then mark_soft_stale a.world provider_id model_name
      else a.world in
    record { world = w; tried = l.tried; result = a.result; out = t.out; sent = l.sent ++ a.sent }

-- after an attempt: a stream that has begun and a result that needs no failover end the request
unfoldable pub settle : Loop → Text → Text → Tried → Step
unfolding keep_trying
settle l provider_id model_name t =
    let f = t.attempted.result in
    let before = l.sent in
    if f.wrote
    then done (record (finish_stream t) { sent = before ++ t.attempted.sent })
    else if not (should_failover (classify_result f))
    then done (record {
      out = t.out;
      sent = before ++ (t.attempted.sent ++ write_json_response f ∷ []);
      world = t.attempted.world;
    })
    else again (keep_trying l provider_id model_name t)

module _ (env : Env) (alias : Alias) (is_stream : Bool) (body : Text) where
  with_body : Loop → AliasTarget → Provider → Key → Result Text Text → Step
  with_body l t p key (err _) = again l
  with_body l t p key (ok b) = settle l p.id t.model_name (
      attempt env is_stream l.world l.out p key t.model_name (upstream_body env.json is_stream p b))

  with_key : Loop → AliasTarget → Provider → Option Key → Step
  unfolding with_body
  with_key l t p none = again l
  with_key l t p (some key) = with_body l t p key (rewrite_model env.json body t.model_name)

  unfoldable pub with_next : Loop → Result RoutingError (AliasTarget × Provider) → Step
  unfolding with_key
  with_next l (err _) =
      done (record {
        out = l.out;
        sent = l.sent ++ write_json_response l.result ∷ [];
        world = l.world;
      })
  with_next l (ok (t, p)) =
      with_key (record l { tried = target_key t.provider_id t.model_name ∷ l.tried }) t p
        (get l.world.selector.pool t.provider_id l.world.now)

  -- one round of the loop
  unfoldable pub step : Loop → Step
  unfolding with_next
  step l = with_next l (next_failover_target l.world.selector alias l.tried)

  unfoldable pub after_step : (Loop → Option Finished) → Step → Option Finished
  after_step go (done f) = some f
  after_step go (again l) = go l

  -- the loop; `none` is fuel that has run out
  unfoldable pub retry : ℕ → Loop → Option Finished
  retry zero l = none
  retry (suc fuel) l = after_step (λ next. retry fuel next) (step l)

  -- before the first attempt
  abbrev pub first_loop : World → Resolved → Outcome → Loop
  first_loop w resolved out = record {
    world = w;
    tried = target_key resolved.provider.id resolved.model_name ∷ [];
    result = record { status = 0; body = []; header = none; failure = none; wrote = false };
    out = record out { alias_name = alias.name };
    sent = [];
  }

  -- the attempt at the resolved target
  abbrev pub first_try : World → Resolved → Outcome → Tried
  first_try w resolved out =
      attempt env is_stream w (record out { alias_name = alias.name }) resolved.provider
        resolved.api_key resolved.model_name
        (upstream_body env.json is_stream resolved.provider body)

  -- the first attempt, and the loop after it
  unfoldable pub forward_alias : World → Resolved → Outcome → Option Finished
  forward_alias w resolved out =
      after_step (λ l. retry (suc (length alias.targets)) l)
        (settle (first_loop w resolved out) resolved.provider.id resolved.model_name
          (first_try w resolved out))

unfoldable pub with_alias :
    Env → World → Resolved → Text → Bool → Outcome → Result Text (Option Alias) → Option Finished
with_alias env w resolved body is_stream out (ok (some alias)) =
    forward_alias env alias is_stream body w resolved out
with_alias env w resolved body is_stream out _ = some (
    settle_single
      (attempt env is_stream w out resolved.provider resolved.api_key resolved.model_name body))

-- `forwardWithRetry`
unfoldable pub forward_with_retry :
    Env → World → Resolved → Text → Text → Bool → Outcome → Option Finished
unfolding with_alias
forward_with_retry env w resolved directive body is_stream out =
    with_alias env w resolved body is_stream out (lookup_alias w.selector directive)
