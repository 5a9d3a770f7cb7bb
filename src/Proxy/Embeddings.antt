-- ===== src/Proxy/Embeddings.antt =====
-- internal/proxy/embeddings.go: `Embeddings`, from a directive to the client's response.
pub mod Settled
use astreo_gateway.Base.{
  length, if◌then◌else◌, ◌++◌, ◌∷◌, [], List, some, none, Option, not, false, true, ◌-◌, suc, zero,
  ℕ, is_empty, codes, Text, err, ok, Result,
}
use astreo_gateway.Model.{Provider, Alias, AliasTarget}
use astreo_gateway.KeyPool.{Key, get}
use astreo_gateway.Protocol.{Protocol, Body, protocol_of}
use astreo_gateway.Protocol.Urls.{Urls, build_embeddings_url}
use astreo_gateway.Routing
use astreo_gateway.Routing.{
  RoutingError, Resolved, returned, panicked, resolve, target_key, next_failover_target,
  lookup_alias,
}
use astreo_gateway.Proxy.{
  append_attempt, ForwardResult, Outcome, should_failover, should_soft_stale, classify_result,
}
use astreo_gateway.Proxy.Forward.{
  World, Env, Sent, error_sent, respond, Exchange, bad_request, no_reply, replied, failed_with,
  replied_with, cool_key,
}
use astreo_gateway.Proxy.Attempts.{
  rewrite_model, write_json_response, Finished, bad_gateway, mark_soft_stale,
}
use astreo_gateway.Proxy.Chat.{proxy_error_status, write_proxy_error, empty_outcome}

-- an attempt: its result, the world and the outcome after it
pub record Embedded : Type 0 where
  pub result : ForwardResult
  pub world : World
  pub out : Outcome

-- the state of the failover loop
pub record Seeking : Type 0 where
  pub world : World
  pub tried : List Text
  pub result : ForwardResult
  pub out : Outcome

-- `crashed` is the panic of a provider's protocol that is not registered, `unselected` one in the
-- selection of a target, `unfinished` fuel that has run out
pub data Ending : Type 0 where
  ended : Finished → Ending
  crashed : Text → Ending
  unselected unfinished : Ending

pub data Round : Type 0 where
  next : Seeking → Round
  over : Ending → Round

abbrev pub finish : World → Outcome → Sent → Finished
finish w out s = record { out = out; sent = s ∷ []; world = w }

-- `writeResult`
unfoldable pub write_result : ForwardResult → Sent
unfolding respond
write_result r = elim r.failure [
  | some e ↦ error_sent 502 (codes "upstream_error") e
  | none ↦ respond r.status ((codes "Content-Type", codes "application/json") ∷ []) r.body
]

-- `bufferJSON`
buffer_json : ℕ → List (Text × Text) → Body → ForwardResult
buffer_json status header body = elim body.failure [
  | some e ↦ failed_with status (codes "read body: " ++ e)
  | none ↦ replied_with status body.bytes (some header)
]

received : Env → Provider → Key → Exchange → World → ForwardResult × World
unfolding buffer_json
received env prov key (bad_request e) w = (failed_with 0 (codes "new request: " ++ e), w)
received env prov key (no_reply true e) w = (failed_with 504 (codes "upstream timeout"), w)
received env prov key (no_reply false e) w = (failed_with 0 (codes "upstream request: " ++ e), w)
received env prov key (replied status header body) w =
    (buffer_json status header body, cool_key env prov key status w)

module _ (env : Env) (urls : Urls) where
  -- `forwardOpenAIEmbeddings`
  unfoldable pub forward_embeddings : World → Provider → Key → Text → ForwardResult × World
  unfolding received build_embeddings_url
  forward_embeddings w prov key body =
      let (reply, later) = env.exchange w (record {
        url = build_embeddings_url urls prov.base_url;
        headers =
            (codes "Content-Type", codes "application/json")
            ∷ (codes "Authorization", codes "Bearer " ++ key.value)
            ∷ prov.headers;
        body = body;
      }) in
      received env prov key reply later

  -- an attempt, and `appendAttempt`
  unfoldable pub embed : World → Outcome → Provider → Key → Text → Text → Embedded
  unfolding forward_embeddings
  embed w out prov key model body =
      let (r, later) = forward_embeddings w prov key body in
      record {
        result = r;
        world = later;
        out = append_attempt env.json out prov.slug model key.id r (later.now - w.now);
      }

  -- the end of a request that has one attempt only
  unfoldable pub embed_single : Embedded → Ending
  embed_single a = ended (elim a.result.failure [
    | some e ↦ finish a.world (bad_gateway a.out) (error_sent 502 (codes "upstream_error") e)
    | none ↦ finish a.world a.out (write_json_response a.result)
  ])

  -- after an attempt of the loop
  unfoldable pub embed_settle : List Text → Text → Text → Embedded → Round
  unfolding write_result
  embed_settle tried provider_id model_name a =
      if not (should_failover (classify_result a.result))
      then over (ended (finish a.world a.out (write_result a.result)))
      else next (record {
        world =
            if should_soft_stale (classify_result a.result)
            then mark_soft_stale a.world provider_id model_name
            else a.world;
        tried = tried;
        result = a.result;
        out = a.out;
      })

  module _ (alias : Alias) (body : Text) where
    unfoldable pub embed_body : Seeking → AliasTarget → Provider → Key → Result Text Text → Round
    unfolding embed_settle embed
    embed_body s t p key (err _) = next s
    embed_body s t p key (ok b) =
        embed_settle s.tried p.id t.model_name (embed s.world s.out p key t.model_name b)

    unfoldable pub embed_key : Seeking → AliasTarget → Provider → Option Key → Round
    unfolding embed_body
    embed_key s t p none = next s
    embed_key s t p (some key) = embed_body s t p key (rewrite_model env.json body t.model_name)

    unfoldable pub embed_protocol : Seeking → AliasTarget → Provider → Option Protocol → Round
    unfolding embed_key
    embed_protocol s t p none = over (crashed p.protocol)
    embed_protocol s t p (some proto) =
        if proto.supports_embeddings
        then embed_key s t p (get s.world.selector.pool t.provider_id s.world.now)
        else next s

    unfoldable pub embed_next : Seeking → Result RoutingError (AliasTarget × Provider) → Round
    unfolding embed_protocol write_result
    embed_next s (err _) = over (ended (finish s.world s.out (write_result s.result)))
    embed_next s (ok (t, p)) =
        embed_protocol (record s { tried = target_key t.provider_id t.model_name ∷ s.tried }) t p
          (protocol_of env.registry p.protocol)

    -- one round of the loop
    unfoldable pub embed_step : Seeking → Round
    unfolding embed_next
    embed_step s = embed_next s (next_failover_target s.world.selector alias s.tried)

    unfoldable pub after_turn : (Seeking → Ending) → Round → Ending
    after_turn go (over e) = e
    after_turn go (next s) = go s

    unfoldable pub embed_retry : ℕ → Seeking → Ending
    unfolding after_turn embed_step
    embed_retry zero s = unfinished
    embed_retry (suc fuel) s = after_turn (λ t. embed_retry fuel t) (embed_step s)

    -- the first attempt, and the loop after it
    unfoldable pub embed_alias : World → Resolved → Outcome → Ending
    unfolding after_turn embed_retry embed_settle embed
    embed_alias w r out =
        after_turn (λ s. embed_retry (suc (length alias.targets)) s)
          (embed_settle (target_key r.provider.id r.model_name ∷ []) r.provider.id r.model_name (
            embed w (record out { alias_name = alias.name }) r.provider r.api_key r.model_name
              body))

  unfoldable pub embed_with_alias :
      World → Resolved → Text → Outcome → Result Text (Option Alias) → Ending
  unfolding embed_alias embed_single embed
  embed_with_alias w r body out (ok (some alias)) = embed_alias alias body w r out
  embed_with_alias w r body out _ =
      embed_single (embed w out r.provider r.api_key r.model_name body)

  abbrev pub turn_down : World → Outcome → Text → Ending
  turn_down w out message = ended (
      finish w (record out { status = 400; error_class = codes "client" })
        (error_sent 400 (codes "invalid_request") message))

  unfoldable pub embed_rewritten : World → Resolved → Text → Outcome → Result Text Text → Ending
  unfolding embed_with_alias embed_single embed
  embed_rewritten w r directive out (err e) = turn_down w out e
  embed_rewritten w r directive out (ok body) =
      if is_empty r.alias_routing
      then embed_single (embed w out r.provider r.api_key r.model_name body)
      else embed_with_alias w r body out (lookup_alias w.selector directive)

  unfoldable pub embed_supported :
      World → Resolved → Text → Text → Outcome → Option Protocol → Ending
  unfolding embed_rewritten
  embed_supported w r directive body out none = crashed r.provider.protocol
  embed_supported w r directive body out (some proto) =
      if proto.supports_embeddings
      then embed_rewritten w r directive out (rewrite_model env.json body r.model_name)
      else turn_down w out (codes "protocol does not support embeddings")

  unfoldable pub embed_resolved : World → Text → Text → Routing.Outcome Resolved → Ending
  unfolding embed_supported
  embed_resolved w directive body panicked = unselected
  embed_resolved w directive body (returned (err e)) = ended (
      finish w
        (record (empty_outcome false) {
          status = proxy_error_status e;
          error_class = codes "resolve";
        })
        (write_proxy_error e))
  embed_resolved w directive body (returned (ok r)) =
      let out = record (empty_outcome false) {
        provider_slug = r.provider.slug;
        model_name = r.model_name;
      } in
      if is_empty r.provider.protocol
      then turn_down w out (codes "protocol does not support embeddings")
      else embed_supported w r directive body out (protocol_of env.registry r.provider.protocol)

  -- `Embeddings`
  unfoldable pub embeddings : World → Text → Text → Ending
  unfolding embed_resolved
  embeddings w directive body =
      let (resolution, selector) = resolve env.registry env.draw w.now w.selector directive in
      embed_resolved (record w { selector = selector }) directive body resolution
