-- ===== src/Proxy/Embeddings/Settled.antt =====
-- internal/proxy/embeddings.go: every request of embeddings ends, and how.
use astreo_gateway.Base.{
  length, if-holds, arith, ◌∷◌, [], List, some, none, Option, not, sym, refl, ◌≡◌, ◌<◌, ◌≤◌, suc,
  zero, ℕ, is_empty, Text, err, ok, Result,
}
use astreo_gateway.Proxy.Embeddings.{
  write_result, embed_step, after_turn, Embedded, Seeking, embed, embed_key, embed_single,
  embed_supported, embed_rewritten, embed_alias, Ending, embed_settle, embed_protocol, embeddings,
  embed_body, embed_retry, embed_next, embed_with_alias, embed_resolved,
}
use mathlib.Core.Path.{subst}
use astreo_gateway.Model.{Provider, Alias, AliasTarget}
use astreo_gateway.KeyPool.{Key, get}
use astreo_gateway.Protocol.{Protocol, protocol_of, Registry}
use astreo_gateway.Protocol.Urls.{Urls}
use astreo_gateway.Routing.{
  RoutingError, Resolved, returned, resolve, target_key, next_failover_target, lookup_alias,
}
use astreo_gateway.Routing.Failover.{next_failover_target_sound}
use astreo_gateway.Proxy.{Outcome, ForwardResult, should_failover, classify_result}
use astreo_gateway.Proxy.Embeddings.{
  Ending, ended, crashed, unselected, unfinished, Round, next, over,
}
use astreo_gateway.Proxy.Failover.Untried.{untried, untried-cons-lt, untried-le-length}
use astreo_gateway.Proxy.Forward.{World, Env, Sent, IsWritten, respond-IsWritten}
use astreo_gateway.Proxy.Attempts.{rewrite_model, write_json_response-IsWritten}
use astreo_gateway.Proxy.Chat.Total.{write_proxy_error-IsWritten}

-- one thing is sent, or `WriteHeader` panics at a code that it does not take, or the protocol of a
-- provider is not registered
abbrev pub IsSettled : Registry → Ending → Type 0
IsSettled reg (ended f) = (s : Sent) × (f.sent ≡ s ∷ []) × IsWritten s
IsSettled reg (crashed name) = protocol_of reg name ≡ none
IsSettled reg unselected = ⊥
IsSettled reg unfinished = ⊥

write_result-IsWritten : (r : ForwardResult) → IsWritten (write_result r)
unfolding write_result
write_result-IsWritten r = by_failure r.failure refl
  where
    by_failure : (o : Option Text) → r.failure ≡ o → IsWritten (write_result r)
    by_failure none e = rw e (respond-IsWritten r.status _ r.body)
    by_failure (some m) e = rw e tt

module _ (env : Env) (urls : Urls) where
  embed_single-IsSettled : (a : Embedded) → IsSettled env.registry (embed_single env urls a)
  unfolding embed_single
  embed_single-IsSettled a = by_failure a.result.failure refl
    where
      by_failure :
          (o : Option Text)
          → a.result.failure ≡ o
          → IsSettled env.registry (embed_single env urls a)
      by_failure none e = rw e (_, refl, write_json_response-IsWritten a.result)
      by_failure (some m) e = rw e (_, refl, tt)

  module _ (alias : Alias) (body : Text) where
    -- a round from a state with `bound` untried targets
    abbrev IsTurn : ℕ → Round → Type 0
    IsTurn bound (over e) = IsSettled env.registry e
    IsTurn bound (next s) = untried s.tried alias.targets ≤ bound

    embed_settle-IsTurn :
        (tried : List Text) (provider_id model_name : Text) (a : Embedded)
        → IsTurn
            (untried tried alias.targets)
            (embed_settle env urls tried provider_id model_name a)
    unfolding embed_settle
    embed_settle-IsTurn tried provider_id model_name a =
        if-holds (IsTurn (untried tried alias.targets))
          (not (should_failover (classify_result a.result))) _ _
          (λ _. (_, refl, write_result-IsWritten a.result)) (λ _. omega arith)

    embed_body-IsTurn :
        (s : Seeking) (t : AliasTarget) (p : Provider) (key : Key) (r : Result Text Text)
        → IsTurn (untried s.tried alias.targets) (embed_body env urls alias body s t p key r)
    unfolding embed_body
    embed_body-IsTurn s t p key (err e) = omega arith
    embed_body-IsTurn s t p key (ok b) =
        embed_settle-IsTurn s.tried p.id t.model_name
          (embed env urls s.world s.out p key t.model_name b)

    embed_key-IsTurn :
        (s : Seeking) (t : AliasTarget) (p : Provider) (o : Option Key)
        → IsTurn (untried s.tried alias.targets) (embed_key env urls alias body s t p o)
    unfolding embed_key
    embed_key-IsTurn s t p none = omega arith
    embed_key-IsTurn s t p (some key) =
        embed_body-IsTurn s t p key (rewrite_model env.json body t.model_name)

    embed_protocol-IsTurn :
        (s : Seeking) (t : AliasTarget) (p : Provider) (o : Option Protocol)
        → protocol_of env.registry p.protocol ≡ o
        → IsTurn (untried s.tried alias.targets) (embed_protocol env urls alias body s t p o)
    unfolding embed_protocol
    embed_protocol-IsTurn s t p none e = e
    embed_protocol-IsTurn s t p (some proto) e =
        if-holds (IsTurn (untried s.tried alias.targets)) proto.supports_embeddings _ _
          (λ _. embed_key-IsTurn s t p (get s.world.selector.pool t.provider_id s.world.now))
          (λ _. omega arith)

    -- a round tries a target that has not been tried
    abbrev IsRound : ℕ → Round → Type 0
    IsRound bound (over e) = IsSettled env.registry e
    IsRound bound (next s) = untried s.tried alias.targets < bound

    fewer : (n m : ℕ) (r : Round) → n < m → IsTurn n r → IsRound m r
    fewer n m (over e) less h = h
    fewer n m (next s) less h = omega (arith, less, h)

    embed_next-IsRound :
        (s : Seeking) (r : Result RoutingError (AliasTarget × Provider))
        → next_failover_target s.world.selector alias s.tried ≡ r
        → IsRound (untried s.tried alias.targets) (embed_next env urls alias body s r)
    unfolding embed_next
    embed_next-IsRound s (err e) read = (_, refl, write_result-IsWritten s.result)
    embed_next-IsRound s (ok (t, p)) read =
        let (listed, fresh, _, _, _) =
          next_failover_target_sound s.world.selector alias s.tried t p read in
        fewer (untried (target_key t.provider_id t.model_name ∷ s.tried) alias.targets)
          (untried s.tried alias.targets) _ (untried-cons-lt t s.tried alias.targets listed fresh)
          (embed_protocol-IsTurn
            (record s { tried = target_key t.provider_id t.model_name ∷ s.tried }) t p
            (protocol_of env.registry p.protocol) refl)

    embed_retry-IsSettled :
        (fuel : ℕ) (s : Seeking)
        → untried s.tried alias.targets < fuel
        → IsSettled env.registry (embed_retry env urls alias body fuel s)
    unfolding embed_retry embed_step after_turn
    embed_retry-IsSettled zero s h = elim h [ ]
    embed_retry-IsSettled (suc fuel) s h =
        by_turn (embed_step env urls alias body s)
          (embed_next-IsRound s (next_failover_target s.world.selector alias s.tried) refl)
          (λ t less. embed_retry-IsSettled fuel t less)
      where
        by_turn :
            (r : Round)
            → IsRound (untried s.tried alias.targets) r
            → ((t : Seeking)
                → untried t.tried alias.targets < fuel
                → IsSettled env.registry (embed_retry env urls alias body fuel t))
            → IsSettled env.registry
                (after_turn env urls alias body (λ t. embed_retry env urls alias body fuel t) r)
        by_turn (over e) settled rest = settled
        by_turn (next t) less rest = rest t (omega (arith, less, h))

    embed_alias-IsSettled :
        (w : World) (r : Resolved) (out : Outcome)
        → IsSettled env.registry (embed_alias env urls alias body w r out)
    unfolding embed_alias after_turn
    embed_alias-IsSettled w r out = by_turn _ (
        embed_settle-IsTurn (target_key r.provider.id r.model_name ∷ []) r.provider.id r.model_name
          (embed env urls w (record out { alias_name = alias.name }) r.provider r.api_key
            r.model_name body))
      where
        first : List Text
        first = target_key r.provider.id r.model_name ∷ []

        by_turn :
            (t : Round)
            → IsTurn (untried first alias.targets) t
            → IsSettled env.registry (
                after_turn env urls alias body
                  (λ s. embed_retry env urls alias body (suc (length alias.targets)) s)
                  t)
        by_turn (over e) settled = settled
        by_turn (next s) bounded =
            embed_retry-IsSettled (suc (length alias.targets)) s
              (omega (arith, bounded, untried-le-length first alias.targets))

  embed_with_alias-IsSettled :
      (w : World) (r : Resolved) (body : Text) (out : Outcome) (o : Result Text (Option Alias))
      → IsSettled env.registry (embed_with_alias env urls w r body out o)
  unfolding embed_with_alias
  embed_with_alias-IsSettled w r body out (err e) = embed_single-IsSettled _
  embed_with_alias-IsSettled w r body out (ok none) = embed_single-IsSettled _
  embed_with_alias-IsSettled w r body out (ok (some alias)) =
      embed_alias-IsSettled alias body w r out

  embed_rewritten-IsSettled :
      (w : World) (r : Resolved) (directive : Text) (out : Outcome) (o : Result Text Text)
      → IsSettled env.registry (embed_rewritten env urls w r directive out o)
  unfolding embed_rewritten
  embed_rewritten-IsSettled w r directive out (err e) = (_, refl, tt)
  embed_rewritten-IsSettled w r directive out (ok body) =
      if-holds (IsSettled env.registry) (is_empty r.alias_routing) _ _
        (λ _. embed_single-IsSettled (embed env urls w out r.provider r.api_key r.model_name body))
        (λ _. embed_with_alias-IsSettled w r body out (lookup_alias w.selector directive))

  embed_supported-IsSettled :
      (w : World) (r : Resolved) (directive body : Text) (out : Outcome) (o : Option Protocol)
      → protocol_of env.registry r.provider.protocol ≡ o
      → IsSettled env.registry (embed_supported env urls w r directive body out o)
  unfolding embed_supported
  embed_supported-IsSettled w r directive body out none e = e
  embed_supported-IsSettled w r directive body out (some proto) e =
      if-holds (IsSettled env.registry) proto.supports_embeddings _ _
        (λ _.
          embed_rewritten-IsSettled w r directive out (rewrite_model env.json body r.model_name))
        (λ _. (_, refl, tt))

  embed_resolved-IsSettled :
      (w : World) (directive body : Text) (r : Result RoutingError Resolved)
      → IsSettled env.registry (embed_resolved env urls w directive body (returned r))
  unfolding embed_resolved
  embed_resolved-IsSettled w directive body (err e) = (_, refl, write_proxy_error-IsWritten e)
  embed_resolved-IsSettled w directive body (ok r) =
      if-holds (IsSettled env.registry) (is_empty r.provider.protocol) _ _ (λ _. (_, refl, tt))
        (λ _.
          embed_supported-IsSettled w r directive body _
            (protocol_of env.registry r.provider.protocol) refl)

  -- Where the selection of a target does not panic, `Embeddings` ends: it sends its client exactly one
  -- thing, or it panics, at a provider whose protocol is not registered, or in `WriteHeader` at a code
  -- that it does not take, with which nothing is sent.
  pub embeddings-IsSettled :
      (w : World) (directive body : Text) (r : Result RoutingError Resolved)
      → (resolve env.registry env.draw w.now w.selector directive).0 ≡ returned r
      → IsSettled env.registry (embeddings env urls w directive body)
  unfolding embeddings
  embeddings-IsSettled w directive body r h =
      subst (λ o. IsSettled env.registry (embed_resolved env urls after directive body o)) (sym h)
        (embed_resolved-IsSettled after directive body r)
    where
      after : World
      after = record w { selector = (resolve env.registry env.draw w.now w.selector directive).1 }
