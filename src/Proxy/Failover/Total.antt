-- ===== src/Proxy/Failover/Total.antt =====
-- internal/proxy/proxy.go: what `forwardWithRetry` promises, and what it sends when its targets run
-- out.
use astreo_gateway.Base.{
  length, arith, ◌++◌, ◌∷◌, [], some, none, Option, false, true, Bool, inr, ◌∙◌, ap, refl, ◌≡◌, ◌≤◌,
  ◌+◌, suc, ℕ, Text, err, ok, Result,
}
use astreo_gateway.Proxy.Failover.Untried.{untried-cons-lt, untried, untried-le-length}
use astreo_gateway.Proxy.Forward.Honest.{IsHonest}
use astreo_gateway.Routing.Failover.{next_failover_target_sound}
use astreo_gateway.Proxy.Failover.Ends.{retry-IsEnd, settle-again, settle-done, IsOneAnswer}
use astreo_gateway.Proxy.Attempts.Laws.{status-attempt, length-attempts-attempt, attempt-IsHonest}
use astreo_gateway.Proxy.Attempts.{
  upstream_body, write_json_response, Tried, attempt, settle_single, Finished,
}
use astreo_gateway.Proxy.{ForwardResult, should_failover, classify_result, Outcome}
use astreo_gateway.Routing.{next_failover_target, RoutingError, target_key, lookup_alias, Resolved}
use astreo_gateway.Proxy.Failover.{
  keep_trying, with_next, step, settle, retry, Step, with_alias, first_try, first_loop,
  forward_with_retry, Loop, after_step, forward_alias,
}
use astreo_gateway.Model.{Provider, AliasTarget, Alias}
use astreo_gateway.Proxy.Forward.{
  respond, is_header, response_sent, header_panic, failed_with, error_sent, stream_sent, Sent,
  World, Env,
}
use astreo_gateway.Proxy.Failover.{done, again}
use astreo_gateway.Proxy.Failover.Due.{IsDue, IsSettled, settle_single-IsSettled}

module _ (env : Env) (alias : Alias) (is_stream : Bool) (body : Text) where
  -- the number of the alias's targets other than the resolved one
  abbrev pub others : Resolved → ℕ
  others resolved = untried (target_key resolved.provider.id resolved.model_name ∷ []) alias.targets

  -- For any alias, resolved target and world, the failover loop ends within the fuel given. It makes
  -- at most one attempt more than the alias has targets other than the resolved one. It comes to
  -- exactly one thing: a response, an error or a stream for the client, or the panic of `WriteHeader`
  -- at a code that it does not take, with which nothing is sent.
  pub forward_alias-IsEnd :
      (w : World) (resolved : Resolved) (out : Outcome)
      → (f : Finished) × (forward_alias env alias is_stream body w resolved out ≡ some f)
        × (length f.out.attempts ≤ length out.attempts + 1 + others resolved)
        × IsOneAnswer [] f
  unfolding forward_alias after_step
  forward_alias-IsEnd w resolved out =
      by_step (settle l resolved.provider.id resolved.model_name t) refl
    where
      l : Loop
      l = first_loop env alias is_stream body w resolved out

      t : Tried
      t = first_try env alias is_stream body w resolved out

      honest : IsHonest t.attempted
      honest = attempt-IsHonest env is_stream w l.out _ _ _ _

      count : length t.out.attempts ≡ length l.out.attempts + 1
      count = length-attempts-attempt env is_stream w l.out _ _ _ _

      go : Step → Option Finished
      go =
          after_step env alias is_stream body
            (λ n. retry env alias is_stream body (suc (length alias.targets)) n)

      by_step :
          (s : Step)
          → settle l resolved.provider.id resolved.model_name t ≡ s
          → (f : Finished) × (go (settle l resolved.provider.id resolved.model_name t) ≡ some f)
            × (length f.out.attempts ≤ length out.attempts + 1 + others resolved)
            × IsOneAnswer [] f
      by_step (done f) e =
          let a = settle-done l resolved.provider.id resolved.model_name t honest count e in
          (f, ap go e, omega (arith, a.one_more), a.answer)
      by_step (again next) e =
          let (tried, same, silent) =
            settle-again l resolved.provider.id resolved.model_name t honest e in
          let (f, ends, is_end) =
            retry-IsEnd env alias is_stream body (suc (length alias.targets)) next
              (omega (arith, untried-le-length next.tried alias.targets)) in
          let same_length : length next.out.attempts ≡ length out.attempts + 1 =
            ap (λ (o : Outcome). length o.attempts) same ∙ count in
          let left : untried next.tried alias.targets ≡ others resolved =
            ap (λ x. untried x alias.targets) tried in
          (
            f,
            ap go e ∙ ends,
            omega (arith, same_length, is_end.bounded, left),
            (
              is_end.answer.0,
              is_end.answer.1 ∙ ap (λ x. x ++ is_end.answer.0 ∷ []) silent,
              is_end.answer.2,
            ),
          )

  next-exhausted :
      (l : Loop)
      → untried l.tried alias.targets ≡ 0
      → (e : RoutingError) × (next_failover_target l.world.selector alias l.tried ≡ err e)
  next-exhausted l h = by_next (next_failover_target l.world.selector alias l.tried) refl
    where
      by_next :
          (r : Result RoutingError (AliasTarget × Provider))
          → next_failover_target l.world.selector alias l.tried ≡ r
          → (e : RoutingError) × (next_failover_target l.world.selector alias l.tried ≡ err e)
      by_next (err e) read = (e, read)
      by_next (ok (t, p)) read =
          let (listed, fresh, _, _, _) =
            next_failover_target_sound l.world.selector alias l.tried t p read in
          absurd (omega (arith, h, untried-cons-lt t l.tried alias.targets listed fresh))

  -- the end of a loop that has no target left
  abbrev exhausted : Loop → Finished
  exhausted l = record {
    out = l.out;
    sent = l.sent ++ write_json_response l.result ∷ [];
    world = l.world;
  }

  step-exhausted :
      (l : Loop)
      → untried l.tried alias.targets ≡ 0
      → step env alias is_stream body l ≡ done (exhausted l)
  unfolding step with_next
  step-exhausted l h =
      let (e, none_left) = next-exhausted l h in
      ap (λ r. with_next env alias is_stream body l r) none_left

  settle-failed :
      (l : Loop) (provider_id model_name : Text) (t : Tried) (e : Text)
      → t.attempted.result ≡ failed_with 0 e
      → settle l provider_id model_name t ≡ again (keep_trying l provider_id model_name t)
  unfolding settle classify_result should_failover keep_trying
  settle-failed l provider_id model_name t e failed =
      let unwritten : t.attempted.result.wrote ≡ false =
        ap (λ (r : ForwardResult). r.wrote) failed in
      let fails_over : should_failover (classify_result t.attempted.result) ≡ true =
        ap (λ r. should_failover (classify_result r)) failed in
      rw (unwritten, fails_over)

  -- Where an alias has no target beside the resolved one, and the only attempt fails before a reply
  -- (an error, no status, nothing written), `forwardWithRetry` calls `WriteHeader` with 0, which
  -- panics: the client is sent nothing.
  pub forward_alias-status :
      (w : World) (resolved : Resolved) (out : Outcome) (e : Text)
      → untried (target_key resolved.provider.id resolved.model_name ∷ []) alias.targets ≡ 0
      → (first_try env alias is_stream body w resolved out).attempted.result ≡ failed_with 0 e
      → (f : Finished) × (forward_alias env alias is_stream body w resolved out ≡ some f)
        × (f.sent ≡ header_panic 0 ∷ [])
  unfolding forward_alias after_step retry keep_trying write_json_response
      astreo_gateway.Proxy.Forward.respond astreo_gateway.Proxy.Forward.is_header
  forward_alias-status w resolved out e none_left failed =
      let first : Loop = first_loop env alias is_stream body w resolved out in
      let t : Tried = first_try env alias is_stream body w resolved out in
      let next : Loop = keep_trying first resolved.provider.id resolved.model_name t in
      let go =
        after_step env alias is_stream body
          (λ l. retry env alias is_stream body (suc (length alias.targets)) l) in
      let rest =
        after_step env alias is_stream body
          (λ l. retry env alias is_stream body (length alias.targets) l) in
      let honest =
        attempt-IsHonest env is_stream w first.out resolved.provider resolved.api_key
          resolved.model_name (upstream_body env.json is_stream resolved.provider body) in
      (
        exhausted next,
        ap go (settle-failed first resolved.provider.id resolved.model_name t e failed)
            ∙ ap rest (step-exhausted next none_left),
        ap (λ x. x ++ write_json_response t.attempted.result ∷ [])
              (honest.silent (ap (λ (r : ForwardResult). r.wrote) failed))
            ∙ ap (λ r. write_json_response r ∷ []) failed,
      )

-- `forwardWithRetry` ends, whatever the alias, the world and the network do, and comes to exactly one
-- thing, a panic of `WriteHeader` included.
pub forward_with_retry-answers :
    (env : Env) (w : World) (resolved : Resolved) (directive body : Text) (is_stream : Bool)
    (out : Outcome)
    → (f : Finished) × (forward_with_retry env w resolved directive body is_stream out ≡ some f)
      × IsSettled w.selector directive f
unfolding forward_with_retry
forward_with_retry-answers env w resolved directive body is_stream out =
    by_alias (lookup_alias w.selector directive) refl
  where
    single :
        (f : Finished) × (some (
            settle_single (
              attempt env is_stream w out resolved.provider resolved.api_key resolved.model_name
                body))
          ≡ some f)
        × IsSettled w.selector directive f
    single = (
      _,
      refl,
      settle_single-IsSettled w.selector directive _
          (attempt-IsHonest env is_stream w out _ _ _ body)
          (status-attempt env is_stream w out _ _ _ body),
    )

    by_alias :
        (r : Result Text (Option Alias))
        → lookup_alias w.selector directive ≡ r
        → (f : Finished) × (with_alias env w resolved body is_stream out r ≡ some f)
          × IsSettled w.selector directive f
    by_alias (err e) _ = single
    by_alias (ok none) _ = single
    by_alias (ok (some alias)) found =
        let (f, ends, bounded, answer) =
          forward_alias-IsEnd env alias is_stream body w resolved out in
        (f, ends, (answer.0, answer.1, answer.2, due f answer.0))
      where
        due : (f : Finished) (one : Sent) → IsDue w.selector directive f one
        due f (header_panic code) = inr (alias, found)
        due f (error_sent _ _ _) = tt
        due f (response_sent _ _ _) = tt
        due f (stream_sent _) = tt
