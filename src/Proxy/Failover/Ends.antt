-- ===== src/Proxy/Failover/Ends.antt =====
-- The failover loop ends, within bounds, with one answer to its client or a panic of `WriteHeader`.
use astreo_gateway.Base.{
  length, Bool-cases, arith, append-nil, ◌++◌, ◌∷◌, [], List, some, none, Option, Bool, inr, inl,
  ◌∙◌, ap, refl, ◌≡◌, ◌<◌, ◌≤◌, ◌+◌, suc, zero, ℕ, Text, err, ok, Result,
}
use astreo_gateway.Proxy.Forward.Honest.{IsHonest}
use astreo_gateway.Proxy.Failover.Untried.{untried, untried-cons-lt}
use mathlib.Core.Path.{subst}
use astreo_gateway.Model.{Provider, Alias, AliasTarget}
use astreo_gateway.KeyPool.{Key, get}
use astreo_gateway.Routing.{RoutingError, target_key, next_failover_target}
use astreo_gateway.Routing.Failover.{next_failover_target_sound}
use astreo_gateway.Proxy.{should_failover, classify_result}
use astreo_gateway.Proxy.Forward.{stream_sent, Sent, Env, IsWritten}
use astreo_gateway.Proxy.Attempts.Laws.{
  length-attempts-attempt, length-attempts-finish_stream, attempt-IsHonest,
}
use astreo_gateway.Proxy.Attempts.{
  write_json_response, write_json_response-IsWritten, rewrite_model, upstream_body, Tried, attempt,
  Finished, finish_stream,
}
use astreo_gateway.Proxy.Failover.{
  Loop, Step, again, done, keep_trying, settle, with_body, with_key, with_next, step, retry,
  after_step,
}

-- A round that goes on from `l` to `next` has tried one target more, made at most one attempt, and
-- written nothing to the client.
pub record IsProgress (targets : List AliasTarget) (l next : Loop) : Type 0 where
  pub fewer : untried next.tried targets < untried l.tried targets
  pub one_more : length next.out.attempts ≤ length l.out.attempts + 1
  pub unwritten : next.sent ≡ l.sent

-- `f` has sent one thing beyond `before`
abbrev pub IsOneAnswer : List Sent → Finished → Type 0
IsOneAnswer before f = (s : Sent) × (f.sent ≡ before ++ s ∷ []) × IsWritten s

-- the end of a round from `l`: at most one attempt, and one answer to the client
pub record IsAnswered (l : Loop) (f : Finished) : Type 0 where
  pub one_more : length f.out.attempts ≤ length l.out.attempts + 1
  pub answer : IsOneAnswer l.sent f

again_eq : {a b : Loop} → again a ≡ again b → a ≡ b
again_eq h = cc

done_eq : {a b : Finished} → done a ≡ done b → a ≡ b
done_eq h = cc

module _ (l : Loop) (provider_id model_name : Text) (t : Tried)
    (honest : IsHonest t.attempted) where
  pub settle-again :
      {next : Loop}
      → settle l provider_id model_name t ≡ again next
      → (next.tried ≡ l.tried) × (next.out ≡ t.out) × (next.sent ≡ l.sent)
  unfolding settle keep_trying
  settle-again {next} h = elim (Bool-cases t.attempted.result.wrote) [
    | inl e ↦ absurd (ground arith)
    | inr e ↦ elim (Bool-cases (should_failover (classify_result t.attempted.result))) [
      | inr c ↦ absurd (ground arith)
      | inl c ↦
          let same : keep_trying l provider_id model_name t ≡ next = again_eq (ground arith) in
          rw (← same, honest.silent e) (refl, refl, append-nil l.sent)
    ]
  ]

  pub settle-done :
      {f : Finished}
      → length t.out.attempts ≡ length l.out.attempts + 1
      → settle l provider_id model_name t ≡ done f
      → IsAnswered l f
  unfolding settle
  settle-done {f} count h = elim (Bool-cases t.attempted.result.wrote) [
    | inl e ↦
        let (chunks, spoken) = honest.spoken e in
        let same : record (finish_stream t) { sent = l.sent ++ t.attempted.sent } ≡ f =
          done_eq (ground arith) in
        subst (IsAnswered l) same (record {
          one_more = omega (arith, length-attempts-finish_stream t, count);
          answer = (stream_sent chunks, ap (λ x. l.sent ++ x) spoken, tt);
        })
    | inr e ↦ elim (Bool-cases (should_failover (classify_result t.attempted.result))) [
      | inl c ↦ absurd (ground arith)
      | inr c ↦
          let answer : Sent = write_json_response t.attempted.result in
          let ended : Finished = record {
            out = t.out;
            sent = l.sent ++ (t.attempted.sent ++ answer ∷ []);
            world = t.attempted.world;
          } in
          let same : ended ≡ f = done_eq (ground arith) in
          subst (IsAnswered l) same (record {
            one_more = omega (arith, count);
            answer = (
              answer,
              ap (λ x. l.sent ++ (x ++ answer ∷ [])) (honest.silent e),
              write_json_response-IsWritten t.attempted.result,
            );
          })
    ]
  ]

-- the loop state of a round that has marked its target's key
abbrev mark_tried : Loop → AliasTarget → Loop
mark_tried l t = record l { tried = target_key t.provider_id t.model_name ∷ l.tried }

module _ (env : Env) (alias : Alias) (is_stream : Bool) (body : Text) where
  with_key-again :
      (l : Loop) (t : AliasTarget) (p : Provider) (o : Option Key) {next : Loop}
      → with_key env alias is_stream body l t p o ≡ again next
      → (next.tried ≡ l.tried)
        × (length next.out.attempts ≤ length l.out.attempts + 1)
        × (next.sent ≡ l.sent)
  unfolding with_key with_body
  with_key-again l t p none h = rw (← again_eq h) (refl, omega arith, refl)
  with_key-again l t p (some key) h = by_body (rewrite_model env.json body t.model_name) h
    where
      by_body :
          (r : Result Text Text) {next : Loop}
          → with_body env alias is_stream body l t p key r ≡ again next
          → (next.tried ≡ l.tried)
            × (length next.out.attempts ≤ length l.out.attempts + 1)
            × (next.sent ≡ l.sent)
      by_body (err e) h = rw (← again_eq h) (refl, omega arith, refl)
      by_body (ok b) h =
          let model_body : Text = upstream_body env.json is_stream p b in
          let (tried, out, sent) =
            settle-again l p.id t.model_name
              (attempt env is_stream l.world l.out p key t.model_name model_body)
              (attempt-IsHonest env is_stream l.world l.out p key t.model_name model_body) h in
          (
            tried,
            rw out (
                omega (
                  arith,
                  length-attempts-attempt env is_stream l.world l.out p key t.model_name model_body,
                )),
            sent,
          )

  with_key-done :
      (l : Loop) (t : AliasTarget) (p : Provider) (o : Option Key) {f : Finished}
      → with_key env alias is_stream body l t p o ≡ done f
      → IsAnswered l f
  unfolding with_key with_body
  with_key-done l t p none h = cc
  with_key-done l t p (some key) h = by_body (rewrite_model env.json body t.model_name) h
    where
      by_body :
          (r : Result Text Text) {f : Finished}
          → with_body env alias is_stream body l t p key r ≡ done f
          → IsAnswered l f
      by_body (err e) h = cc
      by_body (ok b) h =
          let model_body : Text = upstream_body env.json is_stream p b in
          settle-done l p.id t.model_name
            (attempt env is_stream l.world l.out p key t.model_name model_body)
            (attempt-IsHonest env is_stream l.world l.out p key t.model_name model_body)
            (length-attempts-attempt env is_stream l.world l.out p key t.model_name model_body) h

  with_next-again :
      (l : Loop) (r : Result RoutingError (AliasTarget × Provider)) {next : Loop}
      → next_failover_target l.world.selector alias l.tried ≡ r
      → with_next env alias is_stream body l r ≡ again next
      → IsProgress alias.targets l next
  unfolding with_next
  with_next-again l (err e) read h = cc
  with_next-again l (ok (t, p)) {next} read h =
      let (listed, fresh, _, _, _) =
        next_failover_target_sound l.world.selector alias l.tried t p read in
      let (tried, count, sent) =
        with_key-again (mark_tried l t) t p (get l.world.selector.pool t.provider_id l.world.now)
          h in
      record {
        fewer = rw tried (untried-cons-lt t l.tried alias.targets listed fresh);
        one_more = count;
        unwritten = sent;
      }

  -- The end of the loop from `l`, whatever it does on the way: at most one attempt for each untried
  -- target, and one answer to the client.
  pub record IsEnd (l : Loop) (f : Finished) : Type 0 where
    pub bounded : length f.out.attempts ≤ length l.out.attempts + untried l.tried alias.targets
    pub answer : IsOneAnswer l.sent f

  with_next-done :
      (l : Loop) (r : Result RoutingError (AliasTarget × Provider)) {f : Finished}
      → next_failover_target l.world.selector alias l.tried ≡ r
      → with_next env alias is_stream body l r ≡ done f
      → IsEnd l f
  unfolding with_next
  with_next-done l (err e) read h = rw (← done_eq h) (record {
    bounded = omega arith;
    answer = (write_json_response l.result, refl, write_json_response-IsWritten l.result);
  })
  with_next-done l (ok (t, p)) read h =
      let (listed, fresh, _, _, _) =
        next_failover_target_sound l.world.selector alias l.tried t p read in
      let a =
        with_key-done (mark_tried l t) t p (get l.world.selector.pool t.provider_id l.world.now)
          h in
      record {
        bounded = omega (arith, a.one_more, untried-cons-lt t l.tried alias.targets listed fresh);
        answer = a.answer;
      }

  retry-again :
      (fuel : ℕ) (l next : Loop)
      → step env alias is_stream body l ≡ again next
      → retry env alias is_stream body (suc fuel) l ≡ retry env alias is_stream body fuel next
  unfolding retry after_step
  retry-again fuel l next e =
      ap (after_step env alias is_stream body (λ n. retry env alias is_stream body fuel n)) e

  -- With more fuel than there are untried targets, the loop ends; it makes at most one attempt for
  -- each of them, and sends its client one thing.
  pub retry-IsEnd :
      (fuel : ℕ) (l : Loop)
      → untried l.tried alias.targets < fuel
      → (f : Finished) × (retry env alias is_stream body fuel l ≡ some f) × IsEnd l f
  unfolding retry after_step step
  retry-IsEnd zero l h = elim h [ ]
  retry-IsEnd (suc fuel) l h =
      by_step (step env alias is_stream body l) refl (λ next less. retry-IsEnd fuel next less)
    where
      by_step :
          (s : Step)
          → step env alias is_stream body l ≡ s
          → ((next : Loop)
              → untried next.tried alias.targets < fuel
              → (f : Finished) × (retry env alias is_stream body fuel next ≡ some f) × IsEnd next f)
          → (f : Finished) × (retry env alias is_stream body (suc fuel) l ≡ some f) × IsEnd l f
      by_step (done f) e rest = (
        f,
        ap (after_step env alias is_stream body (λ n. retry env alias is_stream body fuel n)) e,
        with_next-done l (next_failover_target l.world.selector alias l.tried) refl e,
      )
      by_step (again next) e rest =
          let p = with_next-again l (next_failover_target l.world.selector alias l.tried) refl e in
          let (f, ends, is_end) = rest next (omega (arith, p.fewer, h)) in
          (
            f,
            retry-again fuel l next e ∙ ends,
            record {
              bounded = omega (arith, p.fewer, p.one_more, is_end.bounded);
              answer = (
                is_end.answer.0,
                is_end.answer.1 ∙ ap (λ x. x ++ is_end.answer.0 ∷ []) p.unwritten,
                is_end.answer.2,
              );
            },
          )
