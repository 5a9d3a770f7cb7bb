-- ===== src/Proxy/Forward/Honest.antt =====
-- internal/proxy/proxy.go: what one attempt writes to the client.
use astreo_gateway.Base.{
  Option-cases, Bool-cases, if◌then◌else◌, ◌==◌, arith, ◌++◌, ◌∷◌, [], List, false, true, Bool, inr,
  inl, refl, ◌≡◌, ℕ, codes, Text, err, ok, Result,
}
use astreo_gateway.Protocol.Core.{ChatRequest}
use astreo_gateway.Model.{Provider}
use astreo_gateway.Protocol.{Protocol, Body, StreamOutput, protocol_of}
use astreo_gateway.KeyPool.{Key}
use astreo_gateway.Proxy.{ForwardResult}
use astreo_gateway.Proxy.Forward.{
  World, HttpRequest, Exchange, bad_request, no_reply, replied, stream_sent, Env, Attempted, unsent,
  cool_key, streamed, buffered, translated, after_exchange, forward_translated, forward,
  forward_once,
}

-- An attempt writes to the client exactly when its result says so, and then only the one stream.
pub record IsHonest (a : Attempted) : Type 0 where
  pub silent : a.result.wrote ≡ false → a.sent ≡ []
  pub spoken : a.result.wrote ≡ true → (chunks : List Text) × (a.sent ≡ stream_sent chunks ∷ [])

streamed-IsHonest : (o : StreamOutput) (w : World) → IsHonest (streamed o w)
unfolding streamed
streamed-IsHonest o w = elim (Option-cases o.failure) [
  | inl e ↦ rw e (record { silent = λ h. cc; spoken = λ _. (o.written, refl) })
  | inr (m, e) ↦ rw e (record { silent = λ h. cc; spoken = λ _. (o.written, refl) })
]

unsent-IsHonest : (r : ForwardResult) (w : World) → r.wrote ≡ false → IsHonest (unsent r w)
unsent-IsHonest r w h = record { silent = λ _. refl; spoken = λ e. cc }

buffered-wrote :
    (proto : Protocol) (model : Text) (status : ℕ) (header : List (Text × Text)) (body : Body)
    → (buffered proto model status header body).wrote ≡ false
unfolding buffered translated
buffered-wrote proto model status header body = ground arith

after_exchange-IsHonest :
    (env : Env) (proto : Protocol) (prov : Provider) (key : Key) (model : Text) (is_stream : Bool)
    (e : Exchange) (w : World)
    → IsHonest (after_exchange env proto prov key model is_stream e w)
unfolding after_exchange
after_exchange-IsHonest env proto prov key model is_stream (bad_request m) w =
    unsent-IsHonest _ w refl
after_exchange-IsHonest env proto prov key model is_stream (no_reply true m) w =
    unsent-IsHonest _ w refl
after_exchange-IsHonest env proto prov key model is_stream (no_reply false m) w =
    unsent-IsHonest _ w refl
after_exchange-IsHonest env proto prov key model is_stream (replied status header body) w =
    elim (Bool-cases (status == 200)) [
      | inr e ↦ rw e (unsent-IsHonest _ _ refl)
      | inl e ↦ rw e (by_mode is_stream)
    ]
  where
    cooled : World
    cooled = cool_key env prov key status w

    by_mode :
        (b : Bool)
        → IsHonest (
            if b
            then streamed (proto.translate_stream body model true) cooled
            else unsent (buffered proto model status header body) cooled)
    by_mode true = streamed-IsHonest _ _
    by_mode false = unsent-IsHonest _ _ (buffered-wrote proto model status header body)

-- An attempt that reports `wrote` has sent the client one stream and no more; one that does not has
-- sent it nothing.
pub forward_once-IsHonest :
    (env : Env) (w : World) (prov : Provider) (key : Key) (body : Text) (is_stream : Bool)
    → IsHonest (forward_once env w prov key body is_stream)
unfolding forward_once forward
forward_once-IsHonest env w prov key body is_stream =
    elim (Option-cases (protocol_of env.registry prov.protocol)) [
      | inl e ↦ rw e (unsent-IsHonest _ w refl)
      | inr (proto, e) ↦ rw e (translated_case proto (proto.translate_request body))
    ]
  where
    translated_case :
        (proto : Protocol) (r : Result Text (Text × ChatRequest))
        → IsHonest (forward_translated env w proto prov key is_stream r)
    translated_case proto (err m) = unsent-IsHonest _ w refl
    translated_case proto (ok (b, parsed)) =
        let sent : HttpRequest = record {
          url = (proto.chat_url prov.base_url parsed.model is_stream).0;
          headers =
              (codes "Content-Type", codes "application/json")
              ∷ (proto.auth_headers key.value ++ prov.headers);
          body = b;
        } in
        after_exchange-IsHonest env proto prov key parsed.model is_stream (env.exchange w sent).0
          (env.exchange w sent).1
