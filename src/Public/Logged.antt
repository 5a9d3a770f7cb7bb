-- ===== src/Public/Logged.antt =====
-- internal/api/public: what is known of a chat request that was served.
use astreo_gateway.Base.{
  ◌∷◌, [], some, none, Option, Bool, false, ◌⊎◌, inl, inr, if◌then◌else◌, ◌∙◌, ap, sym, refl, ◌≡◌,
  ℕ, Text, ok,
}
use mathlib.Core.Path.{subst}
use astreo_gateway.Metrics.LogStore.{RequestLog, LogStore, append, snapshot, stamp}
use astreo_gateway.Metrics.LogStore.Ring.{IsRing, push_bounded, snapshot-append}
use astreo_gateway.Metrics.AccessLog.{
  Net, finish_entry, new_entry, recorded, fresh_recorder, client_ip_of,
}
use astreo_gateway.Proxy.Forward.{
  Env, World, Sent, IsWritten, is_header, header_panic, error_sent, response_sent, stream_sent,
}
use astreo_gateway.Public.{
  cut_off, has_panicked, Call, Served, Handled, answered, require_gateway_key, chat_handler, logged,
  admitted, serve_chat, read_request, attach_key, writes_of,
}
use astreo_gateway.Public.Outcomes.{IsEntryOf, IsHandled, Selects, chat_read-IsHandled}

-- the client got one thing, and the log one entry more
pub record IsAnswered (request_id key_id : Text) (call : Call) (logs : LogStore) (outcome : Served)
    : Type 0 where
  pub one : Sent
  pub written : IsWritten one
  pub answer : outcome.response ≡ answered (one ∷ [])
  pub entry : RequestLog
  pub of_request : IsEntryOf request_id key_id call entry
  pub shown : (snapshot outcome.logs).0 ≡ push_bounded logs.cap (snapshot logs).0 entry

-- the handler panicked at a code that `WriteHeader` does not take: the client got nothing, and the
-- log is as before
pub record IsCutOff (logs : LogStore) (handled : Option Handled) (outcome : Served) : Type 0 where
  pub result : Handled
  pub ends : handled ≡ some result
  pub code : ℕ
  pub panicked : result.sent ≡ header_panic code ∷ []
  pub invalid : is_header code ≡ false
  pub nothing : outcome.response ≡ cut_off
  pub unlogged : outcome.logs ≡ logs

-- how a request ends whose handler comes to `handled`
abbrev pub IsLogged : Text → Text → Call → LogStore → Option Handled → Option Served → Type 0
IsLogged request_id key_id call logs handled o =
    (outcome : Served) × (o ≡ some outcome)
    × (IsAnswered request_id key_id call logs outcome ⊎ IsCutOff logs handled outcome)

module _ (env : Env) (unmarshal_peek : Text → Option (Text × Bool)) (net : Net)
    (sha256_hex : Text → Text) where
  same_handled : (g f : Handled) → some g ≡ some f → g ≡ f
  same_handled g f e = cc

  served_once :
      (request_id key_id : Text) (call : Call) (start : ℕ) (logs : LogStore) (g : Handled)
      (s : Sent)
      → IsRing logs
      → IsEntryOf request_id key_id call g.entry
      → g.sent ≡ s ∷ []
      → IsWritten s
      → IsAnswered request_id key_id call logs (record {
        response = answered g.sent;
        logs =
            append request_id g.world.now logs
              (finish_entry (recorded fresh_recorder (writes_of g.sent)) start g.world.now g.entry);
        world = g.world;
      })
  unfolding finish_entry stamp
  served_once request_id key_id call start logs g s ring ours e written = record {
    one = s;
    written = written;
    answer = ap answered e;
    entry =
        stamp request_id g.world.now
          (finish_entry (recorded fresh_recorder (writes_of g.sent)) start g.world.now g.entry);
    of_request = record {
      request = ours.request;
      key = ours.key;
      method = ours.method;
      path = ours.path;
    };
    shown = snapshot-append request_id g.world.now logs _ ring;
  }

  logged-IsLogged :
      (request_id key_id : Text) (call : Call) (start : ℕ) (logs : LogStore) (o : Option Handled)
      → IsRing logs
      → IsHandled request_id key_id call o
      → IsLogged request_id key_id call logs o
          (logged env unmarshal_peek net sha256_hex request_id start logs o)
  unfolding logged has_panicked
  logged-IsLogged request_id key_id call start logs none ring h = cc
  logged-IsLogged request_id key_id call start logs (some g) ring h =
      (_, refl, by_sent h.one (ap (λ (x : Handled). x.sent) same ∙ h.sent) h.written)
    where
      same : g ≡ h.result
      same = same_handled g h.result h.ends

      ours : IsEntryOf request_id key_id call g.entry
      ours =
          subst (λ (x : Handled). IsEntryOf request_id key_id call x.entry) (sym same) h.of_request

      entered : RequestLog
      entered = finish_entry (recorded fresh_recorder (writes_of g.sent)) start g.world.now g.entry

      answered_as : Served
      answered_as = record {
        response = answered g.sent;
        logs = append request_id g.world.now logs entered;
        world = g.world;
      }

      broken : Served
      broken = record { response = cut_off; logs = logs; world = g.world }

      Ends : Bool → Type 0
      Ends b =
          IsAnswered request_id key_id call logs (if b then broken else answered_as)
          ⊎ IsCutOff logs (some g) (if b then broken else answered_as)

      answered_once :
          (s : Sent)
          → g.sent ≡ s ∷ []
          → IsWritten s
          → has_panicked (s ∷ []) ≡ false
          → Ends (has_panicked g.sent)
      answered_once s e written calm =
          subst Ends (sym (ap has_panicked e ∙ calm))
            (inl (served_once request_id key_id call start logs g s ring ours e written))

      by_sent : (s : Sent) → g.sent ≡ s ∷ [] → IsWritten s → Ends (has_panicked g.sent)
      by_sent (header_panic code) e written = subst Ends (sym (ap has_panicked e)) (
          inr (record {
            result = g;
            ends = refl;
            code = code;
            panicked = e;
            invalid = written;
            nothing = refl;
            unlogged = refl;
          }))
      by_sent (error_sent a b c) e written = answered_once (error_sent a b c) e written refl
      by_sent (response_sent a b c) e written = answered_once (response_sent a b c) e written refl
      by_sent (stream_sent a) e written = answered_once (stream_sent a) e written refl

  -- the entry that `AccessLog` begins with, once the gateway key is attached
  abbrev pub entry_of : Text → Text → World → Call → RequestLog
  entry_of request_id key_id w call = attach_key key_id (
      new_entry request_id w.now call.method call.path
        (client_ip_of net call.forwarded call.real_ip call.remote))

  -- A chat request with a valid gateway key ends in one of two ways, where the selection of a target
  -- does not panic. Its client is answered once, and the log has one entry more, behind those that
  -- were there: the request's own, with the ID of the key. Or `chatHandler` comes to the panic of
  -- `WriteHeader` at a code that it does not take: the client gets nothing, and the log is as before.
  pub serve_chat-IsLogged :
      (request_id key_id : Text) (w : World) (logs : LogStore) (call : Call)
      → require_gateway_key sha256_hex w.selector.db call.authorization ≡ ok key_id
      → Selects request_id key_id call env unmarshal_peek w
      → IsRing logs
      → IsLogged request_id key_id call logs
          (chat_handler env unmarshal_peek w key_id (entry_of request_id key_id w call) call.body)
          (serve_chat env unmarshal_peek net sha256_hex request_id w logs call)
  unfolding serve_chat admitted chat_handler new_entry
  serve_chat-IsLogged request_id key_id w logs call valid selects ring =
      subst
        (λ r.
          IsLogged request_id key_id call logs
            (chat_handler env unmarshal_peek w key_id (entry_of request_id key_id w call) call.body)
            (admitted env unmarshal_peek net sha256_hex request_id w logs call r))
        (sym valid)
        (logged-IsLogged request_id key_id call w.now logs
          (chat_handler env unmarshal_peek w key_id (entry_of request_id key_id w call) call.body)
          ring
          (chat_read-IsHandled request_id key_id call env unmarshal_peek w
            (attach_key key_id (entry_of request_id key_id w call)) (read_request call.body) selects
            (record { request = refl; key = refl; method = refl; path = refl })))
