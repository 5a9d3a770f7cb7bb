-- ===== src/Proxy/Attempts.antt =====
-- internal/proxy/proxy.go and outcome.go: the bodies that go upstream, an attempt with its entry in
-- the outcome, and what the client is sent of its result.
pub mod Laws
use astreo_gateway.Json.{Json}
use astreo_gateway.Base.{
  ◌>>=◌, length, if◌then◌else◌, ◌==◌, ◌++◌, ◌∷◌, [], List, some, none, Option, ◌&&◌, not, Bool, ◌-◌,
  is_empty, codes, Text, ◌≐◌, wrap, err, ok, Result, insert, lookup,
}
use astreo_gateway.Model.{Provider}
use astreo_gateway.KeyPool.{Key}
use astreo_gateway.Discovery.{mark_runtime_stale}
use astreo_gateway.Proxy.{
  ForwardResult, Outcome, append_attempt, finalize_stream_outcome, has_failed,
}
use astreo_gateway.Proxy.Capture.{capture_all}
use astreo_gateway.Proxy.Forward.{
  World, Sent, Env, Attempted, forward_once, error_sent, respond, stream_sent, IsWritten,
  respond-IsWritten,
}

-- `rewriteModel`, on a body that its callers have read a model from, which is never `null`
unfoldable pub rewrite_model : Json → Text → Text → Result Text Text
rewrite_model json body model_name = do
  m ← wrap (codes "unmarshal body: ") (json.unmarshal_object body)
  quoted ← wrap (codes "marshal model: ") (json.marshal_string model_name)
  json.marshal_object (insert (codes "model") quoted m)

-- the pairs of `existing`, each set in `opts`
set_all : List (Text × Text) → List (Text × Text) → List (Text × Text)
set_all [] opts = opts
set_all ((k, v) ∷ rest) opts = set_all rest (insert k v opts)

stream_options : Json → Option Text → List (Text × Text)
unfolding set_all
stream_options json none = (codes "include_usage", codes "true") ∷ []
stream_options json (some raw) = elim (json.unmarshal_values raw) [
  | err _ ↦ (codes "include_usage", codes "true") ∷ []
  | ok existing ↦
      insert (codes "include_usage") (codes "true")
        (set_all existing ((codes "include_usage", codes "true") ∷ []))
]

-- the text, or the body where marshalling fails
abbrev or_body : Text → Result Text Text → Text
or_body body (ok b) = b
or_body body (err _) = body

with_options : Json → Text → List (Text × Text) → Result Text Text → Text
with_options json body m (err _) = body
with_options json body m (ok opts) =
    or_body body (json.marshal_object (insert (codes "stream_options") opts m))

include_usage_in : Json → Text → Result Text (List (Text × Text)) → Text
unfolding stream_options with_options
include_usage_in json body (err _) = body
include_usage_in json body (ok m) =
    with_options json body m
      (json.marshal_object (stream_options json (lookup (codes "stream_options") m)))

-- `ensureStreamIncludeUsage`
unfoldable pub ensure_stream_include_usage : Json → Text → Text
unfolding include_usage_in
ensure_stream_include_usage json body = include_usage_in json body (json.unmarshal_object body)

-- an OpenAI stream is asked for its token counts
unfoldable pub upstream_body : Json → Bool → Provider → Text → Text
upstream_body json is_stream prov body =
    if is_stream && prov.protocol ≐ codes "openai"
    then ensure_stream_include_usage json body
    else body

-- the header that `writeJSONResponse` copies, where the reply has it and it is not empty
copied : Text → Option Text → List (Text × Text)
copied name none = []
copied name (some v) = if is_empty v then [] else (name, v) ∷ []

header_of : Option (List (Text × Text)) → List (Text × Text)
header_of none = []
header_of (some h) = h

unfoldable pub response_headers : Option (List (Text × Text)) → List (Text × Text)
unfolding copied header_of
response_headers header =
    let content_type =
      copied (codes "Content-Type") (lookup (codes "Content-Type") (header_of header)) in
    let request_id =
      copied (codes "X-Request-Id") (lookup (codes "X-Request-Id") (header_of header)) in
    if length content_type == 0
    then request_id ++ (codes "Content-Type", codes "application/json") ∷ []
    else content_type ++ request_id

-- `writeJSONResponse`
unfoldable pub write_json_response : ForwardResult → Sent
unfolding respond
write_json_response r = respond r.status (response_headers r.header) r.body

pub write_json_response-IsWritten : (r : ForwardResult) → IsWritten (write_json_response r)
unfolding write_json_response
write_json_response-IsWritten r = respond-IsWritten r.status (response_headers r.header) r.body

chunks_of : List Sent → List Text
chunks_of [] = []
chunks_of (stream_sent chunks ∷ rest) = chunks ++ chunks_of rest
chunks_of (_ ∷ rest) = chunks_of rest

-- an attempt, with the outcome after it
pub record Tried : Type 0 where
  pub attempted : Attempted
  pub out : Outcome

capture_usage : Env → Bool → List Sent → Outcome → Outcome
unfolding chunks_of
capture_usage env is_stream sent out =
    let u =
      capture_all env.json env.trim (record { buf = []; prompt = 0; completion = 0 })
        (chunks_of sent) in
    if is_stream
    then record out { tokens_prompt = u.prompt; tokens_completion = u.completion }
    else out

unfoldable pub attempt : Env → Bool → World → Outcome → Provider → Key → Text → Text → Tried
unfolding capture_usage
attempt env is_stream w out prov key model body =
    let a = forward_once env w prov key body is_stream in
    record {
      attempted = a;
      out =
          capture_usage env is_stream a.sent
            (append_attempt env.json out prov.slug model key.id a.result (a.world.now - w.now));
    }

-- the end of a request: its outcome, what the client was sent, and the world
pub record Finished : Type 0 where
  pub out : Outcome
  pub sent : List Sent
  pub world : World

unfoldable pub finish_with : Tried → Sent → Finished
finish_with t s = record {
  out = t.out;
  sent = t.attempted.sent ++ s ∷ [];
  world = t.attempted.world;
}

unfoldable pub finish_stream : Tried → Finished
finish_stream t = record {
  out = finalize_stream_outcome t.out t.attempted.result;
  sent = t.attempted.sent;
  world = t.attempted.world;
}

abbrev pub bad_gateway : Outcome → Outcome
bad_gateway out = record out { status = 502; error_class = codes "down" }

unfoldable pub or_empty : Option Text → Text
or_empty none = []
or_empty (some e) = e

-- the end of a request that has one attempt only
unfoldable pub settle_single : Tried → Finished
unfolding finish_stream finish_with or_empty
settle_single t =
    let r = t.attempted.result in
    if has_failed r && not r.wrote
    then finish_with (record t { out = bad_gateway t.out })
        (error_sent 502 (codes "upstream_error") (or_empty r.failure))
    else if r.wrote
    then finish_stream t
    else finish_with t (write_json_response r)

-- `markSoftStale`
unfoldable pub mark_soft_stale : World → Text → Text → World
mark_soft_stale w provider_id model_name = record w {
  selector = record w.selector {
    cache = mark_runtime_stale w.selector.cache provider_id model_name w.now;
  };
}
