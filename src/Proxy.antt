-- ===== src/Proxy.antt =====
-- internal/proxy: what one upstream attempt came to, and what the request's outcome records.
pub mod Capture
pub mod Attempts
pub mod Forward
pub mod Failover
pub mod Chat
pub mod Embeddings
pub mod Examples
use astreo_gateway.Json.{Json}
use astreo_gateway.Base.{
  if◌then◌else◌, ◌==◌, leb, ◌++◌, ◌∷◌, [], List, some, none, Option, ◌||◌, ◌&&◌, not, false, true,
  Bool, ℕ, is_empty, codes, Text,
}

-- proxy.go: `failClass`
pub data FailClass : Type 0 where
  fail_none fail_down fail_rate fail_model_missing fail_auth fail_client : FailClass

unfoldable pub should_failover : FailClass → Bool
should_failover fail_none = false
should_failover fail_client = false
should_failover _ = true

unfoldable pub should_cooldown : FailClass → Bool
should_cooldown fail_rate = true
should_cooldown fail_down = true
should_cooldown _ = false

unfoldable pub should_soft_stale : FailClass → Bool
should_soft_stale fail_model_missing = true
should_soft_stale _ = false

-- outcome.go: `failClass.String`
unfoldable pub class_name : FailClass → Text
class_name fail_down = codes "down"
class_name fail_rate = codes "rate_limited"
class_name fail_model_missing = codes "model_missing"
class_name fail_auth = codes "auth"
class_name fail_client = codes "client"
class_name fail_none = []

-- `status` 0 is a result with no status, `header` is `none` where it is nil.
pub record ForwardResult : Type 0 where
  pub status : ℕ
  pub body : Text
  pub header : Option (List (Text × Text))
  pub failure : Option Text
  pub wrote : Bool

unfoldable pub classify_upstream : ℕ → FailClass
classify_upstream status =
    if status == 429
    then fail_rate
    else if leb 500 status
    then fail_down
    else if status == 404
    then fail_model_missing
    else if status == 401 || status == 403
    then fail_auth
    else if status == 400 || status == 422
    then fail_client
    else fail_none

unfoldable pub classify_result : ForwardResult → FailClass
unfolding classify_upstream
classify_result r = elim r.failure [ none ↦ classify_upstream r.status | some _ ↦ fail_down ]

abbrev pub has_failed : ForwardResult → Bool
has_failed r = elim r.failure [ none ↦ false | some _ ↦ true ]

-- outcome.go
pub record Attempt : Type 0 where
  pub provider_slug : Text
  pub model_name : Text
  pub key_id : Text
  pub status : ℕ
  pub fail_class : Text
  pub duration_ms : ℕ

pub record Outcome : Type 0 where
  pub provider_slug : Text
  pub model_name : Text
  pub alias_name : Text
  pub status : ℕ
  pub attempts : List Attempt
  pub tokens_prompt : ℕ
  pub tokens_completion : ℕ
  pub error_class : Text
  pub stream : Bool

unfoldable pub result_status : ForwardResult → ℕ
result_status r =
    if has_failed r && r.wrote
    then (if leb 400 r.status then r.status else 502)
    else if not (r.status == 0)
    then r.status
    else if has_failed r
    then 502
    else 0

-- the class that the log records: a stream that broke off is down
unfoldable pub logged_class : ForwardResult → FailClass
unfolding classify_result
logged_class r = elim (classify_result r) [
  | fail_none ↦ if has_failed r && r.wrote then fail_down else fail_none
  | c ↦ c
]

-- `parseUsage`
unfoldable pub parse_usage : Json → Text → ℕ × ℕ
parse_usage json body = elim (json.usage body) [ none ↦ (0, 0) | some u ↦ u ]

-- `r.status == 200 && r.err == nil && len(r.body) > 0`
abbrev reports_usage : ForwardResult → Bool
reports_usage r = r.status == 200 && (not (has_failed r) && not (is_empty r.body))

unfoldable pub append_attempt : Json → Outcome → Text → Text → Text → ForwardResult → ℕ → Outcome
unfolding result_status logged_class class_name
append_attempt json out slug model key_id r duration =
    let attempt : Attempt = record {
      provider_slug = slug;
      model_name = model;
      key_id = key_id;
      status = result_status r;
      fail_class = class_name (logged_class r);
      duration_ms = duration;
    } in
    record out {
      attempts = out.attempts ++ attempt ∷ [];
      status = result_status r;
      error_class = class_name (logged_class r);
      provider_slug = slug;
      model_name = model;
      tokens_prompt = if reports_usage r then (parse_usage json r.body).0 else out.tokens_prompt;
      tokens_completion =
          if reports_usage r then (parse_usage json r.body).1 else out.tokens_completion;
    }

abbrev pub or_down : Text → Text
or_down class = if is_empty class then codes "down" else class

finalize_last : ℕ → List Attempt → List Attempt
finalize_last st [] = []
finalize_last st (a ∷ []) = record a { status = st; fail_class = or_down a.fail_class } ∷ []
finalize_last st (a ∷ b ∷ l) = a ∷ finalize_last st (b ∷ l)

unfoldable pub finalize_stream_outcome : Outcome → ForwardResult → Outcome
unfolding result_status finalize_last
finalize_stream_outcome out r =
    if has_failed r
    then record out {
      status = result_status r;
      error_class = or_down out.error_class;
      attempts = finalize_last (result_status r) out.attempts;
    }
    else out
