-- ===== src/Metrics/AccessLog.antt =====
-- internal/metrics/access_log.go: the entry that a request leaves in the log.
use astreo_gateway.Base.{
  length, if◌then◌else◌, ◌==◌, ltb, ◌∷◌, [], List, some, none, Option, ◌||◌, ◌&&◌, not, false, true,
  Bool, ◌-◌, ℕ, is_empty, Text, cut,
}
use astreo_gateway.Metrics.LogStore.{RequestLog, Attempt, zero_log}

-- what a handler does with its `http.ResponseWriter`
pub data Write : Type 0 where
  header : ℕ → Write
  bytes : Write

-- `statusRecorder`
pub record Recorder : Type 0 where
  pub status : ℕ
  pub wrote_header : Bool

unfoldable pub fresh_recorder : Recorder
fresh_recorder = record { status = 200; wrote_header = false }

-- its `WriteHeader` and `Write`
unfoldable pub write_header : Recorder → ℕ → Recorder
write_header r code = if r.wrote_header then r else record { status = code; wrote_header = true }

unfoldable pub recorded : Recorder → List Write → Recorder
unfolding write_header
recorded r [] = r
recorded r (header code ∷ ws) = recorded (write_header r code) ws
recorded r (bytes ∷ ws) = recorded (write_header r 200) ws

-- `net` and `strings`: the host of an address with a port, and `TrimSpace`
pub record Net : Type 0 where
  pub split_host : Text → Option Text
  pub trim_space : Text → Text

first_part : Text → Option (Text × Text) → Text
first_part t none = t
first_part t (some (first, _)) = first

host_of : Text → Option Text → Text
host_of remote none = remote
host_of remote (some host) = host

-- `clientIP`, of the headers `X-Forwarded-For` and `X-Real-IP` and the remote address
unfoldable pub client_ip_of : Net → Text → Text → Text → Text
unfolding first_part host_of cut
client_ip_of net forwarded real remote =
    if not (is_empty forwarded)
    then net.trim_space (first_part forwarded (cut b',' forwarded))
    else if not (is_empty real)
    then real
    else host_of remote (net.split_host remote)

-- the entry that `AccessLog` begins with
unfoldable pub new_entry : Text → ℕ → Text → Text → Text → RequestLog
new_entry request_id start method path ip = record zero_log {
  id = request_id;
  request_id = request_id;
  ts = start;
  method = method;
  path = path;
  client_ip = ip;
}

-- and what it makes of it behind the handler
unfoldable pub finish_entry : Recorder → ℕ → ℕ → RequestLog → RequestLog
finish_entry rec start end e = record e {
  status =
      if not (is_empty e.error_class) && ltb 0 e.status
      then e.status
      else if e.status == 0 || rec.wrote_header
      then rec.status
      else e.status;
  duration_ms = end - start;
  attempts =
      if e.attempts == 0 && (not (is_empty e.resolved_provider) || not (is_empty e.directive))
      then 1
      else e.attempts;
}

abbrev or_kept : Text → Text → Text
or_kept kept t = if is_empty t then kept else t

-- `if n := len(attempts); n > 0`
unfoldable pub with_attempts : List Attempt → RequestLog → RequestLog
with_attempts [] e = e
with_attempts (a ∷ as_made) e = record e {
  attempts = length (a ∷ as_made);
  attempts_detail = a ∷ as_made;
}

-- the assignments of `ApplyProxyOutcome` but for the attempts
abbrev pub with_outcome : RequestLog → Text → Text → Text → Text → ℕ → ℕ → ℕ → Bool → RequestLog
with_outcome e provider_slug model_name alias_name error_class status prompt completion stream =
    record e {
      resolved_provider = or_kept e.resolved_provider provider_slug;
      resolved_model = or_kept e.resolved_model model_name;
      alias_name = or_kept e.alias_name alias_name;
      error_class = or_kept e.error_class error_class;
      status = if ltb 0 status then status else e.status;
      tokens_prompt = prompt;
      tokens_completion = completion;
      stream = stream;
    }

-- `ApplyProxyOutcome`
unfoldable pub apply_proxy_outcome :
    RequestLog → Text → Text → Text → Text → ℕ → ℕ → ℕ → Bool → List Attempt → RequestLog
unfolding with_attempts
apply_proxy_outcome e provider_slug model_name alias_name error_class status prompt completion
      stream attempts =
    with_attempts attempts (
      with_outcome e provider_slug model_name alias_name error_class status prompt completion
        stream)
