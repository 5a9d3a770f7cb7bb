-- ===== src/Metrics/LogStore.antt =====
-- internal/metrics/logs.go: the ring buffer of request logs.
-- Capacities, indices, statuses, times and durations are natural numbers; `capacity` 0 stands for
-- every capacity that is not positive.
pub mod Ring
pub mod History
pub mod Query
pub mod Stats
mod Examples
use astreo_gateway.Base.{
  ℕ, zero, suc, ◌+◌, ◌-◌, ◌%◌, Bool, false, List, [], ◌∷◌, Text, is_empty, ltb, ◌==◌, if◌then◌else◌,
  get_or, set, replicate,
}

pub record Attempt : Type 0 where
  pub provider_slug : Text
  pub model_name : Text
  pub key_id : Text
  pub status : ℕ
  pub fail_class : Text
  pub duration_ms : ℕ

pub record RequestLog : Type 0 where
  pub id : Text
  pub request_id : Text
  pub ts : ℕ
  pub gateway_key_id : Text
  pub method : Text
  pub path : Text
  pub directive : Text
  pub resolved_provider : Text
  pub resolved_model : Text
  pub alias_name : Text
  pub status : ℕ
  pub attempts : ℕ
  pub duration_ms : ℕ
  pub tokens_prompt : ℕ
  pub tokens_completion : ℕ
  pub stream : Bool
  pub error_class : Text
  pub client_ip : Text
  pub attempts_detail : List Attempt

-- the zero value that `make` fills the buffer with
abbrev pub zero_log : RequestLog
zero_log = record {
  id = [];
  request_id = [];
  ts = 0;
  gateway_key_id = [];
  method = [];
  path = [];
  directive = [];
  resolved_provider = [];
  resolved_model = [];
  alias_name = [];
  status = 0;
  attempts = 0;
  duration_ms = 0;
  tokens_prompt = 0;
  tokens_completion = 0;
  stream = false;
  error_class = [];
  client_ip = [];
  attempts_detail = [];
}

pub record LogStore : Type 0 where
  pub buf : List RequestLog
  pub cap : ℕ
  pub head : ℕ
  pub size : ℕ

-- `NewLogStore`
unfoldable pub new_log_store : ℕ → LogStore
new_log_store capacity =
    let cap = if capacity == 0 then 10000 else capacity in
    record { buf = replicate cap zero_log; cap = cap; head = 0; size = 0 }

-- the ID and the time that `Append` fills in where they are missing; `fresh` is a new request ID
-- and `now` the clock
unfoldable pub stamp : Text → ℕ → RequestLog → RequestLog
stamp fresh now log = record log {
  id = if is_empty log.id then fresh else log.id;
  ts = if log.ts == 0 then now else log.ts;
}

unfoldable pub append : Text → ℕ → LogStore → RequestLog → LogStore
append fresh now s log = record {
  buf = set s.buf s.head (stamp fresh now log);
  cap = s.cap;
  head = (s.head + 1) % s.cap;
  size = if ltb s.size s.cap then s.size + 1 else s.size;
}

unfoldable pub clear : LogStore → LogStore
clear s = record { buf = replicate s.cap zero_log; cap = s.cap; head = 0; size = 0 }

-- where the oldest log stands
abbrev pub start_of : LogStore → ℕ
start_of s = if s.size == s.cap then s.head else (s.head + s.cap - s.size) % s.cap

-- the loop of `snapshot`: `n` logs from the index `start` on, around the end of the buffer
unfoldable pub read_from : List RequestLog → ℕ → ℕ → ℕ → List RequestLog
read_from buf cap start zero = []
read_from buf cap start (suc n) =
    get_or buf (start % cap) zero_log ∷ read_from buf cap (start + 1) n

abbrev pub first_ts : List RequestLog → ℕ
first_ts [] = 0
first_ts (log ∷ _) = log.ts

-- the logs, oldest first, and the time of the oldest (0 if there is none)
unfoldable pub snapshot : LogStore → List RequestLog × ℕ
unfolding read_from
snapshot s =
    let out = read_from s.buf s.cap (start_of s) s.size in
    if s.size == 0 then ([], 0) else (out, first_ts out)
