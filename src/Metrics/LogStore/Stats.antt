-- ===== src/Metrics/LogStore/Stats.antt =====
-- internal/metrics/logs.go: `Stats`, the counts of a window of the log.
-- Sums are natural numbers, and so are times: a window that begins before 1970 begins at 0.
pub mod Totals
pub mod Classes
pub mod Sums
use astreo_gateway.Base.{
  get_or, length, if◌then◌else◌, ◌==◌, ltb, ◌++◌, ◌∷◌, [], List, some, none, Option, ◌||◌, ◌&&◌,
  not, Bool, min, ◌%◌, ◌/◌, ◌*◌, ◌-◌, ◌+◌, ℕ, is_empty, codes, Text, ◌≐◌,
}
use astreo_gateway.Metrics.LogStore.{RequestLog, LogStore, snapshot}
use astreo_gateway.Metrics.LogStore.Query.{status_class}

pub record StatsQuery : Type 0 where
  pub window : Text
  pub group_by : Text

pub record ProviderStat : Type 0 where
  pub requests : ℕ
  pub tokens : ℕ
  pub errors : ℕ

pub record GatewayKeyStat : Type 0 where
  pub requests : ℕ
  pub tokens : ℕ

pub record TimeBucket : Type 0 where
  pub requests_ok : ℕ
  pub requests_client_err : ℕ
  pub requests_server_err : ℕ
  pub tokens : ℕ
  pub tokens_prompt : ℕ
  pub tokens_completion : ℕ

-- the variables of the loop; each map holds its keys with what they count
pub record Tally : Type 0 where
  pub requests : ℕ
  pub tokens : ℕ
  pub prompt : ℕ
  pub completion : ℕ
  pub errors : ℕ
  pub durations : List ℕ
  pub by_provider : List (Text × ProviderStat)
  pub by_key : List (Text × GatewayKeyStat)
  pub by_class : List (Text × ℕ)
  pub buckets : List (ℕ × TimeBucket)

-- `m[k]` with `fresh` where it is missing, changed by `f`
unfoldable pub update :
    {K V : Type 0} → (K → K → Bool) → V → (V → V) → K → List (K × V) → List (K × V)
update same fresh f k [] = (k, f fresh) ∷ []
update same fresh f k ((j, v) ∷ m) =
    let rest = update same fresh f k m in if same j k then (j, f v) ∷ m else (j, v) ∷ rest

abbrev pub no_requests : ProviderStat
no_requests = record { requests = 0; tokens = 0; errors = 0 }

abbrev pub no_uses : GatewayKeyStat
no_uses = record { requests = 0; tokens = 0 }

abbrev pub empty_bucket : TimeBucket
empty_bucket = record {
  requests_ok = 0;
  requests_client_err = 0;
  requests_server_err = 0;
  tokens = 0;
  tokens_prompt = 0;
  tokens_completion = 0;
}

unfoldable pub no_tally : Tally
no_tally = record {
  requests = 0;
  tokens = 0;
  prompt = 0;
  completion = 0;
  errors = 0;
  durations = [];
  by_provider = [];
  by_key = [];
  by_class = [];
  buckets = [];
}

-- 1 for an error
abbrev pub error_of : RequestLog → ℕ
error_of e = if status_class e.status ≐ codes "ok" then 0 else 1

abbrev pub tokens_of : RequestLog → ℕ
tokens_of e = e.tokens_prompt + e.tokens_completion

abbrev pub served : RequestLog → ProviderStat → ProviderStat
served e p = record {
  requests = p.requests + 1;
  tokens = p.tokens + tokens_of e;
  errors = p.errors + error_of e;
}

abbrev pub used_by : RequestLog → GatewayKeyStat → GatewayKeyStat
used_by e k = record { requests = k.requests + 1; tokens = k.tokens + tokens_of e }

-- the `switch` on the class
abbrev pub classed : Text → TimeBucket → TimeBucket
classed class b =
    if class ≐ codes "ok"
    then record b { requests_ok = b.requests_ok + 1 }
    else if class ≐ codes "client_err"
    then record b { requests_client_err = b.requests_client_err + 1 }
    else record b { requests_server_err = b.requests_server_err + 1 }

abbrev pub put_in : RequestLog → TimeBucket → TimeBucket
put_in e b = classed (status_class e.status) (record b {
  tokens = b.tokens + tokens_of e;
  tokens_prompt = b.tokens_prompt + e.tokens_prompt;
  tokens_completion = b.tokens_completion + e.tokens_completion;
})

abbrev pub or_named : Text → Text → Text
or_named name t = if is_empty t then name else t

-- the body of the loop, for a log in the window
unfoldable pub count_log : ℕ → Tally → RequestLog → Tally
unfolding update status_class
count_log bucket_size t e = record {
  requests = t.requests + 1;
  tokens = t.tokens + tokens_of e;
  prompt = t.prompt + e.tokens_prompt;
  completion = t.completion + e.tokens_completion;
  errors = t.errors + error_of e;
  durations = t.durations ++ e.duration_ms ∷ [];
  by_provider =
      update ◌≐◌ no_requests (served e) (or_named (codes "(unresolved)") e.resolved_provider)
        t.by_provider;
  by_key = update ◌≐◌ no_uses (used_by e) (or_named (codes "(none)") e.gateway_key_id) t.by_key;
  by_class = update ◌≐◌ 0 (λ n. n + 1) (status_class e.status) t.by_class;
  buckets = update ◌==◌ empty_bucket (put_in e) (e.ts - e.ts % bucket_size) t.buckets;
}

unfoldable pub in_window : ℕ → ℕ → RequestLog → Bool
in_window from to e = not (ltb e.ts from || ltb to e.ts)

unfoldable pub count_logs : ℕ → ℕ → ℕ → Tally → List RequestLog → Tally
unfolding count_log in_window
count_logs bucket_size from to t [] = t
count_logs bucket_size from to t (e ∷ es) =
    count_logs bucket_size from to (if in_window from to e then count_log bucket_size t e else t) es

-- in milliseconds
abbrev hour : ℕ
hour = 3600000

unfoldable pub window_duration : Text → ℕ
window_duration w =
    if w ≐ codes "1h" then hour else if w ≐ codes "7d" then 7 * (24 * hour) else 24 * hour

unfoldable pub bucket_duration : Text → Text → ℕ
bucket_duration group_by window =
    if group_by ≐ codes "day"
    then 24 * hour
    else if group_by ≐ codes "hour"
    then hour
    else if window ≐ codes "1h"
    then 300000
    else if window ≐ codes "7d"
    then 24 * hour
    else hour

-- the index of `percentile` at 0.95: `int(float64(n-1) * 0.95)` is this for every length of a slice
-- below 2 ^ 50
abbrev pub p95_index : ℕ → ℕ
p95_index n = min ((n - 1) * 95 / 100) (n - 1)

pub record StatsResult : Type 0 where
  pub window : Text
  pub from : ℕ
  pub to : ℕ
  pub oldest_ts : ℕ
  pub truncated : Bool
  pub tally : Tally
  -- the errors and the requests that `ErrorRate` divides; `none` is 0
  pub error_rate : Option (ℕ × ℕ)
  pub p95_duration_ms : ℕ

-- `sort.Slice` of the standard library is the parameter `sort_slice`, for each type of elements.
module _ (sort_slice : (A : Type 0) → (A → A → Bool) → List A → List A) where
  unfoldable pub p95 : List ℕ → ℕ
  p95 [] = 0
  p95 (d ∷ ds) = get_or (sort_slice ℕ ltb (d ∷ ds)) (p95_index (length (d ∷ ds))) 0

  sorted_tally : Tally → Tally
  sorted_tally t = record t {
    by_provider =
        sort_slice (Text × ProviderStat) (λ p q. ltb q.1.requests p.1.requests) t.by_provider;
    by_key = sort_slice (Text × GatewayKeyStat) (λ p q. ltb q.1.requests p.1.requests) t.by_key;
    by_class = sort_slice (Text × ℕ) (λ p q. ltb q.1 p.1) t.by_class;
    buckets = sort_slice (ℕ × TimeBucket) (λ p q. ltb p.0 q.0) t.buckets;
  }

  stats_of : Text → ℕ → ℕ → ℕ → Tally → StatsResult
  unfolding p95 sorted_tally
  stats_of window from to oldest t = record {
    window = window;
    from = from;
    to = to;
    oldest_ts = oldest;
    truncated = ltb 0 oldest && ltb from oldest;
    tally = sorted_tally t;
    error_rate = if ltb 0 t.requests then some (t.errors, t.requests) else none;
    p95_duration_ms = p95 t.durations;
  }

  -- `Stats`
  unfoldable pub stats : ℕ → LogStore → StatsQuery → StatsResult
  unfolding stats_of count_logs no_tally window_duration bucket_duration snapshot
  stats now s q =
      let window = or_named (codes "24h") q.window in
      let from = now - window_duration window in
      stats_of window from now (snapshot s).1
        (count_logs (bucket_duration q.group_by window) from now no_tally (snapshot s).0)
