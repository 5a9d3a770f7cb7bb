-- ===== src/Metrics/LogStore/Stats/Sums.antt =====
-- internal/metrics/logs.go: the counts of `Stats` by provider, key, class and time agree.
use astreo_gateway.Base.{
  length-append, keep, length, if-holds, if◌then◌else◌, ◌==◌, arith, ◌∷◌, [], List, false, true,
  Bool, ◌∙◌, ap, refl, ◌≡◌, ◌%◌, ◌-◌, ◌+◌, ℕ, codes, ◌≐◌,
}
use astreo_gateway.Metrics.LogStore.{RequestLog}
use astreo_gateway.Metrics.LogStore.Query.{status_class}
use astreo_gateway.Metrics.LogStore.Stats.{
  or_named, ProviderStat, GatewayKeyStat, Tally, TimeBucket, count_log, count_logs, in_window,
  no_tally, put_in, served, used_by, no_requests, no_uses, empty_bucket, error_of, tokens_of,
}
use astreo_gateway.Metrics.LogStore.Stats.Totals.{sum_of, sum_of-update}
use astreo_gateway.Metrics.LogStore.Stats.Classes.{IsClassed, count_logs-IsClassed}

-- the requests of a bucket
abbrev pub all_requests : TimeBucket → ℕ
all_requests b = b.requests_ok + b.requests_client_err + b.requests_server_err

-- every way to count the requests, the tokens and the errors gives the same
pub record IsTally (t : Tally) : Type 0 where
  pub timed : length t.durations ≡ t.requests
  pub split : t.prompt + t.completion ≡ t.tokens
  pub provider_requests : sum_of (λ p. p.requests) t.by_provider ≡ t.requests
  pub provider_tokens : sum_of (λ p. p.tokens) t.by_provider ≡ t.tokens
  pub provider_errors : sum_of (λ p. p.errors) t.by_provider ≡ t.errors
  pub key_requests : sum_of (λ k. k.requests) t.by_key ≡ t.requests
  pub key_tokens : sum_of (λ k. k.tokens) t.by_key ≡ t.tokens
  pub class_counts : sum_of (λ n. n) t.by_class ≡ t.requests
  pub bucket_requests : sum_of all_requests t.buckets ≡ t.requests
  pub bucket_tokens : sum_of (λ b. b.tokens) t.buckets ≡ t.tokens

requests-put_in : (e : RequestLog) (b : TimeBucket) → all_requests (put_in e b) ≡ all_requests b + 1
requests-put_in e b = ground arith

tokens-put_in : (e : RequestLog) (b : TimeBucket) → (put_in e b).tokens ≡ b.tokens + tokens_of e
tokens-put_in e b = ground arith

count_log-IsTally :
    (bucket_size : ℕ) (t : Tally) (e : RequestLog) → IsTally t → IsTally (count_log bucket_size t e)
unfolding count_log
count_log-IsTally bucket_size t e h = record {
  timed = omega (arith, length-append t.durations (e.duration_ms ∷ []), h.timed);
  split = omega (arith, h.split);
  provider_requests =
      sum_of-update (λ (p : ProviderStat). p.requests) ◌≐◌ no_requests (served e)
        (or_named (codes "(unresolved)") e.resolved_provider) 1 refl (λ p. refl) t.by_provider
      ∙ ap (λ n. n + 1) h.provider_requests;
  provider_tokens =
      sum_of-update (λ (p : ProviderStat). p.tokens) ◌≐◌ no_requests (served e)
        (or_named (codes "(unresolved)") e.resolved_provider) (tokens_of e) refl (λ p. refl)
        t.by_provider
      ∙ ap (λ n. n + (tokens_of e)) h.provider_tokens;
  provider_errors =
      sum_of-update (λ (p : ProviderStat). p.errors) ◌≐◌ no_requests (served e)
        (or_named (codes "(unresolved)") e.resolved_provider) (error_of e) refl (λ p. refl)
        t.by_provider
      ∙ ap (λ n. n + (error_of e)) h.provider_errors;
  key_requests =
      sum_of-update (λ (k : GatewayKeyStat). k.requests) ◌≐◌ no_uses (used_by e)
        (or_named (codes "(none)") e.gateway_key_id) 1 refl (λ k. refl) t.by_key
      ∙ ap (λ n. n + 1) h.key_requests;
  key_tokens =
      sum_of-update (λ (k : GatewayKeyStat). k.tokens) ◌≐◌ no_uses (used_by e)
        (or_named (codes "(none)") e.gateway_key_id) (tokens_of e) refl (λ k. refl) t.by_key
      ∙ ap (λ n. n + (tokens_of e)) h.key_tokens;
  class_counts =
      sum_of-update (λ n. n) ◌≐◌ 0 (λ n. n + 1) (status_class e.status) 1 refl (λ n. refl)
        t.by_class
      ∙ ap (λ n. n + 1) h.class_counts;
  bucket_requests =
      sum_of-update all_requests ◌==◌ empty_bucket (put_in e) (e.ts - e.ts % bucket_size) 1 refl
        (requests-put_in e) t.buckets
      ∙ ap (λ n. n + 1) h.bucket_requests;
  bucket_tokens =
      sum_of-update (λ (b : TimeBucket). b.tokens) ◌==◌ empty_bucket (put_in e)
        (e.ts - e.ts % bucket_size) (tokens_of e) refl (tokens-put_in e) t.buckets
      ∙ ap (λ n. n + (tokens_of e)) h.bucket_tokens;
}

no_tally-IsTally : IsTally no_tally
unfolding no_tally sum_of
no_tally-IsTally = record {
  timed = refl;
  split = refl;
  provider_requests = refl;
  provider_tokens = refl;
  provider_errors = refl;
  key_requests = refl;
  key_tokens = refl;
  class_counts = refl;
  bucket_requests = refl;
  bucket_tokens = refl;
}

counted-IsTally :
    (bucket_size from to : ℕ) (t : Tally) (es : List RequestLog)
    → IsTally t
    → IsTally (count_logs bucket_size from to t es)
unfolding count_logs
counted-IsTally bucket_size from to t [] h = h
counted-IsTally bucket_size from to t (e ∷ es) h =
    counted-IsTally bucket_size from to
      (if in_window from to e then count_log bucket_size t e else t) es
      (if-holds IsTally (in_window from to e) _ _ (λ _. count_log-IsTally bucket_size t e h)
        (λ _. h))

requests-count_logs :
    (bucket_size from to : ℕ) (t : Tally) (es : List RequestLog)
    → (count_logs bucket_size from to t es).requests
      ≡ t.requests + length (keep (in_window from to) es)
unfolding count_logs count_log
requests-count_logs bucket_size from to t [] = ground arith
requests-count_logs bucket_size from to t (e ∷ es) =
    requests-count_logs bucket_size from to
      (if in_window from to e then count_log bucket_size t e else t) es
    ∙ by_test (in_window from to e)
  where
    by_test :
        (b : Bool)
        → (if b then count_log bucket_size t e else t).requests
            + length (keep (in_window from to) es)
          ≡ t.requests
            + length (if b then e ∷ keep (in_window from to) es else keep (in_window from to) es)
    by_test true = omega arith
    by_test false = refl

-- The loop of `Stats` counts the logs of the window, each once, and its counts by provider, by gateway
-- key and by time add up to the same requests and tokens, those by provider to the same errors, and
-- those by status class to the same requests. The counts by time are split by status: below 200 and
-- from 500 on a server error, from 400 a client error, and ok between; the errors are the first two.
pub count_logs-IsTally :
    (bucket_size from to : ℕ) (es : List RequestLog)
    → IsTally (count_logs bucket_size from to no_tally es)
      × ((count_logs bucket_size from to no_tally es).requests
          ≡ length (keep (in_window from to) es))
      × IsClassed from to es (count_logs bucket_size from to no_tally es)
unfolding no_tally
count_logs-IsTally bucket_size from to es = (
  counted-IsTally bucket_size from to no_tally es no_tally-IsTally,
  omega (arith, requests-count_logs bucket_size from to no_tally es),
  count_logs-IsClassed bucket_size from to es,
)
