-- ===== src/Metrics/LogStore/Stats/Classes.antt =====
-- internal/metrics/logs.go: the counts of `Stats` by status, in each span of time.
use astreo_gateway.Base.{
  keep, length, if◌then◌else◌, ◌==◌, leb, ltb, ◌&&◌, ◌||◌, Bool-cases, inl, inr, arith, ◌∷◌, [],
  List, false, true, Bool, ◌∙◌, refl, ◌≡◌, ◌%◌, ◌-◌, ◌+◌, ℕ, ◌≐◌,
}
use astreo_gateway.Metrics.LogStore.{RequestLog}
use astreo_gateway.Metrics.LogStore.Query.{status_class}
use astreo_gateway.Metrics.LogStore.Stats.{
  Tally, TimeBucket, count_log, count_logs, in_window, no_tally, put_in, empty_bucket,
}
use astreo_gateway.Metrics.LogStore.Stats.Totals.{sum_of, sum_of-update}

-- the logs that a test counts in a window
abbrev pub tested : (RequestLog → Bool) → ℕ → ℕ → List RequestLog → ℕ
tested p from to es = length (keep p (keep (in_window from to) es))

-- 1 where the test holds
abbrev one_if : Bool → ℕ
one_if b = if b then 1 else 0

tested-cons :
    (p : RequestLog → Bool) (from to : ℕ) (e : RequestLog) (es : List RequestLog)
    → tested p from to (e ∷ es)
      ≡ (if in_window from to e then one_if (p e) else 0) + tested p from to es
tested-cons p from to e es = elim (Bool-cases (in_window from to e)) [
  | inl w ↦ elim (Bool-cases (p e)) [
    | inl y ↦ rw (w, y) (omega arith)
    | inr n ↦ rw (w, n) (omega arith)
  ]
  | inr w ↦ rw w (omega arith)
]

-- A count of the tally that each log raises by one where a test holds is that of the window's logs
-- with the test.
counted-tested :
    (w : Tally → ℕ) (p : RequestLog → Bool) (bucket_size from to : ℕ)
    → ((t : Tally) (e : RequestLog) → w (count_log bucket_size t e) ≡ w t + one_if (p e))
    → (t : Tally) (es : List RequestLog)
    → w (count_logs bucket_size from to t es) ≡ w t + tested p from to es
unfolding count_logs
counted-tested w p bucket_size from to raises t [] = omega arith
counted-tested w p bucket_size from to raises t (e ∷ es) =
    counted-tested w p bucket_size from to raises
      (if in_window from to e then count_log bucket_size t e else t) es
    ∙ by_test (in_window from to e) (tested-cons p from to e es)
  where
    by_test :
        (b : Bool)
        → tested p from to (e ∷ es) ≡ (if b then one_if (p e) else 0) + tested p from to es
        → w (if b then count_log bucket_size t e else t) + tested p from to es
          ≡ w t + tested p from to (e ∷ es)
    by_test true h = omega (arith, h, raises t e)
    by_test false h = omega (arith, h)

counted-tested_all :
    (w : Tally → ℕ) (p : RequestLog → Bool) (bucket_size from to : ℕ)
    → w no_tally ≡ 0
    → ((t : Tally) (e : RequestLog) → w (count_log bucket_size t e) ≡ w t + one_if (p e))
    → (es : List RequestLog) → w (count_logs bucket_size from to no_tally es) ≡ tested p from to es
counted-tested_all w p bucket_size from to none_yet raises es =
    omega (arith, none_yet, counted-tested w p bucket_size from to raises no_tally es)

-- what the status of a log says
abbrev pub is_ok : RequestLog → Bool
is_ok e = leb 200 e.status && ltb e.status 400

abbrev pub is_client_error : RequestLog → Bool
is_client_error e = leb 400 e.status && ltb e.status 500

abbrev pub is_server_error : RequestLog → Bool
is_server_error e = ltb e.status 200 || leb 500 e.status

bucket-raises :
    (w : TimeBucket → ℕ) (p : RequestLog → Bool) (bucket_size : ℕ)
    → w empty_bucket ≡ 0
    → ((e : RequestLog) (b : TimeBucket) → w (put_in e b) ≡ w b + one_if (p e))
    → (t : Tally) (e : RequestLog)
    → sum_of w (count_log bucket_size t e).buckets ≡ sum_of w t.buckets + one_if (p e)
unfolding count_log
bucket-raises w p bucket_size none_yet adds t e =
    sum_of-update w ◌==◌ empty_bucket (put_in e) (e.ts - e.ts % bucket_size) (one_if (p e)) none_yet
      (adds e) t.buckets

ok-put_in :
    (e : RequestLog) (b : TimeBucket) → (put_in e b).requests_ok ≡ b.requests_ok + one_if (is_ok e)
unfolding status_class ◌≐◌
ok-put_in e b = ground arith

client-put_in :
    (e : RequestLog) (b : TimeBucket)
    → (put_in e b).requests_client_err ≡ b.requests_client_err + one_if (is_client_error e)
unfolding status_class ◌≐◌
client-put_in e b = ground arith

server-put_in :
    (e : RequestLog) (b : TimeBucket)
    → (put_in e b).requests_server_err ≡ b.requests_server_err + one_if (is_server_error e)
unfolding status_class ◌≐◌
server-put_in e b = ground arith

-- the counts by time are those of the statuses, and so are the errors
pub record IsClassed (from to : ℕ) (es : List RequestLog) (t : Tally) : Type 0 where
  pub ok_counts : sum_of (λ b. b.requests_ok) t.buckets ≡ tested is_ok from to es
  pub client_counts :
      sum_of (λ b. b.requests_client_err) t.buckets ≡ tested is_client_error from to es
  pub server_counts :
      sum_of (λ b. b.requests_server_err) t.buckets ≡ tested is_server_error from to es
  pub error_counts : t.errors ≡ tested (λ e. is_client_error e || is_server_error e) from to es

error_raises :
    (bucket_size : ℕ) (t : Tally) (e : RequestLog)
    → (count_log bucket_size t e).errors
      ≡ t.errors + one_if (is_client_error e || is_server_error e)
unfolding count_log status_class ◌≐◌
error_raises bucket_size t e = ground arith

pub count_logs-IsClassed :
    (bucket_size from to : ℕ) (es : List RequestLog)
    → IsClassed from to es (count_logs bucket_size from to no_tally es)
unfolding no_tally sum_of
count_logs-IsClassed bucket_size from to es = record {
  ok_counts =
      counted-tested_all (λ t. sum_of (λ (b : TimeBucket). b.requests_ok) t.buckets) is_ok
        bucket_size from to refl
        (bucket-raises (λ b. b.requests_ok) is_ok bucket_size refl ok-put_in) es;
  client_counts =
      counted-tested_all (λ t. sum_of (λ (b : TimeBucket). b.requests_client_err) t.buckets)
        is_client_error bucket_size from to refl
        (bucket-raises (λ b. b.requests_client_err) is_client_error bucket_size refl client-put_in)
        es;
  server_counts =
      counted-tested_all (λ t. sum_of (λ (b : TimeBucket). b.requests_server_err) t.buckets)
        is_server_error bucket_size from to refl
        (bucket-raises (λ b. b.requests_server_err) is_server_error bucket_size refl server-put_in)
        es;
  error_counts =
      counted-tested_all (λ t. t.errors) (λ e. is_client_error e || is_server_error e) bucket_size
        from to refl (error_raises bucket_size) es;
}
