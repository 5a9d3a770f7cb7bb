-- ===== src/Metrics/LogStore/Examples.antt =====
-- Runs of the ring of logs, and its theorems at concrete stores.
use astreo_gateway.Base.{
  keep, drop, take, length, map, ◌∷◌, [], List, arith, inl, some, false, Bool, refl, ◌≡◌, codes,
  Text,
}
use astreo_gateway.Metrics.LogStore.Stats.Sums.{count_logs-IsTally, IsTally}
use astreo_gateway.Metrics.LogStore.Stats.{in_window, no_tally, count_logs}
use mathlib.Core.List.{Mem, Memᴰ}
use mathlib.Core.List.Perm
use astreo_gateway.Metrics.LogStore.Stats.Classes.{IsClassed}
use astreo_gateway.Metrics.LogStore.Query.Laws.{mem-items-list, items-list, matching}
use astreo_gateway.Metrics.LogStore.Query.Filters.{Passes}
use astreo_gateway.Metrics.LogStore.History.{
  snapshot-append_all, stamped, last_of, append_all, Call,
}
use astreo_gateway.Metrics.LogStore.{
  read_from, new_log_store, zero_log, stamp, append, snapshot, RequestLog, LogStore,
}
use astreo_gateway.Metrics.LogStore.Query.{is_match, list, ListQuery, ListResult}

abbrev log_of : Text → RequestLog
log_of id = record zero_log { request_id = id }

abbrev three_calls : List Call
three_calls =
    record { fresh = codes "1"; now = 1; log = log_of (codes "a") }
    ∷ record { fresh = codes "2"; now = 2; log = log_of (codes "b") }
    ∷ record { fresh = codes "3"; now = 3; log = log_of (codes "c") }
    ∷ []

abbrev identity_sort : (RequestLog → RequestLog → Bool) → List RequestLog → List RequestLog
identity_sort less xs = xs

abbrev any_query : ListQuery
any_query = record {
  from = 0;
  to = 0;
  gateway_key_id = [];
  provider_slug = [];
  status_class = [];
  directive = [];
  limit = 10;
  offset = 0;
  order = [];
}

last_two :
    map (λ e. e.request_id) (snapshot (append_all (new_log_store 2) three_calls)).0
    ≡ codes "b" ∷ codes "c" ∷ []
unfolding append_all append snapshot new_log_store read_from stamp
last_two = refl

snapshot-append_all_example :
    (snapshot (append_all (new_log_store 2) three_calls)).0 ≡ last_of 2 (map stamped three_calls)
snapshot-append_all_example = snapshot-append_all 2 three_calls (λ e. cc)

abbrev two_logs : LogStore
two_logs = append_all (new_log_store 2) three_calls

items-list_example :
    (r : ListResult) × (list (λ t. t) identity_sort two_logs any_query ≡ some r)
    × (r.items ≡ take 10 (drop 0 (matching (λ t. t) identity_sort two_logs any_query)))
    × (r.total ≡ length (matching (λ t. t) identity_sort two_logs any_query))
items-list_example =
    items-list (λ t. t) identity_sort two_logs any_query 10 0 (inl (omega arith, omega arith, refl))
      (inl (omega arith, refl))

abbrev newest_log : RequestLog
newest_log = stamp (codes "3") 3 (log_of (codes "c"))

-- the page of all logs
abbrev all_logs : ListResult
all_logs = record {
  items = stamp (codes "2") 2 (log_of (codes "b")) ∷ stamp (codes "3") 3 (log_of (codes "c")) ∷ [];
  total = 2;
  oldest_ts = 2;
  capacity = 2;
  size = 2;
  truncated = false;
}

both_listed : list (λ t. t) identity_sort two_logs any_query ≡ some all_logs
unfolding list snapshot append_all append new_log_store is_match stamp
both_listed = refl

mem-items-list_example : Mem newest_log (snapshot two_logs).0 × Passes (λ t. t) any_query newest_log
mem-items-list_example =
    mem-items-list (λ t. t) identity_sort (λ less xs. Perm.refl xs) two_logs any_query all_logs
      newest_log both_listed ∣ Memᴰ.tail (Memᴰ.head refl) ∣₁

count_logs-IsTally_example :
    IsTally (count_logs 10 0 9 no_tally (snapshot (append_all (new_log_store 2) three_calls)).0)
    × ((count_logs 10 0 9 no_tally (snapshot (append_all (new_log_store 2) three_calls)).0).requests
        ≡ length (keep (in_window 0 9) (snapshot (append_all (new_log_store 2) three_calls)).0))
    × IsClassed 0 9
        (snapshot (append_all (new_log_store 2) three_calls)).0
        (count_logs 10 0 9 no_tally (snapshot (append_all (new_log_store 2) three_calls)).0)
count_logs-IsTally_example =
    count_logs-IsTally 10 0 9 (snapshot (append_all (new_log_store 2) three_calls)).0

-- both logs of the window are counted
two_counted :
    (count_logs 10 0 9 no_tally (snapshot (append_all (new_log_store 2) three_calls)).0).requests
    ≡ 2
unfolding count_logs snapshot append_all append new_log_store stamp no_tally
two_counted = refl
