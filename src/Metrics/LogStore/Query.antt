-- ===== src/Metrics/LogStore/Query.antt =====
-- internal/metrics/logs.go: `List`, the filtered, sorted and paged view of the log.
-- The query's integers are 64-bit patterns: a pattern from 2 ^ 63 on is a negative number.
pub mod Pages
pub mod Filters
pub mod Laws
use astreo_gateway.Base.{
  keep, drop, take, length, if◌then◌else◌, leb, ltb, [], List, some, none, Option, ◌||◌, ◌&&◌, not,
  Bool, min, ◌-◌, ◌+◌, ℕ, is_empty, codes, Text, contains, ◌≐◌,
}
use mathlib.Core.Option
use astreo_gateway.Metrics.LogStore.{RequestLog, LogStore, snapshot}

pub record ListQuery : Type 0 where
  pub from : ℕ
  pub to : ℕ
  pub gateway_key_id : Text
  pub provider_slug : Text
  pub status_class : Text
  pub directive : Text
  pub limit : ℕ
  pub offset : ℕ
  pub order : Text

pub record ListResult : Type 0 where
  pub items : List RequestLog
  pub total : ℕ
  pub oldest_ts : ℕ
  pub capacity : ℕ
  pub size : ℕ
  pub truncated : Bool

-- `n > 0` of a 64-bit pattern
unfoldable pub is_positive : ℕ → Bool
is_positive n = ltb 0 n && ltb n 9223372036854775808

unfoldable pub status_class : ℕ → Text
status_class status =
    if leb 200 status && ltb status 400
    then codes "ok"
    else if leb 400 status && ltb status 500
    then codes "client_err"
    else codes "server_err"

-- the `continue`s of the loop, as the test that a log passes; `lower` is `strings.ToLower`
unfoldable pub is_match : (Text → Text) → ListQuery → RequestLog → Bool
unfolding is_positive status_class
is_match lower q e =
    not (is_positive q.from && ltb e.ts q.from)
    && (not (is_positive q.to && ltb q.to e.ts)
        && ((is_empty q.gateway_key_id || e.gateway_key_id ≐ q.gateway_key_id)
            && ((is_empty q.provider_slug || e.resolved_provider ≐ q.provider_slug)
                && ((is_empty q.directive || contains (lower e.directive) (lower q.directive))
                    && (is_empty q.status_class || status_class e.status ≐ q.status_class)))))

-- the order that the query names: whether the first log goes before the second
unfoldable pub goes_before : Text → RequestLog → RequestLog → Bool
goes_before order a b =
    if order ≐ codes "ts_asc"
    then ltb a.ts b.ts
    else if order ≐ codes "dur_desc"
    then ltb b.duration_ms a.duration_ms
    else ltb b.ts a.ts

-- `xs[from:to]`; `none` is the panic of bounds out of range
unfoldable pub slice_of {ℓ} : {A : Type ℓ} → ℕ → ℕ → List A → Option (List A)
slice_of from to xs =
    if leb from to && leb to (length xs) then some (take (to - from) (drop from xs)) else none

unfoldable pub page_limit : ℕ → ℕ
page_limit limit = if not (is_positive limit) || ltb 500 limit then 100 else limit

unfoldable pub page_offset : ℕ → ℕ
page_offset offset = if leb 9223372036854775808 offset then 0 else offset

-- `offset >= total` of a 64-bit pattern and a length
unfoldable pub is_past : ℕ → ℕ → Bool
is_past offset total = ltb offset 9223372036854775808 && leb total offset

-- `sort.Slice` of the standard library is the parameter `sort_slice`.
module _ (lower : Text → Text)
    (sort_slice : (RequestLog → RequestLog → Bool) → List RequestLog → List RequestLog) where
  unfoldable pub filtered : ListQuery → List RequestLog → List RequestLog
  filtered q all_logs = sort_slice (goes_before q.order) (keep (is_match lower q) all_logs)

  -- `none` is a panic. `offset + limit` does not overflow, since the offset is below a length there.
  unfoldable pub list_of : ListQuery → ℕ → List RequestLog → ℕ → Option ListResult
  unfolding filtered page_limit page_offset slice_of is_past
  list_of q cap all_logs oldest =
      let matching = filtered q all_logs in
      let total = length matching in
      let offset = page_offset q.offset in
      let end = min (offset + page_limit q.limit) total in
      Option.map
        (λ items. record {
          items = items;
          total = total;
          oldest_ts = oldest;
          capacity = cap;
          size = length all_logs;
          truncated = ltb 0 oldest && (is_positive q.from && ltb q.from oldest);
        })
        (if is_past offset total then some [] else slice_of offset end matching)

  unfoldable pub list : LogStore → ListQuery → Option ListResult
  unfolding list_of
  list s q = list_of q s.cap (snapshot s).0 (snapshot s).1
