-- ===== src/Metrics/LogStore/Query/Laws.antt =====
-- What `List` returns: the page of the matching logs that the query asks for.
use astreo_gateway.Base.{
  keep, drop, take, length, Bool-cases, arith, List, some, ◌==◌, ltb, ◌⊎◌, Bool, inr, inl, ◌∙◌, sym,
  refl, ◌≡◌, ◌<◌, ◌≤◌, ℕ, Text,
}
use mathlib.Core.List.{Mem, Perm}
use mathlib.Core.List.Perm
use astreo_gateway.Metrics.LogStore.{RequestLog, LogStore, snapshot}
use astreo_gateway.Metrics.LogStore.Query.{
  ListQuery, ListResult, is_match, is_positive, page_limit, page_offset, filtered, list_of, list,
  goes_before,
}
use astreo_gateway.Metrics.LogStore.Query.Pages.{
  slice_end, mem-take, mem-drop, mem-keep, mem-keep-true,
}
use astreo_gateway.Metrics.LogStore.Query.Filters.{Passes, is_match-Passes}

-- `l` is the number of logs on a page
abbrev pub IsLimit : ℕ → ℕ → Type 0
IsLimit limit l =
    ((1 ≤ limit) × (limit ≤ 500) × (l ≡ limit)) ⊎ (((limit ≡ 0) ⊎ (500 < limit)) × (l ≡ 100))

-- `o` is the number of logs before a page; a pattern from 2 ^ 63 on is a negative offset
abbrev pub IsOffset : ℕ → ℕ → Type 0
IsOffset offset o =
    ((offset < 9223372036854775808) × (o ≡ offset)) ⊎ ((9223372036854775808 ≤ offset) × (o ≡ 0))

page_limit_eq : (limit l : ℕ) → IsLimit limit l → page_limit limit ≡ l
unfolding page_limit is_positive
page_limit_eq limit l (inl (lo, hi, e)) = ground (arith, lo, hi, e)
page_limit_eq limit l (inr (inl z, e)) = ground (arith, z, e)
page_limit_eq limit l (inr (inr b, e)) = ground (arith, b, e)

page_offset_eq : (offset o : ℕ) → IsOffset offset o → page_offset offset ≡ o
unfolding page_offset
page_offset_eq offset o (inl (lt, e)) = ground (arith, lt, e)
page_offset_eq offset o (inr (ge, e)) = ground (arith, ge, e)

page_offset_lt : (offset : ℕ) → page_offset offset < 9223372036854775808
unfolding page_offset
page_offset_lt offset = ground arith

module _ (lower : Text → Text)
    (sort_slice : (RequestLog → RequestLog → Bool) → List RequestLog → List RequestLog) where
  -- the logs that match, in the order of the query
  abbrev pub matching : LogStore → ListQuery → List RequestLog
  matching s q = sort_slice (goes_before q.order) (keep (is_match lower q) (snapshot s).0)

  -- `List` does not panic. Its page holds the matching logs in the query's order from the offset on, a
  -- negative one counting as 0, as many as the limit, which is 100 where the query has none from 1 to
  -- 500; `Total` counts all of them, also those outside the page.
  pub items-list :
      (s : LogStore) (q : ListQuery) (l o : ℕ)
      → IsLimit q.limit l
      → IsOffset q.offset o
      → (r : ListResult) × (list lower sort_slice s q ≡ some r)
        × (r.items ≡ take l (drop o (matching s q)))
        × (r.total ≡ length (matching s q))
  unfolding list list_of filtered
  items-list s q l o is_limit is_offset =
      rw
        (
          slice_end (page_offset q.offset) (page_limit q.limit) (matching s q)
              (page_offset_lt q.offset),
          page_limit_eq q.limit l is_limit,
          page_offset_eq q.offset o is_offset,
        )
        (_, refl, refl, refl)

  IsLimit-of : (limit : ℕ) → (l : ℕ) × IsLimit limit l
  IsLimit-of limit = elim (Bool-cases (limit == 0)) [
    | inl z ↦ (100, inr (inl (ground arith), refl))
    | inr n ↦ elim (Bool-cases (ltb 500 limit)) [
      | inl b ↦ (100, inr (inr (ground arith), refl))
      | inr b ↦ (limit, inl (ground arith, ground arith, refl))
    ]
  ]

  IsOffset-of : (offset : ℕ) → (o : ℕ) × IsOffset offset o
  IsOffset-of offset = elim (Bool-cases (ltb offset 9223372036854775808)) [
    | inl b ↦ (offset, inl (ground arith, refl))
    | inr b ↦ (0, inr (ground arith, refl))
  ]

  same_result : (r t : ListResult) → some r ≡ some t → r ≡ t
  same_result r t h = cc

  -- If the sort rearranges its list, every log on a page is one that the store holds, and passes
  -- each of the query's filters: the times, the gateway key, the provider, the directive and the
  -- status class.
  pub mem-items-list :
      ((less : RequestLog → RequestLog → Bool) (xs : List RequestLog)
        → Perm (sort_slice less xs) xs)
      → (s : LogStore) (q : ListQuery) (r : ListResult) (e : RequestLog)
      → list lower sort_slice s q ≡ some r
      → Mem e r.items
      → Mem e (snapshot s).0 × Passes lower q e
  mem-items-list perm s q r e page m =
      let (l, is_limit) = IsLimit-of q.limit in
      let (o, is_offset) = IsOffset-of q.offset in
      let (t, found, items, _) = items-list s q l o is_limit is_offset in
      let same : r ≡ t = same_result r t (sym page ∙ found) in
      let sorted : Mem e (matching s q) = mem-drop o _ (mem-take l _ (rw (same, items) at m)) in
      let kept : Mem e (keep (is_match lower q) (snapshot s).0) =
        (Perm.mem_iff (perm (goes_before q.order) _)).0 sorted in
      (
        mem-keep (is_match lower q) (snapshot s).0 kept,
        is_match-Passes lower q e (mem-keep-true (is_match lower q) (snapshot s).0 kept),
      )
