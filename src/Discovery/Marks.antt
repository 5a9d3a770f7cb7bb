-- ===== src/Discovery/Marks.antt =====
-- internal/discovery/discovery.go: what `MarkRuntimeStale` does to the stale models.
use astreo_gateway.Base.{
  arith, List, some, none, Option, true, ◌∙◌, refl, ◌≡◌, ℕ, Text, lookup-insert_self, insert,
  lookup,
}
use astreo_gateway.Discovery.Maps.{mark_runtime_stale-IsCache, IsCache}
use astreo_gateway.Discovery.Known.{is_stale-known_of, is_marked, stale_by}
use astreo_gateway.Discovery.{
  known_of, is_stale, ProviderEntry, Cache, marks_or_empty, mark_runtime_stale,
}

is_marked-insert :
    (model_name : Text) (now : ℕ) (marks : List (Text × ℕ))
    → is_marked model_name (some (insert model_name now marks)) ≡ true
unfolding is_marked
is_marked-insert model_name now marks = ground (arith, lookup-insert_self model_name now marks)

stale_by-marked :
    (model_name : Text) (now : ℕ) (marks : List (Text × ℕ)) (o : Option ProviderEntry)
    → stale_by model_name (some (insert model_name now marks)) o ≡ true
unfolding stale_by
stale_by-marked model_name now marks none = refl
stale_by-marked model_name now marks (some e) = rw (is_marked-insert model_name now marks)

lookup-mark_runtime_stale :
    (c : Cache) (provider_id model_name : Text) (now : ℕ)
    → lookup provider_id (mark_runtime_stale c provider_id model_name now).runtime_stale
      ≡ some (insert model_name now (marks_or_empty (lookup provider_id c.runtime_stale)))
unfolding mark_runtime_stale
lookup-mark_runtime_stale c provider_id model_name now =
    lookup-insert_self provider_id _ c.runtime_stale

-- In a cache whose maps have distinct keys, a model that `MarkRuntimeStale` marks is stale, whatever
-- the provider's entry lists.
pub is_stale-mark_runtime_stale :
    (c : Cache) (provider_id model_name : Text) (now : ℕ)
    → IsCache c
    → is_stale (known_of (mark_runtime_stale c provider_id model_name now)) provider_id model_name
      ≡ true
is_stale-mark_runtime_stale c provider_id model_name now h =
    is_stale-known_of (mark_runtime_stale c provider_id model_name now) provider_id model_name
      (mark_runtime_stale-IsCache c provider_id model_name now h)
    ∙ rw (lookup-mark_runtime_stale c provider_id model_name now)
        (stale_by-marked model_name now (marks_or_empty (lookup provider_id c.runtime_stale)) _)

-- In a cache whose maps have distinct keys, one mark on a provider that has no entry makes all of
-- the provider's models stale, also those that were not marked.
pub is_stale-mark_runtime_stale_all :
    (c : Cache) (provider_id model_name other_model : Text) (now : ℕ)
    → IsCache c
    → lookup provider_id c.entries ≡ none
    → is_stale (known_of (mark_runtime_stale c provider_id model_name now)) provider_id other_model
      ≡ true
unfolding mark_runtime_stale stale_by
is_stale-mark_runtime_stale_all c provider_id model_name other_model now h missing =
    is_stale-known_of (mark_runtime_stale c provider_id model_name now) provider_id other_model
      (mark_runtime_stale-IsCache c provider_id model_name now h)
    ∙ rw (lookup-mark_runtime_stale c provider_id model_name now, missing)
