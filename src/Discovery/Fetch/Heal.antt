-- ===== src/Discovery/Fetch/Heal.antt =====
-- internal/discovery/discovery.go: what a refresh does to the staleness of a provider's models.
use astreo_gateway.Base.{
  Option-cases, if◌then◌else◌, arith, [], List, some, none, Option, not, false, true, Bool, inr,
  inl, ◌≢◌, ◌∙◌, ◌≡◌, ℕ, Text, lookup-insert_self, err, ok, Result, lookup,
}
use astreo_gateway.Store.Providers.{get_provider_by_id}
use astreo_gateway.KeyPool.{get, Key, Pool}
use astreo_gateway.Store.Db.{Db}
use astreo_gateway.Model.{Provider}
use astreo_gateway.Discovery.Known.{is_marked, stale_by, is_stale-known_of}
use astreo_gateway.Discovery.Maps.{insert-IsMap, IsCache}
use astreo_gateway.Discovery.Fetch.{
  with_api_key, fetch_by, for_provider, fetch_models, after_fetch, refresh_provider, store_models,
  ModelsReply,
}
use astreo_gateway.Protocol.{protocol_of, Protocol, Registry}
use astreo_gateway.Discovery.{
  has_model_in, is_blank, provider_disabled, ProviderEntry, RefreshError, has_model, known_of,
  Model, clear_marks, is_stale, clear_runtime_stale_for, Cache,
}

-- the provider's stale models are those that its entry does not list
abbrev pub IsHealed : Cache → Text → Type 0
IsHealed c provider_id =
    (model_name : Text)
    → is_stale (known_of c) provider_id model_name ≡ not (has_model c provider_id model_name)

clear_runtime_stale_for-IsCache :
    (c : Cache) (provider_id : Text) → IsCache c → IsCache (clear_runtime_stale_for c provider_id)
unfolding clear_runtime_stale_for clear_marks
clear_runtime_stale_for-IsCache c provider_id h =
    elim (Option-cases (lookup provider_id c.runtime_stale)) [
      | inl e ↦ rw e (record { entries = h.entries; runtime_stale = h.runtime_stale })
      | inr (marks, e) ↦ rw e (record {
        entries = h.entries;
        runtime_stale = insert-IsMap provider_id [] c.runtime_stale h.runtime_stale;
      })
    ]

store_models-IsCache :
    (c : Cache) (provider_id : Text) (fetched : List Model) (now : ℕ)
    → IsCache c
    → IsCache (store_models c provider_id fetched now)
unfolding store_models
store_models-IsCache c provider_id fetched now h =
    clear_runtime_stale_for-IsCache _ provider_id (record {
      entries = insert-IsMap provider_id _ c.entries h.entries;
      runtime_stale = h.runtime_stale;
    })

abbrev fresh_entry : List Model → ℕ → ProviderEntry
fresh_entry fetched now = record { models = fetched; fetched_at = now; failure = none }

-- what clearing leaves of a provider's marks
cleared : Option (List (Text × ℕ)) → Option (List (Text × ℕ))
cleared none = none
cleared (some _) = some []

lookup-clear_marks :
    (provider_id : Text) (marks : List (Text × List (Text × ℕ)))
    → lookup provider_id (clear_marks provider_id (lookup provider_id marks) marks)
      ≡ cleared (lookup provider_id marks)
unfolding clear_marks cleared
lookup-clear_marks provider_id marks = elim (Option-cases (lookup provider_id marks)) [
  | inl e ↦ rw e e
  | inr (ms, e) ↦ rw e (lookup-insert_self provider_id [] marks)
]

stale_by-cleared :
    (m : Text) (fetched : List Model) (now : ℕ) (o : Option (List (Text × ℕ)))
    → now ≢ 0
    → stale_by m (cleared o) (some (fresh_entry fetched now))
      ≡ not (has_model_in m (some (fresh_entry fetched now)))
unfolding stale_by cleared is_blank is_marked lookup
stale_by-cleared m fetched now none later = ground arith
stale_by-cleared m fetched now (some marks) later = ground arith

store_models-IsHealed :
    (c : Cache) (provider_id : Text) (fetched : List Model) (now : ℕ)
    → IsCache c
    → now ≢ 0
    → IsHealed (store_models c provider_id fetched now) provider_id
unfolding store_models clear_runtime_stale_for has_model
store_models-IsHealed c provider_id fetched now h later m =
    let listed = lookup-insert_self provider_id (fresh_entry fetched now) c.entries in
    is_stale-known_of (store_models c provider_id fetched now) provider_id m
      (store_models-IsCache c provider_id fetched now h)
    ∙ rw (lookup-clear_marks provider_id c.runtime_stale, listed)
        (stale_by-cleared m fetched now (lookup provider_id c.runtime_stale) later)

module _ (reg : Registry) (exchange : Cache → Text → List (Text × Text) → ModelsReply × Cache)
    (keeps : (c : Cache) (url : Text) (headers : List (Text × Text))
      → IsCache c
      → IsCache (exchange c url headers).1) where
  after_fetch-IsHealed :
      (provider_id : Text) (now : ℕ) (r : Result RefreshError (List Model)) (c : Cache)
      → IsCache c
      → now ≢ 0
      → (after_fetch reg exchange provider_id now r c).0 ≡ ok tt
      → IsHealed (after_fetch reg exchange provider_id now r c).1 provider_id
  unfolding after_fetch
  after_fetch-IsHealed provider_id now (err e) c h later read = cc
  after_fetch-IsHealed provider_id now (ok fetched) c h later read =
      store_models-IsHealed c provider_id fetched now h later

  fetch_models-IsCache :
      (prov : Provider) (api_key : Text) (c : Cache)
      → IsCache c
      → IsCache (fetch_models reg exchange prov api_key c).1
  unfolding fetch_models fetch_by
  fetch_models-IsCache prov api_key c h = by_protocol (protocol_of reg prov.protocol)
    where
      by_protocol : (o : Option Protocol) → IsCache (fetch_by reg exchange o prov api_key c).1
      by_protocol none = h
      by_protocol (some proto) = keeps c _ _ h

  -- Where the network and what runs meanwhile keep the cache's maps, a refresh that succeeds, at an
  -- instant other than the zero time, leaves exactly those of the provider's models stale that its
  -- new entry does not list: whatever was marked before is forgotten.
  pub refresh_provider-IsHealed :
      (db : Db) (pool : Pool) (provider_id : Text) (now later : ℕ) (c : Cache)
      → IsCache c
      → later ≢ 0
      → (refresh_provider reg exchange db pool provider_id now later c).0 ≡ ok tt
      → IsHealed (refresh_provider reg exchange db pool provider_id now later c).1 provider_id
  unfolding refresh_provider for_provider with_api_key
  refresh_provider-IsHealed db pool provider_id now later c h after read =
      by_provider (get_provider_by_id db provider_id) read
    where
      by_key :
          (prov : Provider) (o : Option Key)
          → (with_api_key reg exchange prov provider_id later o c).0 ≡ ok tt
          → IsHealed (with_api_key reg exchange prov provider_id later o c).1 provider_id
      by_key prov none read = cc
      by_key prov (some key) read =
          after_fetch-IsHealed provider_id later (fetch_models reg exchange prov key.value c).0
            (fetch_models reg exchange prov key.value c).1 (fetch_models-IsCache prov key.value c h)
            after read

      by_enabled :
          (b : Bool) (r : Result RefreshError (Unit {0}) × Cache)
          → (r.0 ≡ ok tt → IsHealed r.1 provider_id)
          → (if not b then (err provider_disabled, c) else r).0 ≡ ok tt
          → IsHealed (if not b then (err provider_disabled, c) else r).1 provider_id
      by_enabled true r k read = k read
      by_enabled false r k read = cc

      by_provider :
          (r : Result Text (Option Provider))
          → (for_provider reg exchange pool provider_id now later r c).0 ≡ ok tt
          → IsHealed (for_provider reg exchange pool provider_id now later r c).1 provider_id
      by_provider (err e) read = cc
      by_provider (ok none) read = cc
      by_provider (ok (some prov)) read =
          by_enabled prov.enabled
            (with_api_key reg exchange prov provider_id later (get pool provider_id now) c)
            (by_key prov (get pool provider_id now)) read
