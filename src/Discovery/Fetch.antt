-- ===== src/Discovery/Fetch.antt =====
-- internal/discovery/discovery.go: `refreshProvider`, which asks a provider for its models.
-- The network is the parameter `exchange`, which may change the cache: it waits without the lock.
pub mod Heal
use astreo_gateway.Base.{
  if◌then◌else◌, ◌==◌, ◌++◌, ◌∷◌, [], List, some, none, Option, not, ℕ, Text, err, ok, Result,
  insert, lookup,
}
use astreo_gateway.Store.Providers.{get_provider_by_id}
use astreo_gateway.Protocol.Core.{ModelEntry}
use astreo_gateway.KeyPool.{get, Pool, Key}
use astreo_gateway.Store.Db.{Db}
use astreo_gateway.Model.{Provider}
use astreo_gateway.Discovery.{
  read_body, upstream_status, provider_disabled, fetch_failed, provider_missing,
  clear_runtime_stale_for, no_keys, new_request, unsupported_protocol, store_failed, parse_failed,
  RefreshError, Model, Cache, ProviderEntry,
}
use astreo_gateway.Protocol.{protocol_of, Protocol, Body, Registry}

-- What `NewRequestWithContext` and `httpC.Do` come to.
pub data ModelsReply : Type 0 where
  bad_models_request : Text → ModelsReply
  models_failed : Text → ModelsReply
  models_replied : ℕ → Body → ModelsReply

unfoldable pub listed_models : Provider → List ModelEntry → List Model
listed_models prov [] = []
listed_models prov (m ∷ ms) =
    record { provider_id = prov.id; model_id = m.id; owned_by = m.owned_by } ∷ listed_models prov ms

parsed_models : Provider → Result Text (List ModelEntry) → Result RefreshError (List Model)
parsed_models prov (err e) = err (parse_failed e)
parsed_models prov (ok entries) = ok (listed_models prov entries)

-- the reply, after the request
read_models : Protocol → Provider → Text → ModelsReply → Result RefreshError (List Model)
unfolding parsed_models listed_models
read_models proto prov url (bad_models_request e) = err (new_request e)
read_models proto prov url (models_failed e) = err (fetch_failed url e)
read_models proto prov url (models_replied status body) =
    if not (status == 200) then err (upstream_status url status) else elim body.failure [
      | some e ↦ err (read_body e)
      | none ↦ parsed_models prov (proto.parse_models body.bytes)
    ]

-- `m[k]` of the map of entries, with the zero entry where it has no `k`
abbrev entry_or_zero : Option ProviderEntry → ProviderEntry
entry_or_zero none = record { models = []; fetched_at = 0; failure = none }
entry_or_zero (some e) = e

-- the entry of a provider whose refresh failed: it keeps its models
unfoldable pub keep_models : Cache → Text → RefreshError → Cache
keep_models c provider_id e =
    let prev = entry_or_zero (lookup provider_id c.entries) in
    record c {
      entries =
          insert provider_id
            (record { models = prev.models; fetched_at = prev.fetched_at; failure = some e })
            c.entries;
    }

-- the entry of a provider whose refresh succeeded
unfoldable pub store_models : Cache → Text → List Model → ℕ → Cache
store_models c provider_id fetched now =
    clear_runtime_stale_for
      (record c {
        entries =
            insert provider_id (record { models = fetched; fetched_at = now; failure = none })
              c.entries;
      })
      provider_id

module _ (reg : Registry) (exchange : Cache → Text → List (Text × Text) → ModelsReply × Cache) where
  unfoldable pub fetch_by :
      Option Protocol → Provider → Text → Cache → Result RefreshError (List Model) × Cache
  unfolding read_models
  fetch_by none prov api_key c = (err (unsupported_protocol prov.protocol), c)
  fetch_by (some proto) prov api_key c =
      let url = proto.models_url prov.base_url in
      let (reply, later) = exchange c url (proto.models_auth api_key ++ prov.headers) in
      (read_models proto prov url reply, later)

  -- `fetchModels`
  unfoldable pub fetch_models : Provider → Text → Cache → Result RefreshError (List Model) × Cache
  unfolding fetch_by
  fetch_models prov api_key c = fetch_by (protocol_of reg prov.protocol) prov api_key c

  unfoldable pub after_fetch :
      Text → ℕ → Result RefreshError (List Model) → Cache → Result RefreshError (Unit {0}) × Cache
  after_fetch provider_id now (err e) c = (err e, keep_models c provider_id e)
  after_fetch provider_id now (ok fetched) c = (ok tt, store_models c provider_id fetched now)

  unfoldable pub with_api_key :
      Provider → Text → ℕ → Option Key → Cache → Result RefreshError (Unit {0}) × Cache
  unfolding after_fetch
  with_api_key prov provider_id later none c = (err no_keys, keep_models c provider_id no_keys)
  with_api_key prov provider_id later (some key) c =
      let (fetched, after) = fetch_models prov key.value c in
      after_fetch provider_id later fetched after

  unfoldable pub for_provider :
      Pool
      → Text
      → ℕ
      → ℕ
      → Result Text (Option Provider)
      → Cache
      → Result RefreshError (Unit {0}) × Cache
  unfolding with_api_key
  for_provider pool provider_id now later (err e) c = (err (store_failed e), c)
  for_provider pool provider_id now later (ok none) c = (err provider_missing, c)
  for_provider pool provider_id now later (ok (some prov)) c =
      if not prov.enabled
      then (err provider_disabled, c)
      else with_api_key prov provider_id later (get pool provider_id now) c

  -- `refreshProvider` at the instant `now`, with `later` the instant after the reply
  unfoldable pub refresh_provider :
      Db → Pool → Text → ℕ → ℕ → Cache → Result RefreshError (Unit {0}) × Cache
  unfolding for_provider
  refresh_provider db pool provider_id now later c =
      for_provider pool provider_id now later (get_provider_by_id db provider_id) c
