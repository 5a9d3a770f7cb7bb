-- ===== src/Routing.antt =====
-- internal/routing/routing.go: from the directive of a request to a provider, a key and a model.
pub mod Choose
pub mod Resolve
pub mod Examples
pub mod Failover
use astreo_gateway.Base.{
  find?, keep, get_elem?, length, if◌then◌else◌, ◌==◌, ltb, ◌++◌, ◌∷◌, [], List, some, none, Option,
  ◌&&◌, not, false, Bool, ◌%◌, ◌-◌, ◌+◌, ℕ, codes, Text, cut, ◌≐◌, ◌>>=◌, err, ok, Result, member,
  insert, lookup,
}
use astreo_gateway.Model.{Provider, Alias, AliasTarget}
use astreo_gateway.Store.Db.{Db}
use astreo_gateway.Store.Providers.{
  get_provider_by_id, get_provider_by_slug, get_provider_by_name, list_providers,
}
use astreo_gateway.Store.Aliases.{get_alias_by_name}
use astreo_gateway.Protocol.{Registry, protocol_of, Protocol}
use astreo_gateway.KeyPool.{Key, Pool, get}
use astreo_gateway.Discovery.{Cache, StaleTarget, stale_targets}

pub data RoutingError : Type 0 where
  unknown_model : RoutingError
  alias_no_targets : RoutingError
  provider_not_found : RoutingError
  protocol_mismatch : RoutingError
  no_api_key : RoutingError
  wrapped : Text → RoutingError

pub record Resolved : Type 0 where
  pub provider : Provider
  pub api_key : Key
  pub model_name : Text
  pub alias_routing : Text

-- The selector, with the components that it reads. `positions` is `rrPositions`, whose numbers are
-- 64-bit patterns.
pub record Selector : Type 0 where
  pub db : Db
  pub cache : Cache
  pub pool : Pool
  pub positions : List (Text × ℕ)

-- `providerID + ":" + modelName`
unfoldable pub target_key : Text → Text → Text
target_key provider_id model_name = provider_id ++ b':' ∷ model_name

abbrev pub lift {ℓ} : {A : Type ℓ} → Text → Result Text A → Result RoutingError A
lift prefix (ok a) = ok a
lift prefix (err e) = err (wrapped (prefix ++ e))

-- the lookup by ID, by slug, by name, each tried where the one before found none
abbrev or_else :
    Option Provider → Result RoutingError (Option Provider) → Result RoutingError (Option Provider)
or_else (some p) next = ok (some p)
or_else none next = next

unfoldable pub find_provider : Db → Text → Result RoutingError (Option Provider)
find_provider db ref = do
  by_id ← lift (codes "get provider: ") (get_provider_by_id db ref)
  by_slug ← or_else by_id (lift (codes "get provider by slug: ") (get_provider_by_slug db ref))
  or_else by_slug (lift (codes "get provider by name: ") (get_provider_by_name db ref))

unfoldable pub enabled_provider : Option Provider → Result RoutingError Provider
enabled_provider none = err provider_not_found
enabled_provider (some p) = if p.enabled then ok p else err provider_not_found

unfoldable pub known_protocol : Option Protocol → Result RoutingError (Unit {0})
known_protocol none = err protocol_mismatch
known_protocol (some _) = ok tt

unfoldable pub key_or_error : Option Key → Result RoutingError Key
key_or_error none = err no_api_key
key_or_error (some k) = ok k

unfoldable pub resolve_direct : Registry → ℕ → Selector → Text → Text → Result RoutingError Resolved
unfolding known_protocol key_or_error
resolve_direct reg now s provider_ref model_name = do
  found ← find_provider s.db provider_ref
  p ← enabled_provider found
  _ ← known_protocol (protocol_of reg p.protocol)
  k ← key_or_error (get s.pool p.id now)
  ok (record { provider = p; api_key = k; model_name = model_name; alias_routing = [] })

-- the keys of `buildStaleSet`
unfoldable pub stale_keys : Text → List StaleTarget → List Text
stale_keys alias_id [] = []
stale_keys alias_id (st ∷ sts) =
    if st.alias_id ≐ alias_id
    then target_key st.provider_id st.model_name ∷ stale_keys alias_id sts
    else stale_keys alias_id sts

unfoldable pub build_stale_set : Selector → Text → List Text
unfolding stale_keys
build_stale_set s alias_id = stale_keys alias_id (stale_targets s.db s.cache)

unfoldable pub provider_map : List Provider → List (Text × Provider) → List (Text × Provider)
provider_map [] m = m
provider_map (p ∷ ps) m = provider_map ps (insert p.id p m)

unfoldable pub load_provider_map : Selector → Result RoutingError (List (Text × Provider))
unfolding provider_map
load_provider_map s = do
  ps ← lift (codes "list providers: ") (list_providers s.db)
  ok (provider_map ps [])

abbrev is_enabled : Option Provider → Bool
is_enabled none = false
is_enabled (some p) = p.enabled

-- a target that neither loop skips: not stale, and its provider there and enabled
unfoldable pub is_usable : List Text → List (Text × Provider) → AliasTarget → Bool
is_usable stale provs t =
    not (member (target_key t.provider_id t.model_name) stale)
    && is_enabled (lookup t.provider_id provs)

-- `selectTarget` on the active targets. `draw` is `rand.Intn`. The new positions come with the
-- target; there is none where Go's index is out of range and the request panics.
unfoldable pub position_of : Option ℕ → ℕ
position_of none = 0
position_of (some pos) = pos

-- `pos % n` of a 64-bit pattern: Go's remainder of a negative number is negative or 0
unfoldable pub index_at : ℕ → List AliasTarget → Option AliasTarget
index_at pos active =
    if ltb pos 9223372036854775808
    then get_elem? active (pos % length active)
    else if (18446744073709551616 - pos) % length active == 0
    then get_elem? active 0
    else none

unfoldable pub select_target :
    (ℕ → ℕ) → List (Text × ℕ) → Alias → List AliasTarget → Option AliasTarget × List (Text × ℕ)
unfolding position_of index_at
select_target draw positions alias active =
    let pos = position_of (lookup alias.id positions) in
    if alias.routing ≐ codes "round_robin"
    then (index_at pos active, insert alias.id ((pos + 1) % 18446744073709551616) positions)
    else if alias.routing ≐ codes "random"
    then (get_elem? active (draw (length active)), positions)
    else (get_elem? active 0, positions)

enabled_alias : Option Alias → Result RoutingError Alias
enabled_alias none = err unknown_model
enabled_alias (some a) = if a.enabled then ok a else err unknown_model

-- `len(active) == 0`
some_active :
    Alias
    → List (Text × Provider)
    → List AliasTarget
    → Result RoutingError (Alias × List AliasTarget × List (Text × Provider))
some_active alias provs [] = err alias_no_targets
some_active alias provs (t ∷ ts) = ok (alias, t ∷ ts, provs)

-- what `resolveAlias` knows before it selects: the alias, its active targets and the providers
unfoldable pub active_targets :
    Selector → Text → Result RoutingError (Alias × List AliasTarget × List (Text × Provider))
unfolding enabled_alias is_usable some_active
active_targets s name = do
  found ← lift (codes "get alias: ") (get_alias_by_name s.db name)
  alias ← enabled_alias found
  provs ← load_provider_map s
  some_active alias provs (keep (is_usable (build_stale_set s alias.id) provs) alias.targets)

-- Go's outcome of a request: an error value, or a panic
pub data Outcome (A : Type 0) : Type 0 where
  returned : Result RoutingError A → Outcome A
  panicked : Outcome A

no_provider : Provider
no_provider = record {
  id = [];
  name = [];
  slug = [];
  protocol = [];
  base_url = [];
  enabled = false;
  headers = [];
}

-- `provMap[id]`, the zero value where it is missing
unfoldable pub provider_or_zero : Option Provider → Provider
unfolding no_provider
provider_or_zero none = no_provider
provider_or_zero (some p) = p

with_target : ℕ → Selector → Alias → List (Text × Provider) → Option AliasTarget → Outcome Resolved
unfolding provider_or_zero key_or_error
with_target now s alias provs none = panicked
with_target now s alias provs (some t) = returned (do
  k ← key_or_error (get s.pool t.provider_id now)
  ok (record {
    provider = provider_or_zero (lookup t.provider_id provs);
    api_key = k;
    model_name = t.model_name;
    alias_routing = alias.routing;
  }))

alias_resolved :
    (ℕ → ℕ)
    → ℕ
    → Selector
    → Result RoutingError (Alias × List AliasTarget × List (Text × Provider))
    → Outcome Resolved × Selector
unfolding with_target
alias_resolved draw now s (err e) = (returned (err e), s)
alias_resolved draw now s (ok (alias, active, provs)) =
    let (target, positions) = select_target draw s.positions alias active in
    (with_target now s alias provs target, record s { positions = positions })

unfoldable pub resolve_alias : (ℕ → ℕ) → ℕ → Selector → Text → Outcome Resolved × Selector
unfolding alias_resolved
resolve_alias draw now s name = alias_resolved draw now s (active_targets s name)

unfoldable pub resolve_split :
    Registry → (ℕ → ℕ) → ℕ → Selector → Text → Option (Text × Text) → Outcome Resolved × Selector
resolve_split reg draw now s directive none = resolve_alias draw now s directive
resolve_split reg draw now s directive (some (ref, model_name)) =
    (returned (resolve_direct reg now s ref model_name), s)

unfoldable pub resolve : Registry → (ℕ → ℕ) → ℕ → Selector → Text → Outcome Resolved × Selector
unfolding resolve_split
resolve reg draw now s directive = resolve_split reg draw now s directive (cut b':' directive)

-- a target that the loop of `NextFailoverTarget` takes
unfoldable pub is_next : List Text → List Text → List (Text × Provider) → AliasTarget → Bool
unfolding is_usable
is_next tried stale provs t =
    not (member (target_key t.provider_id t.model_name) tried) && is_usable stale provs t

found_target :
    List (Text × Provider) → Option AliasTarget → Result RoutingError (AliasTarget × Provider)
unfolding provider_or_zero
found_target provs none = err alias_no_targets
found_target provs (some t) = ok (t, provider_or_zero (lookup t.provider_id provs))

unfoldable pub next_failover_target :
    Selector → Alias → List Text → Result RoutingError (AliasTarget × Provider)
unfolding is_next found_target
next_failover_target s alias tried = do
  provs ← load_provider_map s
  found_target provs (find? (is_next tried (build_stale_set s alias.id) provs) alias.targets)

unfoldable pub lookup_alias : Selector → Text → Result Text (Option Alias)
lookup_alias s name = get_alias_by_name s.db name
