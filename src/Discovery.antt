-- ===== src/Discovery.antt =====
-- internal/discovery/discovery.go: the cache of the models that each provider lists, and of the
-- models that a request found missing. Instants are numbers, and the zero `time.Time` is 0.
-- A Go map is an association list with distinct keys; the cache's lock makes each function one step.
pub mod Maps
pub mod Known
pub mod Marks
pub mod Fetch
pub mod Examples
use astreo_gateway.Base.{
  any, length, if◌then◌else◌, ◌==◌, ◌++◌, ◌∷◌, [], List, some, none, Option, ◌&&◌, not, false, true,
  Bool, ℕ, Text, ◌≐◌, err, ok, Result, delete, insert, lookup,
}
use astreo_gateway.Model.{Alias, AliasTarget}
use astreo_gateway.Store.Db.{Db}
use astreo_gateway.Store.Aliases.{list_aliases}

pub record Model : Type 0 where
  pub provider_id : Text
  pub model_id : Text
  pub owned_by : Text

pub record StaleTarget : Type 0 where
  pub alias_id : Text
  pub alias_name : Text
  pub provider_id : Text
  pub model_name : Text

-- the errors of a refresh, with what they print
pub data RefreshError : Type 0 where
  store_failed : Text → RefreshError
  provider_missing : RefreshError
  provider_disabled : RefreshError
  no_keys : RefreshError
  unsupported_protocol : Text → RefreshError
  new_request : Text → RefreshError
  fetch_failed : Text → Text → RefreshError
  upstream_status : Text → ℕ → RefreshError
  read_body : Text → RefreshError
  parse_failed : Text → RefreshError

pub record ProviderEntry : Type 0 where
  pub models : List Model
  pub fetched_at : ℕ
  pub failure : Option RefreshError

pub record Cache : Type 0 where
  pub entries : List (Text × ProviderEntry)
  pub runtime_stale : List (Text × List (Text × ℕ))

unfoldable pub new : Cache
new = record { entries = []; runtime_stale = [] }

-- `Models`, in the order of the map
unfoldable pub models : List (Text × ProviderEntry) → List Model
models [] = []
models ((_, e) ∷ es) = e.models ++ models es

unfoldable pub has_model_in : Text → Option ProviderEntry → Bool
has_model_in model_id none = false
has_model_in model_id (some e) = any (λ m. m.model_id ≐ model_id) e.models

unfoldable pub has_model : Cache → Text → Text → Bool
unfolding has_model_in
has_model c provider_id model_id = has_model_in model_id (lookup provider_id c.entries)

unfoldable pub remove : Cache → Text → Cache
remove c provider_id = record c { entries = delete provider_id c.entries }

-- `m[k]` of a map of maps, with the nil map where it has no `k`
abbrev pub marks_or_empty {ℓ} : {A : Type ℓ} → Option (List A) → List A
marks_or_empty none = []
marks_or_empty (some marks) = marks

unfoldable pub mark_runtime_stale : Cache → Text → Text → ℕ → Cache
mark_runtime_stale c provider_id model_name now =
    let marks = marks_or_empty (lookup provider_id c.runtime_stale) in
    record c { runtime_stale = insert provider_id (insert model_name now marks) c.runtime_stale }

unfoldable pub clear_marks :
    Text → Option (List (Text × ℕ)) → List (Text × List (Text × ℕ)) → List (Text × List (Text × ℕ))
clear_marks provider_id none m = m
clear_marks provider_id (some _) m = insert provider_id [] m

unfoldable pub clear_runtime_stale_for : Cache → Text → Cache
unfolding clear_marks
clear_runtime_stale_for c provider_id = record c {
  runtime_stale = clear_marks provider_id (lookup provider_id c.runtime_stale) c.runtime_stale;
}

-- the set of a provider's model IDs, each with `true`
unfoldable pub model_set : List Model → List (Text × Bool)
model_set [] = []
model_set (m ∷ ms) = insert m.model_id true (model_set ms)

-- an entry that no fetch has filled yet
unfoldable pub is_blank : ProviderEntry → Bool
is_blank e = e.fetched_at == 0 && length e.models == 0

-- the first loop of `StaleTargets`
unfoldable pub known_entries : List (Text × ProviderEntry) → List (Text × List (Text × Bool))
unfolding is_blank model_set
known_entries [] = []
known_entries ((pid, e) ∷ es) =
    if is_blank e then known_entries es else (pid, model_set e.models) ∷ known_entries es

-- the inner loop of `injectRuntimeStale`
unfoldable pub set_missing : List (Text × ℕ) → List (Text × Bool) → List (Text × Bool)
set_missing [] known = known
set_missing ((m, _) ∷ marks) known = set_missing marks (insert m false known)

unfoldable pub inject_runtime_stale :
    List (Text × List (Text × ℕ))
    → List (Text × List (Text × Bool))
    → List (Text × List (Text × Bool))
unfolding set_missing
inject_runtime_stale [] known = known
inject_runtime_stale ((pid, marks) ∷ rest) known =
    inject_runtime_stale rest
      (insert pid (set_missing marks (marks_or_empty (lookup pid known))) known)

unfoldable pub known_of : Cache → List (Text × List (Text × Bool))
unfolding known_entries inject_runtime_stale
known_of c = inject_runtime_stale c.runtime_stale (known_entries c.entries)

-- `models[name]` of a `map[string]bool`
abbrev pub is_set : Option Bool → Bool
is_set none = false
is_set (some b) = b

unfoldable pub missing_in : Text → Option (List (Text × Bool)) → Bool
missing_in model_name none = false
missing_in model_name (some ms) = not (is_set (lookup model_name ms))

-- the test of the last loop of `StaleTargets`
unfoldable pub is_stale : List (Text × List (Text × Bool)) → Text → Text → Bool
unfolding missing_in
is_stale known provider_id model_name = missing_in model_name (lookup provider_id known)

stale_of_alias : List (Text × List (Text × Bool)) → Alias → List AliasTarget → List StaleTarget
stale_of_alias known a [] = []
stale_of_alias known a (t ∷ ts) =
    let rest = stale_of_alias known a ts in
    if is_stale known t.provider_id t.model_name
    then record {
      alias_id = a.id;
      alias_name = a.name;
      provider_id = t.provider_id;
      model_name = t.model_name;
    }
      ∷ rest
    else rest

stale_of_aliases : List (Text × List (Text × Bool)) → List Alias → List StaleTarget
stale_of_aliases known [] = []
stale_of_aliases known (a ∷ as_) = stale_of_alias known a a.targets ++ stale_of_aliases known as_

stale_listed : List (Text × List (Text × Bool)) → Result Text (List Alias) → List StaleTarget
stale_listed known (ok all_aliases) = stale_of_aliases known all_aliases
stale_listed known (err _) = []

unfoldable pub stale_targets : Db → Cache → List StaleTarget
unfolding stale_listed stale_of_aliases stale_of_alias known_of is_stale
stale_targets db c = stale_listed (known_of c) (list_aliases db)
