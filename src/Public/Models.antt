-- ===== src/Public/Models.antt =====
-- internal/api/public/models.go: the models that a client can name.
use astreo_gateway.Base.{
  if◌then◌else◌, map, ◌++◌, ◌∷◌, [], List, some, none, Option, is_empty, codes, Text, err, ok,
  Result, insert, lookup,
}
use astreo_gateway.Store.Db.{Db}
use astreo_gateway.Store.Providers.{list_providers}
use astreo_gateway.Store.Aliases.{list_aliases}
use astreo_gateway.Model.{Provider, Alias}
use astreo_gateway.Discovery
use astreo_gateway.Discovery.{Cache, models}
use astreo_gateway.Protocol.Core.{ModelEntry}

prefix_of : Provider → Text
prefix_of p = if is_empty p.slug then p.id else p.slug

-- `idToSlug`
unfoldable pub id_to_slug : List Provider → List (Text × Text) → List (Text × Text)
unfolding prefix_of
id_to_slug [] known = known
id_to_slug (p ∷ ps) known = id_to_slug ps (insert p.id (prefix_of p) known)

shown_prefix : Text → Option Text → Text
shown_prefix id none = id
shown_prefix id (some slug) = if is_empty slug then id else slug

cached_entry : List (Text × Text) → Discovery.Model → ModelEntry
cached_entry slugs m = record {
  id = shown_prefix m.provider_id (lookup m.provider_id slugs) ++ (codes ":" ++ m.model_id);
  object = codes "model";
  owned_by = m.owned_by;
}

alias_entries : List Alias → List ModelEntry
alias_entries [] = []
alias_entries (a ∷ more) =
    let rest = alias_entries more in
    if a.enabled
    then record { id = a.name; object = codes "model"; owned_by = codes "alias" } ∷ rest
    else rest

entries_with : Cache → List Provider → Result Text (List Alias) → Result Text (List ModelEntry)
entries_with cache providers (err _) = err (codes "{\"error\":\"internal error\"}")
entries_with cache providers (ok aliases) =
    ok
      (map (cached_entry (id_to_slug providers [])) (models cache.entries) ++ alias_entries aliases)

entries_for :
    Cache → Result Text (List Alias) → Result Text (List Provider) → Result Text (List ModelEntry)
entries_for cache aliases (err _) = err (codes "{\"error\":\"internal error\"}")
entries_for cache aliases (ok providers) = entries_with cache providers aliases

-- `listModels`: the `data` of the reply, or the text of the reply 500
unfoldable pub list_models : Db → Cache → Result Text (List ModelEntry)
unfolding entries_for entries_with alias_entries cached_entry shown_prefix id_to_slug list_providers
    list_aliases models
list_models db cache = entries_for cache (list_aliases db) (list_providers db)
