-- ===== src/Store/Providers.antt =====
-- internal/store/providers.go: the reads.
use astreo_gateway.Base.{
  ◌>>=◌, Option, none, some, List, [], ◌∷◌, ◌++◌, Text, codes, Result, ok, err,
}
use astreo_gateway.Model.{Provider}
use astreo_gateway.Store.Db.{
  Answer, row, no_rows, failed, Rows, refused, answered, ProviderRow, Db, int_to_bool,
}

-- `p.Headers`, with the empty map where the column is no JSON object
headers_of : Option (List (Text × Text)) → List (Text × Text)
headers_of none = []
headers_of (some h) = h

unfoldable pub scan_provider : Db → ProviderRow → Provider
unfolding headers_of int_to_bool
scan_provider db r = record {
  id = r.id;
  name = r.name;
  slug = r.slug;
  protocol = r.protocol;
  base_url = r.base_url;
  enabled = int_to_bool r.enabled;
  headers = headers_of (db.unmarshal_headers r.headers);
}

-- the tail that the three getters share: no row is no error
found_provider : Db → Text → Answer ProviderRow → Result Text (Option Provider)
found_provider db prefix (row r) = ok (some (scan_provider db r))
found_provider db prefix no_rows = ok none
found_provider db prefix (failed e) = err (prefix ++ e)

unfoldable pub get_provider_by_id : Db → Text → Result Text (Option Provider)
unfolding found_provider scan_provider
get_provider_by_id db id = found_provider db (codes "get provider: ") (db.provider_by_id id)

unfoldable pub get_provider_by_slug : Db → Text → Result Text (Option Provider)
unfolding found_provider scan_provider
get_provider_by_slug db slug =
    found_provider db (codes "get provider by slug: ") (db.provider_by_slug slug)

unfoldable pub get_provider_by_name : Db → Text → Result Text (Option Provider)
unfolding found_provider scan_provider
get_provider_by_name db name =
    found_provider db (codes "get provider by name: ") (db.provider_by_name name)

-- the loop over `rows.Next()`
scan_providers : Db → List (Result Text ProviderRow) → Option Text → Result Text (List Provider)
scan_providers db [] none = ok []
scan_providers db [] (some e) = err e
scan_providers db (err e ∷ rows) end = err (codes "scan provider: " ++ e)
scan_providers db (ok r ∷ rows) end = do
  rest ← scan_providers db rows end
  ok (scan_provider db r ∷ rest)

list_answer : Db → Rows ProviderRow → Result Text (List Provider)
unfolding scan_providers scan_provider
list_answer db (refused e) = err (codes "list providers: " ++ e)
list_answer db (answered rows end) = scan_providers db rows end

unfoldable pub list_providers : Db → Result Text (List Provider)
unfolding list_answer
list_providers db = list_answer db db.providers
