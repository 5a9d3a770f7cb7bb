-- ===== src/Store/Aliases.antt =====
-- internal/store/aliases.go: the reads. An alias is read with its targets.
use astreo_gateway.Base.{
  ◌>>=◌, Option, none, some, List, [], ◌∷◌, ◌++◌, Text, codes, Result, ok, err,
}
use astreo_gateway.Model.{Alias, AliasTarget}
use astreo_gateway.Store.Db.{
  Answer, row, no_rows, failed, Rows, refused, answered, AliasRow, TargetRow, Db, int_to_bool,
}

target_of : TargetRow → AliasTarget
target_of r = record {
  provider_id = r.provider_id;
  model_name = r.model_name;
  position = r.position;
}

scan_targets : List (Result Text TargetRow) → Option Text → Result Text (List AliasTarget)
scan_targets [] none = ok []
scan_targets [] (some e) = err e
scan_targets (err e ∷ rows) end = err (codes "scan target: " ++ e)
scan_targets (ok r ∷ rows) end = do rest ← scan_targets rows end; ok (target_of r ∷ rest)

targets_answer : Rows TargetRow → Result Text (List AliasTarget)
targets_answer (refused e) = err (codes "list targets: " ++ e)
targets_answer (answered rows end) = scan_targets rows end

unfoldable pub list_alias_targets : Db → Text → Result Text (List AliasTarget)
unfolding targets_answer scan_targets target_of
list_alias_targets db alias_id = targets_answer (db.alias_targets alias_id)

-- an alias row with its targets
with_targets : Db → AliasRow → Result Text Alias
with_targets db r = do
  targets ← list_alias_targets db r.id
  ok (record {
    id = r.id;
    name = r.name;
    routing = r.routing;
    enabled = int_to_bool r.enabled;
    targets = targets;
  })

found_alias : Db → Text → Answer AliasRow → Result Text (Option Alias)
unfolding with_targets
found_alias db prefix (row r) = do alias ← with_targets db r; ok (some alias)
found_alias db prefix no_rows = ok none
found_alias db prefix (failed e) = err (prefix ++ e)

unfoldable pub get_alias_by_name : Db → Text → Result Text (Option Alias)
unfolding found_alias int_to_bool
get_alias_by_name db name = found_alias db (codes "get alias by name: ") (db.alias_by_name name)

scan_aliases : Db → List (Result Text AliasRow) → Option Text → Result Text (List Alias)
scan_aliases db [] none = ok []
scan_aliases db [] (some e) = err e
scan_aliases db (err e ∷ rows) end = err (codes "scan alias: " ++ e)
scan_aliases db (ok r ∷ rows) end = do
  alias ← with_targets db r
  rest ← scan_aliases db rows end
  ok (alias ∷ rest)

aliases_answer : Db → Rows AliasRow → Result Text (List Alias)
aliases_answer db (refused e) = err (codes "list aliases: " ++ e)
aliases_answer db (answered rows end) = scan_aliases db rows end

unfoldable pub list_aliases : Db → Result Text (List Alias)
unfolding aliases_answer scan_aliases with_targets int_to_bool
list_aliases db = aliases_answer db db.aliases
