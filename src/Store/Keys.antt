-- ===== src/Store/Keys.antt =====
-- internal/store/api_keys.go and gateway_keys.go: the reads.
use astreo_gateway.Base.{
  ◌++◌, ◌∷◌, [], List, some, none, Option, codes, Text, ◌>>=◌, err, ok, Result,
}
use astreo_gateway.Model.{ApiKey, GatewayKey}
use astreo_gateway.Store.Db.{
  Answer, row, no_rows, failed, Rows, refused, answered, KeyRow, GatewayKeyRow, Db, int_to_bool,
}

key_of : KeyRow → ApiKey
key_of r = record {
  id = r.id;
  provider_id = r.provider_id;
  label = r.label;
  value = r.key_value;
  priority = r.priority;
  enabled = int_to_bool r.enabled;
}

scan_keys : List (Result Text KeyRow) → Option Text → Result Text (List ApiKey)
scan_keys [] none = ok []
scan_keys [] (some e) = err e
scan_keys (err e ∷ rows) end = err (codes "scan api_key: " ++ e)
scan_keys (ok r ∷ rows) end = do rest ← scan_keys rows end; ok (key_of r ∷ rest)

keys_answer : Rows KeyRow → Result Text (List ApiKey)
keys_answer (refused e) = err (codes "list api_keys: " ++ e)
keys_answer (answered rows end) = scan_keys rows end

unfoldable pub list_api_keys_by_provider : Db → Text → Result Text (List ApiKey)
unfolding keys_answer scan_keys key_of int_to_bool
list_api_keys_by_provider db provider_id = keys_answer (db.api_keys provider_id)

gateway_key_of : GatewayKeyRow → GatewayKey
gateway_key_of r = record {
  id = r.id;
  label = r.label;
  hash = r.key_hash;
  prefix = r.prefix;
  enabled = int_to_bool r.enabled;
}

unfoldable pub key_verified : Answer GatewayKeyRow → Result Text (Option GatewayKey)
unfolding gateway_key_of int_to_bool
key_verified (row r) = ok (some (gateway_key_of r))
key_verified no_rows = ok none
key_verified (failed e) = err (codes "verify gateway_key: " ++ e)

-- `sha256_hex` is Go's `crypto/sha256` with hexadecimal output.
unfoldable pub verify_gateway_key : (Text → Text) → Db → Text → Result Text (Option GatewayKey)
unfolding key_verified gateway_key_of int_to_bool
verify_gateway_key sha256_hex db token = key_verified (db.gateway_key_by_hash (sha256_hex token))
