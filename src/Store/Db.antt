-- ===== src/Store/Db.antt =====
-- What SQLite answers to the statements of internal/store: a parameter of every function that reads.
use astreo_gateway.Base.{ℕ, zero, suc, Bool, true, false, List, Option, Text, Result}

-- `QueryRow(...).Scan(...)`: a row, `sql.ErrNoRows`, or another error.
pub data Answer (A : Type 0) : Type 0 where
  row : A → Answer A
  no_rows : Answer A
  failed : Text → Answer A

-- `Query(...)`: refused, or the rows in order, each scanned or not, and what `rows.Err()` says.
pub data Rows (A : Type 0) : Type 0 where
  refused : Text → Rows A
  answered : List (Result Text A) → Option Text → Rows A

pub record ProviderRow : Type 0 where
  pub id : Text
  pub name : Text
  pub slug : Text
  pub protocol : Text
  pub base_url : Text
  pub enabled : ℕ
  pub headers : Text

pub record AliasRow : Type 0 where
  pub id : Text
  pub name : Text
  pub routing : Text
  pub enabled : ℕ

pub record TargetRow : Type 0 where
  pub provider_id : Text
  pub model_name : Text
  pub position : ℕ

pub record KeyRow : Type 0 where
  pub id : Text
  pub provider_id : Text
  pub label : Text
  pub key_value : Text
  pub priority : ℕ
  pub enabled : ℕ

pub record GatewayKeyRow : Type 0 where
  pub id : Text
  pub label : Text
  pub key_hash : Text
  pub prefix : Text
  pub enabled : ℕ

-- One field for each statement that the modelled functions run, and what `encoding/json` makes of
-- the `headers` column (`none` where it refuses the text).
pub record Db : Type 0 where
  pub provider_by_id : Text → Answer ProviderRow
  pub provider_by_slug : Text → Answer ProviderRow
  pub provider_by_name : Text → Answer ProviderRow
  pub providers : Rows ProviderRow
  pub alias_by_id : Text → Answer AliasRow
  pub alias_by_name : Text → Answer AliasRow
  pub aliases : Rows AliasRow
  pub alias_targets : Text → Rows TargetRow
  pub api_keys : Text → Rows KeyRow
  pub gateway_key_by_hash : Text → Answer GatewayKeyRow
  pub unmarshal_headers : Text → Option (List (Text × Text))

unfoldable pub int_to_bool : ℕ → Bool
int_to_bool zero = false
int_to_bool (suc _) = true
