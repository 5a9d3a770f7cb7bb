-- ===== src/Samples.antt =====
-- Data of the tests: a store with one provider and one alias of two targets, and a network that
-- refuses every connection.
use astreo_gateway.Base.{◌∷◌, [], List, none, false, true, codes, Text, err, ok}
use astreo_gateway.Model.{Alias, ApiKey, AliasTarget}
use astreo_gateway.Protocol.Core.{ChatRequest}
use astreo_gateway.Store.Db.{answered, no_rows, row, Db, ProviderRow, TargetRow, AliasRow}
use astreo_gateway.Json.{Json}
use astreo_gateway.Protocol.{Protocol}
use astreo_gateway.Routing.{Selector, Resolved}
use astreo_gateway.Proxy.Forward.{no_reply, Env, World}

abbrev pub demo_provider_id : Text
demo_provider_id = codes "p1"

abbrev pub provider_row : ProviderRow
provider_row = record {
  id = demo_provider_id;
  name = codes "one";
  slug = codes "one";
  protocol = codes "openai";
  base_url = [];
  enabled = 1;
  headers = [];
}

abbrev pub demo_target : Text → AliasTarget
demo_target name = record { provider_id = demo_provider_id; model_name = name; position = 0 }

abbrev pub two_targets : List AliasTarget
two_targets = demo_target (codes "m1") ∷ demo_target (codes "m2") ∷ []

abbrev pub alias_of : List AliasTarget → Alias
alias_of targets = record {
  id = codes "x";
  name = codes "fast";
  routing = codes "round_robin";
  enabled = true;
  targets = targets;
}

abbrev target_row : Text → TargetRow
target_row name = record { provider_id = demo_provider_id; model_name = name; position = 0 }

abbrev alias_row : AliasRow
alias_row = record {
  id = codes "x";
  name = codes "fast";
  routing = codes "round_robin";
  enabled = 1;
}

abbrev pub demo_db : Db
demo_db = record {
  provider_by_id = λ _. row provider_row;
  provider_by_slug = λ _. no_rows;
  provider_by_name = λ _. no_rows;
  providers = answered (ok provider_row ∷ []) none;
  alias_by_id = λ _. row alias_row;
  alias_by_name = λ _. row alias_row;
  aliases = answered (ok alias_row ∷ []) none;
  alias_targets =
      λ _. answered (ok (target_row (codes "m1")) ∷ ok (target_row (codes "m2")) ∷ []) none;
  api_keys = λ _. answered [] none;
  gateway_key_by_hash = λ _. no_rows;
  unmarshal_headers = λ _. none;
}

abbrev pub demo_api_key : ApiKey
demo_api_key = record {
  id = codes "a";
  provider_id = demo_provider_id;
  label = [];
  value = codes "sk";
  priority = 0;
  enabled = true;
}

abbrev pub demo_selector : Selector
demo_selector = record {
  db = demo_db;
  cache = record { entries = []; runtime_stale = [] };
  pool = record {
    keys = (demo_provider_id, record { key = demo_api_key; cooldown = 0 } ∷ []) ∷ [];
  };
  positions = [];
}

abbrev pub demo_json : Json
demo_json = record {
  unmarshal_object = λ _. ok [];
  unmarshal_values = λ _. ok [];
  marshal_object = λ _. ok (codes "{}");
  unmarshal_string = λ t. ok t;
  marshal_string = λ t. ok t;
  unmarshal_strings = λ _. ok [];
  unmarshal_parts = λ _. ok [];
  is_valid = λ _. true;
  unmarshal_tool_choice = λ _. err [];
  marshal_strings = λ _. ok [];
  error_message = λ _. none;
  usage = λ _. none;
  error_body = λ message _. message;
  decimal = λ _. [];
}

abbrev pub demo_request : ChatRequest
demo_request = record {
  model = codes "m1";
  messages = [];
  max_tokens = none;
  temperature = none;
  top_p = none;
  stop = [];
  stream = false;
  tools = [];
  tool_choice = [];
  stream_opts = none;
}

abbrev pub demo_protocol : Protocol
demo_protocol = record {
  name = codes "openai";
  models_url = λ base. base;
  models_auth = λ _. [];
  parse_models = λ _. ok [];
  chat_url = λ base _ _. (base, false);
  auth_headers = λ _. [];
  supports_embeddings = true;
  translate_request = λ body. ok (body, demo_request);
  translate_response = λ body _. ok body;
  translate_stream = λ body _ _. record { written = body.bytes ∷ []; failure = none };
}

abbrev pub refusing : Env
refusing = record {
  json = demo_json;
  registry = (codes "openai", demo_protocol) ∷ [];
  exchange = λ w _. (no_reply false (codes "refused"), w);
  key_cooldown = 60;
  draw = λ _. 0;
  trim = λ t. t;
}

abbrev pub demo_world : World
demo_world = record { selector = demo_selector; now = 5 }

abbrev pub demo_resolved : Resolved
demo_resolved = record {
  provider = record {
    id = demo_provider_id;
    name = codes "one";
    slug = codes "one";
    protocol = codes "openai";
    base_url = [];
    enabled = true;
    headers = [];
  };
  api_key = record { id = codes "a"; value = codes "sk" };
  model_name = codes "m1";
  alias_routing = codes "round_robin";
}
