-- ===== src/KeyPool/Examples.antt =====
-- Runs of the key pool, and its theorems at concrete pools.
use astreo_gateway.Base.{
  All, find?, arith, ◌∷◌, [], List, some, none, false, true, ◌↔◌, ◌≢◌, refl, ◌≡◌, codes, Text, ◌≐◌,
  ne_of_test, ok, insert, lookup,
}
use mathlib.Core.Option
use astreo_gateway.Model.{ApiKey, Provider}
use astreo_gateway.Store.Db.{Db, row, no_rows, answered, ProviderRow, KeyRow}
use astreo_gateway.Store.Providers.{list_providers}
use astreo_gateway.Store.Keys.{list_api_keys_by_provider}
use astreo_gateway.KeyPool.{Key, Pool, new, load, first_available, get, cool, mark_cooldown}
use astreo_gateway.KeyPool.Laws.{
  IsBusy, IsFirst, states_of, get-IsFirst, get-eq-none_iff, get-mark_cooldown,
  get-mark_cooldown_over,
}
use astreo_gateway.KeyPool.Loading.{as_key, get-load}

abbrev openai : Text
openai = codes "p1"

abbrev sample_key : Text → ApiKey
sample_key id = record {
  id = id;
  provider_id = openai;
  label = [];
  value = codes "sk";
  priority = 0;
  enabled = true;
}

abbrev sample_pool : Pool
sample_pool = record {
  keys =
      (
        openai,
        record { key = sample_key (codes "a"); cooldown = 9 }
            ∷ record { key = sample_key (codes "b"); cooldown = 0 }
            ∷ [],
      )
      ∷ [];
}

abbrev b_key : Key
b_key = record { id = codes "b"; value = codes "sk" }

get_b : get sample_pool openai 5 ≡ some b_key
unfolding get first_available lookup ◌≐◌
get_b = refl

get_a_later : get sample_pool openai 9 ≡ some (record { id = codes "a"; value = codes "sk" })
unfolding get first_available lookup ◌≐◌
get_a_later = refl

get-IsFirst_example : IsFirst 5 (states_of sample_pool openai) b_key
get-IsFirst_example = get-IsFirst sample_pool openai 5 b_key get_b

get-eq-none_iff_example :
    (get sample_pool openai 5 ≡ none) ↔ All (λ s. IsBusy 5 s) (states_of sample_pool openai)
get-eq-none_iff_example = get-eq-none_iff sample_pool openai 5

get_b_marked : get (mark_cooldown sample_pool openai (codes "a") 5 30) openai 6 ≡ some b_key
unfolding get first_available lookup ◌≐◌ mark_cooldown cool insert
get_b_marked = refl

get-mark_cooldown_example : codes "b" ≢ codes "a"
unfolding lookup ◌≐◌
get-mark_cooldown_example =
    get-mark_cooldown sample_pool openai (codes "a") 5 30 6 b_key
      ((ne_of_test (codes "b") (codes "a") refl, tt), (tt, tt)) (omega arith) get_b_marked

get-mark_cooldown_over_example :
    get (mark_cooldown sample_pool openai (codes "a") 5 30) openai 40 ≡ get sample_pool openai 40
unfolding lookup ◌≐◌
get-mark_cooldown_over_example =
    get-mark_cooldown_over sample_pool openai (codes "a") 5 30 40 (omega arith) (omega arith)

abbrev sample_row : ProviderRow
sample_row = record {
  id = openai;
  name = codes "one";
  slug = codes "one";
  protocol = codes "openai";
  base_url = [];
  enabled = 1;
  headers = [];
}

abbrev off_row : KeyRow
off_row = record {
  id = codes "a";
  provider_id = openai;
  label = [];
  key_value = codes "sk";
  priority = 0;
  enabled = 0;
}

abbrev on_row : KeyRow
on_row = record {
  id = codes "b";
  provider_id = openai;
  label = [];
  key_value = codes "sk";
  priority = 1;
  enabled = 1;
}

abbrev sample_db : Db
sample_db = record {
  provider_by_id = λ _. row sample_row;
  provider_by_slug = λ _. no_rows;
  provider_by_name = λ _. no_rows;
  providers = answered (ok sample_row ∷ []) none;
  alias_by_id = λ _. no_rows;
  alias_by_name = λ _. no_rows;
  aliases = answered [] none;
  alias_targets = λ _. answered [] none;
  api_keys = λ _. answered (ok off_row ∷ ok on_row ∷ []) none;
  gateway_key_by_hash = λ _. no_rows;
  unmarshal_headers = λ _. none;
}

abbrev sample_provider : Provider
sample_provider = record {
  id = openai;
  name = codes "one";
  slug = codes "one";
  protocol = codes "openai";
  base_url = [];
  enabled = true;
  headers = [];
}

abbrev read_keys : List ApiKey
read_keys =
    record {
      id = codes "a";
      provider_id = openai;
      label = [];
      value = codes "sk";
      priority = 0;
      enabled = false;
    }
    ∷ record {
      id = codes "b";
      provider_id = openai;
      label = [];
      value = codes "sk";
      priority = 1;
      enabled = true;
    }
    ∷ []

get-load_example :
    get (load sample_db new).0 openai 3 ≡ Option.map as_key (find? (λ k. k.enabled) read_keys)
unfolding list_providers list_api_keys_by_provider ◌≐◌
get-load_example = get-load sample_db new (sample_provider ∷ []) openai read_keys 3 refl refl refl
