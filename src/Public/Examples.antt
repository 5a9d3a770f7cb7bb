-- ===== src/Public/Examples.antt =====
-- The API of the clients at a concrete request, before a store that has one gateway key and no
-- provider.
use astreo_gateway.Base.{
  [], some, none, Option, false, Bool, ◌⊎◌, refl, ◌≡◌, codes, Text, cut, ok, Result,
}
use astreo_gateway.Samples.{demo_db, demo_selector, refusing}
use astreo_gateway.Store.Db.{Db, row, no_rows}
use astreo_gateway.Routing.{resolve, resolve_split, returned, RoutingError, Resolved}
use astreo_gateway.Metrics.LogStore.{new_log_store}
use astreo_gateway.Metrics.LogStore.Ring.{new_log_store-IsRing}
use astreo_gateway.Metrics.AccessLog.{Net}
use astreo_gateway.Proxy.Forward.{World}
use astreo_gateway.Public.{chat_handler, Call, Served, require_gateway_key, serve_chat, denied}
use astreo_gateway.Public.Outcomes.{Selects}
use astreo_gateway.Public.Logged.{entry_of, IsLogged, serve_chat-IsLogged}
use astreo_gateway.Public.Authorized.{IsAuthorized, serve_chat-IsAuthorized}

abbrev one_key : Db
one_key = record demo_db {
  provider_by_id = λ _. no_rows;
  provider_by_slug = λ _. no_rows;
  provider_by_name = λ _. no_rows;
  alias_by_name = λ _. no_rows;
  gateway_key_by_hash =
      λ _. row (record { id = codes "k1"; label = []; key_hash = []; prefix = []; enabled = 1 });
}

abbrev quiet_world : World
quiet_world = record { selector = record demo_selector { db = one_key }; now = 5 }

abbrev demo_net : Net
demo_net = record { split_host = λ _. none; trim_space = λ t. t }

abbrev demo_call : Text → Call
demo_call authorization = record {
  method = codes "POST";
  path = codes "/v1/chat/completions";
  authorization = authorization;
  forwarded = [];
  real_ip = [];
  remote = codes "h";
  body = record { bytes = codes "{}"; failure = none };
}

abbrev demo_peek : Text → Option (Text × Bool)
demo_peek _ = some (codes "fast", false)

-- without providers and aliases, nothing is selected and nothing panics
quiet_world-Selects :
    Selects (codes "r1") (codes "k1") (demo_call (codes "Bearer t")) refusing demo_peek quiet_world
unfolding resolve resolve_split astreo_gateway.Routing.resolve_alias
    astreo_gateway.Routing.active_targets astreo_gateway.Store.Aliases.get_alias_by_name
quiet_world-Selects directive = by_cut (cut b':' directive)
  where
    by_cut :
        (o : Option (Text × Text))
        → (r : Result RoutingError Resolved) × ((resolve_split refusing.registry refusing.draw 5
              quiet_world.selector directive o).0
            ≡ returned r)
    by_cut none = (_, refl)
    by_cut (some (provider_ref, model_name)) = (_, refl)

valid : require_gateway_key (λ t. t) one_key (codes "Bearer t") ≡ ok (codes "k1")
unfolding require_gateway_key
valid = refl

serve_chat-IsLogged_example :
    IsLogged
      (codes "r1")
      (codes "k1")
      (demo_call (codes "Bearer t"))
      (new_log_store 2)
      (chat_handler refusing demo_peek quiet_world
        (codes "k1")
        (entry_of refusing demo_peek demo_net
          (λ t. t)
          (codes "r1")
          (codes "k1")
          quiet_world
          (demo_call (codes "Bearer t")))
        (demo_call (codes "Bearer t")).body)
      (serve_chat refusing demo_peek demo_net
        (λ t. t)
        (codes "r1")
        quiet_world
        (new_log_store 2)
        (demo_call (codes "Bearer t")))
serve_chat-IsLogged_example =
    serve_chat-IsLogged refusing demo_peek demo_net (λ t. t) (codes "r1") (codes "k1") quiet_world
      (new_log_store 2) (demo_call (codes "Bearer t")) valid quiet_world-Selects
      (new_log_store-IsRing 2)

abbrev turned_away : Served
turned_away = record {
  response = denied (codes "{\"error\":\"missing or invalid Authorization header\"}");
  logs = new_log_store 2;
  world = quiet_world;
}

away :
    serve_chat refusing demo_peek demo_net
      (λ t. t)
      (codes "r1")
      quiet_world
      (new_log_store 2)
      (demo_call (codes "Basic t"))
    ≡ some turned_away
unfolding serve_chat
away = refl

serve_chat-IsAuthorized_example :
    IsAuthorized (λ t. t) one_key (codes "Basic t")
    ⊎ ((message : Text) × (turned_away
          ≡ record { response = denied message; logs = new_log_store 2; world = quiet_world }))
serve_chat-IsAuthorized_example =
    serve_chat-IsAuthorized refusing demo_peek demo_net (λ t. t) (codes "r1") quiet_world
      (new_log_store 2) (demo_call (codes "Basic t")) turned_away away
