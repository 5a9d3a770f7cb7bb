-- ===== src/KeyPool.antt =====
-- internal/keypool/keypool.go: the upstream API keys of each provider and their cooldowns.
-- Instants are numbers; the zero `time.Time` of a fresh key is 0.
pub mod Laws
pub mod Loading
mod Examples
use astreo_gateway.Base.{
  ℕ, ◌+◌, Bool, not, ◌&&◌, Option, none, some, List, [], ◌∷◌, Text, ◌≐◌, ltb, if◌then◌else◌, keep,
  Result, ok, err, map, lookup, insert,
}
use astreo_gateway.Model.{Provider, ApiKey}
use astreo_gateway.Store.Db.{Db}
use astreo_gateway.Store.Providers.{list_providers}
use astreo_gateway.Store.Keys.{list_api_keys_by_provider}

pub record KeyState : Type 0 where
  pub key : ApiKey
  pub cooldown : ℕ

pub record Key : Type 0 where
  pub id : Text
  pub value : Text

pub record Pool : Type 0 where
  pub keys : List (Text × List KeyState)

unfoldable pub new : Pool
new = record { keys = [] }

-- the states of the enabled keys, none of them cooling down
fresh_states : List ApiKey → List KeyState
fresh_states keys = map (λ k. record { key = k; cooldown = 0 }) (keep (λ k. k.enabled) keys)

-- one provider of the loop of `Load`: a failed listing is logged and leaves its keys as they are
load_provider :
    Text → Result Text (List ApiKey) → List (Text × List KeyState) → List (Text × List KeyState)
load_provider id (ok keys) m = insert id (fresh_states keys) m
load_provider id (err _) m = m

load_from : Db → List Provider → List (Text × List KeyState) → List (Text × List KeyState)
load_from db [] m = m
load_from db (p ∷ ps) m = load_from db ps (load_provider p.id (list_api_keys_by_provider db p.id) m)

load_listed : Db → Pool → Result Text (List Provider) → Pool × Option Text
load_listed db p (ok ps) = (record { keys = load_from db ps p.keys }, none)
load_listed db p (err e) = (p, some e)

unfoldable pub load : Db → Pool → Pool × Option Text
unfolding load_listed load_from load_provider fresh_states
load db p = load_listed db p (list_providers db)

-- not disabled, and its cooldown is over
unfoldable pub is_available : ℕ → KeyState → Bool
is_available now s = s.key.enabled && not (ltb now s.cooldown)

-- the loop of `Get` over the states
unfoldable pub first_available : ℕ → List KeyState → Option Key
unfolding is_available
first_available now [] = none
first_available now (s ∷ states) =
    if is_available now s
    then some (record { id = s.key.id; value = s.key.value })
    else first_available now states

states_or_none : ℕ → Option (List KeyState) → Option Key
states_or_none now none = none
states_or_none now (some states) = first_available now states

unfoldable pub get : Pool → Text → ℕ → Option Key
unfolding states_or_none
get p provider_id now = states_or_none now (lookup provider_id p.keys)

-- the loop of `MarkCooldown`: the first state with the key's ID
unfoldable pub cool : Text → ℕ → List KeyState → List KeyState
cool key_id until [] = []
cool key_id until (s ∷ states) =
    if s.key.id ≐ key_id
    then record s { cooldown = until } ∷ states
    else s ∷ cool key_id until states

marked : Pool → Text → Text → ℕ → Option (List KeyState) → Pool
marked p provider_id key_id until none = p
marked p provider_id key_id until (some states) = record {
  keys = insert provider_id (cool key_id until states) p.keys;
}

unfoldable pub mark_cooldown : Pool → Text → Text → ℕ → ℕ → Pool
unfolding marked
mark_cooldown p provider_id key_id now d =
    marked p provider_id key_id (now + d) (lookup provider_id p.keys)
