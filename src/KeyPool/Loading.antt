-- ===== src/KeyPool/Loading.antt =====
-- What `Load` puts into the pool, and what the pool hands out after it.
use mathlib.Core.Option
use astreo_gateway.Base.{
  ℕ, ◌≡◌, refl, ◌⊎◌, inl, inr, Bool-cases, Bool, true, false, some, List, [], ◌∷◌, Text, ◌≐◌,
  ≐_sound, any, find?, Result, ok, err, lookup, lookup-insert, lookup-insert_self, arith,
}
use astreo_gateway.Model.{Provider, ApiKey}
use astreo_gateway.Store.Db.{Db}
use astreo_gateway.Store.Providers.{list_providers}
use astreo_gateway.Store.Keys.{list_api_keys_by_provider}
use astreo_gateway.KeyPool.{
  KeyState, Key, Pool, fresh_states, load_provider, load_from, load, load_listed, is_available,
  first_available, get,
}

abbrev pub as_key : ApiKey → Key
as_key k = record { id = k.id; value = k.value }

abbrev pub is_listed : Text → List Provider → Bool
is_listed id = any (λ p. p.id ≐ id)

lookup-load_provider_ne :
    (id j : Text) (r : Result Text (List ApiKey)) (m : List (Text × List KeyState))
    → (id ≐ j) ≡ false
    → lookup j (load_provider id r m) ≡ lookup j m
unfolding load_provider
lookup-load_provider_ne id j (ok keys) m h = rw (lookup-insert, h)
lookup-load_provider_ne id j (err e) m h = refl

module _ (db : Db) (id : Text) (keys : List ApiKey)
    (read : list_api_keys_by_provider db id ≡ ok keys) where
  lookup-load_provider :
      (j : Text) (m : List (Text × List KeyState))
      → j ≡ id
      → lookup id (load_provider j (list_api_keys_by_provider db j) m) ≡ some (fresh_states keys)
  unfolding load_provider
  lookup-load_provider j m e = rw (e, read, lookup-insert_self)

  lookup-load_from :
      (ps : List Provider) (m : List (Text × List KeyState))
      → (is_listed id ps ≡ true) ⊎ (lookup id m ≡ some (fresh_states keys))
      → lookup id (load_from db ps m) ≡ some (fresh_states keys)
  unfolding load_from
  lookup-load_from [] m (inl h) = cc
  lookup-load_from [] m (inr h) = h
  lookup-load_from (p ∷ ps) m h = elim (Bool-cases (p.id ≐ id)) [
    | inl e ↦ lookup-load_from ps _ (inr (lookup-load_provider p.id m (≐_sound _ _ e)))
    | inr e ↦
        lookup-load_from ps _
          (ground (arith, lookup-load_provider_ne p.id id (list_api_keys_by_provider db p.id) m e))
  ]

first_available-fresh_states :
    (now : ℕ) (keys : List ApiKey)
    → first_available now (fresh_states keys) ≡ Option.map as_key (find? (λ k. k.enabled) keys)
unfolding first_available fresh_states is_available
first_available-fresh_states now [] = refl
first_available-fresh_states now (k ∷ keys) = ground (arith, first_available-fresh_states now keys)

-- After a `Load` that lists the providers, a listed provider whose keys can be read hands out, at
-- any instant, its first enabled key in the database's order, whatever the pool held before.
pub get-load :
    (db : Db) (p : Pool) (ps : List Provider) (id : Text) (keys : List ApiKey) (now : ℕ)
    → list_providers db ≡ ok ps
    → is_listed id ps ≡ true
    → list_api_keys_by_provider db id ≡ ok keys
    → get (load db p).0 id now ≡ Option.map as_key (find? (λ k. k.enabled) keys)
unfolding load load_listed get
get-load db p ps id keys now listed h read =
    rw (listed, lookup-load_from db id keys read ps p.keys (inl h))
      (first_available-fresh_states now keys)
