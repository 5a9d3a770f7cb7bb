-- ===== src/Discovery/Maps.antt =====
-- internal/discovery/discovery.go: the cache's two Go maps, as lists with distinct keys.
use astreo_gateway.Discovery.{mark_runtime_stale, new, remove, Cache}
use astreo_gateway.Base.{
  Bool-cases, arith, ◌∷◌, [], List, none, inr, inl, refl, ◌≡◌, ℕ, ≐_iff, ≐_sound, Text, ◌≐◌,
  lookup-delete, lookup-insert, delete, insert, lookup,
}

-- the keys of the list are distinct, as those of a Go map
unfoldable pub IsMap {ℓ} : {V : Type ℓ} → List (Text × V) → Type ℓ
IsMap [] = Unit
IsMap ((k, _) ∷ m) = (lookup k m ≡ none) × IsMap m

module _ {ℓ} {V : Type ℓ} where
  pub insert-IsMap : (k : Text) (v : V) (m : List (Text × V)) → IsMap m → IsMap (insert k v m)
  unfolding insert IsMap lookup
  insert-IsMap k v [] h = (refl, tt)
  insert-IsMap k v ((j, w) ∷ m) (fresh, h) = elim (Bool-cases (j ≐ k)) [
    | inl e ↦ rw (e) (rw (≐_sound j k e) at fresh, h)
    | inr e ↦
        rw (e)
          (ground (arith, lookup-insert k j v m, ≐_iff k j, ≐_iff j k, fresh), insert-IsMap k v m h)
  ]

  pub delete-IsMap : (k : Text) (m : List (Text × V)) → IsMap m → IsMap (delete k m)
  unfolding delete IsMap lookup
  delete-IsMap k [] h = tt
  delete-IsMap k ((j, w) ∷ m) (fresh, h) = elim (Bool-cases (j ≐ k)) [
    | inl e ↦ rw (e) (delete-IsMap k m h)
    | inr e ↦ rw (e) (ground (arith, lookup-delete k j m, fresh), delete-IsMap k m h)
  ]

-- the cache is made of two maps
pub record IsCache (c : Cache) : Type 0 where
  pub entries : IsMap c.entries
  pub runtime_stale : IsMap c.runtime_stale

pub new-IsCache : IsCache new
unfolding new IsMap
new-IsCache = record { entries = tt; runtime_stale = tt }

-- `Remove` keeps the keys of the cache's maps distinct.
pub remove-IsCache : (c : Cache) (provider_id : Text) → IsCache c → IsCache (remove c provider_id)
unfolding remove
remove-IsCache c provider_id h = record {
  entries = delete-IsMap provider_id c.entries h.entries;
  runtime_stale = h.runtime_stale;
}

-- `MarkRuntimeStale` keeps the keys of the cache's maps distinct.
pub mark_runtime_stale-IsCache :
    (c : Cache) (provider_id model_name : Text) (now : ℕ)
    → IsCache c
    → IsCache (mark_runtime_stale c provider_id model_name now)
unfolding mark_runtime_stale
mark_runtime_stale-IsCache c provider_id model_name now h = record {
  entries = h.entries;
  runtime_stale = insert-IsMap provider_id _ c.runtime_stale h.runtime_stale;
}
