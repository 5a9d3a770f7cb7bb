-- ===== src/Discovery/Known.antt =====
-- internal/discovery/discovery.go: when `StaleTargets` counts a model as stale.
use astreo_gateway.Base.{
  any, length, Bool-cases, if◌then◌else◌, ◌==◌, arith, ◌∷◌, [], List, some, none, Option, ◌||◌,
  ◌&&◌, not, false, true, Bool, inr, inl, ◌∙◌, ap, refl, ◌≡◌, ℕ, ≐_refl, ≐_sound, Text, ◌≐◌,
  lookup-insert_self, lookup-insert, insert, lookup,
}
use astreo_gateway.Discovery.Maps.{IsCache, IsMap}
use astreo_gateway.Discovery.{
  missing_in, Model, Cache, has_model_in, marks_or_empty, known_of, is_blank, model_set,
  set_missing, known_entries, is_set, inject_runtime_stale, is_stale, ProviderEntry,
}

-- the provider's marks have the model
unfoldable pub is_marked : Text → Option (List (Text × ℕ)) → Bool
is_marked model_name none = false
is_marked model_name (some marks) = elim (lookup model_name marks) [ none ↦ false | some _ ↦ true ]

-- Staleness, by what the cache holds of the provider: its marks and its entry.
unfoldable pub stale_by : Text → Option (List (Text × ℕ)) → Option ProviderEntry → Bool
unfolding is_marked
stale_by model_name none none = false
stale_by model_name none (some e) = not (is_blank e) && not (has_model_in model_name (some e))
stale_by model_name (some marks) none = true
stale_by model_name (some marks) (some e) =
    is_marked model_name (some marks) || not (has_model_in model_name (some e))

set_of : Option (List (Text × Bool)) → Text → Bool
set_of o m = is_set (lookup m (marks_or_empty o))

set-model_set :
    (m : Text) (ms : List Model) → is_set (lookup m (model_set ms)) ≡ any (λ x. x.model_id ≐ m) ms
unfolding model_set lookup
set-model_set m [] = refl
set-model_set m (x ∷ ms) =
    ground (arith, set-model_set m ms, lookup-insert x.model_id m true (model_set ms))

set-set_missing :
    (m : Text) (marks : List (Text × ℕ)) (known : List (Text × Bool))
    → is_set (lookup m (set_missing marks known))
      ≡ (not (is_marked m (some marks)) && is_set (lookup m known))
unfolding set_missing lookup is_marked
set-set_missing m [] known = refl
set-set_missing m ((k, at_) ∷ marks) known =
    ground (arith, set-set_missing m marks (insert k false known), lookup-insert k m false known)

set-set_missing_nil :
    (m : Text) (marks : List (Text × ℕ)) → is_set (lookup m (set_missing marks [])) ≡ false
unfolding lookup
set-set_missing_nil m marks =
    set-set_missing m marks [] ∙ and_false (not (is_marked m (some marks)))
  where
    and_false : (b : Bool) → (b && false) ≡ false
    and_false true = refl
    and_false false = refl

-- what the marks make of a provider's set
merged : Option (List (Text × ℕ)) → Option (List (Text × Bool)) → Option (List (Text × Bool))
merged none known = known
merged (some marks) known = some (set_missing marks (marks_or_empty known))

lookup-inject_runtime_stale :
    (pid : Text) (rs : List (Text × List (Text × ℕ))) (known : List (Text × List (Text × Bool)))
    → IsMap rs
    → lookup pid (inject_runtime_stale rs known) ≡ merged (lookup pid rs) (lookup pid known)
unfolding inject_runtime_stale lookup merged IsMap
lookup-inject_runtime_stale pid [] known h = refl
lookup-inject_runtime_stale pid ((k, marks) ∷ rs) known (fresh, h) = elim (Bool-cases (k ≐ pid)) [
  | inl e ↦
      let later : lookup pid rs ≡ none = rw (≐_sound k pid e) at fresh in
      rw (
        ≐_sound k pid e,
        lookup-inject_runtime_stale pid rs
            (insert pid (set_missing marks (marks_or_empty (lookup pid known))) known) h,
        lookup-insert_self pid (set_missing marks (marks_or_empty (lookup pid known))) known,
        ≐_refl pid,
        later,
      )
  | inr e ↦ rw (
    lookup-inject_runtime_stale pid rs
        (insert k (set_missing marks (marks_or_empty (lookup k known))) known) h,
    lookup-insert k pid (set_missing marks (marks_or_empty (lookup k known))) known,
    e,
  )
]

-- what an entry makes of a provider's set
filled : Option ProviderEntry → Option (List (Text × Bool))
filled none = none
filled (some e) = if is_blank e then none else some (model_set e.models)

lookup-known_entries :
    (pid : Text) (es : List (Text × ProviderEntry))
    → IsMap es
    → lookup pid (known_entries es) ≡ filled (lookup pid es)
unfolding known_entries lookup filled IsMap
lookup-known_entries pid [] h = refl
lookup-known_entries pid ((k, e) ∷ es) (fresh, h) = elim (Bool-cases (k ≐ pid)) [
  | inl c ↦
      let later : lookup pid es ≡ none = rw (≐_sound k pid c) at fresh in
      ground (arith, lookup-known_entries pid es h, later, c)
  | inr c ↦ ground (arith, lookup-known_entries pid es h, c)
]

blank-lists-none :
    (e : ProviderEntry) (m : Text) → is_blank e ≡ true → has_model_in m (some e) ≡ false
unfolding is_blank has_model_in
blank-lists-none e m h = none_in e.models (ground arith)
  where
    none_in : (ms : List Model) → (length ms == 0) ≡ true → any (λ x. x.model_id ≐ m) ms ≡ false
    none_in [] h = refl
    none_in (x ∷ ms) h = absurd (ground arith)

missing_in-merged :
    (m : Text) (a : Option (List (Text × ℕ))) (b : Option ProviderEntry)
    → missing_in m (merged a (filled b)) ≡ stale_by m a b
unfolding missing_in merged filled stale_by has_model_in
missing_in-merged m none none = refl
missing_in-merged m none (some e) = ground (arith, set-model_set m e.models)
missing_in-merged m (some marks) none = ap not (set-set_missing_nil m marks)
missing_in-merged m (some marks) (some e) = ground (
  arith,
  blank-lists-none e m,
  set-model_set m e.models,
  set-set_missing_nil m marks,
  set-set_missing m marks (model_set e.models),
)

-- In a cache whose maps have distinct keys, a provider's model is stale exactly when: the provider has
-- no mark, and an entry that some fetch filled and that does not list the model; or it has marks, and
-- no entry; or it has marks and an entry, and the model is marked or is not listed.
pub is_stale-known_of :
    (c : Cache) (provider_id model_name : Text)
    → IsCache c
    → is_stale (known_of c) provider_id model_name
      ≡ stale_by model_name (lookup provider_id c.runtime_stale) (lookup provider_id c.entries)
unfolding is_stale known_of stale_by merged filled
is_stale-known_of c provider_id model_name h =
    rw
      (
        lookup-inject_runtime_stale provider_id c.runtime_stale (known_entries c.entries)
            h.runtime_stale,
        lookup-known_entries provider_id c.entries h.entries,
      )
      (missing_in-merged model_name (lookup provider_id c.runtime_stale)
        (lookup provider_id c.entries))
