-- ===== src/Routing/Resolve.antt =====
-- What a directive resolves to.
use astreo_gateway.Base.{
  keep_sound, All, length, Option-cases, Bool-cases, ltb, arith, ◌∷◌, [], List, some, none, Option,
  true, inr, inl, sym, refl, ◌≡◌, ◌%◌, ℕ, codes, Text, cut-Lacks, cut-append, Lacks, cut, ◌≐◌,
  >>=-eq-ok, err, ok, Result, lookup,
}
use astreo_gateway.Store.Aliases.{get_alias_by_name}
use astreo_gateway.Protocol.{protocol_of, Registry}
use mathlib.Core.Path.{subst, subst₃}
use astreo_gateway.Routing.Choose.{mem-get_elem?}
use astreo_gateway.Routing.{some_active, position_of}
use mathlib.Core.List.{Memᴰ}
use astreo_gateway.Model.{Provider, Alias, AliasTarget}
use astreo_gateway.KeyPool.{Key, get}
use astreo_gateway.Routing.Failover.{IsKeyed, load_provider_map-IsKeyed, usable_provider}
use astreo_gateway.Routing.{
  RoutingError, Selector, Resolved, Outcome, returned, target_key, lift, load_provider_map,
  build_stale_set, is_usable, provider_or_zero, active_targets, enabled_alias, enabled_provider,
  find_provider, key_or_error, known_protocol, resolve_direct, resolve_alias, alias_resolved,
  with_target, resolve, resolve_split, select_target, index_at,
}

-- A directive `provider:model` goes to the provider named before its first colon, and the model is
-- all that follows, further colons included; the selector does not change.
pub resolve-direct :
    (reg : Registry) (draw : ℕ → ℕ) (now : ℕ) (s : Selector) (provider_ref model_name : Text)
    → Lacks b':' provider_ref
    → resolve reg draw now s (target_key provider_ref model_name)
      ≡ (returned (resolve_direct reg now s provider_ref model_name), s)
unfolding resolve resolve_split target_key
resolve-direct reg draw now s provider_ref model_name h =
    rw (cut-append b':' provider_ref model_name h)

-- A directive without a colon is an alias.
pub resolve-alias :
    (reg : Registry) (draw : ℕ → ℕ) (now : ℕ) (s : Selector) (name : Text)
    → Lacks b':' name
    → resolve reg draw now s name ≡ resolve_alias draw now s name
unfolding resolve resolve_split
resolve-alias reg draw now s name h = rw (cut-Lacks b':' name h)

-- What a successful resolution guarantees: an enabled provider and a key that the pool hands out.
pub record IsServable (now : ℕ) (s : Selector) (r : Resolved) : Type 0 where
  pub provider_on : r.provider.enabled ≡ true
  pub key_from_pool : get s.pool r.provider.id now ≡ some r.api_key

key_or_error-ok : (o : Option Key) (k : Key) → key_or_error o ≡ ok k → o ≡ some k
unfolding key_or_error
key_or_error-ok none k h = cc
key_or_error-ok (some j) k h = cc

enabled_provider-ok :
    (o : Option Provider) (p : Provider) → enabled_provider o ≡ ok p → p.enabled ≡ true
unfolding enabled_provider
enabled_provider-ok none p h = cc
enabled_provider-ok (some q) p h = elim (Bool-cases q.enabled) [
  | inl e ↦ ground arith
  | inr e ↦ absurd (ground arith)
]

ok_eq : {a b : Resolved} → ◌≡◌ {A = Result RoutingError Resolved} (ok a) (ok b) → a ≡ b
ok_eq h = cc

module _ {now : ℕ} {s : Selector} where
  built :
      (p : Provider) (k : Key) (model_name routing : Text) (r : Resolved)
      → p.enabled ≡ true
      → get s.pool p.id now ≡ some k
      → record { provider = p; api_key = k; model_name = model_name; alias_routing = routing } ≡ r
      → IsServable now s r
  built p k model_name routing r on given e =
      subst (IsServable now s) e (record { provider_on = on; key_from_pool = given })

resolve_direct-IsServable :
    (reg : Registry) (now : ℕ) (s : Selector) (ref model_name : Text) (r : Resolved)
    → resolve_direct reg now s ref model_name ≡ ok r
    → IsServable now s r
unfolding resolve_direct
resolve_direct-IsServable reg now s ref model_name r h =
    let (found, _, h₁) = >>=-eq-ok (find_provider s.db ref) _ h in
    let (p, is_on, h₂) = >>=-eq-ok (enabled_provider found) _ h₁ in
    let (_, _, h₃) = >>=-eq-ok (known_protocol (protocol_of reg p.protocol)) _ h₂ in
    let (k, given, h₄) = >>=-eq-ok (key_or_error (get s.pool p.id now)) _ h₃ in
    built p k model_name [] r (enabled_provider-ok found p is_on) (key_or_error-ok _ k given)
      (ok_eq h₄)

some_active-ok :
    (a : Alias) (m : List (Text × Provider)) (l : List AliasTarget) {alias : Alias}
    {active : List AliasTarget} {provs : List (Text × Provider)}
    → some_active a m l ≡ ok (alias, active, provs)
    → (a ≡ alias) × (m ≡ provs) × (l ≡ active)
unfolding some_active
some_active-ok a m [] h = cc
some_active-ok a m (t ∷ ts) h = (cc, cc, cc)

abbrev AllUsable : Selector → Alias → List (Text × Provider) → List AliasTarget → Type 0
AllUsable s alias provs = All (λ t. is_usable (build_stale_set s alias.id) provs t ≡ true)

is_usable-active :
    (s : Selector) (name : Text) (alias : Alias) (active : List AliasTarget)
    (provs : List (Text × Provider))
    → active_targets s name ≡ ok (alias, active, provs)
    → IsKeyed provs × AllUsable s alias provs active
unfolding active_targets
is_usable-active s name alias active provs h =
    let (found, _, h₁) = >>=-eq-ok (lift (codes "get alias: ") (get_alias_by_name s.db name)) _ h in
    let (a, _, h₂) = >>=-eq-ok (enabled_alias found) _ h₁ in
    let (m, loaded, h₃) = >>=-eq-ok (load_provider_map s) _ h₂ in
    let (same_a, same_m, same_l) = some_active-ok a m _ h₃ in
    (
      subst IsKeyed same_m (load_provider_map-IsKeyed s loaded),
      subst₃ (λ b n l. AllUsable s b n l) same_a same_m same_l
          (keep_sound (is_usable (build_stale_set s a.id) m) a.targets),
    )

index_at-get_elem? :
    (pos : ℕ) (active : List AliasTarget) {t : AliasTarget}
    → index_at pos active ≡ some t
    → Memᴰ t active
unfolding index_at
index_at-get_elem? pos active h = elim (Bool-cases (ltb pos 9223372036854775808)) [
  | inl e ↦ mem-get_elem? active (pos % length active) (rw e at h)
  | inr e ↦ mem-get_elem? active 0 (ground arith)
]

mem-select_target :
    (draw : ℕ → ℕ) (positions : List (Text × ℕ)) (alias : Alias) (active : List AliasTarget)
    {t : AliasTarget}
    → (select_target draw positions alias active).0 ≡ some t
    → Memᴰ t active
unfolding select_target
mem-select_target draw positions alias active {t} h =
    elim (Bool-cases (alias.routing ≐ codes "round_robin")) [
      | inl e ↦ index_at-get_elem? (position_of (lookup alias.id positions)) active (ground arith)
      | inr e ↦ elim (Bool-cases (alias.routing ≐ codes "random")) [
        | inl a ↦ mem-get_elem? active (draw (length active)) (ground arith)
        | inr a ↦ mem-get_elem? active 0 (ground arith)
      ]
    ]

All-Memᴰ {ℓ κ} : {A : Type ℓ} (P : A → Type κ) (xs : List A) {x : A} → All P xs → Memᴰ x xs → P x
All-Memᴰ P [] h m = elim m [ ]
All-Memᴰ P (y ∷ ys) h (Memᴰ.head e) = subst P (sym e) h.0
All-Memᴰ P (y ∷ ys) h (Memᴰ.tail m) = All-Memᴰ P ys h.1 m

returned_eq :
    {a b : Result RoutingError Resolved}
    → ◌≡◌ {A = Outcome Resolved} (returned a) (returned b)
    → a ≡ b
returned_eq h = cc

with_target-IsServable :
    (now : ℕ) (s : Selector) (alias : Alias) (provs : List (Text × Provider)) (t : AliasTarget)
    (r : Resolved)
    → IsKeyed provs
    → is_usable (build_stale_set s alias.id) provs t ≡ true
    → with_target now s alias provs (some t) ≡ returned (ok r)
    → IsServable now s r
unfolding with_target
with_target-IsServable now s alias provs t r keyed usable h =
    let (k, given, e) = >>=-eq-ok (key_or_error (get s.pool t.provider_id now)) _ (returned_eq h) in
    let (owner, on, _) = usable_provider (build_stale_set s alias.id) provs t keyed usable in
    built (provider_or_zero (lookup t.provider_id provs)) k t.model_name alias.routing r on
      (rw owner (key_or_error-ok _ k given)) (ok_eq e)

alias_resolved-IsServable :
    (draw : ℕ → ℕ) (now : ℕ) (s : Selector) (alias : Alias) (active : List AliasTarget)
    (provs : List (Text × Provider)) (o : Option AliasTarget) (r : Resolved)
    → IsKeyed provs
    → AllUsable s alias provs active
    → (select_target draw s.positions alias active).0 ≡ o
    → with_target now s alias provs o ≡ returned (ok r)
    → IsServable now s r
unfolding with_target
alias_resolved-IsServable draw now s alias active provs none r keyed usable sel h = cc
alias_resolved-IsServable draw now s alias active provs (some t) r keyed usable sel h =
    with_target-IsServable now s alias provs t r keyed
      (All-Memᴰ _ active usable (mem-select_target draw s.positions alias active sel)) h

resolve_alias-IsServable :
    (draw : ℕ → ℕ) (now : ℕ) (s : Selector) (name : Text) (r : Resolved)
    (a : Result RoutingError (Alias × List AliasTarget × List (Text × Provider)))
    → active_targets s name ≡ a
    → (alias_resolved draw now s a).0 ≡ returned (ok r)
    → IsServable now s r
unfolding alias_resolved
resolve_alias-IsServable draw now s name r (err e) read h = cc
resolve_alias-IsServable draw now s name r (ok (alias, active, provs)) read h =
    let (keyed, usable) = is_usable-active s name alias active provs read in
    alias_resolved-IsServable draw now s alias active provs _ r keyed usable refl h

-- Whatever a directive resolves to, by name or through an alias, its provider is enabled, and its
-- key is the one that the pool hands out for that provider at that instant.
pub resolve-IsServable :
    (reg : Registry) (draw : ℕ → ℕ) (now : ℕ) (s : Selector) (directive : Text) (r : Resolved)
    → (resolve reg draw now s directive).0 ≡ returned (ok r)
    → IsServable now s r
unfolding resolve resolve_split resolve_alias
resolve-IsServable reg draw now s directive r h = elim (Option-cases (cut b':' directive)) [
  | inl e ↦
      resolve_alias-IsServable draw now s directive r (active_targets s directive) refl (rw e at h)
  | inr ((ref, model_name), e) ↦
      resolve_direct-IsServable reg now s ref model_name r (returned_eq (rw e at h))
]
