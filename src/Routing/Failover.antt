-- ===== src/Routing/Failover.antt =====
-- What `NextFailoverTarget` returns.
use astreo_gateway.Store.Providers.{list_providers}
use astreo_gateway.Base.{
  All, find?, Option-cases, Bool-cases, arith, ◌∷◌, [], List, some, none, false, true, Bool, inr,
  inl, sym, ◌≡◌, ≐_iff, codes, Text, lookup-insert, >>=-eq-ok, ok, Result, member, insert, lookup,
}
use mathlib.Core.List.{Memᴰ}
use astreo_gateway.Model.{Provider, Alias, AliasTarget}
use astreo_gateway.Routing.{
  RoutingError, Selector, target_key, lift, provider_map, load_provider_map, build_stale_set,
  is_usable, is_next, found_target, provider_or_zero, next_failover_target,
}

some_eq {ℓ} : {A : Type ℓ} {a b : A} → some a ≡ some b → a ≡ b
some_eq h = cc

module _ {ℓ} {A : Type ℓ} (p : A → Bool) where
  pub find?_sound : (xs : List A) {x : A} → find? p xs ≡ some x → (p x ≡ true) × Memᴰ x xs
  find?_sound [] h = cc
  find?_sound (y ∷ xs) {x} h = elim (Bool-cases (p y)) [
    | inl e ↦
        let same : y ≡ x = some_eq (rw (e, find?) at h) in (rw same at e, Memᴰ.head (sym same))
    | inr e ↦ let (holds, later) = find?_sound xs (rw (e, find?) at h) in (holds, Memᴰ.tail later)
  ]

  pub find?-none : (xs : List A) → find? p xs ≡ none → All (λ x. p x ≡ false) xs
  find?-none [] h = tt
  find?-none (y ∷ xs) h = elim (Bool-cases (p y)) [
    | inl e ↦ absurd (ground arith)
    | inr e ↦ (e, find?-none xs (ground arith))
  ]

-- each provider of the map stands under its own ID
abbrev pub IsKeyed : List (Text × Provider) → Type 0
IsKeyed m = (id : Text) (p : Provider) → lookup id m ≡ some p → p.id ≡ id

insert-IsKeyed : (p : Provider) (m : List (Text × Provider)) → IsKeyed m → IsKeyed (insert p.id p m)
insert-IsKeyed p m k id q h = ground (arith, ≐_iff p.id id, lookup-insert p.id id p m, k id q)

provider_map-IsKeyed :
    (ps : List Provider) (m : List (Text × Provider)) → IsKeyed m → IsKeyed (provider_map ps m)
unfolding provider_map
provider_map-IsKeyed [] m k = k
provider_map-IsKeyed (p ∷ ps) m k = provider_map-IsKeyed ps (insert p.id p m) (insert-IsKeyed p m k)

pub load_provider_map-IsKeyed :
    (s : Selector) {m : List (Text × Provider)} → load_provider_map s ≡ ok m → IsKeyed m
unfolding load_provider_map lookup
load_provider_map-IsKeyed s {m} h =
    let (ps, _, e) =
      >>=-eq-ok (lift (codes "list providers: ") (list_providers s.db))
        (λ ps. ok (provider_map ps [])) h in
    ok_keyed (provider_map ps []) (provider_map-IsKeyed ps [] (λ id p k. cc)) e
  where
    ok_keyed :
        (n : List (Text × Provider))
        → IsKeyed n
        → ◌≡◌ {A = Result RoutingError (List (Text × Provider))} (ok n) (ok m)
        → IsKeyed m
    ok_keyed n k e = rw e' at k
      where
        e' : n ≡ m
        e' = cc

-- the provider of a usable target: in the map, under the target's ID, and enabled
pub usable_provider :
    (stale : List Text) (provs : List (Text × Provider)) (t : AliasTarget)
    → IsKeyed provs
    → is_usable stale provs t ≡ true
    → let p = provider_or_zero (lookup t.provider_id provs) in
      (p.id ≡ t.provider_id)
      × (p.enabled ≡ true)
      × (member (target_key t.provider_id t.model_name) stale ≡ false)
unfolding is_usable provider_or_zero
usable_provider stale provs t k h = elim (Option-cases (lookup t.provider_id provs)) [
  | inl e ↦ absurd (ground arith)
  | inr (p, e) ↦ rw e (k t.provider_id p e, ground arith, ground arith)
]

module _ (provs : List (Text × Provider)) where
  not_found : {t : AliasTarget} {p : Provider} → ¬ (found_target provs none ≡ ok (t, p))
  unfolding found_target
  not_found h = cc

  found_eq :
      (u : AliasTarget) {t : AliasTarget} {p : Provider}
      → found_target provs (some u) ≡ ok (t, p)
      → (u ≡ t) × (provider_or_zero (lookup u.provider_id provs) ≡ p)
  unfolding found_target
  found_eq u h = (cc, cc)

next_parts :
    (tried stale : List Text) (provs : List (Text × Provider)) (u : AliasTarget)
    → is_next tried stale provs u ≡ true
    → (member (target_key u.provider_id u.model_name) tried ≡ false)
      × (is_usable stale provs u ≡ true)
unfolding is_next
next_parts tried stale provs u h = ground arith

-- The target that `NextFailoverTarget` returns is one of the alias's, its key is not among those
-- tried, discovery does not hold it for stale, and its provider, which comes with it, is enabled.
pub next_failover_target_sound :
    (s : Selector) (alias : Alias) (tried : List Text) (t : AliasTarget) (p : Provider)
    → next_failover_target s alias tried ≡ ok (t, p)
    → Memᴰ t alias.targets
      × (member (target_key t.provider_id t.model_name) tried ≡ false)
      × (member (target_key t.provider_id t.model_name) (build_stale_set s alias.id) ≡ false)
      × (p.id ≡ t.provider_id)
      × (p.enabled ≡ true)
unfolding next_failover_target
next_failover_target_sound s alias tried t p h =
    let (provs, loaded, e) =
      >>=-eq-ok (load_provider_map s)
        (λ m. found_target m (find? (is_next tried (build_stale_set s alias.id) m) alias.targets))
        h in
    let next = is_next tried (build_stale_set s alias.id) provs in
    elim (Option-cases (find? next alias.targets)) [
      | inl missed ↦ absurd (not_found provs (rw missed at e))
      | inr (u, hit) ↦
          let (holds, listed) = find?_sound next alias.targets hit in
          let (same, came) = found_eq provs u (rw hit at e) in
          let (fresh, usable) = next_parts tried (build_stale_set s alias.id) provs u holds in
          let (owner, on, live) =
            usable_provider (build_stale_set s alias.id) provs u
              (load_provider_map-IsKeyed s loaded) usable in
          rw (← same, ← came) (listed, fresh, live, owner, on)
    ]
