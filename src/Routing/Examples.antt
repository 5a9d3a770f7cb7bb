-- ===== src/Routing/Examples.antt =====
-- Runs of the selection of a target, and its theorems at concrete stores.
use astreo_gateway.Base.{
  drop, take, arith, map, ◌++◌, ◌∷◌, [], some, false, true, refl, ◌≡◌, codes, cut, ◌≐◌, ok, member,
  insert, lookup,
}
use astreo_gateway.Routing.Failover.{next_failover_target_sound}
use astreo_gateway.Routing.Resolve.{resolve-IsServable, IsServable}
use astreo_gateway.Samples.{
  demo_resolved, demo_provider_id, demo_selector, two_targets, refusing, alias_of, demo_target,
}
use astreo_gateway.Routing.Choose.{choose_times-round_robin, choose_times}
use astreo_gateway.Routing.{
  build_stale_set, returned, target_key, index_at, select_target, resolve_alias,
  next_failover_target, resolve, position_of,
}
use mathlib.Core.List.{Memᴰ}

targets_in_turn :
    choose_times (λ _. 0) [] (alias_of two_targets) two_targets 3
    ≡ some (demo_target (codes "m1"))
      ∷ some (demo_target (codes "m2"))
      ∷ some (demo_target (codes "m1"))
      ∷ []
unfolding choose_times select_target ◌≐◌ lookup insert index_at position_of
targets_in_turn = refl

choose_times-round_robin_example :
    choose_times (λ _. 0) [] (alias_of two_targets) two_targets 2
    ≡ map some (drop 0 two_targets ++ take 0 two_targets)
unfolding lookup position_of
choose_times-round_robin_example =
    choose_times-round_robin (λ _. 0) [] (alias_of two_targets) two_targets refl (omega arith)

next_failover_target_sound_example :
    Memᴰ (demo_target (codes "m2")) two_targets
    × (member
          (target_key demo_provider_id (codes "m2"))
          (target_key demo_provider_id (codes "m1") ∷ [])
        ≡ false)
    × (member (target_key demo_provider_id (codes "m2")) (build_stale_set demo_selector (codes "x"))
        ≡ false)
    × (demo_resolved.provider.id ≡ demo_provider_id)
    × (demo_resolved.provider.enabled ≡ true)
unfolding next_failover_target ◌≐◌ lookup insert astreo_gateway.Routing.load_provider_map
    astreo_gateway.Store.Providers.list_providers member target_key build_stale_set
    astreo_gateway.Discovery.stale_targets astreo_gateway.Store.Aliases.list_aliases
    astreo_gateway.Store.Aliases.list_alias_targets
next_failover_target_sound_example =
    next_failover_target_sound demo_selector (alias_of two_targets)
      (target_key demo_provider_id (codes "m1") ∷ []) (demo_target (codes "m2"))
      demo_resolved.provider refl

pub demo_resolves :
    (resolve refusing.registry refusing.draw 5 demo_selector (codes "fast")).0
    ≡ returned (ok demo_resolved)
unfolding resolve resolve_alias ◌≐◌ lookup insert cut astreo_gateway.Routing.active_targets
    astreo_gateway.Store.Aliases.get_alias_by_name astreo_gateway.Store.Aliases.list_alias_targets
    astreo_gateway.Routing.load_provider_map astreo_gateway.Store.Providers.list_providers member
    build_stale_set astreo_gateway.Discovery.stale_targets astreo_gateway.Store.Aliases.list_aliases
    select_target astreo_gateway.KeyPool.get astreo_gateway.KeyPool.first_available
demo_resolves = refl

resolve-IsServable_example : IsServable 5 demo_selector demo_resolved
resolve-IsServable_example =
    resolve-IsServable refusing.registry refusing.draw 5 demo_selector (codes "fast") demo_resolved
      demo_resolves
