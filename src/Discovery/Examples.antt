-- ===== src/Discovery/Examples.antt =====
-- Runs of the discovery cache, and its theorems at concrete caches.
use astreo_gateway.Discovery.Marks.{is_stale-mark_runtime_stale, is_stale-mark_runtime_stale_all}
use astreo_gateway.Base.{[], List, none, true, refl, ◌≡◌, codes, Text, ◌≐◌, insert, lookup}
use astreo_gateway.Samples.{refusing, demo_db, demo_selector, demo_provider_id}
use astreo_gateway.Discovery.Fetch.{models_replied, refresh_provider, ModelsReply}
use astreo_gateway.Discovery.Fetch.Heal.{refresh_provider-IsHealed, IsHealed}
use astreo_gateway.Discovery.Known.{is_stale-known_of, stale_by}
use astreo_gateway.Discovery.Maps.{new-IsCache, mark_runtime_stale-IsCache, IsCache}
use astreo_gateway.Discovery.{new, known_of, mark_runtime_stale, is_stale, Cache}

-- a provider that no refresh has reached, with a mark on one model
abbrev one_mark : Cache
one_mark = mark_runtime_stale new (codes "p1") (codes "gone") 7

-- the mark makes the provider's other models stale as well
other_model_stale : is_stale (known_of one_mark) (codes "p1") (codes "fine") ≡ true
unfolding is_stale known_of mark_runtime_stale new lookup insert ◌≐◌
other_model_stale = refl

one_mark-IsCache : IsCache one_mark
one_mark-IsCache = mark_runtime_stale-IsCache new (codes "p1") (codes "gone") 7 new-IsCache

is_stale-known_of_example :
    is_stale (known_of one_mark) (codes "p1") (codes "fine")
    ≡ stale_by
        (codes "fine")
        (lookup (codes "p1") one_mark.runtime_stale)
        (lookup (codes "p1") one_mark.entries)
is_stale-known_of_example = is_stale-known_of one_mark (codes "p1") (codes "fine") one_mark-IsCache

-- a network that lists no model, and leaves the cache as it is
abbrev lists_nothing : Cache → Text → List (Text × Text) → ModelsReply × Cache
lists_nothing c url headers = (models_replied 200 (record { bytes = []; failure = none }), c)

refresh_provider-IsHealed_example :
    IsHealed
      (refresh_provider refusing.registry lists_nothing demo_db demo_selector.pool demo_provider_id
        5 6 one_mark).1
      demo_provider_id
unfolding refresh_provider astreo_gateway.Store.Providers.get_provider_by_id
    astreo_gateway.KeyPool.get lookup ◌≐◌ astreo_gateway.KeyPool.first_available
    astreo_gateway.Discovery.Fetch.fetch_models astreo_gateway.Protocol.protocol_of
refresh_provider-IsHealed_example =
    refresh_provider-IsHealed refusing.registry lists_nothing (λ c url headers h. h) demo_db
      demo_selector.pool demo_provider_id 5 6 one_mark one_mark-IsCache (λ e. cc) refl

is_stale-mark_runtime_stale_example :
    is_stale
      (known_of (mark_runtime_stale new (codes "p1") (codes "gone") 7))
      (codes "p1")
      (codes "gone")
    ≡ true
is_stale-mark_runtime_stale_example =
    is_stale-mark_runtime_stale new (codes "p1") (codes "gone") 7 new-IsCache

is_stale-mark_runtime_stale_all_example :
    is_stale
      (known_of (mark_runtime_stale new (codes "p1") (codes "gone") 7))
      (codes "p1")
      (codes "fine")
    ≡ true
unfolding new lookup
is_stale-mark_runtime_stale_all_example =
    is_stale-mark_runtime_stale_all new (codes "p1") (codes "gone") (codes "fine") 7 new-IsCache
      refl
