-- ===== src/Store/Slug/Examples.antt =====
-- Runs of the slugs, and the theorems on them at concrete texts.
use astreo_gateway.Base.{
  if◌then◌else◌, leb, map, lookup, ok, ◌++◌, ◌∷◌, [], ◌&&◌, true, refl, ◌≡◌, ◌+◌, codes, Text,
  contains, ◌≐◌,
}
use astreo_gateway.Samples.{
  refusing, demo_selector, demo_db, demo_resolved, demo_protocol, provider_row,
}
use astreo_gateway.Protocol.{protocol_of}
use astreo_gateway.KeyPool.{get, first_available}
use astreo_gateway.Store.Providers.{get_provider_by_id, get_provider_by_slug}
use astreo_gateway.Store.Slug.Laws.{resolve-valid_slug, slugify-valid}
use astreo_gateway.Routing.{returned, resolve, Selector}
use astreo_gateway.Store.Slug.Free.{unique_provider_slug-IsFree, IsFree}
use astreo_gateway.Store.Db.{no_rows, row, Answer}
use astreo_gateway.Store.Slug.{
  bounded_slug, trim_right, trim_left, is_slug_byte, replace_others, unique_provider_slug,
  valid_slug, slugify,
}

-- lower case, for the letters of ASCII
lower_of : Text → Text
lower_of = map (λ c. if leb b'A' c && leb c b'Z' then c + 32 else c)

slug_of_name :
    slugify lower_of (λ s. s) (λ r. r) is_slug_byte (codes "--Open AI (EU)") ≡ codes "open-ai-eu"
unfolding lower_of slugify replace_others trim_left trim_right bounded_slug is_slug_byte
slug_of_name = refl

slugify-valid_example :
    valid_slug (slugify lower_of (λ s. s) (λ r. r) is_slug_byte (codes "Open AI")) ≡ true
slugify-valid_example = slugify-valid lower_of (λ s. s) (λ r. r) is_slug_byte (codes "Open AI")

-- a store that finds its provider by the slug alone
abbrev by_slug_only : Selector
by_slug_only = record demo_selector {
  db = record demo_db { provider_by_id = λ _. no_rows; provider_by_slug = λ _. row provider_row };
}

resolve-valid_slug_example :
    resolve refusing.registry refusing.draw 5 by_slug_only (codes "one" ++ b':' ∷ codes "m1")
    ≡ (returned (ok (record demo_resolved { alias_routing = [] })), by_slug_only)
unfolding valid_slug contains get_provider_by_id get_provider_by_slug protocol_of ◌≐◌ get lookup
    first_available
resolve-valid_slug_example =
    resolve-valid_slug refusing.registry refusing.draw 5 by_slug_only (codes "one") (codes "m1")
      demo_resolved.provider demo_protocol demo_resolved.api_key refl refl refl refl refl refl

-- the slug `one` is taken
abbrev one_taken : Text → Answer Text
one_taken s = if s ≐ codes "one" then row (codes "p1") else no_rows

unique_provider_slug-IsFree_example : IsFree (one_taken (codes "one-2")) []
unfolding unique_provider_slug ◌≐◌
unique_provider_slug-IsFree_example =
    unique_provider_slug-IsFree one_taken (λ n. codes "2") (λ s. s) (codes "one") [] (codes "one-2")
      refl
