-- ===== src/Store/Slug.antt =====
-- internal/store/slug.go: the slugs that stand for a provider in a directive.
-- The functions of `unicode` and `strings` are parameters. `Slugify` reads runes, of which only ASCII
-- is left behind `nonSlug`; `ValidSlug` reads bytes, and refuses those beyond ASCII as the runes they
-- belong to.
pub mod Laws
pub mod Free
pub mod Examples
use astreo_gateway.Base.{
  take, length, if◌then◌else◌, ◌==◌, leb, ltb, ◌++◌, ◌∷◌, [], ◌||◌, ◌&&◌, not, false, true, Bool,
  ◌+◌, suc, zero, ℕ, is_empty, codes, Text, contains, ◌≐◌, ◌>>=◌, err, ok, Result,
}
use astreo_gateway.Store.Db.{failed, row, no_rows, Answer}

unfoldable pub is_lower : ℕ → Bool
is_lower r = leb b'a' r && leb r b'z'

unfoldable pub is_digit : ℕ → Bool
is_digit r = leb b'0' r && leb r b'9'

-- `[a-z0-9]`
unfoldable pub is_slug_byte : ℕ → Bool
unfolding is_lower is_digit
is_slug_byte r = is_lower r || is_digit r

unfoldable pub is_mark : ℕ → Bool
is_mark r = r == b'-' || (r == b'_' || r == b'.')

-- `strings.TrimLeft(s, "-")`
unfoldable pub trim_left : Text → Text
trim_left [] = []
trim_left (c ∷ s) = if c == b'-' then trim_left s else c ∷ s

-- `strings.TrimRight(s, "-")`
unfoldable pub trim_right : Text → Text
trim_right [] = []
trim_right (c ∷ s) = let rest = trim_right s in if c == b'-' && is_empty rest then [] else c ∷ rest

-- `nonSlug.ReplaceAllString(s, "-")`; the flag says that the byte before was replaced
unfoldable pub replace_others : Bool → Text → Text
unfolding is_slug_byte
replace_others replaced [] = []
replace_others replaced (r ∷ s) =
    let kept = replace_others false s in
    let dropped = replace_others true s in
    if is_slug_byte r then r ∷ kept else if replaced then dropped else b'-' ∷ dropped

unfoldable pub or_provider : Text → Text
or_provider s = if is_empty s then codes "provider" else s

-- the end of `Slugify`
unfoldable pub bounded_slug : Text → Text
unfolding trim_left trim_right or_provider
bounded_slug s =
    if is_empty s
    then codes "provider"
    else or_provider (if ltb 64 (length s) then trim_left (trim_right (take 64 s)) else s)

module _ (lower trim_space : Text → Text) (fold : ℕ → ℕ) (is_letter_or_digit : ℕ → Bool) where
  -- the loop over the runes
  unfoldable pub folded : Text → Text
  folded [] = []
  folded (r ∷ s) = (if is_letter_or_digit r then fold r else b'-') ∷ folded s

  unfoldable pub slugify : Text → Text
  unfolding folded replace_others bounded_slug
  slugify s =
      bounded_slug (trim_left (trim_right (replace_others false (folded (lower (trim_space s))))))

-- the test of the loop of `ValidSlug`; the flag says that it is the first rune
unfoldable pub valid_rune : Bool → ℕ → Bool
unfolding is_slug_byte is_mark
valid_rune first r = (is_slug_byte r || is_mark r) && not (first && is_mark r)

unfoldable pub valid_runes : Bool → Text → Bool
unfolding valid_rune
valid_runes first [] = true
valid_runes first (r ∷ s) = valid_rune first r && valid_runes false s

-- `s[len(s)-1]` is one of `-`, `_` and `.`
unfoldable pub ends_in_mark : Text → Bool
unfolding is_mark
ends_in_mark [] = false
ends_in_mark (c ∷ []) = is_mark c
ends_in_mark (c ∷ d ∷ s) = ends_in_mark (d ∷ s)

unfoldable pub valid_slug : Text → Bool
unfolding valid_runes ends_in_mark
valid_slug s =
    not (is_empty s || ltb 64 (length s))
    && (not (contains s (codes ":")) && (valid_runes true s && not (ends_in_mark s)))

-- `owner` is the row of `SELECT id FROM providers WHERE slug = ?`; `decimal` and `quoted` are what `%d`
-- and `%q` print.
module _ (owner : Text → Answer Text) (decimal : ℕ → Text) (quoted : Text → Text) where
  -- the candidate serves: no row has it, or only the excluded one
  unfoldable pub serves : Text → Answer Text → Result Text Bool
  serves exclude_id no_rows = ok true
  serves exclude_id (failed e) = err e
  serves exclude_id (row id) = ok (not (is_empty exclude_id) && id ≐ exclude_id)

  -- the loop of `uniqueProviderSlug`, with `rounds` numbers left
  unfoldable pub try_slugs : ℕ → Text → Text → ℕ → Text → Result Text Text
  unfolding serves
  try_slugs zero base exclude_id n candidate =
      err (codes "could not allocate unique slug for " ++ quoted base)
  try_slugs (suc rounds) base exclude_id n candidate =
      let rest = try_slugs rounds base exclude_id (n + 1) (base ++ b'-' ∷ decimal n) in
      serves exclude_id (owner candidate) >>= λ found. if found then ok candidate else rest

  -- `uniqueProviderSlug`, of a text that `Slugify` has turned into a slug
  unfoldable pub unique_provider_slug : Text → Text → Result Text Text
  unfolding try_slugs
  unique_provider_slug base exclude_id =
      let b = if is_empty base then codes "provider" else base in try_slugs 998 b exclude_id 2 b
