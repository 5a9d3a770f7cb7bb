-- ===== src/Store/Slug/Free.antt =====
-- internal/store/slug.go: the slugs that `uniqueProviderSlug` returns are free.
use astreo_gateway.Store.Slug.{serves, try_slugs, unique_provider_slug}
use astreo_gateway.Base.{
  if◌then◌else◌, arith, ◌++◌, ◌∷◌, [], ◌&&◌, not, false, true, Bool, inr, inl, ◌⊎◌, ◌≢◌, ap, refl,
  ◌≡◌, ◌+◌, suc, zero, ℕ, is_empty, ≐_sound, Text, ◌≐◌, >>=-eq-ok, ok, Result,
}
use astreo_gateway.Store.Db.{Answer, row, no_rows, failed}

-- the row belongs to nobody, or to the excluded provider
pub IsFree : Answer Text → Text → Type 0
IsFree answer exclude_id = (answer ≡ no_rows) ⊎ ((answer ≡ row exclude_id) × (exclude_id ≢ []))

module _ (owner : Text → Answer Text) (decimal : ℕ → Text) (quoted : Text → Text) where
  serves-IsFree :
      (exclude_id : Text) (a : Answer Text)
      → serves owner decimal quoted exclude_id a ≡ ok true
      → IsFree a exclude_id
  unfolding serves IsFree
  serves-IsFree exclude_id no_rows h = inl refl
  serves-IsFree exclude_id (failed e) h = cc
  serves-IsFree exclude_id (row id) h =
      let same : (not (is_empty exclude_id) && id ≐ exclude_id) ≡ true = ok_eq h in
      inr (ap row (≐_sound id exclude_id (ground arith)), λ e. absurd (ground (arith, empty_of e)))
    where
      ok_eq : {a b : Bool} → ◌≡◌ {A = Result Text Bool} (ok a) (ok b) → a ≡ b
      ok_eq h = cc

      empty_of : exclude_id ≡ [] → is_empty exclude_id ≡ true
      empty_of e = rw e

  try_slugs-IsFree :
      (rounds : ℕ) (base exclude_id : Text) (n : ℕ) (candidate : Text) {s : Text}
      → try_slugs owner decimal quoted rounds base exclude_id n candidate ≡ ok s
      → IsFree (owner s) exclude_id
  unfolding try_slugs
  try_slugs-IsFree zero base exclude_id n candidate h = cc
  try_slugs-IsFree (suc rounds) base exclude_id n candidate {s} h =
      let (found, served, e) =
        >>=-eq-ok (serves owner decimal quoted exclude_id (owner candidate))
          (λ found. if found then ok candidate else rest_of) h in
      by_found found served e
        (λ k. try_slugs-IsFree rounds base exclude_id (n + 1) (base ++ b'-' ∷ decimal n) k)
    where
      rest_of : Result Text Text
      rest_of =
          try_slugs owner decimal quoted rounds base exclude_id (n + 1) (base ++ b'-' ∷ decimal n)

      ok_eq : {a b : Text} → ◌≡◌ {A = Result Text Text} (ok a) (ok b) → a ≡ b
      ok_eq h = cc

      by_found :
          (found : Bool)
          → serves owner decimal quoted exclude_id (owner candidate) ≡ ok found
          → (if found then ok candidate else rest_of) ≡ ok s
          → (rest_of ≡ ok s → IsFree (owner s) exclude_id)
          → IsFree (owner s) exclude_id
      by_found true served e k = rw (← ok_eq e) (serves-IsFree exclude_id (owner candidate) served)
      by_found false served e k = k e

  -- A slug that `uniqueProviderSlug` returns is no provider's, or it is that of the provider to
  -- exclude, whose ID is not empty.
  pub unique_provider_slug-IsFree :
      (base exclude_id s : Text)
      → unique_provider_slug owner decimal quoted base exclude_id ≡ ok s
      → IsFree (owner s) exclude_id
  unfolding unique_provider_slug
  unique_provider_slug-IsFree base exclude_id s h = try_slugs-IsFree 998 _ exclude_id 2 _ h
