-- ===== src/Metrics/LogStore/Query/Filters.antt =====
-- internal/metrics/logs.go: the filters of `List`, one for each field of the query.
use astreo_gateway.Base.{
  Bool-cases, leb, arith, ◌∷◌, [], ◌==◌, ltb, ◌&&◌, ◌||◌, not, ◌⊎◌, is_empty, contains, ≐_sound,
  true, Bool, inr, inl, refl, ◌≡◌, ◌≤◌, ℕ, Text,
}
use astreo_gateway.Metrics.LogStore.{RequestLog}
use astreo_gateway.Metrics.LogStore.Query.{ListQuery, is_match, is_positive, status_class}

-- the filters of a query, as its fields say them; `lower` is `strings.ToLower`
pub record Passes (lower : Text → Text) (q : ListQuery) (e : RequestLog) : Type 0 where
  pub since : (q.from ≡ 0) ⊎ (9223372036854775808 ≤ q.from) ⊎ (q.from ≤ e.ts)
  pub up_to : (q.to ≡ 0) ⊎ (9223372036854775808 ≤ q.to) ⊎ (e.ts ≤ q.to)
  pub key : (q.gateway_key_id ≡ []) ⊎ (e.gateway_key_id ≡ q.gateway_key_id)
  pub provider : (q.provider_slug ≡ []) ⊎ (e.resolved_provider ≡ q.provider_slug)
  pub directive : (q.directive ≡ []) ⊎ (contains (lower e.directive) (lower q.directive) ≡ true)
  pub class : (q.status_class ≡ []) ⊎ (status_class e.status ≡ q.status_class)

both : (a b : Bool) → (a && b) ≡ true → (a ≡ true) × (b ≡ true)
both a b h = (ground arith, ground arith)

unset_or :
    (t : Text) (b : Bool) {P : Type 0} → (b ≡ true → P) → (is_empty t || b) ≡ true → (t ≡ []) ⊎ P
unset_or [] b f h = inl refl
unset_or (c ∷ t) b f h = inr (f (ground arith))

since_holds :
    (from ts : ℕ)
    → not (is_positive from && ltb ts from) ≡ true
    → (from ≡ 0) ⊎ (9223372036854775808 ≤ from) ⊎ (from ≤ ts)
unfolding is_positive
since_holds from ts h = elim (Bool-cases (from == 0)) [
  | inl z ↦ inl (ground arith)
  | inr n ↦ inr (elim (Bool-cases (leb 9223372036854775808 from)) [
    | inl big ↦ inl (ground arith)
    | inr small ↦ inr (ground arith)
  ])
]

until_holds :
    (to ts : ℕ)
    → not (is_positive to && ltb to ts) ≡ true
    → (to ≡ 0) ⊎ (9223372036854775808 ≤ to) ⊎ (ts ≤ to)
unfolding is_positive
until_holds to ts h = elim (Bool-cases (to == 0)) [
  | inl z ↦ inl (ground arith)
  | inr n ↦ inr (elim (Bool-cases (leb 9223372036854775808 to)) [
    | inl big ↦ inl (ground arith)
    | inr small ↦ inr (ground arith)
  ])
]

pub is_match-Passes :
    (lower : Text → Text) (q : ListQuery) (e : RequestLog)
    → is_match lower q e ≡ true
    → Passes lower q e
unfolding is_match
is_match-Passes lower q e h =
    let (a, h1) = both _ _ h in
    let (b, h2) = both _ _ h1 in
    let (c, h3) = both _ _ h2 in
    let (d, h4) = both _ _ h3 in
    let (f, g) = both _ _ h4 in
    record {
      since = since_holds q.from e.ts a;
      up_to = until_holds q.to e.ts b;
      key = unset_or q.gateway_key_id _ (≐_sound _ _) c;
      provider = unset_or q.provider_slug _ (≐_sound _ _) d;
      directive = unset_or q.directive _ (λ t. t) f;
      class = unset_or q.status_class _ (≐_sound _ _) g;
    }
