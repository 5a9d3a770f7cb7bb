-- ===== src/Metrics/LogStore/Stats/Totals.antt =====
-- internal/metrics/logs.go: the sum of a count over the values of a map of `Stats`.
use astreo_gateway.Base.{if-holds, arith, ◌∷◌, [], List, Bool, ◌≡◌, ◌+◌, ℕ}
use astreo_gateway.Metrics.LogStore.Stats.{update}

-- the sum of a count over the values of a map
unfoldable pub sum_of : {K V : Type 0} → (V → ℕ) → List (K × V) → ℕ
sum_of w [] = 0
sum_of w ((k, v) ∷ m) = w v + sum_of w m

pub sum_of-update :
    {K V : Type 0} (w : V → ℕ) (same : K → K → Bool) (fresh : V) (f : V → V) (k : K) (d : ℕ)
    → w fresh ≡ 0
    → ((v : V) → w (f v) ≡ w v + d)
    → (m : List (K × V)) → sum_of w (update same fresh f k m) ≡ sum_of w m + d
unfolding sum_of update
sum_of-update w same fresh f k d none_yet adds [] = omega (arith, none_yet, adds fresh)
sum_of-update w same fresh f k d none_yet adds ((j, v) ∷ m) =
    if-holds (λ r. sum_of w r ≡ w v + sum_of w m + d) (same j k) ((j, f v) ∷ m)
      ((j, v) ∷ update same fresh f k m) (λ _. here)
      (λ _. later (sum_of-update w same fresh f k d none_yet adds m))
  where
    here : w (f v) + sum_of w m ≡ w v + sum_of w m + d
    here = omega (arith, adds v)

    later :
        sum_of w (update same fresh f k m) ≡ sum_of w m + d
        → w v + sum_of w (update same fresh f k m) ≡ w v + sum_of w m + d
    later ih = omega (arith, ih)
