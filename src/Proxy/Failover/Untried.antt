-- ===== src/Proxy/Failover/Untried.antt =====
-- The targets of an alias that the failover loop has not tried: each round has one fewer.
use astreo_gateway.Base.{
  length, if◌then◌else◌, arith, ◌∷◌, [], List, false, true, ◌≡◌, ◌<◌, ◌≤◌, suc, ℕ, ≐_refl, Text,
  member,
}
use mathlib.Core.List.{Memᴰ}
use astreo_gateway.Model.{AliasTarget}
use astreo_gateway.Routing.{target_key}

-- the targets whose keys have not been tried
unfoldable pub untried : List Text → List AliasTarget → ℕ
untried tried [] = 0
untried tried (t ∷ ts) =
    if member (target_key t.provider_id t.model_name) tried
    then untried tried ts
    else suc (untried tried ts)

member-cons : (k j : Text) (s : List Text) → member k s ≡ true → member k (j ∷ s) ≡ true
unfolding member
member-cons k j s h = ground arith

untried-cons-le :
    (k : Text) (tried : List Text) (ts : List AliasTarget)
    → untried (k ∷ tried) ts ≤ untried tried ts
unfolding untried
untried-cons-le k tried [] = omega arith
untried-cons-le k tried (t ∷ ts) =
    ground (
      arith,
      untried-cons-le k tried ts,
      member-cons (target_key t.provider_id t.model_name) k tried,
    )

pub untried-le-length : (tried : List Text) (ts : List AliasTarget) → untried tried ts ≤ length ts
unfolding untried
untried-le-length tried [] = omega arith
untried-le-length tried (t ∷ ts) = ground (arith, untried-le-length tried ts)

member-cons_self : (k : Text) (s : List Text) → member k (k ∷ s) ≡ true
unfolding member
member-cons_self k s = rw ≐_refl

pub untried-cons-lt :
    (t : AliasTarget) (tried : List Text) (ts : List AliasTarget)
    → Memᴰ t ts
    → member (target_key t.provider_id t.model_name) tried ≡ false
    → untried (target_key t.provider_id t.model_name ∷ tried) ts < untried tried ts
unfolding untried
untried-cons-lt t tried [] m h = elim m [ ]
untried-cons-lt t tried (u ∷ ts) (Memᴰ.head e) h =
    rw (← e, h, member-cons_self (target_key t.provider_id t.model_name) tried)
      (omega (arith, untried-cons-le (target_key t.provider_id t.model_name) tried ts))
untried-cons-lt t tried (u ∷ ts) (Memᴰ.tail m) h = ground (
  arith,
  untried-cons-lt t tried ts m h,
  member-cons (target_key u.provider_id u.model_name) (target_key t.provider_id t.model_name) tried,
)
