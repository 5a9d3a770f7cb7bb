-- ===== src/Base/Results.antt =====
-- Go's `(T, error)` results, and maps with string keys as association lists.
use mathlib.Core.Path.{◌≡◌, refl, subst}
use mathlib.Core.Logic.{◌≢◌, inl, inr}
use mathlib.Core.Bool.{Bool, true, false}
use mathlib.Core.List.{List, [], ◌∷◌, ◌++◌}
use mathlib.Core.Option.{Option, none, some}
use native.Mathlib.Omega.{arith}
use astreo_gateway.Base.Tests.{if◌then◌else◌, Bool-cases}
use astreo_gateway.Base.Bytes.{Text, ◌≐◌, ≐_iff, ≐_sound, ≐_refl}

pub data Result {ℓ κ} (E : Type ℓ) (A : Type κ) : Type (ℓ ⊔ κ) where
  ok : A → Result E A
  err : E → Result E A

-- the rest of a function, behind `if err != nil { return err }`
infixl 5 ◌>>=◌
abbrev pub ◌>>=◌ {ℓ κ μ} :
    {E : Type ℓ} {A : Type κ} {B : Type μ} → Result E A → (A → Result E B) → Result E B
err failure >>= rest = err failure
ok value >>= rest = rest value

-- a function that returns a value has passed each of its checks
pub >>=-eq-ok {ℓ κ μ} :
    {E : Type ℓ} {A : Type κ} {B : Type μ} {b : B} (first : Result E A) (rest : A → Result E B)
    → (first >>= rest) ≡ ok b
    → (a : A) × (first ≡ ok a) × (rest a ≡ ok b)
>>=-eq-ok (err failure) rest h = cc
>>=-eq-ok (ok value) rest h = (value, refl, h)

-- `%w`: an error that another one wraps
abbrev pub wrap {ℓ} : {A : Type ℓ} → Text → Result Text A → Result Text A
wrap prefix (ok a) = ok a
wrap prefix (err e) = err (prefix ++ e)

-- a value that is returned has the property; an error has none
abbrev pub Ensures {ℓ κ μ} : {E : Type ℓ} {A : Type κ} → Result E A → (A → Type μ) → Type μ
Ensures (ok a) P = P a
Ensures (err e) P = Unit

module _ {ℓ κ μ} {E : Type ℓ} {A : Type κ} (P : A → Type μ) where
  pub Ensures-eq : (r : Result E A) {a : A} → Ensures r P → r ≡ ok a → P a
  Ensures-eq (ok b) {a} holds e = subst P (ok_eq e) holds
    where
      ok_eq : {b c : A} → ◌≡◌ {A = Result E A} (ok b) (ok c) → b ≡ c
      ok_eq h = cc
  Ensures-eq (err f) holds e = cc

  pub Ensures-if :
      (b : Bool) (x y : Result E A)
      → (b ≡ true → Ensures x P)
      → (b ≡ false → Ensures y P)
      → Ensures (if b then x else y) P
  Ensures-if true x y first second = first refl
  Ensures-if false x y first second = second refl

  pub Ensures->>= {ν ξ} :
      {B : Type ν} (Q : B → Type ξ) (m : Result E B) (f : B → Result E A)
      → Ensures m Q
      → ((b : B) → Q b → Ensures (f b) P)
      → Ensures (m >>= f) P
  Ensures->>= Q (ok b) f holds rest = rest b holds
  Ensures->>= Q (err e) f holds rest = tt

  -- where nothing is known of the first value
  pub Ensures-all {ν} :
      {B : Type ν} (m : Result E B) (f : B → Result E A)
      → ((b : B) → Ensures (f b) P)
      → Ensures (m >>= f) P
  Ensures-all (ok b) f rest = rest b
  Ensures-all (err e) f rest = tt

-- `m[k]` and `m[k] = v` of a Go map with string keys.
module _ {ℓ} {V : Type ℓ} where
  unfoldable pub lookup : Text → List (Text × V) → Option V
  lookup k [] = none
  lookup k ((j, v) ∷ m) = if j ≐ k then some v else lookup k m

  unfoldable pub insert : Text → V → List (Text × V) → List (Text × V)
  insert k v [] = (k, v) ∷ []
  insert k v ((j, w) ∷ m) = if j ≐ k then (k, v) ∷ m else (j, w) ∷ insert k v m

  -- `delete(m, k)`
  unfoldable pub delete : Text → List (Text × V) → List (Text × V)
  delete k [] = []
  delete k ((j, v) ∷ m) = if j ≐ k then delete k m else (j, v) ∷ delete k m

  pub lookup-insert :
      (k j : Text) (v : V) (m : List (Text × V))
      → lookup j (insert k v m) ≡ (if k ≐ j then some v else lookup j m)
  unfolding lookup insert
  lookup-insert k j v [] = refl
  lookup-insert k j v ((i, w) ∷ m) =
      ground (arith, ≐_iff k j, ≐_iff i k, ≐_iff i j, lookup-insert k j v m)

  pub lookup-insert_self :
      (k : Text) (v : V) (m : List (Text × V)) → lookup k (insert k v m) ≡ some v
  lookup-insert_self k v m = rw (lookup-insert, ≐_refl)

  pub lookup-delete :
      (k j : Text) (m : List (Text × V))
      → lookup j (delete k m) ≡ (if k ≐ j then none else lookup j m)
  unfolding lookup delete
  lookup-delete k j [] = ground arith
  lookup-delete k j ((i, w) ∷ m) =
      ground (arith, ≐_iff k j, ≐_iff i k, ≐_iff i j, lookup-delete k j m)

-- Membership in a set of strings, `m[k]` of a `map[string]bool` that holds only `true`.
unfoldable pub member : Text → List Text → Bool
member k [] = false
member k (j ∷ s) = if j ≐ k then true else member k s

pub ≐_ne : (a b : Text) → a ≢ b → (a ≐ b) ≡ false
≐_ne a b h = elim (Bool-cases (a ≐ b)) [ inl e ↦ absurd (h (≐_sound a b e)) | inr e ↦ e ]

pub ne_of_test : (a b : Text) → (a ≐ b) ≡ false → a ≢ b
ne_of_test a b h e = ground (arith, ≐_iff a b)
