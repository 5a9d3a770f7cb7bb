-- ===== src/Base/Cuts.antt =====
-- A text cut at a byte: where the pieces are put together again, and the last cut.
use Prim.Native.Nat.{ℕ}
use mathlib.Core.Path.{◌≡◌, refl}
use mathlib.Core.Bool.{Bool, false}
use mathlib.Core.List.{[], ◌∷◌, ◌++◌}
use mathlib.Core.Option.{Option, none, some}
use native.Mathlib.Omega.{arith}
use mathlib.Core.Logic.{inl, inr}
use astreo_gateway.Base.Tests.{◌==◌, if◌then◌else◌, Bool-cases}
use astreo_gateway.Base.Lists.{All}
use astreo_gateway.Base.Bytes.{Text, cut, cons_first}

-- no byte of the text is `sep`
abbrev pub Lacks : ℕ → Text → Type 0
Lacks sep = All (λ c. (c == sep) ≡ false)

pub cut-append : (sep : ℕ) (a b : Text) → Lacks sep a → cut sep (a ++ sep ∷ b) ≡ some (a, b)
unfolding cut
cut-append sep [] b h = ground arith
cut-append sep (c ∷ a) b h = rw (h.0, cut-append sep a b h.1)

pub cut-Lacks : (sep : ℕ) (a : Text) → Lacks sep a → cut sep a ≡ none
unfolding cut
cut-Lacks sep [] h = refl
cut-Lacks sep (c ∷ a) h = rw (h.0, cut-Lacks sep a h.1)

cut_at : Bool → ℕ → Text → Option (Text × Text) → Option (Text × Text)
cut_at here c t (some p) = cons_first c (some p)
cut_at here c t none = if here then some ([], t) else none

-- `strings.LastIndex` of a byte: what is before it and what is after it
unfoldable pub cut_last : ℕ → Text → Option (Text × Text)
unfolding cut_at
cut_last sep [] = none
cut_last sep (c ∷ t) = cut_at (c == sep) c t (cut_last sep t)

cut_last-Lacks : (sep : ℕ) (a : Text) → Lacks sep a → cut_last sep a ≡ none
unfolding cut_last cut_at
cut_last-Lacks sep [] h = refl
cut_last-Lacks sep (c ∷ a) h = rw (cut_last-Lacks sep a h.1, h.0)

pub cut_last-append :
    (sep : ℕ) (a b : Text) → Lacks sep b → cut_last sep (a ++ sep ∷ b) ≡ some (a, b)
unfolding cut_last cut_at
cut_last-append sep [] b h = rw (cut_last-Lacks sep b h) (ground arith)
cut_last-append sep (c ∷ a) b h = rw (cut_last-append sep a b h)

cut_at_sound :
    (sep c : ℕ) (t a b : Text) (o : Option (Text × Text))
    → ((x y : Text) → o ≡ some (x, y) → t ≡ x ++ sep ∷ y)
    → cut_at (c == sep) c t o ≡ some (a, b)
    → c ∷ t ≡ a ++ sep ∷ b
unfolding cut_at
cut_at_sound sep c t a b none h e = ground arith
cut_at_sound sep c t a b (some (x, y)) h e = ground (arith, h x y refl)

pub cut_last_sound : (sep : ℕ) (t a b : Text) → cut_last sep t ≡ some (a, b) → t ≡ a ++ sep ∷ b
unfolding cut_last
cut_last_sound sep [] a b h = cc
cut_last_sound sep (c ∷ t) a b h =
    cut_at_sound sep c t a b (cut_last sep t) (λ x y e. cut_last_sound sep t x y e) h

cons_first-cut :
    (sep c : ℕ) (t a b : Text) (o : Option (Text × Text))
    → ((x y : Text) → o ≡ some (x, y) → t ≡ x ++ sep ∷ y)
    → cons_first c o ≡ some (a, b)
    → c ∷ t ≡ a ++ sep ∷ b
cons_first-cut sep c t a b none h e = cc
cons_first-cut sep c t a b (some (x, y)) h e = ground (arith, h x y refl)

pub cut_sound : (sep : ℕ) (t a b : Text) → cut sep t ≡ some (a, b) → t ≡ a ++ sep ∷ b
unfolding cut
cut_sound sep [] a b h = cc
cut_sound sep (c ∷ t) a b h = elim (Bool-cases (c == sep)) [
  | inl e ↦ ground (arith, e)
  | inr e ↦ cons_first-cut sep c t a b (cut sep t) (λ x y f. cut_sound sep t x y f) (rw e at h)
]
