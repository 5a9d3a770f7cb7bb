-- ===== src/Metrics/LogStore/Query/Pages.antt =====
-- internal/metrics/logs.go: what a slice of a list is, and what is in it.
use astreo_gateway.Base.{
  length-drop, keep, drop, take, length, Bool-cases, if◌then◌else◌, leb, arith, ◌∷◌, [], List, some,
  ◌&&◌, false, true, Bool, inr, inl, ◌∙◌, ap, sym, refl, ◌≡◌, min, ◌<◌, ◌≤◌, ◌-◌, ◌+◌, suc, zero, ℕ,
}
use mathlib.Core.Bool.{Bool-set}
use mathlib.Core.List.{Mem-prop, Mem, mem-cons, not-mem-nil}
use mathlib.Core.Logic.Or
use astreo_gateway.Metrics.LogStore.Query.{slice_of, is_past}

module _ {ℓ} {A : Type ℓ} where
  take_all : (n : ℕ) (xs : List A) → length xs ≤ n → take n xs ≡ xs
  take_all zero [] h = refl
  take_all zero (x ∷ xs) h = elim h [ ]
  take_all (suc n) [] h = refl
  take_all (suc n) (x ∷ xs) h = ap (λ l. x ∷ l) (take_all n xs (omega arith))

  drop_all : (n : ℕ) (xs : List A) → length xs ≤ n → drop n xs ≡ []
  drop_all zero [] h = refl
  drop_all zero (x ∷ xs) h = elim h [ ]
  drop_all (suc n) [] h = refl
  drop_all (suc n) (x ∷ xs) h = drop_all n xs (omega arith)

  take_nil : (n : ℕ) → take {A = A} n [] ≡ []
  take_nil zero = refl
  take_nil (suc n) = refl

  pub slice_end :
      (o l : ℕ) (xs : List A)
      → o < 9223372036854775808
      → (if is_past o (length xs) then some [] else slice_of o (min (o + l) (length xs)) xs)
        ≡ some (take l (drop o xs))
  unfolding is_past slice_of
  slice_end o l xs lt = elim (Bool-cases (leb (length xs) o)) [
    | inl e ↦
        let past : is_past o (length xs) ≡ true = ground arith in
        rw (past, drop_all o xs (ground arith), take_nil l)
    | inr e ↦
        let within : is_past o (length xs) ≡ false = ground arith in
        let bounds : (leb o (min (o + l) (length xs)) && leb (min (o + l) (length xs)) (length xs))
            ≡ true =
          in_bounds (length xs) (ground arith) in
        rw (within, bounds)
          (ap some (elim (Bool-cases (leb (o + l) (length xs))) [
            | inl a ↦ ap (λ n. take n (drop o xs)) (room (length xs) (ground arith))
            | inr a ↦
                take_all _ (drop o xs)
                  (omega (arith, length-drop o xs, past_end (length xs) (ground arith)))
                ∙ sym (take_all l (drop o xs) (ground (arith, length-drop o xs)))
          ]))
  ]
    where
      room : (n : ℕ) → o + l ≤ n → min (o + l) n - o ≡ l
      room n h = omega arith

      past_end : (n : ℕ) → n < o + l → min (o + l) n - o ≡ n - o
      past_end n h = omega arith

      in_bounds : (n : ℕ) → o < n → (leb o (min (o + l) n) && leb (min (o + l) n) n) ≡ true
      in_bounds n h = ground arith

  pub mem-take : {a : A} (n : ℕ) (xs : List A) → Mem a (take n xs) → Mem a xs
  mem-take zero xs m = absurd (not-mem-nil m)
  mem-take (suc n) [] m = m
  mem-take (suc n) (x ∷ xs) m =
      Or.elim Mem-prop (mem-cons.0 m) (λ e. mem-cons.1 (Or.inl e))
        (λ k. mem-cons.1 (Or.inr (mem-take n xs k)))

  pub mem-drop : {a : A} (n : ℕ) (xs : List A) → Mem a (drop n xs) → Mem a xs
  mem-drop zero xs m = m
  mem-drop (suc n) [] m = m
  mem-drop (suc n) (x ∷ xs) m = mem-cons.1 (Or.inr (mem-drop n xs m))

pub mem-keep {ℓ} : {A : Type ℓ} {a : A} (p : A → Bool) (xs : List A) → Mem a (keep p xs) → Mem a xs
mem-keep p [] m = m
mem-keep p (x ∷ xs) m = elim (Bool-cases (p x)) [
  | inl e ↦
      Or.elim Mem-prop (mem-cons.0 (rw (e, keep) at m)) (λ h. mem-cons.1 (Or.inl h))
        (λ k. mem-cons.1 (Or.inr (mem-keep p xs k)))
  | inr e ↦ mem-cons.1 (Or.inr (mem-keep p xs (rw (e, keep) at m)))
]

pub mem-keep-true {ℓ} :
    {A : Type ℓ} {a : A} (p : A → Bool) (xs : List A) → Mem a (keep p xs) → p a ≡ true
mem-keep-true p [] m = absurd (not-mem-nil m)
mem-keep-true p (x ∷ xs) m = elim (Bool-cases (p x)) [
  | inl e ↦
      Or.elim (Bool-set _ _) (mem-cons.0 (rw (e, keep) at m)) (λ h. rw h e)
        (λ k. mem-keep-true p xs k)
  | inr e ↦ mem-keep-true p xs (rw (e, keep) at m)
]
