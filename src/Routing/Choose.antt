-- ===== src/Routing/Choose.antt =====
-- The choice among an alias's active targets.
use astreo_gateway.Base.{
  length-drop, drop, take, get_elem?, length, Bool-cases, ==_iff, lt→ltb, ◌==◌, arith, map, ◌++◌,
  ◌∷◌, [], List, some, Option, true, inr, inl, ◌∙◌, ap, sym, refl, ◌≡◌, ◌<◌, ◌≤◌, ◌%◌, ◌-◌, ◌+◌,
  suc, zero, ℕ, ≐_refl, codes, Text, ◌≐◌, lookup-insert_self, lookup,
}
use native.Mathlib.Nat.{
  add-mod_left, mod-lt, mod-eq_of_lt, mod-add-mod, suc-add, add-zero, zero-add,
}
use mathlib.Core.Path.{ap₂}
use mathlib.Core.List.{Memᴰ, map-append}
use astreo_gateway.Model.{Alias, AliasTarget}
use astreo_gateway.Routing.{position_of, select_target}

turn : (start n i : ℕ) → 0 < n → i < n - start % n → (start + i) % n ≡ start % n + i
turn start n i pos lt = sym (mod-add-mod start n i) ∙ mod-eq_of_lt (omega (arith, mod-lt start pos))

turned : (start n i : ℕ) → 0 < n → i < n → (start + (n - start % n) + i) % n ≡ i
turned start n i pos lt =
    turn_all start (n - start % n) i
    ∙ ap (λ k. k % n) (fits (start % n) n (omega (arith, mod-lt start pos)))
    ∙ add-mod_left n i
    ∙ mod-eq_of_lt lt
  where
    turn_all : (s a j : ℕ) → (s + a + j) % n ≡ (s % n + a + j) % n
    turn_all s a j = grind (arith, mod-add-mod s n (a + j))

    fits : (k m : ℕ) → k ≤ m → k + (m - k) + i ≡ m + i
    fits k m h = omega arith

module _ {ℓ} {A : Type ℓ} where
  pub mem-get_elem? : (xs : List A) (i : ℕ) {x : A} → get_elem? xs i ≡ some x → Memᴰ x xs
  mem-get_elem? [] i h = cc
  mem-get_elem? (y ∷ xs) zero {x} h = Memᴰ.head (cc h)
  mem-get_elem? (y ∷ xs) (suc i) h = Memᴰ.tail (mem-get_elem? xs i h)

  get_elem?-IsSome : (xs : List A) (i : ℕ) → i < length xs → (x : A) × (get_elem? xs i ≡ some x)
  get_elem?-IsSome [] i h = elim h [ ]
  get_elem?-IsSome (x ∷ xs) zero h = (x, refl)
  get_elem?-IsSome (x ∷ xs) (suc i) h = get_elem?-IsSome xs i (omega arith)

  drop_at :
      (xs : List A) (k : ℕ) {x : A} → get_elem? xs k ≡ some x → drop k xs ≡ x ∷ drop (suc k) xs
  drop_at [] k h = cc
  drop_at (y ∷ xs) zero h = cc
  drop_at (y ∷ xs) (suc k) h = drop_at xs k h

  -- the elements at `m` indices from `start` on, around the end of the list
  picks_from : List A → ℕ → ℕ → List (Option A)
  picks_from xs start zero = []
  picks_from xs start (suc m) = get_elem? xs (start % length xs) ∷ picks_from xs (start + 1) m

  picks_from-take :
      (xs : List A) (start k m : ℕ)
      → ((i : ℕ) → i < m → (start + i) % length xs ≡ k + i)
      → k + m ≤ length xs
      → picks_from xs start m ≡ map some (take m (drop k xs))
  unfolding picks_from
  picks_from-take xs start k zero e h = refl
  picks_from-take xs start k (suc m) e h =
      let (x, at_k) = get_elem?-IsSome xs k (omega arith) in
      let here : start % length xs ≡ k = simp add-zero at (e 0 (omega arith)) in
      ap (λ o. o ∷ picks_from xs (start + 1) m) (ap (get_elem? xs) here ∙ at_k)
      ∙ ap (λ l. some x ∷ l)
          (picks_from-take xs (start + 1) (suc k) m
            (λ i lt.
              ap (λ j. j % length xs) (one_on start i) ∙ e (suc i) (omega arith) ∙ next_on k i)
            (omega arith))
      ∙ sym (ap (λ d. map some (take (suc m) d)) (drop_at xs k at_k))
    where
      one_on : (a i : ℕ) → a + 1 + i ≡ a + suc i
      one_on a i = omega arith

      next_on : (a i : ℕ) → a + suc i ≡ suc a + i
      next_on a i = omega arith

  picks_from-split :
      (xs : List A) (start a b : ℕ)
      → picks_from xs start (a + b) ≡ picks_from xs start a ++ picks_from xs (start + a) b
  unfolding picks_from
  picks_from-split xs start zero b = rw (zero-add, add-zero)
  picks_from-split xs start (suc a) b =
      ap (λ n. picks_from xs start n) (suc-add a b)
      ∙ ap (λ l. get_elem? xs (start % length xs) ∷ l) (picks_from-split xs (start + 1) a b)
      ∙ ap
          (λ k.
            get_elem? xs (start % length xs) ∷ (picks_from xs (start + 1) a ++ picks_from xs k b))
          (after_one start a)
    where
      after_one : (n m : ℕ) → n + 1 + m ≡ n + suc m
      after_one n m = omega arith

  around_nil : (k : ℕ) → drop {A = A} k [] ++ take k [] ≡ []
  around_nil zero = refl
  around_nil (suc k) = refl

  take_whole : (n : ℕ) (xs : List A) → length xs ≤ n → take n xs ≡ xs
  take_whole zero [] h = refl
  take_whole zero (x ∷ xs) h = elim h [ ]
  take_whole (suc n) [] h = refl
  take_whole (suc n) (x ∷ xs) h = ap (λ l. x ∷ l) (take_whole n xs (omega arith))

  picks_nil :
      (xs : List A) (start : ℕ)
      → length xs ≡ 0
      → picks_from xs start (length xs)
        ≡ map some (drop (start % length xs) xs ++ take (start % length xs) xs)
  picks_nil [] start e = unfold picks_from in rw (around_nil (start % 0))
  picks_nil (x ∷ xs) start e = absurd (omega arith)

  picks_from-rotation_pos :
      (xs : List A) (start : ℕ)
      → 0 < length xs
      → picks_from xs start (length xs)
        ≡ map some (drop (start % length xs) xs ++ take (start % length xs) xs)
  picks_from-rotation_pos xs start pos =
      let n = length xs in
      let k = start % n in
      let le : k ≤ n = omega (arith, mod-lt start pos) in
      ap (λ m. picks_from xs start m) (parts k n le)
      ∙ picks_from-split xs start (n - k) k
      ∙ ap₂ (λ l r. l ++ r)
          (picks_from-take xs start k (n - k) (λ i lt. turn start n i pos lt) (omega arith)
            ∙ ap (map some) (take_whole (n - k) (drop k xs) (omega (arith, length-drop k xs))))
          (picks_from-take xs (start + (n - k)) 0 k
            (λ i lt. turned start n i pos (omega arith) ∙ sym (zero-add i)) (omega arith))
      ∙ sym (map-append some (drop k xs) (take k xs))
    where
      parts : (j m : ℕ) → j ≤ m → m ≡ m - j + j
      parts j m h = omega arith

  -- as many picks as there are elements give each element once, in the order of a rotation
  picks_from-rotation :
      (xs : List A) (start : ℕ)
      → picks_from xs start (length xs)
        ≡ map some (drop (start % length xs) xs ++ take (start % length xs) xs)
  picks_from-rotation xs start = elim (Bool-cases (length xs == 0)) [
    | inl e ↦ picks_nil xs start ((==_iff (length xs) 0).0 e)
    | inr e ↦ picks_from-rotation_pos xs start (ground arith)
  ]

-- `rounds` successive selections for one alias, with the positions that they leave
unfoldable pub choose_times :
    (ℕ → ℕ) → List (Text × ℕ) → Alias → List AliasTarget → ℕ → List (Option AliasTarget)
choose_times draw positions alias active zero = []
choose_times draw positions alias active (suc rounds) =
    let (target, later) = select_target draw positions alias active in
    target ∷ choose_times draw later alias active rounds

abbrev pub position : List (Text × ℕ) → Alias → ℕ
position positions alias = position_of (lookup alias.id positions)

select_target-round_robin :
    (draw : ℕ → ℕ) (positions : List (Text × ℕ)) (alias : Alias) (active : List AliasTarget)
    → alias.routing ≡ codes "round_robin"
    → position positions alias < 9223372036854775807
    → let (target, later) = select_target draw positions alias active in
      (target ≡ get_elem? active (position positions alias % length active))
      × (position later alias ≡ position positions alias + 1)
unfolding select_target
select_target-round_robin draw positions alias active robin low =
    let is_robin : (alias.routing ≐ codes "round_robin") ≡ true = rw robin (≐_refl _) in
    rw
      (
        is_robin,
        lt→ltb (position positions alias) 9223372036854775808 (omega arith),
        lookup-insert_self,
      )
      (refl, mod-eq_of_lt (omega arith))

choose_times-picks_from :
    (draw : ℕ → ℕ) (positions : List (Text × ℕ)) (alias : Alias) (active : List AliasTarget)
    (rounds : ℕ)
    → alias.routing ≡ codes "round_robin"
    → position positions alias + rounds < 9223372036854775808
    → choose_times draw positions alias active rounds
      ≡ picks_from active (position positions alias) rounds
unfolding choose_times picks_from
choose_times-picks_from draw positions alias active zero robin low = refl
choose_times-picks_from draw positions alias active (suc rounds) robin low =
    let later = (select_target draw positions alias active).1 in
    let (here, moved) = select_target-round_robin draw positions alias active robin (omega arith) in
    ap (λ t. t ∷ choose_times draw later alias active rounds) here
    ∙ ap (λ l. get_elem? active (position positions alias % length active) ∷ l)
        (choose_times-picks_from draw later alias active rounds robin (omega (arith, moved))
          ∙ ap (λ k. picks_from active k rounds) moved)

-- Round robin is fair: as many successive selections as an alias has active targets choose each
-- of them once, in their order from the alias's position on, around the end; as long as the
-- position stays below 2 ^ 63.
pub choose_times-round_robin :
    (draw : ℕ → ℕ) (positions : List (Text × ℕ)) (alias : Alias) (active : List AliasTarget)
    → alias.routing ≡ codes "round_robin"
    → position positions alias + length active < 9223372036854775808
    → let start = position positions alias % length active in
      choose_times draw positions alias active (length active)
      ≡ map some (drop start active ++ take start active)
choose_times-round_robin draw positions alias active robin low =
    choose_times-picks_from draw positions alias active (length active) robin low
    ∙ picks_from-rotation active (position positions alias)
