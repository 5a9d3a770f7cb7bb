-- ===== src/Store/Slug/Laws.antt =====
-- internal/store/slug.go: what makes a slug fit for a directive.
use astreo_gateway.Base.{
  All, length-take, take, length, Bool-cases, if◌then◌else◌, ◌==◌, ltb, arith, ◌∷◌, [], ◌||◌, ◌&&◌,
  false, true, Bool, inr, inl, none, some, ok, ◌++◌, ◌∙◌, refl, ◌≡◌, ◌≤◌, suc, zero, ℕ, is_empty,
  codes, Text, Lacks, contains, has_prefix,
}
use astreo_gateway.Protocol.{Registry, Protocol, protocol_of}
use astreo_gateway.Model.{Provider}
use astreo_gateway.KeyPool.{Key, get}
use astreo_gateway.Store.Providers.{get_provider_by_id, get_provider_by_slug}
use astreo_gateway.Store.Slug.{
  bounded_slug, folded, or_provider, slugify, is_digit, is_lower, is_mark, ends_in_mark, valid_rune,
  valid_slug, is_slug_byte, valid_runes, trim_right, replace_others, trim_left,
}
use astreo_gateway.Routing.{
  returned, Selector, resolve, resolve_direct, find_provider, enabled_provider, known_protocol,
  key_or_error, target_key,
}
use astreo_gateway.Routing.Resolve.{resolve-direct}

-- a byte that `Slugify` leaves
abbrev is_kept : ℕ → Bool
is_kept c = is_slug_byte c || c == b'-'

AllKept : Text → Type 0
AllKept = All (λ c. is_kept c ≡ true)

valid_rune-colon : (first : Bool) (r : ℕ) → valid_rune first r ≡ true → (r == b':') ≡ false
unfolding valid_rune is_slug_byte is_mark is_lower is_digit
valid_rune-colon first r h = ground arith

valid_runes-Lacks : (first : Bool) (s : Text) → valid_runes first s ≡ true → Lacks b':' s
unfolding valid_runes
valid_runes-Lacks first [] h = tt
valid_runes-Lacks first (r ∷ s) h =
    (valid_rune-colon first r (ground arith), valid_runes-Lacks false s (ground arith))

-- A text that `ValidSlug` accepts has no colon: before a colon, it is a whole provider reference.
pub valid_slug-Lacks : (s : Text) → valid_slug s ≡ true → Lacks b':' s
unfolding valid_slug
valid_slug-Lacks s h = valid_runes-Lacks true s (ground arith)

replace_others-AllKept : (replaced : Bool) (s : Text) → AllKept (replace_others replaced s)
unfolding replace_others AllKept
replace_others-AllKept replaced [] = tt
replace_others-AllKept replaced (r ∷ s) = elim (Bool-cases (is_slug_byte r)) [
  | inl e ↦ rw e (rw e, replace_others-AllKept false s)
  | inr e ↦ rw e (dropped replaced (replace_others-AllKept true s))
]
  where
    dropped :
        (b : Bool)
        → AllKept (replace_others true s)
        → AllKept (if b then replace_others true s else b'-' ∷ replace_others true s)
    dropped true k = k
    dropped false k = (refl, k)

trim_left-AllKept : (s : Text) → AllKept s → AllKept (trim_left s)
unfolding trim_left AllKept
trim_left-AllKept [] h = tt
trim_left-AllKept (c ∷ s) h = elim (Bool-cases (c == b'-')) [
  | inl e ↦ rw e (trim_left-AllKept s h.1)
  | inr e ↦ rw e h
]

trim_right-AllKept : (s : Text) → AllKept s → AllKept (trim_right s)
unfolding trim_right AllKept
trim_right-AllKept [] h = tt
trim_right-AllKept (c ∷ s) h = elim (Bool-cases (c == b'-' && is_empty (trim_right s))) [
  | inl e ↦ rw e tt
  | inr e ↦ rw e (h.0, trim_right-AllKept s h.1)
]

take-AllKept : (n : ℕ) (s : Text) → AllKept s → AllKept (take n s)
unfolding AllKept
take-AllKept zero s h = tt
take-AllKept (suc n) [] h = tt
take-AllKept (suc n) (c ∷ s) h = (h.0, take-AllKept n s h.1)

kept-mark : (c : ℕ) → is_kept c ≡ true → (c == b'-') ≡ false → is_mark c ≡ false
unfolding is_slug_byte is_mark is_lower is_digit
kept-mark c h k = ground arith

trim_right-ends : (s : Text) → AllKept s → ends_in_mark (trim_right s) ≡ false
unfolding trim_right AllKept ends_in_mark
trim_right-ends [] h = refl
trim_right-ends (c ∷ s) h = elim (Bool-cases (c == b'-' && is_empty (trim_right s))) [
  | inl e ↦ rw e
  | inr e ↦ rw e (cons_ends (trim_right s) (trim_right-ends s h.1) e)
]
  where
    cons_ends :
        (t : Text)
        → ends_in_mark t ≡ false
        → (c == b'-' && is_empty t) ≡ false
        → ends_in_mark (c ∷ t) ≡ false
    cons_ends [] k e = kept-mark c h.0 (ground arith)
    cons_ends (d ∷ t) k e = k

trim_left-ends : (s : Text) → ends_in_mark s ≡ false → ends_in_mark (trim_left s) ≡ false
unfolding trim_left ends_in_mark
trim_left-ends [] h = refl
trim_left-ends (c ∷ s) h = elim (Bool-cases (c == b'-')) [
  | inl e ↦ rw e (trim_left-ends s (tail_ends s h))
  | inr e ↦ rw e h
]
  where
    tail_ends : (t : Text) → ends_in_mark (c ∷ t) ≡ false → ends_in_mark t ≡ false
    tail_ends [] k = refl
    tail_ends (d ∷ t) k = k

-- the first byte is no dash
starts : Text → Bool
starts [] = false
starts (c ∷ s) = c == b'-'

trim_left-starts : (s : Text) → starts (trim_left s) ≡ false
unfolding trim_left starts
trim_left-starts [] = refl
trim_left-starts (c ∷ s) = elim (Bool-cases (c == b'-')) [
  | inl e ↦ rw e (trim_left-starts s)
  | inr e ↦ rw e e
]

length-trim_left : (s : Text) → length (trim_left s) ≤ length s
unfolding trim_left
length-trim_left [] = omega arith
length-trim_left (c ∷ s) = ground (arith, length-trim_left s)

length-trim_right : (s : Text) → length (trim_right s) ≤ length s
unfolding trim_right
length-trim_right [] = omega arith
length-trim_right (c ∷ s) = ground (arith, length-trim_right s)

kept-contains : (s : Text) → AllKept s → contains s (codes ":") ≡ false
unfolding contains has_prefix AllKept is_slug_byte is_lower is_digit
kept-contains [] h = refl
kept-contains (c ∷ s) h = ground (arith, h.0, kept-contains s h.1)

kept-valid_runes : (s : Text) → AllKept s → valid_runes false s ≡ true
unfolding valid_runes valid_rune AllKept is_mark
kept-valid_runes [] h = refl
kept-valid_runes (c ∷ s) h = ground (arith, h.0, kept-valid_runes s h.1)

kept-valid_first : (s : Text) → AllKept s → starts s ≡ false → valid_runes true s ≡ true
unfolding valid_runes valid_rune AllKept starts
kept-valid_first [] h k = refl
kept-valid_first (c ∷ s) h k = ground (arith, h.0, kept-mark c h.0 k, kept-valid_runes s h.1)

or_provider-valid :
    (s : Text)
    → AllKept s
    → starts s ≡ false
    → ends_in_mark s ≡ false
    → length s ≤ 64
    → valid_slug (or_provider s) ≡ true
unfolding valid_slug or_provider contains has_prefix valid_runes valid_rune ends_in_mark
    is_slug_byte is_mark is_lower is_digit
or_provider-valid [] h st en le = refl
or_provider-valid (c ∷ s) h st en le =
    rw (kept-contains (c ∷ s) h, kept-valid_first (c ∷ s) h st, en) (ground (arith, le))

provider_valid : valid_slug (codes "provider") ≡ true
unfolding valid_slug contains has_prefix valid_runes valid_rune ends_in_mark is_slug_byte is_mark
    is_lower is_digit
provider_valid = refl

bounded-valid :
    (s : Text)
    → AllKept s
    → starts s ≡ false
    → ends_in_mark s ≡ false
    → valid_slug (bounded_slug s) ≡ true
unfolding bounded_slug
bounded-valid s h st en = elim (Bool-cases (is_empty s)) [
  | inl e ↦ rw e provider_valid
  | inr e ↦ elim (Bool-cases (ltb 64 (length s))) [
    | inl c ↦
        let cut_short : Text = take 64 s in
        let kept = take-AllKept 64 s h in
        rw (e, c)
          (or_provider-valid (trim_left (trim_right cut_short))
            (trim_left-AllKept (trim_right cut_short) (trim_right-AllKept cut_short kept))
            (trim_left-starts (trim_right cut_short))
            (trim_left-ends (trim_right cut_short) (trim_right-ends cut_short kept))
            (omega (
              arith,
              length-trim_left (trim_right cut_short),
              length-trim_right cut_short,
              length-take 64 s,
            )))
    | inr c ↦ rw (e, c) (or_provider-valid s h st en (ground arith))
  ]
]

-- Every slug that `Slugify` makes passes `ValidSlug`, whatever the text and its runes are.
pub slugify-valid :
    (lower trim_space : Text → Text) (fold : ℕ → ℕ) (is_letter_or_digit : ℕ → Bool) (s : Text)
    → valid_slug (slugify lower trim_space fold is_letter_or_digit s) ≡ true
unfolding slugify
slugify-valid lower trim_space fold is_letter_or_digit s =
    let joined : Text =
      replace_others false
        (folded lower trim_space fold is_letter_or_digit (lower (trim_space s))) in
    let kept : AllKept joined =
      replace_others-AllKept false
        (folded lower trim_space fold is_letter_or_digit (lower (trim_space s))) in
    bounded-valid (trim_left (trim_right joined))
      (trim_left-AllKept (trim_right joined) (trim_right-AllKept joined kept))
      (trim_left-starts (trim_right joined))
      (trim_left-ends (trim_right joined) (trim_right-ends joined kept))

-- A directive of a provider's slug and a model name, with a colon between them, is resolved to the
-- provider that the store finds by that slug, with the key that the pool hands out and the whole of
-- the model name. This is where the slug passes `ValidSlug`, no provider has it as its ID, and the
-- provider is enabled, of a registered protocol and has an available key; the selector is left as
-- it was.
pub resolve-valid_slug :
    (reg : Registry) (draw : ℕ → ℕ) (now : ℕ) (s : Selector) (slug model_name : Text) (p : Provider)
    (proto : Protocol) (key : Key)
    → valid_slug slug ≡ true
    → get_provider_by_id s.db slug ≡ ok none
    → get_provider_by_slug s.db slug ≡ ok (some p)
    → p.enabled ≡ true
    → protocol_of reg p.protocol ≡ some proto
    → get s.pool p.id now ≡ some key
    → resolve reg draw now s (slug ++ b':' ∷ model_name) ≡ (
      returned (
          ok (record { provider = p; api_key = key; model_name = model_name; alias_routing = [] })),
      s,
    )
unfolding resolve_direct find_provider enabled_provider target_key known_protocol key_or_error
resolve-valid_slug reg draw now s slug model_name p proto key h no_id by_slug on known available =
    resolve-direct reg draw now s slug model_name (valid_slug-Lacks slug h)
    ∙ rw (no_id, by_slug, on, known, available) refl
