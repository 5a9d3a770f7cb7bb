-- ===== src/KeyPool/Laws.antt =====
-- What the pool hands out: the first available key, never one that cools down.
use astreo_gateway.Base.{
  ℕ, ◌+◌, ◌≤◌, ◌<◌, ◌≡◌, refl, ◌≢◌, ◌⊎◌, ◌↔◌, ◌∙◌, sym, ap, inl, inr, Bool-cases, true, false, none,
  some, List, [], ◌∷◌, ◌++◌, Text, ◌≐◌, ≐_iff, ≐_sound, ≐_ne, All, lookup, lookup-insert,
  lookup-insert_self, arith, Option-cases,
}
use astreo_gateway.KeyPool.{
  KeyState, Key, Pool, is_available, first_available, get, cool, mark_cooldown,
}

-- a state that `Get` passes over: disabled, or cooling down
abbrev pub IsBusy : ℕ → KeyState → Type 0
IsBusy now s = (s.key.enabled ≡ false) ⊎ (now < s.cooldown)

is_available-IsBusy : (now : ℕ) (s : KeyState) → is_available now s ≡ false → IsBusy now s
unfolding is_available
is_available-IsBusy now s h = elim (Bool-cases s.key.enabled) [
  | inl e ↦ inr (ground arith)
  | inr e ↦ inl e
]

IsBusy-is_available : (now : ℕ) (s : KeyState) → IsBusy now s → is_available now s ≡ false
unfolding is_available
IsBusy-is_available now s (inl e) = ground arith
IsBusy-is_available now s (inr e) = ground arith

is_available-true :
    (now : ℕ) (s : KeyState)
    → is_available now s ≡ true
    → (s.key.enabled ≡ true) × (s.cooldown ≤ now)
unfolding is_available
is_available-true now s h = (ground arith, ground arith)

-- The key `k` is that of the first state that is enabled and not cooling down.
pub record IsFirst (now : ℕ) (states : List KeyState) (k : Key) : Type 0 where
  pub before : List KeyState
  pub chosen : KeyState
  pub after : List KeyState
  pub split : states ≡ before ++ chosen ∷ after
  pub busy : All (λ s. IsBusy now s) before
  pub enabled : chosen.key.enabled ≡ true
  pub over : chosen.cooldown ≤ now
  pub same_id : k.id ≡ chosen.key.id
  pub same_value : k.value ≡ chosen.key.value

pub IsFirst-cons :
    {now : ℕ} {s : KeyState} {states : List KeyState} {k : Key}
    → IsBusy now s
    → IsFirst now states k
    → IsFirst now (s ∷ states) k
IsFirst-cons {s} e f = record {
  before = s ∷ f.before;
  chosen = f.chosen;
  after = f.after;
  split = ap (λ l. s ∷ l) f.split;
  busy = (e, f.busy);
  enabled = f.enabled;
  over = f.over;
  same_id = f.same_id;
  same_value = f.same_value;
}

first_available-IsFirst :
    (now : ℕ) (states : List KeyState) (k : Key)
    → first_available now states ≡ some k
    → IsFirst now states k
unfolding first_available
first_available-IsFirst now [] k h = cc
first_available-IsFirst now (s ∷ states) k h = elim (Bool-cases (is_available now s)) [
  | inl e ↦ record {
    before = [];
    chosen = s;
    after = states;
    split = refl;
    busy = tt;
    enabled = (is_available-true now s e).0;
    over = (is_available-true now s e).1;
    same_id = ground arith;
    same_value = ground arith;
  }
  | inr e ↦
      IsFirst-cons (is_available-IsBusy now s e)
        (first_available-IsFirst now states k (ground arith))
]

-- the states of a provider, with none for one that the pool does not know
abbrev pub states_of : Pool → Text → List KeyState
states_of p provider_id = elim (lookup provider_id p.keys) [ none ↦ [] | some states ↦ states ]

get-states_of :
    (p : Pool) (provider_id : Text) (now : ℕ)
    → get p provider_id now ≡ first_available now (states_of p provider_id)
unfolding get first_available
get-states_of p provider_id now = ground arith

-- A key that `Get` returns is that of the first state, in the pool's order, which is enabled and
-- not cooling down at that instant: every state before it is disabled or cooling down.
pub get-IsFirst :
    (p : Pool) (provider_id : Text) (now : ℕ) (k : Key)
    → get p provider_id now ≡ some k
    → IsFirst now (states_of p provider_id) k
get-IsFirst p provider_id now k h =
    first_available-IsFirst now _ k (sym (get-states_of p provider_id now) ∙ h)

first_available-none :
    (now : ℕ) (states : List KeyState)
    → (first_available now states ≡ none) ↔ All (λ s. IsBusy now s) states
unfolding first_available
first_available-none now [] = ground arith
first_available-none now (s ∷ states) =
    ground
      (arith, first_available-none now states, is_available-IsBusy now s, IsBusy-is_available now s)

-- `Get` finds no key exactly when each of the provider's states is disabled or cooling down.
pub get-eq-none_iff :
    (p : Pool) (provider_id : Text) (now : ℕ)
    → (get p provider_id now ≡ none) ↔ All (λ s. IsBusy now s) (states_of p provider_id)
get-eq-none_iff p provider_id now =
    rw (get-states_of) (first_available-none now (states_of p provider_id))

-- the key IDs of a provider are distinct, as its primary key makes them
abbrev pub Lacks : Text → List KeyState → Type 0
Lacks id = All (λ s. s.key.id ≢ id)

abbrev pub IsDistinct : List KeyState → Type 0
IsDistinct [] = Unit
IsDistinct (s ∷ states) = Lacks s.key.id states × IsDistinct states

first_available-Lacks :
    (now : ℕ) (id : Text) (states : List KeyState) (k : Key)
    → Lacks id states
    → first_available now states ≡ some k
    → k.id ≢ id
unfolding first_available
first_available-Lacks now id [] k l h = cc
first_available-Lacks now id (s ∷ states) k l h = elim (Bool-cases (is_available now s)) [
  | inl e ↦ λ p. l.0 (ground arith)
  | inr e ↦ first_available-Lacks now id states k l.1 (ground arith)
]

not_available_before :
    (now until : ℕ) (s : KeyState)
    → now < until
    → is_available now (record s { cooldown = until }) ≡ false
unfolding is_available
not_available_before now until s h = ground arith

first_available-cool :
    (now until : ℕ) (id : Text) (states : List KeyState) (k : Key)
    → now < until
    → IsDistinct states
    → first_available now (cool id until states) ≡ some k
    → k.id ≢ id
unfolding cool first_available
first_available-cool now until id [] k lt d h = cc
first_available-cool now until id (s ∷ states) k lt d h = elim (Bool-cases (s.key.id ≐ id)) [
  | inl e ↦
      first_available-Lacks now id states k
        (let same : s.key.id ≡ id = ≐_sound _ _ e in rw same at d.0)
        (ground (arith, not_available_before now until s lt))
  | inr e ↦ elim (Bool-cases (is_available now s)) [
    | inl a ↦ λ p. ground (arith, ≐_iff s.key.id id)
    | inr a ↦ first_available-cool now until id states k lt d.1 (ground arith)
  ]
]

states_of-mark_cooldown :
    (p : Pool) (provider_id key_id : Text) (now d : ℕ)
    → states_of (mark_cooldown p provider_id key_id now d) provider_id
      ≡ cool key_id (now + d) (states_of p provider_id)
unfolding mark_cooldown cool
states_of-mark_cooldown p provider_id key_id now d =
    elim (Option-cases (lookup provider_id p.keys)) [
      | inl e ↦ rw (e, states_of) (rw e)
      | inr (states, e) ↦ rw (e, states_of) (rw lookup-insert_self)
    ]

-- A key that is put on cooldown for `d` is not handed out before the cooldown is over, if the
-- provider's key IDs are distinct.
pub get-mark_cooldown :
    (p : Pool) (provider_id key_id : Text) (now d later : ℕ) (k : Key)
    → IsDistinct (states_of p provider_id)
    → later < now + d
    → get (mark_cooldown p provider_id key_id now d) provider_id later ≡ some k
    → k.id ≢ key_id
get-mark_cooldown p provider_id key_id now d later k distinct lt h =
    first_available-cool later (now + d) key_id (states_of p provider_id) k lt distinct
      (rw (get-states_of, states_of-mark_cooldown) at h)

-- A cooldown of one provider's key changes nothing for the other providers.
get-mark_cooldown_ne :
    (p : Pool) (provider_id other key_id : Text) (now d later : ℕ)
    → provider_id ≢ other
    → get (mark_cooldown p provider_id key_id now d) other later ≡ get p other later
unfolding get mark_cooldown
get-mark_cooldown_ne p provider_id other key_id now d later h =
    elim (Option-cases (lookup provider_id p.keys)) [
      | inl e ↦ rw e
      | inr (states, e) ↦ rw (e, lookup-insert, ≐_ne provider_id other h)
    ]

first_available-cool_over :
    (now until : ℕ) (id : Text) (states : List KeyState)
    → until ≤ now
    → All (λ s. s.cooldown ≤ now) states
    → first_available now (cool id until states) ≡ first_available now states
unfolding cool first_available
first_available-cool_over now until id [] h over = refl
first_available-cool_over now until id (s ∷ states) h over =
    ground (arith, first_available-cool_over now until id states)

-- When the cooldown is over, and those of the provider's other keys are too, the pool hands out
-- what it would have handed out without it.
pub get-mark_cooldown_over :
    (p : Pool) (provider_id key_id : Text) (now d later : ℕ)
    → now + d ≤ later
    → All (λ s. s.cooldown ≤ later) (states_of p provider_id)
    → get (mark_cooldown p provider_id key_id now d) provider_id later ≡ get p provider_id later
get-mark_cooldown_over p provider_id key_id now d later h over =
    rw (get-states_of, states_of-mark_cooldown, get-states_of)
      (first_available-cool_over later (now + d) key_id _ h over)
