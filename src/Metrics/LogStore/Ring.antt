-- ===== src/Metrics/LogStore/Ring.antt =====
-- The ring buffer holds the last logs, in the order in which they came.
use astreo_gateway.Base.{
  get_or-set_ne, get_or-set_self, length-replicate, length-set, drop, get_or, set, length,
  Bool-cases, lt→ltb, if◌then◌else◌, ◌==◌, ltb, arith, ◌++◌, ◌∷◌, [], List, false, true, inr, inl,
  ◌≢◌, ◌∙◌, ap, sym, refl, ◌≡◌, ◌<◌, ◌≤◌, ◌%◌, ◌-◌, ◌+◌, suc, zero, ℕ, Text,
}
use native.Mathlib.Numerals.{add-one}
use native.Mathlib.Nat.{add-mod_left, mod-eq_of_lt, mod-eq-sub-mod, add-zero, add_assoc}
use astreo_gateway.Metrics.LogStore.{
  read_from, RequestLog, zero_log, LogStore, new_log_store, stamp, append, clear, start_of,
  read_from, snapshot,
}

pub record IsRing (s : LogStore) : Type 0 where
  pub nonempty : 0 < s.cap
  pub filled : length s.buf ≡ s.cap
  pub head_in : s.head < s.cap
  pub size_in : s.size ≤ s.cap
  pub in_step : s.size < s.cap → s.head ≡ s.size

mod_self_small : (x c : ℕ) → x < c → x % c ≡ x
mod_self_small x c h = mod-eq_of_lt h

mod_once : (x c : ℕ) → c ≤ x → x < c + c → x % c ≡ x - c
mod_once x c h k = mod-eq-sub-mod h ∙ mod-eq_of_lt (omega arith)

next_index : (h c : ℕ) → h < c → (h + 1) % c ≡ (if h + 1 == c then 0 else h + 1)
next_index h c lt = ground (arith, mod_self_small (h + 1) c, mod_once (h + 1) c)

pub new_log_store-IsRing : (capacity : ℕ) → IsRing (new_log_store capacity)
unfolding new_log_store
new_log_store-IsRing capacity =
    ground (arith, length-replicate 10000 zero_log, length-replicate capacity zero_log)

-- `Append` keeps the invariant of the ring: a full buffer of positive capacity, a head in it, a size
-- of at most the capacity, and a head that stands at the size until the ring is full.
pub append-IsRing :
    (fresh : Text) (now : ℕ) (s : LogStore) (log : RequestLog)
    → IsRing s
    → IsRing (append fresh now s log)
unfolding append
append-IsRing fresh now s log r =
    ground (arith, next_index s.head s.cap, length-set s.buf s.head (stamp fresh now log))

pub clear-IsRing : (s : LogStore) → IsRing s → IsRing (clear s)
unfolding clear
clear-IsRing s r = ground (arith, length-replicate s.cap zero_log)

read_from-snoc :
    (buf : List RequestLog) (cap start n : ℕ)
    → read_from buf cap start (suc n)
      ≡ read_from buf cap start n ++ get_or buf ((start + n) % cap) zero_log ∷ []
unfolding read_from
read_from-snoc buf cap start zero = rw (add-zero)
read_from-snoc buf cap start (suc n) =
    ap (λ l. get_or buf (start % cap) zero_log ∷ l)
      (read_from-snoc buf cap (start + 1) n
        ∙ ap (λ k. read_from buf cap (start + 1) n ++ get_or buf (k % cap) zero_log ∷ [])
            (omega arith))

read_from-set :
    (buf : List RequestLog) (cap start n h : ℕ) (v : RequestLog)
    → ((i : ℕ) → i < n → h ≢ (start + i) % cap)
    → read_from (set buf h v) cap start n ≡ read_from buf cap start n
unfolding read_from
read_from-set buf cap start zero h v away = refl
read_from-set buf cap start (suc n) h v away = rw (
  get_or-set_ne buf h (start % cap) v zero_log (rw add-zero at (away 0 (omega arith))),
  read_from-set buf cap (start + 1) n h v (λ i lt. rw (shift start i) (away (i + 1) (omega arith))),
)
  where
    shift : (a i : ℕ) → a + 1 + i ≡ a + (i + 1)
    shift a i = omega arith

read_from-around :
    (buf : List RequestLog) (cap k n : ℕ)
    → 0 < cap
    → read_from buf cap (cap + k) n ≡ read_from buf cap k n
unfolding read_from
read_from-around buf cap k zero pos = refl
read_from-around buf cap k (suc n) pos =
    rw (add_assoc cap k 1, read_from-around buf cap (k + 1) n pos, add-mod_left cap k)

-- what a log store of this capacity promises: the last logs of its history
abbrev pub push_bounded {ℓ} : {A : Type ℓ} → ℕ → List A → A → List A
push_bounded cap xs x = drop (length xs + 1 - cap) (xs ++ x ∷ [])

abbrev pub contents : LogStore → List RequestLog
contents s = (snapshot s).0

length-read_from :
    (buf : List RequestLog) (cap start n : ℕ) → length (read_from buf cap start n) ≡ n
unfolding read_from
length-read_from buf cap start zero = refl
length-read_from buf cap start (suc n) = ap suc (length-read_from buf cap (start + 1) n)

contents-read_from : (s : LogStore) → contents s ≡ read_from s.buf s.cap (start_of s) s.size
unfolding snapshot read_from
contents-read_from s = ground arith

ltb_irrefl : (n : ℕ) → ltb n n ≡ false
ltb_irrefl n = ground arith

==_refl : (n : ℕ) → (n == n) ≡ true
==_refl n = ground arith

still_room : (n c : ℕ) → n < c → n + 1 - c ≡ 0
still_room n c h = omega arith

one_over : (n c : ℕ) → n ≡ c → n + 1 - c ≡ 1
one_over n c h = omega arith

start_of-open : (s : LogStore) → IsRing s → s.size < s.cap → start_of s ≡ 0
start_of-open s r h = ground (arith, mod_once (s.head + s.cap - s.size) s.cap)

start_of-full : (s : LogStore) → s.size ≡ s.cap → start_of s ≡ s.head
start_of-full s h = ground arith

away_full : (h c i : ℕ) → h < c → suc i < c → h ≢ (h + 1 + i) % c
away_full h c i lt k = ground (arith, mod_self_small (h + 1 + i) c, mod_once (h + 1 + i) c)

read_from-next :
    (buf : List RequestLog) (c h n : ℕ)
    → h < c
    → read_from buf c ((h + 1) % c) n ≡ read_from buf c (h + 1) n
read_from-next buf c h n lt = elim (Bool-cases (h + 1 == c)) [
  | inl e ↦
      ap (λ k. read_from buf c k n) (ground (arith, mod_once (h + 1) c))
      ∙ sym (read_from-around buf c 0 n (omega arith))
      ∙ ap (λ k. read_from buf c k n) (ground arith)
  | inr e ↦ ap (λ k. read_from buf c k n) (ground (arith, mod_self_small (h + 1) c))
]

read_from-cons :
    (buf : List RequestLog) (c h n m : ℕ)
    → n ≡ suc m
    → read_from buf c h n ≡ get_or buf (h % c) zero_log ∷ read_from buf c (h + 1) m
unfolding read_from
read_from-cons buf c h n m e = rw e

read_from-last :
    (buf : List RequestLog) (c h n m : ℕ)
    → n ≡ suc m
    → read_from buf c h n ≡ read_from buf c h m ++ get_or buf ((h + m) % c) zero_log ∷ []
read_from-last buf c h n m e = rw e (read_from-snoc buf c h m)

module _ (fresh : Text) (now : ℕ) (s : LogStore) (log : RequestLog) (r : IsRing s) where
  start_of-append_open : s.size < s.cap → start_of (append fresh now s log) ≡ 0
  unfolding append
  start_of-append_open h = ground (
    arith,
    next_index s.head s.cap,
    mod_once (s.cap) s.cap,
    mod_once (s.head + 1 + s.cap - (s.size + 1)) s.cap,
  )

  newest : List RequestLog
  newest = set s.buf s.head (stamp fresh now log)

  newest-get_or :
      (i : ℕ) → i % s.cap ≡ s.head → get_or newest (i % s.cap) zero_log ≡ stamp fresh now log
  unfolding newest
  newest-get_or i e =
      rw e (get_or-set_self s.buf s.head (stamp fresh now log) zero_log (omega (arith, r.filled)))

  read_from-append_open :
      s.size < s.cap → contents (append fresh now s log) ≡ read_from newest s.cap 0 (suc s.size)
  unfolding append newest
  read_from-append_open h =
      contents-read_from (append fresh now s log)
      ∙ rw (start_of-append_open h, lt→ltb s.size s.cap h, add-one)

  contents-append_open :
      s.size < s.cap → contents (append fresh now s log) ≡ contents s ++ stamp fresh now log ∷ []
  unfolding newest
  contents-append_open h = rw (
    read_from-append_open h,
    contents-read_from s,
    start_of-open s r h,
    read_from-snoc newest s.cap 0 s.size,
    newest-get_or (0 + s.size) (ground (arith, mod_self_small (0 + s.size) s.cap)),
    read_from-set s.buf s.cap 0 s.size s.head (stamp fresh now log)
        (λ i lt. ground (arith, mod_self_small (0 + i) s.cap)),
  )

  read_from-append_full :
      s.size ≡ s.cap → contents (append fresh now s log) ≡ read_from newest s.cap (s.head + 1) s.cap
  unfolding append newest
  read_from-append_full h =
      contents-read_from (append fresh now s log)
      ∙ rw (h, ltb_irrefl s.cap, ==_refl s.cap) (read_from-next _ s.cap s.head s.cap r.head_in)

  contents-append_full :
      s.size ≡ s.cap
      → contents (append fresh now s log) ≡ drop 1 (contents s ++ stamp fresh now log ∷ [])
  unfolding newest
  contents-append_full h =
      let m : ℕ = s.cap - 1 in
      let e : s.cap ≡ suc m = omega (arith, r.nonempty) in
      rw (
        read_from-append_full h,
        read_from-last newest s.cap (s.head + 1) s.cap m e,
        newest-get_or (s.head + 1 + m) (ground (arith, mod_once (s.head + 1 + m) s.cap)),
        read_from-set s.buf s.cap (s.head + 1) m s.head (stamp fresh now log)
            (λ i lt. away_full s.head s.cap i r.head_in (omega arith)),
        contents-read_from s,
        start_of-full s h,
        h,
        read_from-cons s.buf s.cap s.head s.cap m e,
      )

length-contents : (s : LogStore) → length (contents s) ≡ s.size
length-contents s = rw (contents-read_from s) (length-read_from s.buf s.cap (start_of s) s.size)

-- An append to a ring that satisfies its invariant shows in `snapshot` as the new log, stamped,
-- behind the logs that were there, of which the oldest is dropped when the ring was full.
pub snapshot-append :
    (fresh : Text) (now : ℕ) (s : LogStore) (log : RequestLog)
    → IsRing s
    → (snapshot (append fresh now s log)).0
      ≡ push_bounded s.cap (snapshot s).0 (stamp fresh now log)
snapshot-append fresh now s log r = elim (Bool-cases (ltb s.size s.cap)) [
  | inl e ↦
      let lt : s.size < s.cap = ground arith in
      rw (length-contents s, still_room s.size s.cap lt) (contents-append_open fresh now s log r lt)
  | inr e ↦
      let full : s.size ≡ s.cap = ground (arith, r.size_in) in
      rw (length-contents s, one_over s.size s.cap full)
        (contents-append_full fresh now s log r full)
]
