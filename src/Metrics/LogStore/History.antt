-- ===== src/Metrics/LogStore/History.antt =====
-- A run of the log store: the logs that a store of some capacity shows after any appends.
use native.Mathlib.Nat.{suc-add}
use native.Mathlib.Numerals.{add-one}
use astreo_gateway.Base.{
  length-drop, length-append, drop, length, Bool-cases, ltb, arith, append_assoc, append-nil, map,
  ◌++◌, ◌∷◌, [], List, inr, inl, ◌≢◌, ◌∙◌, sym, refl, ◌≡◌, ◌<◌, ◌≤◌, ◌-◌, ◌+◌, suc, zero, ℕ, Text,
}
use astreo_gateway.Metrics.LogStore.{RequestLog, LogStore, new_log_store, stamp, append, snapshot}
use astreo_gateway.Metrics.LogStore.Ring.{
  IsRing, append-IsRing, new_log_store-IsRing, push_bounded, snapshot-append,
}

-- one call of `Append`: the fresh ID and the clock that it may use, and its log
pub record Call : Type 0 where
  pub fresh : Text
  pub now : ℕ
  pub log : RequestLog

abbrev pub stamped : Call → RequestLog
stamped c = stamp c.fresh c.now c.log

unfoldable pub append_all : LogStore → List Call → LogStore
append_all s [] = s
append_all s (c ∷ cs) = append_all (append c.fresh c.now s c.log) cs

-- the last `n` elements
abbrev pub last_of {ℓ} : {A : Type ℓ} → ℕ → List A → List A
last_of n xs = drop (length xs - n) xs

drop-append {ℓ} :
    {A : Type ℓ} (k : ℕ) (xs ys : List A) → k ≤ length xs → drop k (xs ++ ys) ≡ drop k xs ++ ys
drop-append zero xs ys h = refl
drop-append (suc k) [] ys h = elim h [ ]
drop-append (suc k) (x ∷ xs) ys h = drop-append k xs ys (omega arith)

drop_one {ℓ} : {A : Type ℓ} (k : ℕ) (xs : List A) → drop 1 (drop k xs) ≡ drop (k + 1) xs
drop_one zero xs = refl
drop_one (suc k) [] = rw add-one
drop_one (suc k) (x ∷ xs) = rw (suc-add) (drop_one k xs)

last_of-concat {ℓ} :
    {A : Type ℓ} (c : ℕ) (xs : List A) (x : A)
    → push_bounded c (last_of c xs) x ≡ last_of c (xs ++ x ∷ [])
last_of-concat c xs x = elim (Bool-cases (ltb (length xs) c)) [
  | inl e ↦ rw (
    small (length xs) c (ground arith),
    length-append xs (x ∷ []),
    small_one (length xs) c (ground arith),
  )
  | inr e ↦ rw (
    length-drop (length xs - c) xs,
    full_one (length xs) c (ground arith),
    ← drop-append (length xs - c) xs (x ∷ []) (omega arith),
    drop_one,
    length-append xs (x ∷ []),
    full_next (length xs) c (ground arith),
  )
]
  where
    small : (n d : ℕ) → n < d → n - d ≡ 0
    small n d h = omega arith

    small_one : (n d : ℕ) → n < d → n + 1 - d ≡ 0
    small_one n d h = omega arith

    full_one : (n d : ℕ) → d ≤ n → n - (n - d) + 1 - d ≡ 1
    full_one n d h = omega arith

    full_next : (n d : ℕ) → d ≤ n → n + 1 - d ≡ n - d + 1
    full_next n d h = omega arith

cap-append :
    (fresh : Text) (now : ℕ) (s : LogStore) (log : RequestLog)
    → (append fresh now s log).cap ≡ s.cap
unfolding append
cap-append fresh now s log = refl

snapshot-append_all_from :
    (s : LogStore) (c : ℕ) (xs : List RequestLog) (calls : List Call)
    → IsRing s
    → s.cap ≡ c
    → (snapshot s).0 ≡ last_of c xs
    → (snapshot (append_all s calls)).0 ≡ last_of c (xs ++ map stamped calls)
unfolding append_all
snapshot-append_all_from s c xs [] r e h = rw append-nil h
snapshot-append_all_from s c xs (call ∷ calls) r e h =
    let next : LogStore = append call.fresh call.now s call.log in
    rw (← append_assoc xs (stamped call ∷ []) (map stamped calls)) (
      snapshot-append_all_from next c (xs ++ stamped call ∷ []) calls
        (append-IsRing call.fresh call.now s call.log r)
        (cap-append call.fresh call.now s call.log ∙ e)
        (snapshot-append call.fresh call.now s call.log r
          ∙ rw (h, e) (last_of-concat c xs (stamped call))))

snapshot-new_log_store : (c : ℕ) → (snapshot (new_log_store c)).0 ≡ []
unfolding snapshot new_log_store
snapshot-new_log_store c = refl

cap-new_log_store : (c : ℕ) → c ≢ 0 → (new_log_store c).cap ≡ c
unfolding new_log_store
cap-new_log_store c h = ground arith

-- After any appends to a fresh store of a positive capacity, `snapshot` shows the last logs that
-- were appended, at most that many, stamped and in the order of the appends.
pub snapshot-append_all :
    (capacity : ℕ) (calls : List Call)
    → capacity ≢ 0
    → (snapshot (append_all (new_log_store capacity) calls)).0
      ≡ last_of capacity (map stamped calls)
snapshot-append_all capacity calls h =
    snapshot-append_all_from (new_log_store capacity) capacity [] calls
      (new_log_store-IsRing capacity) (cap-new_log_store capacity h)
      (snapshot-new_log_store capacity ∙ sym (drop_nil capacity))
  where
    drop_nil : (c : ℕ) → last_of {A = RequestLog} c [] ≡ []
    drop_nil c = rw (none_left c)
      where
        none_left : (n : ℕ) → 0 - n ≡ 0
        none_left n = omega arith
