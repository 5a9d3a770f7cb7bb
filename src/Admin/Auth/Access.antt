-- ===== src/Admin/Auth/Access.antt =====
-- internal/api/admin/auth.go: who gets an account.
use mathlib.Core.Path.{subst}
use astreo_gateway.Admin.Session.{Codec}
use astreo_gateway.Base.{
  any, length, if-holds, ltb, arith, ◌++◌, ◌∷◌, [], List, some, none, Option, ◌||◌, false, inr, inl,
  ◌⊎◌, ◌∙◌, ap, sym, refl, ◌≡◌, ◌≤◌, ℕ, codes, Text, ◌≐◌, wrap, Ensures->>=, Ensures-if, Ensures,
  err, ok, Result,
}
use astreo_gateway.Admin.Auth.{
  bootstrap_post, create_first, bootstrap_get, created, bootstrap, Reply, complete,
}
use astreo_gateway.Admin.Users.{
  create_admin_user, count_admin_users, answer_to, insert_new, insert_user, AdminUser, Table,
  Bcrypt,
}

-- the first account: there was none before, and there is one now, with a password of eight bytes or more
pub record IsFirst (bcrypt : Bcrypt) (before after : Table) (credentials : Option (Text × Text))
    : Type 0 where
  pub none_before : before.users ≡ []
  pub account : AdminUser
  pub one_after : after.users ≡ account ∷ []
  pub password : Text
  pub asked : credentials ≡ some (account.username, password)
  pub long : 8 ≤ length password
  pub hashed : bcrypt.generate password ≡ ok account.password_hash

module _ (k : Codec) (bcrypt : Bcrypt) (secret : Text) where
  Guarded : Option (Text × Text) → Table → Table × Reply → Type 0
  Guarded credentials t r = (r.0 ≡ t) ⊎ IsFirst bcrypt t r.0 credentials

  complete_sound :
      (credentials : Option (Text × Text)) {p : Text × Text}
      → complete credentials ≡ some p
      → credentials ≡ some p
  unfolding complete
  complete_sound none h = h
  complete_sound (some (username, password)) h = ground arith

  users-empty : (us : List AdminUser) → ltb 0 (length us) ≡ false → us ≡ []
  users-empty [] h = refl
  users-empty (u ∷ us) h = ground arith

  insert_user-first :
      (t : Table) (u : AdminUser) (o : Option Text)
      → t.users ≡ []
      → Ensures (insert_user t u o) (λ after. after.users ≡ u ∷ [])
  unfolding insert_user
  insert_user-first t u (some e) none_before = tt
  insert_user-first t u none none_before =
      Ensures-if (λ after. after.users ≡ u ∷ [])
        (any (λ v. v.id ≐ u.id || v.username ≐ u.username) t.users) _ _ (λ _. tt)
        (λ _. ap (λ us. us ++ u ∷ []) none_before)

  -- what an account is that is made in an empty table
  abbrev Sole : Text → Text → Table × AdminUser → Type 0
  Sole username password r =
      (r.0.users ≡ r.1 ∷ [])
      × (r.1.username ≡ username)
      × (bcrypt.generate password ≡ ok r.1.password_hash)

  wrap_sound : (what : Text) (r : Result Text Text) → Ensures (wrap what r) (λ hash. r ≡ ok hash)
  wrap_sound what (ok hash) = refl
  wrap_sound what (err e) = tt

  create_admin_user-first :
      (new_id : Text) (t : Table) (username password : Text)
      → t.users ≡ []
      → Ensures (create_admin_user bcrypt new_id t username password) (Sole username password)
  unfolding create_admin_user insert_new
  create_admin_user-first new_id t username password none_before =
      Ensures->>= (Sole username password) (λ hash. bcrypt.generate password ≡ ok hash)
        (wrap (codes "bcrypt hash: ") (bcrypt.generate password)) _
        (wrap_sound (codes "bcrypt hash: ") (bcrypt.generate password))
        (λ hash hashed.
          Ensures->>= (Sole username password)
            (λ after.
              after.users ≡ record { id = new_id; username = username; password_hash = hash } ∷ [])
            (insert_user t (record { id = new_id; username = username; password_hash = hash })
              t.insert_error)
            _ (insert_user-first t _ t.insert_error none_before) (λ after one. (one, refl, hashed)))

  created-Guarded :
      (now : ℕ) (t : Table) (username password : Text) (r : Result Text (Table × AdminUser))
      → t.users ≡ []
      → 8 ≤ length password
      → Ensures r (Sole username password)
      → Guarded (some (username, password)) t (created k bcrypt secret now t r)
  unfolding created Guarded
  created-Guarded now t username password (err _) none_before long sole = inl refl
  created-Guarded now t username password (ok (after, u)) none_before long sole = inr (record {
    none_before = none_before;
    account = u;
    one_after = sole.0;
    password = password;
    asked = ap (λ name. some (name, password)) (sym sole.1);
    long = long;
    hashed = sole.2;
  })

  create_first-Guarded :
      (now : ℕ) (new_id : Text) (t : Table) (credentials : Option (Text × Text))
      → t.users ≡ []
      → Guarded credentials t (create_first k bcrypt secret now new_id t credentials)
  unfolding create_first Guarded
  create_first-Guarded now new_id t none none_before = inl refl
  create_first-Guarded now new_id t (some (username, password)) none_before =
      if-holds (Guarded (some (username, password)) t) (ltb (length password) 8) _ _ (λ _. inl refl)
        (λ e.
          created-Guarded now t username password
            (create_admin_user bcrypt new_id t username password) none_before (ground arith)
            (create_admin_user-first new_id t username password none_before))

  completed-Guarded :
      (t : Table) (credentials : Option (Text × Text)) (o : Option (Text × Text))
      (r : Table × Reply)
      → complete credentials ≡ o
      → Guarded o t r
      → Guarded credentials t r
  unfolding Guarded
  completed-Guarded t credentials o r e (inl same) = inl same
  completed-Guarded t credentials none r e (inr first) = cc
  completed-Guarded t credentials (some p) r e (inr first) = inr (record {
    none_before = first.none_before;
    account = first.account;
    one_after = first.one_after;
    password = first.password;
    asked = complete_sound credentials e ∙ first.asked;
    long = first.long;
    hashed = first.hashed;
  })

  bootstrap_post-Guarded :
      (now : ℕ) (new_id : Text) (meanwhile : Table → Table) (t : Table)
      (credentials : Option (Text × Text)) (c : Result Text ℕ)
      → meanwhile t ≡ t
      → Ensures c (λ n. n ≡ length t.users)
      → Guarded credentials t (bootstrap_post k bcrypt secret now new_id meanwhile t credentials c)
  unfolding bootstrap_post Guarded
  bootstrap_post-Guarded now new_id meanwhile t credentials (err _) quiet h = inl refl
  bootstrap_post-Guarded now new_id meanwhile t credentials (ok n) quiet h =
      if-holds (Guarded credentials t) (ltb 0 n) _ _ (λ _. inl refl)
        (λ e.
          subst
            (λ table.
              Guarded credentials t
                (create_first k bcrypt secret now new_id table (complete credentials)))
            (sym quiet)
            (completed-Guarded t credentials (complete credentials)
              (create_first k bcrypt secret now new_id t (complete credentials)) refl
              (create_first-Guarded now new_id t (complete credentials)
                (users-empty t.users (ap (λ m. ltb 0 m) (sym h) ∙ e)))))

  bootstrap_get-same : (t : Table) (c : Result Text ℕ) → (bootstrap_get k bcrypt secret t c).0 ≡ t
  unfolding bootstrap_get
  bootstrap_get-same t (err _) = refl
  bootstrap_get-same t (ok n) = refl

  count_admin_users-length : (t : Table) → Ensures (count_admin_users t) (λ n. n ≡ length t.users)
  unfolding count_admin_users
  count_admin_users-length t = by_error t.select_error
    where
      by_error :
          (o : Option Text)
          → Ensures
              (answer_to (codes "count admin_users: ") o (length t.users))
              (λ n. n ≡ length t.users)
      by_error none = refl
      by_error (some e) = tt

  -- Where the accounts do not change between its two statements, the bootstrap handler makes an
  -- account only where there is none, and then the one that is asked for, with bcrypt's hash of the
  -- password, which has at least eight bytes; else it leaves the accounts as they are.
  pub bootstrap-IsFirst :
      (now : ℕ) (new_id : Text) (meanwhile : Table → Table) (method : Text)
      (credentials : Option (Text × Text)) (t : Table)
      → meanwhile t ≡ t
      → ((bootstrap k bcrypt secret now new_id meanwhile method credentials t).0 ≡ t)
        ⊎ IsFirst bcrypt t
            (bootstrap k bcrypt secret now new_id meanwhile method credentials t).0
            credentials
  unfolding bootstrap Guarded
  bootstrap-IsFirst now new_id meanwhile method credentials t quiet =
      if-holds (Guarded credentials t) (method ≐ codes "GET") _ _
        (λ _. inl (bootstrap_get-same t (count_admin_users t)))
        (λ _.
          if-holds (Guarded credentials t) (method ≐ codes "POST") _ _
            (λ _.
              bootstrap_post-Guarded now new_id meanwhile t credentials (count_admin_users t) quiet
                (count_admin_users-length t))
            (λ _. inl refl))
