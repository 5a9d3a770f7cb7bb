-- ===== src/Admin/Auth/Login.antt =====
-- internal/api/admin/auth.go: who gets a session, and what it opens.
use astreo_gateway.Base.{
  find?, if-holds, Bool-cases, ltb, arith, ◌++◌, ◌∷◌, [], some, none, Option, ◌||◌, false, true,
  inr, inl, ◌≢◌, ap, sym, refl, ◌≡◌, ◌≤◌, ◌+◌, ℕ, is_empty, codes, Text, Lacks, ◌≐◌, Ensures, err,
  ok, Result,
}
use astreo_gateway.Admin.Users.{
  AdminUser, Table, Bcrypt, answer_to, get_admin_user_by_username, get_admin_user_by_id,
}
use astreo_gateway.Admin.Session.{
  Codec, bar, dot, cookie_ttl, sign_cookie, make_cookie_value, require_admin, session_of, let_in,
}
use astreo_gateway.Admin.Session.Honest.{IsCodec, parse_cookie_value-make_cookie_value}
use astreo_gateway.Admin.Auth.{
  Cookie, Reply, complete, login_as, login_with, session_reply, session, login, signed_in, user,
  write_json,
}

module _ (k : Codec) (bcrypt : Bcrypt) (secret : Text) where
  -- the cookie is that of the account with the name, and the password is its own
  pub record IsLogin (now : ℕ) (t : Table) (credentials : Option (Text × Text)) (c : Cookie)
      : Type 0 where
    pub username : Text
    pub password : Text
    pub account : AdminUser
    pub asked : credentials ≡ some (username, password)
    pub found : find? (λ v. v.username ≐ username) t.users ≡ some account
    pub checked : bcrypt.compare account.password_hash password ≡ true
    pub value : c.value ≡ make_cookie_value k secret account.id now

  Lets : ℕ → Table → Option (Text × Text) → Reply → Type 0
  Lets now t credentials r = (c : Cookie) → r.cookie ≡ some c → IsLogin now t credentials c

  find_username :
      (t : Table) (username : Text)
      → Ensures
          (get_admin_user_by_username t username)
          (λ o. o ≡ find? (λ v. v.username ≐ username) t.users)
  unfolding get_admin_user_by_username
  find_username t username = by_error t.select_error
    where
      by_error :
          (o : Option Text)
          → Ensures
              (answer_to (codes "get admin_user: ") o (find? (λ v. v.username ≐ username) t.users))
              (λ o. o ≡ find? (λ v. v.username ≐ username) t.users)
      by_error none = refl
      by_error (some e) = tt

  login_as-Lets :
      (now : ℕ) (t : Table) (username password : Text) (r : Result Text (Option AdminUser))
      → Ensures r (λ o. o ≡ find? (λ v. v.username ≐ username) t.users)
      → Lets now t (some (username, password)) (login_as k bcrypt secret now password r)
  unfolding Lets login_as signed_in
  login_as-Lets now t username password (err _) h = λ c e. cc
  login_as-Lets now t username password (ok none) h = λ c e. cc
  login_as-Lets now t username password (ok (some u)) h =
      if-holds (Lets now t (some (username, password))) (bcrypt.compare u.password_hash password) _
        _
        (λ right c e. record {
          username = username;
          password = password;
          account = u;
          asked = refl;
          found = sym h;
          checked = right;
          value = value_of c e;
        })
        (λ _ c e. cc)
    where
      value_of :
          (c : Cookie)
          → some (record { value = make_cookie_value k secret u.id now; max_age = some cookie_ttl })
            ≡ some c
          → c.value ≡ make_cookie_value k secret u.id now
      value_of c e = cc

  login_with-Lets :
      (now : ℕ) (t : Table) (o : Option (Text × Text))
      → Lets now t o (login_with k bcrypt secret now t o)
  unfolding Lets login_with
  login_with-Lets now t none = λ c e. cc
  login_with-Lets now t (some (username, password)) =
      login_as-Lets now t username password (get_admin_user_by_username t username)
        (find_username t username)

  none_never : (p : Text × Text) → ◌≡◌ {A = Option (Text × Text)} none (some p) → ⊥
  none_never p f = cc

  completed-Lets :
      (now : ℕ) (t : Table) (credentials : Option (Text × Text)) (r : Reply)
      → Lets now t (complete credentials) r
      → Lets now t credentials r
  unfolding Lets complete
  completed-Lets now t none r h c e = h c e
  completed-Lets now t (some (username, password)) r h c e =
      elim (Bool-cases (is_empty username || is_empty password)) [
        | inl f ↦ no_login (rw f at (h c e))
        | inr f ↦ rw f at (h c e)
      ]
    where
      no_login : IsLogin now t none c → IsLogin now t (some (username, password)) c
      no_login l = absurd (none_never (l.username, l.password) l.asked)

  -- A login that sets a session cookie names an account and has the password of its hash, as bcrypt
  -- finds; the cookie is that account's.
  pub login-IsLogin :
      (now : ℕ) (method : Text) (credentials : Option (Text × Text)) (t : Table) (c : Cookie)
      → (login k bcrypt secret now method credentials t).cookie ≡ some c
      → IsLogin now t credentials c
  unfolding login Lets
  login-IsLogin now method credentials t =
      if-holds (Lets now t credentials) (method ≐ codes "POST") _ _
        (λ _.
          completed-Lets now t credentials (login_with k bcrypt secret now t (complete credentials))
            (login_with-Lets now t (complete credentials)))
        (λ _ c e. cc)

  complete-both :
      (username password : Text)
      → username ≢ []
      → password ≢ []
      → complete (some (username, password)) ≡ some (username, password)
  unfolding complete
  complete-both [] password h f = absurd (h refl)
  complete-both (c ∷ username) [] h f = absurd (f refl)
  complete-both (c ∷ username) (d ∷ password) h f = refl

  login-right :
      (now : ℕ) (username password : Text) (t : Table) (u : AdminUser)
      → username ≢ []
      → password ≢ []
      → t.select_error ≡ none
      → find? (λ v. v.username ≐ username) t.users ≡ some u
      → bcrypt.compare u.password_hash password ≡ true
      → login k bcrypt secret now (codes "POST") (some (username, password)) t
        ≡ signed_in k bcrypt secret now u
  unfolding login login_with login_as get_admin_user_by_username answer_to ◌≐◌
  login-right now username password t u some_name some_password works found right =
      rw (complete-both username password some_name some_password, works, found, right) refl

  some_byte : (a b : Text) (c : ℕ) → is_empty (a ++ c ∷ b) ≡ false
  some_byte [] b c = refl
  some_byte (d ∷ a) b c = refl

  session-cookie :
      (law : IsCodec k) (made later : ℕ) (t : Table) (u : AdminUser)
      → t.select_error ≡ none
      → find? (λ v. v.id ≐ u.id) t.users ≡ some u
      → Lacks bar u.id
      → later ≤ made + cookie_ttl
      → session k bcrypt secret later (some (make_cookie_value k secret u.id made)) t
        ≡ write_json (user u.id u.username)
  unfolding session require_admin session_of let_in get_admin_user_by_id answer_to session_reply
      make_cookie_value sign_cookie
  session-cookie law made later t u works found no_bar early =
      rw
        (
          not_empty,
          parse_cookie_value-make_cookie_value k law secret u.id made later no_bar,
          in_time,
          works,
          found,
        )
        refl
    where
      value : Text
      value = k.encode (u.id ++ bar ∷ k.decimal (made + cookie_ttl))

      not_empty : is_empty (make_cookie_value k secret u.id made) ≡ false
      not_empty = some_byte value (k.mac secret value) dot

      in_time : ltb (made + cookie_ttl) later ≡ false
      in_time = ground arith

  -- Who logs in with the right password gets a cookie that opens his session for a day, where the
  -- database answers, names and IDs are unique, and no ID holds a bar.
  pub session-login :
      (now : ℕ) (username password : Text) (t : Table) (u : AdminUser)
      → IsCodec k
      → username ≢ []
      → password ≢ []
      → t.select_error ≡ none
      → find? (λ v. v.username ≐ username) t.users ≡ some u
      → find? (λ v. v.id ≐ u.id) t.users ≡ some u
      → bcrypt.compare u.password_hash password ≡ true
      → Lacks bar u.id
      → (c : Cookie) × ((login k bcrypt secret now
            (codes "POST")
            (some (username, password))
            t).cookie
          ≡ some c)
        × ((later : ℕ)
            → later ≤ now + cookie_ttl
            → session k bcrypt secret later (some c.value) t ≡ write_json (user u.id u.username))
  unfolding signed_in
  session-login now username password t u law some_name some_password works found by_id right
        no_bar =
      (
        record { value = make_cookie_value k secret u.id now; max_age = some cookie_ttl },
        ap (λ (r : Reply). r.cookie)
            (login-right now username password t u some_name some_password works found right),
        λ later early. session-cookie law now later t u works by_id no_bar early,
      )
