-- ===== src/Admin/Auth.antt =====
-- internal/api/admin/auth.go: the handlers of bootstrap, login, logout and session.
-- The attributes of the cookie that are the same in all replies are left out. The credentials are what the JSON decoder reads of the body, `none` where it fails.
use astreo_gateway.Base.{
  length, if◌then◌else◌, ◌==◌, ltb, ◌++◌, [], some, none, Option, ◌||◌, Bool, ℕ, is_empty, codes,
  Text, ◌≐◌, err, ok, Result,
}
use astreo_gateway.Admin.Users.{
  get_admin_user_by_id, count_admin_users, get_admin_user_by_username, Table, AdminUser,
  create_admin_user, Bcrypt,
}
pub mod Access
pub mod Login
use astreo_gateway.Admin.Session.{Codec, make_cookie_value, cookie_ttl, require_admin}

pub data Content : Type 0 where
  needed : Bool → Content
  user : Text → Text → Content
  problem : Text → Content
  done nothing : Content

-- the `Set-Cookie` header: its value, and `none` where the cookie is deleted or else its age
pub record Cookie : Type 0 where
  pub value : Text
  pub max_age : Option ℕ

pub record Reply : Type 0 where
  pub status : ℕ
  pub content : Content
  pub cookie : Option Cookie

abbrev pub http_error : ℕ → Text → Reply
http_error status e = record { status = status; content = problem e; cookie = none }

-- `{"error":"…"}`
abbrev pub json_error : ℕ → Text → Reply
json_error status e = http_error status (codes "{\"error\":\"" ++ (e ++ codes "\"}"))

abbrev pub write_json : Content → Reply
write_json c = record { status = 200; content = c; cookie = none }

abbrev pub not_allowed : Reply
not_allowed = record { status = 405; content = nothing; cookie = none }

abbrev pub invalid_credentials : Reply
invalid_credentials = json_error 401 (codes "invalid credentials")

abbrev pub credentials_required : Reply
credentials_required = json_error 400 (codes "username and password required")

-- the credentials, where both are there
complete : Option (Text × Text) → Option (Text × Text)
complete none = none
complete (some (username, password)) =
    if is_empty username || is_empty password then none else some (username, password)

module _ (k : Codec) (bcrypt : Bcrypt) (secret : Text) where
  -- `setSessionCookie`, and the reply with the user
  unfoldable pub signed_in : ℕ → AdminUser → Reply
  unfolding make_cookie_value
  signed_in now u = record (write_json (user u.id u.username)) {
    cookie =
        some (record { value = make_cookie_value k secret u.id now; max_age = some cookie_ttl });
  }

  created : ℕ → Table → Result Text (Table × AdminUser) → Table × Reply
  unfolding signed_in
  created now t (err _) = (t, json_error 500 (codes "failed to create admin"))
  created now t (ok (after, u)) = (after, signed_in now u)

  create_first : ℕ → Text → Table → Option (Text × Text) → Table × Reply
  unfolding created create_admin_user
  create_first now new_id t none = (t, credentials_required)
  create_first now new_id t (some (username, password)) =
      if ltb (length password) 8
      then (t, json_error 400 (codes "password must be at least 8 characters"))
      else created now t (create_admin_user bcrypt new_id t username password)

  bootstrap_get : Table → Result Text ℕ → Table × Reply
  bootstrap_get t (err _) = (t, http_error 500 (codes "internal error"))
  bootstrap_get t (ok n) = (t, write_json (needed (n == 0)))

  bootstrap_post :
      ℕ → Text → (Table → Table) → Table → Option (Text × Text) → Result Text ℕ → Table × Reply
  unfolding create_first complete
  bootstrap_post now new_id meanwhile t credentials (err _) =
      (t, http_error 500 (codes "internal error"))
  bootstrap_post now new_id meanwhile t credentials (ok n) =
      if ltb 0 n
      then (t, json_error 409 (codes "admin already exists"))
      else create_first now new_id (meanwhile t) (complete credentials)

  -- `bootstrapHandler`; `meanwhile` is what other requests do to the table between the count and the
  -- insertion, which no lock holds together
  unfoldable pub bootstrap :
      ℕ → Text → (Table → Table) → Text → Option (Text × Text) → Table → Table × Reply
  unfolding bootstrap_get bootstrap_post count_admin_users
  bootstrap now new_id meanwhile method credentials t =
      if method ≐ codes "GET"
      then bootstrap_get t (count_admin_users t)
      else if method ≐ codes "POST"
      then bootstrap_post now new_id meanwhile t credentials (count_admin_users t)
      else (t, not_allowed)

  login_as : ℕ → Text → Result Text (Option AdminUser) → Reply
  unfolding signed_in
  login_as now password (err _) = invalid_credentials
  login_as now password (ok none) = invalid_credentials
  login_as now password (ok (some u)) =
      if bcrypt.compare u.password_hash password then signed_in now u else invalid_credentials

  login_with : ℕ → Table → Option (Text × Text) → Reply
  unfolding login_as get_admin_user_by_username
  login_with now t none = credentials_required
  login_with now t (some (username, password)) =
      login_as now password (get_admin_user_by_username t username)

  -- `loginHandler`
  unfoldable pub login : ℕ → Text → Option (Text × Text) → Table → Reply
  unfolding login_with complete
  login now method credentials t =
      if method ≐ codes "POST" then login_with now t (complete credentials) else not_allowed

  -- `logoutHandler`
  unfoldable pub logout : Text → Reply
  logout method =
      if method ≐ codes "POST"
      then record (write_json done) { cookie = some (record { value = []; max_age = none }) }
      else not_allowed

  session_reply : Result Text (Option AdminUser) → Reply
  session_reply (err _) = json_error 401 (codes "user not found")
  session_reply (ok none) = json_error 401 (codes "user not found")
  session_reply (ok (some u)) = write_json (user u.id u.username)

  -- `sessionHandler`, behind `RequireAdmin`
  unfoldable pub session : ℕ → Option Text → Table → Reply
  unfolding session_reply get_admin_user_by_id require_admin
  session now cookie t =
      require_admin k (json_error 401 (codes "unauthorized")) secret cookie now
        (λ id. session_reply (get_admin_user_by_id t id))
