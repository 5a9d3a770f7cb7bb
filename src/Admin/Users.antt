-- ===== src/Admin/Users.antt =====
-- internal/store/admin_users.go: the table of the admins. Its columns `id` and `username` are unique.
use astreo_gateway.Base.{
  any, find?, length, if◌then◌else◌, ◌++◌, ◌∷◌, [], List, some, none, Option, ◌||◌, Bool, ℕ, codes,
  Text, ◌≐◌, wrap, ◌>>=◌, err, ok, Result,
}

pub record AdminUser : Type 0 where
  pub id : Text
  pub username : Text
  pub password_hash : Text

-- the table, and the errors that the database gives to its statements, where it does
pub record Table : Type 0 where
  pub users : List AdminUser
  pub select_error : Option Text
  pub insert_error : Option Text

-- `golang.org/x/crypto/bcrypt`
pub record Bcrypt : Type 0 where
  pub generate : Text → Result Text Text
  pub compare : Text → Text → Bool

-- what a query fails with, or else its result
unfoldable pub answer_to : {A : Type 0} → Text → Option Text → A → Result Text A
answer_to what none a = ok a
answer_to what (some e) a = err (what ++ e)

unfoldable pub count_admin_users : Table → Result Text ℕ
unfolding answer_to
count_admin_users t = answer_to (codes "count admin_users: ") t.select_error (length t.users)

unfoldable pub get_admin_user_by_username : Table → Text → Result Text (Option AdminUser)
unfolding answer_to
get_admin_user_by_username t username =
    answer_to (codes "get admin_user: ") t.select_error (find? (λ u. u.username ≐ username) t.users)

unfoldable pub get_admin_user_by_id : Table → Text → Result Text (Option AdminUser)
unfolding answer_to
get_admin_user_by_id t id =
    answer_to (codes "get admin_user: ") t.select_error (find? (λ u. u.id ≐ id) t.users)

-- the row that an INSERT adds, unless the database or a constraint refuses it
unfoldable pub insert_user : Table → AdminUser → Option Text → Result Text Table
insert_user t u (some e) = err (codes "insert admin_user: " ++ e)
insert_user t u none =
    if any (λ v. v.id ≐ u.id || v.username ≐ u.username) t.users
    then err (codes "insert admin_user: UNIQUE constraint failed")
    else ok (record t { users = t.users ++ u ∷ [] })

unfoldable pub insert_new : Table → AdminUser → Result Text (Table × AdminUser)
unfolding insert_user
insert_new t u = insert_user t u t.insert_error >>= λ now. ok (now, u)

-- `new_id` is what `newID()` returns
unfoldable pub create_admin_user :
    Bcrypt → Text → Table → Text → Text → Result Text (Table × AdminUser)
unfolding insert_new
create_admin_user bcrypt new_id t username password =
    wrap (codes "bcrypt hash: ") (bcrypt.generate password) >>= λ hash.
    insert_new t (record { id = new_id; username = username; password_hash = hash })
