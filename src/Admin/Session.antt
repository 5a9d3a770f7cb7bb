-- ===== src/Admin/Session.antt =====
-- internal/api/admin/auth.go: the session cookie. The clock is a number of seconds, and an expiry
-- before 1970 is 0: both are past.
pub mod Honest
use astreo_gateway.Base.{
  if◌then◌else◌, ltb, ◌++◌, ◌∷◌, some, none, Option, ◌+◌, ℕ, is_empty, codes, Text, cut_last, cut,
  ◌≐◌, err, ok, Result,
}

-- `crypto/hmac` with `crypto/sha256`, as hexadecimal digits, `encoding/base64` and `fmt`
pub record Codec : Type 0 where
  pub mac : Text → Text → Text
  pub encode : Text → Text
  pub decode : Text → Option Text
  -- `%d`, printed and scanned
  pub decimal : ℕ → Text
  pub scan_decimal : Text → Option ℕ

-- `.` and `|`
abbrev pub dot : ℕ
dot = 46

abbrev pub bar : ℕ
bar = 124

-- `cookieTTL`, in seconds
abbrev pub cookie_ttl : ℕ
cookie_ttl = 86400

module _ (k : Codec) where
  unfoldable pub sign_cookie : Text → Text → Text
  sign_cookie secret value = value ++ dot ∷ k.mac secret value

  signed_by : Text → Option (Text × Text) → Option Text
  signed_by secret none = none
  signed_by secret (some (value, sig)) = if sig ≐ k.mac secret value then some value else none

  unfoldable pub verify_cookie : Text → Text → Option Text
  unfolding cut_last signed_by
  verify_cookie secret token = signed_by secret (cut_last dot token)

  unfoldable pub make_cookie_value : Text → Text → ℕ → Text
  unfolding sign_cookie
  make_cookie_value secret admin_id now =
      sign_cookie secret (k.encode (admin_id ++ bar ∷ k.decimal (now + cookie_ttl)))

  until : ℕ → Text → Option ℕ → Result Text Text
  until now id none = err (codes "malformed expiry")
  until now id (some exp) = if ltb exp now then err (codes "expired") else ok id

  -- `strings.SplitN(payload, "|", 2)`, and what follows
  split_payload : ℕ → Option (Text × Text) → Result Text Text
  unfolding until
  split_payload now none = err (codes "malformed payload")
  split_payload now (some (id, exp)) = until now id (k.scan_decimal exp)

  decoded : ℕ → Option Text → Result Text Text
  unfolding split_payload cut
  decoded now none = err (codes "invalid payload")
  decoded now (some payload) = split_payload now (cut bar payload)

  verified : ℕ → Option Text → Result Text Text
  unfolding decoded
  verified now none = err (codes "invalid signature")
  verified now (some enc) = decoded now (k.decode enc)

  unfoldable pub parse_cookie_value : Text → Text → ℕ → Result Text Text
  unfolding verify_cookie verified
  parse_cookie_value secret cookie now = verified now (verify_cookie secret cookie)

  -- the admin whose session a request carries
  unfoldable pub session_of : Text → Option Text → ℕ → Result Text Text
  unfolding parse_cookie_value
  session_of secret none now = err (codes "unauthorized")
  session_of secret (some cookie) now =
      if is_empty cookie then err (codes "unauthorized") else parse_cookie_value secret cookie now

  unfoldable pub let_in : {R : Type 0} → R → (Text → R) → Result Text Text → R
  let_in refuse next (ok id) = next id
  let_in refuse next (err _) = refuse

  -- `RequireAdmin`: `refuse` is its reply 401, `next` the handler that gets the admin's ID
  unfoldable pub require_admin : {R : Type 0} → R → Text → Option Text → ℕ → (Text → R) → R
  unfolding session_of let_in
  require_admin refuse secret cookie now next = let_in refuse next (session_of secret cookie now)
