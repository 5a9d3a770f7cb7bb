-- ===== src/Admin/Examples.antt =====
-- Runs of the admin's handlers, and their theorems at an account and its session.
use astreo_gateway.Base.{
  length, if◌then◌else◌, ltb, ◌++◌, ◌∷◌, [], some, none, Option, ◌⊎◌, ap, refl, ◌≡◌, ◌≤◌, ◌+◌, suc,
  zero, ℕ, codes, Text, Lacks, ◌≐◌, err, ok,
}
use astreo_gateway.Admin.Auth.Access.{bootstrap-IsFirst, IsFirst}
use astreo_gateway.Admin.Auth.Login.{login-IsLogin, session-login, IsLogin}
use astreo_gateway.Admin.Users.{AdminUser, Table, Bcrypt}
use astreo_gateway.Admin.Auth.{Cookie, bootstrap, login, session, write_json, user}
use astreo_gateway.Admin.Session.{
  Codec, make_cookie_value, parse_cookie_value, sign_cookie, cookie_ttl, bar,
}
use astreo_gateway.Admin.Session.Honest.{
  parse_cookie_value-make_cookie_value, parse_cookie_value-signed, IsCodec,
}

-- `n` digits 1: a text that a number is read back from
abbrev tally : ℕ → Text
tally zero = []
tally (suc n) = b'1' ∷ tally n

-- a MAC of the two lengths, and numbers and texts that stand for themselves
abbrev demo_codec : Codec
demo_codec = record {
  mac = λ secret value. tally (length secret + length value);
  encode = λ t. t;
  decode = λ t. some t;
  decimal = tally;
  scan_decimal = λ t. some (length t);
}

length-tally : (n : ℕ) → length (tally n) ≡ n
length-tally zero = refl
length-tally (suc n) = ap suc (length-tally n)

tally-Lacks : (n : ℕ) → Lacks b'.' (tally n)
tally-Lacks zero = tt
tally-Lacks (suc n) = (refl, tally-Lacks n)

demo_codec-IsCodec : IsCodec demo_codec
demo_codec-IsCodec = record {
  decodes = λ t. refl;
  scans = λ n. ap some (length-tally n);
  no_dot = λ secret value. tally-Lacks (length secret + length value);
}

abbrev demo_bcrypt : Bcrypt
demo_bcrypt = record {
  generate = λ password. ok password;
  compare = λ hash password. hash ≐ password;
}

abbrev demo_admin : AdminUser
demo_admin = record { id = codes "u1"; username = codes "ada"; password_hash = codes "lovelace" }

abbrev one_admin : Table
one_admin = record { users = demo_admin ∷ []; select_error = none; insert_error = none }

abbrev secret : Text
secret = codes "s"

parse_cookie_value-make_cookie_value_example :
    parse_cookie_value demo_codec secret (make_cookie_value demo_codec secret (codes "u1") 5) 9
    ≡ (if ltb (5 + cookie_ttl) 9 then err (codes "expired") else ok (codes "u1"))
parse_cookie_value-make_cookie_value_example =
    parse_cookie_value-make_cookie_value demo_codec demo_codec-IsCodec secret (codes "u1") 5 9
      (refl, (refl, tt))

-- a cookie whose value is "u1|1111" is good until the fourth second
abbrev short_cookie : Text
short_cookie = sign_cookie demo_codec secret (codes "u1|1111")

parse_cookie_value-signed_example :
    (value expiry : Text) × (exp : ℕ) × (short_cookie ≡ sign_cookie demo_codec secret value)
    × (demo_codec.decode value ≡ some (codes "u1" ++ bar ∷ expiry))
    × (demo_codec.scan_decimal expiry ≡ some exp)
    × (3 ≤ exp)
unfolding parse_cookie_value sign_cookie ◌≐◌
parse_cookie_value-signed_example =
    parse_cookie_value-signed demo_codec secret short_cookie (codes "u1") 3 accepted
  where
    accepted : parse_cookie_value demo_codec secret short_cookie 3 ≡ ok (codes "u1")
    accepted = refl

abbrev no_admin : Table
no_admin = record { users = []; select_error = none; insert_error = none }

abbrev credentials : Option (Text × Text)
credentials = some (codes "ada", codes "lovelace")

bootstrap-IsFirst_example :
    ((bootstrap demo_codec demo_bcrypt secret 5
        (codes "u1")
        (λ t. t)
        (codes "POST")
        credentials
        no_admin).0
      ≡ no_admin)
    ⊎ IsFirst demo_bcrypt no_admin
        (bootstrap demo_codec demo_bcrypt secret 5
          (codes "u1")
          (λ t. t)
          (codes "POST")
          credentials
          no_admin).0
        credentials
bootstrap-IsFirst_example =
    bootstrap-IsFirst demo_codec demo_bcrypt secret 5 (codes "u1") (λ t. t) (codes "POST")
      credentials no_admin refl

-- the first account is made
first_account :
    (bootstrap demo_codec demo_bcrypt secret 5
      (codes "u1")
      (λ t. t)
      (codes "POST")
      credentials
      no_admin).0
    ≡ one_admin
unfolding bootstrap ◌≐◌
first_account = refl

abbrev demo_cookie : Cookie
demo_cookie = record {
  value = make_cookie_value demo_codec secret (codes "u1") 5;
  max_age = some cookie_ttl;
}

login-IsLogin_example : IsLogin demo_codec demo_bcrypt secret 5 one_admin credentials demo_cookie
unfolding login ◌≐◌
login-IsLogin_example =
    login-IsLogin demo_codec demo_bcrypt secret 5 (codes "POST") credentials one_admin demo_cookie
      logged_in
  where
    logged_in :
        (login demo_codec demo_bcrypt secret 5 (codes "POST") credentials one_admin).cookie
        ≡ some demo_cookie
    logged_in = refl

session-login_example :
    (c : Cookie) × ((login demo_codec demo_bcrypt secret 5
        (codes "POST")
        credentials
        one_admin).cookie
      ≡ some c)
    × ((later : ℕ)
        → later ≤ 5 + cookie_ttl
        → session demo_codec demo_bcrypt secret later (some c.value) one_admin
          ≡ write_json (user (codes "u1") (codes "ada")))
unfolding ◌≐◌
session-login_example =
    session-login demo_codec demo_bcrypt secret 5 (codes "ada") (codes "lovelace") one_admin
      demo_admin demo_codec-IsCodec (λ e. cc) (λ e. cc) refl refl refl refl (refl, (refl, tt))
