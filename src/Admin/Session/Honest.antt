-- ===== src/Admin/Session/Honest.antt =====
-- internal/api/admin/auth.go: a session is granted to those to whom the server gave it.
use astreo_gateway.Base.{
  if◌then◌else◌, ltb, arith, ◌++◌, ◌∷◌, some, none, Option, ◌∙◌, ap, refl, ◌≡◌, ◌≤◌, ◌+◌, ℕ, ≐_iff,
  ≐_refl, codes, Text, cut_last_sound, cut_last-append, cut_sound, cut-append, Lacks, cut_last, cut,
  err, ok,
}
use astreo_gateway.Admin.Session.{
  Codec, dot, bar, cookie_ttl, sign_cookie, signed_by, verify_cookie, make_cookie_value, until,
  split_payload, decoded, verified, parse_cookie_value,
}

-- what is printed is read back, and hexadecimal digits hold no dot
pub record IsCodec (k : Codec) : Type 0 where
  pub decodes : (t : Text) → k.decode (k.encode t) ≡ some t
  pub scans : (n : ℕ) → k.scan_decimal (k.decimal n) ≡ some n
  pub no_dot : (secret value : Text) → Lacks dot (k.mac secret value)

module _ (k : Codec) where
  verify_cookie-sign_cookie :
      IsCodec k
      → (secret value : Text) → verify_cookie k secret (sign_cookie k secret value) ≡ some value
  unfolding verify_cookie sign_cookie signed_by
  verify_cookie-sign_cookie law secret value =
      rw
        (
          cut_last-append dot value (k.mac secret value) (law.no_dot secret value),
          ≐_refl (k.mac secret value),
        )
        refl

  -- A cookie that `makeCookieValue` makes is read back as the admin's ID for a day, to the second, and
  -- is expired from then on; for an ID without a bar.
  pub parse_cookie_value-make_cookie_value :
      IsCodec k
      → (secret id : Text) (made now : ℕ) → Lacks bar id
      → parse_cookie_value k secret (make_cookie_value k secret id made) now
        ≡ (if ltb (made + cookie_ttl) now then err (codes "expired") else ok id)
  unfolding parse_cookie_value make_cookie_value verified decoded split_payload until
  parse_cookie_value-make_cookie_value law secret id made now h =
      rw (verify_cookie-sign_cookie law secret _, law.decodes _, cut-append bar id _ h, law.scans _)
        refl

  signed_by_sound :
      (secret token value : Text) (o : Option (Text × Text))
      → cut_last dot token ≡ o
      → signed_by k secret o ≡ some value
      → token ≡ sign_cookie k secret value
  unfolding signed_by sign_cookie
  signed_by_sound secret token value none e h = cc
  signed_by_sound secret token value (some (v, sig)) e h =
      ground (arith, cut_last_sound dot token v sig e, ≐_iff sig (k.mac secret v))

  until_sound :
      (now : ℕ) (found id : Text) (o : Option ℕ)
      → until k now found o ≡ ok id
      → (exp : ℕ) × (o ≡ some exp) × (now ≤ exp) × (found ≡ id)
  unfolding until
  until_sound now found id none h = cc
  until_sound now found id (some exp) h = (exp, refl, ground arith, ground arith)

  split_payload_sound :
      (now : ℕ) (payload id : Text) (o : Option (Text × Text))
      → cut bar payload ≡ o
      → split_payload k now o ≡ ok id
      → (expiry : Text) × (exp : ℕ) × (payload ≡ id ++ bar ∷ expiry)
        × (k.scan_decimal expiry ≡ some exp)
        × (now ≤ exp)
  unfolding split_payload
  split_payload_sound now payload id none e h = cc
  split_payload_sound now payload id (some (found, expiry)) e h =
      let (exp, scanned, future, same) = until_sound now found id (k.scan_decimal expiry) h in
      (
        expiry,
        exp,
        cut_sound bar payload found expiry e ∙ ap (λ f. f ++ bar ∷ expiry) same,
        scanned,
        future,
      )

  decoded_sound :
      (now : ℕ) (id : Text) (o : Option Text)
      → decoded k now o ≡ ok id
      → (expiry : Text) × (exp : ℕ) × (o ≡ some (id ++ bar ∷ expiry))
        × (k.scan_decimal expiry ≡ some exp)
        × (now ≤ exp)
  unfolding decoded
  decoded_sound now id none h = cc
  decoded_sound now id (some payload) h =
      let (expiry, exp, same, scanned, future) =
        split_payload_sound now payload id (cut bar payload) refl h in
      (expiry, exp, ap some same, scanned, future)

  verified_sound :
      (now : ℕ) (o : Option Text) (id : Text)
      → verified k now o ≡ ok id
      → (value : Text) × (o ≡ some value)
        × (expiry : Text) × (exp : ℕ) × (k.decode value ≡ some (id ++ bar ∷ expiry))
        × (k.scan_decimal expiry ≡ some exp)
        × (now ≤ exp)
  unfolding verified
  verified_sound now none id h = cc
  verified_sound now (some value) id h =
      let (expiry, exp, same, scanned, future) = decoded_sound now id (k.decode value) h in
      (value, refl, expiry, exp, same, scanned, future)

  -- A cookie that is accepted is signed: it is a value and, behind its last dot, the HMAC of that value
  -- under the server's secret; and the value decodes to the admin's ID, a bar and an expiry that is
  -- not past.
  pub parse_cookie_value-signed :
      (secret cookie id : Text) (now : ℕ)
      → parse_cookie_value k secret cookie now ≡ ok id
      → (value expiry : Text) × (exp : ℕ) × (cookie ≡ sign_cookie k secret value)
        × (k.decode value ≡ some (id ++ bar ∷ expiry))
        × (k.scan_decimal expiry ≡ some exp)
        × (now ≤ exp)
  unfolding parse_cookie_value verify_cookie
  parse_cookie_value-signed secret cookie id now h =
      let (value, of_cookie, expiry, exp, same, scanned, future) =
        verified_sound now (verify_cookie k secret cookie) id h in
      (
        value,
        expiry,
        exp,
        signed_by_sound secret cookie value (cut_last dot cookie) refl of_cookie,
        same,
        scanned,
        future,
      )
