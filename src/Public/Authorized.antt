-- ===== src/Public/Authorized.antt =====
-- internal/api/public/auth.go: whose requests are served.
use astreo_gateway.Base.{
  drop, length, arith, ◌++◌, ◌∷◌, [], some, Option, false, true, Bool, inr, inl, ◌⊎◌, refl, ◌≡◌,
  is_empty, codes, Text, has_prefix, Ensures-if, Ensures, err, ok, Result,
}
use astreo_gateway.Store.Db.{Db, GatewayKeyRow, Answer, row, no_rows, failed}
use astreo_gateway.Store.Keys.{verify_gateway_key, key_verified}
use astreo_gateway.Metrics.LogStore.{LogStore}
use astreo_gateway.Metrics.AccessLog.{Net}
use astreo_gateway.Proxy.Forward.{Env, World}
use astreo_gateway.Public.{
  Call, Served, denied, require_gateway_key, found_key, admitted, serve_chat,
}

has_prefix_sound : (t p : Text) → has_prefix t p ≡ true → t ≡ p ++ drop (length p) t
unfolding has_prefix
has_prefix_sound t [] h = refl
has_prefix_sound [] (c ∷ p) h = cc
has_prefix_sound (d ∷ t) (c ∷ p) h = ground (arith, has_prefix_sound t p)

-- the header carries a token, and the store has a key for the token's hash
pub record IsAuthorized (sha256_hex : Text → Text) (db : Db) (authorization : Text) : Type 0 where
  pub token : Text
  pub key : GatewayKeyRow
  pub carried : authorization ≡ codes "Bearer " ++ token
  pub some_token : is_empty token ≡ false
  pub known : db.gateway_key_by_hash (sha256_hex token) ≡ row key

module _ (sha256_hex : Text → Text) (db : Db) where
  found_row :
      (a : Answer GatewayKeyRow) {key_id : Text}
      → found_key (key_verified a) ≡ ok key_id
      → (key : GatewayKeyRow) × (a ≡ row key)
  unfolding found_key key_verified
  found_row (row key) h = (key, refl)
  found_row no_rows h = cc
  found_row (failed e) h = cc

  require_gateway_key-IsAuthorized :
      (authorization : Text)
      → Ensures
          (require_gateway_key sha256_hex db authorization)
          (λ _. IsAuthorized sha256_hex db authorization)
  unfolding require_gateway_key verify_gateway_key
  require_gateway_key-IsAuthorized authorization =
      Ensures-if (λ _. IsAuthorized sha256_hex db authorization)
        (has_prefix authorization (codes "Bearer ")) _ _
        (λ begins.
          Ensures-if (λ _. IsAuthorized sha256_hex db authorization)
            (is_empty (drop 7 authorization)) _ _ (λ _. tt)
            (λ nonempty.
              by_row begins nonempty
                (found_key (verify_gateway_key sha256_hex db (drop 7 authorization))) refl))
        (λ _. tt)
    where
      by_row :
          has_prefix authorization (codes "Bearer ") ≡ true
          → is_empty (drop 7 authorization) ≡ false
          → (r : Result Text Text)
          → found_key (verify_gateway_key sha256_hex db (drop 7 authorization)) ≡ r
          → Ensures r (λ _. IsAuthorized sha256_hex db authorization)
      by_row begins nonempty (err e) h = tt
      by_row begins nonempty (ok key_id) h =
          let found = found_row (db.gateway_key_by_hash (sha256_hex (drop 7 authorization))) h in
          record {
            token = drop 7 authorization;
            key = found.0;
            carried = has_prefix_sound authorization (codes "Bearer ") begins;
            some_token = nonempty;
            known = found.1;
          }

same_served : (s t : Served) → some t ≡ some s → s ≡ t
same_served s t h = cc

-- A chat request that changes the log or the world has a valid gateway key: the carried token of its
-- header hashes to a key that the store finds. Every other one is turned away and changes neither.
pub serve_chat-IsAuthorized :
    (env : Env) (unmarshal_peek : Text → Option (Text × Bool)) (net : Net)
    (sha256_hex : Text → Text) (request_id : Text) (w : World) (logs : LogStore) (call : Call)
    (s : Served)
    → serve_chat env unmarshal_peek net sha256_hex request_id w logs call ≡ some s
    → IsAuthorized sha256_hex w.selector.db call.authorization
      ⊎ ((message : Text) × (s ≡ record { response = denied message; logs = logs; world = w }))
unfolding serve_chat admitted
serve_chat-IsAuthorized env unmarshal_peek net sha256_hex request_id w logs call s =
    by_key (require_gateway_key sha256_hex w.selector.db call.authorization)
      (require_gateway_key-IsAuthorized sha256_hex w.selector.db call.authorization)
  where
    by_key :
        (r : Result Text Text)
        → Ensures r (λ _. IsAuthorized sha256_hex w.selector.db call.authorization)
        → admitted env unmarshal_peek net sha256_hex request_id w logs call r ≡ some s
        → IsAuthorized sha256_hex w.selector.db call.authorization
          ⊎ ((message : Text) × (s ≡ record { response = denied message; logs = logs; world = w }))
    by_key (ok key_id) valid h = inl valid
    by_key (err message) _ h =
        inr
          (message, same_served s (record { response = denied message; logs = logs; world = w }) h)
