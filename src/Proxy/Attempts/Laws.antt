-- ===== src/Proxy/Attempts/Laws.antt =====
-- What an attempt leaves in the outcome.
use astreo_gateway.Proxy.Forward.Honest.{IsHonest, forward_once-IsHonest}
use astreo_gateway.Base.{
  length-append, length, Bool-cases, ◌∷◌, [], List, false, true, Bool, inr, inl, ap, refl, ◌≡◌, ◌+◌,
  suc, ℕ, Text,
}
use astreo_gateway.Json.{Json}
use astreo_gateway.Model.{Provider}
use astreo_gateway.KeyPool.{Key}
use astreo_gateway.Proxy.{
  Outcome, Attempt, append_attempt, result_status, finalize_stream_outcome, finalize_last,
  has_failed, ForwardResult,
}
use astreo_gateway.Proxy.Forward.{World, Env}
use astreo_gateway.Proxy.Attempts.{Tried, attempt, finish_stream}

length-append_attempt :
    (json : Json) (out : Outcome) (slug model key_id : Text) (r : ForwardResult) (duration : ℕ)
    → length (append_attempt json out slug model key_id r duration).attempts
      ≡ length out.attempts + 1
unfolding append_attempt
length-append_attempt json out slug model key_id r duration = length-append out.attempts _

-- the outcome's status after an attempt
pub status-attempt :
    (env : Env) (is_stream : Bool) (w : World) (out : Outcome) (prov : Provider) (key : Key)
    (model body : Text)
    → (attempt env is_stream w out prov key model body).out.status
      ≡ result_status (attempt env is_stream w out prov key model body).attempted.result
unfolding attempt append_attempt
status-attempt env true w out prov key model body = refl
status-attempt env false w out prov key model body = refl

-- An attempt adds one entry to the outcome.
pub length-attempts-attempt :
    (env : Env) (is_stream : Bool) (w : World) (out : Outcome) (prov : Provider) (key : Key)
    (model body : Text)
    → length (attempt env is_stream w out prov key model body).out.attempts
      ≡ length out.attempts + 1
unfolding attempt
length-attempts-attempt env true w out prov key model body =
    length-append_attempt env.json out _ _ _ _ _
length-attempts-attempt env false w out prov key model body =
    length-append_attempt env.json out _ _ _ _ _

pub length-finalize_stream_outcome :
    (out : Outcome) (r : ForwardResult)
    → length (finalize_stream_outcome out r).attempts ≡ length out.attempts
unfolding finalize_stream_outcome
length-finalize_stream_outcome out r = elim (Bool-cases (has_failed r)) [
  | inl e ↦ rw e (same_length _ out.attempts)
  | inr e ↦ rw e
]
  where
    same_length : (st : ℕ) (l : List Attempt) → length (finalize_last st l) ≡ length l
    same_length st [] = refl
    same_length st (a ∷ []) = refl
    same_length st (a ∷ b ∷ l) = ap suc (same_length st (b ∷ l))

pub length-attempts-finish_stream :
    (t : Tried) → length (finish_stream t).out.attempts ≡ length t.out.attempts
unfolding finish_stream
length-attempts-finish_stream t = length-finalize_stream_outcome t.out t.attempted.result

pub attempt-IsHonest :
    (env : Env) (is_stream : Bool) (w : World) (out : Outcome) (prov : Provider) (key : Key)
    (model body : Text)
    → IsHonest (attempt env is_stream w out prov key model body).attempted
unfolding attempt
attempt-IsHonest env is_stream w out prov key model body =
    forward_once-IsHonest env w prov key body is_stream
