-- ===== src/Proxy/Failover/Due.antt =====
-- internal/proxy/proxy.go: what a request with one attempt sends, and when `WriteHeader` may panic.
use astreo_gateway.Base.{
  if-holds, ◌⊎◌, Bool-cases, arith, ◌∷◌, [], some, false, inr, inl, ◌∙◌, ◌≡◌, codes, Text, ok,
}
use astreo_gateway.Proxy.Forward.Honest.{IsHonest}
use astreo_gateway.Proxy.Attempts.{
  write_json_response-IsWritten, write_json_response, or_empty, finish_stream, Tried, finish_with,
  settle_single, Finished,
}
use astreo_gateway.Proxy.{result_status, ForwardResult, has_failed}
use astreo_gateway.Routing.{lookup_alias, Selector}
use astreo_gateway.Model.{Alias}
use astreo_gateway.Proxy.Forward.{
  IsWritten, respond, is_header, response_sent, header_panic, error_sent, stream_sent, Sent,
}

-- a panic of `WriteHeader` is due to the status of the last reply, or the directive is that of an
-- alias, whose targets have run out
abbrev pub IsDue : Selector → Text → Finished → Sent → Type 0
IsDue s directive f (header_panic code) =
    (f.out.status ≡ code) ⊎ ((a : Alias) × (lookup_alias s directive ≡ ok (some a)))
IsDue s directive f (error_sent _ _ _) = Unit
IsDue s directive f (response_sent _ _ _) = Unit
IsDue s directive f (stream_sent _) = Unit

-- `f` has sent one thing, which is due
abbrev pub IsSettled : Selector → Text → Finished → Type 0
IsSettled s directive f =
    (one : Sent) × (f.sent ≡ one ∷ []) × IsWritten one × IsDue s directive f one

write_json_response-IsDue :
    (s : Selector) (directive : Text) (f : Finished) (r : ForwardResult)
    → f.out.status ≡ r.status
    → IsDue s directive f (write_json_response r)
unfolding write_json_response respond
write_json_response-IsDue s directive f r h =
    if-holds (IsDue s directive f) (is_header r.status) _ _ (λ _. tt) (λ _. inl h)

result_status-ok : (r : ForwardResult) → has_failed r ≡ false → result_status r ≡ r.status
unfolding result_status
result_status-ok r h = ground (arith, h)

pub settle_single-IsSettled :
    (s : Selector) (directive : Text) (t : Tried)
    → IsHonest t.attempted
    → t.out.status ≡ result_status t.attempted.result
    → IsSettled s directive (settle_single t)
unfolding settle_single finish_with finish_stream
settle_single-IsSettled s directive t honest status = elim (Bool-cases t.attempted.result.wrote) [
  | inl e ↦
      let (chunks, spoken) = honest.spoken e in (stream_sent chunks, ground (arith, spoken), tt, tt)
  | inr e ↦ elim (Bool-cases (has_failed t.attempted.result)) [
    | inl c ↦ (
      error_sent 502 (codes "upstream_error") (or_empty t.attempted.result.failure),
      ground (arith, honest.silent e),
      tt,
      tt,
    )
    | inr c ↦ (
      write_json_response t.attempted.result,
      ground (arith, honest.silent e),
      write_json_response-IsWritten t.attempted.result,
      write_json_response-IsDue s directive (settle_single t) t.attempted.result
          (rw (e, c) (status ∙ result_status-ok t.attempted.result c)),
    )
  ]
]
