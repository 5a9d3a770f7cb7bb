-- ===== src/Proxy/Examples.antt =====
-- The theorems on the proxy at a concrete store and a network that refuses every connection.
use astreo_gateway.Proxy.Embeddings.{embeddings}
use astreo_gateway.Protocol.Urls.{Urls}
use astreo_gateway.Proxy.Embeddings.Settled.{embeddings-IsSettled, IsSettled}
use astreo_gateway.Base.{
  length, ◌++◌, ◌∷◌, [], List, Text, some, none, false, refl, ◌≡◌, ◌≤◌, ◌+◌, codes, ◌≐◌, ok, member,
  lookup,
}
use astreo_gateway.Proxy.Forward.Honest.{forward_once-IsHonest, IsHonest}
use astreo_gateway.Routing.Examples.{demo_resolves}
use astreo_gateway.Proxy.Failover.Total.{others, forward_alias-status, forward_alias-IsEnd}
use astreo_gateway.Proxy.Failover.{forward_alias}
use astreo_gateway.Proxy.Chat.{empty_outcome, chat_completions}
use astreo_gateway.Samples.{
  demo_selector, two_targets, demo_resolved, demo_target, demo_world, alias_of, refusing, demo_json,
}
use astreo_gateway.Proxy.Capture.{capture_all}
use astreo_gateway.Proxy.Capture.Bytewise.{capture_all-scan, scan}
use astreo_gateway.Proxy.Attempts.{Finished}
use astreo_gateway.Proxy.Chat.Total.{chat_completions-answers, IsAnsweredOnce}
use astreo_gateway.Proxy.Forward.{header_panic, forward_once}
use astreo_gateway.Proxy.Failover.Ends.{IsOneAnswer}
use mathlib.Core.List.{flatten}
use astreo_gateway.Routing.{resolve}

forward_once-IsHonest_example :
    IsHonest
      (forward_once refusing demo_world demo_resolved.provider demo_resolved.api_key [] false)
forward_once-IsHonest_example =
    forward_once-IsHonest refusing demo_world demo_resolved.provider demo_resolved.api_key [] false

-- a stream of two lines, cut inside the first and inside the second
abbrev cut_stream : List Text
cut_stream = codes "da" ∷ (codes "ta: x" ++ 10 ∷ codes "dat") ∷ (codes "a: y" ++ 10 ∷ []) ∷ []

capture_all-scan_example :
    capture_all demo_json (λ t. t) (record { buf = []; prompt = 0; completion = 0 }) cut_stream
    ≡ scan demo_json (λ t. t) (record { buf = []; prompt = 0; completion = 0 }) (flatten cut_stream)
capture_all-scan_example =
    capture_all-scan demo_json (λ t. t) (record { buf = []; prompt = 0; completion = 0 }) cut_stream
      tt

forward_alias-IsEnd_example :
    (f : Finished) × (forward_alias refusing
        (alias_of two_targets)
        false
        (codes "{}")
        demo_world
        demo_resolved
        (empty_outcome false)
      ≡ some f)
    × (length f.out.attempts
        ≤ length (empty_outcome false).attempts
          + 1
          + others refusing (alias_of two_targets) false (codes "{}") demo_resolved)
    × IsOneAnswer [] f
forward_alias-IsEnd_example =
    forward_alias-IsEnd refusing (alias_of two_targets) false (codes "{}") demo_world demo_resolved
      (empty_outcome false)

forward_alias-status_example :
    (f : Finished) × (forward_alias refusing
        (alias_of (demo_target (codes "m1") ∷ []))
        false
        (codes "{}")
        demo_world
        demo_resolved
        (empty_outcome false)
      ≡ some f)
    × (f.sent ≡ header_panic 0 ∷ [])
unfolding astreo_gateway.Proxy.Failover.Untried.untried member ◌≐◌ astreo_gateway.Routing.target_key
    astreo_gateway.Proxy.Attempts.attempt forward_once astreo_gateway.Protocol.protocol_of lookup
    astreo_gateway.Proxy.Forward.forward
forward_alias-status_example =
    forward_alias-status refusing (alias_of (demo_target (codes "m1") ∷ [])) false (codes "{}")
      demo_world demo_resolved (empty_outcome false) (codes "upstream request: refused") refl refl

chat_completions-answers_example :
    IsAnsweredOnce
      (resolve refusing.registry refusing.draw 5 demo_selector (codes "fast")).1
      (codes "fast")
      (chat_completions refusing demo_world (codes "fast") (codes "{}") false)
chat_completions-answers_example =
    chat_completions-answers refusing demo_world (codes "fast") (codes "{}") false
      (ok demo_resolved) demo_resolves

abbrev demo_urls : Urls
demo_urls = record {
  parse = λ _. none;
  join = λ _. [];
  trim_slashes = λ t. t;
  trim_slash = λ t. t;
  has_suffix = λ _ _. false;
}

embeddings-IsSettled_example :
    IsSettled refusing.registry
      (embeddings refusing demo_urls demo_world (codes "fast") (codes "{}"))
embeddings-IsSettled_example =
    embeddings-IsSettled refusing demo_urls demo_world (codes "fast") (codes "{}")
      (ok demo_resolved) demo_resolves
