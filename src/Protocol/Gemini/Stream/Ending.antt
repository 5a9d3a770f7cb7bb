-- ===== src/Protocol/Gemini/Stream/Ending.antt =====
-- internal/protocol/gemini/stream.go: the reason that the last chunk gives.
use astreo_gateway.Base.{
  arith, map, ◌++◌, ◌∷◌, [], List, is_empty, false, if◌then◌else◌, some, none, Option, ◌||◌, true,
  Bool, ◌∙◌, ap, sym, refl, ◌≡◌, suc, ℕ, codes, Text, ◌≐◌,
}
use astreo_gateway.Protocol.Gemini.Stream.{
  is_call, or_stop, Progress, on_decoded, on_candidates, unbegun, on_content, on_reply, on_payload,
  final_chunk, has_call, reason_after,
}
use astreo_gateway.Json.{Json}
use astreo_gateway.Protocol.Core.{ToolCall}
use astreo_gateway.Protocol.Gemini.{
  FunctionCall, Part, Content, Candidate, GenerateContentResponse, map_finish_reason,
}
use astreo_gateway.Protocol.Gemini.Response.{
  call_of, part_calls, parts_of, parts_in, finish_of, finish_reason_with, gemini_to_open_ai,
}
use astreo_gateway.Protocol.EventStream.{Emit, read_events, chunk_of}
use astreo_gateway.Protocol.EventStream.Payloads.{run, payloads, read_events-run}

-- the reason of the last of some replies that has one, `earlier` where none has
unfoldable pub last_reason : Option Text → List (Option Text) → Option Text
last_reason earlier [] = earlier
last_reason earlier (r ∷ rs) = elim r [
  | none ↦ last_reason earlier rs
  | some t ↦ last_reason (some t) rs
]

-- the reason of one reply, whatever came before it
finds_calls : List ToolCall → Bool
finds_calls [] = false
finds_calls (_ ∷ _) = true

-- a candidate's reason as the response without a stream reads it, but "tool_calls" wherever that
-- response has a call, whatever the reason
unfoldable pub reason_in : Json → Candidate → Option Text
unfolding finds_calls part_calls finish_of parts_in
reason_in json c =
    if is_empty c.finish_reason
    then none
    else if finds_calls (part_calls json 0 (parts_in c.content))
    then some (codes "tool_calls")
    else some (finish_of (c ∷ []))

unfoldable pub reason_of : Json → Option GenerateContentResponse → Option Text
reason_of json none = none
reason_of json (some reply) = elim reply.candidates [ [] ↦ none | c ∷ _ ↦ reason_in json c ]

finds_calls-part_calls :
    (json : Json) (i : ℕ) (ps : List Part) → finds_calls (part_calls json i ps) ≡ has_call ps
unfolding finds_calls part_calls has_call call_of is_call
finds_calls-part_calls json i [] = refl
finds_calls-part_calls json i (p ∷ ps) =
    by_call p.function_call (finds_calls-part_calls json (suc i) ps)
  where
    by_call :
        (o : Option FunctionCall)
        → finds_calls (part_calls json (suc i) ps) ≡ has_call ps
        → finds_calls (call_of json i o ++ part_calls json (suc i) ps) ≡ is_call o || has_call ps
    by_call none h = h
    by_call (some f) h = refl

reason_after-none : (json : Json) (c : Candidate) → reason_after none c ≡ reason_in json c
unfolding reason_after reason_in finish_of parts_in has_call
reason_after-none json c = by_content c.content refl
  where
    by_content : (o : Option Content) → c.content ≡ o → reason_after none c ≡ reason_in json c
    by_content none e = rw e (ground arith)
    by_content (some x) e = rw (e, finds_calls-part_calls json 0 x.blocks) (ground arith)

module _ (json : Json) (model : Text) (include_usage : Bool) where
  reason-on_content :
      (s : Progress) (o : Option Content)
      → (on_content json model include_usage s o).0.finish_reason ≡ s.finish_reason
  unfolding on_content
  reason-on_content s none = refl
  reason-on_content s (some c) = refl

  reason-after :
      (s : Progress) (c : Candidate) (rs : List (Option Text))
      → last_reason (reason_after s.finish_reason c) rs
        ≡ last_reason s.finish_reason (reason_after none c ∷ rs)
  unfolding reason_after last_reason
  reason-after s c rs = ground arith

  reason-on_candidates :
      (s : Progress) (cs : List Candidate) (rs : List (Option Text))
      → last_reason (on_candidates json model include_usage s cs).0.finish_reason rs
        ≡ last_reason s.finish_reason ((elim cs [ [] ↦ none | c ∷ _ ↦ reason_after none c ]) ∷ rs)
  unfolding on_candidates last_reason
  reason-on_candidates s [] rs = refl
  reason-on_candidates s (c ∷ _) rs =
      ap (λ f. last_reason f rs) (reason-on_content _ c.content) ∙ reason-after s c rs

  reason-on_decoded :
      (s : Progress) (o : Option GenerateContentResponse) (rs : List (Option Text))
      → last_reason (on_decoded json model include_usage s o).0.finish_reason rs
        ≡ last_reason s.finish_reason (reason_of json o ∷ rs)
  unfolding on_decoded on_reply last_reason reason_of
  reason-on_decoded s none rs = refl
  reason-on_decoded s (some reply) rs =
      reason-on_candidates _ reply.candidates rs ∙ by_candidates reply.candidates
    where
      by_candidates :
          (cs : List Candidate)
          → last_reason s.finish_reason ((elim cs [ [] ↦ none | c ∷ _ ↦ reason_after none c ]) ∷ rs)
            ≡ last_reason s.finish_reason ((elim cs [ [] ↦ none | c ∷ _ ↦ reason_in json c ]) ∷ rs)
      by_candidates [] = refl
      by_candidates (c ∷ _) =
          ap (λ r. last_reason s.finish_reason (r ∷ rs)) (reason_after-none json c)

  module _ (unmarshal_reply : Text → Option GenerateContentResponse) where
    reason-run :
        (s : Progress) (ps : List Text)
        → (run (on_payload json model include_usage unmarshal_reply) s ps).0.finish_reason
          ≡ last_reason s.finish_reason (map (λ p. reason_of json (unmarshal_reply p)) ps)
    unfolding run last_reason on_payload
    reason-run s [] = refl
    reason-run s (p ∷ ps) =
        reason-run (on_decoded json model include_usage s (unmarshal_reply p)).0 ps
        ∙ reason-on_decoded s (unmarshal_reply p) (map (λ p. reason_of json (unmarshal_reply p)) ps)

    -- The last chunk of a Gemini stream gives one reason: that of the last reply with a reason, read
    -- from that reply alone, and "stop" where no reply has one. A reply's reason is "tool_calls" where
    -- the same reply without a stream has a call, and else the one that it gives without a stream.
    pub final_chunk-reason :
        (trim : Text → Text) (lines : List Text)
        → map
            (λ c. c.finish_reason)
            (final_chunk json model include_usage
              (read_events trim
                (on_payload json model include_usage unmarshal_reply)
                unbegun
                []
                lines).0).choices
          ≡ some
              (elim (last_reason none
                (map (λ p. reason_of json (unmarshal_reply p)) (payloads trim [] lines))) [
                  | none ↦ codes "stop"
                  | some r ↦ r
                ])
            ∷ []
    unfolding final_chunk chunk_of unbegun
    final_chunk-reason trim lines =
        ap (λ r. some (or_stop r) ∷ [])
          (ap (λ (r : Progress × List Emit). r.0.finish_reason)
              (read_events-run (on_payload json model include_usage unmarshal_reply) trim unbegun []
                lines)
            ∙ reason-run unbegun (payloads trim [] lines))

  -- a reply of one candidate
  abbrev pub reply_of : Option Content → Text → GenerateContentResponse
  reply_of content reason = record {
    candidates = record { content = content; finish_reason = reason } ∷ [];
    usage_metadata = none;
  }

  finish_reason_with-has_call :
      (i : ℕ) (ps : List Part)
      → has_call ps ≡ true
      → finish_reason_with json (part_calls json i ps) (codes "stop") ≡ codes "tool_calls"
  unfolding has_call finish_reason_with part_calls call_of is_call ◌≐◌
  finish_reason_with-has_call i [] h = cc
  finish_reason_with-has_call i (p ∷ ps) h =
      by_call p.function_call refl (finish_reason_with-has_call (suc i) ps)
    where
      by_call :
          (o : Option FunctionCall)
          → p.function_call ≡ o
          → (has_call ps ≡ true
              → finish_reason_with json (part_calls json (suc i) ps) (codes "stop")
                ≡ codes "tool_calls")
          → finish_reason_with json (call_of json i o ++ part_calls json (suc i) ps) (codes "stop")
            ≡ codes "tool_calls"
      by_call none e later = later (ap (λ o. is_call o || has_call ps) (sym e) ∙ h)
      by_call (some f) e later = refl

  -- A function call that Gemini streams before the reply which ends with STOP is lost from the reason:
  -- the last chunk says "stop", though the same call and the same reason in one reply without a
  -- stream give "tool_calls".
  pub final_chunk-late_stop :
      (s : Progress) (content : Content)
      → has_call content.blocks ≡ true
      → (map
            (λ c. c.finish_reason)
            (final_chunk json model include_usage
              (on_reply json model include_usage
                (on_reply json model include_usage s (reply_of (some content) [])).0
                (reply_of none (codes "STOP"))).0).choices
          ≡ some (codes "stop") ∷ [])
        × (map
              (λ c. c.finish_reason)
              (gemini_to_open_ai json (reply_of (some content) (codes "STOP")) model).choices
            ≡ codes "tool_calls" ∷ [])
  unfolding final_chunk chunk_of on_reply on_candidates on_content reason_after gemini_to_open_ai
      finish_of parts_of map_finish_reason ◌≐◌
  final_chunk-late_stop s content h =
      (refl, ap (λ r. r ∷ []) (finish_reason_with-has_call 0 content.blocks h))
