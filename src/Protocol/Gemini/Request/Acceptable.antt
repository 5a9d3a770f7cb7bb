-- ===== src/Protocol/Gemini/Request/Acceptable.antt =====
-- internal/protocol/gemini/request.go: the shape of the requests that go to Gemini.
use astreo_gateway.Base.{
  All, if◌then◌else◌, arith, ◌∷◌, [], List, some, none, Option, inr, inl, ◌≢◌, refl, ◌≡◌, ◌≤◌, ℕ,
  codes, Text, ◌≐◌, wrap, Ensures-all, Ensures->>=, Ensures-if, Ensures-eq, Ensures, err, ok,
  Result,
}
use astreo_gateway.Protocol.Turns.{flush_tool_results, require_turns}
use astreo_gateway.Protocol.Content.{is_absent, parse_stop, content_to_text}
use astreo_gateway.Json.{Json}
use astreo_gateway.Protocol.Core.{ChatRequest, ChatMessage}
use astreo_gateway.Protocol.Gemini.{Part, GenerateContentRequest}
use astreo_gateway.Protocol.Gemini.Request.{
  result_name, response_part, Reading, unread, or_empty_part, chosen_output_tokens,
  default_max_output_tokens, gemini_parts, parts_of_content, content_to_parts, assistant_parts,
  read_turn, read_turns, tool_config_of, open_ai_to_gemini,
}
use astreo_gateway.Protocol.Turns.Shape.{
  IsTurnOf, HasTurns, flush-HasTurns, turn-HasTurns, add_system-HasTurns, add_pending-HasTurns,
  require_turns-HasTurns,
}

pub record IsSendable (r : GenerateContentRequest) : Type 0 where
  pub turns : All (IsTurnOf (codes "model")) r.contents
  pub some_content : r.contents ≢ []
  pub some_token : 1 ≤ r.generation_config.max_output_tokens

or_empty_part-ne : (ps : List Part) → or_empty_part ps ≢ []
unfolding or_empty_part
or_empty_part-ne [] h = cc
or_empty_part-ne (p ∷ ps) h = cc

chosen_output_tokens-positive : (o : Option ℕ) → 1 ≤ chosen_output_tokens o
unfolding chosen_output_tokens default_max_output_tokens
chosen_output_tokens-positive none = omega arith
chosen_output_tokens-positive (some n) = ground arith

abbrev Spoken : Reading → Type 0
Spoken r = HasTurns (codes "model") r.conversation

module _ (json : Json) where
  parts_of_content-ne :
      (raw : Text) (r : Result Text Text) → Ensures (parts_of_content json raw r) (λ ps. ps ≢ [])
  unfolding parts_of_content
  parts_of_content-ne raw (ok s) = λ e. cc
  parts_of_content-ne raw (err _) =
      Ensures-all (λ ps. ps ≢ []) (wrap (codes "invalid content: ") (json.unmarshal_parts raw)) _
        (λ parts.
          Ensures-all (λ ps. ps ≢ []) (gemini_parts json parts) _ (λ ps. or_empty_part-ne ps))

  content_to_parts-ne : (raw : Text) → Ensures (content_to_parts json raw) (λ ps. ps ≢ [])
  unfolding content_to_parts
  content_to_parts-ne raw =
      Ensures-if (λ ps. ps ≢ []) (is_absent raw) _ _ (λ _ e. cc)
        (λ _. parts_of_content-ne raw (json.unmarshal_string raw))

  assistant_parts-ne : (m : ChatMessage) → Ensures (assistant_parts json m) (λ ps. ps ≢ [])
  unfolding assistant_parts
  assistant_parts-ne m =
      Ensures-all (λ ps. ps ≢ [])
        (if is_absent m.content then ok [] else content_to_parts json m.content) _
        (λ parts. or_empty_part-ne _)

  read_turn-Spoken :
      (r : Reading) (m : ChatMessage) → Spoken r → Ensures (read_turn json r m) Spoken
  unfolding read_turn
  read_turn-Spoken r m h =
      Ensures-if Spoken (m.role ≐ codes "system") _ _
        (λ _.
          Ensures-all Spoken (content_to_text json m.content) _
            (λ t. add_system-HasTurns (codes "model") r.conversation t h))
        (λ _.
          Ensures-if Spoken (m.role ≐ codes "user") _ _
            (λ _.
              Ensures->>= Spoken (λ ps. ps ≢ []) (content_to_parts json m.content) _
                (content_to_parts-ne m.content)
                (λ ps ne.
                  turn-HasTurns (codes "model") r.conversation (codes "user") ps h (inl refl) ne))
            (λ _.
              Ensures-if Spoken (m.role ≐ codes "assistant") _ _
                (λ _.
                  Ensures->>= Spoken (λ ps. ps ≢ []) (assistant_parts json m) _
                    (assistant_parts-ne m)
                    (λ ps ne.
                      turn-HasTurns (codes "model") r.conversation (codes "model") ps h (inr refl)
                        ne))
                (λ _.
                  Ensures-if Spoken (m.role ≐ codes "tool") _ _
                    (λ _. Ensures-all Spoken (content_to_text json m.content) _ (λ t.
                      add_pending-HasTurns (codes "model") r.conversation
                        (response_part json (result_name r.names m) t) h))
                    (λ _. tt))))

  read_turns-Spoken :
      (r : Reading) (ms : List ChatMessage) → Spoken r → Ensures (read_turns json r ms) Spoken
  unfolding read_turns
  read_turns-Spoken r [] h = h
  read_turns-Spoken r (m ∷ ms) h =
      Ensures->>= Spoken Spoken (read_turn json r m) (λ s. read_turns json s ms)
        (read_turn-Spoken r m h) (λ s k. read_turns-Spoken s ms k)

  -- A request that `OpenAIToGemini` makes has contents, each of the user or the model and with parts,
  -- and asks for at least one token.
  pub open_ai_to_gemini-IsSendable :
      (req : ChatRequest) {out : GenerateContentRequest}
      → open_ai_to_gemini json req ≡ ok out
      → IsSendable out
  unfolding open_ai_to_gemini unread
  open_ai_to_gemini-IsSendable req h =
      Ensures-eq IsSendable (open_ai_to_gemini json req)
        (Ensures-all IsSendable (parse_stop json req.stop) _ (λ stops.
          Ensures->>= IsSendable Spoken (read_turns json unread req.messages) _
            (read_turns-Spoken unread req.messages tt)
            (λ r spoken.
              Ensures->>= IsSendable (λ out. All (IsTurnOf (codes "model")) out × (out ≢ []))
                (require_turns (flush_tool_results r.conversation).turns) _
                (require_turns-HasTurns (codes "model") (flush_tool_results r.conversation).turns
                  (flush-HasTurns (codes "model") r.conversation spoken))
                (λ contents found.
                  Ensures-all IsSendable (tool_config_of json req.tool_choice) _ (λ config. record {
                    turns = found.0;
                    some_content = found.1;
                    some_token = chosen_output_tokens-positive req.max_tokens;
                  })))))
        h
