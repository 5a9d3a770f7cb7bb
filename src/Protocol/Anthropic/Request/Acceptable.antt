-- ===== src/Protocol/Anthropic/Request/Acceptable.antt =====
-- internal/protocol/anthropic/request.go: the shape of the requests that go to Anthropic.
use astreo_gateway.Base.{
  All, if◌then◌else◌, arith, ◌∷◌, [], List, some, none, Option, inr, inl, ◌≢◌, refl, ◌≡◌, ◌≤◌, ℕ,
  codes, Text, ◌≐◌, wrap, Ensures-all, Ensures->>=, Ensures-if, Ensures-eq, Ensures, err, ok,
  Result,
}
use astreo_gateway.Protocol.Turns.Shape.{
  flush-HasTurns, add_pending-HasTurns, require_turns-HasTurns, turn-HasTurns, HasTurns,
  add_system-HasTurns, IsTurnOf,
}
use astreo_gateway.Protocol.Anthropic.Request.{
  tool_result, part_blocks, map_tool_choice, blocks_of, assistant_blocks, open_ai_to_anthropic,
  or_empty_text, read_message, content_to_blocks, read_messages, chosen_max_tokens,
}
use astreo_gateway.Protocol.Content.{content_to_text, parse_stop, is_absent}
use astreo_gateway.Protocol.Anthropic.{ContentBlock, MessagesRequest}
use astreo_gateway.Json.{Json}
use astreo_gateway.Protocol.Turns.{Conversation, silence, flush_tool_results, require_turns}
use astreo_gateway.Protocol.Core.{ChatRequest, ChatMessage}

pub record IsAcceptable (r : MessagesRequest) : Type 0 where
  pub turns : All (IsTurnOf (codes "assistant")) r.messages
  pub some_message : r.messages ≢ []
  pub some_token : 1 ≤ r.max_tokens

or_empty_text-ne : (bs : List ContentBlock) → or_empty_text bs ≢ []
unfolding or_empty_text
or_empty_text-ne [] h = cc
or_empty_text-ne (b ∷ bs) h = cc

chosen_max_tokens-positive : (o : Option ℕ) → 1 ≤ chosen_max_tokens o
unfolding chosen_max_tokens
chosen_max_tokens-positive none = omega arith
chosen_max_tokens-positive (some n) = ground arith

abbrev Spoken : Conversation ContentBlock → Type 0
Spoken c = HasTurns (codes "assistant") c

module _ (json : Json) where
  blocks_of-ne :
      (raw : Text) (r : Result Text Text) → Ensures (blocks_of json raw r) (λ bs. bs ≢ [])
  unfolding blocks_of
  blocks_of-ne raw (ok s) = λ e. cc
  blocks_of-ne raw (err _) =
      Ensures-all (λ bs. bs ≢ []) (wrap (codes "invalid content: ") (json.unmarshal_parts raw)) _
        (λ parts.
          Ensures-all (λ bs. bs ≢ []) (part_blocks json parts) _
            (λ blocks. or_empty_text-ne blocks))

  content_to_blocks-ne : (raw : Text) → Ensures (content_to_blocks json raw) (λ bs. bs ≢ [])
  unfolding content_to_blocks
  content_to_blocks-ne raw =
      Ensures-if (λ bs. bs ≢ []) (is_absent raw) _ _ (λ _ e. cc)
        (λ _. blocks_of-ne raw (json.unmarshal_string raw))

  assistant_blocks-ne : (m : ChatMessage) → Ensures (assistant_blocks json m) (λ bs. bs ≢ [])
  unfolding assistant_blocks
  assistant_blocks-ne m =
      Ensures-all (λ bs. bs ≢ [])
        (if is_absent m.content then ok [] else content_to_blocks json m.content) _
        (λ blocks. or_empty_text-ne _)

  read_message-turns :
      (c : Conversation ContentBlock) (m : ChatMessage)
      → Spoken c
      → Ensures (read_message json c m) Spoken
  unfolding read_message
  read_message-turns c m h =
      Ensures-if Spoken (m.role ≐ codes "system") _ _
        (λ _.
          Ensures-all Spoken (content_to_text json m.content) _
            (λ t. add_system-HasTurns (codes "assistant") c t h))
        (λ _.
          Ensures-if Spoken (m.role ≐ codes "user") _ _
            (λ _.
              Ensures->>= Spoken (λ bs. bs ≢ []) (content_to_blocks json m.content) _
                (content_to_blocks-ne m.content)
                (λ bs ne. turn-HasTurns (codes "assistant") c (codes "user") bs h (inl refl) ne))
            (λ _.
              Ensures-if Spoken (m.role ≐ codes "assistant") _ _
                (λ _.
                  Ensures->>= Spoken (λ bs. bs ≢ []) (assistant_blocks json m) _
                    (assistant_blocks-ne m)
                    (λ bs ne.
                      turn-HasTurns (codes "assistant") c (codes "assistant") bs h (inr refl) ne))
                (λ _.
                  Ensures-if Spoken (m.role ≐ codes "tool") _ _
                    (λ _. Ensures-all Spoken (content_to_text json m.content) _ (λ t.
                      add_pending-HasTurns (codes "assistant") c (tool_result m.tool_call_id t) h))
                    (λ _. tt))))

  read_messages-turns :
      (c : Conversation ContentBlock) (ms : List ChatMessage)
      → Spoken c
      → Ensures (read_messages json c ms) Spoken
  unfolding read_messages
  read_messages-turns c [] h = h
  read_messages-turns c (m ∷ ms) h =
      Ensures->>= Spoken Spoken (read_message json c m) (λ d. read_messages json d ms)
        (read_message-turns c m h) (λ d k. read_messages-turns d ms k)

  -- A Messages request that `OpenAIToAnthropic` makes has messages, each of the user or the assistant
  -- and with content, and asks for at least one token.
  pub open_ai_to_anthropic-IsAcceptable :
      (req : ChatRequest) (model_name : Text) {out : MessagesRequest}
      → open_ai_to_anthropic json req model_name ≡ ok out
      → IsAcceptable out
  unfolding open_ai_to_anthropic
  open_ai_to_anthropic-IsAcceptable req model_name h =
      Ensures-eq IsAcceptable (open_ai_to_anthropic json req model_name)
        (Ensures-all IsAcceptable (parse_stop json req.stop) _ (λ stops.
          Ensures->>= IsAcceptable Spoken (read_messages json silence req.messages) _
            (read_messages-turns silence req.messages tt)
            (λ d read.
              Ensures->>= IsAcceptable (λ out. All (IsTurnOf (codes "assistant")) out × (out ≢ []))
                (require_turns (flush_tool_results d).turns) _
                (require_turns-HasTurns (codes "assistant") (flush_tool_results d).turns
                  (flush-HasTurns (codes "assistant") d read))
                (λ messages found.
                  Ensures-all IsAcceptable (map_tool_choice json req.tool_choice) _ (λ choice.
                    record {
                      turns = found.0;
                      some_message = found.1;
                      some_token = chosen_max_tokens-positive req.max_tokens;
                    })))))
        h
