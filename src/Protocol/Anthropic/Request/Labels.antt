-- ===== src/Protocol/Anthropic/Request/Labels.antt =====
-- internal/protocol/anthropic/request.go: the tool calls and the tool results of a conversation.
use astreo_gateway.Base.{
  if◌then◌else◌, arith, append_assoc, append-nil, map, ◌++◌, ◌∷◌, [], List, true, ◌∙◌, ap, sym,
  refl, ◌≡◌, ≐_sound, codes, Text, ◌≐◌, wrap, Ensures-all, Ensures->>=, Ensures-if, Ensures-eq,
  Ensures, ◌>>=◌, err, ok, Result,
}
use astreo_gateway.Protocol.Anthropic.Request.{
  map_tool_choice, part_block, tool_use, tool_result, or_empty_text, read_messages,
  open_ai_to_anthropic, part_blocks, content_to_blocks, text_block, read_message, assistant_blocks,
  blocks_of,
}
use mathlib.Core.Path.{subst}
use astreo_gateway.Protocol.Content.{parse_stop, content_to_text, is_absent}
use astreo_gateway.Protocol.Anthropic.{MessagesRequest, ContentBlock}
use astreo_gateway.Json.{Json}
use astreo_gateway.Protocol.Turns.{Conversation, silence, flush_tool_results, require_turns}
use astreo_gateway.Protocol.Turns.Labels.{
  labels, labels_in, held, held-turn, held-add_pending, held-add_system, labels_in-flush,
  labels-append, same-require_turns,
}
use astreo_gateway.Protocol.Core.{ChatRequest, ChatMessage, ToolCall}

-- a tool call or a tool result, by the ID that joins the two
pub data Label : Type 0 where
  used answered : Text → Label

-- what a block stands for
unfoldable pub label : ContentBlock → List Label
label b =
    if b.kind ≐ codes "tool_use"
    then used b.id ∷ []
    else if b.kind ≐ codes "tool_result"
    then answered b.tool_use_id ∷ []
    else []

unfoldable pub calls : List ToolCall → List Label
calls [] = []
calls (tc ∷ tcs) = used tc.id ∷ calls tcs

-- those of a message of a chat request: an assistant's calls, or a tool's result
unfoldable pub said_by : Text → ChatMessage → List Label
unfolding calls
said_by role m =
    if role ≐ codes "assistant"
    then calls m.tool_calls
    else if role ≐ codes "tool"
    then answered m.tool_call_id ∷ []
    else []

unfoldable pub said : ChatMessage → List Label
unfolding said_by
said m = said_by m.role m

unfoldable pub trace : List ChatMessage → List Label
unfolding said
trace [] = []
trace (m ∷ ms) = said m ++ trace ms

label-text_block : (t : Text) → label (text_block t) ≡ []
unfolding label ◌≐◌
label-text_block t = refl

labels-or_empty_text : (bs : List ContentBlock) → labels label (or_empty_text bs) ≡ labels label bs
unfolding labels or_empty_text label ◌≐◌
labels-or_empty_text [] = refl
labels-or_empty_text (b ∷ bs) = refl

module _ (json : Json) where
  labels-map-tool_use :
      (tcs : List ToolCall) → labels label (map (λ tc. tool_use json tc) tcs) ≡ calls tcs
  unfolding labels calls label tool_use ◌≐◌
  labels-map-tool_use [] = refl
  labels-map-tool_use (tc ∷ tcs) = ap (λ l. used tc.id ∷ l) (labels-map-tool_use tcs)

  labels-part_block : (p : List (Text × Text)) → Ensures (part_block json p) (λ b. label b ≡ [])
  unfolding part_block label ◌≐◌
  labels-part_block p = ground arith

  labels-part_blocks :
      (ps : List (List (Text × Text))) → Ensures (part_blocks json ps) (λ bs. labels label bs ≡ [])
  unfolding part_blocks labels
  labels-part_blocks [] = refl
  labels-part_blocks (p ∷ ps) =
      Ensures->>= (λ bs. labels label bs ≡ []) (λ b. label b ≡ []) (part_block json p)
        (λ b. part_blocks json ps >>= λ bs. ok (b ∷ bs)) (labels-part_block p)
        (λ b none_first.
          Ensures->>= (λ bs. labels label bs ≡ []) (λ bs. labels label bs ≡ [])
            (part_blocks json ps) (λ bs. ok (b ∷ bs)) (labels-part_blocks ps)
            (λ bs none_later. ap (λ l. l ++ labels label bs) none_first ∙ none_later))

  labels-blocks_of :
      (raw : Text) (r : Result Text Text)
      → Ensures (blocks_of json raw r) (λ bs. labels label bs ≡ [])
  unfolding blocks_of labels label ◌≐◌
  labels-blocks_of raw (ok s) = refl
  labels-blocks_of raw (err _) =
      Ensures-all (λ bs. labels label bs ≡ [])
        (wrap (codes "invalid content: ") (json.unmarshal_parts raw))
        (λ parts. part_blocks json parts >>= λ blocks. ok (or_empty_text blocks))
        (λ parts.
          Ensures->>= (λ bs. labels label bs ≡ []) (λ bs. labels label bs ≡ [])
            (part_blocks json parts) (λ blocks. ok (or_empty_text blocks))
            (labels-part_blocks parts) (λ blocks h. labels-or_empty_text blocks ∙ h))

  -- content is text: it holds no call and no result
  labels-content_to_blocks :
      (raw : Text) → Ensures (content_to_blocks json raw) (λ bs. labels label bs ≡ [])
  unfolding content_to_blocks labels label ◌≐◌
  labels-content_to_blocks raw =
      Ensures-if (λ bs. labels label bs ≡ []) (is_absent raw) (ok (text_block [] ∷ [])) _
        (λ _. refl) (λ _. labels-blocks_of raw (json.unmarshal_string raw))

  labels-assistant_blocks :
      (m : ChatMessage)
      → Ensures (assistant_blocks json m) (λ bs. labels label bs ≡ calls m.tool_calls)
  unfolding assistant_blocks labels
  labels-assistant_blocks m =
      Ensures->>= (λ bs. labels label bs ≡ calls m.tool_calls) (λ bs. labels label bs ≡ [])
        (if is_absent m.content then ok [] else content_to_blocks json m.content)
        (λ blocks. ok (or_empty_text (blocks ++ map (λ tc. tool_use json tc) m.tool_calls)))
        (Ensures-if (λ bs. labels label bs ≡ []) (is_absent m.content) (ok []) _ (λ _. refl)
          (λ _. labels-content_to_blocks m.content))
        (λ blocks none_first.
          labels-or_empty_text _
          ∙ labels-append label blocks _
          ∙ ap (λ l. l ++ labels label (map (λ tc. tool_use json tc) m.tool_calls)) none_first
          ∙ labels-map-tool_use m.tool_calls)

  held-read_message :
      (c : Conversation ContentBlock) (m : ChatMessage)
      → Ensures (read_message json c m) (λ d. held label d ≡ held label c ++ said m)
  unfolding read_message said said_by ◌≐◌ label
  held-read_message c m =
      Ensures-if Adds (m.role ≐ codes "system") _ _
        (λ e. Ensures-all Adds (content_to_text json m.content) _ (λ t.
          held-add_system label c t
          ∙ sym (append-nil (held label c))
          ∙ ap (λ l. held label c ++ l) (sym (as_role _ e))))
        (λ _.
          Ensures-if Adds (m.role ≐ codes "user") _ _
            (λ e.
              Ensures->>= Adds (λ bs. labels label bs ≡ []) (content_to_blocks json m.content) _
                (labels-content_to_blocks m.content)
                (λ bs h.
                  held-turn label c (codes "user") bs
                  ∙ ap (λ l. held label c ++ l) (h ∙ sym (as_role _ e))))
            (λ _.
              Ensures-if Adds (m.role ≐ codes "assistant") _ _
                (λ e.
                  Ensures->>= Adds (λ bs. labels label bs ≡ calls m.tool_calls)
                    (assistant_blocks json m) _ (labels-assistant_blocks m)
                    (λ bs h.
                      held-turn label c (codes "assistant") bs
                      ∙ ap (λ l. held label c ++ l) (h ∙ sym (as_role _ e))))
                (λ _.
                  Ensures-if Adds (m.role ≐ codes "tool") _ _
                    (λ e. Ensures-all Adds (content_to_text json m.content) _ (λ t.
                      held-add_pending label c (tool_result m.tool_call_id t)
                      ∙ ap (λ l. held label c ++ l) (sym (as_role _ e))))
                    (λ _. tt))))
    where
      Adds : Conversation ContentBlock → Type 0
      Adds d = held label d ≡ held label c ++ said m

      as_role : (role : Text) → (m.role ≐ role) ≡ true → said m ≡ said_by role m
      as_role role e = ap (λ r. said_by r m) (≐_sound m.role role e)

  held-read_messages :
      (c : Conversation ContentBlock) (ms : List ChatMessage)
      → Ensures (read_messages json c ms) (λ d. held label d ≡ held label c ++ trace ms)
  unfolding read_messages trace
  held-read_messages c [] = sym (append-nil (held label c))
  held-read_messages c (m ∷ ms) =
      Ensures->>= (λ d. held label d ≡ held label c ++ trace (m ∷ ms))
        (λ d. held label d ≡ held label c ++ said m) (read_message json c m)
        (λ d. read_messages json d ms) (held-read_message c m)
        (λ d h. next d h (held-read_messages d ms))
    where
      next :
          (d : Conversation ContentBlock)
          → held label d ≡ held label c ++ said m
          → Ensures (read_messages json d ms) (λ f. held label f ≡ held label d ++ trace ms)
          → Ensures (read_messages json d ms) (λ f. held label f ≡ held label c ++ trace (m ∷ ms))
      next d h rest =
          subst (λ l. Ensures (read_messages json d ms) (λ f. held label f ≡ l))
            (ap (λ l. l ++ trace ms) h ∙ append_assoc (held label c) (said m) (trace ms)) rest

  -- A Messages request that `OpenAIToAnthropic` makes holds each tool call and each tool result of the
  -- chat request once, and in the same order.
  pub labels_in-open_ai_to_anthropic :
      (req : ChatRequest) (model_name : Text) {out : MessagesRequest}
      → open_ai_to_anthropic json req model_name ≡ ok out
      → labels_in label out.messages ≡ trace req.messages
  unfolding open_ai_to_anthropic trace held labels_in
  labels_in-open_ai_to_anthropic req model_name h =
      Ensures-eq Kept (open_ai_to_anthropic json req model_name)
        (Ensures-all Kept (parse_stop json req.stop) _ (λ stops.
          Ensures->>= Kept (λ d. held label d ≡ trace req.messages)
            (read_messages json start req.messages) _ (held-read_messages start req.messages)
            (λ d read.
              Ensures->>= Kept (λ out. out ≡ (flush_tool_results d).turns)
                (require_turns (flush_tool_results d).turns) _
                (same-require_turns (flush_tool_results d).turns)
                (λ messages same.
                  Ensures-all Kept (map_tool_choice json req.tool_choice) _ (λ choice.
                    ap (λ ts. labels_in label ts) same ∙ labels_in-flush label d ∙ read)))))
        h
    where
      Kept : MessagesRequest → Type 0
      Kept out = labels_in label out.messages ≡ trace req.messages

      start : Conversation ContentBlock
      start = silence
