-- ===== src/Protocol/Anthropic/Stream/Said.antt =====
-- internal/protocol/anthropic/stream.go: the text of a stream reaches the client whole.
use astreo_gateway.Base.{
  if-holds, Bool-cases, if◌then◌else◌, append-nil, map, ◌++◌, ◌∷◌, [], List, some, none, Option,
  false, true, Bool, inr, inl, ◌∙◌, ap, sym, refl, ◌≡◌, ℕ, ≐_sound, codes, Text, ◌≐◌,
}
use astreo_gateway.Protocol.EventStream.Texts.{choices_text, text_in-append, text_in}
use astreo_gateway.Protocol.Anthropic.Stream.{
  handle, handled, initial, number_block, tool_index_at, Stream, say_delta, started, stopped,
  input_delta, block_delta, block_started, on_event,
}
use astreo_gateway.Protocol.Anthropic.{ContentBlock, MessagesResponse, StreamDelta, StreamEvent}
use astreo_gateway.Json.{Json}
use mathlib.Core.List.{flatten}
use astreo_gateway.Protocol.EventStream.{tool_delta, chunk_of, Emit, read_events}
use astreo_gateway.Protocol.EventStream.Payloads.{run, payloads, read_events-run}

-- the text that an event brings
unfoldable pub delta_text : Option StreamDelta → Text
delta_text none = []
delta_text (some d) = if d.kind ≐ codes "text_delta" then d.text else []

unfoldable pub event_text_by : Text → StreamEvent → Text
event_text_by kind ev = if kind ≐ codes "content_block_delta" then delta_text ev.delta else []

unfoldable pub event_text : StreamEvent → Text
event_text ev = event_text_by ev.kind ev

unfoldable pub handled_text : Option StreamEvent → Text
handled_text none = []
handled_text (some ev) = event_text ev

module _ (json : Json) (model : Text) (include_usage : Bool) where
  text-started :
      (s : Stream) (m : Option MessagesResponse)
      → text_in (started json model include_usage s m).1 ≡ []
  unfolding started say_delta chunk_of text_in
  text-started s none = refl
  text-started s (some m) = refl

  text-block_started :
      (s : Stream) (block : ℕ) (b : Option ContentBlock)
      → text_in (block_started json model include_usage s block b).1 ≡ []
  unfolding block_started say_delta chunk_of text_in tool_delta number_block
  text-block_started s block none = refl
  text-block_started s block (some b) =
      if-holds (λ (r : Stream × List Emit). text_in r.1 ≡ []) (b.kind ≐ codes "tool_use") _ _
        (λ _. refl) (λ _. refl)

  text-input_delta :
      (s : Stream) (block : ℕ) (t : Text) (o : Option ℕ)
      → text_in (input_delta json model include_usage s block t o).1 ≡ []
  unfolding input_delta say_delta chunk_of text_in tool_delta number_block
  text-input_delta s block t none = refl
  text-input_delta s block t (some index) = refl

  text-block_delta :
      (s : Stream) (block : ℕ) (d : Option StreamDelta)
      → text_in (block_delta json model include_usage s block d).1 ≡ delta_text d
  unfolding block_delta say_delta chunk_of text_in choices_text delta_text
  text-block_delta s block none = refl
  text-block_delta s block (some d) = elim (Bool-cases (d.kind ≐ codes "text_delta")) [
    | inl e ↦ rw (e, delta_text) (append-nil (d.text ++ []) ∙ append-nil d.text)
    | inr e ↦
        rw (e, delta_text)
          (if-holds (λ (r : Stream × List Emit). text_in r.1 ≡ [])
            (d.kind ≐ codes "input_json_delta") _ _
            (λ _. text-input_delta s block d.partial_json (tool_index_at block s.tool_index))
            (λ _. refl))
  ]

  text-on_event :
      (s : Stream) (ev : StreamEvent)
      → text_in (on_event json model include_usage s ev).1 ≡ event_text ev
  unfolding on_event event_text event_text_by ◌≐◌ text_in stopped chunk_of
  text-on_event s ev =
      if-holds Brings (ev.kind ≐ codes "message_start") _ _
        (λ e. text-started s ev.message ∙ sym (as_kind _ e))
        (λ _.
          if-holds Brings (ev.kind ≐ codes "content_block_start") _ _
            (λ e. text-block_started s ev.index ev.content_block ∙ sym (as_kind _ e))
            (λ _.
              if-holds Brings (ev.kind ≐ codes "content_block_delta") _ _
                (λ e. text-block_delta s ev.index ev.delta ∙ sym (as_kind _ e))
                (λ other.
                  if-holds Brings (ev.kind ≐ codes "message_delta") _ _ (λ _. silent other)
                    (λ _.
                      if-holds Brings (ev.kind ≐ codes "message_stop") _ _ (λ _. silent other)
                        (λ _.
                          if-holds Brings (ev.kind ≐ codes "error") _ _ (λ _. silent other)
                            (λ _. silent other))))))
    where
      Brings : Stream × List Emit → Type 0
      Brings r = text_in r.1 ≡ event_text ev

      as_kind : (kind : Text) → (ev.kind ≐ kind) ≡ true → event_text ev ≡ event_text_by kind ev
      as_kind kind e = ap (λ k. event_text_by k ev) (≐_sound ev.kind kind e)

      silent : (ev.kind ≐ codes "content_block_delta") ≡ false → [] ≡ event_text ev
      silent other = ap (λ b. if b then delta_text ev.delta else []) (sym other)

  text-handled :
      (s : Stream) (o : Option StreamEvent)
      → text_in (handled json model include_usage s o).1 ≡ handled_text o
  unfolding handled handled_text text_in
  text-handled s none = refl
  text-handled s (some ev) = text-on_event s ev

  module _ (unmarshal_event : Text → Option StreamEvent) where
    text-run :
        (s : Stream) (ps : List Text)
        → text_in (run (handle json model include_usage unmarshal_event) s ps).1
          ≡ flatten (map (λ p. handled_text (unmarshal_event p)) ps)
    unfolding run text_in flatten handle
    text-run s [] = refl
    text-run s (p ∷ ps) =
        text_in-append (handle json model include_usage unmarshal_event s p).1
          (run (handle json model include_usage unmarshal_event)
            (handle json model include_usage unmarshal_event s p).0 ps).1
        ∙ ap
            (λ t.
              t
              ++ text_in
                  (run (handle json model include_usage unmarshal_event)
                    (handle json model include_usage unmarshal_event s p).0 ps).1)
            (text-handled s (unmarshal_event p))
        ∙ ap (λ t. handled_text (unmarshal_event p) ++ t)
            (text-run (handle json model include_usage unmarshal_event s p).0 ps)

    -- The text that a client reads off the chunks of a stream is that of the text deltas which
    -- Anthropic sent, all of them and in their order, wherever the lines of its events were cut.
    pub text-read_events :
        (trim : Text → Text) (lines : List Text)
        → text_in
            (read_events trim (handle json model include_usage unmarshal_event) initial [] lines).1
          ≡ flatten (map (λ p. handled_text (unmarshal_event p)) (payloads trim [] lines))
    text-read_events trim lines =
        ap (λ (r : Stream × List Emit). text_in r.1)
          (read_events-run (handle json model include_usage unmarshal_event) trim initial [] lines)
        ∙ text-run initial (payloads trim [] lines)
