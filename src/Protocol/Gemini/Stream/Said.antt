-- ===== src/Protocol/Gemini/Stream/Said.antt =====
-- internal/protocol/gemini/stream.go: the text of a stream, and that of the same replies without one.
use astreo_gateway.Base.{
  if◌then◌else◌, append-nil, map, ◌++◌, ◌∷◌, [], List, some, none, Option, false, true, Bool, ◌∙◌,
  ap, sym, refl, ◌≡◌, ℕ, is_empty, Text,
}
use astreo_gateway.Protocol.Gemini.Stream.{
  usage_after, write_delta, Progress, on_decoded, on_candidates, write_parts, greeting, write_text,
  unbegun, write_call, on_content, on_payload, on_reply,
}
use astreo_gateway.Json.{Json}
use mathlib.Core.List.{flatten}
use astreo_gateway.Protocol.Gemini.{FunctionCall, Part, Content, Candidate, GenerateContentResponse}
use astreo_gateway.Protocol.Gemini.Response.{part_texts, parts_of, parts_in}
use astreo_gateway.Protocol.EventStream.{Emit, read_events, chunk_of, tool_delta}
use astreo_gateway.Protocol.EventStream.Texts.{text_in, choices_text, text_in-append}
use astreo_gateway.Protocol.EventStream.Payloads.{run, payloads, read_events-run}

-- the text that a reply brings, as `GeminiToOpenAI` reads it
unfoldable pub reply_text : Option GenerateContentResponse → Text
reply_text none = []
reply_text (some reply) = flatten (part_texts (parts_of reply.candidates))

module _ (json : Json) (model : Text) (include_usage : Bool) where
  text-greeting : (b : Bool) → text_in (greeting json model include_usage b) ≡ []
  unfolding greeting write_delta chunk_of text_in choices_text
  text-greeting true = refl
  text-greeting false = refl

  text-write_text : (t : Text) → text_in (write_text json model include_usage t) ≡ t
  unfolding write_text write_delta chunk_of text_in choices_text
  text-write_text [] = refl
  text-write_text (c ∷ t) = append-nil _ ∙ append-nil (c ∷ t)

  text-write_call :
      (n : ℕ) (o : Option FunctionCall) → text_in (write_call json model include_usage n o).1 ≡ []
  unfolding write_call write_delta chunk_of tool_delta text_in choices_text
  text-write_call n none = refl
  text-write_call n (some f) = refl

  part_texts-cons :
      (p : Part) (ps : List Part)
      → flatten (part_texts (p ∷ ps)) ≡ p.text ++ flatten (part_texts ps)
  unfolding part_texts flatten
  part_texts-cons p ps = by_text p.text refl
    where
      by_text :
          (t : Text)
          → p.text ≡ t
          → flatten (if is_empty t then part_texts ps else p.text ∷ part_texts ps)
            ≡ p.text ++ flatten (part_texts ps)
      by_text [] h = ap (λ t. t ++ flatten (part_texts ps)) (sym h)
      by_text (c ∷ t) h = refl

  text-write_parts :
      (n : ℕ) (ps : List Part)
      → text_in (write_parts json model include_usage n ps).1 ≡ flatten (part_texts ps)
  unfolding write_parts text_in part_texts flatten
  text-write_parts n [] = refl
  text-write_parts n (p ∷ ps) =
      text_in-append (write_text json model include_usage p.text) _
      ∙ ap (λ t. t ++ text_in (call.1 ++ later)) (text-write_text p.text)
      ∙ ap (λ t. p.text ++ t) (text_in-append call.1 later)
      ∙ ap (λ t. p.text ++ (t ++ text_in later)) (text-write_call n p.function_call)
      ∙ ap (λ t. p.text ++ t) (text-write_parts call.0 ps)
      ∙ sym (part_texts-cons p ps)
    where
      call : ℕ × List Emit
      call = write_call json model include_usage n p.function_call

      later : List Emit
      later = (write_parts json model include_usage call.0 ps).1

  text-on_content :
      (s : Progress) (o : Option Content)
      → text_in (on_content json model include_usage s o).1 ≡ flatten (part_texts (parts_in o))
  unfolding on_content text_in part_texts parts_in flatten
  text-on_content s none = refl
  text-on_content s (some c) = text-write_parts s.next_tool c.blocks

  text-on_candidates :
      (s : Progress) (cs : List Candidate)
      → text_in (on_candidates json model include_usage s cs).1 ≡ flatten (part_texts (parts_of cs))
  unfolding on_candidates text_in part_texts parts_of flatten
  text-on_candidates s [] = refl
  text-on_candidates s (c ∷ _) = text-on_content _ c.content

  text-on_reply :
      (s : Progress) (reply : GenerateContentResponse)
      → text_in (on_reply json model include_usage s reply).1 ≡ reply_text (some reply)
  unfolding on_reply reply_text
  text-on_reply s reply =
      text_in-append (greeting json model include_usage s.role_sent) _
      ∙ ap (λ t. t ++ text_in (on_candidates json model include_usage begun reply.candidates).1)
          (text-greeting s.role_sent)
      ∙ text-on_candidates begun reply.candidates
    where
      begun : Progress
      begun = record s { role_sent = true; usage = usage_after s.usage reply.usage_metadata }

  text-on_decoded :
      (s : Progress) (o : Option GenerateContentResponse)
      → text_in (on_decoded json model include_usage s o).1 ≡ reply_text o
  unfolding on_decoded reply_text text_in
  text-on_decoded s none = refl
  text-on_decoded s (some reply) = text-on_reply s reply

  module _ (unmarshal_reply : Text → Option GenerateContentResponse) where
    text-run_replies :
        (s : Progress) (ps : List Text)
        → text_in (run (on_payload json model include_usage unmarshal_reply) s ps).1
          ≡ flatten (map (λ p. reply_text (unmarshal_reply p)) ps)
    unfolding run text_in on_payload flatten
    text-run_replies s [] = refl
    text-run_replies s (p ∷ ps) =
        text_in-append first.1 later
        ∙ ap (λ t. t ++ text_in later) (text-on_decoded s (unmarshal_reply p))
        ∙ ap (λ t. reply_text (unmarshal_reply p) ++ t) (text-run_replies first.0 ps)
      where
        first : Progress × List Emit
        first = on_decoded json model include_usage s (unmarshal_reply p)

        later : List Emit
        later = (run (on_payload json model include_usage unmarshal_reply) first.0 ps).1

    -- The text that a client reads off the chunks of a Gemini stream is that which `GeminiToOpenAI` takes
    -- from its replies one by one, all of it and in order, wherever the lines of the events were cut.
    pub text-read_replies :
        (trim : Text → Text) (lines : List Text)
        → text_in
            (read_events trim
              (on_payload json model include_usage unmarshal_reply)
              unbegun
              []
              lines).1
          ≡ flatten (map (λ p. reply_text (unmarshal_reply p)) (payloads trim [] lines))
    text-read_replies trim lines =
        ap (λ (r : Progress × List Emit). text_in r.1)
          (read_events-run (on_payload json model include_usage unmarshal_reply) trim unbegun []
            lines)
        ∙ text-run_replies unbegun (payloads trim [] lines)
