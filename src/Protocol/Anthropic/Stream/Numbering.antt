-- ===== src/Protocol/Anthropic/Stream/Numbering.antt =====
-- internal/protocol/anthropic/stream.go: the indices of the tool calls that a stream writes.
use astreo_gateway.Base.{
  All, map, ◌++◌, ◌∷◌, [], List, some, none, Option, Bool, ◌∙◌, ap, sym, refl, ◌≡◌, ℕ, Text,
}
use astreo_gateway.Protocol.Anthropic.{StreamEvent}
use astreo_gateway.Protocol.Anthropic.Stream.{handle, handled, initial, Stream}
use mathlib.Core.Path.{subst}
use mathlib.Core.List.{Memᴰ}
use astreo_gateway.Json.{Json}
use astreo_gateway.Protocol.EventStream.{Emit, read_events}
use astreo_gateway.Protocol.EventStream.Indices.{indices_in, indices_in-append}
use astreo_gateway.Protocol.EventStream.Payloads.{run, payloads, read_events-run}
use astreo_gateway.Protocol.Anthropic.Stream.Steps.{
  IsNumbered, initial-IsNumbered, IsStep, quiet-IsStep, on_event-IsStep,
}

module _ (json : Json) (model : Text) (include_usage : Bool) where
  module _ (unmarshal_event : Text → Option StreamEvent) where
    abbrev on_text : Stream → Text → Stream × List Emit
    on_text = handle json model include_usage unmarshal_event

    -- the block of an event, with each index that the event makes the translator write
    abbrev block_of : Option StreamEvent → ℕ
    block_of none = 0
    block_of (some ev) = ev.index

    unfoldable pub numbers : Stream → List Text → List (ℕ × ℕ)
    numbers s [] = []
    numbers s (p ∷ ps) =
        map (λ i. (block_of (unmarshal_event p), i)) (indices_in (on_text s p).1)
        ++ numbers (on_text s p).0 ps

    handled-IsStep :
        (s : Stream) (o : Option StreamEvent)
        → IsNumbered s
        → IsStep s (block_of o) (handled json model include_usage s o)
    unfolding handled indices_in
    handled-IsStep s none n = quiet-IsStep json model include_usage s s 0 [] refl refl refl n
    handled-IsStep s (some ev) n = on_event-IsStep json model include_usage s ev n

    handle-IsStep :
        (s : Stream) (p : Text)
        → IsNumbered s
        → IsStep s (block_of (unmarshal_event p)) (on_text s p)
    unfolding handle
    handle-IsStep s p n = handled-IsStep s (unmarshal_event p) n

    -- what a run leaves: all the numbers that it writes are in the map
    record IsRun (s last : Stream) (written : List (ℕ × ℕ)) : Type 0 where
      numbered : IsNumbered last
      kept : (q : ℕ × ℕ) → Memᴰ q s.tool_index → Memᴰ q last.tool_index
      owned : All (λ q. Memᴰ q last.tool_index) written

    owned-append :
        (last : Stream) (block : ℕ) (is : List ℕ) (rest : List (ℕ × ℕ))
        → All (λ i. Memᴰ (block, i) last.tool_index) is
        → All (λ q. Memᴰ q last.tool_index) rest
        → All (λ q. Memᴰ q last.tool_index) (map (λ i. (block, i)) is ++ rest)
    owned-append last block [] rest h k = k
    owned-append last block (i ∷ is) rest h k = (h.0, owned-append last block is rest h.1 k)

    owned-kept :
        (now last : Stream) (block : ℕ) (is : List ℕ)
        → ((q : ℕ × ℕ) → Memᴰ q now.tool_index → Memᴰ q last.tool_index)
        → All (λ i. Memᴰ (block, i) now.tool_index) is
        → All (λ i. Memᴰ (block, i) last.tool_index) is
    owned-kept now last block [] kept h = tt
    owned-kept now last block (i ∷ is) kept h =
        (kept (block, i) h.0, owned-kept now last block is kept h.1)

    run-IsRun :
        (s : Stream) (ps : List Text) → IsNumbered s → IsRun s (run on_text s ps).0 (numbers s ps)
    unfolding run numbers
    run-IsRun s [] n = record { numbered = n; kept = λ q m. m; owned = tt }
    run-IsRun s (p ∷ ps) n =
        let step = handle-IsStep s p n in
        let later = run-IsRun (on_text s p).0 ps step.numbered in
        record {
          numbered = later.numbered;
          kept = λ q m. later.kept q (step.kept q m);
          owned =
              owned-append (run on_text (on_text s p).0 ps).0 (block_of (unmarshal_event p))
                (indices_in (on_text s p).1) _
                (owned-kept (on_text s p).0 (run on_text (on_text s p).0 ps).0
                  (block_of (unmarshal_event p)) (indices_in (on_text s p).1) later.kept step.owned)
                later.owned;
        }

    second_of : List (ℕ × ℕ) → List ℕ
    second_of = map (λ q. q.1)

    second_of-numbers :
        (s : Stream) (ps : List Text) → second_of (numbers s ps) ≡ indices_in (run on_text s ps).1
    unfolding numbers run second_of indices_in
    second_of-numbers s [] = refl
    second_of-numbers s (p ∷ ps) =
        second_of-map (block_of (unmarshal_event p)) (indices_in (on_text s p).1) _
        ∙ ap (λ l. indices_in (on_text s p).1 ++ l) (second_of-numbers (on_text s p).0 ps)
        ∙ sym (indices_in-append (on_text s p).1 (run on_text (on_text s p).0 ps).1)
      where
        second_of-map :
            (block : ℕ) (is : List ℕ) (rest : List (ℕ × ℕ))
            → second_of (map (λ i. (block, i)) is ++ rest) ≡ is ++ second_of rest
        second_of-map block [] rest = refl
        second_of-map block (i ∷ is) rest = ap (λ l. i ∷ l) (second_of-map block is rest)

    -- `written` pairs each index that the chunks `emits` hold with the content block it stands for,
    -- and no two blocks share an index
    pub record IsNumbering (written : List (ℕ × ℕ)) (emits : List Emit) : Type 0 where
      pub same : map (λ q. q.1) written ≡ indices_in emits
      pub distinct : (b c index : ℕ) → Memᴰ (b, index) written → Memᴰ (c, index) written → b ≡ c

    all_memᴰ :
        (last : Stream) (q : ℕ × ℕ) (written : List (ℕ × ℕ))
        → All (λ q. Memᴰ q last.tool_index) written
        → Memᴰ q written
        → Memᴰ q last.tool_index
    all_memᴰ last q [] h m = elim m [ ]
    all_memᴰ last q (r ∷ written) h (Memᴰ.head e) = subst (λ x. Memᴰ x last.tool_index) (sym e) h.0
    all_memᴰ last q (r ∷ written) h (Memᴰ.tail m) = all_memᴰ last q written h.1 m

    -- Whatever lines Anthropic sends: the indices of the tool calls in the chunks that the translator
    -- writes are those of the pairs of a content block and an index that its events give rise to, and
    -- different content blocks have different indices.
    pub read_events-IsNumbering :
        (trim : Text → Text) (lines : List Text)
        → IsNumbering
            (numbers initial (payloads trim [] lines))
            (read_events trim on_text initial [] lines).1
    unfolding second_of
    read_events-IsNumbering trim lines =
        subst
          (λ (r : Stream × List Emit). IsNumbering (numbers initial (payloads trim [] lines)) r.1)
          (sym (read_events-run on_text trim initial [] lines))
          (record {
            same = second_of-numbers initial (payloads trim [] lines);
            distinct = λ b c i m k.
                done.numbered.distinct b c i
                  (all_memᴰ (run on_text initial (payloads trim [] lines)).0 (b, i) _ done.owned m)
                  (all_memᴰ (run on_text initial (payloads trim [] lines)).0 (c, i) _ done.owned k);
          })
      where
        done :
            IsRun initial
              (run on_text initial (payloads trim [] lines)).0
              (numbers initial (payloads trim [] lines))
        done = run-IsRun initial (payloads trim [] lines) initial-IsNumbered
