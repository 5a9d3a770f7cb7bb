-- ===== src/Protocol/Anthropic/Stream/Steps.antt =====
-- internal/protocol/anthropic/stream.go: the numbers that one event gives, and the indices that it
-- makes the translator write.
use astreo_gateway.Base.{
  All, if-holds, ◌==◌, Bool-cases, arith, ◌∷◌, [], List, some, none, Option, Bool, inl, inr, suc,
  ◌⊎◌, ◌∙◌, ap, sym, refl, ◌≡◌, ◌<◌, ℕ, codes, Text, ◌≐◌,
}
use astreo_gateway.Protocol.Anthropic.{MessagesResponse, StreamDelta, ContentBlock, StreamEvent}
use astreo_gateway.Protocol.Anthropic.Stream.{
  say_delta, input_delta, block_started, tool_index_at, block_delta, started, stopped, initial,
  number_block, on_event, Stream,
}
use mathlib.Core.Path.{subst}
use mathlib.Core.List.{Memᴰ}
use astreo_gateway.Json.{Json}
use astreo_gateway.Protocol.EventStream.{Emit, chunk_of, tool_delta}
use astreo_gateway.Protocol.EventStream.Indices.{indices_in}

-- Every number given is below the next one, and no two blocks have the same; a block that is numbered
-- anew keeps its old number too.
pub record IsNumbered (s : Stream) : Type 0 where
  pub below : (block index : ℕ) → Memᴰ (block, index) s.tool_index → index < s.next_tool
  pub distinct :
      (b c index : ℕ) → Memᴰ (b, index) s.tool_index → Memᴰ (c, index) s.tool_index → b ≡ c

pub initial-IsNumbered : IsNumbered initial
unfolding initial
initial-IsNumbered = record { below = λ b i h. elim h [ ]; distinct = λ b c i h k. elim h [ ] }

memᴰ-cons :
    (b i block n : ℕ) (l : List (ℕ × ℕ))
    → Memᴰ (b, i) ((block, n) ∷ l)
    → ((b ≡ block) × (i ≡ n)) ⊎ Memᴰ (b, i) l
memᴰ-cons b i block n l (Memᴰ.head e) = inl (ap (λ (q : ℕ × ℕ). q.0) e, ap (λ (q : ℕ × ℕ). q.1) e)
memᴰ-cons b i block n l (Memᴰ.tail m) = inr m

number_block-IsNumbered :
    (s : Stream) (block : ℕ) → IsNumbered s → IsNumbered (number_block s block)
unfolding number_block
number_block-IsNumbered s block n = record {
  below = λ b i h. by_below b i (memᴰ-cons b i block s.next_tool s.tool_index h);
  distinct = λ b c i h k.
      by_distinct b c i (memᴰ-cons b i block s.next_tool s.tool_index h)
        (memᴰ-cons c i block s.next_tool s.tool_index k);
}
  where
    by_below :
        (b i : ℕ)
        → ((b ≡ block) × (i ≡ s.next_tool)) ⊎ Memᴰ (b, i) s.tool_index
        → i < suc s.next_tool
    by_below b i (inl (e, f)) = omega (arith, f)
    by_below b i (inr m) = omega (arith, n.below b i m)

    by_distinct :
        (b c i : ℕ)
        → ((b ≡ block) × (i ≡ s.next_tool)) ⊎ Memᴰ (b, i) s.tool_index
        → ((c ≡ block) × (i ≡ s.next_tool)) ⊎ Memᴰ (c, i) s.tool_index
        → b ≡ c
    by_distinct b c i (inl (e, f)) (inl (g, k)) = e ∙ sym g
    by_distinct b c i (inl (e, f)) (inr m) = absurd (omega (arith, f, n.below c i m))
    by_distinct b c i (inr m) (inl (g, k)) = absurd (omega (arith, k, n.below b i m))
    by_distinct b c i (inr m) (inr k) = n.distinct b c i m k

memᴰ-tool_index_at :
    (block i : ℕ) (l : List (ℕ × ℕ)) → tool_index_at block l ≡ some i → Memᴰ (block, i) l
unfolding tool_index_at
memᴰ-tool_index_at block i [] h = cc
memᴰ-tool_index_at block i ((j, v) ∷ l) h = elim (Bool-cases (j == block)) [
  | inl e ↦
      let same : j ≡ block = ground (arith, e) in
      let value : v ≡ i = ground (arith, e) in
      Memᴰ.head (ap (λ x. (x, i)) (sym same) ∙ ap (λ x. (j, x)) (sym value))
  | inr e ↦ Memᴰ.tail (memᴰ-tool_index_at block i l (ground (arith, e)))
]

-- An event of the content block `block` takes `s` to `r.0` and writes `r.1`: no number is taken back,
-- and each index that is written is one of the block's.
pub record IsStep (s : Stream) (block : ℕ) (r : Stream × List Emit) : Type 0 where
  pub numbered : IsNumbered r.0
  pub kept : (q : ℕ × ℕ) → Memᴰ q s.tool_index → Memᴰ q r.0.tool_index
  pub owned : All (λ i. Memᴰ (block, i) r.0.tool_index) (indices_in r.1)

module _ (json : Json) (model : Text) (include_usage : Bool) where
  -- a step that writes no tool call
  pub quiet-IsStep :
      (s t : Stream) (block : ℕ) (emits : List Emit)
      → t.tool_index ≡ s.tool_index
      → t.next_tool ≡ s.next_tool
      → indices_in emits ≡ []
      → IsNumbered s
      → IsStep s block (t, emits)
  quiet-IsStep s t block emits e f silent n = record {
    numbered = record {
      below = λ b i h. rw f (n.below b i (rw e at h));
      distinct = λ b c i h k. n.distinct b c i (rw e at h) (rw e at k);
    };
    kept = λ q m. rw e m;
    owned = subst (λ is. All (λ i. Memᴰ (block, i) t.tool_index) is) (sym silent) tt;
  }

  numbered-IsStep :
      (s : Stream) (block : ℕ) (emits : List Emit)
      → indices_in emits ≡ s.next_tool ∷ []
      → IsNumbered s
      → IsStep s block (number_block s block, emits)
  unfolding number_block
  numbered-IsStep s block emits written n = record {
    numbered = number_block-IsNumbered s block n;
    kept = λ q m. Memᴰ.tail m;
    owned =
        subst (λ is. All (λ i. Memᴰ (block, i) ((block, s.next_tool) ∷ s.tool_index)) is)
          (sym written) (Memᴰ.head refl, tt);
  }

  started-IsStep :
      (s : Stream) (block : ℕ) (m : Option MessagesResponse)
      → IsNumbered s
      → IsStep s block (started json model include_usage s m)
  unfolding started say_delta indices_in chunk_of
  started-IsStep s block none n = quiet-IsStep s s block _ refl refl refl n
  started-IsStep s block (some m) n = quiet-IsStep s _ block _ refl refl refl n

  block_started-IsStep :
      (s : Stream) (block : ℕ) (b : Option ContentBlock)
      → IsNumbered s
      → IsStep s block (block_started json model include_usage s block b)
  unfolding block_started say_delta indices_in chunk_of tool_delta
  block_started-IsStep s block none n = quiet-IsStep s s block [] refl refl refl n
  block_started-IsStep s block (some b) n =
      if-holds (IsStep s block) (b.kind ≐ codes "tool_use") _ _
        (λ _. numbered-IsStep s block _ refl n) (λ _. quiet-IsStep s s block [] refl refl refl n)

  input_delta-IsStep :
      (s : Stream) (block : ℕ) (t : Text) (o : Option ℕ)
      → tool_index_at block s.tool_index ≡ o
      → IsNumbered s
      → IsStep s block (input_delta json model include_usage s block t o)
  unfolding input_delta say_delta indices_in chunk_of tool_delta
  input_delta-IsStep s block t none e n = numbered-IsStep s block _ refl n
  input_delta-IsStep s block t (some index) e n = record {
    numbered = n;
    kept = λ q m. m;
    owned = (memᴰ-tool_index_at block index s.tool_index e, tt);
  }

  block_delta-IsStep :
      (s : Stream) (block : ℕ) (d : Option StreamDelta)
      → IsNumbered s
      → IsStep s block (block_delta json model include_usage s block d)
  unfolding block_delta say_delta indices_in chunk_of
  block_delta-IsStep s block none n = quiet-IsStep s s block [] refl refl refl n
  block_delta-IsStep s block (some d) n =
      if-holds (IsStep s block) (d.kind ≐ codes "text_delta") _ _
        (λ _. quiet-IsStep s s block _ refl refl refl n)
        (λ _.
          if-holds (IsStep s block) (d.kind ≐ codes "input_json_delta") _ _
            (λ _.
              input_delta-IsStep s block d.partial_json (tool_index_at block s.tool_index) refl n)
            (λ _. quiet-IsStep s s block [] refl refl refl n))

  pub on_event-IsStep :
      (s : Stream) (ev : StreamEvent)
      → IsNumbered s
      → IsStep s ev.index (on_event json model include_usage s ev)
  unfolding on_event stopped indices_in chunk_of
  on_event-IsStep s ev n =
      if-holds Follows (ev.kind ≐ codes "message_start") _ _
        (λ _. started-IsStep s ev.index ev.message n)
        (λ _.
          if-holds Follows (ev.kind ≐ codes "content_block_start") _ _
            (λ _. block_started-IsStep s ev.index ev.content_block n)
            (λ _.
              if-holds Follows (ev.kind ≐ codes "content_block_delta") _ _
                (λ _. block_delta-IsStep s ev.index ev.delta n)
                (λ _.
                  if-holds Follows (ev.kind ≐ codes "message_delta") _ _
                    (λ _. quiet-IsStep s _ ev.index [] refl refl refl n)
                    (λ _.
                      if-holds Follows (ev.kind ≐ codes "message_stop") _ _ (λ _. quiet s _ refl)
                        (λ _.
                          if-holds Follows (ev.kind ≐ codes "error") _ _ (λ _. quiet s _ refl)
                            (λ _. quiet s [] refl))))))
    where
      Follows : Stream × List Emit → Type 0
      Follows = IsStep s ev.index

      quiet :
          (t : Stream) (emits : List Emit)
          → indices_in emits ≡ []
          → IsStep s ev.index
              (record t { tool_index = s.tool_index; next_tool = s.next_tool }, emits)
      quiet t emits silent = quiet-IsStep s _ ev.index emits refl refl silent n
