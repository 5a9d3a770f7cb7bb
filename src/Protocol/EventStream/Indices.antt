-- ===== src/Protocol/EventStream/Indices.antt =====
-- internal/protocol: the indices of the tool calls in what a translator writes.
use astreo_gateway.Base.{
  append_assoc, ◌++◌, ◌∷◌, [], List, some, none, Option, ◌∙◌, ap, sym, refl, ◌≡◌, ℕ,
}
use astreo_gateway.Protocol.Core.{ToolCall, ChunkChoice}
use astreo_gateway.Protocol.EventStream.{Emit, chunk, fault, finished}

index_in : Option ℕ → List ℕ
index_in none = []
index_in (some i) = i ∷ []

call_indices : List ToolCall → List ℕ
unfolding index_in
call_indices [] = []
call_indices (c ∷ cs) = index_in c.index ++ call_indices cs

choice_indices : List ChunkChoice → List ℕ
unfolding call_indices
choice_indices [] = []
choice_indices (c ∷ cs) = call_indices c.delta.tool_calls ++ choice_indices cs

-- the indices of the tool calls of the chunks, in order
unfoldable pub indices_in : List Emit → List ℕ
unfolding choice_indices
indices_in [] = []
indices_in (chunk c ∷ es) = choice_indices c.choices ++ indices_in es
indices_in (fault _ ∷ es) = indices_in es
indices_in (finished ∷ es) = indices_in es

pub indices_in-append : (xs ys : List Emit) → indices_in (xs ++ ys) ≡ indices_in xs ++ indices_in ys
unfolding indices_in
indices_in-append [] ys = refl
indices_in-append (chunk c ∷ xs) ys =
    ap (λ l. choice_indices c.choices ++ l) (indices_in-append xs ys)
    ∙ sym (append_assoc (choice_indices c.choices) (indices_in xs) (indices_in ys))
indices_in-append (fault b ∷ xs) ys = indices_in-append xs ys
indices_in-append (finished ∷ xs) ys = indices_in-append xs ys
