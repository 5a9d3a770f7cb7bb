-- ===== src/Protocol/Turns.antt =====
-- internal/protocol/anthropic/request.go and internal/protocol/gemini/request.go: what the loops over
-- a chat's messages share. `B` is a block of a message: Anthropic's `ContentBlock`, Gemini's `Part`.
pub mod Labels
pub mod Shape
use astreo_gateway.Base.{if◌then◌else◌, ◌++◌, ◌∷◌, [], List, is_empty, codes, Text, err, ok, Result}

-- `Message` of anthropic/types.go and `Content` of gemini/types.go
pub record Turn (B : Type 0) : Type 0 where
  pub role : Text
  pub blocks : List B

-- the variables of the loop; `pending` are the tool results that wait for the next turn
pub record Conversation (B : Type 0) : Type 0 where
  pub system_parts : List Text
  pub turns : List (Turn B)
  pub pending : List B

module _ {B : Type 0} where
  abbrev pub silence : Conversation B
  silence = record { system_parts = []; turns = []; pending = [] }

  -- `messages = append(messages, Message{Role: role, Content: blocks})`
  unfoldable pub say : Conversation B → Text → List B → Conversation B
  say c role blocks = record c { turns = c.turns ++ record { role = role; blocks = blocks } ∷ [] }

  unfoldable pub flush_pending : Conversation B → List B → Conversation B
  unfolding say
  flush_pending c [] = c
  flush_pending c (b ∷ bs) = record (say c (codes "user") (b ∷ bs)) { pending = [] }

  -- `flushToolResults`
  unfoldable pub flush_tool_results : Conversation B → Conversation B
  unfolding flush_pending
  flush_tool_results c = flush_pending c c.pending

  -- `if text != "" { systemParts = append(systemParts, text) }`
  unfoldable pub add_system : Conversation B → Text → Conversation B
  add_system c t = if is_empty t then c else record c { system_parts = c.system_parts ++ t ∷ [] }

  unfoldable pub add_pending : Conversation B → B → Conversation B
  add_pending c b = record c { pending = c.pending ++ b ∷ [] }

  -- `len(messages) == 0`
  unfoldable pub require_turns : List (Turn B) → Result Text (List (Turn B))
  require_turns [] = err (codes "no messages after filtering system")
  require_turns (t ∷ ts) = ok (t ∷ ts)
