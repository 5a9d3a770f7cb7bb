-- ===== src/Protocol/Turns/Shape.antt =====
-- The shape of the turns that a loop over the messages builds: who speaks, and that something is said.
use astreo_gateway.Base.{
  All-append, All, if-holds, ◌∷◌, [], List, inl, ◌⊎◌, ◌≢◌, refl, ◌≡◌, is_empty, codes, Text,
  Ensures,
}
use astreo_gateway.Protocol.Turns.{
  Turn, Conversation, say, flush_pending, flush_tool_results, add_system, add_pending,
  require_turns,
}

-- a turn of the user or of `other`, with content
pub record IsTurnOf {B : Type 0} (other : Text) (m : Turn B) : Type 0 where
  pub speaker : (m.role ≡ codes "user") ⊎ (m.role ≡ other)
  pub content : m.blocks ≢ []

module _ {B : Type 0} (other : Text) where
  abbrev pub HasTurns : Conversation B → Type 0
  HasTurns c = All (IsTurnOf other) c.turns

  pub say-HasTurns :
      (c : Conversation B) (role : Text) (bs : List B)
      → HasTurns c
      → (role ≡ codes "user") ⊎ (role ≡ other)
      → bs ≢ []
      → HasTurns (say c role bs)
  unfolding say
  say-HasTurns c role bs h speaker content =
      All-append (IsTurnOf other) c.turns _ h (record { speaker = speaker; content = content }, tt)

  pub flush-HasTurns : (c : Conversation B) → HasTurns c → HasTurns (flush_tool_results c)
  unfolding flush_tool_results
  flush-HasTurns c h = by_pending c.pending
    where
      by_pending : (ps : List B) → HasTurns (flush_pending c ps)
      by_pending [] = h
      by_pending (b ∷ bs) = say-HasTurns c (codes "user") (b ∷ bs) h (inl refl) (λ e. cc)

  -- a turn behind the results that wait
  pub turn-HasTurns :
      (c : Conversation B) (role : Text) (bs : List B)
      → HasTurns c
      → (role ≡ codes "user") ⊎ (role ≡ other)
      → bs ≢ []
      → HasTurns (say (flush_tool_results c) role bs)
  turn-HasTurns c role bs h speaker content =
      say-HasTurns (flush_tool_results c) role bs (flush-HasTurns c h) speaker content

  pub add_system-HasTurns : (c : Conversation B) (t : Text) → HasTurns c → HasTurns (add_system c t)
  unfolding add_system
  add_system-HasTurns c t h = if-holds HasTurns (is_empty t) _ _ (λ _. h) (λ _. h)

  pub add_pending-HasTurns : (c : Conversation B) (b : B) → HasTurns c → HasTurns (add_pending c b)
  unfolding add_pending
  add_pending-HasTurns c b h = h

  pub require_turns-HasTurns :
      (ms : List (Turn B))
      → All (IsTurnOf other) ms
      → Ensures (require_turns ms) (λ out. All (IsTurnOf other) out × (out ≢ []))
  unfolding require_turns
  require_turns-HasTurns [] h = tt
  require_turns-HasTurns (m ∷ ms) h = (h, λ e. cc)
