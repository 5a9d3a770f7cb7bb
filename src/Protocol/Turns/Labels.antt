-- ===== src/Protocol/Turns/Labels.antt =====
-- What a conversation says: the labels of its blocks, in order, those that wait included.
use astreo_gateway.Base.{
  arith, append_assoc, append-nil, ◌++◌, ◌∷◌, [], List, ◌∙◌, ap, sym, refl, ◌≡◌, codes, Text,
  Ensures,
}
use astreo_gateway.Protocol.Turns.{
  flush_pending, Turn, require_turns, add_system, flush_tool_results, say, add_pending,
  Conversation,
}

-- `label` is what a block stands for
module _ {B L : Type 0} (label : B → List L) where
  unfoldable pub labels : List B → List L
  labels [] = []
  labels (b ∷ bs) = label b ++ labels bs

  -- the labels of the turns, in order
  unfoldable pub labels_in : List (Turn B) → List L
  unfolding labels
  labels_in [] = []
  labels_in (m ∷ ms) = labels m.blocks ++ labels_in ms

  pub labels-append : (xs ys : List B) → labels (xs ++ ys) ≡ labels xs ++ labels ys
  unfolding labels
  labels-append [] ys = refl
  labels-append (b ∷ xs) ys =
      ap (λ l. label b ++ l) (labels-append xs ys)
      ∙ sym (append_assoc (label b) (labels xs) (labels ys))

  labels_in-append : (xs ys : List (Turn B)) → labels_in (xs ++ ys) ≡ labels_in xs ++ labels_in ys
  unfolding labels_in
  labels_in-append [] ys = refl
  labels_in-append (m ∷ xs) ys =
      ap (λ l. labels m.blocks ++ l) (labels_in-append xs ys)
      ∙ sym (append_assoc (labels m.blocks) (labels_in xs) (labels_in ys))

  -- all that a conversation holds, the results that wait included
  unfoldable pub held : Conversation B → List L
  held c = labels_in c.turns ++ labels c.pending

  labels_in-snoc :
      (ms : List (Turn B)) (role : Text) (bs : List B)
      → labels_in (ms ++ record { role = role; blocks = bs } ∷ []) ≡ labels_in ms ++ labels bs
  unfolding labels_in
  labels_in-snoc ms role bs =
      labels_in-append ms _ ∙ ap (λ l. labels_in ms ++ l) (append-nil (labels bs))

  held-say :
      (c : Conversation B) (role : Text) (bs : List B)
      → c.pending ≡ []
      → held (say c role bs) ≡ held c ++ labels bs
  unfolding held say labels
  held-say c role bs none_left =
      rw (none_left, append-nil (labels_in c.turns)) (append-nil _ ∙ labels_in-snoc c.turns role bs)

  held-flush : (c : Conversation B) → held (flush_tool_results c) ≡ held c
  unfolding held flush_tool_results labels
  held-flush c = by_pending c.pending refl
    where
      by_pending :
          (ps : List B)
          → c.pending ≡ ps
          → labels_in (flush_pending c ps).turns ++ labels (flush_pending c ps).pending
            ≡ labels_in c.turns ++ labels c.pending
      by_pending [] h = refl
      by_pending (b ∷ bs) h =
          append-nil _
          ∙ labels_in-snoc c.turns (codes "user") (b ∷ bs)
          ∙ ap (λ ps. labels_in c.turns ++ labels ps) (sym h)

  pending-flush : (c : Conversation B) → (flush_tool_results c).pending ≡ []
  unfolding flush_tool_results
  pending-flush c = by_pending c.pending refl
    where
      by_pending : (ps : List B) → c.pending ≡ ps → (flush_pending c ps).pending ≡ []
      by_pending [] h = h
      by_pending (b ∷ bs) h = refl

  -- a turn of the user or the assistant adds what its blocks stand for
  pub held-turn :
      (c : Conversation B) (role : Text) (bs : List B)
      → held (say (flush_tool_results c) role bs) ≡ held c ++ labels bs
  held-turn c role bs =
      held-say (flush_tool_results c) role bs (pending-flush c)
      ∙ ap (λ l. l ++ labels bs) (held-flush c)

  pub held-add_pending : (c : Conversation B) (b : B) → held (add_pending c b) ≡ held c ++ label b
  unfolding held add_pending labels
  held-add_pending c b =
      ap (λ l. labels_in c.turns ++ l) (labels-append c.pending (b ∷ []))
      ∙ ap (λ l. labels_in c.turns ++ (labels c.pending ++ l)) (append-nil (label b))
      ∙ sym (append_assoc (labels_in c.turns) (labels c.pending) (label b))

  pub held-add_system : (c : Conversation B) (t : Text) → held (add_system c t) ≡ held c
  unfolding held add_system
  held-add_system c t = ground arith

  pub labels_in-flush : (c : Conversation B) → labels_in (flush_tool_results c).turns ≡ held c
  unfolding held labels
  labels_in-flush c =
      sym (append-nil _)
      ∙ ap (λ ps. labels_in (flush_tool_results c).turns ++ labels ps) (sym (pending-flush c))
      ∙ held-flush c

pub same-require_turns :
    {B : Type 0} (ts : List (Turn B)) → Ensures (require_turns ts) (λ out. out ≡ ts)
unfolding require_turns
same-require_turns [] = tt
same-require_turns (t ∷ ts) = refl
