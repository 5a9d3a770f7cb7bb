-- ===== src/Protocol/EventStream/Texts.antt =====
-- The text that a client reads off the chunks of a stream.
use astreo_gateway.Protocol.Core.{ChunkChoice}
use astreo_gateway.Base.{append_assoc, ◌++◌, ◌∷◌, [], List, ◌∙◌, ap, sym, refl, ◌≡◌, Text}
use astreo_gateway.Protocol.EventStream.{Emit, chunk, fault, finished}

unfoldable pub choices_text : List ChunkChoice → Text
choices_text [] = []
choices_text (c ∷ cs) = c.delta.content ++ choices_text cs

unfoldable pub text_in : List Emit → Text
unfolding choices_text
text_in [] = []
text_in (chunk c ∷ es) = choices_text c.choices ++ text_in es
text_in (_ ∷ es) = text_in es

pub text_in-append : (xs ys : List Emit) → text_in (xs ++ ys) ≡ text_in xs ++ text_in ys
unfolding text_in
text_in-append [] ys = refl
text_in-append (chunk c ∷ xs) ys =
    ap (λ t. choices_text c.choices ++ t) (text_in-append xs ys)
    ∙ sym (append_assoc (choices_text c.choices) (text_in xs) (text_in ys))
text_in-append (fault b ∷ xs) ys = text_in-append xs ys
text_in-append (finished ∷ xs) ys = text_in-append xs ys
