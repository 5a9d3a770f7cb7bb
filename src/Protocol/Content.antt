-- ===== src/Protocol/Content.antt =====
-- internal/protocol/anthropic/request.go and internal/protocol/gemini/request.go: what both declare
-- alike, the reading of `stop` and of the text of a message.
use astreo_gateway.Base.{
  if◌then◌else◌, ◌++◌, ◌∷◌, [], List, some, none, ◌||◌, Bool, is_empty, codes, Text, ◌≐◌, wrap,
  ◌>>=◌, err, ok, Result, lookup,
}
use astreo_gateway.Json.{Json}
use mathlib.Core.List.{flatten}

-- `len(raw) == 0 || string(raw) == "null"`
unfoldable pub is_absent : Text → Bool
is_absent raw = is_empty raw || raw ≐ codes "null"

unfoldable pub or_no_text : Result Text Text → Text
or_no_text (ok s) = s
or_no_text (err _) = []

-- `_ = json.Unmarshal(p[key], &s)`, with the empty string where that fails
unfoldable pub string_at : Json → Text → List (Text × Text) → Text
unfolding or_no_text
string_at json key p = elim (lookup key p) [
  | none ↦ []
  | some raw ↦ or_no_text (json.unmarshal_string raw)
]

-- `strings.Join(parts, sep)`
unfoldable pub join_with : Text → List Text → Text
join_with sep [] = []
join_with sep (t ∷ []) = t
join_with sep (t ∷ u ∷ ts) = t ++ (sep ++ join_with sep (u ∷ ts))

unfoldable pub is_image : Text → Bool
is_image kind = kind ≐ codes "image_url" || kind ≐ codes "image"

unfoldable pub is_text : Text → Bool
is_text kind = kind ≐ codes "text" || kind ≐ []

abbrev pub no_images : Text
no_images = codes "image inputs not supported in v1"

unfoldable pub or_nothing : Result Text Text → Text
or_nothing (ok t) = t
or_nothing (err _) = []

-- `content` of the message: the texts joined, as a JSON string
unfoldable pub content_of : Json → List Text → Text
unfolding or_nothing
content_of json [] = codes "\"\""
content_of json (t ∷ ts) = or_nothing (json.marshal_string (flatten (t ∷ ts)))

module _ (json : Json) where
  stops_of : Text → Result Text Text → Result Text (List Text)
  stops_of raw (ok s) = ok (if is_empty s then [] else s ∷ [])
  stops_of raw (err _) = wrap (codes "invalid stop: ") (json.unmarshal_strings raw)

  -- `parseStop`
  unfoldable pub parse_stop : Text → Result Text (List Text)
  unfolding is_absent stops_of
  parse_stop raw = if is_absent raw then ok [] else stops_of raw (json.unmarshal_string raw)

  texts_of : List (List (Text × Text)) → Result Text Text
  unfolding string_at is_image is_text
  texts_of [] = ok []
  texts_of (p ∷ ps) =
      let kind = string_at json (codes "type") p in
      let rest = texts_of ps in
      if is_image kind
      then err no_images
      else if is_text kind
      then (rest >>= λ later. ok (string_at json (codes "text") p ++ later))
      else rest

  text_of : Text → Result Text Text → Result Text Text
  unfolding texts_of
  text_of raw (ok s) = ok s
  text_of raw (err _) =
      wrap (codes "invalid content: ") (json.unmarshal_parts raw) >>= λ parts. texts_of parts

  -- `contentToText`
  unfoldable pub content_to_text : Text → Result Text Text
  unfolding is_absent text_of
  content_to_text raw = if is_absent raw then ok [] else text_of raw (json.unmarshal_string raw)
