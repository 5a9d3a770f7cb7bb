-- ===== src/Protocol/Urls.antt =====
-- internal/protocol/{openai,anthropic,gemini}/url.go: the addresses of the upstream endpoints.
use astreo_gateway.Base.{
  if◌then◌else◌, ◌++◌, ◌∷◌, [], List, some, none, Option, ◌||◌, Bool, is_empty, codes, Text, ◌≐◌,
}

-- `net/url`, `path` and `strings`
pub record Urls : Type 0 where
  -- `url.Parse`: the path of the URL, and the URL printed with another path; `none` is an error
  pub parse : Text → Option (Text × (Text → Text))
  -- `path.Join`
  pub join : List Text → Text
  -- `strings.TrimRight(s, "/")` and `strings.TrimSuffix(s, "/")`
  pub trim_slashes : Text → Text
  pub trim_slash : Text → Text
  -- `strings.HasSuffix`
  pub has_suffix : Text → Text → Bool

module _ (urls : Urls) where
  joined : Text → Text → Option (Text × (Text → Text)) → Text
  joined base segment none = urls.trim_slashes base ++ (codes "/" ++ segment)
  joined base segment (some (path, print)) = print (urls.join (path ∷ segment ∷ []))

  -- openai/url.go: `buildOpenAIURL`
  unfoldable pub build_open_ai_url : Text → Text → Text
  unfolding joined
  build_open_ai_url base segment =
      if is_empty base then codes "/" ++ segment else joined base segment (urls.parse base)

  unfoldable pub build_chat_completions_url : Text → Text
  unfolding build_open_ai_url
  build_chat_completions_url base = build_open_ai_url base (codes "chat/completions")

  unfoldable pub build_embeddings_url : Text → Text
  unfolding build_open_ai_url
  build_embeddings_url base = build_open_ai_url base (codes "embeddings")

  unfoldable pub build_open_ai_models_url : Text → Text
  unfolding build_open_ai_url
  build_open_ai_models_url base = build_open_ai_url base (codes "models")

  messages_url : Text → Option (Text × (Text → Text)) → Text
  messages_url base none = urls.trim_slashes base ++ codes "/messages"
  messages_url base (some (path, print)) = print (urls.join (path ∷ codes "messages" ∷ []))

  -- anthropic/url.go: `BuildMessagesURL`
  unfoldable pub build_messages_url : Text → Text
  unfolding messages_url
  build_messages_url base =
      if is_empty base then codes "/messages" else messages_url base (urls.parse base)

  -- the base has the version
  is_v1beta : Text → Bool
  is_v1beta path = urls.has_suffix path (codes "/v1beta") || path ≐ codes "v1beta"

  versioned : Text → Text → Option (Text × (Text → Text)) → Text
  unfolding is_v1beta
  versioned base segment none =
      let trimmed = urls.trim_slashes base in
      if is_v1beta trimmed
      then trimmed ++ (codes "/" ++ segment)
      else trimmed ++ (codes "/v1beta/" ++ segment)
  versioned base segment (some (whole, print)) =
      let path = urls.trim_slash whole in
      print (
        if is_v1beta path
        then urls.join (path ∷ segment ∷ [])
        else urls.join (path ∷ codes "v1beta" ∷ segment ∷ []))

  -- gemini/url.go: `buildGeminiURL`
  unfoldable pub build_gemini_url : Text → Text → Text
  unfolding versioned
  build_gemini_url base segment =
      if is_empty base
      then codes "/v1beta/" ++ segment
      else versioned base segment (urls.parse base)

  unfoldable pub build_generate_content_url : Text → Text → Text
  unfolding build_gemini_url
  build_generate_content_url base model =
      build_gemini_url base (codes "models/" ++ (model ++ codes ":generateContent"))

  unfoldable pub build_stream_generate_content_url : Text → Text → Text
  unfolding build_gemini_url
  build_stream_generate_content_url base model =
      build_gemini_url base (codes "models/" ++ (model ++ codes ":streamGenerateContent"))
      ++ codes "?alt=sse"
