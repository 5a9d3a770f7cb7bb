-- ===== src/Protocol/Gemini/Request.antt =====
-- internal/protocol/gemini/request.go: `OpenAIToGemini`, from a chat request to a request of
-- `generateContent`. A negative count of tokens is 0 here: the code treats both alike.
pub mod Acceptable
use astreo_gateway.Base.{
  if◌then◌else◌, ltb, map, ◌++◌, ◌∷◌, [], List, some, none, Option, ◌&&◌, not, ℕ, is_empty, codes,
  Text, ◌≐◌, wrap, ◌>>=◌, err, ok, Result, insert, lookup,
}
use astreo_gateway.Protocol.Turns.{
  say, add_pending, require_turns, add_system, silence, flush_tool_results, Conversation,
}
use astreo_gateway.Protocol.Content.{
  content_to_text, parse_stop, no_images, string_at, is_text, join_with, or_nothing, is_absent,
  is_image,
}
use astreo_gateway.Protocol.Gemini.{
  Part, Content, FunctionDeclaration, ToolConfig, GenerateContentRequest, text_part,
}
use astreo_gateway.Protocol.Gemini
use astreo_gateway.Json.{Json}
use astreo_gateway.Protocol.Core.{ChatRequest, ToolCall, ChatMessage, Tool}

-- the variables of the loop; `names` is `toolNameByID`
pub record Reading : Type 0 where
  pub conversation : Conversation Part
  pub names : List (Text × Text)

unfoldable pub unread : Reading
unread = record { conversation = silence; names = [] }

unfoldable pub default_max_output_tokens : ℕ
default_max_output_tokens = 8192

unfoldable pub chosen_output_tokens : Option ℕ → ℕ
unfolding default_max_output_tokens
chosen_output_tokens none = default_max_output_tokens
chosen_output_tokens (some n) = if ltb 0 n then n else default_max_output_tokens

unfoldable pub or_empty_part : List Part → List Part
or_empty_part [] = text_part [] ∷ []
or_empty_part (p ∷ ps) = p ∷ ps

-- `if tc.ID != "" && tc.Function.Name != ""`
unfoldable pub learn : List (Text × Text) → ToolCall → List (Text × Text)
learn names tc =
    if not (is_empty tc.id) && not (is_empty tc.function.name)
    then insert tc.id tc.function.name names
    else names

unfoldable pub learn_all : List (Text × Text) → List ToolCall → List (Text × Text)
unfolding learn
learn_all names [] = names
learn_all names (tc ∷ tcs) = learn_all (learn names tc) tcs

known_as : Option Text → Text
known_as none = []
known_as (some name) = name

-- the name of the function whose result a message is
unfoldable pub result_name : List (Text × Text) → ChatMessage → Text
unfolding known_as
result_name names m =
    let known = known_as (lookup m.tool_call_id names) in
    if not (is_empty m.name) then m.name else if is_empty known then m.tool_call_id else known

declaration : Tool → FunctionDeclaration
declaration t = record {
  name = t.function.name;
  description = t.function.description;
  parameters =
      if is_empty t.function.parameters
      then codes "{\"type\":\"object\",\"properties\":{}}"
      else t.function.parameters;
}

system_of : List Text → Option Content
system_of [] = none
system_of (t ∷ ts) =
    some (record { role = []; blocks = text_part (join_with (codes "\n\n") (t ∷ ts)) ∷ [] })

tools_of : List Tool → List Gemini.Tool
unfolding declaration
tools_of [] = []
tools_of (t ∷ ts) = record { function_declarations = map declaration (t ∷ ts) } ∷ []

module _ (json : Json) where
  gemini_part : List (Text × Text) → Result Text Part
  unfolding is_image is_text string_at
  gemini_part p =
      let kind = string_at json (codes "type") p in
      if is_image kind
      then err no_images
      else if is_text kind
      then ok (text_part (string_at json (codes "text") p))
      else err (codes "unsupported content type: " ++ kind)

  unfoldable pub gemini_parts : List (List (Text × Text)) → Result Text (List Part)
  unfolding gemini_part
  gemini_parts [] = ok []
  gemini_parts (p ∷ ps) = gemini_part p >>= λ b. gemini_parts ps >>= λ bs. ok (b ∷ bs)

  unfoldable pub parts_of_content : Text → Result Text Text → Result Text (List Part)
  unfolding gemini_parts or_empty_part
  parts_of_content raw (ok s) = ok (text_part s ∷ [])
  parts_of_content raw (err _) =
      wrap (codes "invalid content: ") (json.unmarshal_parts raw) >>= λ parts.
      gemini_parts parts >>= λ out. ok (or_empty_part out)

  -- `openAIContentToParts`
  unfoldable pub content_to_parts : Text → Result Text (List Part)
  unfolding is_absent parts_of_content
  content_to_parts raw =
      if is_absent raw
      then ok (text_part [] ∷ [])
      else parts_of_content raw (json.unmarshal_string raw)

  unfoldable pub call_part : ToolCall → Part
  call_part tc = record (text_part []) {
    function_call = some (record {
      name = tc.function.name;
      args = if json.is_valid tc.function.arguments then tc.function.arguments else codes "{}";
    });
  }

  unfoldable pub response_part : Text → Text → Part
  unfolding or_nothing
  response_part name t = record (text_part []) {
    function_response = some (record {
      name = name;
      response = or_nothing (json.marshal_strings ((codes "result", t) ∷ []));
    });
  }

  -- the parts of an assistant's message
  unfoldable pub assistant_parts : ChatMessage → Result Text (List Part)
  unfolding content_to_parts call_part
  assistant_parts m =
      (if is_absent m.content then ok [] else content_to_parts m.content) >>= λ parts.
      ok (or_empty_part (parts ++ map call_part m.tool_calls))

  -- the body of the loop
  unfoldable pub read_turn : Reading → ChatMessage → Result Text Reading
  unfolding assistant_parts response_part result_name flush_tool_results add_system add_pending say
      learn_all
  read_turn r m =
      let c = r.conversation in
      if m.role ≐ codes "system"
      then (content_to_text json m.content >>= λ t. ok (record r { conversation = add_system c t }))
      else if m.role ≐ codes "user"
      then (content_to_parts m.content >>= λ ps.
          ok (record r { conversation = say (flush_tool_results c) (codes "user") ps }))
      else if m.role ≐ codes "assistant"
      then (assistant_parts m >>= λ ps. ok (record {
        conversation = say (flush_tool_results c) (codes "model") ps;
        names = learn_all r.names m.tool_calls;
      }))
      else if m.role ≐ codes "tool"
      then (content_to_text json m.content >>= λ t.
          ok (record r { conversation = add_pending c (response_part (result_name r.names m) t) }))
      else err (codes "unsupported role: " ++ m.role)

  unfoldable pub read_turns : Reading → List ChatMessage → Result Text Reading
  unfolding read_turn
  read_turns r [] = ok r
  read_turns r (m ∷ ms) = read_turn r m >>= λ s. read_turns s ms

  mode_only : Text → ToolConfig
  mode_only mode = record { mode = mode; allowed_function_names = [] }

  named_mode : Text → Result Text ToolConfig
  unfolding mode_only
  named_mode s =
      if s ≐ codes "auto"
      then ok (mode_only (codes "AUTO"))
      else if s ≐ codes "required"
      then ok (mode_only (codes "ANY"))
      else if s ≐ codes "none"
      then ok (mode_only (codes "NONE"))
      else err (codes "unsupported tool_choice: " ++ s)

  object_mode : Text → Text → ToolConfig
  unfolding mode_only
  object_mode kind name =
      if kind ≐ codes "function" && not (is_empty name)
      then record { mode = codes "ANY"; allowed_function_names = name ∷ [] }
      else mode_only (codes "AUTO")

  mode_of : Text → Result Text Text → Result Text ToolConfig
  unfolding named_mode object_mode
  mode_of raw (ok s) = named_mode s
  mode_of raw (err _) =
      wrap (codes "invalid tool_choice: ") (json.unmarshal_tool_choice raw) >>= λ o.
      ok (object_mode o.0 o.1)

  -- `mapToolChoice`, where there is a choice
  unfoldable pub tool_config_of : Text → Result Text (Option ToolConfig)
  unfolding mode_of
  tool_config_of raw =
      if is_empty raw
      then ok none
      else mode_of raw (json.unmarshal_string raw) >>= λ config. ok (some config)

  -- `OpenAIToGemini`
  unfoldable pub open_ai_to_gemini : ChatRequest → Result Text GenerateContentRequest
  unfolding read_turns unread flush_tool_results chosen_output_tokens require_turns tool_config_of
      tools_of system_of
  open_ai_to_gemini req = do
    stops ← parse_stop json req.stop
    read ← read_turns unread req.messages
    contents ← require_turns (flush_tool_results read.conversation).turns
    config ← tool_config_of req.tool_choice
    ok (record {
      contents = contents;
      system_instruction = system_of read.conversation.system_parts;
      generation_config = record {
        temperature = req.temperature;
        top_p = req.top_p;
        max_output_tokens = chosen_output_tokens req.max_tokens;
        stop_sequences = stops;
      };
      tools = tools_of req.tools;
      tool_config = config;
    })
