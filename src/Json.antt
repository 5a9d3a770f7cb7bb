-- ===== src/Json.antt =====
-- What the program takes from `encoding/json` and `fmt`: a parameter of every function that uses it.
-- A JSON object is the list of its keys and values, each value as its JSON text.
use astreo_gateway.Base.{List, Option, Bool, ℕ, Text, Result}

pub record Json : Type 0 where
  -- `json.Unmarshal` into a `map[string]json.RawMessage`
  pub unmarshal_object : Text → Result Text (List (Text × Text))
  -- `json.Unmarshal` into a `map[string]any`, each value as it marshals again
  pub unmarshal_values : Text → Result Text (List (Text × Text))
  pub marshal_object : List (Text × Text) → Result Text Text
  pub unmarshal_string : Text → Result Text Text
  pub marshal_string : Text → Result Text Text
  -- `json.Unmarshal` into a `[]string`
  pub unmarshal_strings : Text → Result Text (List Text)
  -- `json.Unmarshal` into a `[]map[string]json.RawMessage`
  pub unmarshal_parts : Text → Result Text (List (List (Text × Text)))
  pub is_valid : Text → Bool
  -- `json.Unmarshal` of a tool choice: its `type` and its `function.name`
  pub unmarshal_tool_choice : Text → Result Text (Text × Text)
  -- `json.Marshal` of a `map[string]string`
  pub marshal_strings : List (Text × Text) → Result Text Text
  -- `raw["error"].(map[string]any)`, and the string under its `message`, which is empty where
  -- there is none
  pub error_message : Text → Option Text
  -- `usage.prompt_tokens` and `usage.completion_tokens`, where there is a `usage`
  pub usage : Text → Option (ℕ × ℕ)
  -- `{"error": {"message": …, "type": …}}`
  pub error_body : Text → Text → Text
  -- `%d`
  pub decimal : ℕ → Text
