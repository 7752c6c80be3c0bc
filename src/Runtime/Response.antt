-- ===== src/Runtime/Response.antt =====
-- What a model answers: `ToolCall` and `LLMResponse` (src/platform/llm_router.py), the fields that the
-- step engine reads.
use helios_os.Prelude.{ℕ, String, str_eq, Bool, true, false, Option, none, some, List, [], ◌∷◌}
use helios_os.Kernel.Json.{Value}

pub record ToolCall : Type 0 where
  pub id : String
  pub name : String
  pub input : Value

pub record LlmResponse : Type 0 where
  pub text : String
  pub tokens_used : ℕ
  pub input_tokens : ℕ
  pub output_tokens : ℕ
  pub tool_calls : Option (List ToolCall)
  pub error : Option String
  pub reasoning : Option String

-- `response.tool_calls or []`
unfoldable pub calls_of : LlmResponse → List ToolCall
calls_of r = elim r.tool_calls [ none ↦ [] | some cs ↦ cs ]

unfoldable pub is_nonempty {ℓ} : {A : Type ℓ} → List A → Bool
is_nonempty [] = false
is_nonempty (x ∷ xs) = true

-- `has_tool_calls`
unfoldable pub has_tool_calls : LlmResponse → Bool
unfolding calls_of is_nonempty
has_tool_calls r = is_nonempty (calls_of r)

-- `x or None` for a text: an empty one counts as none.
unfoldable pub text_or_none : Option String → Option String
text_or_none none = none
text_or_none (some s) = elim (str_eq s "") [ true ↦ none | false ↦ some s ]
