-- ===== src/Runtime/Shaping.antt =====
-- How a turn and its tool results are written into the history of messages:
-- src/runtime/shaping.py. `json.dumps` and `str` of a value are parameters, read off `Texts`.
pub mod Results
use Prim.Native.String.{◌++◌ as str_append}
use text.Mathlib.Text.{starts_with}
use helios_os.Prelude.{
  String, str_eq, Bool, true, false, ◌||◌, Option, none, some, List, [], ◌∷◌, ◌++◌, map, any,
  contains, if◌then◌else◌,
}
use helios_os.Kernel.Json.{
  Value, Fields, Items, dict, list, str, bool, null, field, no_fields, item, no_items,
}
use helios_os.Runtime.Continuation.{ToolCallRecord}
use helios_os.Runtime.Response.{ToolCall, LlmResponse, calls_of, is_nonempty, text_or_none}

pub record Texts : Type 0 where
  pub dumps : Value → String
  pub str_of : Value → String

pub data Kind : Type 0 where
  anthropic openai vertex : Kind

abbrev pub openai_model_prefixes : List String
openai_model_prefixes = "gpt-" ∷ "o1-" ∷ "o3-" ∷ "deepseek-" ∷ "qwen-" ∷ "nemotron" ∷ "nvidia/" ∷ []

abbrev pub openai_providers : List String
openai_providers = "openai" ∷ "atlas" ∷ "vllm" ∷ []

unfoldable pub provider_kind : String → String → Kind
provider_kind provider chat_model =
    if str_eq provider "vertex"
    then vertex
    else if contains provider openai_providers || any (starts_with chat_model) openai_model_prefixes
    then openai
    else anthropic

-- A dictionary and a list, written out.
abbrev pub fields_of : List (String × Value) → Fields
fields_of [] = no_fields
fields_of ((k, v) ∷ kvs) = field k v (fields_of kvs)

abbrev pub obj : List (String × Value) → Value
obj kvs = dict (fields_of kvs)

abbrev pub items_of : List Value → Items
items_of [] = no_items
items_of (v ∷ vs) = item v (items_of vs)

abbrev pub arr : List Value → Value
arr vs = list (items_of vs)

-- The part of a text that is there only when it is not empty.
unfoldable pub text_part : String → (String → Value) → List Value
text_part text make = if str_eq text "" then [] else make text ∷ []

unfoldable pub join_parts : List String → String
join_parts [] = ""
join_parts (s ∷ []) = s
join_parts (s ∷ t ∷ ts) = str_append s (str_append "\n\n" (join_parts (t ∷ ts)))

module _ (texts : Texts) where
  unfoldable pub content_str : Value → String
  content_str (dict fs) = texts.dumps (dict fs)
  content_str v = texts.str_of v

  abbrev pub function_call : ToolCall → Value
  function_call tc =
      obj (("functionCall", obj (("name", str tc.name) ∷ ("args", tc.input) ∷ [])) ∷ [])

  -- `parts or [{"text": ""}]`
  abbrev pub parts_or_empty : List Value → List Value
  parts_or_empty parts = if is_nonempty parts then parts else obj (("text", str "") ∷ []) ∷ []

  -- The turn of a Vertex model.
  unfoldable pub vertex_turn : LlmResponse → Value
  unfolding text_part calls_of is_nonempty
  vertex_turn r = obj (
      ("role", str "model")
      ∷ (
        "parts",
        arr (
            parts_or_empty (
              text_part r.text (λ t. obj (("text", str t) ∷ []))
              ++ map function_call (calls_of r))),
      )
      ∷ [])

  abbrev pub openai_call : ToolCall → Value
  openai_call tc = obj (
      ("id", str tc.id)
      ∷ ("type", str "function")
      ∷ ("function", obj (("name", str tc.name) ∷ ("arguments", str (texts.dumps tc.input)) ∷ []))
      ∷ [])

  -- The reasoning as a block, where there is one.
  abbrev pub think_part : Option String → List String
  think_part none = []
  think_part (some s) = str_append "<think>\n" (str_append s "\n</think>") ∷ []

  abbrev pub content_parts : LlmResponse → List String
  content_parts r =
      think_part (text_or_none r.reasoning) ++ (if str_eq r.text "" then [] else r.text ∷ [])

  -- `"\n\n".join(content_parts) if content_parts else None`
  abbrev pub content_of : List String → Value
  content_of parts = if is_nonempty parts then str (join_parts parts) else null

  abbrev pub reasoning_field : Option String → List (String × Value)
  reasoning_field none = []
  reasoning_field (some s) = ("reasoning_content", str s) ∷ []

  -- The turn of a model that speaks the dialect of OpenAI.
  unfoldable pub openai_turn : LlmResponse → Value
  unfolding text_or_none calls_of is_nonempty join_parts
  openai_turn r = obj (
      ("role", str "assistant")
      ∷ ("content", content_of (content_parts r))
      ∷ ("tool_calls", arr (map openai_call (calls_of r)))
      ∷ reasoning_field (text_or_none r.reasoning))

  abbrev pub tool_use : ToolCall → Value
  tool_use tc = obj (
      ("type", str "tool_use")
      ∷ ("id", str tc.id)
      ∷ ("name", str tc.name)
      ∷ ("input", tc.input)
      ∷ [])

  unfoldable pub anthropic_turn : LlmResponse → Value
  unfolding text_part calls_of
  anthropic_turn r = obj (
      ("role", str "assistant")
      ∷ (
        "content",
        arr (
            text_part r.text (λ t. obj (("type", str "text") ∷ ("text", str t) ∷ []))
            ++ map tool_use (calls_of r)),
      )
      ∷ [])

  -- `shape_assistant_turn`
  unfoldable pub shape_assistant_turn : LlmResponse → Kind → List Value → List Value
  unfolding vertex_turn openai_turn anthropic_turn
  shape_assistant_turn r vertex messages = messages ++ vertex_turn r ∷ []
  shape_assistant_turn r openai messages = messages ++ openai_turn r ∷ []
  shape_assistant_turn r anthropic messages = messages ++ anthropic_turn r ∷ []

  unfoldable pub function_response : ToolCallRecord → Value
  unfolding content_str
  function_response rec = obj (
      (
        "functionResponse",
        obj (
            ("name", str rec.name)
            ∷ ("response", obj (("content", str (content_str rec.result)) ∷ []))
            ∷ []),
      )
      ∷ [])

  unfoldable pub tool_message : ToolCallRecord → Value
  unfolding content_str
  tool_message rec = obj (
      ("role", str "tool")
      ∷ ("tool_call_id", str rec.tool_use_id)
      ∷ ("content", str (content_str rec.result))
      ∷ [])

  unfoldable pub result_block : ToolCallRecord → Value
  unfolding content_str
  result_block rec = obj (
      ("type", str "tool_result")
      ∷ ("tool_use_id", str rec.tool_use_id)
      ∷ ("content", str (content_str rec.result))
      ∷ ("is_error", bool rec.result_is_error)
      ∷ [])

  -- `shape_tool_results`
  unfoldable pub shape_tool_results : List ToolCallRecord → Kind → List Value → List Value
  unfolding function_response tool_message result_block
  shape_tool_results records vertex messages =
      messages
      ++ obj (("role", str "user") ∷ ("parts", arr (map function_response records)) ∷ []) ∷ []
  shape_tool_results records openai messages = messages ++ map tool_message records
  shape_tool_results records anthropic messages =
      messages ++ obj (("role", str "user") ∷ ("content", arr (map result_block records)) ∷ []) ∷ []
