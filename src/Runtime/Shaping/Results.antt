-- ===== src/Runtime/Shaping/Results.antt =====
-- The history reads back: a turn's results stand under the ids of its calls, in their order.
use helios_os.Prelude.{
  String, str_eq, ◌≡◌, ◌≢◌, refl, sym, ap, ◌∙◌, List, [], ◌∷◌, ◌++◌, map, Bool-cases, inl, inr,
}
use mathlib.Core.List.{append-nil}
use helios_os.Kernel.Json.{Value, Items, dict, list, str, item, no_items, field_of}
use helios_os.Runtime.Continuation.{ToolCallRecord}
use helios_os.Runtime.Response.{ToolCall, LlmResponse, calls_of}
use helios_os.Runtime.Shaping.{
  Texts, Kind, anthropic, openai, vertex, items_of, text_part, openai_turn, anthropic_turn,
  content_str, tool_message, result_block, shape_tool_results, shape_assistant_turn, vertex_turn,
  openai_call, tool_use,
}

-- The text under a key of a message, if it is one.
unfoldable pub text_under : String → Value → List String
unfolding field_of
text_under k (dict fs) = elim (field_of k fs) [ str s ↦ s ∷ [] | _ ↦ [] ]
text_under k _ = []

unfoldable pub texts_under : String → Items → List String
texts_under k no_items = []
texts_under k (item v vs) = text_under k v ++ texts_under k vs

-- The texts under a key of the entries of a message's list.
unfoldable pub entries_under : String → String → Value → List String
unfolding field_of texts_under
entries_under entries k (dict fs) = elim (field_of entries fs) [
  | list vs ↦ texts_under k vs
  | _ ↦ []
]
entries_under entries k _ = []

unfoldable pub texts_of : String → List Value → List String
texts_of k [] = []
texts_of k (v ∷ vs) = text_under k v ++ texts_of k vs

unfoldable pub all_entries : String → String → List Value → List String
all_entries entries k [] = []
all_entries entries k (v ∷ vs) = entries_under entries k v ++ all_entries entries k vs

-- The ids that a turn calls with, as its dialect writes them.
unfoldable pub called_ids : Kind → Value → List String
called_ids openai turn = entries_under "tool_calls" "id" turn
called_ids anthropic turn = entries_under "content" "id" turn
called_ids vertex turn = []

-- The ids that messages answer, as their dialect writes them.
unfoldable pub answered_ids : Kind → List Value → List String
answered_ids openai messages = texts_of "tool_call_id" messages
answered_ids anthropic messages = all_entries "content" "tool_use_id" messages
answered_ids vertex messages = []

-- The texts that messages answer with, as their dialect writes them.
unfoldable pub answered_texts : Kind → List Value → List String
answered_texts openai messages = texts_of "content" messages
answered_texts anthropic messages = all_entries "content" "content" messages
answered_texts vertex messages = []

module _ (texts : Texts) where
  openai_ids :
      (cs : List ToolCall)
      → texts_under "id" (items_of (map (openai_call texts) cs)) ≡ map (λ (t : ToolCall). t.id) cs
  unfolding texts_under text_under field_of
  openai_ids [] = refl
  openai_ids (c ∷ cs) = ap (λ (l : List String). c.id ∷ l) (openai_ids cs)

  anthropic_ids :
      (cs : List ToolCall)
      → texts_under "id" (items_of (map (tool_use texts) cs)) ≡ map (λ (t : ToolCall). t.id) cs
  unfolding texts_under text_under field_of
  anthropic_ids [] = refl
  anthropic_ids (c ∷ cs) = ap (λ (l : List String). c.id ∷ l) (anthropic_ids cs)

  openai_turn-ids :
      (r : LlmResponse)
      → called_ids openai (openai_turn texts r) ≡ map (λ (t : ToolCall). t.id) (calls_of r)
  unfolding called_ids openai_turn entries_under field_of
  openai_turn-ids r = openai_ids (calls_of r)

  anthropic_turn-ids :
      (r : LlmResponse)
      → called_ids anthropic (anthropic_turn texts r) ≡ map (λ (t : ToolCall). t.id) (calls_of r)
  unfolding called_ids anthropic_turn entries_under field_of text_part texts_under text_under
  anthropic_turn-ids r = elim (Bool-cases (str_eq r.text "")) [
    | inl e ↦ rw e (anthropic_ids (calls_of r))
    | inr e ↦ rw e (anthropic_ids (calls_of r))
  ]

  tool_messages-ids :
      (rs : List ToolCallRecord)
      → texts_of "tool_call_id" (map (tool_message texts) rs)
        ≡ map (λ (r : ToolCallRecord). r.tool_use_id) rs
  unfolding texts_of text_under field_of tool_message
  tool_messages-ids [] = refl
  tool_messages-ids (r ∷ rs) = ap (λ (l : List String). r.tool_use_id ∷ l) (tool_messages-ids rs)

  result_blocks-ids :
      (rs : List ToolCallRecord)
      → texts_under "tool_use_id" (items_of (map (result_block texts) rs))
        ≡ map (λ (r : ToolCallRecord). r.tool_use_id) rs
  unfolding texts_under text_under field_of result_block
  result_blocks-ids [] = refl
  result_blocks-ids (r ∷ rs) = ap (λ (l : List String). r.tool_use_id ∷ l) (result_blocks-ids rs)

  -- The text of a record's result.
  abbrev pub text_of_result : ToolCallRecord → String
  text_of_result r = content_str texts r.result

  tool_messages-texts :
      (rs : List ToolCallRecord)
      → texts_of "content" (map (tool_message texts) rs) ≡ map text_of_result rs
  unfolding texts_of text_under field_of tool_message
  tool_messages-texts [] = refl
  tool_messages-texts (r ∷ rs) =
      ap (λ (l : List String). text_of_result r ∷ l) (tool_messages-texts rs)

  result_blocks-texts :
      (rs : List ToolCallRecord)
      → texts_under "content" (items_of (map (result_block texts) rs)) ≡ map text_of_result rs
  unfolding texts_under text_under field_of result_block
  result_blocks-texts [] = refl
  result_blocks-texts (r ∷ rs) =
      ap (λ (l : List String). text_of_result r ∷ l) (result_blocks-texts rs)

  -- The messages that carry the results of some records.
  abbrev pub replies : Kind → List ToolCallRecord → List Value
  replies kind rs = shape_tool_results texts rs kind []

  replies-ids :
      (kind : Kind) (rs : List ToolCallRecord)
      → kind ≢ vertex
      → answered_ids kind (replies kind rs) ≡ map (λ (r : ToolCallRecord). r.tool_use_id) rs
  unfolding answered_ids shape_tool_results all_entries entries_under field_of
  replies-ids openai rs h = tool_messages-ids rs
  replies-ids anthropic rs h = append-nil _ ∙ result_blocks-ids rs
  replies-ids vertex rs h = absurd (h refl)

  pub replies-texts :
      (kind : Kind) (rs : List ToolCallRecord)
      → kind ≢ vertex
      → answered_texts kind (replies kind rs) ≡ map text_of_result rs
  unfolding answered_texts shape_tool_results all_entries entries_under field_of
  replies-texts openai rs h = tool_messages-texts rs
  replies-texts anthropic rs h = append-nil _ ∙ result_blocks-texts rs
  replies-texts vertex rs h = absurd (h refl)

  -- The message of a turn.
  abbrev pub turn_message : Kind → LlmResponse → Value
  turn_message openai r = openai_turn texts r
  turn_message anthropic r = anthropic_turn texts r
  turn_message vertex r = vertex_turn texts r

  turn_message-ids :
      (kind : Kind) (r : LlmResponse)
      → kind ≢ vertex
      → called_ids kind (turn_message kind r) ≡ map (λ (t : ToolCall). t.id) (calls_of r)
  turn_message-ids openai r h = openai_turn-ids r
  turn_message-ids anthropic r h = anthropic_turn-ids r
  turn_message-ids vertex r h = absurd (h refl)

  -- Records with the ids of a turn's calls, in order, are answered under those ids, in order.
  pub replies_answer_turn :
      (kind : Kind) (r : LlmResponse) (rs : List ToolCallRecord)
      → kind ≢ vertex
      → map (λ (x : ToolCallRecord). x.tool_use_id) rs ≡ map (λ (t : ToolCall). t.id) (calls_of r)
      → answered_ids kind (replies kind rs) ≡ called_ids kind (turn_message kind r)
  replies_answer_turn kind r rs h e = replies-ids kind rs h ∙ e ∙ sym (turn_message-ids kind r h)

  pub shape_turn_lem :
      (kind : Kind) (r : LlmResponse) (ms : List Value)
      → shape_assistant_turn texts r kind ms ≡ ms ++ turn_message kind r ∷ []
  unfolding shape_assistant_turn
  shape_turn_lem openai r ms = refl
  shape_turn_lem anthropic r ms = refl
  shape_turn_lem vertex r ms = refl

  pub shape_results_lem :
      (kind : Kind) (rs : List ToolCallRecord) (ms : List Value)
      → shape_tool_results texts rs kind ms ≡ ms ++ replies kind rs
  unfolding shape_tool_results
  shape_results_lem openai rs ms = refl
  shape_results_lem anthropic rs ms = refl
  shape_results_lem vertex rs ms = refl
