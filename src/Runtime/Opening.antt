-- ===== src/Runtime/Opening.antt =====
-- The first messages of a run and the chat history that a finished run leaves for the next one:
-- `shape_initial`, `_text_of` and `extract_chat_history` of src/runtime/shaping.py. A text is cut and
-- cleaned character by character.
pub mod History
use Prim.Native.String.{◌++◌ as str_append}
use text.Mathlib.Text.{starts_with}
use helios_os.Prelude.{
  ℕ, zero, suc, String, str_eq, Bool, true, false, not, ◌&&◌, ◌||◌, Option, none, some, List, [],
  ◌∷◌, ◌++◌, if◌then◌else◌,
}
use helios_os.Kernel.Json.{
  Value, Fields, Items, dict, list, str, item, no_items, field, no_fields, field_of, has_key,
  truthy,
}
use helios_os.Kernel.Glob.{single}
use helios_os.Runtime.Shaping.{Texts, obj, fields_of}
use helios_os.Runtime.Goal.{lstrip, rstrip}

-- `text.strip()`
unfoldable pub strip : String → String
unfolding lstrip rstrip
strip s = lstrip (rstrip s)

-- `[p for p in parts if p]`, with one more part.
unfoldable pub add_part : String → List String → List String
add_part t parts = if str_eq t "" then parts else t ∷ parts

-- The texts of a list of blocks, the empty ones left out.
unfoldable pub block_parts : Items → List String
unfolding add_part
block_parts no_items = []
block_parts (item block rest) =
    let parts = block_parts rest in
    elim block [
      | dict fs ↦ elim (field_of "text" fs) [ str t ↦ add_part t parts | _ ↦ parts ]
      | str t ↦ add_part t parts
      | _ ↦ parts
    ]

-- `"\n".join(parts)`
unfoldable pub join_lines : List String → String
join_lines [] = ""
join_lines (s ∷ []) = s
join_lines (s ∷ t ∷ ts) = str_append s (str_append "\n" (join_lines (t ∷ ts)))

-- `_text_of`
unfoldable pub text_of : Value → String
unfolding strip join_lines block_parts
text_of (str s) = strip s
text_of (list blocks) = strip (join_lines (block_parts blocks))
text_of _ = ""

-- `role in ("user", "assistant")`
unfoldable pub is_chat_role : Value → Bool
is_chat_role (str s) = str_eq s "user" || str_eq s "assistant"
is_chat_role _ = false

abbrev pub chat_turn : Value → Value → Fields
chat_turn role content = fields_of (("role", role) ∷ ("content", content) ∷ [])

-- What one message leaves in the history.
unfoldable pub turn_of : Fields → List Fields
unfolding is_chat_role text_of
turn_of m =
    let text = text_of (field_of "content" m) in
    if is_chat_role (field_of "role" m) && not (str_eq text "")
    then chat_turn (field_of "role" m) (str text) ∷ []
    else []

-- `extract_chat_history`; a message that is no dictionary raises.
unfoldable pub extract_chat_history : List Value → Option (List Fields)
unfolding turn_of
extract_chat_history [] = some []
extract_chat_history (m ∷ ms) =
    let rest = extract_chat_history ms in
    elim m [ dict fs ↦ elim rest [ none ↦ none | some out ↦ some (turn_of fs ++ out) ] | _ ↦ none ]

-- `goal[:n]`
unfoldable pub take_chars : ℕ → String → String
take_chars zero s = String.[]
take_chars (suc n) String.[] = String.[]
take_chars (suc n) (String.◌∷◌ c s) = String.◌∷◌ c (take_chars n s)

-- `s.replace("#", "")`
unfoldable pub drop_hashes : String → String
drop_hashes String.[] = String.[]
drop_hashes (String.◌∷◌ c s) =
    let rest = drop_hashes s in if str_eq (single c) "#" then rest else String.◌∷◌ c rest

-- "s.replace" of three back quotes by nothing, with the characters that are still to be skipped.
unfoldable pub drop_fences : ℕ → String → String
drop_fences skip String.[] = String.[]
drop_fences (suc skip) (String.◌∷◌ c s) = drop_fences skip s
drop_fences zero (String.◌∷◌ c s) =
    let skipped = drop_fences 2 s in
    let kept = drop_fences zero s in
    if starts_with (String.◌∷◌ c s) "```" then skipped else String.◌∷◌ c kept

-- The part of the system prompt that states the goal.
abbrev pub goal_note : String → String
goal_note goal = str_append "\n\n<agent-goal>\n" (
    str_append goal (
      str_append
        "\n</agent-goal>\n\nWhen you believe the goal inside <agent-goal> is fully achieved, "
        (str_append "end your response with exactly [GOAL_COMPLETE] on its own line. "
          "If you need more iterations to reach the goal, do NOT include this marker.")))

unfoldable pub system_text : String → Option String → String
unfolding take_chars drop_hashes drop_fences
system_text system none = system
system_text system (some goal) =
    if str_eq goal ""
    then system
    else str_append system (goal_note (drop_fences 0 (drop_hashes (take_chars 2000 goal))))

-- The messages of the history that have both a role and a content.
unfoldable pub history_messages : List Fields → List Value
history_messages [] = []
history_messages (m ∷ ms) =
    let rest = history_messages ms in
    if has_key "role" m && has_key "content" m
    then dict (chat_turn (field_of "role" m) (field_of "content" m)) ∷ rest
    else rest

-- `if effective_system: …`
unfoldable pub system_messages : String → List Value
system_messages text =
    if str_eq text "" then [] else dict (chat_turn (str "system") (str text)) ∷ []

module _ (texts : Texts) where
  -- The prompt with the context, where there is one that is not empty.
  unfoldable pub user_text : String → Option Value → String
  user_text prompt none = prompt
  user_text prompt (some context) =
      if truthy context
      then str_append prompt (str_append "\n\nContext: " (texts.dumps context))
      else prompt

  -- `shape_initial`; no history is an empty one.
  unfoldable pub shape_initial :
      String → List Fields → String → Option Value → Option String → List Value
  unfolding system_text system_messages history_messages user_text
  shape_initial system history prompt context goal =
      system_messages (system_text system goal)
      ++ history_messages history
      ++ dict (chat_turn (str "user") (str (user_text prompt context))) ∷ []
