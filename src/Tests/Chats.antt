-- ===== src/Tests/Chats.antt =====
-- The history of a chat at concrete inputs.
use helios_os.Prelude.{◌≡◌, refl, none, some, List, [], ◌∷◌, ◌++◌}
use helios_os.Kernel.Json.{Value, Fields, str, field_of}
use helios_os.Runtime.Continuation.{RunState, CallStatus, Continuation, load}
use helios_os.Runtime.Shaping.{obj}
use helios_os.Runtime.Goal.{finish_text}
use helios_os.Runtime.Opening.{
  extract_chat_history, chat_turn, turn_of, is_chat_role, text_of, strip, user_text, shape_initial,
}
use helios_os.Runtime.Opening.History.{opened_run_remembers, prompt_turn}
use helios_os.Runtime.Engine.Ending.{complete}
use helios_os.Runtime.Engine.Memory.{answer_not_remembered}
use helios_os.Tests.Engine.{reads, machine, parked_with}

abbrev asked : List Value
asked = obj (("role", str "user") ∷ ("content", str "hello") ∷ []) ∷ []

abbrev remembered : List Fields
remembered = chat_turn (str "user") (str "hello") ∷ []

asked_history : extract_chat_history asked ≡ some remembered
unfolding extract_chat_history turn_of is_chat_role text_of strip field_of
asked_history = refl

opened_run_remembers_example :
    extract_chat_history
      (shape_initial reads.texts "You are a writer." remembered "go on" none (some "write"))
    ≡ some (remembered ++ prompt_turn (user_text reads.texts "go on" none))
opened_run_remembers_example =
    opened_run_remembers reads.texts asked remembered "You are a writer." "go on" none
      (some "write") asked_history

abbrev greeted : Continuation
greeted = record (parked_with CallStatus.executed) { messages = asked }

answer_not_remembered_example :
    (c : Continuation) × (load "c1" (complete reads "the answer" 7 (greeted, machine)).0.1.store
      ≡ some c)
    × (c.status ≡ RunState.done)
    × (c.final_output ≡ finish_text none "the answer")
    × (extract_chat_history c.messages ≡ extract_chat_history asked)
answer_not_remembered_example = answer_not_remembered reads "the answer" 7 (greeted, machine)
