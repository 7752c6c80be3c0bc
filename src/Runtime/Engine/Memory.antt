-- ===== src/Runtime/Engine/Memory.antt =====
-- What a chat does not remember: the answer that a run ends with.
use helios_os.Prelude.{ℕ, String, ◌≡◌, refl, some, get-put_self}
use helios_os.Runtime.Continuation.{RunState, Continuation, load, save}
use helios_os.Runtime.Goal.{finish_text}
use helios_os.Runtime.Opening.{extract_chat_history}
use helios_os.Runtime.Engine.Machine.{Outside, Held, keep_cont}
use helios_os.Runtime.Engine.Ending.{complete}

module _ {T : Type 0} (o : Outside T) where
  -- A run that completes is stored as done with its answer as output, but the chat history that is
  -- extracted from it for the next run is that of its messages without the answer, whatever it is.
  pub answer_not_remembered :
      (text : String) (tokens : ℕ) (h : Held T)
      → (c : Continuation) × (load h.0.continuation_id (complete o text tokens h).0.1.store
          ≡ some c)
        × (c.status ≡ RunState.done)
        × (c.final_output ≡ finish_text h.0.goal text)
        × (extract_chat_history c.messages ≡ extract_chat_history h.0.messages)
  unfolding complete keep_cont load save
  answer_not_remembered text tokens h = (_, get-put_self h.0.continuation_id _ _, refl, refl, refl)
