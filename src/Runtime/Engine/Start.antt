-- ===== src/Runtime/Engine/Start.antt =====
-- How a run begins: `create_continuation` and `run` of `StepEngine` (src/runtime/engine.py).
use helios_os.Prelude.{
  ℕ, ◌==◌, String, str_eq, Option, none, some, List, [], or_else, if◌then◌else◌,
}
use helios_os.Kernel.Json.{Value, Fields}
use helios_os.Runtime.Continuation.{RunState, Continuation}
use helios_os.Runtime.Outcome.{Ran}
use helios_os.Runtime.Opening.{shape_initial}
use helios_os.Runtime.Engine.Machine.{Outside, Machine, Held, keep_cont}
use helios_os.Runtime.Engine.Drive.{drive_all}

-- The arguments of `create_continuation`; `user_id` is what the context holds under that key.
pub record RunSpec : Type 0 where
  pub pid : String
  pub system_prompt : String
  pub user_prompt : String
  pub provider : String
  pub chat_model : String
  pub endpoint : Option String
  pub api_key_ref : Option String
  pub tools : Option (List Value)
  pub session_id : Option String
  pub history : Option (List Fields)
  pub context : Option Value
  pub user_id : Option String
  pub goal : Option String
  pub tenant_id : String
  pub namespace : String
  pub run_id : Option String
  pub source : String
  pub generation : ℕ
  pub max_turns : Option ℕ
  pub status : RunState

-- `max_turns or self._max_turns`
unfoldable pub turns_or : Option ℕ → ℕ → ℕ
turns_or none limit = limit
turns_or (some n) limit = if n == 0 then limit else n

-- `(context or {}).get("user_id") or "default"`
unfoldable pub user_or_default : Option String → String
user_or_default none = "default"
user_or_default (some id) = if str_eq id "" then "default" else id

module _ {T : Type 0} (o : Outside T) where
  -- The fresh continuation, with the limit of the engine and the id that is drawn.
  unfoldable pub new_continuation : ℕ → String → ℕ → RunSpec → Continuation
  unfolding turns_or user_or_default
  new_continuation limit id now spec = record {
    continuation_id = id;
    pid = spec.pid;
    generation = spec.generation;
    run_id = spec.run_id;
    session_id = spec.session_id;
    tenant_id = spec.tenant_id;
    user_id = user_or_default spec.user_id;
    namespace = spec.namespace;
    messages =
        shape_initial o.texts spec.system_prompt (or_else spec.history []) spec.user_prompt
          spec.context spec.goal;
    provider = spec.provider;
    chat_model = spec.chat_model;
    endpoint = spec.endpoint;
    api_key_ref = spec.api_key_ref;
    tool_definitions = spec.tools;
    step_index = 0;
    max_turns = turns_or spec.max_turns limit;
    goal = spec.goal;
    status = spec.status;
    suspend_reason = none;
    pending_calls = [];
    resource_usage = record { tokens_in = 0; tokens_out = 0; tool_calls = 0 };
    source = spec.source;
    enqueue_epoch = 0;
    last_error = none;
    final_output = "";
    updated_at = now;
  }

  -- `create_continuation`
  unfoldable pub create_continuation : ℕ → String → RunSpec → Machine T → Held T
  unfolding new_continuation keep_cont
  create_continuation limit id spec m =
      keep_cont o (new_continuation limit id (o.clock m.outside) spec, m)

  -- `run`: the whole loop, in either mode of the engine.
  unfoldable pub start_run : ℕ → String → RunSpec → Machine T → Held T × Ran
  unfolding create_continuation
  start_run limit id spec m = drive_all o (create_continuation limit id spec m)
