-- ===== src/Runtime/Engine/Machine.antt =====
-- The state that the step engine works on, and what it asks of the outside: the fields of `StepEngine`
-- (src/runtime/engine.py) with the objects behind them. A continuation in hand is a copy of the one in
-- the store, as it is with the stores that serialise.
use helios_os.Prelude.{
  ℕ, ◌+◌, String, str_eq, Bool, true, false, ◌||◌, Option, none, some, List, ◌==◌, if◌then◌else◌,
}
use helios_os.Kernel.Json.{Value}
use helios_os.Kernel.Decision.{KernelDecision, Captured}
use helios_os.Kernel.Phase.{Phase}
use helios_os.Kernel.Table.{ProcessTable, record_usage}
use helios_os.Kernel.Table
use helios_os.Kernel.Pipeline.{Syscall}
use helios_os.Kernel.Stages.{World, Config}
use helios_os.Runtime.Continuation.{RunState, Continuation, ContinuationStore, touch, save}
use helios_os.Runtime.Response.{LlmResponse}
use helios_os.Runtime.Shaping.{Texts}

-- `Suspend`
pub record Suspend : Type 0 where
  pub reason : String
  pub tool_use_id : String
  pub external_ref : Option String

-- What one call of a tool does: it returns, it must wait, or it raises or times out.
pub data Attempt : Type 0 where
  returns : Value → Attempt
  waits : Suspend → Attempt
  broke : String → Attempt

pub data Executor : Type 0 where
  absent useless usable : Executor

pub data Chatted : Type 0 where
  answered : LlmResponse → Chatted
  chat_raised : String → Chatted

-- What the model is asked with.
pub record Question : Type 0 where
  pub chat_model : String
  pub provider : String
  pub endpoint : Option String
  pub api_key_ref : Option String
  pub messages : List Value
  pub tools : Option (List Value)

-- What is not this code: the model client, the tools, the SDK's own check of a tool, the A2H gateway,
-- the scheduler of the event loop, and what the kernel reads outside (see `Config`). Each answer may
-- depend on all that was asked before.
pub record Outside (T : Type 0) : Type 0 where
  pub texts : Texts
  pub reason_text : KernelDecision → String
  pub config : T → Config
  pub after_syscall : T → T
  pub clock : T → ℕ
  pub chat : Question → T → Chatted × T
  pub executor : Executor
  pub max_retries : ℕ
  pub gate : String → Value → T → Option String × T
  pub attempt : String → Value → Option String → T → Attempt × T
  pub open_request :
      Option (String → String → String → Captured → KernelDecision → T → Option String × T)
  pub fresh_ref : T → String × T
  pub schedule : T → List ℕ

-- A syscall as the kernel received it: what it was asked, with what, and in which state.
pub record Admission : Type 0 where
  pub call : Syscall
  pub config : Config
  pub kernel : World

-- What has happened: the model was asked, or a tool was called, by its name and with an input, on the
-- strength of an admission.
pub data Event : Type 0 where
  asked : Event
  ran : Admission → String → Value → Event

pub record Machine (T : Type 0) : Type 0 where
  pub store : ContinuationStore
  pub kernel : World
  pub table : Option ProcessTable
  pub outside : T
  pub trace : List Event

-- A continuation in hand and the state of all else.
abbrev pub Held : Type 0 → Type 0
Held T = Continuation × Machine T

-- `f"runtime:{cont.status}"`
unfoldable pub status_reason : RunState → String
status_reason RunState.running = "runtime:running"
status_reason RunState.suspended = "runtime:suspended"
status_reason RunState.resuming = "runtime:resuming"
status_reason RunState.done = "runtime:done"
status_reason RunState.failed = "runtime:failed"

-- `(cont.suspend_reason or "") in SuspendReason.HUMAN_REASONS`
unfoldable pub is_human : Option String → Bool
is_human none = false
is_human (some r) = str_eq r "human_approval" || str_eq r "human_input"

pub data Kind : Type 0 where
  to_running to_failed to_awaiting : Kind

unfoldable pub phase_for : Kind → Option String → Phase
unfolding is_human
phase_for to_running reason = Phase.running
phase_for to_failed reason = Phase.failed
phase_for to_awaiting reason =
    if is_human reason then Phase.awaiting_human else Phase.awaiting_external

-- `x or y` on numbers
abbrev pub or_number : ℕ → ℕ → ℕ
or_number x y = if x == 0 then y else x

module _ {T : Type 0} (o : Outside T) where
  -- `self._store.save(cont)`, which also touches the continuation in hand.
  unfoldable pub keep_cont : Held T → Held T
  keep_cont (c, m) =
      let now = o.clock m.outside in (touch now c, record m { store = save now c m.store })

  -- `_transition`
  unfoldable pub transition : Continuation → Kind → Machine T → Machine T
  unfolding phase_for status_reason
  transition c kind m = elim m.table [
    | none ↦ m
    | some t ↦ record m {
      table = some (
          (Table.transition c.pid (phase_for kind c.suspend_reason) (status_reason c.status) true
            true (o.clock m.outside) t).0);
    }
  ]

  -- The tokens of a response that are charged as input.
  abbrev pub tokens_in_of : LlmResponse → ℕ
  tokens_in_of r = or_number r.input_tokens r.tokens_used

  -- `_account`
  unfoldable pub account : LlmResponse → Held T → Held T
  account r (c, m) =
      let u = c.resource_usage in
      (
        record c {
          resource_usage = record u {
            tokens_in = u.tokens_in + tokens_in_of r;
            tokens_out = u.tokens_out + r.output_tokens;
          };
        },
        elim m.table [
          | none ↦ m
          | some t ↦ record m {
            table = some (record_usage c.pid (tokens_in_of r) r.output_tokens 0 0 0 t);
          }
        ],
      )
