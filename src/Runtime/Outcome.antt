-- ===== src/Runtime/Outcome.antt =====
-- What a run of the step engine reports: `RunStatus` and `RunOutcome` (src/runtime/engine.py). An
-- entry of `pending` is the record of a call that waits, and one of `tool_events` that of a call
-- that was run or settled, of which the code lists the fields that a caller shows.
use helios_os.Prelude.{ℕ, String, Bool, false, Option, none, List, []}
use helios_os.Runtime.Continuation.{ToolCallRecord}

pub data RunStatus : Type 0 where
  done suspended failed max_turns continue : RunStatus

pub record RunOutcome : Type 0 where
  pub status : RunStatus
  pub continuation_id : String
  pub output : String
  pub error : Option String
  pub suspend_reason : Option String
  pub pending : List ToolCallRecord
  pub tokens_used : ℕ
  pub input_tokens : ℕ
  pub output_tokens : ℕ
  pub tool_calls : ℕ
  pub model : Option String
  pub tool_events : List ToolCallRecord
  pub awaiting_remaining : Bool

-- `RunOutcome(status, continuation_id)`, with the defaults of the other fields.
abbrev pub outcome_of : RunStatus → String → RunOutcome
outcome_of status id = record {
  status = status;
  continuation_id = id;
  output = "";
  error = none;
  suspend_reason = none;
  pending = [];
  tokens_used = 0;
  input_tokens = 0;
  output_tokens = 0;
  tool_calls = 0;
  model = none;
  tool_events = [];
  awaiting_remaining = false;
}

-- A run of the engine returns, raises an `Exception`, or lets a `Suspend`, which is none, escape.
pub data Ran : Type 0 where
  returned : RunOutcome → Ran
  raised : String → Ran
  escaped : Ran
