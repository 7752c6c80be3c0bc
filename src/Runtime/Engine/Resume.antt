-- ===== src/Runtime/Engine/Resume.antt =====
-- The resumption of a parked run: `resume` and `_apply_resolution` (src/runtime/engine.py).
use Prim.Native.String.{◌++◌ as str_append}
use helios_os.Prelude.{
  ◌+◌, String, str_eq, Bool, true, false, Option, none, some, List, [], ◌∷◌, ◌++◌, any,
  if◌then◌else◌,
}
use helios_os.Kernel.Json.{Value, dict, str, bool, field_of, truthy}
use helios_os.Runtime.Continuation.{
  CallStatus, RunState, ResolutionOutcome, Resolution, ToolCallRecord, Continuation, load,
  pending_by_id,
}
use helios_os.Runtime.Outcome.{Ran, returned, escaped}
use helios_os.Runtime.Shaping.{obj, shape_tool_results}
use helios_os.Runtime.Engine.Machine.{Outside, Machine, Held, keep_cont}
use helios_os.Runtime.Engine.Tools.{Executed, value, suspends}
use helios_os.Runtime.Engine.Dispatch.{dispatch_authorized}
use helios_os.Runtime.Engine.Turn.{kind_of}
use helios_os.Runtime.Engine.Ending.{is_pending, is_executed, suspended_outcome}
use helios_os.Runtime.Engine.Drive.{drive_or_step, failed_outcome, machine_of, set_running}

-- `isinstance(result, dict) and result.get("error")`
unfoldable pub is_error : Value → Bool
is_error (dict fs) = truthy (field_of "error" fs)
is_error _ = false

-- The first record under an id is changed in place.
unfoldable pub set_call : String → ToolCallRecord → List ToolCallRecord → List ToolCallRecord
set_call id rec [] = []
set_call id rec (r ∷ rs) =
    let rest = set_call id rec rs in if str_eq r.tool_use_id id then rec ∷ rs else r ∷ rest

unfoldable pub state_name : RunState → String
state_name RunState.running = "continuation not suspended (status=running)"
state_name RunState.suspended = "continuation not suspended (status=suspended)"
state_name RunState.resuming = "continuation not suspended (status=resuming)"
state_name RunState.done = "continuation not suspended (status=done)"
state_name RunState.failed = "continuation not suspended (status=failed)"

-- The record of a call that is rejected.
unfoldable pub rejected_record : ToolCallRecord → ToolCallRecord
rejected_record rec = record rec {
  status = CallStatus.rejected;
  result = obj (("error", str "Human rejected this action.") ∷ ("rejected", bool true) ∷ []);
  result_is_error = true;
}

-- The record of a call whose result is there.
unfoldable pub executed_record : Value → ToolCallRecord → ToolCallRecord
executed_record v rec = record rec { status = CallStatus.executed; result = v }

unfoldable pub settled_events : ToolCallRecord → List ToolCallRecord
settled_events rec = elim rec.status [
  | CallStatus.executed ↦ rec ∷ []
  | CallStatus.rejected ↦ rec ∷ []
  | _ ↦ []
]

-- `outcome.tool_events = events + outcome.tool_events`
unfoldable pub add_events : List ToolCallRecord → Ran → Ran
add_events events (returned out) = returned (record out { tool_events = events ++ out.tool_events })
add_events events r = r

module _ {T : Type 0} (o : Outside T) where
  -- The record after an approved call was dispatched again.
  unfoldable pub approved_record : Value → ToolCallRecord → ToolCallRecord
  unfolding executed_record
  approved_record v rec =
      let r = executed_record v rec in if is_error v then record r { result_is_error = true } else r

  unfoldable pub after_authorized :
      ToolCallRecord → Executed × Machine T → Option ToolCallRecord × Machine T
  unfolding approved_record
  after_authorized rec (value v, m) = (some (approved_record v rec), m)
  after_authorized rec (suspends s, m) = (none, m)

  -- The record that a resolution changes, and its dispatch; `none` is a signal that escapes.
  unfoldable pub resolve_call :
      ResolutionOutcome
      → Continuation
      → ToolCallRecord
      → Resolution
      → Machine T
      → Option ToolCallRecord × Machine T
  unfolding after_authorized rejected_record executed_record
  resolve_call ResolutionOutcome.reject c rec res m = (some (rejected_record rec), m)
  resolve_call ResolutionOutcome.result c rec res m =
      (some (executed_record res.result_payload rec), m)
  resolve_call ResolutionOutcome.accept c rec res m =
      let rec' : ToolCallRecord = record rec { capability_token = res.capability_token } in
      after_authorized rec' (dispatch_authorized o c rec' m)

  -- The continuation with all its results in the history, at its next step.
  unfoldable pub with_answers : Continuation → Continuation
  with_answers c = record c {
    messages = shape_tool_results o.texts c.pending_calls (kind_of o c) c.messages;
    pending_calls = [];
    suspend_reason = none;
    step_index = c.step_index + 1;
  }

  -- All calls are resolved: their results go into the history, and the run goes on.
  unfoldable pub go_on : Bool → List ToolCallRecord → Held T → Machine T × Ran
  unfolding set_running add_events
  go_on single_step events (c, m) =
      let (m', r) =
        machine_of o (drive_or_step o single_step (set_running o (with_answers c, m))) in
      (m', add_events events r)

  -- Some call still waits: the run stays parked.
  unfoldable pub stay_parked : List ToolCallRecord → Held T → Machine T × Ran
  unfolding keep_cont
  stay_parked events (c, m) =
      let (c', m') = keep_cont o (record c { status = RunState.suspended }, m) in
      (
        m',
        returned
            (record (suspended_outcome c') { awaiting_remaining = true; tool_events = events }),
      )

  -- The part of `resume` after the resolution was applied: some call still waits, or none does.
  unfoldable pub park_or_go : Bool → Bool → List ToolCallRecord → Held T → Machine T × Ran
  unfolding stay_parked go_on
  park_or_go true single_step events h = stay_parked events h
  park_or_go false single_step events h = go_on single_step events h

  unfoldable pub after_resolution : Bool → ToolCallRecord → Held T → Machine T × Ran
  unfolding settled_events park_or_go
  after_resolution single_step rec (c, m) =
      park_or_go (any is_pending c.pending_calls) single_step (settled_events rec) (c, m)

  -- What follows the dispatch of a resolution.
  unfoldable pub after_resolve :
      Bool → String → Continuation → Option ToolCallRecord × Machine T → Machine T × Ran
  unfolding keep_cont after_resolution
  after_resolve single_step id c (none, m) = (m, escaped)
  after_resolve single_step id c (some rec, m) =
      after_resolution single_step rec
        (keep_cont o (record c { pending_calls = set_call id rec c.pending_calls }, m))

  -- `_apply_resolution`, unless the call was executed before, and what follows.
  unfoldable pub apply_resolution :
      Bool → Bool → ToolCallRecord → Resolution → Held T → Machine T × Ran
  unfolding after_resolution after_resolve resolve_call
  apply_resolution true single_step rec res h = after_resolution single_step rec h
  apply_resolution false single_step rec res (c, m) =
      after_resolve single_step res.tool_use_id c (resolve_call res.outcome c rec res m)

  unfoldable pub resume_call : Option ToolCallRecord → Bool → Resolution → Held T → Machine T × Ran
  unfolding apply_resolution is_executed
  resume_call none single_step res (c, m) = (
    m,
    returned (failed_outcome c.continuation_id (str_append "no pending tool_use " res.tool_use_id)),
  )
  resume_call (some rec) single_step res h =
      apply_resolution (is_executed rec) single_step rec res h

  -- The part of `resume` for a continuation that is suspended.
  unfoldable pub resume_suspended : Bool → Resolution → Held T → Machine T × Ran
  unfolding keep_cont resume_call
  resume_suspended single_step res (c, m) =
      let h = keep_cont o (record c { status = RunState.resuming }, m) in
      resume_call (pending_by_id res.tool_use_id c) single_step res h

  unfoldable pub resume_loaded :
      RunState → Bool → Resolution → Continuation → Machine T → Machine T × Ran
  unfolding resume_suspended state_name
  resume_loaded RunState.suspended single_step res c m = resume_suspended single_step res (c, m)
  resume_loaded s single_step res c m =
      (m, returned (failed_outcome c.continuation_id (state_name s)))

  unfoldable pub resume_found :
      Option Continuation → Bool → Resolution → Machine T → Machine T × Ran
  unfolding resume_loaded
  resume_found none single_step res m =
      (m, returned (failed_outcome res.continuation_id "continuation not found"))
  resume_found (some c) single_step res m = resume_loaded c.status single_step res c m

  -- `resume`
  unfoldable pub resume : Bool → Resolution → Machine T → Machine T × Ran
  unfolding resume_found
  resume single_step res m = resume_found (load res.continuation_id m.store) single_step res m
