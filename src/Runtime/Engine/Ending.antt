-- ===== src/Runtime/Engine/Ending.antt =====
-- How a run ends or parks: `_complete`, `_fail`, `_max_turns_reached` and `_suspend`
-- (src/runtime/engine.py).
use helios_os.Prelude.{ℕ, String, Bool, true, false, Option, none, some, List, [], ◌∷◌, keep}
use helios_os.Runtime.Continuation.{
  CallStatus, RunState, ToolCallRecord, Continuation, ContinuationStore, index_ref,
}
use helios_os.Runtime.Outcome.{RunStatus, RunOutcome, outcome_of}
use helios_os.Runtime.Response.{text_or_none}
use helios_os.Runtime.Goal.{finish_text}
use helios_os.Runtime.Engine.Machine.{
  Outside, Machine, Held, keep_cont, transition, to_failed, to_awaiting,
}

unfoldable pub is_pending : ToolCallRecord → Bool
is_pending r = elim r.status [ CallStatus.pending ↦ true | _ ↦ false ]

unfoldable pub is_executed : ToolCallRecord → Bool
is_executed r = elim r.status [ CallStatus.executed ↦ true | _ ↦ false ]

-- `_with_rollup`
unfoldable pub with_rollup : RunOutcome → Continuation → RunOutcome
unfolding text_or_none
with_rollup out c = record out {
  input_tokens = c.resource_usage.tokens_in;
  output_tokens = c.resource_usage.tokens_out;
  tool_calls = c.resource_usage.tool_calls;
  model = text_or_none (some c.chat_model);
}

-- `_suspended_outcome`
unfoldable pub suspended_outcome : Continuation → RunOutcome
unfolding is_pending
suspended_outcome c = record (outcome_of RunStatus.suspended c.continuation_id) {
  suspend_reason = c.suspend_reason;
  pending = keep is_pending c.pending_calls;
}

-- The reason of the first call that waits.
unfoldable pub first_reason : List ToolCallRecord → Option String
unfolding is_pending
first_reason [] = some "human_approval"
first_reason (r ∷ rs) =
    let rest = first_reason rs in elim (is_pending r) [ true ↦ r.suspend_reason | false ↦ rest ]

-- `for rec in records: if rec.external_ref: index_ref(…)`
unfoldable pub index_refs : List ToolCallRecord → String → ContinuationStore → ContinuationStore
unfolding text_or_none
index_refs [] id s = s
index_refs (r ∷ rs) id s = elim (text_or_none r.external_ref) [
  | none ↦ index_refs rs id s
  | some ref ↦ index_refs rs id (index_ref ref id s)
]

module _ {T : Type 0} (o : Outside T) where
  -- `_complete`
  unfoldable pub complete : String → ℕ → Held T → Held T × RunOutcome
  unfolding with_rollup keep_cont
  complete final_text tokens (c, m) =
      let text = finish_text c.goal final_text in
      let h = keep_cont o (record c { status = RunState.done; final_output = text }, m) in
      (
        h,
        with_rollup
            (record (outcome_of RunStatus.done c.continuation_id) {
              output = text;
              tokens_used = tokens;
            })
            h.0,
      )

  -- `_fail`
  unfoldable pub fail : String → Held T → Held T × RunOutcome
  unfolding keep_cont
  fail error (c, m) =
      let (c', m') =
        keep_cont o (record c { status = RunState.failed; last_error = some error }, m) in
      (
        (c', transition o c' to_failed m'),
        record (outcome_of RunStatus.failed c.continuation_id) { error = some error },
      )

  -- `_max_turns_reached`
  unfoldable pub max_turns_reached : ℕ → Held T → Held T × RunOutcome
  unfolding with_rollup keep_cont
  max_turns_reached tokens (c, m) =
      let text : String = "[max tool turns reached]" in
      let h = keep_cont o (record c { status = RunState.done; final_output = text }, m) in
      (
        h,
        with_rollup
            (record (outcome_of RunStatus.max_turns c.continuation_id) {
              output = text;
              tokens_used = tokens;
            })
            h.0,
      )

  -- `_suspend`
  unfoldable pub suspend : List ToolCallRecord → ℕ → Held T → Held T × RunOutcome
  unfolding suspended_outcome keep_cont
  suspend records tokens (c, m) =
      let (c', m') = keep_cont o (
        record c {
          pending_calls = records;
          status = RunState.suspended;
          suspend_reason = first_reason records;
        },
        m,
      ) in
      let m'' : Machine T = record m' { store = index_refs records c.continuation_id m'.store } in
      (
        (c', transition o c' to_awaiting m''),
        record (suspended_outcome c') { tokens_used = tokens },
      )
