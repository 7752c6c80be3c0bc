-- ===== src/Runtime/Engine/Turn.antt =====
-- One turn of a model: `_run_one_turn` (src/runtime/engine.py).
use helios_os.Prelude.{
  ℕ, ◌+◌, String, Bool, true, false, Option, none, some, List, [], ◌∷◌, map, any, keep, length,
  contains, if◌then◌else◌,
}
use helios_os.Kernel.Json.{Value, null}
use helios_os.Kernel.Table.{ProcessTable}
use helios_os.Kernel.Table
use helios_os.Runtime.Continuation.{CallStatus, ToolCallRecord, Continuation}
use helios_os.Runtime.Outcome.{RunOutcome}
use helios_os.Runtime.Response.{
  ToolCall, LlmResponse, calls_of, has_tool_calls, is_nonempty, text_or_none,
}
use helios_os.Runtime.Shaping.{Kind, provider_kind, shape_assistant_turn, shape_tool_results}
use helios_os.Runtime.Engine.Machine.{
  Question, Outside, asked, Chatted, answered, chat_raised, Machine, Held, keep_cont, account,
}
use helios_os.Runtime.Engine.Dispatch.{Progress, waiting, running, ended, result, parked, gather}
use helios_os.Runtime.Engine.Ending.{complete, fail, is_executed, suspend}

-- How a turn ends: the model client raised, the run has an outcome, or the caller goes on.
pub data TurnEnd : Type 0 where
  chat_broke : String → TurnEnd
  finished : RunOutcome → TurnEnd
  goes_on : TurnEnd

pub record Turn (T : Type 0) : Type 0 where
  pub held : Held T
  pub tokens : ℕ
  pub events : List ToolCallRecord
  pub end : TurnEnd

-- `ToolCallRecord(tool_use_id=tc.id, name=tc.name, arguments=tc.input)`
unfoldable pub record_of : ToolCall → ToolCallRecord
record_of tc = record {
  tool_use_id = tc.id;
  name = tc.name;
  arguments = tc.input;
  status = CallStatus.pending;
  suspend_reason = none;
  external_ref = none;
  capability_token = none;
  result = null;
  result_is_error = false;
}

-- The record of a dispatch that is over. The other two cases do not arise after `gather`.
unfoldable pub settled_record : Progress → ToolCallRecord
settled_record (waiting rec) = rec
settled_record (running rec ticket adm) = rec
settled_record (ended rec (result v)) = record rec { status = CallStatus.executed; result = v }
settled_record (ended rec (parked s)) = record rec {
  status = CallStatus.pending;
  suspend_reason = some s.reason;
  external_ref = s.external_ref;
}

unfoldable pub is_parked : Progress → Bool
is_parked (ended rec (parked s)) = true
is_parked _ = false

module _ {T : Type 0} (o : Outside T) where
  -- `self._kernel.check_signals(cont.pid)`, with the test on its answer.
  unfoldable pub take_sigterm : String → Machine T → Bool × Machine T
  take_sigterm pid m = elim m.table [
    | none ↦ (false, m)
    | some t ↦
        let (t', signals) = Table.check_signals pid t in
        (contains "SIGTERM" signals, record m { table = some t' })
  ]

  abbrev pub kind_of : Continuation → Kind
  kind_of c = provider_kind c.provider c.chat_model

  abbrev ended_turn : ℕ → List ToolCallRecord → Held T × RunOutcome → Turn T
  ended_turn tokens events (h, out) = record {
    held = h;
    tokens = tokens;
    events = events;
    end = finished out;
  }

  -- The end of the turn, once the signals have been read.
  unfoldable pub after_signals : Bool → LlmResponse → ℕ → List ToolCallRecord → Held T → Turn T
  unfolding complete
  after_signals true r tokens events h = ended_turn tokens events (complete o r.text tokens h)
  after_signals false r tokens events h = record {
    held = h;
    tokens = tokens;
    events = events;
    end = goes_on;
  }

  -- The history with the results of the calls, saved.
  unfoldable pub with_results : List ToolCallRecord → Held T → Held T
  unfolding keep_cont
  with_results records (c, m) =
      keep_cont o
        (record c { messages = shape_tool_results o.texts records (kind_of c) c.messages }, m)

  -- The end of a turn in which no call is parked: the results, and then the signals.
  unfoldable pub append_results : LlmResponse → List ToolCallRecord → ℕ → Held T → Turn T
  unfolding with_results take_sigterm
  append_results r records tokens h =
      let (c, m) = with_results records h in
      let (stop, m') = take_sigterm c.pid m in
      after_signals stop r tokens (keep is_executed records) (c, m')

  -- Some call is parked, or none is.
  unfoldable pub settle_turn : Bool → LlmResponse → List ToolCallRecord → ℕ → Held T → Turn T
  unfolding suspend append_results
  settle_turn true r records tokens h =
      ended_turn tokens (keep is_executed records) (suspend o records tokens h)
  settle_turn false r records tokens h = append_results r records tokens h

  -- What follows the `gather`.
  unfoldable pub after_gather : LlmResponse → ℕ → Continuation → List Progress × Machine T → Turn T
  unfolding is_parked settled_record
  after_gather r tokens c (ps, m) =
      settle_turn (any is_parked ps) r (map settled_record ps) tokens (c, m)

  -- The continuation with the message of a turn, and its calls counted.
  unfoldable pub with_turn : LlmResponse → Continuation → Continuation
  with_turn r c =
      let u = c.resource_usage in
      record c {
        messages = shape_assistant_turn o.texts r (kind_of c) c.messages;
        resource_usage = record u { tool_calls = u.tool_calls + length (calls_of r) };
      }

  -- The turn of a response with tool calls.
  unfoldable pub tool_turn : LlmResponse → ℕ → Held T → Turn T
  unfolding after_gather record_of with_turn
  tool_turn r tokens (c, m) =
      let c' = with_turn r c in
      after_gather r tokens c' (gather o c' (map record_of (calls_of r)) m)

  -- A response with no error: tool calls, or the end of the run.
  unfoldable pub good_turn : Bool → LlmResponse → ℕ → Held T → Turn T
  unfolding tool_turn complete
  good_turn true r tokens h = tool_turn r tokens h
  good_turn false r tokens h = ended_turn tokens [] (complete o r.text tokens h)

  unfoldable pub checked_turn : Option String → LlmResponse → ℕ → Held T → Turn T
  unfolding good_turn fail account
  checked_turn (some e) r tokens h = ended_turn tokens [] (fail o e h)
  checked_turn none r tokens h =
      good_turn (has_tool_calls r) r (tokens + r.tokens_used) (account o r h)

  -- What follows the model's answer.
  unfoldable pub answer_turn : Chatted → ℕ → Held T → Turn T
  unfolding checked_turn
  answer_turn (chat_raised e) tokens h = record {
    held = h;
    tokens = tokens;
    events = [];
    end = chat_broke e;
  }
  answer_turn (answered r) tokens h = checked_turn (text_or_none r.error) r tokens h

  -- `cont.tool_definitions or None`
  unfoldable pub tools_of : Option (List Value) → Option (List Value)
  unfolding is_nonempty
  tools_of none = none
  tools_of (some ts) = if is_nonempty ts then some ts else none

  unfoldable pub question : Continuation → Question
  unfolding tools_of
  question c = record {
    chat_model = c.chat_model;
    provider = c.provider;
    endpoint = c.endpoint;
    api_key_ref = c.api_key_ref;
    messages = c.messages;
    tools = tools_of c.tool_definitions;
  }

  -- `self._llm.chat(…)`
  unfoldable pub ask : Continuation → Machine T → Machine T
  unfolding question
  ask c m = record m { outside = (o.chat (question c) m.outside).1; trace = asked ∷ m.trace }

  -- `_run_one_turn`
  unfoldable pub run_one_turn : ℕ → ℕ → Held T → Turn T
  unfolding ask question
  run_one_turn turn tokens (c, m) =
      answer_turn (o.chat (question c) m.outside).0 tokens (record c { step_index = turn }, ask c m)
