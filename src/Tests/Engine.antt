-- ===== src/Tests/Engine.antt =====
-- The step engine at concrete inputs: a model that asks for tools once and then ends.
use helios_os.Prelude.{
  ℕ, ◌+◌, ◌≤◌, String, Bool, true, false, ◌≡◌, ◌≢◌, refl, Option, none, some, List, [], ◌∷◌, ◌++◌,
  All, any, map, ◌==◌, get, contains, ap, arith, eq_iff, if◌then◌else◌, put,
}
use helios_os.Kernel.Json.{Value, str}
use helios_os.Runtime.Continuation.{
  RunState, CallStatus, ResolutionOutcome, Resolution, ToolCallRecord, Continuation,
  find_by_external_ref, touch,
}
use helios_os.Runtime.Outcome.{Ran}
use helios_os.Runtime.Response.{ToolCall, LlmResponse, calls_of}
use helios_os.Runtime.Shaping.{Kind, content_str}
use helios_os.Runtime.Engine.Machine.{Outside, Machine, answered, usable, returns}
use helios_os.Runtime.Engine.Turn.{tool_turn, goes_on, kind_of}
use helios_os.Runtime.Engine.Ending.{is_executed}
use helios_os.Runtime.Engine.Drive.{drive}
use helios_os.Runtime.Engine.Resume.{resume}
use helios_os.Runtime.Engine.Bounds.{asks, drive_asks_at_most}
use helios_os.Runtime.Engine.Origins.{HasAnswer}
use helios_os.Runtime.Engine.Replies.{dispatched}
use helios_os.Runtime.Engine.Complete.{HasResults, called, turn_answers_calls}
use helios_os.Runtime.Engine.Parking.{RefersTo, parked_cont, parked_store, parked_run_found}
use helios_os.Runtime.Engine.Duplicates.{
  OnlyStore, second_resolution_runs_nothing, rejected_call_is_dispatched, resuming, with_token,
}
use helios_os.Runtime.Engine.Dispatch.{Progress, dispatch_authorized, act_authorized}
use helios_os.Runtime.Engine.Machine.{keep_cont}
use helios_os.Kernel.Capability.{authorize}
use helios_os.Runtime.Engine.Tools.{Executed, value, suspends}
use helios_os.Runtime.Shaping.Results.{
  turn_message, replies, answered_ids, called_ids, answered_texts,
}
use helios_os.Runtime.Engine.Turn.{
  after_gather, settle_turn, append_results, with_results, take_sigterm, after_signals, is_parked,
  settled_record, record_of, with_turn,
}
use helios_os.Runtime.Engine.Ending.{is_pending}
use helios_os.Runtime.Engine.Dispatch.{
  gather, run_schedule, move_at, end_all, move, begin, admission, tool_call, act_on, with_admission,
  finish, after_tool,
}
use helios_os.Runtime.Engine.Tools.{execute_tool, gated_attempts, attempts, call_tool}
use helios_os.Kernel.Pipeline.{run_from, run, after_stage, final_allow}
use helios_os.Kernel.Stages.{
  syscall, stages, license_stage, capability_stage, tool_stage, try_token, tool_check, quota_stage,
  policy_stage, boundary_stage, dispatch_stage, audit_stage,
}
use helios_os.Kernel.Permission.{
  check_tool_call, check_agent_tool, check_approvals, scan_rules, approval_rules,
}
use helios_os.Kernel.Agent.{find_agent}
use helios_os.Kernel.Glob.{matches, ends_with, rstrip_stars}
use helios_os.Kernel.Budget.{
  reserve, check_budget, over_task, over_day, reserved_for, add_reservation,
}
use helios_os.Kernel.Decision.{allowed}
use helios_os.Runtime.Response.{calls_of, text_or_none}
use helios_os.Runtime.Shaping.{provider_kind}
use helios_os.Runtime.Continuation.{load, pending_by_id}
use helios_os.Tests.Fixtures.{no_input, fresh_world, cfg}

abbrev call_to : String → String → ToolCall
call_to id name = record { id = id; name = name; input = no_input }

abbrev says : String → Option (List ToolCall) → LlmResponse
says text calls = record {
  text = text;
  tokens_used = 7;
  input_tokens = 4;
  output_tokens = 3;
  tool_calls = calls;
  error = none;
  reasoning = none;
}

-- The model calls these tools first, and ends with a text after that. The dispatches move in the
-- order of the schedule.
abbrev outside : List ToolCall → List ℕ → Outside ℕ
outside calls order = record {
  texts = record { dumps = λ v. "json"; str_of = λ v. "text" };
  reason_text = λ d. "no";
  config = λ t. cfg;
  after_syscall = λ t. t;
  clock = λ t. t;
  chat = λ q t. (answered (if t == 0 then says "" (some calls) else says "all done" none), t + 1);
  executor = usable;
  max_retries = 2;
  gate = λ name input t. (none, t);
  attempt = λ name input token t. (returns (str "ok"), t);
  open_request = some (λ id pid tenant captured d t. (some "r1", t));
  fresh_ref = λ t. ("fresh", t);
  schedule = λ t. order;
}

abbrev run_one : Continuation
run_one = record {
  continuation_id = "c1";
  pid = "a1";
  generation = 1;
  run_id = none;
  session_id = none;
  tenant_id = "acme";
  user_id = "default";
  namespace = "default";
  messages = [];
  provider = "openai";
  chat_model = "gpt-x";
  endpoint = none;
  api_key_ref = none;
  tool_definitions = none;
  step_index = 0;
  max_turns = 5;
  goal = none;
  status = RunState.running;
  suspend_reason = none;
  pending_calls = [];
  resource_usage = record { tokens_in = 0; tokens_out = 0; tool_calls = 0 };
  source = "human";
  enqueue_epoch = 1;
  last_error = none;
  final_output = "";
  updated_at = 0;
}

abbrev pub machine : Machine ℕ
machine = record {
  store = record { by_id = ("c1", run_one) ∷ []; ref_to_id = [] };
  kernel = fresh_world;
  table = none;
  outside = 0;
  trace = [];
}

abbrev pub reads : Outside ℕ
reads = outside (call_to "u1" "mcp.read" ∷ call_to "u2" "mcp.list" ∷ []) (1 ∷ 0 ∷ 0 ∷ 1 ∷ [])

abbrev driven : Machine ℕ × Ran
driven = drive reads false "c1" machine

drive_asks_at_most_example : asks (drive reads false "c1" machine).0.trace ≤ asks machine.trace + 5
unfolding load get
drive_asks_at_most_example = drive_asks_at_most reads false "c1" machine run_one refl

is_vertex : Kind → Bool
is_vertex Kind.vertex = true
is_vertex _ = false

not_vertex : kind_of reads run_one ≢ Kind.vertex
unfolding provider_kind contains is_vertex
not_vertex e = let f : false ≡ true = ap is_vertex e in cc

abbrev two_reads : LlmResponse
two_reads = says "" (some (call_to "u1" "mcp.read" ∷ call_to "u2" "mcp.list" ∷ []))

turn_goes_on : (tool_turn reads two_reads 0 (run_one, machine)).end ≡ goes_on
unfolding tool_turn after_gather gather run_schedule move_at end_all move begin admission tool_call
    act_on with_admission syscall run_from run stages license_stage after_stage capability_stage
    tool_stage try_token tool_check check_tool_call check_agent_tool check_approvals scan_rules
    matches find_agent any approval_rules quota_stage reserve check_budget over_task over_day
    reserved_for get allowed policy_stage boundary_stage dispatch_stage audit_stage final_allow
    finish execute_tool gated_attempts attempts call_tool after_tool settle_turn append_results
    with_results take_sigterm after_signals is_parked settled_record record_of calls_of text_or_none
    ends_with rstrip_stars add_reservation put
turn_goes_on = refl

abbrev two_dispatches : List Progress
two_dispatches =
    (gather reads (with_turn reads two_reads run_one) (map record_of (calls_of two_reads))
      machine).0

turn_answers_calls_example :
    (map dispatched two_dispatches ≡ map called (calls_of two_reads))
    × All (HasAnswer reads) two_dispatches
    × (rs : List ToolCallRecord) × HasResults two_dispatches rs
    × All (λ x. is_executed x ≡ true) rs
    × ((tool_turn reads two_reads 0 (run_one, machine)).held.0.messages
        ≡ [] ++ turn_message reads.texts Kind.openai two_reads ∷ replies reads.texts Kind.openai rs)
    × (answered_ids Kind.openai (replies reads.texts Kind.openai rs)
        ≡ called_ids Kind.openai (turn_message reads.texts Kind.openai two_reads))
    × (answered_texts Kind.openai (replies reads.texts Kind.openai rs)
        ≡ map (λ (x : ToolCallRecord). content_str reads.texts x.result) rs)
unfolding provider_kind contains
turn_answers_calls_example =
    turn_answers_calls reads two_reads 0 run_one machine turn_goes_on not_vertex

-- A call that waits for a human, and one that was run.
abbrev pub call_record : String → String → CallStatus → Option String → ToolCallRecord
call_record id name status ref = record {
  tool_use_id = id;
  name = name;
  arguments = no_input;
  status = status;
  suspend_reason = some "human_approval";
  external_ref = ref;
  capability_token = none;
  result = str "ok";
  result_is_error = false;
}

abbrev two_calls : CallStatus → List ToolCallRecord
two_calls status =
    call_record "u1" "mcp.read" status (some "r0")
    ∷ call_record "u2" "mcp.send" CallStatus.pending (some "r1")
    ∷ []

parked_run_found_example :
    All
      (λ r.
        (ref : String)
        → RefersTo ref r
        → find_by_external_ref ref
            (parked_store reads (two_calls CallStatus.executed) 7 (run_one, machine))
          ≡ some (parked_cont reads (two_calls CallStatus.executed) 7 (run_one, machine)))
      (two_calls CallStatus.executed)
parked_run_found_example =
    parked_run_found reads (two_calls CallStatus.executed) 7 run_one machine
      (λ e. ground (arith, eq_iff "c1" ""))

abbrev pub parked_with : CallStatus → Continuation
parked_with status = record run_one {
  status = RunState.suspended;
  pending_calls = two_calls status;
}

abbrev pub machine_with : CallStatus → Machine ℕ
machine_with status = record machine {
  store = record { by_id = ("c1", parked_with status) ∷ []; ref_to_id = ("r1", "c1") ∷ [] };
}

abbrev answer : String → Resolution
answer id = record {
  continuation_id = "c1";
  tool_use_id = id;
  outcome = ResolutionOutcome.accept;
  capability_token = some "k9";
  result_payload = no_input;
  responded_by = some "ann";
}

second_resolution_runs_nothing_example :
    let after = (resume reads true (answer "u1") (machine_with CallStatus.executed)).0 in
    OnlyStore reads after (machine_with CallStatus.executed)
unfolding load get pending_by_id any is_pending
second_resolution_runs_nothing_example =
    second_resolution_runs_nothing reads true (answer "u1") (machine_with CallStatus.executed)
      (parked_with CallStatus.executed)
      (call_record "u1" "mcp.read" CallStatus.executed (some "r0"))
      (record { loaded = refl; suspended = refl; found = refl; waits_on = refl }) refl

-- The late approval finds the process unknown to the kernel, and the call answered with its refusal.
abbrev rejected_machine : Machine ℕ
rejected_machine = machine_with CallStatus.rejected

abbrev rejected_call : ToolCallRecord
rejected_call = call_record "u1" "mcp.read" CallStatus.rejected (some "r0")

abbrev late_dispatch : Executed × Machine ℕ
late_dispatch =
    let h = resuming reads (parked_with CallStatus.rejected) rejected_machine in
    dispatch_authorized reads h.0 (with_token reads (answer "u1") rejected_call) h.1

abbrev late_answer : Executed → Value
late_answer (value v) = v
late_answer (suspends s) = str ""

late_dispatch-value : late_dispatch.0 ≡ value (late_answer late_dispatch.0)
unfolding tool_turn after_gather gather run_schedule move_at end_all move begin admission tool_call
    act_on with_admission syscall run_from run stages license_stage after_stage capability_stage
    tool_stage try_token tool_check check_tool_call check_agent_tool check_approvals scan_rules
    matches find_agent any approval_rules quota_stage reserve check_budget over_task over_day
    reserved_for get allowed policy_stage boundary_stage dispatch_stage audit_stage final_allow
    finish execute_tool gated_attempts attempts call_tool after_tool settle_turn append_results
    with_results take_sigterm after_signals is_parked settled_record record_of calls_of text_or_none
    ends_with rstrip_stars add_reservation put dispatch_authorized act_authorized keep_cont
    authorize touch
late_dispatch-value = refl

rejected_call_is_dispatched_example :
    OnlyStore reads (resume reads true (answer "u1") rejected_machine).0 late_dispatch.1
unfolding load get pending_by_id any is_pending
rejected_call_is_dispatched_example =
    rejected_call_is_dispatched reads true (answer "u1") rejected_machine
      (parked_with CallStatus.rejected) rejected_call (late_answer late_dispatch.0)
      (record { loaded = refl; suspended = refl; found = refl; waits_on = refl }) refl refl
      late_dispatch-value
