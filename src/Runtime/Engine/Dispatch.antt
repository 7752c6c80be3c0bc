-- ===== src/Runtime/Engine/Dispatch.antt =====
-- The dispatch of a turn's tool calls: `_admit`, `_dispatch`, `_dispatch_authorized` and
-- `_open_suspension` (src/runtime/engine.py), and the `asyncio.gather` that runs them side by side.
-- A dispatch is cut where it first waits, between its admission and its tool. The event loop starts
-- the dispatches in order and may end them in any; here a schedule says whose turn it is, and every
-- schedule is allowed. Whatever is not ended by the schedule is ended after it, since `gather` waits
-- for all. Of the exceptions that `gather` would return, none can come out of a dispatch.
use Prim.Native.String.{◌++◌ as str_append}
use helios_os.Prelude.{ℕ, zero, suc, String, true, Option, none, some, List, [], ◌∷◌, map}
use helios_os.Kernel.Json.{Value, bool}
use helios_os.Kernel.Decision.{
  KernelDecision, Action, Captured, allow, deny, mask, ask_human, rate_limit,
}
use helios_os.Kernel.Pipeline.{Syscall}
use helios_os.Kernel.Stages.{syscall}
use helios_os.Runtime.Continuation.{ToolCallRecord, Continuation}
use helios_os.Runtime.Response.{text_or_none}
use helios_os.Runtime.Shaping.{obj}
use helios_os.Runtime.Engine.Machine.{Suspend, Outside, Admission, Machine}
use helios_os.Runtime.Engine.Tools.{
  Executed, value, suspends, error_result, execute_tool, commit_ticket, release_ticket,
}

-- The syscall of one tool call.
unfoldable pub tool_call : Continuation → String → Value → Option String → Syscall
unfolding text_or_none
tool_call c name input token = record {
  verb = "tool.call";
  subject = c.pid;
  object_name = name;
  args = record {
    capability_token = text_or_none token;
    tool_input = input;
    command = "";
    target_namespace = none;
    callee_namespace = none;
    estimated_cost_usd = some 0;
    estimated_tokens = none;
    tenant_id = some c.tenant_id;
  };
  tenant = none;
  last_decision = none;
  budget_ticket = none;
}

-- `SuspendReason.HUMAN_APPROVAL`
abbrev pub human_approval : String
human_approval = "human_approval"

-- What a dispatch ends with.
pub data Ended : Type 0 where
  result : Value → Ended
  parked : Suspend → Ended

pub data Progress : Type 0 where
  waiting : ToolCallRecord → Progress
  running : ToolCallRecord → Option String → Admission → Progress
  ended : ToolCallRecord → Ended → Progress

-- `"{action}: "`
unfoldable pub action_prefix : Action → String
action_prefix rate_limit = "rate_limit: "
action_prefix _ = "deny: "

module _ {T : Type 0} (o : Outside T) where
  -- The admission of a call in the present state; the dispatcher is `None`.
  unfoldable pub admission : Continuation → String → Value → Option String → Machine T → Admission
  unfolding tool_call
  admission c name input token m = record {
    call = tool_call c name input token;
    config = record (o.config m.outside) { dispatcher = none };
    kernel = m.kernel;
  }

  abbrev pub decision_of : Admission → KernelDecision
  decision_of adm = (syscall adm.config adm.call adm.kernel).decision

  -- `_admit`, which leaves the kernel as the syscall does.
  unfoldable pub with_admission : Admission → Machine T → Machine T
  with_admission adm m = record m {
    kernel = (syscall adm.config adm.call adm.kernel).state;
    outside = o.after_syscall m.outside;
  }

  -- `details.get("captured_action") or {…}`
  unfoldable pub captured_of : ToolCallRecord → KernelDecision → Captured
  captured_of rec d = elim d.captured [
    | some captured ↦ captured
    | none ↦ record { tool_name = rec.name; tool_input = rec.arguments }
  ]

  -- The request of the gateway, where one is wired; an exception of it counts as none.
  unfoldable pub ask_gateway :
      Continuation → ToolCallRecord → KernelDecision → Machine T → Option String × Machine T
  unfolding captured_of
  ask_gateway c rec d m = elim o.open_request [
    | none ↦ (none, m)
    | some ask ↦
        let (id, t) = ask c.continuation_id c.pid c.tenant_id (captured_of rec d) d m.outside in
        (id, record m { outside = t })
  ]

  -- The gateway's id, or a synthetic one.
  unfoldable pub reference_for :
      Continuation → ToolCallRecord → KernelDecision → Machine T → String × Machine T
  unfolding ask_gateway
  reference_for c rec d m =
      let (id, m') = ask_gateway c rec d m in
      elim id [
        | some ref ↦ (ref, m')
        | none ↦ let (ref, t) = o.fresh_ref m'.outside in (ref, record m' { outside = t })
      ]

  -- `_open_suspension`
  unfoldable pub open_suspension :
      Continuation → ToolCallRecord → KernelDecision → Machine T → Progress × Machine T
  unfolding reference_for
  open_suspension c rec d m =
      let (ref, m') = reference_for c rec d m in
      (
        ended (record rec { suspend_reason = some human_approval; external_ref = some ref })
            (parked (record {
              reason = human_approval;
              tool_use_id = rec.tool_use_id;
              external_ref = some ref;
            })),
        m',
      )

  unfoldable pub refused : KernelDecision → Ended
  unfolding action_prefix error_result
  refused d = result (error_result (str_append (action_prefix d.action) (o.reason_text d)))

  -- What `_dispatch` does on an action of the decision, up to its tool.
  unfoldable pub act_on :
      Action
      → Continuation
      → ToolCallRecord
      → Admission
      → KernelDecision
      → Machine T
      → Progress × Machine T
  unfolding refused
  act_on ask_human c rec adm d m = open_suspension c rec d m
  act_on deny c rec adm d m = (ended rec (refused d), m)
  act_on rate_limit c rec adm d m = (ended rec (refused d), m)
  act_on mask c rec adm d m = (ended rec (result (obj (("masked", bool true) ∷ []))), m)
  act_on allow c rec adm d m = (running rec d.ticket adm, m)

  -- The first half of `_dispatch`.
  unfoldable pub begin : Continuation → ToolCallRecord → Machine T → Progress × Machine T
  begin c rec m =
      let adm = admission c rec.name rec.arguments rec.capability_token m in
      act_on (decision_of adm).action c rec adm (decision_of adm) (with_admission adm m)

  -- What follows a tool: its ticket. A tool that must wait gives its ticket back first.
  unfoldable pub after_tool :
      ToolCallRecord → Option String → Executed × Machine T → Progress × Machine T
  unfolding commit_ticket release_ticket
  after_tool rec ticket (value v, m) = (ended rec (result v), commit_ticket ticket m)
  after_tool rec ticket (suspends s, m) =
      (ended rec (parked s), commit_ticket ticket (release_ticket ticket m))

  -- The second half of `_dispatch`.
  unfoldable pub finish :
      ToolCallRecord → Option String → Admission → Machine T → Progress × Machine T
  finish rec ticket adm m = after_tool rec ticket (execute_tool o adm rec.name rec.arguments none m)

  -- One move of one dispatch.
  unfoldable pub move : Continuation → Progress → Machine T → Progress × Machine T
  move c (waiting rec) m = begin c rec m
  move c (running rec ticket adm) m = finish rec ticket adm m
  move c (ended rec e) m = (ended rec e, m)

  -- A move of the dispatch at a position; there may be none.
  unfoldable pub move_at : Continuation → ℕ → List Progress → Machine T → List Progress × Machine T
  move_at c i [] m = ([], m)
  move_at c zero (p ∷ ps) m = let (p', m') = move c p m in (p' ∷ ps, m')
  move_at c (suc i) (p ∷ ps) m = let (ps', m') = move_at c i ps m in (p ∷ ps', m')

  unfoldable pub run_schedule :
      Continuation → List ℕ → List Progress → Machine T → List Progress × Machine T
  run_schedule c [] ps m = (ps, m)
  run_schedule c (i ∷ is) ps m = let (ps', m') = move_at c i ps m in run_schedule c is ps' m'

  -- A dispatch has two moves at most.
  unfoldable pub end_all : Continuation → List Progress → Machine T → List Progress × Machine T
  end_all c [] m = ([], m)
  end_all c (p ∷ ps) m =
      let (p1, m1) = move c p m in
      let (p2, m2) = move c p1 m1 in let (ps', m') = end_all c ps m2 in (p2 ∷ ps', m')

  -- `asyncio.gather` over the dispatches of a turn.
  unfoldable pub gather : Continuation → List ToolCallRecord → Machine T → List Progress × Machine T
  unfolding run_schedule end_all
  gather c records m =
      let (ps, m') = run_schedule c (o.schedule m.outside) (map waiting records) m in
      end_all c ps m'

  -- What `_dispatch_authorized` does on an action of the decision; a `mask` is not told from an
  -- allowance. The ticket is committed in any case.
  unfoldable pub act_authorized :
      Action → ToolCallRecord → Admission → KernelDecision → Machine T → Executed × Machine T
  unfolding action_prefix error_result commit_ticket
  act_authorized ask_human rec adm d m = (
    value (error_result "approval token did not authorize the gated tool (expired or mismatched)"),
    m,
  )
  act_authorized deny rec adm d m =
      (value (error_result (str_append (action_prefix d.action) (o.reason_text d))), m)
  act_authorized rate_limit rec adm d m =
      (value (error_result (str_append (action_prefix d.action) (o.reason_text d))), m)
  act_authorized _ rec adm d m =
      let (e, m') =
        execute_tool o adm rec.name rec.arguments (text_or_none rec.capability_token) m in
      (e, commit_ticket d.ticket m')

  -- `_dispatch_authorized`, with the token of the record.
  unfoldable pub dispatch_authorized :
      Continuation → ToolCallRecord → Machine T → Executed × Machine T
  dispatch_authorized c rec m =
      let adm = admission c rec.name rec.arguments rec.capability_token m in
      act_authorized (decision_of adm).action rec adm (decision_of adm) (with_admission adm m)
