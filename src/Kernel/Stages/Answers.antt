-- ===== src/Kernel/Stages/Answers.antt =====
-- The answers that a syscall can get from the kernel's stages: none of them masks.
use Prim.Native.String.{◌++◌ as str_append}
use helios_os.Prelude.{
  String, Bool, true, false, ◌≡◌, refl, Option, none, some, List, [], ◌∷◌, ◌++◌, arith, Bool-cases,
  Option-cases, inl, inr,
}
use helios_os.Kernel.Json.{Value}
use helios_os.Kernel.Decision.{KernelDecision, mask, allowed, denied}
use helios_os.Kernel.Policy.{Conversions}
use helios_os.Kernel.Agent.{Agent, ApprovalRule, find_agent}
use helios_os.Kernel.Permission.{
  require_approval, scan_rules, check_approvals, check_agent_tool, check_tool_call, check_env_exec,
  check_a2a, check_boundaries, check_data_access, approval_context, approval_rules,
}
use helios_os.Kernel.Budget.{check_budget, reserve}
use helios_os.Kernel.Pipeline.{
  Syscall, StageName, identity, capability, quota, policy, boundary, dispatch, audit, Outcome, pass,
  crash, decided, Stage, Stages, Run, final_allow, run_audit_on_deny, stop, after_stage, run_from,
  run, stage_order,
}
use helios_os.Kernel.Stages.{
  World, Config, license_stage, tool_check, exec_check, tool_stage, exec_stage, a2a_stage,
  capability_stage, quota_stage, policy_stage, boundary_stage, dispatch_stage, audit_stage, stages,
  syscall, try_token,
}

-- The decision is not `mask`.
unfoldable pub is_plain : KernelDecision → Bool
is_plain d = elim d.action [ mask ↦ false | _ ↦ true ]

-- A stage that decides gives a plain decision.
abbrev pub PlainOutcome : Outcome → Type 0
PlainOutcome pass = Unit
PlainOutcome crash = Unit
PlainOutcome (decided d) = is_plain d ≡ true

module _ {S : Type 0} where
  abbrev pub PlainStage : Option (Stage S) → Type 0
  PlainStage none = Unit
  PlainStage (some stage) = (call : Syscall) (s : S) → PlainOutcome (stage call s).0

module _ {S : Type 0} (stages : Stages S)
    (each : (name : StageName) → PlainStage (stages name)) where
  stop-plain :
      (name : StageName) (call : Syscall) (d : KernelDecision) (s : S) (seen : List StageName)
      → is_plain d ≡ true
      → is_plain (stop stages name call d s seen).decision ≡ true
  unfolding stop run_audit_on_deny is_plain
  stop-plain name call d s seen h = ground arith

  after_stage-plain :
      (on : Syscall → S → List StageName → Run S) (name : StageName) (out : Outcome)
      (call : Syscall) (s : S) (seen : List StageName)
      → PlainOutcome out
      → is_plain (on call s seen).decision ≡ true
      → is_plain (after_stage stages on name out call s seen).decision ≡ true
  unfolding after_stage is_plain
  after_stage-plain on name pass call s seen h k = k
  after_stage-plain on name crash call s seen h k = refl
  after_stage-plain on name (decided d) call s seen h k =
      ground (arith, stop-plain name call d s seen)

  -- A run over plain stages is answered plainly.
  run_from-plain :
      (names : List StageName) (call : Syscall) (s : S) (seen : List StageName)
      → is_plain (run_from stages names call s seen).decision ≡ true
  unfolding final_allow run_from
  run_from-plain [] call s seen = unfold is_plain run_from in refl
  run_from-plain (name ∷ names) call s seen = elim (Option-cases (stages name)) [
    | inl e ↦ rw (e, run_from) (run_from-plain names call s seen)
    | inr (stage, e) ↦
        rw (e, run_from)
          (after_stage-plain (run_from stages names) name (stage call s).0 (stage call s).1
            (stage call s).2 (seen ++ name ∷ []) ((rw e at (each name)) call s)
            (run_from-plain names (stage call s).1 (stage call s).2 (seen ++ name ∷ [])))
  ]

require_approval-plain :
    (agent : Agent) (tool : String) (input : Value)
    → is_plain (require_approval agent tool input) ≡ true
unfolding require_approval is_plain
require_approval-plain agent tool input = ground arith

scan_rules-plain :
    (conv : Conversions) (agent : Agent) (tool : String) (input context : Value)
    (rules : List ApprovalRule) (d : KernelDecision)
    → scan_rules conv agent tool input context rules ≡ some (some d)
    → is_plain d ≡ true
unfolding scan_rules is_plain
scan_rules-plain conv agent tool input context [] d h = cc
scan_rules-plain conv agent tool input context (r ∷ rules) d h = ground (
  arith,
  scan_rules-plain conv agent tool input context rules d,
  require_approval-plain agent tool input,
)

check_agent_tool-plain :
    (conv : Conversions) (agent : Agent) (tool : String) (input : Value) (d : KernelDecision)
    → check_agent_tool conv agent tool input ≡ some d
    → is_plain d ≡ true
unfolding check_agent_tool check_approvals is_plain
check_agent_tool-plain conv agent tool input d h = ground (
  arith,
  scan_rules-plain conv agent tool input (approval_context tool input) (approval_rules agent) d,
)

check_tool_call-plain :
    (conv : Conversions) (agents : Option (List Agent)) (id tool : String) (input : Value)
    (d : KernelDecision)
    → check_tool_call conv agents id tool input ≡ some d
    → is_plain d ≡ true
unfolding check_tool_call is_plain
check_tool_call-plain conv none id tool input d h = ground arith
check_tool_call-plain conv (some agents) id tool input d h =
    elim (Option-cases (find_agent id agents)) [
      | inl e ↦ ground arith
      | inr (agent, e) ↦ check_agent_tool-plain conv agent tool input d (ground arith)
    ]

module _ (cfg : Config) where
  license-plain : (call : Syscall) (w : World) → PlainOutcome (license_stage cfg call w).0
  unfolding license_stage denied is_plain
  license-plain call w = ground arith

  tool_check-plain : (call : Syscall) → PlainOutcome (tool_check cfg call)
  unfolding tool_check
  tool_check-plain call =
      elim (Option-cases
        (check_tool_call cfg.conv cfg.agents call.subject call.object_name call.args.tool_input)) [
          | inl e ↦ rw e tt
          | inr (d, e) ↦ rw e (
              check_tool_call-plain cfg.conv cfg.agents call.subject call.object_name
                call.args.tool_input d e)
        ]

  tool_stage-plain : (call : Syscall) (w : World) → PlainOutcome (tool_stage cfg call w).0
  unfolding tool_stage
  tool_stage-plain call w =
      elim (Bool-cases (try_token cfg call (str_append "tool:" call.object_name) "tool.call" w).1) [
        | inl e ↦ rw e tt
        | inr e ↦ rw e (tool_check-plain call)
      ]

  exec_check-plain : (call : Syscall) → is_plain (exec_check cfg call) ≡ true
  unfolding exec_check check_env_exec is_plain
  exec_check-plain call = ground arith

  exec_stage-plain : (call : Syscall) (w : World) → PlainOutcome (exec_stage cfg call w).0
  unfolding exec_stage
  exec_stage-plain call w =
      elim (Bool-cases (try_token cfg call (str_append "env:" call.object_name) "exec" w).1) [
        | inl e ↦ rw e tt
        | inr e ↦ rw e (exec_check-plain call)
      ]

  a2a_stage-plain : (call : Syscall) (w : World) → PlainOutcome (a2a_stage cfg call w).0
  unfolding a2a_stage check_a2a is_plain
  a2a_stage-plain call w = ground arith

  capability-plain : (call : Syscall) (w : World) → PlainOutcome (capability_stage cfg call w).0
  unfolding capability_stage
  capability-plain call w =
      ground (arith, tool_stage-plain call w, exec_stage-plain call w, a2a_stage-plain call w)

  quota-plain : (call : Syscall) (w : World) → PlainOutcome (quota_stage cfg call w).0
  unfolding quota_stage reserve check_budget allowed is_plain
  quota-plain call w = ground arith

  data_access-plain : (id ns : String) → is_plain (check_data_access cfg.agents id ns) ≡ true
  unfolding check_data_access check_boundaries is_plain
  data_access-plain id ns = ground arith

  boundary-plain : (call : Syscall) (w : World) → PlainOutcome (boundary_stage cfg call w).0
  unfolding boundary_stage
  boundary-plain call w = elim (Option-cases call.args.target_namespace) [
    | inl e ↦ rw e tt
    | inr (ns, e) ↦ rw e (data_access-plain call.subject ns)
  ]

  dispatch-plain :
      (call : Syscall) (w : World)
      → cfg.dispatcher ≡ none
      → PlainOutcome (dispatch_stage cfg call w).0
  unfolding dispatch_stage
  dispatch-plain call w h = rw h tt

  audit-plain : PlainStage (stages cfg audit)
  unfolding stages audit_stage
  audit-plain = elim (Bool-cases cfg.audited) [ inl e ↦ rw e (λ call w. tt) | inr e ↦ rw e tt ]

  -- With no dispatcher, no stage masks.
  stages-plain : cfg.dispatcher ≡ none → (name : StageName) → PlainStage (stages cfg name)
  unfolding stages policy_stage
  stages-plain h identity = license-plain
  stages-plain h capability = capability-plain
  stages-plain h quota = quota-plain
  stages-plain h policy = λ call w. tt
  stages-plain h boundary = boundary-plain
  stages-plain h dispatch = λ call w. dispatch-plain call w h
  stages-plain h audit = audit-plain

  -- A syscall with no dispatcher is never answered by `mask`.
  pub syscall-plain :
      (call : Syscall) (w : World)
      → cfg.dispatcher ≡ none
      → is_plain (syscall cfg call w).decision ≡ true
  unfolding syscall run
  syscall-plain call w h = run_from-plain (stages cfg) (stages-plain h) stage_order call w []
