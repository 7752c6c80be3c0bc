-- ===== src/Kernel/Stages.antt =====
-- The stages that the kernel wires and the syscall that runs them: `make_license_stage`
-- (src/platform/kernel/_license_stage.py), the other `make_…_stage` factories
-- (src/platform/kernel/_syscall.py), `Kernel._build_pipeline` and `Kernel.syscall`
-- (src/platform/kernel/_facade.py).
pub mod Soundness
pub mod Leaks
pub mod Answers
use Prim.Native.String.{◌++◌ as str_append}
use helios_os.Prelude.{
  ℕ, String, str_eq, Bool, true, false, not, ◌&&◌, Option, none, some, List, [], ◌∷◌, Dict, or_else,
  if◌then◌else◌,
}
use helios_os.Kernel.Json.{Value}
use helios_os.Kernel.Decision.{KernelDecision, denying, denied, license_required}
use helios_os.Kernel.Policy.{Conversions, PolicyEngine}
use helios_os.Kernel.Agent.{Agent}
use helios_os.Kernel.Permission.{check_tool_call, check_env_exec, check_a2a, check_data_access}
use helios_os.Kernel.Budget.{BudgetManager, reserve}
use helios_os.Kernel.Capability.{CapabilityStore, authorize}
use helios_os.Kernel.Pipeline.{
  Syscall, StageName, identity, capability, quota, policy, boundary, dispatch, audit, Outcome, pass,
  crash, decided, Stage, Stages, Run, run,
}

-- One call of the audit recorder.
pub record AuditEntry : Type 0 where
  pub verb : String
  pub agent_id : String
  pub object_name : String
  pub denial : Option KernelDecision
  pub budget_ticket : Option String

-- What the stages change.
pub record World : Type 0 where
  pub budgets : BudgetManager
  pub tokens : CapabilityStore
  pub log : List AuditEntry

-- What the kernel is built with, and what the outside answers during one syscall: the license
-- manager's check, the production flag, today's cost, two readings of the clock, the ticket that
-- `uuid` draws, and the dispatcher.
pub record Config : Type 0 where
  pub conv : Conversions
  pub agents : Option (List Agent)
  pub acl : Option (Agent → String → String → Bool)
  pub env_lookup : Option (String → Option String)
  pub license : Option (String → KernelDecision)
  pub production : Bool
  pub today : ℕ
  pub now : ℕ
  pub later : ℕ
  pub ticket : String
  pub dispatcher : Option (Stage World)
  pub audited : Bool

module _ (cfg : Config) where
  -- `context.get("tenant_id") or args.get("tenant_id", "default")`
  unfoldable pub tenant_of : Syscall → String
  tenant_of call = elim call.tenant [
    | some t ↦ if str_eq t "" then or_else call.args.tenant_id "default" else t
    | none ↦ or_else call.args.tenant_id "default"
  ]

  unfoldable pub license_stage : Stage World
  license_stage call w = elim cfg.license [
    | none ↦
        if cfg.production then (decided (denying license_required), call, w) else (pass, call, w)
    | some check ↦
        let tenant = tenant_of call in
        let d = check tenant in
        (if denied d then decided d else pass, record call { tenant = some tenant }, w)
  ]

  abbrev pub outcome_of : Option KernelDecision → Outcome
  outcome_of none = crash
  outcome_of (some d) = decided d

  -- `token and capability_manager is not None and capability_manager.authorize(…)`
  unfoldable pub try_token : Syscall → String → String → World → World × Bool
  try_token call target verb w = elim call.args.capability_token [
    | none ↦ (w, false)
    | some token ↦
        let (tokens, ok) = authorize cfg.now cfg.later token call.subject target verb w.tokens in
        if str_eq token "" then (w, false) else (record w { tokens = tokens }, ok)
  ]

  -- The tool check without a token.
  unfoldable pub tool_check : Syscall → Outcome
  tool_check call =
      outcome_of
        (check_tool_call cfg.conv cfg.agents call.subject call.object_name call.args.tool_input)

  -- `args.get("target_namespace", args.get("callee_namespace", "default"))`
  unfoldable pub callee_namespace_of : Syscall → String
  callee_namespace_of call =
      or_else call.args.target_namespace (or_else call.args.callee_namespace "default")

  -- The branch of `tool.call`.
  unfoldable pub tool_stage : Stage World
  tool_stage call w =
      let (w', ok) = try_token call (str_append "tool:" call.object_name) "tool.call" w in
      (if ok then pass else tool_check call, call, w')

  -- The check of `env.exec` without a token.
  unfoldable pub exec_check : Syscall → KernelDecision
  exec_check call =
      check_env_exec cfg.agents cfg.env_lookup call.subject call.object_name call.args.command

  -- The branch of `env.exec`.
  unfoldable pub exec_stage : Stage World
  exec_stage call w =
      let (w', ok) = try_token call (str_append "env:" call.object_name) "exec" w in
      (if ok then pass else decided (exec_check call), call, w')

  -- The branch of `a2a.invoke`.
  unfoldable pub a2a_stage : Stage World
  a2a_stage call w = (
    decided (check_a2a cfg.agents cfg.acl call.subject (callee_namespace_of call) call.object_name),
    call,
    w,
  )

  -- `make_capability_stage(self.permissions, self.capabilities_mgr)`. `PermissionManager` has no
  -- `check_data_access`, so the branch of `data.read` raises an `AttributeError`.
  unfoldable pub capability_stage : Stage World
  capability_stage call w =
      if str_eq call.verb "tool.call"
      then tool_stage call w
      else if str_eq call.verb "env.exec"
      then exec_stage call w
      else if str_eq call.verb "a2a.invoke"
      then a2a_stage call w
      else if str_eq call.verb "data.read"
      then (crash, call, w)
      else (pass, call, w)

  -- `make_quota_stage(self.budgets)`; the estimate's default is 0.0.
  unfoldable pub quota_stage : Stage World
  quota_stage call w =
      let (b, ticket, d) =
        reserve cfg.agents cfg.today cfg.ticket call.subject
          (some (or_else call.args.estimated_cost_usd 0)) call.args.estimated_tokens w.budgets in
      (
        decided d,
        elim ticket [ none ↦ call | some t ↦ record call { budget_ticket = some t } ],
        record w { budgets = b },
      )

  -- `make_policy_stage(self.policies)`: `PolicyEngine.evaluate` takes two arguments and is given
  -- one, and the `TypeError` is read as `None`.
  unfoldable pub policy_stage : Stage World
  policy_stage call w = (pass, call, w)

  -- `make_boundary_stage(self.data)`
  unfoldable pub boundary_stage : Stage World
  boundary_stage call w = elim call.args.target_namespace [
    | none ↦ (pass, call, w)
    | some ns ↦ (decided (check_data_access cfg.agents call.subject ns), call, w)
  ]

  -- `make_dispatch_stage(dispatcher)`
  unfoldable pub dispatch_stage : Stage World
  dispatch_stage call w = elim cfg.dispatcher [
    | none ↦ (pass, call, w)
    | some dispatcher ↦ dispatcher call w
  ]

  -- `make_audit_stage(self._audit_log)`
  unfoldable pub audit_stage : Stage World
  audit_stage call w =
      let entry : AuditEntry = record {
        verb = call.verb;
        agent_id = call.subject;
        object_name = call.object_name;
        denial = call.last_decision;
        budget_ticket = call.budget_ticket;
      } in
      (pass, call, record w { log = entry ∷ w.log })

  -- `_build_pipeline`, with the dispatch stage that `syscall` sets.
  unfoldable pub stages : Stages World
  stages identity = some license_stage
  stages capability = some capability_stage
  stages quota = some quota_stage
  stages policy = some policy_stage
  stages boundary = some boundary_stage
  stages dispatch = some dispatch_stage
  stages audit = if cfg.audited then some audit_stage else none

  -- `Kernel.syscall`
  unfoldable pub syscall : Syscall → World → Run World
  syscall call w = run stages call w
