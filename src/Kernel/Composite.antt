-- ===== src/Kernel/Composite.antt =====
-- The older checks of the kernel that bypass the pipeline: `Kernel.check_tool_call` and
-- `Kernel.check_a2a_call` (src/platform/kernel/_facade.py), with the tests on tool patterns of
-- `NamespacePolicy` and `GlobalPolicy` (src/platform/namespace_policy.py). Both only read; what they
-- tell the audit log is part of their answer.
pub mod Refusals
pub mod Verdicts
pub mod Cleared
use helios_os.Prelude.{
  ℕ, String, str_eq, Bool, true, false, not, any, Option, none, some, List, [], ◌∷◌, get,
  if◌then◌else◌,
}
use helios_os.Kernel.Json.{Value, str, dict, Fields, field, no_fields}
use helios_os.Kernel.Decision.{
  KernelDecision, allowing, denying, allowed, denied, needs_human, license_required, global_denied,
  namespace_denied, call_permitted,
}
use helios_os.Kernel.Policy.{PolicyEngine, evaluate}
use helios_os.Kernel.Agent.{Agent, find_agent}
use helios_os.Kernel.Permission.{check_tool_call, check_a2a, list_empty, or_empty}
use helios_os.Kernel.Budget.{BudgetManager, check_budget}
use helios_os.Kernel.Stages.{Config}
use helios_os.Platform.NamespacePolicy.{NamespacePolicy, GlobalPolicy, PolicyStore}

-- What the composite check reads beside the configuration. `fnmatch` is Python's test of a name
-- against a pattern.
pub record Governance : Type 0 where
  pub fnmatch : String → String → Bool
  pub global_policy : Option GlobalPolicy
  pub policy_store : Option PolicyStore
  pub policies : PolicyEngine

-- What one of the tests does: the next one follows, the check is answered, with what is audited, or
-- the test raises.
pub data Gate : Type 0 where
  on raises : Gate
  stop : KernelDecision → Option String → Gate

unfoldable pub and_then : Gate → Gate → Gate
and_then on next = next
and_then raises next = raises
and_then (stop d a) next = stop d a

-- What is answered where every test lets the call through.
unfoldable pub answer : String → Gate → Option (KernelDecision × Option String)
answer event on = some (allowing call_permitted, some event)
answer event raises = none
answer event (stop d a) = some (d, a)

-- A decision that is a denial ends the check, with an entry of its own in the audit log.
unfoldable pub stop_denied : String → KernelDecision → Gate
stop_denied event d = if denied d then stop d (some event) else on

-- The same for one that is a denial or asks a human; `none` raises.
unfoldable pub stop_gated : String → String → Option KernelDecision → Gate
stop_gated deny_event ask_event none = raises
stop_gated deny_event ask_event (some d) =
    if denied d
    then stop d (some deny_event)
    else if needs_human d
    then stop d (some ask_event)
    else on

-- `is_tool_denied`
unfoldable pub is_tool_denied : (String → String → Bool) → String → GlobalPolicy → Bool
is_tool_denied fnmatch tool_name p = any (fnmatch tool_name) p.denied_tools

-- `is_tool_allowed`
unfoldable pub is_tool_allowed : (String → String → Bool) → String → NamespacePolicy → Bool
is_tool_allowed fnmatch tool_name p =
    if any (fnmatch tool_name) p.denied_tools
    then false
    else if list_empty p.allowed_tools
    then true
    else any (fnmatch tool_name) p.allowed_tools

-- The context in which the policies of an agent are evaluated.
unfoldable pub policy_context : Agent → String → Value → Value
policy_context agent tool_name tool_input = dict (
    field "tool_name" (str tool_name) (
      field "tool_input" (or_empty tool_input) (
        field "agent_namespace" (str agent.namespace)
          (field "agent_name" (str agent.name) no_fields))))

module _ (cfg : Config) (g : Governance) where
  -- `self._registry.get(agent_id) if self._registry else None`
  unfoldable pub registered : Option (List Agent) → String → Option Agent
  registered none agent_id = none
  registered (some agents) agent_id = find_agent agent_id agents

  -- The license of the tenant of the agent.
  unfoldable pub tenant_gate : (String → KernelDecision) → Option Agent → Gate
  unfolding stop_denied
  tenant_gate check none = on
  tenant_gate check (some agent) = stop_denied "license.denied" (check agent.tenant_id)

  -- The license gate; without a license manager or without a registry only the mode counts.
  unfoldable pub license_gate :
      Option (String → KernelDecision) → Option (List Agent) → String → Gate
  unfolding tenant_gate registered
  license_gate (some check) (some agents) agent_id = tenant_gate check (find_agent agent_id agents)
  license_gate license agents agent_id =
      if cfg.production then stop (denying license_required) none else on

  unfoldable pub global_gate : Option GlobalPolicy → String → Gate
  unfolding is_tool_denied
  global_gate none tool_name = on
  global_gate (some p) tool_name =
      if is_tool_denied g.fnmatch tool_name p
      then stop (denying global_denied) (some "tool.denied")
      else on

  unfoldable pub policy_gate : Option NamespacePolicy → String → Gate
  unfolding is_tool_allowed
  policy_gate none tool_name = on
  policy_gate (some p) tool_name =
      if is_tool_allowed g.fnmatch tool_name p
      then on
      else stop (denying namespace_denied) (some "tool.denied")

  unfoldable pub namespace_gate : Option PolicyStore → Option Agent → String → Gate
  unfolding policy_gate
  namespace_gate (some store) (some agent) tool_name =
      policy_gate (get agent.namespace store) tool_name
  namespace_gate store agent tool_name = on

  unfoldable pub permission_gate : String → String → Value → Gate
  unfolding stop_gated
  permission_gate agent_id tool_name tool_input =
      stop_gated "tool.denied" "tool.ask_human"
        (check_tool_call cfg.conv cfg.agents agent_id tool_name tool_input)

  -- The budget, if a cost is estimated: only a denial counts.
  unfoldable pub budget_gate : String → Option ℕ → BudgetManager → Gate
  unfolding stop_denied
  budget_gate agent_id none b = on
  budget_gate agent_id (some cost) b =
      stop_denied "tool.budget_denied" (check_budget cfg.agents cfg.today agent_id (some cost) b)

  -- The policies that the agent refers to.
  unfoldable pub evaluate_gate : Option Agent → String → Value → Gate
  unfolding stop_gated
  evaluate_gate none tool_name tool_input = on
  evaluate_gate (some agent) tool_name tool_input = elim agent.policies [
    | [] ↦ on
    | refs ↦
        stop_gated "tool.policy_denied" "tool.policy_ask_human"
          (evaluate cfg.conv g.policies refs (policy_context agent tool_name tool_input))
  ]

  -- The tests in their order.
  unfoldable pub gates : String → String → Value → Option ℕ → BudgetManager → Gate
  unfolding and_then license_gate global_gate namespace_gate permission_gate budget_gate
      evaluate_gate registered
  gates agent_id tool_name tool_input cost b =
      and_then (license_gate cfg.license cfg.agents agent_id) (
        and_then (global_gate g.global_policy tool_name) (
          and_then (namespace_gate g.policy_store (registered cfg.agents agent_id) tool_name) (
            and_then (permission_gate agent_id tool_name tool_input) (
              and_then (budget_gate agent_id cost b)
                (evaluate_gate (registered cfg.agents agent_id) tool_name tool_input)))))

  -- `Kernel.check_tool_call`: the decision and what is audited, or `none` where a test raises.
  unfoldable pub composite_check :
      String → String → Value → Option ℕ → BudgetManager → Option (KernelDecision × Option String)
  unfolding answer gates
  composite_check agent_id tool_name tool_input cost b =
      answer "tool.allowed" (gates agent_id tool_name tool_input cost b)

  -- `Kernel.check_a2a_call`
  unfoldable pub check_a2a_call : String → String → String → KernelDecision × String
  check_a2a_call caller_id target_namespace target_name =
      let d = check_a2a cfg.agents cfg.acl caller_id target_namespace target_name in
      (d, if allowed d then "a2a.allowed" else "a2a.denied")
