-- ===== src/Kernel/Agent.antt =====
-- What the kernel reads of an agent's definition (`AgentDefinition` of stacks/base.py, with its
-- v2 sections as `read_v2_section` of src/forgeos_sdk/manifest.py returns them), and the two
-- lookups that it makes in the registry (`AgentRegistry.get`, `list_all` of
-- src/platform/registry.py, with no backing store).
use helios_os.Prelude.{
  ℕ, String, str_eq, Bool, ◌&&◌, Option, none, some, List, [], ◌∷◌, if◌then◌else◌,
}
use helios_os.Kernel.Policy.{Rule, PolicyRef}

pub data Mode : Type 0 where
  always conditional never : Mode

-- One entry of `governance.approvals`.
pub record ApprovalRule : Type 0 where
  pub tool : String
  pub mode : Mode
  pub condition : Rule

pub record Agent : Type 0 where
  pub agent_id : String
  pub name : String
  pub namespace : String
  pub stack : Option String
  pub tenant_id : String
  pub tools : List String
  pub denied_tools : List String
  pub approvals : List ApprovalRule
  pub human_in_loop : List String
  pub policies : List PolicyRef
  pub exec_enabled : Bool
  pub allowed_commands : List String
  pub daily_usd : Option ℕ
  pub per_task_usd : Option ℕ
  pub allowed_namespaces : List String
  pub blocked_namespaces : List String

-- `registry.get(agent_id)`
unfoldable pub find_agent : String → List Agent → Option Agent
find_agent agent_id [] = none
find_agent agent_id (a ∷ rest) =
    if str_eq a.agent_id agent_id then some a else find_agent agent_id rest

-- The loop over `registry.list_all()` that resolves a callee.
unfoldable pub find_callee : String → String → List Agent → Option Agent
find_callee namespace name [] = none
find_callee namespace name (a ∷ rest) =
    if str_eq a.name name && str_eq a.namespace namespace
    then some a
    else find_callee namespace name rest
