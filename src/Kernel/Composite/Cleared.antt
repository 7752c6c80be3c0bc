-- ===== src/Kernel/Composite/Cleared.antt =====
-- What the composite check lets through, and what it does not look at.
use helios_os.Prelude.{
  ℕ, String, Bool, true, false, any, ◌≡◌, ◌⊎◌, refl, Option, none, some, get, arith,
}
use helios_os.Kernel.Json.{Value}
use helios_os.Kernel.Decision.{
  KernelDecision, rate_limit, allowing, allowed, denied, policies_permit,
}
use helios_os.Kernel.Policy.{evaluate}
use helios_os.Kernel.Agent.{Agent}
use helios_os.Kernel.Permission.{list_empty}
use helios_os.Kernel.Permission.Tools.{IsListed}
use helios_os.Kernel.Budget.{BudgetManager, check_budget, over_task, reserve}
use helios_os.Kernel.Stages.{Config}
use helios_os.Platform.NamespacePolicy.{NamespacePolicy, GlobalPolicy, PolicyStore}
use helios_os.Kernel.Composite.{
  Governance, on, stop_denied, policy_context, registered, license_gate, global_gate,
  namespace_gate, permission_gate, budget_gate, evaluate_gate, gates, composite_check,
}

-- What each of the tests looks at.
module _ (fnmatch : String → String → Bool) (tool_name : String) where
  abbrev pub GloballyAllowed : Option GlobalPolicy → Type 0
  GloballyAllowed none = Unit
  GloballyAllowed (some p) = any (fnmatch tool_name) p.denied_tools ≡ false

  abbrev pub AllowedBy : Option NamespacePolicy → Type 0
  AllowedBy none = Unit
  AllowedBy (some p) =
      (any (fnmatch tool_name) p.denied_tools ≡ false)
      × ((list_empty p.allowed_tools ≡ true) ⊎ (any (fnmatch tool_name) p.allowed_tools ≡ true))

  abbrev pub AllowedIn : Option PolicyStore → String → Type 0
  AllowedIn none namespace = Unit
  AllowedIn (some store) namespace = AllowedBy (get namespace store)

abbrev pub Licensed : Option (String → KernelDecision) → String → Type 0
Licensed none tenant = Unit
Licensed (some check) tenant = denied (check tenant) ≡ false

abbrev pub WithinTask : Option ℕ → Agent → Type 0
WithinTask none agent = Unit
WithinTask (some cost) agent = over_task agent.per_task_usd cost ≡ false

-- Everything that the composite check asks of the agent and the tool.
pub record IsCleared (cfg : Config) (g : Governance) (agent : Agent) (tool_name : String)
    (tool_input : Value) (cost : Option ℕ) : Type 0 where
  pub listed : IsListed agent tool_name
  pub licensed : Licensed cfg.license agent.tenant_id
  pub globally : GloballyAllowed g.fnmatch tool_name g.global_policy
  pub locally : AllowedIn g.fnmatch tool_name g.policy_store agent.namespace
  pub affordable : WithinTask cost agent
  pub permitted :
      evaluate cfg.conv g.policies agent.policies (policy_context agent tool_name tool_input)
      ≡ some (allowing policies_permit)

module _ (cfg : Config) (g : Governance) where
  -- All the gates are on.
  record Passed (id tool : String) (input : Value) (cost : Option ℕ) (b : BudgetManager)
      : Type 0 where
    license : license_gate cfg g cfg.license cfg.agents id ≡ on
    global : global_gate cfg g g.global_policy tool ≡ on
    namespace : namespace_gate cfg g g.policy_store (registered cfg g cfg.agents id) tool ≡ on
    permission : permission_gate cfg g id tool input ≡ on
    budget : budget_gate cfg g id cost b ≡ on
    evaluate : evaluate_gate cfg g (registered cfg g cfg.agents id) tool input ≡ on

  budget-ignored :
      (id : String) (cost : ℕ) (b : BudgetManager)
      → (check_budget cfg.agents cfg.today id (some cost) b).action ≡ rate_limit
      → budget_gate cfg g id (some cost) b ≡ budget_gate cfg g id none b
  unfolding budget_gate stop_denied denied
  budget-ignored id cost b h = ground arith

  -- An estimate that exceeds the limit of the day gets no reservation in the syscall pipeline, but
  -- the composite check answers as if no cost were estimated at all.
  pub spent_day_ignored :
      (id tool ticket : String) (input : Value) (cost : ℕ) (tokens : Option ℕ) (b : BudgetManager)
      → (check_budget cfg.agents cfg.today id (some cost) b).action ≡ rate_limit
      → ((reserve cfg.agents cfg.today ticket id (some cost) tokens b).1 ≡ none)
        × (composite_check cfg g id tool input (some cost) b
            ≡ composite_check cfg g id tool input none b)
  unfolding reserve allowed composite_check gates
  spent_day_ignored id tool ticket input cost tokens b h =
      (ground arith, rw (budget-ignored id cost b h) refl)
