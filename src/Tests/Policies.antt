-- ===== src/Tests/Policies.antt =====
-- The merging of company, namespace and agent rules at a concrete input.
use helios_os.Prelude.{◌||◌, ◌≡◌, refl, none, some, [], ◌∷◌, contains, keep}
use helios_os.Platform.NamespacePolicy.{
  NamespacePolicy, GlobalPolicy, Contract, resolve_effective_policy, named_events, audit_rank,
  pii_rank, sorted_set, all_events,
}
use helios_os.Platform.NamespacePolicy.Extremes.{AtMost}
use helios_os.Platform.NamespacePolicy.Tightening.{
  AtLeast, with_daily_budget, budgets_tighten, rules_tighten,
}

abbrev company : GlobalPolicy
company = record {
  max_daily_budget_usd = some 50;
  max_per_task_budget_usd = none;
  denied_tools = "shell" ∷ [];
  required_audit_level = "basic";
  required_hitl_events = "spend" ∷ [];
  pii_policy = "mask";
  max_a2a_depth = 5;
}

abbrev team : NamespacePolicy
team = record {
  namespace = "content";
  max_agents = none;
  daily_budget_usd = none;
  allowed_tools = [];
  denied_tools = "mail" ∷ [];
  required_audit_level = "full";
  required_hitl_events = "publish" ∷ "spend" ∷ [];
  allowed_stacks = [];
  pii_policy = "detect";
  max_tokens_per_agent_run = none;
  max_cost_per_agent_day = some 20;
  allowed_namespaces_for_data = [];
}

abbrev contract : Contract
contract = record {
  daily_usd = some 80;
  per_task_usd = some 9;
  audit_level = some "none";
  hitl_events = "" ∷ "deploy" ∷ [];
}

-- The merged events are sorted, without repetition and without the empty one.
merged_events :
    (resolve_effective_policy (some company) (some team) contract).required_hitl_events
    ≡ "deploy" ∷ "publish" ∷ "spend" ∷ []
unfolding resolve_effective_policy sorted_set all_events keep
merged_events = refl

budgets_tighten_example :
    let eff = resolve_effective_policy (some company) (some team) contract in
    AtMost eff.max_daily_budget_usd (some 50)
    × AtMost eff.max_daily_budget_usd (some 20)
    × AtMost eff.max_daily_budget_usd (some 80)
    × AtMost eff.max_per_task_budget_usd none
    × AtMost eff.max_per_task_budget_usd (some 9)
    × (resolve_effective_policy (some company) (with_daily_budget (some 1) (some team)) contract
        ≡ eff)
budgets_tighten_example = budgets_tighten (some company) (some team) contract (some 1)

rules_tighten_example :
    let eff = resolve_effective_policy (some company) (some team) contract in
    (contains "mail" eff.denied_tools
      ≡ (contains "mail" ("shell" ∷ []) || contains "mail" ("mail" ∷ [])))
    × (contains "mail" eff.required_hitl_events ≡ (
        contains "mail" ("spend" ∷ [])
        || (contains "mail" ("publish" ∷ "spend" ∷ [])
            || contains "mail" (named_events ("" ∷ "deploy" ∷ [])))))
    × AtLeast audit_rank eff.required_audit_level (some "basic")
    × AtLeast audit_rank eff.required_audit_level (some "full")
    × AtLeast pii_rank eff.pii_policy (some "mask")
    × AtLeast pii_rank eff.pii_policy (some "detect")
rules_tighten_example = rules_tighten (some company) (some team) contract "mail"
