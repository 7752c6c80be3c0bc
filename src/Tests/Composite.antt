-- ===== src/Tests/Composite.antt =====
-- The composite check and the continuation store at concrete inputs.
use helios_os.Prelude.{◌≡◌, refl, none, some, List, [], ◌∷◌, get}
use text.Mathlib.Text.{starts_with}
use helios_os.Kernel.Decision.{rate_limit}
use helios_os.Kernel.Agent.{Agent, find_agent}
use helios_os.Kernel.Budget.{BudgetManager, check_budget, reserved_for, reserve}
use helios_os.Platform.NamespacePolicy.{GlobalPolicy}
use helios_os.Kernel.Composite.{Governance, composite_check}
use helios_os.Kernel.Composite.Cleared.{spent_day_ignored}
use helios_os.Runtime.Continuation.{CallStatus, Continuation, load, find_by_external_ref}
use helios_os.Runtime.Continuation.Refinement
use helios_os.Runtime.Continuation.Refinement.{
  save_op, index_op, delete_op, no_store, no_maps, spec_all, exec_all, find_run, store_refines_maps,
}
use helios_os.Tests.Fixtures.{no_input, no_budgets, cfg}
use helios_os.Tests.Engine.{parked_with}

abbrev company : GlobalPolicy
company = record {
  max_daily_budget_usd = none;
  max_per_task_budget_usd = none;
  denied_tools = "mcp.wipe" ∷ [];
  required_audit_level = "basic";
  required_hitl_events = [];
  pii_policy = "detect";
  max_a2a_depth = 5;
}

-- A name matches a pattern here if the pattern is a prefix of it.
abbrev rules : Governance
rules = record {
  fnmatch = λ name pattern. starts_with name pattern;
  global_policy = some company;
  policy_store = some [];
  policies = [];
}

abbrev spent : BudgetManager
spent = record no_budgets { reserved_by_agent = ("a1", 75) ∷ [] }

day_exceeded : (check_budget cfg.agents cfg.today "a1" (some 8) spent).action ≡ rate_limit
unfolding check_budget find_agent reserved_for get
day_exceeded = refl

spent_day_ignored_example :
    ((reserve cfg.agents cfg.today "t1" "a1" (some 8) none spent).1 ≡ none)
    × (composite_check cfg rules "a1" "mcp.read" no_input (some 8) spent
        ≡ composite_check cfg rules "a1" "mcp.read" no_input none spent)
spent_day_ignored_example =
    spent_day_ignored cfg rules "a1" "mcp.read" "t1" no_input 8 none spent day_exceeded

abbrev parked : Continuation
parked = parked_with CallStatus.executed

abbrev store_ops : List Refinement.Op
store_ops = save_op 3 parked ∷ index_op "r1" "c1" ∷ index_op "r2" "c2" ∷ delete_op "c2" ∷ []

store_refines_maps_example :
    (load "c1" (exec_all store_ops no_store) ≡ (spec_all store_ops no_maps).runs "c1")
    × (find_by_external_ref "r1" (exec_all store_ops no_store)
        ≡ find_run "r1" (spec_all store_ops no_maps))
store_refines_maps_example = store_refines_maps store_ops "c1" "r1"
