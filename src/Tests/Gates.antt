-- ===== src/Tests/Gates.antt =====
-- The pipeline and the permission checks at concrete inputs.
use helios_os.Prelude.{
  ◌+◌, true, false, ◌≡◌, ◌≢◌, ◌⊎◌, refl, Option, none, some, List, [], ◌∷◌, inl, inr, any, contains,
  get, put,
}
use helios_os.Kernel.Glob.{matches, ends_with, rstrip_stars}
use helios_os.Kernel.Decision.{
  allow, allowed, denying, allowing, stage_crashed, tool_permitted, no_registry,
}
use helios_os.Kernel.Agent.{Agent, Mode, find_agent}
use helios_os.Kernel.Permission.{
  check_tool_call, check_agent_tool, check_env_exec, check_data_access, check_boundaries,
  approval_rules, scan_rules, check_approvals, is_bound, leading_word,
}
use helios_os.Kernel.Permission.Tools.{
  IsListed, ruled, check_tool_call-IsListed, first_rule_decides,
}
use helios_os.Kernel.Budget.{
  reserve, check_budget, reserved_for, over_task, over_day, add_reservation,
}
use helios_os.Kernel.Pipeline.{
  Syscall, StageName, identity, capability, quota, policy, boundary, dispatch, audit, stage_order,
  is_audit, crash, Stage, after_stage, run_from, run, final_allow,
}
use helios_os.Kernel.Pipeline.Order.{Through, step, done, allowed_only-Through}
use helios_os.Kernel.Pipeline.Refusals.{audited, refusal_is_audited, crash_is_not_audited}
use helios_os.Kernel.Stages.{
  World, stages, syscall, license_stage, capability_stage, tool_stage, tool_check, try_token,
  quota_stage, policy_stage, boundary_stage, dispatch_stage, audit_stage,
}
use helios_os.Kernel.Stages.Soundness.{ToolChecked, tool_call_allowed, data_read_crashes}
use helios_os.Kernel.Stages.Leaks.{refused_after_quota_stays_reserved}
use helios_os.Tests.Fixtures.{
  conv, writer, agents, no_input, lookup, no_budgets, fresh_world, cfg, call_of, always_rule,
}

abbrev read_call : Syscall
read_call = call_of "tool.call" "mcp.read" none

read_call_runs :
    (allowed (syscall cfg read_call fresh_world).decision ≡ true)
    × ((syscall cfg read_call fresh_world).called ≡ stage_order)
unfolding syscall run run_from after_stage stages license_stage capability_stage tool_stage
    tool_check try_token quota_stage policy_stage boundary_stage dispatch_stage audit_stage allowed
    reserve check_budget check_tool_call check_agent_tool check_approvals scan_rules approval_rules
    find_agent matches any final_allow ends_with rstrip_stars reserved_for get
read_call_runs = (refl, refl)

allowed_only-Through_example :
    (seen : List StageName) × (call' : Syscall) × (w' : World) × Through
      (stages cfg)
      stage_order
      read_call
      fresh_world
      seen
      call'
      w'
    × ((run (stages cfg) read_call fresh_world).called ≡ seen)
unfolding syscall
allowed_only-Through_example =
    allowed_only-Through (stages cfg) read_call fresh_world read_call_runs.0

tool_call_allowed_example :
    ToolChecked cfg read_call.args "a1" "mcp.read" fresh_world
    × ((reserve (some agents) 20 "t1" "a1" (some 3) none no_budgets).1 ≡ some "t1")
tool_call_allowed_example = tool_call_allowed cfg read_call fresh_world refl read_call_runs.0

-- A message to a namespace that the boundaries of the agent do not name.
abbrev send_call : Syscall
send_call = call_of "message.send" "mcp.read" (some "finance")

abbrev held_call : Syscall
held_call = record send_call { budget_ticket = some "t1" }

abbrev held_world : World
held_world = record fresh_world {
  budgets = record {
    reservations = ("t1", record { agent_id = "a1"; reserved_usd = 3; reserved_tokens = 0 }) ∷ [];
    reserved_by_agent = ("a1", 3) ∷ [];
    recorded = [];
  };
}

Through-two :
    Through
      (stages cfg)
      (identity ∷ capability ∷ [])
      send_call
      fresh_world
      (identity ∷ capability ∷ [])
      send_call
      fresh_world
unfolding stages license_stage capability_stage
Through-two = step (license_stage cfg) refl refl (step (capability_stage cfg) refl refl (done _ _))

Through-four :
    Through
      (stages cfg)
      (identity ∷ capability ∷ quota ∷ policy ∷ [])
      send_call
      fresh_world
      (identity ∷ capability ∷ quota ∷ policy ∷ [])
      held_call
      held_world
unfolding stages license_stage capability_stage quota_stage policy_stage reserve check_budget
    allowed find_agent over_task over_day reserved_for get add_reservation put
Through-four = step (license_stage cfg) refl refl (
    step (capability_stage cfg) refl refl
      (step (quota_stage cfg) refl refl (step (policy_stage cfg) refl refl (done _ _))))

refusal_is_audited_example :
    run (stages cfg) send_call fresh_world
    ≡ audited
        (stages cfg audit)
        held_call
        held_world
        (check_data_access (some agents) "a1" "finance")
        (identity ∷ capability ∷ quota ∷ policy ∷ boundary ∷ [])
unfolding stages boundary_stage check_data_access allowed is_audit find_agent check_boundaries
    contains
refusal_is_audited_example =
    refusal_is_audited (stages cfg) (identity ∷ capability ∷ quota ∷ policy ∷ [])
      (dispatch ∷ audit ∷ []) (identity ∷ capability ∷ quota ∷ policy ∷ []) boundary send_call
      held_call fresh_world held_world (boundary_stage cfg)
      (check_data_access (some agents) "a1" "finance") refl Through-four refl refl refl refl

-- A dispatcher that raises.
abbrev failing_stages : StageName → Option (Stage World)
failing_stages dispatch = some (λ call w. (crash, call, w))
failing_stages audit = some (audit_stage cfg)
failing_stages _ = none

Through-none :
    Through failing_stages
      (identity ∷ capability ∷ quota ∷ policy ∷ boundary ∷ [])
      send_call
      fresh_world
      []
      send_call
      fresh_world
Through-none = Through.absent refl (
    Through.absent refl
      (Through.absent refl (Through.absent refl (Through.absent refl (done _ _)))))

crash_is_not_audited_example : run failing_stages send_call fresh_world ≡ record {
  decision = denying stage_crashed;
  call = send_call;
  state = fresh_world;
  called = dispatch ∷ [];
}
crash_is_not_audited_example =
    crash_is_not_audited failing_stages (identity ∷ capability ∷ quota ∷ policy ∷ boundary ∷ [])
      (audit ∷ []) [] dispatch send_call send_call fresh_world fresh_world
      (λ call w. (crash, call, w)) refl Through-none refl refl

refused_after_quota_stays_reserved_example :
    ((syscall cfg send_call fresh_world).decision ≡ check_data_access (some agents) "a1" "finance")
    × ((syscall cfg send_call fresh_world).decision.ticket ≡ none)
    × (reserved_for "a1" (syscall cfg send_call fresh_world).state.budgets
        ≡ reserved_for "a1" no_budgets + 3)
unfolding reserve check_budget check_data_access allowed find_agent reserved_for get
    check_boundaries contains
refused_after_quota_stays_reserved_example =
    refused_after_quota_stays_reserved cfg send_call send_call fresh_world fresh_world
      (identity ∷ capability ∷ []) "finance" Through-two refl refl refl

data_read_crashes_example :
    ((syscall cfg (call_of "data.read" "notes" none) fresh_world).decision ≡ denying stage_crashed)
    × ((syscall cfg (call_of "data.read" "notes" none) fresh_world).called
        ≡ identity ∷ capability ∷ [])
unfolding license_stage
data_read_crashes_example =
    data_read_crashes cfg (call_of "data.read" "notes" none) fresh_world refl refl

check_tool_call-IsListed_example :
    ((some agents ≡ none) × (allowing tool_permitted ≡ allowing no_registry))
    ⊎ ((wired : List Agent) × (some agents ≡ some wired)
        × (agent : Agent) × (find_agent "a1" wired ≡ some agent)
        × IsListed agent "mcp.read")
unfolding check_tool_call check_agent_tool find_agent any matches ends_with rstrip_stars
    check_approvals scan_rules approval_rules
check_tool_call-IsListed_example =
    check_tool_call-IsListed conv "a1" "mcp.read" no_input (some agents) (allowing tool_permitted)
      refl (inl refl)

-- The shell command runs, and another one does not.
exec_runs :
    ((check_env_exec (some agents) (some lookup) "a1" "dev" " ls -l").action ≡ allow)
    × (allowed (check_env_exec (some agents) (some lookup) "a1" "dev" "rm x") ≡ false)
unfolding check_env_exec find_agent is_bound contains leading_word allowed
exec_runs = (refl, refl)

send-IsListed : IsListed writer "mcp.send"
unfolding matches any ends_with rstrip_stars
send-IsListed = record { not_denied = refl; whitelisted = inr refl }

always_not_conditional : Mode.always ≢ Mode.conditional
always_not_conditional e = cc

first_rule_decides_example :
    check_agent_tool conv writer "mcp.send" no_input
    ≡ some (ruled Mode.always writer.stack "mcp.send" no_input)
unfolding matches approval_rules
first_rule_decides_example =
    first_rule_decides conv writer "mcp.send" no_input [] [] (always_rule "mcp.send") send-IsListed
      refl tt refl always_not_conditional
