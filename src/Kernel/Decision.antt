-- ===== src/Kernel/Decision.antt =====
-- The kernel's decisions: `DecisionAction` and `KernelDecision` (src/platform/kernel/_facade.py).
-- The text of a reason is a constructor with the values that the message interpolates; audit ids
-- and timestamps are left out.
use helios_os.Prelude.{ℕ, String, Bool, true, false, Option, none}
use helios_os.Kernel.Json.{Value}

pub data Action : Type 0 where
  allow deny mask ask_human rate_limit : Action

pub Action-discrete : Discrete Action
Action-discrete = hlevel

pub data Reason : Type 0 where
  no_registry not_found explicitly_denied not_in_allowed tool_permitted : Reason
  approval_denied cannot_suspend approval_required : Reason
  not_bound exec_disabled command_not_allowed exec_permitted : Reason
  callee_not_found acl_permits acl_denies same_namespace cross_namespace : Reason
  per_task_exceeded daily_exceeded within_budget reserved committed released settled : Reason
  policy_missing policy_denies policy_asks policies_permit : Reason
  namespace_blocked namespace_not_allowed no_boundaries data_permitted : Reason
  license_required license_denied no_license_manager : Reason
  global_denied namespace_denied call_permitted : Reason
  stage_crashed syscall_allowed : Reason
  from_dispatcher : ℕ → Reason

-- The action that an `ask_human` decision carries, to be replayed once it is approved.
pub record Captured : Type 0 where
  pub tool_name : String
  pub tool_input : Value

pub record KernelDecision : Type 0 where
  pub action : Action
  pub reason : Reason
  pub ticket : Option String
  pub captured : Option Captured

abbrev pub decide_as : Action → Reason → KernelDecision
decide_as a r = record { action = a; reason = r; ticket = none; captured = none }

abbrev pub allowing : Reason → KernelDecision
allowing r = decide_as allow r

abbrev pub denying : Reason → KernelDecision
denying r = decide_as deny r

-- `decision.action == "allow"`, and so for `denied` and `needs_human`.
unfoldable pub allowed : KernelDecision → Bool
allowed d = elim d.action [ allow ↦ true | _ ↦ false ]

unfoldable pub denied : KernelDecision → Bool
denied d = elim d.action [ deny ↦ true | _ ↦ false ]

unfoldable pub needs_human : KernelDecision → Bool
needs_human d = elim d.action [ ask_human ↦ true | _ ↦ false ]
