-- ===== src/Kernel/Permission.antt =====
-- Allow or deny: classes `PermissionManager` and `DataBoundaryManager`
-- (src/platform/kernel/_facade.py). A check that raises, which only a rule's predicate can make it
-- do, is `none`.
pub mod Tools
pub mod Access
use Prim.Native.Char.{Char, code}
use helios_os.Prelude.{
  ℕ, String, str_eq, Bool, true, false, not, ◌&&◌, ◌||◌, Option, none, some, List, [], ◌∷◌, any,
  contains, map, ◌==◌, leb, is_some, if◌then◌else◌,
}
use helios_os.Kernel.Json.{Value, str, dict, field, no_fields, truthy}
use helios_os.Kernel.Glob.{matches}
use helios_os.Kernel.Decision.{
  KernelDecision, Captured, decide_as, allowing, denying, ask_human, no_registry, not_found,
  explicitly_denied, not_in_allowed, tool_permitted, approval_denied, cannot_suspend,
  approval_required, not_bound, exec_disabled, command_not_allowed, exec_permitted,
  callee_not_found, acl_permits, acl_denies, same_namespace, cross_namespace, namespace_blocked,
  namespace_not_allowed, no_boundaries, data_permitted,
}
use helios_os.Kernel.Policy.{Conversions, Rule, Verdict, evaluate_rule_tristate}
use helios_os.Kernel.Agent.{Agent, ApprovalRule, Mode, find_agent, find_callee}

-- `SUSPENDABLE_STACKS`
abbrev pub suspendable_stacks : List String
suspendable_stacks = "forgeos" ∷ "sandbox" ∷ "anthropic-agent-sdk" ∷ []

abbrev pub list_empty : List String → Bool
list_empty [] = true
list_empty (x ∷ xs) = false

-- The rule that an entry of `human_in_loop` stands for.
unfoldable pub hitl_rule : String → ApprovalRule
hitl_rule event = record {
  tool = event;
  mode = Mode.always;
  condition = record { deny_if = none; ask_human_if = none; is_empty = true };
}

-- `rules`, with the fallback to `human_in_loop`.
unfoldable pub approval_rules : Agent → List ApprovalRule
approval_rules agent = elim agent.approvals [
  | [] ↦ map hitl_rule agent.human_in_loop
  | r ∷ rs ↦ r ∷ rs
]

-- `tool_input or {}`
unfoldable pub or_empty : Value → Value
or_empty v = if truthy v then v else dict no_fields

unfoldable pub captured_ask : String → Value → KernelDecision
captured_ask tool_name tool_input = record {
  action = ask_human;
  reason = approval_required;
  ticket = none;
  captured = some (record { tool_name = tool_name; tool_input = or_empty tool_input });
}

-- The end of the loop's body: a rule that fires asks, or denies on a stack that cannot suspend.
unfoldable pub require_approval : Agent → String → Value → KernelDecision
unfolding captured_ask
require_approval agent tool_name tool_input = elim agent.stack [
  | none ↦ captured_ask tool_name tool_input
  | some stack ↦
      if contains stack suspendable_stacks
      then captured_ask tool_name tool_input
      else denying cannot_suspend
]

-- `{"tool_name": tool_name, "tool_input": tool_input or {}}`
unfoldable pub approval_context : String → Value → Value
approval_context tool_name tool_input =
    dict (field "tool_name" (str tool_name) (field "tool_input" (or_empty tool_input) no_fields))

module _ (conv : Conversions) where
  -- The loop of `_check_approvals`: `some none` where no rule gates the call.
  unfoldable pub scan_rules :
      Agent → String → Value → Value → List ApprovalRule → Option (Option KernelDecision)
  scan_rules agent tool_name tool_input context [] = some none
  scan_rules agent tool_name tool_input context (rule ∷ rules) =
      let rest = scan_rules agent tool_name tool_input context rules in
      if not (matches tool_name rule.tool) then rest else elim rule.mode [
        | Mode.never ↦ some none
        | Mode.always ↦ some (some (require_approval agent tool_name tool_input))
        | Mode.conditional ↦ elim (evaluate_rule_tristate conv rule.condition context) [
          | none ↦ none
          | some Verdict.deny ↦ some (some (denying approval_denied))
          | some Verdict.ask ↦ some (some (require_approval agent tool_name tool_input))
          | some Verdict.allow ↦ rest
        ]
      ]

  -- `_check_approvals`
  unfoldable pub check_approvals : Agent → String → Value → Option (Option KernelDecision)
  check_approvals agent tool_name tool_input =
      scan_rules agent tool_name tool_input (approval_context tool_name tool_input)
        (approval_rules agent)

  -- The part of `check_tool_call` past the lookup of the agent.
  unfoldable pub check_agent_tool : Agent → String → Value → Option KernelDecision
  check_agent_tool agent tool_name tool_input =
      if any (matches tool_name) agent.denied_tools
      then some (denying explicitly_denied)
      else if not (list_empty agent.tools) && not (any (matches tool_name) agent.tools)
      then some (denying not_in_allowed)
      else elim (check_approvals agent tool_name tool_input) [
        | none ↦ none
        | some none ↦ some (allowing tool_permitted)
        | some (some d) ↦ some d
      ]

  -- `PermissionManager.check_tool_call`; the registry is `none` where none is wired.
  unfoldable pub check_tool_call :
      Option (List Agent) → String → String → Value → Option KernelDecision
  check_tool_call none agent_id tool_name tool_input = some (allowing no_registry)
  check_tool_call (some agents) agent_id tool_name tool_input = elim (find_agent agent_id agents) [
    | none ↦ some (denying not_found)
    | some agent ↦ check_agent_tool agent tool_name tool_input
  ]

-- The whitespace of `str.strip()` and `str.split()`.
unfoldable pub is_space : Char → Bool
is_space c =
    let n = code c in
    (leb 9 n && leb n 13)
    || (leb 28 n && leb n 32)
    || n == 133
    || n == 160
    || n == 5760
    || (leb 8192 n && leb n 8202)
    || n == 8232
    || n == 8233
    || n == 8239
    || n == 8287
    || n == 12288

unfoldable pub until_space : String → String
unfolding is_space
until_space String.[] = String.[]
until_space (String.◌∷◌ c s) =
    let rest = until_space s in if is_space c then String.[] else String.◌∷◌ c rest

-- `parts[0] if parts else ""` for `parts = command.strip().split()`.
unfoldable pub leading_word : String → String
unfolding until_space
leading_word String.[] = String.[]
leading_word (String.◌∷◌ c s) =
    let rest = leading_word s in if is_space c then rest else until_space (String.◌∷◌ c s)

unfoldable pub is_bound : Option (String → Option String) → String → String → Bool
is_bound none agent_id env_id = false
is_bound (some lookup) agent_id env_id = elim (lookup agent_id) [
  | none ↦ false
  | some bound ↦ not (str_eq bound "") && str_eq bound env_id
]

-- `check_env_exec`; `lookup` is the binding lookup of the environment manager, where one is wired.
unfoldable pub check_env_exec :
    Option (List Agent)
    → Option (String → Option String)
    → String
    → String
    → String
    → KernelDecision
check_env_exec none lookup agent_id env_id command = allowing no_registry
check_env_exec (some agents) lookup agent_id env_id command = elim (find_agent agent_id agents) [
  | none ↦ denying not_found
  | some agent ↦
      if not (is_bound lookup agent_id env_id)
      then denying not_bound
      else if not agent.exec_enabled
      then denying exec_disabled
      else if not (list_empty agent.allowed_commands)
          && not (contains (leading_word command) agent.allowed_commands)
      then denying command_not_allowed
      else allowing exec_permitted
]

-- `check_a2a`; `acl` is `_check_permission` of the handler, where one is bound.
unfoldable pub check_a2a :
    Option (List Agent)
    → Option (Agent → String → String → Bool)
    → String
    → String
    → String
    → KernelDecision
check_a2a none acl caller_id namespace name = allowing no_registry
check_a2a (some agents) acl caller_id namespace name = elim (find_agent caller_id agents) [
  | none ↦ denying not_found
  | some caller ↦ elim (find_callee namespace name agents) [
    | none ↦ denying callee_not_found
    | some callee ↦ elim acl [
      | some permits ↦
          if permits callee caller.namespace caller.name
          then allowing acl_permits
          else denying acl_denies
      | none ↦
          if str_eq caller.namespace callee.namespace
          then allowing same_namespace
          else denying cross_namespace
    ]
  ]
]

-- The part of `DataBoundaryManager.check_data_access` past the lookup of the agent.
unfoldable pub check_boundaries : Agent → String → KernelDecision
check_boundaries agent target =
    if contains target agent.blocked_namespaces
    then denying namespace_blocked
    else if not (list_empty agent.allowed_namespaces)
        && not (contains target agent.allowed_namespaces)
    then denying namespace_not_allowed
    else if list_empty agent.allowed_namespaces
        && list_empty agent.blocked_namespaces
        && not (str_eq target agent.namespace)
    then denying no_boundaries
    else allowing data_permitted

-- `DataBoundaryManager.check_data_access`
unfoldable pub check_data_access : Option (List Agent) → String → String → KernelDecision
check_data_access none agent_id target = allowing no_registry
check_data_access (some agents) agent_id target = elim (find_agent agent_id agents) [
  | none ↦ denying not_found
  | some agent ↦ check_boundaries agent target
]
