-- ===== src/Kernel/Permission/Tools.antt =====
-- What a tool call needs to be permitted, and when a human is asked.
use helios_os.Prelude.{
  String, true, false, ◌≡◌, ◌≢◌, ◌⊎◌, refl, Option, none, some, List, [], ◌∷◌, ◌++◌, any, contains,
  All, arith, inl, inr, Option-cases, ap, ◌∙◌, if◌then◌else◌,
}
use helios_os.Kernel.Json.{Value}
use helios_os.Kernel.Glob.{matches}
use helios_os.Kernel.Decision.{
  KernelDecision, allowing, denying, ask_human, allow, tool_permitted, no_registry,
  approval_required, cannot_suspend,
}
use helios_os.Kernel.Policy.{Conversions}
use helios_os.Kernel.Agent.{Agent, ApprovalRule, Mode, find_agent}
use helios_os.Kernel.Permission.{
  suspendable_stacks, list_empty, or_empty, require_approval, scan_rules, approval_context,
  approval_rules, check_approvals, check_agent_tool, check_tool_call,
}

-- The deny list does not name the tool, and the whitelist, where there is one, does.
pub record IsListed (agent : Agent) (tool_name : String) : Type 0 where
  pub not_denied : any (matches tool_name) agent.denied_tools ≡ false
  pub whitelisted : (list_empty agent.tools ≡ true) ⊎ (any (matches tool_name) agent.tools ≡ true)

module _ (conv : Conversions) (agent_id tool_name : String) (tool_input : Value) where
  -- Where a registry is wired, a tool call that is allowed, or that a human is asked about, is that
  -- of a registered agent whose deny list does not match the tool and whose whitelist, where it has
  -- one, does. Where none is wired, the check fails open: what it allows, it allows because there is no
  -- registry.
  pub check_tool_call-IsListed :
      (registry : Option (List Agent)) (d : KernelDecision)
      → check_tool_call conv registry agent_id tool_name tool_input ≡ some d
      → (d.action ≡ allow) ⊎ (d.action ≡ ask_human)
      → ((registry ≡ none) × (d ≡ allowing no_registry))
        ⊎ ((agents : List Agent) × (registry ≡ some agents)
            × (agent : Agent) × (find_agent agent_id agents ≡ some agent)
            × IsListed agent tool_name)
  unfolding check_tool_call check_agent_tool
  check_tool_call-IsListed none d h k = inl (refl, ground arith)
  check_tool_call-IsListed (some agents) d h k = elim (Option-cases (find_agent agent_id agents)) [
    | inl e ↦ absurd (ground arith)
    | inr (agent, e) ↦ inr (agents, refl, agent, e, ground arith)
  ]

-- A human is asked about the tool and its input, which are captured for the replay.
abbrev pub asking : String → Value → KernelDecision
asking tool_name tool_input = record {
  action = ask_human;
  reason = approval_required;
  ticket = none;
  captured = some (record { tool_name = tool_name; tool_input = or_empty tool_input });
}

-- The stack is one that can suspend in the middle of a tool call, or is not known.
abbrev pub IsSuspendable : Agent → Type 0
IsSuspendable agent =
    (agent.stack ≡ none)
    ⊎ ((s : String) × (agent.stack ≡ some s) × (contains s suspendable_stacks ≡ true))

require_approval-IsSuspendable :
    (agent : Agent) (tool_name : String) (tool_input : Value)
    → (require_approval agent tool_name tool_input).action ≡ ask_human
    → IsSuspendable agent
unfolding require_approval
require_approval-IsSuspendable agent tool_name tool_input h = elim (Option-cases agent.stack) [
  | inl e ↦ inl e
  | inr (s, e) ↦ inr (s, e, ground arith)
]

require_approval-captured :
    (agent : Agent) (tool_name : String) (tool_input : Value)
    → (require_approval agent tool_name tool_input).action ≡ ask_human
    → (require_approval agent tool_name tool_input).captured
      ≡ some (record { tool_name = tool_name; tool_input = or_empty tool_input })
unfolding require_approval
require_approval-captured agent tool_name tool_input h = ground arith

-- What a rule that is not conditional decides on a stack.
abbrev pub ruled : Mode → Option String → String → Value → KernelDecision
ruled Mode.never stack tool_name tool_input = allowing tool_permitted
ruled mode none tool_name tool_input = asking tool_name tool_input
ruled mode (some stack) tool_name tool_input =
    if contains stack suspendable_stacks
    then asking tool_name tool_input
    else denying cannot_suspend

module _ (conv : Conversions) (agent : Agent) (tool_name : String) (tool_input : Value) where
  required :
      (stack : Option String)
      → agent.stack ≡ stack
      → require_approval agent tool_name tool_input ≡ ruled Mode.always stack tool_name tool_input
  unfolding require_approval
  required none e = ground arith
  required (some stack) e = ground arith

  -- A decision of the rules that asks a human is the one of `require_approval`.
  scan_rules-ask :
      (context : Value) (rules : List ApprovalRule) (d : KernelDecision)
      → scan_rules conv agent tool_name tool_input context rules ≡ some (some d)
      → d.action ≡ ask_human
      → d ≡ require_approval agent tool_name tool_input
  unfolding scan_rules
  scan_rules-ask context [] d h k = cc
  scan_rules-ask context (r ∷ rules) d h k = ground (arith, scan_rules-ask context rules d)

  check_approvals_ask :
      (d : KernelDecision)
      → check_agent_tool conv agent tool_name tool_input ≡ some d
      → d.action ≡ ask_human
      → check_approvals conv agent tool_name tool_input ≡ some (some d)
  unfolding check_agent_tool
  check_approvals_ask d h k = ground arith

  ask-eq-require_approval :
      (d : KernelDecision)
      → check_agent_tool conv agent tool_name tool_input ≡ some d
      → d.action ≡ ask_human
      → d ≡ require_approval agent tool_name tool_input
  unfolding check_approvals
  ask-eq-require_approval d h k =
      scan_rules-ask (approval_context tool_name tool_input) (approval_rules agent) d
        (check_approvals_ask d h k) k

  -- A human is asked only on a stack that can suspend in the middle of a tool call, and the
  -- decision then carries the tool and its input, so that exactly this call can be replayed.
  ask_human-IsSuspendable :
      (d : KernelDecision)
      → check_agent_tool conv agent tool_name tool_input ≡ some d
      → d.action ≡ ask_human
      → IsSuspendable agent
        × (d.captured ≡ some (record { tool_name = tool_name; tool_input = or_empty tool_input }))
  ask_human-IsSuspendable d h k =
      let e = ask-eq-require_approval d h k in
      let asks = rw e at k in
      (
        require_approval-IsSuspendable agent tool_name tool_input asks,
        rw e (require_approval-captured agent tool_name tool_input asks),
      )

  -- A rule that lets the scan go on: its pattern does not match the tool.
  scan_rules-skip :
      (context : Value) (before rules : List ApprovalRule)
      → All (λ r. matches tool_name r.tool ≡ false) before
      → scan_rules conv agent tool_name tool_input context (before ++ rules)
        ≡ scan_rules conv agent tool_name tool_input context rules
  unfolding scan_rules
  scan_rules-skip context [] rules h = refl
  scan_rules-skip context (r ∷ before) rules h =
      ground (arith, scan_rules-skip context before rules h.1)

  abbrev answer : Option (Option KernelDecision) → Option KernelDecision
  answer none = none
  answer (some none) = some (allowing tool_permitted)
  answer (some (some d)) = some d

  check_agent_tool_listed :
      IsListed agent tool_name
      → check_agent_tool conv agent tool_name tool_input
        ≡ answer (check_approvals conv agent tool_name tool_input)
  unfolding check_agent_tool
  check_agent_tool_listed l = ground arith

  check_approvals_split :
      (before rules : List ApprovalRule)
      → approval_rules agent ≡ before ++ rules
      → All (λ r. matches tool_name r.tool ≡ false) before
      → check_approvals conv agent tool_name tool_input
        ≡ scan_rules conv agent tool_name tool_input (approval_context tool_name tool_input) rules
  unfolding check_approvals
  check_approvals_split before rules e hb =
      rw e (scan_rules-skip (approval_context tool_name tool_input) before rules hb)

  ruled_lem :
      (m : Mode)
      → m ≢ Mode.conditional
      → elim m as (λ _. Option KernelDecision) [
        | Mode.never ↦ some (allowing tool_permitted)
        | _ ↦ some (require_approval agent tool_name tool_input)
      ]
        ≡ some (ruled m agent.stack tool_name tool_input)
  ruled_lem Mode.never ne = refl
  ruled_lem Mode.always ne = ap (λ d. some d) (required agent.stack refl)
  ruled_lem Mode.conditional ne = absurd (ne refl)

  first_rule :
      (after : List ApprovalRule) (rule : ApprovalRule)
      → matches tool_name rule.tool ≡ true
      → rule.mode ≢ Mode.conditional
      → answer (
          scan_rules conv agent tool_name tool_input
            (approval_context tool_name tool_input)
            (rule ∷ after))
        ≡ elim rule.mode as (λ _. Option KernelDecision) [
          | Mode.never ↦ some (allowing tool_permitted)
          | _ ↦ some (require_approval agent tool_name tool_input)
        ]
  unfolding scan_rules
  first_rule after rule m ne = ground arith

  -- The first rule whose pattern matches a listed tool decides, when it is not conditional,
  -- whatever rules follow: `never` permits the call; `always` asks a human, with the tool and its
  -- input captured, where the stack can suspend or is not known, and denies where it cannot.
  pub first_rule_decides :
      (before after : List ApprovalRule) (rule : ApprovalRule)
      → IsListed agent tool_name
      → approval_rules agent ≡ before ++ rule ∷ after
      → All (λ r. matches tool_name r.tool ≡ false) before
      → matches tool_name rule.tool ≡ true
      → rule.mode ≢ Mode.conditional
      → check_agent_tool conv agent tool_name tool_input
        ≡ some (ruled rule.mode agent.stack tool_name tool_input)
  first_rule_decides before after rule l e hb m ne = rw (check_agent_tool_listed l) (
      rw (check_approvals_split before (rule ∷ after) e hb)
        (first_rule after rule m ne ∙ ruled_lem rule.mode ne))
