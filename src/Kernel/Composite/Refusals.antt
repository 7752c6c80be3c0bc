-- ===== src/Kernel/Composite/Refusals.antt =====
-- The gates of the composite check: one that ends it does not allow, and where the check allows, all of
-- them let the call through.
use helios_os.Prelude.{
  ℕ, String, Bool, true, false, ◌≡◌, refl, Option, none, some, List, [], ◌∷◌, get, arith,
  Bool-cases, inl, inr, if◌then◌else◌,
}
use helios_os.Kernel.Json.{Value}
use helios_os.Kernel.Decision.{KernelDecision, allowed, denied, needs_human}
use helios_os.Kernel.Policy.{PolicyRef, evaluate}
use helios_os.Kernel.Agent.{Agent, find_agent}
use helios_os.Kernel.Budget.{BudgetManager}
use helios_os.Kernel.Stages.{Config}
use helios_os.Platform.NamespacePolicy.{NamespacePolicy, GlobalPolicy, PolicyStore}
use helios_os.Kernel.Composite.{
  Governance, Gate, on, raises, stop, and_then, answer, stop_denied, stop_gated, is_tool_denied,
  is_tool_allowed, policy_context, registered, tenant_gate, license_gate, global_gate, policy_gate,
  namespace_gate, permission_gate, budget_gate, evaluate_gate, gates,
}

-- A gate that ends the check does not allow.
abbrev pub Refuses : Gate → Type 0
Refuses on = Unit
Refuses raises = Unit
Refuses (stop d a) = allowed d ≡ false

and_then-Refuses : (a b : Gate) → Refuses a → Refuses b → Refuses (and_then a b)
unfolding and_then
and_then-Refuses on b h k = k
and_then-Refuses raises b h k = tt
and_then-Refuses (stop d e) b h k = h

if-Refuses : (b : Bool) (x y : Gate) → Refuses x → Refuses y → Refuses (if b then x else y)
if-Refuses true x y h k = h
if-Refuses false x y h k = k

pub and_then-on : (a b : Gate) → and_then a b ≡ on → (a ≡ on) × (b ≡ on)
unfolding and_then
and_then-on on b h = (refl, h)
and_then-on raises b h = absurd (ground arith)
and_then-on (stop d e) b h = absurd (ground arith)

pub answer-on :
    (event : String) (a : Gate) (d : KernelDecision) (e : Option String)
    → Refuses a
    → answer event a ≡ some (d, e)
    → allowed d ≡ true
    → a ≡ on
unfolding answer
answer-on event on d e r h k = refl
answer-on event raises d e r h k = absurd (ground arith)
answer-on event (stop c b) d e r h k = absurd (ground arith)

stop_denied-Refuses : (event : String) (d : KernelDecision) → Refuses (stop_denied event d)
unfolding stop_denied denied allowed
stop_denied-Refuses event d = elim (Bool-cases (denied d)) [
  | inl e ↦ rw e (ground arith)
  | inr e ↦ rw e tt
]

pub stop_denied-on :
    (event : String) (d : KernelDecision) → stop_denied event d ≡ on → denied d ≡ false
unfolding stop_denied
stop_denied-on event d h = ground arith

stop_gated-Refuses : (e f : String) (o : Option KernelDecision) → Refuses (stop_gated e f o)
unfolding stop_gated denied needs_human allowed
stop_gated-Refuses e f none = tt
stop_gated-Refuses e f (some d) = elim (Bool-cases (denied d)) [
  | inl k ↦ rw k (ground arith)
  | inr k ↦ elim (Bool-cases (needs_human d)) [
    | inl n ↦ rw k (rw n (ground arith))
    | inr n ↦ rw k (rw n tt)
  ]
]

-- A decision that neither denies nor asks a human.
abbrev pub Clears : Option KernelDecision → Type 0
Clears o = (d : KernelDecision) × (o ≡ some d) × (denied d ≡ false) × (needs_human d ≡ false)

pub stop_gated-on : (e f : String) (o : Option KernelDecision) → stop_gated e f o ≡ on → Clears o
unfolding stop_gated
stop_gated-on e f none h = absurd (ground arith)
stop_gated-on e f (some d) h = (d, refl, ground arith, ground arith)

module _ (cfg : Config) (g : Governance) where
  tenant-Refuses :
      (check : String → KernelDecision) (a : Option Agent) → Refuses (tenant_gate cfg g check a)
  unfolding tenant_gate
  tenant-Refuses check none = tt
  tenant-Refuses check (some a) = stop_denied-Refuses "license.denied" (check a.tenant_id)

  license-Refuses :
      (l : Option (String → KernelDecision)) (agents : Option (List Agent)) (id : String)
      → Refuses (license_gate cfg g l agents id)
  unfolding license_gate allowed
  license-Refuses (some check) (some agents) id = tenant-Refuses check (find_agent id agents)
  license-Refuses none agents id = if-Refuses cfg.production (stop _ none) on refl tt
  license-Refuses (some check) none id = if-Refuses cfg.production (stop _ none) on refl tt

  global-Refuses : (p : Option GlobalPolicy) (tool : String) → Refuses (global_gate cfg g p tool)
  unfolding global_gate allowed
  global-Refuses none tool = tt
  global-Refuses (some p) tool = if-Refuses (is_tool_denied g.fnmatch tool p) (stop _ _) on refl tt

  policy-Refuses : (p : Option NamespacePolicy) (tool : String) → Refuses (policy_gate cfg g p tool)
  unfolding policy_gate allowed
  policy-Refuses none tool = tt
  policy-Refuses (some p) tool = if-Refuses (is_tool_allowed g.fnmatch tool p) on (stop _ _) tt refl

  namespace-Refuses :
      (s : Option PolicyStore) (a : Option Agent) (tool : String)
      → Refuses (namespace_gate cfg g s a tool)
  unfolding namespace_gate
  namespace-Refuses (some s) (some a) tool = policy-Refuses (get a.namespace s) tool
  namespace-Refuses none a tool = tt
  namespace-Refuses (some s) none tool = tt

  budget-Refuses :
      (id : String) (cost : Option ℕ) (b : BudgetManager) → Refuses (budget_gate cfg g id cost b)
  unfolding budget_gate
  budget-Refuses id none b = tt
  budget-Refuses id (some c) b = stop_denied-Refuses "tool.budget_denied" _

  evaluate-Refuses :
      (a : Option Agent) (tool : String) (input : Value)
      → Refuses (evaluate_gate cfg g a tool input)
  unfolding evaluate_gate
  evaluate-Refuses none tool input = tt
  evaluate-Refuses (some a) tool input = by_refs a.policies
    where
      by_refs :
          (rs : List PolicyRef)
          → Refuses (elim rs [
            | [] ↦ on
            | refs ↦
                stop_gated "tool.policy_denied" "tool.policy_ask_human"
                  (evaluate cfg.conv g.policies refs (policy_context a tool input))
          ])
      by_refs [] = tt
      by_refs (r ∷ rs) = stop_gated-Refuses "tool.policy_denied" "tool.policy_ask_human" _

  pub gates-Refuses :
      (id tool : String) (input : Value) (cost : Option ℕ) (b : BudgetManager)
      → Refuses (gates cfg g id tool input cost b)
  unfolding gates permission_gate
  gates-Refuses id tool input cost b =
      and_then-Refuses _ _ (license-Refuses cfg.license cfg.agents id) (
        and_then-Refuses _ _ (global-Refuses g.global_policy tool) (
          and_then-Refuses _ _
            (namespace-Refuses g.policy_store (registered cfg g cfg.agents id) tool)
            (and_then-Refuses _ _ (stop_gated-Refuses "tool.denied" "tool.ask_human" _) (
              and_then-Refuses _ _ (budget-Refuses id cost b)
                (evaluate-Refuses (registered cfg g cfg.agents id) tool input)))))
