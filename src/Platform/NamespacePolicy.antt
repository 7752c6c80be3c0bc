-- ===== src/Platform/NamespacePolicy.antt =====
-- Company, namespace and agent rules and how they are merged: `GlobalPolicy`, `NamespacePolicy`,
-- `NamespacePolicyStore` and `resolve_effective_policy` (src/platform/namespace_policy.py). A level is
-- kept as its text, as an agent's contract may name any. The tests on tool patterns are in Kernel/Composite.
pub mod Extremes
pub mod Tightening
use Prim.Native.Nat.{lt}
use Prim.Native.String.{compare}
use helios_os.Prelude.{
  ℕ, ◌+◌, String, str_eq, Bool, true, false, not, Option, none, some, List, [], ◌∷◌, ◌++◌, Dict,
  get, put, del, values, is_some, leb, ltb, or_else, length, keep, if◌then◌else◌,
}
use helios_os.Kernel.Agent.{Agent}

pub record NamespacePolicy : Type 0 where
  pub namespace : String
  pub max_agents : Option ℕ
  pub daily_budget_usd : Option ℕ
  pub allowed_tools : List String
  pub denied_tools : List String
  pub required_audit_level : String
  pub required_hitl_events : List String
  pub allowed_stacks : List String
  pub pii_policy : String
  pub max_tokens_per_agent_run : Option ℕ
  pub max_cost_per_agent_day : Option ℕ
  pub allowed_namespaces_for_data : List String

pub record GlobalPolicy : Type 0 where
  pub max_daily_budget_usd : Option ℕ
  pub max_per_task_budget_usd : Option ℕ
  pub denied_tools : List String
  pub required_audit_level : String
  pub required_hitl_events : List String
  pub pii_policy : String
  pub max_a2a_depth : ℕ

-- What `resolve_effective_policy` reads of an agent's contract; an absent `event` is empty.
pub record Contract : Type 0 where
  pub daily_usd : Option ℕ
  pub per_task_usd : Option ℕ
  pub audit_level : Option String
  pub hitl_events : List String

abbrev pub PolicyStore : Type 0
PolicyStore = Dict NamespacePolicy

unfoldable pub apply : NamespacePolicy → PolicyStore → PolicyStore
apply policy s = put policy.namespace policy s

unfoldable pub remove : String → PolicyStore → PolicyStore × Bool
remove namespace s = (del namespace s, is_some (get namespace s))

unfoldable pub count_agents_in_namespace : String → Option (List Agent) → ℕ
count_agents_in_namespace namespace none = 0
count_agents_in_namespace namespace (some agents) =
    length (keep (λ (a : Agent). str_eq a.namespace namespace) agents)

-- `level_order.get(x, 0)`
unfoldable pub audit_rank : String → ℕ
audit_rank level = if str_eq level "full" then 2 else if str_eq level "basic" then 1 else 0

-- `pii_order.get(x, 0)`
unfoldable pub pii_rank : String → ℕ
pii_rank level =
    if str_eq level "block"
    then 4
    else if str_eq level "redact"
    then 3
    else if str_eq level "mask"
    then 2
    else if str_eq level "detect"
    then 1
    else 0

abbrev pub given : Option ℕ → List ℕ
given none = []
given (some n) = n ∷ []

-- `min(xs) if xs else None`
unfoldable pub least : List ℕ → Option ℕ
least [] = none
least (n ∷ ns) =
    let rest = least ns in elim rest [ none ↦ some n | some m ↦ if ltb m n then some m else some n ]

-- `max(xs, key=rank) if xs else default`: the first of the highest.
unfoldable pub strictest : (String → ℕ) → List String → Option String
strictest rank [] = none
strictest rank (x ∷ xs) =
    let rest = strictest rank xs in
    elim rest [ none ↦ some x | some y ↦ if ltb (rank x) (rank y) then some y else some x ]

abbrev pub comes_before : String → String → Bool
comes_before s t = elim (compare s t) [ lt ↦ true | _ ↦ false ]

-- One text more in a sorted list with no repetition.
unfoldable pub insert_sorted : String → List String → List String
insert_sorted s [] = s ∷ []
insert_sorted s (t ∷ ts) =
    let rest = insert_sorted s ts in
    if str_eq s t then t ∷ ts else if comes_before s t then s ∷ t ∷ ts else t ∷ rest

-- `sorted(set(xs))`
unfoldable pub sorted_set : List String → List String
unfolding insert_sorted
sorted_set [] = []
sorted_set (s ∷ ss) = insert_sorted s (sorted_set ss)

-- `if h.get("event"): hitl_events.add(h["event"])`
unfoldable pub named_events : List String → List String
named_events events = keep (λ e. not (str_eq e "")) events

abbrev pub from_global {ℓ} : {A : Type ℓ} → Option GlobalPolicy → (GlobalPolicy → List A) → List A
from_global none f = []
from_global (some g) f = f g

abbrev pub from_namespace {ℓ} :
    {A : Type ℓ} → Option NamespacePolicy → (NamespacePolicy → List A) → List A
from_namespace none f = []
from_namespace (some n) f = f n

pub record EffectivePolicy : Type 0 where
  pub denied_tools : List String
  pub max_daily_budget_usd : Option ℕ
  pub max_per_task_budget_usd : Option ℕ
  pub required_audit_level : String
  pub required_hitl_events : List String
  pub pii_policy : String

module _ (global : Option GlobalPolicy) (ns : Option NamespacePolicy) (agent : Contract) where
  unfoldable pub daily_budgets : List ℕ
  daily_budgets =
      from_global global (λ g. given g.max_daily_budget_usd)
      ++ (from_namespace ns (λ n. given n.max_cost_per_agent_day) ++ given agent.daily_usd)

  unfoldable pub per_task_budgets : List ℕ
  per_task_budgets =
      from_global global (λ g. given g.max_per_task_budget_usd) ++ given agent.per_task_usd

  unfoldable pub audit_levels : List String
  audit_levels =
      from_global global (λ g. g.required_audit_level ∷ [])
      ++ (from_namespace ns (λ n. n.required_audit_level ∷ [])
          ++ or_else agent.audit_level "full" ∷ [])

  unfoldable pub pii_policies : List String
  pii_policies =
      from_global global (λ g. g.pii_policy ∷ []) ++ from_namespace ns (λ n. n.pii_policy ∷ [])

  unfoldable pub all_events : List String
  unfolding named_events
  all_events =
      from_global global (λ g. g.required_hitl_events)
      ++ (from_namespace ns (λ n. n.required_hitl_events) ++ named_events agent.hitl_events)

  unfoldable pub all_denied : List String
  all_denied = from_global global (λ g. g.denied_tools) ++ from_namespace ns (λ n. n.denied_tools)

  -- `resolve_effective_policy`
  unfoldable pub resolve_effective_policy : EffectivePolicy
  resolve_effective_policy = record {
    denied_tools = all_denied;
    max_daily_budget_usd = least daily_budgets;
    max_per_task_budget_usd = least per_task_budgets;
    required_audit_level = or_else (strictest audit_rank audit_levels) "basic";
    required_hitl_events = sorted_set all_events;
    pii_policy = or_else (strictest pii_rank pii_policies) "detect";
  }
